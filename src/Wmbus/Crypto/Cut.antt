-- ===== src/Wmbus/Crypto/Cut.antt =====
-- Frames cut at the byte behind their header of ten bytes.
use mbuscrate.Prelude.{
  ℕ, zero, suc, ◌+◌, ◌≡◌, refl, sym, ap, subst, ◌∙◌, List, [], ◌∷◌, ◌++◌, append_assoc, length,
  length-append, get_or, take, drop, take-append, drop-append, arith,
}

-- A frame cut at its CI byte.
pub record IsCut (front : List ℕ) (ci : ℕ) (payload frame : List ℕ) : Type 0 where
  pub ci_at : get_or frame 10 0 ≡ ci
  pub head : take 10 frame ≡ front
  pub head_ci : take 11 frame ≡ front ++ (ci ∷ [])
  pub tail : drop 11 frame ≡ payload
  pub size : length frame ≡ 11 + length payload

pub cut :
    (front : List ℕ) (ci : ℕ) (payload : List ℕ)
    → length front ≡ 10
    → IsCut front ci payload (front ++ (ci ∷ payload))
cut front ci payload size = record {
  ci_at = at_end front ci payload 10 size;
  head =
      subst (λ (n : ℕ). take n (front ++ (ci ∷ payload)) ≡ front) size
        (take-append front (ci ∷ payload));
  head_ci =
      ap (take 11) (sym (append_assoc front (ci ∷ []) payload))
      ∙ subst (λ (n : ℕ). take n ((front ++ (ci ∷ [])) ++ payload) ≡ front ++ (ci ∷ [])) size_ci
          (take-append (front ++ (ci ∷ [])) payload);
  tail =
      ap (drop 11) (sym (append_assoc front (ci ∷ []) payload))
      ∙ subst (λ (n : ℕ). drop n ((front ++ (ci ∷ [])) ++ payload) ≡ payload) size_ci
          (drop-append (front ++ (ci ∷ [])) payload);
  size = omega (arith, size, length-append front (ci ∷ payload));
}
  where
    size_ci : length (front ++ (ci ∷ [])) ≡ 11
    size_ci = omega (arith, size, length-append front (ci ∷ []))

    at_end :
        (front : List ℕ) (x : ℕ) (rest : List ℕ) (n : ℕ)
        → length front ≡ n
        → get_or (front ++ (x ∷ rest)) n 0 ≡ x
    at_end [] x rest zero e = refl
    at_end [] x rest (suc n) e = absurd (omega arith)
    at_end (b ∷ bs) x rest zero e = absurd (omega arith)
    at_end (b ∷ bs) x rest (suc n) e = at_end bs x rest n (omega arith)
