-- ===== src/Payload/Chains/Dif.antt =====
-- parse_dif_chain of src/payload/data.rs, exactly.
use mbuscrate.Prelude.{
  ℕ, ◌+◌, ◌≤◌, ◌≡◌, ◌↔◌, refl, sym, subst, ap, ◌∙◌, bit_and, List, [], ◌∷◌, ◌++◌, true, false, ltb,
  ◌==◌, length, ok, arith, Bool-cases, inl, inr, append-nil, append_assoc, length-append, ◌>>=◌,
}
use mbuscrate.Nom.{Nom, IResult}
use mbuscrate.Payload.Chains.{dif_loop, parse_dif_chain, start_dif}
use mbuscrate.Payload.Record.Chain.{IsChain}

dif_loop-chain :
    (bs rest chain : List ℕ) (cur : ℕ)
    → IsChain (cur ∷ bs)
    → length chain + length bs ≤ 11
    → dif_loop (bs ++ rest) chain cur ≡ ok (rest, chain ++ bs)
unfolding dif_loop
dif_loop-chain [] [] chain cur c fits = rw (c, append-nil chain) refl
dif_loop-chain [] (r ∷ rest) chain cur c fits = rw (c, append-nil chain) refl
dif_loop-chain (b ∷ bs) rest chain cur (goes, c) fits =
    let more : (bit_and cur 0x80 == 0) ≡ false = ground (arith, goes) in
    let room : ltb 10 (length chain) ≡ false = ground arith in
    rw (more, room)
      (dif_loop-chain bs rest (chain ++ b ∷ []) b c (omega (arith, length-append chain (b ∷ [])))
        ∙ ap (λ (out : List ℕ). ok (rest, out)) (append_assoc chain (b ∷ []) bs))

-- What a success of the loop says of its input.
abbrev Read : List ℕ → List ℕ → ℕ → List ℕ → List ℕ → Type 0
Read input chain cur rest out =
    (bs : List ℕ) × (input ≡ bs ++ rest)
    × (out ≡ chain ++ bs)
    × IsChain (cur ∷ bs)
    × (length out ≤ 11)

stop-Read :
    (input chain rest out : List ℕ) (cur : ℕ)
    → (bit_and cur 0x80 == 0) ≡ true
    → length chain ≤ 11
    → ◌≡◌ {A = IResult (List ℕ)} (ok (input, chain)) (ok (rest, out))
    → Read input chain cur rest out
stop-Read input chain rest out cur last small e =
    let rest_eq : input ≡ rest = cc in
    let out_eq : chain ≡ out = cc in
    (
      [],
      rest_eq,
      sym out_eq ∙ sym (append-nil chain),
      ground arith,
      omega (arith, ap length out_eq),
    )

dif_loop-eq_ok :
    (input chain rest out : List ℕ) (cur : ℕ)
    → length chain ≤ 11
    → dif_loop input chain cur ≡ ok (rest, out)
    → Read input chain cur rest out
unfolding dif_loop
dif_loop-eq_ok [] chain rest out cur small e = elim (Bool-cases (bit_and cur 0x80 == 0)) [
  | inl last ↦ stop-Read [] chain rest out cur last small (rw last at e)
  | inr more ↦ cc (rw more at e)
]
dif_loop-eq_ok (b ∷ input) chain rest out cur small e = elim (Bool-cases (bit_and cur 0x80 == 0)) [
  | inl last ↦ stop-Read (b ∷ input) chain rest out cur last small (rw last at e)
  | inr more ↦ elim (Bool-cases (ltb 10 (length chain))) [
    | inl full ↦ cc (rw (more, full) at e)
    | inr room ↦
        let (bs, split, joined, c, fits) =
          dif_loop-eq_ok input (chain ++ b ∷ []) rest out b
            (ground (arith, length-append chain (b ∷ []))) (rw (more, room) at e) in
        (
          b ∷ bs,
          ap (λ (r : List ℕ). b ∷ r) split,
          joined ∙ append_assoc chain (b ∷ []) bs,
          ((λ z. ground arith), c),
          fits,
        )
  ]
]

-- parse_dif_chain succeeds exactly on a chain of at most eleven bytes, whatever follows: a DIF and its
-- extensions, each with its top bit set but the last. It returns the chain and what follows.
pub parse_dif_chain_iff :
    (nom : Nom) (input rest chain : List ℕ)
    → (parse_dif_chain nom input ≡ ok (rest, chain))
      ↔ ((input ≡ chain ++ rest) × IsChain chain × (length chain ≤ 11))
unfolding parse_dif_chain
parse_dif_chain_iff nom input rest chain = (forward input, back chain)
  where
    forward :
        (i : List ℕ)
        → (nom.be_u8 i >>= start_dif) ≡ ok (rest, chain)
        → (i ≡ chain ++ rest) × IsChain chain × (length chain ≤ 11)
    forward [] e = cc (rw nom.be_u8-nil at e)
    forward (b ∷ i) e =
        let (bs, split, joined, c, fits) =
          dif_loop-eq_ok i (b ∷ []) rest chain b (omega arith) (rw (nom.be_u8-cons b i) at e) in
        (
          ap (λ (r : List ℕ). b ∷ r) split ∙ ap (λ (r : List ℕ). r ++ rest) (sym joined),
          subst IsChain (sym joined) c,
          fits,
        )

    back :
        (c : List ℕ)
        → (input ≡ c ++ rest) × IsChain c × (length c ≤ 11)
        → (nom.be_u8 input >>= start_dif) ≡ ok (rest, c)
    back [] (split, none, fits) = elim none [ ]
    back (b ∷ c) (split, whole, fits) =
        rw (split, nom.be_u8-cons b (c ++ rest))
          (dif_loop-chain c rest (b ∷ []) b whole (omega arith))
