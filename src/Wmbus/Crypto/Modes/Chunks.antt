-- ===== src/Wmbus/Crypto/Modes/Chunks.antt =====
-- Bytes cut into blocks of 16 and joined again.
use mbuscrate.Prelude.{
  ℕ, zero, suc, ◌≤◌, ◌*◌, ◌%◌, ◌≡◌, refl, sym, ap, ◌∙◌, subst, take-length, drop-length, List, [],
  ◌∷◌, ◌++◌, length, length-append, append-nil, take, drop, take-append, drop-append,
  take-append-drop, length-take, length-drop, ltb, arith, IsByte, All, All-take, All-drop, false,
}
use mbuscrate.Wmbus.ModeC.Sender.{IsBlocked, concat}
use mbuscrate.Wmbus.Crypto.Backend.{IsBlock}
use mbuscrate.Wmbus.Crypto.Modes.{chunks, chunks_from, chunks_exact, chunks_exact_from}

chunks_from-concat :
    (rounds : ℕ) (bytes : List ℕ)
    → length bytes ≤ rounds
    → concat (chunks_from rounds bytes) ≡ bytes
unfolding chunks_from concat
chunks_from-concat zero [] h = refl
chunks_from-concat zero (b ∷ bs) h = absurd (omega arith)
chunks_from-concat (suc rounds) [] h = refl
chunks_from-concat (suc rounds) (b ∷ bs) h =
    rw (chunks_from-concat rounds (drop 16 (b ∷ bs)) (omega (arith, length-drop 16 (b ∷ bs))))
      (take-append-drop 16 (b ∷ bs))

pub concat-chunks : (bytes : List ℕ) → concat (chunks bytes) ≡ bytes
unfolding chunks
concat-chunks bytes = chunks_from-concat (length bytes) bytes (omega arith)

chunks_from-step :
    (rounds : ℕ) (bytes : List ℕ)
    → 1 ≤ length bytes
    → chunks_from (suc rounds) bytes ≡ take 16 bytes ∷ chunks_from rounds (drop 16 bytes)
unfolding chunks_from
chunks_from-step rounds [] h = absurd (omega arith)
chunks_from-step rounds (b ∷ bs) h = refl

-- A block of 16 bytes at the front.
chunks_from-block :
    (rounds : ℕ) (block rest : List ℕ)
    → length block ≡ 16
    → chunks_from (suc rounds) (block ++ rest) ≡ block ∷ chunks_from rounds rest
chunks_from-block rounds block rest size =
    chunks_from-step rounds (block ++ rest) (omega (arith, size, length-append block rest))
    ∙ rw (front, back) refl
  where
    front : take 16 (block ++ rest) ≡ block
    front = subst (λ (n : ℕ). take n (block ++ rest) ≡ block) size (take-append block rest)

    back : drop 16 (block ++ rest) ≡ rest
    back = subst (λ (n : ℕ). drop n (block ++ rest) ≡ rest) size (drop-append block rest)

-- With rounds to spare, the blocks that were joined are found again.
chunks_from-blocks :
    (rounds : ℕ) (blocks : List (List ℕ))
    → IsBlocked blocks
    → length (concat blocks) ≤ rounds
    → chunks_from rounds (concat blocks) ≡ blocks
unfolding chunks_from concat
chunks_from-blocks zero [] hb h = refl
chunks_from-blocks (suc rounds) [] hb h = refl
chunks_from-blocks zero (block ∷ []) (lo, hi) h =
    absurd (omega (arith, h, lo, length-append block []))
chunks_from-blocks (suc rounds) (block ∷ []) (lo, hi) h =
    ap (chunks_from (suc rounds)) (append-nil block)
    ∙ chunks_from-step rounds block lo
    ∙ rw (take-length block 16 hi, drop-length block 16 hi)
        (ap (λ (cs : List (List ℕ)). block ∷ cs) (no_bytes rounds))
  where
    no_bytes : (n : ℕ) → chunks_from n [] ≡ []
    no_bytes zero = refl
    no_bytes (suc n) = refl
chunks_from-blocks zero (block ∷ next ∷ blocks) (size, hb) h =
    absurd (omega (arith, h, size, length-append block (concat (next ∷ blocks))))
chunks_from-blocks (suc rounds) (block ∷ next ∷ blocks) (size, hb) h =
    chunks_from-block rounds block (concat (next ∷ blocks)) size
    ∙ ap (λ (cs : List (List ℕ)). block ∷ cs)
        (chunks_from-blocks rounds (next ∷ blocks) hb
          (omega (arith, h, size, length-append block (concat (next ∷ blocks)))))

pub chunks-concat : (blocks : List (List ℕ)) → IsBlocked blocks → chunks (concat blocks) ≡ blocks
unfolding chunks
chunks-concat blocks hb = chunks_from-blocks (length (concat blocks)) blocks hb (omega arith)

IsBlocked-cons :
    (block : List ℕ) (blocks : List (List ℕ))
    → 1 ≤ length block
    → length block ≤ 16
    → (1 ≤ length (concat blocks) → length block ≡ 16)
    → IsBlocked blocks
    → IsBlocked (block ∷ blocks)
unfolding concat
IsBlocked-cons block [] lo hi more hb = (lo, hi)
IsBlocked-cons block (next ∷ blocks) lo hi more hb = (more (first_positive next blocks hb), hb)
  where
    first_positive :
        (next : List ℕ) (blocks : List (List ℕ))
        → IsBlocked (next ∷ blocks)
        → 1 ≤ length (next ++ concat blocks)
    first_positive next [] (lo, hi) = omega (arith, lo, length-append next [])
    first_positive next (after ∷ blocks) (size, hb) =
        omega (arith, size, length-append next (concat (after ∷ blocks)))

-- Only the last chunk may be short, and none is empty.
chunks_from-IsBlocked :
    (rounds : ℕ) (bytes : List ℕ) → length bytes ≤ rounds → IsBlocked (chunks_from rounds bytes)
unfolding chunks_from
chunks_from-IsBlocked zero bytes h = tt
chunks_from-IsBlocked (suc rounds) [] h = tt
chunks_from-IsBlocked (suc rounds) (b ∷ bs) h =
    IsBlocked-cons (take 16 (b ∷ bs)) (chunks_from rounds (drop 16 (b ∷ bs)))
      (omega (arith, length-take 16 (b ∷ bs))) (omega (arith, length-take 16 (b ∷ bs)))
      (λ more. omega (
        arith,
        length-take 16 (b ∷ bs),
        length-drop 16 (b ∷ bs),
        more,
        ap length (chunks_from-concat rounds (drop 16 (b ∷ bs)) fits),
      ))
      (chunks_from-IsBlocked rounds (drop 16 (b ∷ bs)) fits)
  where
    fits : length (drop 16 (b ∷ bs)) ≤ rounds
    fits = omega (arith, length-drop 16 (b ∷ bs))

pub chunks-IsBlocked : (bytes : List ℕ) → IsBlocked (chunks bytes)
unfolding chunks
chunks-IsBlocked bytes = chunks_from-IsBlocked (length bytes) bytes (omega arith)

-- Whole blocks.
abbrev pub AreWhole : List (List ℕ) → Type 0
AreWhole blocks = All (λ (block : List ℕ). length block ≡ 16) blocks

chunks_exact_from-blocks :
    (rounds : ℕ) (blocks : List (List ℕ))
    → AreWhole blocks
    → length (concat blocks) ≤ rounds
    → chunks_exact_from rounds (concat blocks) ≡ blocks
unfolding chunks_exact_from concat
chunks_exact_from-blocks zero [] hb h = refl
chunks_exact_from-blocks (suc rounds) [] hb h = refl
chunks_exact_from-blocks zero (block ∷ blocks) (size, hb) h =
    absurd (omega (arith, h, size, length-append block (concat blocks)))
chunks_exact_from-blocks (suc rounds) (block ∷ blocks) (size, hb) h =
    rw (enough, front, back)
      (ap (λ (cs : List (List ℕ)). block ∷ cs)
        (chunks_exact_from-blocks rounds blocks hb
          (omega (arith, h, size, length-append block (concat blocks)))))
  where
    enough : ltb (length (block ++ concat blocks)) 16 ≡ false
    enough = ground (arith, size, length-append block (concat blocks))

    front : take 16 (block ++ concat blocks) ≡ block
    front =
        subst (λ (n : ℕ). take n (block ++ concat blocks) ≡ block) size
          (take-append block (concat blocks))

    back : drop 16 (block ++ concat blocks) ≡ concat blocks
    back =
        subst (λ (n : ℕ). drop n (block ++ concat blocks) ≡ concat blocks) size
          (drop-append block (concat blocks))

chunks_exact-concat :
    (blocks : List (List ℕ)) → AreWhole blocks → chunks_exact (concat blocks) ≡ blocks
unfolding chunks_exact
chunks_exact-concat blocks hb =
    chunks_exact_from-blocks (length (concat blocks)) blocks hb (omega arith)

-- Blocks of bytes, where the bytes fill them.
pub chunks-IsBlock :
    (bytes : List ℕ) → length bytes % 16 ≡ 0 → All IsByte bytes → All IsBlock (chunks bytes)
unfolding concat
chunks-IsBlock bytes fill hb =
    whole_blocks (chunks bytes) (chunks-IsBlocked bytes) (rw (concat-chunks bytes) fill)
      (rw (concat-chunks bytes) hb)
  where
    whole_blocks :
        (blocks : List (List ℕ))
        → IsBlocked blocks
        → length (concat blocks) % 16 ≡ 0
        → All IsByte (concat blocks)
        → All IsBlock blocks
    whole_blocks [] h fill hb = tt
    whole_blocks (block ∷ []) (lo, hi) fill hb =
        ((omega (arith, fill, lo, hi, length-append block []), All-take IsByte block [] hb), tt)
    whole_blocks (block ∷ next ∷ blocks) (size, h) fill hb = (
      (size, All-take IsByte block (concat (next ∷ blocks)) hb),
      whole_blocks (next ∷ blocks) h
          (omega (arith, fill, size, length-append block (concat (next ∷ blocks))))
          (All-drop IsByte block (concat (next ∷ blocks)) hb),
    )

AreWhole-IsBlock : (blocks : List (List ℕ)) → All IsBlock blocks → AreWhole blocks
AreWhole-IsBlock [] h = tt
AreWhole-IsBlock (block ∷ blocks) ((size, hb), h) = (size, AreWhole-IsBlock blocks h)

pub chunks_exact-blocks :
    (blocks : List (List ℕ)) → All IsBlock blocks → chunks_exact (concat blocks) ≡ blocks
chunks_exact-blocks blocks h = chunks_exact-concat blocks (AreWhole-IsBlock blocks h)

pub chunks_exact-chunks :
    (bytes : List ℕ) → length bytes % 16 ≡ 0 → All IsByte bytes → chunks_exact bytes ≡ chunks bytes
chunks_exact-chunks bytes fill hb =
    ap chunks_exact (sym (concat-chunks bytes))
    ∙ chunks_exact-blocks (chunks bytes) (chunks-IsBlock bytes fill hb)

pub length-concat_blocks :
    (blocks : List (List ℕ)) → All IsBlock blocks → length (concat blocks) ≡ 16 * length blocks
unfolding concat
length-concat_blocks [] h = refl
length-concat_blocks (block ∷ blocks) ((size, hb), h) =
    omega (arith, size, length-concat_blocks blocks h, length-append block (concat blocks))
