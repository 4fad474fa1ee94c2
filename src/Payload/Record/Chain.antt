-- ===== src/Payload/Record/Chain.antt =====
-- The extension bytes of src/payload/record.rs: a chain ends with the first byte whose top bit is clear.
use mbuscrate.Prelude.{
  ℕ, suc, ◌+◌, ◌≤◌, ◌≡◌, ◌≢◌, refl, sym, ap, ◌∙◌, bit_and, List, [], ◌∷◌, ◌++◌, false, leb, ◌==◌,
  length, drop, replicate, set, append_assoc, arith,
}
use mbuscrate.Payload.Record.{read_extensions}

abbrev pub IsChain : List ℕ → Type 0
IsChain [] = ⊥
IsChain (b ∷ []) = bit_and b 0x80 ≡ 0
IsChain (b ∷ c ∷ bs) = (bit_and b 0x80 ≢ 0) × IsChain (c ∷ bs)

pub read_extensions-length :
    (i : List ℕ) (count : ℕ) (ext : List ℕ) → length (read_extensions i count ext).2 ≤ length i
unfolding read_extensions
read_extensions-length [] count ext = omega arith
read_extensions-length (b ∷ i) count ext =
    ground (arith, read_extensions-length i (count + 1) (set ext count b))

set-append :
    (pre post : List ℕ) (b x : ℕ) → set (pre ++ x ∷ post) (length pre) b ≡ (pre ++ b ∷ []) ++ post
set-append [] post b x = refl
set-append (p ∷ pre) post b x = ap (λ (r : List ℕ). p ∷ r) (set-append pre post b x)

length-snoc : (pre : List ℕ) (b : ℕ) → length pre + 1 ≡ length (pre ++ b ∷ [])
length-snoc [] b = refl
length-snoc (p ∷ pre) b = omega (arith, length-snoc pre b)

-- The array fills from its front: `pre` is what was written before.
abbrev filled : List ℕ → List ℕ → List ℕ → List ℕ
filled pre bs post = pre ++ (bs ++ drop (length bs) post)

abbrev read_as : List ℕ → ℕ → List ℕ → List ℕ × ℕ × List ℕ
read_as ext count rest = (ext, count, rest)

shift :
    (b : ℕ) (bs rest pre post : List ℕ)
    → read_as (filled (pre ++ b ∷ []) bs post) (length (pre ++ b ∷ []) + length bs) rest
      ≡ read_as (pre ++ (b ∷ bs ++ drop (length bs) post)) (length pre + suc (length bs)) rest
shift b bs rest pre post =
    rw (append_assoc pre (b ∷ []) (bs ++ drop (length bs) post), sym (length-snoc pre b))
      (ap (λ (n : ℕ). read_as (pre ++ (b ∷ bs ++ drop (length bs) post)) n rest) (omega arith))

more_room : (pre : List ℕ) (n : ℕ) → length pre + suc n ≤ 10 → leb 10 (length pre) ≡ false
more_room pre n h = ground arith

pub read_extensions_lem :
    (bs rest pre post : List ℕ)
    → IsChain bs
    → length pre + length bs ≤ 10
    → length bs ≤ length post
    → read_extensions (bs ++ rest) (length pre) (pre ++ post)
      ≡ (filled pre bs post, length pre + length bs, rest)
unfolding read_extensions
read_extensions_lem [] rest pre post c fits room = elim c [ ]
read_extensions_lem (b ∷ bs) rest pre [] c fits room = absurd (omega arith)
read_extensions_lem (b ∷ []) rest pre (x ∷ post) c fits room =
    rw (more_room pre 0 fits, c, set-append pre post b x, append_assoc pre (b ∷ []) post) refl
read_extensions_lem (b ∷ d ∷ bs) rest pre (x ∷ post) c fits room =
    let goes : (bit_and b 0x80 == 0) ≡ false = ground (arith, c.0) in
    let step =
      read_extensions_lem (d ∷ bs) rest (pre ++ b ∷ []) post c.1 (omega (arith, length-snoc pre b))
        (omega arith) in
    rw (more_room pre (suc (length bs)) fits, goes, set-append pre post b x, length-snoc pre b)
      (step ∙ shift b (d ∷ bs) rest pre post)

abbrev pub padded : ℕ → List ℕ → List ℕ
padded n xs = xs ++ drop (length xs) (replicate n 0)

-- The loop from its start, on a cleared array.
pub read_extensions-chain :
    (bs rest ext : List ℕ)
    → IsChain bs
    → length bs ≤ 10
    → ext ≡ replicate 10 0
    → read_extensions (bs ++ rest) 0 ext ≡ (padded 10 bs, length bs, rest)
read_extensions-chain bs rest ext c room blank =
    ap (read_extensions (bs ++ rest) 0) blank
    ∙ read_extensions_lem bs rest [] (replicate 10 0) c (omega arith) (omega arith)
    ∙ ap (λ (n : ℕ). read_as (padded 10 bs) n rest) (omega arith)
