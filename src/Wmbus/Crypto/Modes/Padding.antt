-- ===== src/Wmbus/Crypto/Modes/Padding.antt =====
-- PKCS#7 padding.
use mbuscrate.Prelude.{
  ℕ, zero, suc, ◌+◌, ◌-◌, ◌%◌, ◌^◌, ◌≤◌, ◌<◌, ◌≡◌, refl, sym, ap, ap₂, ◌∙◌, ◌↔◌, List, [], ◌∷◌,
  ◌++◌, length, length-append, length-replicate, length-drop, get_or, take, drop, replicate,
  take-append, drop-append, take-append-drop, arith, All, All-append, IsByte, Bool, true, false,
  ◌||◌, ◌==◌, ==_iff, ltb, Bool-cases, inl, inr, ok,
}
use mbuscrate.Wmbus.Crypto.Modes.{pkcs7_pad, pkcs7_unpad, all_equal}

all_equal-replicate : (n k : ℕ) → all_equal k (replicate n k) ≡ true
unfolding all_equal
all_equal-replicate zero k = refl
all_equal-replicate (suc n) k = rw ((==_iff k k).1 refl) (all_equal-replicate n k)

replicate-all_equal : (k : ℕ) (bs : List ℕ) → all_equal k bs ≡ true → bs ≡ replicate (length bs) k
unfolding all_equal
replicate-all_equal k [] h = refl
replicate-all_equal k (b ∷ bs) h = elim (Bool-cases (b == k)) [
  | inl same ↦
      ap₂ (λ (x : ℕ) (xs : List ℕ). x ∷ xs) ((==_iff b k).0 same)
        (replicate-all_equal k bs (rw same at h))
  | inr other ↦ cc (rw other at h)
]

-- The last byte of a padded text.
last-padded :
    (bytes : List ℕ) (n k i : ℕ)
    → i ≡ length bytes + n
    → get_or (bytes ++ replicate (suc n) k) i 0 ≡ k
last-padded [] zero k zero h = refl
last-padded [] zero k (suc i) h = absurd (omega arith)
last-padded [] (suc n) k zero h = absurd (omega arith)
last-padded [] (suc n) k (suc i) h = last-padded [] n k i (omega arith)
last-padded (b ∷ bs) n k zero h = absurd (omega arith)
last-padded (b ∷ bs) n k (suc i) h = last-padded bs n k i (omega arith)

-- The tests of `pkcs7_unpad`, passed.
record IsPadded (k : ℕ) (bytes : List ℕ) : Type 0 where
  last : get_or bytes (length bytes - 1) 0 ≡ k
  positive : 1 ≤ k
  at_most : k ≤ 16
  inside : k ≤ length bytes
  equal : all_equal k (drop (length bytes - k) bytes) ≡ true

pkcs7_unpad-IsPadded :
    (k : ℕ) (bytes : List ℕ)
    → IsPadded k bytes
    → pkcs7_unpad bytes ≡ ok (take (length bytes - k) bytes)
unfolding pkcs7_unpad
pkcs7_unpad-IsPadded k bytes h =
    rw (some_bytes, h.last) (rw (some_pad, not_long, in_range, h.equal) refl)
  where
    some_bytes : (length bytes == 0) ≡ false
    some_bytes = ground (arith, h.positive, h.inside)

    some_pad : (k == 0) ≡ false
    some_pad = ground (arith, h.positive)

    not_long : ltb 16 k ≡ false
    not_long = ground (arith, h.at_most)

    in_range : ltb (length bytes) k ≡ false
    in_range = ground (arith, h.inside)

IsPadded-pkcs7_unpad :
    (bytes plain : List ℕ)
    → pkcs7_unpad bytes ≡ ok plain
    → (k : ℕ) × IsPadded k bytes × (plain ≡ take (length bytes - k) bytes)
unfolding pkcs7_unpad
IsPadded-pkcs7_unpad bytes plain h = elim (Bool-cases (length bytes == 0)) [
  | inl empty ↦ cc (rw empty at h)
  | inr some_bytes ↦ elim (Bool-cases bad) [
    | inl refused ↦ cc (rw (some_bytes, refused) at h)
    | inr fine ↦ elim (Bool-cases (all_equal pad_len (drop (length bytes - pad_len) bytes))) [
      | inr other ↦ cc (rw (some_bytes, fine, other) at h)
      | inl equal ↦ (
        pad_len,
        record {
          last = refl;
          positive = ground (arith, fine);
          at_most = ground (arith, fine);
          inside = ground (arith, fine);
          equal = equal;
        },
        cc (rw (some_bytes, fine, equal) at h),
      )
    ]
  ]
]
  where
    pad_len : ℕ
    pad_len = get_or bytes (length bytes - 1) 0

    bad : Bool
    bad = pad_len == 0 || ltb 16 pad_len || ltb (length bytes) pad_len

-- Padding, whatever its length, is found and removed.
pkcs7_unpad-replicate :
    (bytes : List ℕ) (n : ℕ) → n < 16 → pkcs7_unpad (bytes ++ replicate (suc n) (suc n)) ≡ ok bytes
pkcs7_unpad-replicate bytes n h =
    pkcs7_unpad-IsPadded (suc n) padded (record {
      last = last-padded bytes n (suc n) (length padded - 1) (omega (arith, size));
      positive = omega arith;
      at_most = omega arith;
      inside = omega (arith, size);
      equal = ap (all_equal (suc n)) back ∙ all_equal-replicate (suc n) (suc n);
    })
    ∙ ap ok (ap (λ (i : ℕ). take i padded) split ∙ take-append bytes pad)
  where
    pad : List ℕ
    pad = replicate (suc n) (suc n)

    padded : List ℕ
    padded = bytes ++ pad

    size : length padded ≡ length bytes + suc n
    size = omega (arith, length-append bytes pad, length-replicate n (suc n))

    split : length padded - suc n ≡ length bytes
    split = omega (arith, size)

    back : drop (length padded - suc n) padded ≡ pad
    back = ap (λ (i : ℕ). drop i padded) split ∙ drop-append bytes pad

-- `pkcs7_unpad` succeeds exactly on a text followed by 1 to 16 bytes that all hold their number, and
-- returns the text.
pub pkcs7_unpad_iff :
    (bytes plain : List ℕ)
    → (pkcs7_unpad bytes ≡ ok plain)
      ↔ ((n : ℕ) × (n < 16) × (bytes ≡ plain ++ replicate (suc n) (suc n)))
pkcs7_unpad_iff bytes plain = (forth, back)
  where
    forth :
        pkcs7_unpad bytes ≡ ok plain
        → (n : ℕ) × (n < 16) × (bytes ≡ plain ++ replicate (suc n) (suc n))
    forth e =
        let (k, h, front) = IsPadded-pkcs7_unpad bytes plain e in
        let tail = drop (length bytes - k) bytes in
        let size : length tail ≡ suc (k - 1) =
          omega (arith, h.inside, h.positive, length-drop (length bytes - k) bytes) in
        let whole : suc (k - 1) ≡ k = omega (arith, h.positive) in
        (
          k - 1,
          omega (arith, h.at_most, h.positive),
          sym (take-append-drop (length bytes - k) bytes)
              ∙ ap₂ (λ (x y : List ℕ). x ++ y) (sym front)
                  (replicate-all_equal k tail h.equal
                    ∙ ap₂ (λ (i v : ℕ). replicate i v) size (sym whole)),
        )

    back :
        (n : ℕ) × (n < 16) × (bytes ≡ plain ++ replicate (suc n) (suc n))
        → pkcs7_unpad bytes ≡ ok plain
    back (n, h, e) = ap pkcs7_unpad e ∙ pkcs7_unpad-replicate plain n h

pkcs7_pad-replicate :
    (bytes : List ℕ)
    → (n : ℕ) × (n < 16)
      × (pkcs7_pad bytes 16 ≡ bytes ++ replicate (suc n) (suc n))
      × ((length bytes + suc n) % 16 ≡ 0)
unfolding pkcs7_pad
pkcs7_pad-replicate bytes =
    let n = 15 - length bytes % 16 in
    (
      n,
      omega arith,
      ap₂ (λ (i v : ℕ). bytes ++ replicate i v) {x = 16 - length bytes % 16} {y = suc n}
          {u = (16 - length bytes % 16) % 2 ^ 8} {v = suc n} (omega arith) (omega arith),
      omega arith,
    )

pub pkcs7_unpad-pad : (bytes : List ℕ) → pkcs7_unpad (pkcs7_pad bytes 16) ≡ ok bytes
pkcs7_unpad-pad bytes =
    let (n, h, e, fill) = pkcs7_pad-replicate bytes in
    ap pkcs7_unpad e ∙ pkcs7_unpad-replicate bytes n h

pub pkcs7_pad_fills :
    (bytes : List ℕ)
    → All IsByte bytes
    → (length (pkcs7_pad bytes 16) % 16 ≡ 0)
      × All IsByte (pkcs7_pad bytes 16)
      × (1 ≤ length (pkcs7_pad bytes 16))
pkcs7_pad_fills bytes hb =
    let (n, h, e, fill) = pkcs7_pad-replicate bytes in
    (
      rw e (
          omega (
            arith,
            fill,
            length-append bytes (replicate (suc n) (suc n)),
            length-replicate n (suc n),
          )),
      rw e (
          All-append IsByte bytes (replicate (suc n) (suc n)) hb
            (same (suc n) (suc n) (omega arith))),
      rw e (omega (arith, length-append bytes (replicate (suc n) (suc n)))),
    )
  where
    same : (n k : ℕ) → IsByte k → All IsByte (replicate n k)
    same zero k hk = tt
    same (suc n) k hk = (hk, same n k hk)
