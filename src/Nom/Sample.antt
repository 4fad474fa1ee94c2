-- ===== src/Nom/Sample.antt =====
-- Concrete parsers that meet the laws of the interface, for the concrete runs.
use mbuscrate.Prelude.{
  ℕ, zero, suc, ◌+◌, ◌*◌, ◌^◌, ◌++◌, ◌>>=◌, All, Bool-cases, inl, inr, min, ◌≤◌, ◌<◌, ◌≡◌, refl,
  List, [], ◌∷◌, Bool, true, false, if◌then◌else◌, ok, err, leb, length, take, drop, arith,
}
use mbuscrate.Nom.{Nom, IResult, error, eof, take_while_mn, ErrorKind, stops, any_byte}

abbrev sample_be_u8 : List ℕ → IResult ℕ
sample_be_u8 [] = err (error [] eof)
sample_be_u8 (b ∷ rest) = ok (rest, b)

-- `n` bytes, or an error of the given kind.
abbrev sample_take : ErrorKind → ℕ → List ℕ → IResult (List ℕ)
sample_take kind n input =
    if leb n (length input) then ok (drop n input, take n input) else err (error input kind)

pub sample_take_enough :
    (kind : ErrorKind) (n : ℕ) (input : List ℕ)
    → n ≤ length input
    → sample_take kind n input ≡ ok (drop n input, take n input)
sample_take_enough kind n input h = ground arith

pub sample_take_short :
    (kind : ErrorKind) (n : ℕ) (input : List ℕ)
    → length input < n
    → sample_take kind n input ≡ err (error input kind)
sample_take_short kind n input h = ground arith

-- How many bytes, from the front, satisfy the predicate, up to a limit.
abbrev count_while : ℕ → (ℕ → Bool) → List ℕ → ℕ
count_while n p [] = 0
count_while zero p (b ∷ bs) = 0
count_while (suc n) p (b ∷ bs) = let rest = count_while n p bs in if p b then suc rest else 0

abbrev sample_take_while : ℕ → ℕ → (ℕ → Bool) → List ℕ → IResult (List ℕ)
sample_take_while m n p input =
    let k = count_while n p input in
    if leb m k then ok (drop k input, take k input) else err (error input take_while_mn)

count_while-any : (n : ℕ) (bs : List ℕ) → count_while n any_byte bs ≡ min n (length bs)
count_while-any zero [] = omega arith
count_while-any zero (b ∷ bs) = omega arith
count_while-any (suc n) [] = omega arith
count_while-any (suc n) (b ∷ bs) = omega (arith, count_while-any n bs)

pub sample_while_enough :
    (n : ℕ) (input : List ℕ)
    → n ≤ length input
    → sample_take_while n n any_byte input ≡ ok (drop n input, take n input)
sample_while_enough n input h = rw (all_of_them, at_least) refl
  where
    all_of_them : count_while n any_byte input ≡ n
    all_of_them = omega (arith, count_while-any n input)

    at_least : leb n n ≡ true
    at_least = ground arith

pub sample_while_short :
    (n : ℕ) (input : List ℕ)
    → length input < n
    → sample_take_while n n any_byte input ≡ err (error input take_while_mn)
sample_while_short n input h = rw too_few refl
  where
    too_few : leb n (count_while n any_byte input) ≡ false
    too_few = ground (arith, count_while-any n input)

abbrev sample_be_u16 : List ℕ → IResult ℕ
sample_be_u16 (a ∷ b ∷ rest) = ok (rest, a * 256 + b)
sample_be_u16 _ = err (error [] eof)

abbrev sample_be_u32 : List ℕ → IResult ℕ
sample_be_u32 (a ∷ b ∷ c ∷ d ∷ rest) = ok (rest, ((a * 256 + b) * 256 + c) * 256 + d)
sample_be_u32 _ = err (error [] eof)

abbrev sample_be_u64 : List ℕ → IResult ℕ
sample_be_u64 input = do
  (rest, high) ← sample_be_u32 input
  (rest', low) ← sample_be_u32 rest
  ok (rest', high * 2 ^ 32 + low)

abbrev cons_front : ℕ → IResult (List ℕ) → IResult (List ℕ)
cons_front b (ok (rest, bs)) = ok (rest, b ∷ bs)
cons_front b (err e) = err e

abbrev sample_span : (ℕ → Bool) → List ℕ → IResult (List ℕ)
sample_span p [] = ok ([], [])
sample_span p (b ∷ bs) =
    let more = sample_span p bs in if p b then cons_front b more else ok (b ∷ bs, [])

pub sample_span_lem :
    (p : ℕ → Bool) (xs ys : List ℕ)
    → All (λ b. p b ≡ true) xs
    → stops p ys ≡ true
    → sample_span p (xs ++ ys) ≡ ok (ys, xs)
sample_span_lem p [] [] h k = refl
sample_span_lem p [] (y ∷ ys) h k = elim (Bool-cases (p y)) [
  | inl t ↦ cc (rw t at k)
  | inr f ↦ rw f refl
]
sample_span_lem p (x ∷ xs) ys h k = rw (h.0, sample_span_lem p xs ys h.1 k) refl

abbrev pub sample_nom : Nom
sample_nom = record {
  be_u8 = sample_be_u8;
  be_u16 = sample_be_u16;
  be_u32 = sample_be_u32;
  be_u64 = sample_be_u64;
  take_bytes = sample_take eof;
  take_while = sample_span;
  take_while_m_n = sample_take_while;
  be_u8-cons = λ b rest. refl;
  be_u8-nil = refl;
  be_u16-cons = λ a b rest. refl;
  be_u32-cons = λ a b c d rest. refl;
  take_bytes_enough = sample_take_enough eof;
  take_bytes_short = sample_take_short eof;
  take_while_lem = sample_span_lem;
  take_while_any_enough = sample_while_enough;
  take_while_any_short = sample_while_short;
}
