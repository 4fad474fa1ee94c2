-- ===== src/Nom.antt =====
-- The parser combinators that the crate takes from the `nom` crate, as an interface: the functions
-- that the sources call, and what nom documents of them on complete input.
pub mod Sample
use mbuscrate.Prelude.{
  ℕ, ◌+◌, ◌*◌, ◌≤◌, ◌<◌, ◌≡◌, sym, ap, ap₂, ◌∙◌, List, [], ◌∷◌, ◌++◌, Bool, true, not, All, arith,
  Result, ok, err, length, take, drop, length-take, take-append-drop, length-append, le_or_lt,
  Bool-cases, refl, inl, inr, take-append, drop-append,
}

-- `nom::error::ErrorKind`, the kinds that the sources name or that these parsers return.
pub data ErrorKind : Type 0 where
  tag verify eof take_while_mn too_large : ErrorKind

-- `nom::Err<nom::error::Error<&[u8]>>`.
pub data NomErr : Type 0 where
  incomplete : NomErr
  error : List ℕ → ErrorKind → NomErr
  failure : List ℕ → ErrorKind → NomErr

-- `IResult<&[u8], A>`: the input that is left comes first.
abbrev pub IResult {ℓ} : Type ℓ → Type ℓ
IResult A = Result NomErr (List ℕ × A)

abbrev pub any_byte : ℕ → Bool
any_byte b = true

-- Where `take_while(p)` stops: at the end, or at an element that fails the test.
abbrev pub stops : (ℕ → Bool) → List ℕ → Bool
stops p [] = true
stops p (b ∷ bs) = not (p b)

-- `be_u8`, `be_u16`, `be_u32`, `be_u64`, `take(n)`, `take_while(p)` and `take_while_m_n(m, n, p)` of
-- nom's complete parsers.
pub record Nom : Type 0 where
  pub be_u8 : List ℕ → IResult ℕ
  pub be_u16 : List ℕ → IResult ℕ
  pub be_u32 : List ℕ → IResult ℕ
  pub be_u64 : List ℕ → IResult ℕ
  pub take_bytes : ℕ → List ℕ → IResult (List ℕ)
  pub take_while : (ℕ → Bool) → List ℕ → IResult (List ℕ)
  pub take_while_m_n : ℕ → ℕ → (ℕ → Bool) → List ℕ → IResult (List ℕ)
  pub be_u8-cons : (b : ℕ) (rest : List ℕ) → be_u8 (b ∷ rest) ≡ ok (rest, b)
  pub be_u8-nil : be_u8 [] ≡ err (error [] eof)
  pub be_u16-cons : (a b : ℕ) (rest : List ℕ) → be_u16 (a ∷ b ∷ rest) ≡ ok (rest, a * 256 + b)
  pub be_u32-cons :
      (a b c d : ℕ) (rest : List ℕ)
      → be_u32 (a ∷ b ∷ c ∷ d ∷ rest) ≡ ok (rest, ((a * 256 + b) * 256 + c) * 256 + d)
  pub take_bytes_enough :
      (n : ℕ) (input : List ℕ)
      → n ≤ length input
      → take_bytes n input ≡ ok (drop n input, take n input)
  pub take_bytes_short :
      (n : ℕ) (input : List ℕ) → length input < n → take_bytes n input ≡ err (error input eof)
  pub take_while_lem :
      (p : ℕ → Bool) (xs ys : List ℕ)
      → All (λ b. p b ≡ true) xs
      → stops p ys ≡ true
      → take_while p (xs ++ ys) ≡ ok (ys, xs)
  pub take_while_any_enough :
      (n : ℕ) (input : List ℕ)
      → n ≤ length input
      → take_while_m_n n n any_byte input ≡ ok (drop n input, take n input)
  pub take_while_any_short :
      (n : ℕ) (input : List ℕ)
      → length input < n
      → take_while_m_n n n any_byte input ≡ err (error input take_while_mn)

-- Every input has a front that satisfies a test, and a rest that does not start so.
pub front_and_rest :
    (p : ℕ → Bool) (input : List ℕ)
    → (xs : List ℕ) × (ys : List ℕ) × (input ≡ xs ++ ys)
      × All (λ b. p b ≡ true) xs
      × (stops p ys ≡ true)
front_and_rest p [] = ([], [], refl, tt, refl)
front_and_rest p (b ∷ bs) = elim (Bool-cases (p b)) [
  | inl front ↦
      let (xs, ys, split, each, stop) = front_and_rest p bs in
      (b ∷ xs, ys, ap (λ (r : List ℕ). b ∷ r) split, (front, each), stop)
  | inr rest ↦ ([], b ∷ bs, refl, tt, rw rest refl)
]

module _ (nom : Nom) where
  pub take_while_total :
      (p : ℕ → Bool) (input : List ℕ)
      → (xs : List ℕ) × (ys : List ℕ) × (nom.take_while p input ≡ ok (ys, xs)) × (input ≡ xs ++ ys)
  take_while_total p input =
      let (xs, ys, split, each, stop) = front_and_rest p input in
      (xs, ys, ap (nom.take_while p) split ∙ nom.take_while_lem p xs ys each stop, split)

  open nom use {be_u8, take_bytes, take_while_m_n}

  -- The laws read backwards: what a success says of the input.
  pub be_u8-eq_ok : (input rest : List ℕ) (b : ℕ) → be_u8 input ≡ ok (rest, b) → input ≡ b ∷ rest
  be_u8-eq_ok [] rest b h = cc (nom.be_u8-nil, h)
  be_u8-eq_ok (x ∷ xs) rest b h = cc (nom.be_u8-cons x xs, h)

  pub take_while-append :
      (xs ys : List ℕ) → take_while_m_n (length xs) (length xs) any_byte (xs ++ ys) ≡ ok (ys, xs)
  take_while-append xs ys =
      nom.take_while_any_enough (length xs) (xs ++ ys) (omega (arith, length-append xs ys))
      ∙ rw (drop-append xs ys, take-append xs ys)

  pub take_while-eq_ok :
      (n : ℕ) (input rest xs : List ℕ)
      → take_while_m_n n n any_byte input ≡ ok (rest, xs)
      → (input ≡ xs ++ rest) × (length xs ≡ n)
  take_while-eq_ok n input rest xs h = elim (le_or_lt n (length input)) [
    | inl p ↦
        let front : take n input ≡ xs = cc (nom.take_while_any_enough n input p, h) in
        let back : drop n input ≡ rest = cc (nom.take_while_any_enough n input p, h) in
        (
          sym (take-append-drop n input) ∙ ap₂ ◌++◌ front back,
          ap length (sym front) ∙ omega (arith, length-take n input),
        )
    | inr p ↦ cc (nom.take_while_any_short n input p, h)
  ]

  pub take_bytes-append : (xs ys : List ℕ) → take_bytes (length xs) (xs ++ ys) ≡ ok (ys, xs)
  take_bytes-append xs ys =
      nom.take_bytes_enough (length xs) (xs ++ ys) (omega (arith, length-append xs ys))
      ∙ rw (drop-append xs ys, take-append xs ys)
