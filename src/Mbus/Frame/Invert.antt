-- ===== src/Mbus/Frame/Invert.antt =====
-- What a success of the parsers says of their input.
use mbuscrate.Prelude.{
  ℕ, ◌-◌, ◌≡◌, ◌≢◌, refl, sym, List, [], ◌∷◌, ◌++◌, arith, false, ok, err, length, Option, ◌==◌,
  ◌⊎◌, inl, inr, ◌>>=◌, Bool-cases,
}
use mbuscrate.Nom.{Nom, IResult, any_byte, take_while-eq_ok}
use mbuscrate.Mbus.Frame.{
  MBusFrameType, MBusFrame, short, control, long, parse_short_frame,
  parse_control_or_long_frame_after_header, parse_long_arm, parse_lengths, parse_trailer,
  parse_frame_as,
}

module _ (nom : Nom) where
  open nom use {be_u8, take_while_m_n}

  parse_trailer-eq_ok :
      (input rest : List ℕ) (cs : ℕ)
      → parse_trailer nom input ≡ ok (rest, cs)
      → input ≡ cs ∷ 0x16 ∷ rest
  unfolding parse_trailer
  parse_trailer-eq_ok [] rest cs h = ground (arith, nom.be_u8-nil)
  parse_trailer-eq_ok (x ∷ []) rest cs h = ground (arith, nom.be_u8-nil, nom.be_u8-cons x [])
  parse_trailer-eq_ok (x ∷ y ∷ r) rest cs h =
      ground (arith, nom.be_u8-cons x (y ∷ r), nom.be_u8-cons y r)

  -- What each parser does with the result of its last call.
  abbrev with_trailer : ℕ → List ℕ → IResult ℕ → IResult (ℕ × List ℕ × ℕ)
  with_trailer x b tr = do (j, c) ← tr; ok (j, (x, b, c))

  abbrev with_payload : ℕ → IResult (List ℕ) → IResult (ℕ × List ℕ × ℕ)
  with_payload x taken = do (i, b) ← taken; with_trailer x b (parse_trailer nom i)

  abbrev with_header : MBusFrameType → ℕ → ℕ → IResult (ℕ × List ℕ × ℕ) → IResult MBusFrame
  with_header t c a m = do
    (i, (ci, bs, cs)) ← m
    ok (
      i,
      record {
        frame_type = t;
        control_field = c;
        address = a;
        control_information = ci;
        bytes = bs;
        checksum = cs;
        more_records_follow = false;
      },
    )

  after_trailer :
      (i rest : List ℕ) (ci cs x : ℕ) (b bs : List ℕ) (tr : IResult ℕ)
      → tr ≡ parse_trailer nom i
      → with_trailer x b tr ≡ ok (rest, (ci, bs, cs))
      → (x ≡ ci) × (b ≡ bs) × (i ≡ cs ∷ 0x16 ∷ rest)
  after_trailer i rest ci cs x b bs (ok (j, c)) e h =
      ground (arith, parse_trailer-eq_ok i j c (sym e))
  after_trailer i rest ci cs x b bs (err w) e h = cc

  after_payload :
      (input rest : List ℕ) (n ci cs x : ℕ) (bs : List ℕ) (taken : IResult (List ℕ))
      → taken ≡ take_while_m_n n n any_byte input
      → with_payload x taken ≡ ok (rest, (ci, bs, cs))
      → (x ∷ input ≡ ci ∷ (bs ++ (cs ∷ 0x16 ∷ rest))) × (length bs ≡ n)
  after_payload input rest n ci cs x bs (ok (i, b)) e h =
      ground (
        arith,
        take_while-eq_ok nom n input i b (sym e),
        after_trailer i rest ci cs x b bs _ refl h,
      )
  after_payload input rest n ci cs x bs (err w) e h = cc

  parse_header-eq_ok :
      (input rest : List ℕ) (n ci cs : ℕ) (bs : List ℕ)
      → parse_control_or_long_frame_after_header nom input n ≡ ok (rest, (ci, bs, cs))
      → (input ≡ ci ∷ (bs ++ (cs ∷ 0x16 ∷ rest))) × (length bs ≡ n - 3)
  unfolding parse_control_or_long_frame_after_header
  parse_header-eq_ok [] rest n ci cs bs h = ground (arith, nom.be_u8-nil)
  parse_header-eq_ok (x ∷ input) rest n ci cs bs h =
      after_payload input rest (n - 3) ci cs x bs _ refl (rw (nom.be_u8-cons x input) at h)

  after_header :
      (t : MBusFrameType) (c a n : ℕ) (input rest : List ℕ) (f : MBusFrame)
      (m : IResult (ℕ × List ℕ × ℕ))
      → m ≡ parse_control_or_long_frame_after_header nom input n
      → with_header t c a m ≡ ok (rest, f)
      → (f.frame_type ≡ t)
        × (f.control_field ≡ c)
        × (f.address ≡ a)
        × (input ≡ f.control_information ∷ (f.bytes ++ (f.checksum ∷ 0x16 ∷ rest)))
        × (length f.bytes ≡ n - 3)
  after_header t c a n input rest f (ok (i, (ci, bs, cs))) e h =
      ground (arith, parse_header-eq_ok input i n ci cs bs (sym e))
  after_header t c a n input rest f (err w) e h = cc

  parse_long_arm-eq_ok :
      (t : MBusFrameType) (n : ℕ) (input rest : List ℕ) (f : MBusFrame)
      → parse_long_arm nom t n input ≡ ok (rest, f)
      → (f.frame_type ≡ t)
        × (input
            ≡ 0x68
              ∷ f.control_field
              ∷ f.address
              ∷ f.control_information
              ∷ (f.bytes ++ (f.checksum ∷ 0x16 ∷ rest)))
        × (length f.bytes ≡ n - 3)
  unfolding parse_long_arm
  parse_long_arm-eq_ok t n [] rest f h = ground (arith, nom.be_u8-nil)
  parse_long_arm-eq_ok t n (s ∷ []) rest f h = ground (arith, nom.be_u8-nil, nom.be_u8-cons s [])
  parse_long_arm-eq_ok t n (s ∷ c ∷ []) rest f h =
      ground (arith, nom.be_u8-nil, nom.be_u8-cons s (c ∷ []), nom.be_u8-cons c [])
  parse_long_arm-eq_ok t n (s ∷ c ∷ a ∷ input) rest f h = elim (Bool-cases (s == 0x68)) [
    | inl start ↦ ground (
      arith,
      start,
      after_header t c a n input rest f _ refl (
          rw
            (
              nom.be_u8-cons s (c ∷ a ∷ input),
              start,
              nom.be_u8-cons c (a ∷ input),
              nom.be_u8-cons a input,
            )
            at h),
    )
    | inr other ↦ cc (rw (nom.be_u8-cons s (c ∷ a ∷ input), other) at h)
  ]

  abbrev with_short : ℕ → ℕ → IResult (ℕ × List ℕ × ℕ) → IResult MBusFrame
  with_short c a m = do
    (i, (ci, bs, cs)) ← m
    ok (
      i,
      record {
        frame_type = short;
        control_field = c;
        address = a;
        control_information = 0;
        bytes = bs;
        checksum = cs;
        more_records_follow = false;
      },
    )

  after_short :
      (c a : ℕ) (input rest : List ℕ) (f : MBusFrame) (m : IResult (ℕ × List ℕ × ℕ))
      → m ≡ parse_short_frame nom input
      → with_short c a m ≡ ok (rest, f)
      → (f.frame_type ≡ short)
        × (f.control_field ≡ c)
        × (f.address ≡ a)
        × (input ≡ f.checksum ∷ 0x16 ∷ rest)
  unfolding parse_short_frame
  after_short c a input rest f (ok (i, (ci, bs, cs))) e h =
      ground (arith, after_trailer input i ci cs 0 [] bs _ refl (sym e))
  after_short c a input rest f (err w) e h = cc

  pub parse_short-eq_ok :
      (o : Option ℕ) (input rest : List ℕ) (f : MBusFrame)
      → parse_frame_as nom short o input ≡ ok (rest, f)
      → (f.frame_type ≡ short) × (input ≡ f.control_field ∷ f.address ∷ f.checksum ∷ 0x16 ∷ rest)
  unfolding parse_frame_as
  parse_short-eq_ok o [] rest f h = ground (arith, nom.be_u8-nil)
  parse_short-eq_ok o (c ∷ []) rest f h = ground (arith, nom.be_u8-nil, nom.be_u8-cons c [])
  parse_short-eq_ok o (c ∷ a ∷ input) rest f h = ground (
    arith,
    after_short c a input rest f _ refl
        (rw (nom.be_u8-cons c (a ∷ input), nom.be_u8-cons a input) at h),
  )

  -- The lengths and the arm that follows them.
  pub parse_lengths-eq_ok :
      (input rest : List ℕ) (f : MBusFrame)
      → (parse_lengths nom input >>= λ t. parse_frame_as nom t.1.0 t.1.1 t.0) ≡ ok (rest, f)
      → (n : ℕ) × (input
          ≡ n
            ∷ n
            ∷ 0x68
            ∷ f.control_field
            ∷ f.address
            ∷ f.control_information
            ∷ (f.bytes ++ (f.checksum ∷ 0x16 ∷ rest)))
        × (length f.bytes ≡ n - 3)
        × (((f.frame_type ≡ control) × (n ≡ 3)) ⊎ ((f.frame_type ≡ long) × (n ≢ 3)))
  unfolding parse_lengths parse_frame_as
  parse_lengths-eq_ok [] rest f h = cc (rw nom.be_u8-nil at h)
  parse_lengths-eq_ok (n ∷ []) rest f h = cc (rw (nom.be_u8-cons n [], nom.be_u8-nil) at h)
  parse_lengths-eq_ok (n ∷ m ∷ input) rest f h =
      let h' = rw (nom.be_u8-cons n (m ∷ input), nom.be_u8-cons m input) at h in
      elim (Bool-cases (n == m)) [
        | inl same ↦ elim (Bool-cases (n == 3)) [
          | inl three ↦
              let arm = parse_long_arm-eq_ok control n input rest f (rw (same, three) at h') in
              (n, ground (arith, same, arm), ground (arith, arm), ground (arith, three, arm))
          | inr more ↦
              let arm = parse_long_arm-eq_ok long n input rest f (rw (same, more) at h') in
              (n, ground (arith, same, arm), ground (arith, arm), ground (arith, more, arm))
        ]
        | inr other ↦ cc (rw other at h')
      ]
