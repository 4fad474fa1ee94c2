-- ===== src/Mbus/Frame/Canonical.antt =====
-- The other direction: a frame that was parsed and whose checksum holds is packed as it came.
use mbuscrate.Prelude.{
  ℕ, ◌+◌, ◌-◌, ◌≤◌, ◌<◌, ◌≡◌, ◌≢◌, refl, ap, ap₂, subst, ◌∙◌, List, [], ◌∷◌, ◌++◌, arith, ok,
  length, append_assoc, min, none, ◌==◌, ==_iff, ◌⊎◌, inl, inr, Bool-cases, All, IsByte,
}
use mbuscrate.Nom.{Nom}
use mbuscrate.Mbus.Frame.Checksum.{verify_frame_iff}
use mbuscrate.Mbus.Frame.Invert.{parse_short-eq_ok, parse_lengths-eq_ok}
use mbuscrate.Mbus.Frame.{
  MBusFrameType, MBusFrame, ack, short, control, long, calculate_checksum, verify_frame, pack_frame,
  parse_frame, parse_frame_type, parse_start, parse_frame_as, pack_as, pack_control_or_long_frame,
}

pack_short :
    (f : MBusFrame)
    → f.frame_type ≡ short
    → pack_frame f ≡ 0x10 ∷ f.control_field ∷ f.address ∷ calculate_checksum f ∷ 0x16 ∷ []
unfolding pack_frame
pack_short f e = ap (λ (t : MBusFrameType). pack_as t f) e

pack_ack : (f : MBusFrame) → f.frame_type ≡ ack → pack_frame f ≡ 0xE5 ∷ []
unfolding pack_frame
pack_ack f e = ap (λ (t : MBusFrameType). pack_as t f) e

pack_lengths :
    (f : MBusFrame)
    → (f.frame_type ≡ control) ⊎ (f.frame_type ≡ long)
    → pack_frame f ≡ pack_control_or_long_frame f
unfolding pack_frame
pack_lengths f (inl e) = ap (λ (t : MBusFrameType). pack_as t f) e
pack_lengths f (inr e) = ap (λ (t : MBusFrameType). pack_as t f) e

-- The bytes of a frame with length bytes `n`.
lengths-pack :
    (f : MBusFrame) (n : ℕ) (rest : List ℕ)
    → n < 256
    → length f.bytes + 3 ≡ n
    → (f.frame_type ≡ control) ⊎ (f.frame_type ≡ long)
    → f.checksum ≡ calculate_checksum f
    → 0x68
        ∷ n
        ∷ n
        ∷ 0x68
        ∷ f.control_field
        ∷ f.address
        ∷ f.control_information
        ∷ (f.bytes ++ (f.checksum ∷ 0x16 ∷ rest))
      ≡ pack_frame f ++ rest
unfolding pack_control_or_long_frame
lengths-pack f n rest small size t cs =
    ap
      (λ (k : ℕ).
        0x68
        ∷ n
        ∷ n
        ∷ 0x68
        ∷ f.control_field
        ∷ f.address
        ∷ f.control_information
        ∷ (f.bytes ++ (k ∷ 0x16 ∷ rest)))
      cs
    ∙ rw (pack_lengths f t, fits, append_assoc f.bytes (calculate_checksum f ∷ 0x16 ∷ []) rest)
  where
    fits : min (length f.bytes + 3) 255 ≡ n
    fits = omega arith

length-pos : (bs : List ℕ) → bs ≢ [] → 1 ≤ length bs
length-pos [] h = absurd (h refl)
length-pos (b ∷ bs) h = omega arith

-- With data in a long frame the length byte is known.
known_length :
    (f : MBusFrame) (n : ℕ)
    → ((f.frame_type ≡ control) × (n ≡ 3)) ⊎ ((f.frame_type ≡ long) × (n ≢ 3))
    → ¬ ((f.frame_type ≡ long) × (f.bytes ≡ []))
    → length f.bytes ≡ n - 3
    → (length f.bytes + 3 ≡ n) × ((f.frame_type ≡ control) ⊎ (f.frame_type ≡ long))
known_length f n (inl (c, e)) ne size = (omega arith, inl c)
known_length f n (inr (l, e)) ne size =
    (omega (arith, length-pos f.bytes (λ empty. ne (l, empty))), inr l)

module _ (nom : Nom) where
  -- If parsing bytes gives a frame whose checksum holds, then packing that frame gives back the
  -- bytes that were parsed, except for a long frame with no data, whose length byte may be below 4.
  pub pack_frame-parse_frame :
      (input rest : List ℕ) (f : MBusFrame)
      → All IsByte input
      → parse_frame nom input ≡ ok (rest, f)
      → verify_frame f ≡ ok tt
      → ¬ ((f.frame_type ≡ long) × (f.bytes ≡ []))
      → input ≡ pack_frame f ++ rest
  unfolding parse_frame parse_frame_type parse_start
  pack_frame-parse_frame [] rest f range h v ne = cc (rw nom.be_u8-nil at h)
  pack_frame-parse_frame (start ∷ input) rest f range h v ne = elim (Bool-cases (start == 0xE5)) [
    | inl a ↦
        let h' = rw (nom.be_u8-cons start input, a) at h in
        let e : f.frame_type ≡ ack = unfold parse_frame_as in ground (arith, h') in
        rw (pack_ack f e) (unfold parse_frame_as in ground (arith, h', a))
    | inr na ↦ elim (Bool-cases (start == 0x10)) [
      | inl s ↦
          let (t, e) =
            parse_short-eq_ok nom none input rest f (rw (nom.be_u8-cons start input, na, s) at h) in
          rw (pack_short f t) (ground (arith, s, e, (verify_frame_iff f).0 v))
      | inr ns ↦ elim (Bool-cases (start == 0x68)) [
        | inl l ↦
            let (n, e, size, t) =
              parse_lengths-eq_ok nom input rest f
                (rw (nom.be_u8-cons start input, na, ns, l) at h) in
            let (fits, kind) = known_length f n t ne size in
            let small : n < 256 = (subst (All IsByte) e range.1).0 in
            ap₂ ◌∷◌ ((==_iff start 0x68).0 l) e
            ∙ lengths-pack f n rest small fits kind ((verify_frame_iff f).0 v)
        | inr nl ↦ cc (rw (nom.be_u8-cons start input, na, ns, nl) at h)
      ]
    ]
  ]
