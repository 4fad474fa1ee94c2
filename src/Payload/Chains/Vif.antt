-- ===== src/Payload/Chains/Vif.antt =====
-- parse_vif_chain of src/payload/data.rs on each kind of value information block.
use mbuscrate.Prelude.{
  ℕ, ◌+◌, ◌≤◌, ◌≡◌, ◌≢◌, refl, ap, ◌∙◌, bit_and, List, [], ◌∷◌, ◌++◌, true, false, leb, ◌==◌, ◌||◌,
  length, ok, arith, Bool-cases, inl, inr, ◌⊎◌, ==_iff, append-nil, append_assoc, length-append,
}
use mbuscrate.Nom.{Nom, take_bytes-append}
use mbuscrate.Payload.Chains.{
  vife_loop, mfg_loop, parse_vif_chain, is_extended, is_text, is_wildcard, is_manufacturer,
  extended,
}
use mbuscrate.Payload.Record.Chain.{IsChain}

vife_loop-chain :
    (bs rest chain : List ℕ) (cur : ℕ)
    → IsChain (cur ∷ bs)
    → length chain + length bs ≤ 11
    → vife_loop (bs ++ rest) chain cur ≡ ok (rest, chain ++ bs)
unfolding vife_loop
vife_loop-chain [] [] chain cur c fits = rw (c, append-nil chain) refl
vife_loop-chain [] (r ∷ rest) chain cur c fits = rw (c, append-nil chain) refl
vife_loop-chain (b ∷ bs) rest chain cur (goes, c) fits =
    let more : (bit_and cur 0x80 == 0) ≡ false = ground (arith, goes) in
    let room : leb 11 (length chain) ≡ false = ground arith in
    rw (more, room)
      (vife_loop-chain bs rest (chain ++ b ∷ []) b c (omega (arith, length-append chain (b ∷ [])))
        ∙ ap (λ (out : List ℕ). ok (rest, out)) (append_assoc chain (b ∷ []) bs))

mfg_loop-chain :
    (bs rest chain : List ℕ) (n : ℕ)
    → IsChain bs
    → n + length bs ≤ 10
    → mfg_loop (bs ++ rest) chain n ≡ ok (rest, chain ++ bs)
unfolding mfg_loop
mfg_loop-chain [] rest chain n c fits = elim c [ ]
mfg_loop-chain (b ∷ []) rest chain n c fits =
    let room : leb 10 n ≡ false = ground arith in rw (room, c) refl
mfg_loop-chain (b ∷ d ∷ bs) rest chain n (goes, c) fits =
    let room : leb 10 n ≡ false = ground arith in
    let more : (bit_and b 0x80 == 0) ≡ false = ground (arith, goes) in
    rw (room, more)
      (mfg_loop-chain (d ∷ bs) rest (chain ++ b ∷ []) (n + 1) c (omega arith)
        ∙ ap (λ (out : List ℕ). ok (rest, out)) (append_assoc chain (b ∷ []) (d ∷ bs)))

-- The value information blocks of EN 13757-3.
pub data IsVib : List ℕ → Type 0 where
  -- A VIF and at most ten extensions; 0xFD and 0xFB are such, with the code behind them.
  coded :
      (vif : ℕ) (vifes : List ℕ)
      → vif ≢ 0x7C
      → vif ≢ 0xFC
      → vif ≢ 0x7E
      → vif ≢ 0xFE
      → vif ≢ 0x7F
      → vif ≢ 0xFF
      → IsChain (vif ∷ vifes)
      → length vifes ≤ 10
      → IsVib (vif ∷ vifes)
  text : (vif : ℕ) (unit : List ℕ) → (vif ≡ 0x7C) ⊎ (vif ≡ 0xFC) → IsVib (vif ∷ length unit ∷ unit)
  any : (vif : ℕ) → (vif ≡ 0x7E) ⊎ (vif ≡ 0xFE) → IsVib (vif ∷ [])
  manufacturer :
      (vif : ℕ) (bytes : List ℕ)
      → (vif ≡ 0x7F) ⊎ (vif ≡ 0xFF)
      → IsChain bytes
      → length bytes ≤ 10
      → IsVib (vif ∷ bytes)

extended-cases : (vif : ℕ) → is_extended vif ≡ true → (vif ≡ 0xFD) ⊎ (vif ≡ 0xFB)
extended-cases vif e = elim (Bool-cases (vif == 0xFD)) [
  | inl fd ↦ inl ((==_iff vif 0xFD).0 fd)
  | inr other ↦ inr ((==_iff vif 0xFB).0 (rw other at e))
]

-- The two codes that announce another have their top bit set.
extended-bit : (vif : ℕ) → is_extended vif ≡ true → bit_and vif 0x80 ≡ 0x80
extended-bit vif e = elim (extended-cases vif e) [ inl fd ↦ rw fd refl | inr fb ↦ rw fb refl ]

extended-chain :
    (vif : ℕ) (vifes rest : List ℕ)
    → is_extended vif ≡ true
    → IsChain (vif ∷ vifes)
    → length vifes ≤ 10
    → extended vif (vifes ++ rest) ≡ ok (rest, vif ∷ vifes)
extended-chain vif [] rest e c fits = absurd (omega (arith, extended-bit vif e, c))
extended-chain vif (b ∷ vifes) rest e c fits =
    vife_loop-chain vifes rest (vif ∷ b ∷ []) b c.1 (omega arith)

-- A code is of one kind only.
text_is_not : (vif : ℕ) → is_text vif ≡ true → is_extended vif ≡ false
text_is_not vif e = ground arith

any_is_not : (vif : ℕ) → is_wildcard vif ≡ true → (is_extended vif ≡ false) × (is_text vif ≡ false)
any_is_not vif e = ground arith

manufacturer_is_not :
    (vif : ℕ)
    → is_manufacturer vif ≡ true
    → (is_extended vif ≡ false) × (is_text vif ≡ false) × (is_wildcard vif ≡ false)
manufacturer_is_not vif e = ground arith

either_code : (vif a b : ℕ) → (vif ≡ a) ⊎ (vif ≡ b) → (vif == a || vif == b) ≡ true
either_code vif a b e = ground arith

neither_code : (vif a b : ℕ) → vif ≢ a → vif ≢ b → (vif == a || vif == b) ≡ false
neither_code vif a b na nb = ground arith

module _ (nom : Nom) (rest : List ℕ) where
  -- A value information block of each kind, whatever follows, is the chain that is returned: a VIF with
  -- at most ten extensions, with 0xFD and 0xFB among them; a plain text behind 0x7C or 0xFC and its
  -- length; the wildcards 0x7E and 0xFE alone; and 0x7F or 0xFF with one to ten bytes of a manufacturer.
  pub parse_vif_chain-block :
      (vib : List ℕ) → IsVib vib → parse_vif_chain nom (vib ++ rest) ≡ ok (rest, vib)
  unfolding parse_vif_chain
  parse_vif_chain-block _ (coded vif vifes t t' a a' m m' c fits) =
      let not_text = neither_code vif 0x7C 0xFC t t' in
      let not_any = neither_code vif 0x7E 0xFE a a' in
      let not_maker = neither_code vif 0x7F 0xFF m m' in
      rw (nom.be_u8-cons vif (vifes ++ rest)) (elim (Bool-cases (is_extended vif)) [
        | inl ext ↦ rw ext (extended-chain vif vifes rest ext c fits)
        | inr std ↦
            rw (std, not_text, not_any, not_maker)
              (vife_loop-chain vifes rest (vif ∷ []) vif c (omega arith))
      ])
  parse_vif_chain-block _ (text vif unit code) =
      let e : is_text vif ≡ true = either_code vif 0x7C 0xFC code in
      rw
        (
          nom.be_u8-cons vif (length unit ∷ (unit ++ rest)),
          text_is_not vif e,
          e,
          take_bytes-append nom unit rest,
        )
        refl
  parse_vif_chain-block _ (any vif code) =
      let e : is_wildcard vif ≡ true = either_code vif 0x7E 0xFE code in
      let (not_ext, not_text) = any_is_not vif e in
      rw (nom.be_u8-cons vif rest, not_ext, not_text, e) refl
  parse_vif_chain-block _ (manufacturer vif bytes code c fits) =
      let e : is_manufacturer vif ≡ true = either_code vif 0x7F 0xFF code in
      let (not_ext, not_text, not_any) = manufacturer_is_not vif e in
      rw (nom.be_u8-cons vif (bytes ++ rest), not_ext, not_text, not_any, e)
        (mfg_loop-chain bytes rest (vif ∷ []) 0 c (omega arith))
