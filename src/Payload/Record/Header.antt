-- ===== src/Payload/Record/Header.antt =====
-- A variable data record as it lies on the wire, written down from EN 13757-3 and not from the parser, but
-- for the lengths of numbers of variable length, which are counted as src/payload/record.rs does; and the
-- header of that file read back from it.
use mbuscrate.Prelude.{
  ◌+◌, ◌-◌, ◌*◌, ◌%◌, ◌<◌, leb, ◌&&◌, ◌||◌, Option, some, none, ℕ, ◌≤◌, ◌≡◌, sym, ap, ap₂, ◌∙◌,
  bit_and, List, [], ◌∷◌, ◌++◌, Bool, true, false, ltb, ◌==◌, Bool-cases, inl, inr, length,
  replicate, arith, if◌then◌else◌, ok,
}
use mbuscrate.Prelude.Bits.{bit_and_low}
use mbuscrate.Nom.{Nom, take_bytes-append}
use mbuscrate.Payload.Record.{
  datalength_of, MBusRecord, parse_dife, parse_vife, parse_custom_vif, mbus_data_str_decode,
  takes_all, parse_variable_data_length, store_dife, store_vife, mbus_dif_datalength_lookup,
  is_idle_filler,
}
use mbuscrate.Payload.Record.Chain.{IsChain, padded, read_extensions-chain}

pub record WireRecord : Type 0 where
  pub dif : ℕ
  pub difes : List ℕ
  pub vif : ℕ
  pub text : List ℕ
  pub vifes : List ℕ
  pub lvar : ℕ
  pub bytes : List ℕ

abbrev pub is_plain_text : ℕ → Bool
is_plain_text vif = bit_and vif 0x7F == 0x7C

abbrev pub is_variable : ℕ → Bool
is_variable dif = bit_and dif 0x0F == 0x0D

-- The text of a plain-text VIF stands between the VIF and its extensions, behind its length.
abbrev pub text_bytes : WireRecord → List ℕ
text_bytes w = if is_plain_text w.vif then length w.text ∷ w.text else []

abbrev pub vib_bytes : WireRecord → List ℕ
vib_bytes w = w.vif ∷ (text_bytes w ++ w.vifes)

abbrev pub data_bytes : WireRecord → List ℕ
data_bytes w = if is_variable w.dif then w.lvar ∷ w.bytes else w.bytes

abbrev pub header_bytes : WireRecord → List ℕ
header_bytes w = w.dif ∷ (w.difes ++ vib_bytes w)

abbrev pub wire_bytes : WireRecord → List ℕ
wire_bytes w = header_bytes w ++ data_bytes w

pub record IsHeader (w : WireRecord) : Type 0 where
  pub ordinary : takes_all w.dif ≡ false
  pub not_filler : is_idle_filler w.dif ≡ false
  pub dib_chain : IsChain (w.dif ∷ w.difes)
  pub dib_room : length w.difes ≤ 10
  pub vib_chain : IsChain (w.vif ∷ w.vifes)
  pub vib_room : length w.vifes ≤ 10
  pub text_room : length w.text ≤ 16
  pub text_plain : is_plain_text w.vif ≡ false → w.text ≡ []

-- The size of the data by the lowest four bits of the DIF. The codes 5, 6 and 7 are left out, for which
-- record.rs has other sizes than docs/PROTOCOL.md, and F, which has no size.
abbrev pub data_size : ℕ → Option ℕ
data_size code =
    if code == 0 || code == 8
    then some 0
    else if leb code 4
    then some code
    else if leb 9 code && leb code 0xC
    then some (code - 8)
    else if code == 0xE
    then some 6
    else none

-- The length byte of data of variable length, and how many bytes follow it: a text, and the three kinds
-- of numbers, whose lengths EN 13757-3 counts otherwise.
pub data IsAnnounced : ℕ → ℕ → Type 0 where
  string : (n : ℕ) → n ≤ 0xBF → IsAnnounced n n
  positive_number : (k : ℕ) → k < 16 → IsAnnounced (0xC0 + k) (2 * k)
  negative_number : (k : ℕ) → k < 16 → IsAnnounced (0xD0 + k) (2 * k + 1)
  binary_number : (k : ℕ) → k < 16 → IsAnnounced (0xE0 + k) (64 + k)

pub announced_lem : (lvar n : ℕ) → IsAnnounced lvar n → parse_variable_data_length lvar ≡ ok n
unfolding parse_variable_data_length
announced_lem _ _ (string n small) = ground arith
announced_lem _ _ (positive_number k small) = ground arith
announced_lem _ _ (negative_number k small) = ground arith
announced_lem _ _ (binary_number k small) = ground arith

size_of_code : (code n : ℕ) → data_size code ≡ some n → datalength_of code ≡ n
unfolding datalength_of
size_of_code code n h = ground arith

pub size_lem : (dif n : ℕ) → data_size (dif % 16) ≡ some n → mbus_dif_datalength_lookup dif ≡ n
unfolding mbus_dif_datalength_lookup
size_lem dif n h = ap datalength_of (bit_and_low 4 dif) ∙ size_of_code (dif % 16) n h

-- The announced length is that of the data.
pub record IsWireRecord (w : WireRecord) : Type 0 where
  pub header : IsHeader w
  pub room : length w.bytes ≤ 256
  pub announced : is_variable w.dif ≡ true → IsAnnounced w.lvar (length w.bytes)
  pub fixed_size : is_variable w.dif ≡ false → data_size (w.dif % 16) ≡ some (length w.bytes)

-- The header that the parser makes of it.
abbrev pub header_record : WireRecord → MBusRecord
header_record w = record {
  storage_number = 0;
  dif = w.dif;
  ndife = length w.difes;
  dife = padded 10 w.difes;
  vif = w.vif;
  nvife = length w.vifes;
  vife = padded 10 w.vifes;
  custom_vif = mbus_data_str_decode w.text;
  data_len = mbus_dif_datalength_lookup w.dif;
  bytes = replicate 256 0;
  more_records_follow = 0;
}

pub parse_dife_lem :
    (r : MBusRecord) (difes rest : List ℕ)
    → IsChain (r.dif ∷ difes)
    → length difes ≤ 10
    → r.dife ≡ replicate 10 0
    → r.ndife ≡ 0
    → parse_dife (difes ++ rest) r
      ≡ (rest, record r { dife = padded 10 difes; ndife = length difes })
unfolding parse_dife
parse_dife_lem r [] rest c room blank none_yet =
    rw c (ap₂ (λ (e : List ℕ) (n : ℕ). (rest, record r { dife = e; ndife = n })) blank none_yet)
parse_dife_lem r (b ∷ bs) rest c room blank none_yet =
    let extended : (bit_and r.dif 0x80 == 0) ≡ false = ground (arith, c.0) in
    rw extended (ap (store_dife r) (read_extensions-chain (b ∷ bs) rest r.dife c.1 room blank))

pub parse_vife_lem :
    (r : MBusRecord) (vifes rest : List ℕ)
    → IsChain (r.vif ∷ vifes)
    → length vifes ≤ 10
    → r.vife ≡ replicate 10 0
    → r.nvife ≡ 0
    → parse_vife (vifes ++ rest) r
      ≡ (rest, record r { vife = padded 10 vifes; nvife = length vifes })
unfolding parse_vife
parse_vife_lem r [] rest c room blank none_yet =
    rw c (ap₂ (λ (e : List ℕ) (n : ℕ). (rest, record r { vife = e; nvife = n })) blank none_yet)
parse_vife_lem r (b ∷ bs) rest c room blank none_yet =
    let extended : (bit_and r.vif 0x80 == 0) ≡ false = ground (arith, c.0) in
    rw extended (ap (store_vife r) (read_extensions-chain (b ∷ bs) rest r.vife c.1 room blank))

module _ (nom : Nom) where
  pub parse_custom_vif_lem :
      (r : MBusRecord) (w : WireRecord) (rest : List ℕ)
      → IsHeader w
      → r.vif ≡ w.vif
      → r.custom_vif ≡ []
      → parse_custom_vif nom (text_bytes w ++ rest) r
        ≡ ok (rest, record r { custom_vif = mbus_data_str_decode w.text })
  unfolding parse_custom_vif
  parse_custom_vif_lem r w rest h same blank = elim (Bool-cases (is_plain_text w.vif)) [
    | inl plain ↦
        let short : ltb 16 (length w.text) ≡ false = ground (arith, h.text_room) in
        let asked : is_plain_text r.vif ≡ true = ap is_plain_text same ∙ plain in
        rw (plain, asked) (simp (nom.be_u8-cons, short, take_bytes-append nom w.text rest))
    | inr standard ↦
        let asked : is_plain_text r.vif ≡ false = ap is_plain_text same ∙ standard in
        let none_read : [] ≡ mbus_data_str_decode w.text =
          sym (ap mbus_data_str_decode (h.text_plain standard)) in
        rw (standard, asked)
          (ap (λ (t : List ℕ). ok (rest, record r { custom_vif = t })) (blank ∙ none_read))
  ]
