-- ===== src/Payload/Record/Errors.antt =====
-- Records of src/payload/record.rs whose data are missing, too long, or without a length of their own.
use mbuscrate.Prelude.{
  ℕ, ◌+◌, ◌<◌, ◌≡◌, refl, sym, ap, ◌∙◌, List, [], ◌∷◌, ◌++◌, true, false, leb, ltb, ◌==◌,
  Bool-cases, inl, inr, length, replicate, length-append, length-replicate, arith, if◌then◌else◌,
  not, Result, ok, err, none, some, Option, drop, take, length-take, ◌⊎◌,
}
use mbuscrate.Nom.{Nom, IResult}
use mbuscrate.Mbus.Error.{MBusError, premature_end_at_data}
use mbuscrate.Payload.Record.{
  MBusRecord, read_data, parse_variable_record_consumed, parse_variable_data_length, takes_all,
  parse_after_dif, mbus_dif_datalength_lookup, parse_variable_record_inner, after_fillers, read_dif,
  is_idle_filler, blank_record, after_header, fill_data, variable_data,
}
use mbuscrate.Payload.Record.Header.{WireRecord, IsHeader, header_bytes, header_record, is_variable}
use mbuscrate.Payload.Record.Chain.{padded}
use mbuscrate.Payload.Record.RoundTrip.{fillers-All}
use mbuscrate.Payload.Record.Data.{consumed-header}

abbrev pub with_bytes : WireRecord → List ℕ → MBusRecord
with_bytes w bs = record (header_record w) { data_len = length bs; bytes = padded 256 bs }

module _ (nom : Nom) (w : WireRecord) (h : IsHeader w) (k : ℕ) where
  abbrev parsed : List ℕ → Option (Result MBusError (MBusRecord × ℕ))
  parsed tail = parse_variable_record_consumed nom (replicate k 0x2F ++ (header_bytes w ++ tail))

  variable_header :
      (tail : List ℕ)
      → is_variable w.dif ≡ true
      → parsed tail ≡ variable_data tail (k + length (header_bytes w)) (header_record w)
  unfolding read_data
  variable_header tail v = consumed-header nom w k tail h ∙ rw (h.ordinary, v) refl

  fixed_header :
      (tail : List ℕ)
      → is_variable w.dif ≡ false
      → parsed tail ≡ fill_data tail (k + length (header_bytes w)) (header_record w)
  unfolding read_data
  fixed_header tail v = consumed-header nom w k tail h ∙ rw (h.ordinary, v) refl

  -- A record of fixed size whose data end early is refused.
  pub fixed_data_short :
      (tail : List ℕ)
      → is_variable w.dif ≡ false
      → length tail < mbus_dif_datalength_lookup w.dif
      → parsed tail ≡ some (err premature_end_at_data)
  fixed_data_short tail v short =
      let few : ltb (length tail) (mbus_dif_datalength_lookup w.dif) ≡ true = ground arith in
      fixed_header tail v ∙ rw few refl

  -- A header that announces data of variable length is the end of the input: a panic.
  pub variable_data_missing : is_variable w.dif ≡ true → parsed [] ≡ none
  variable_data_missing v = variable_header [] v

  -- After a header that announces data of variable length and a length byte that stands for `n`: fewer
  -- than `n` bytes are an error, more than 256 do not fit the array and panic, and else the record
  -- has the first `n` bytes.
  pub variable_data_outcome :
      (lvar n : ℕ) (tail : List ℕ)
      → is_variable w.dif ≡ true
      → parse_variable_data_length lvar ≡ ok n
      → parsed (lvar ∷ tail) ≡ (
          if ltb (length tail) n
          then some (err premature_end_at_data)
          else if ltb 256 n
          then none
          else some (ok (with_bytes w (take n tail), k + length (header_bytes w) + 1 + n)))
  variable_data_outcome lvar n tail v announced =
      variable_header (lvar ∷ tail) v
      ∙ rw announced (elim (Bool-cases (ltb (length tail) n)) [
        | inl short ↦ rw short refl
        | inr enough ↦ rw enough (elim (Bool-cases (ltb 256 n)) [
          | inl long ↦ let outside : leb n 256 ≡ false = ground arith in rw (long, outside) refl
          | inr small ↦
              let inside : leb n 256 ≡ true = ground arith in
              let size : length (take n tail) ≡ n = ground (arith, length-take n tail) in
              rw (small, inside)
                (ap
                  (λ (m : ℕ). some (
                    ok (
                      record (header_record w) {
                        data_len = m;
                        bytes = take n tail ++ drop m (replicate 256 0);
                      },
                      k + length (header_bytes w) + 1 + n,
                    )))
                  (sym size))
        ])
      ])

abbrev manufacturer_record : ℕ → List ℕ → MBusRecord
manufacturer_record dif i =
    record (header_record
      (record { dif = dif; difes = []; vif = 0; text = []; vifes = []; lvar = 0; bytes = [] })) {
        data_len = length i;
        bytes = padded 256 i;
        more_records_follow = if dif == 0x1F then 1 else 0;
      }

inner_dif :
    (nom : Nom) (k dif : ℕ) (i : List ℕ)
    → is_idle_filler dif ≡ false
    → parse_variable_record_inner nom (replicate k 0x2F ++ (dif ∷ i))
      ≡ parse_after_dif nom i (record blank_record { dif = dif })
unfolding parse_variable_record_inner
inner_dif nom k dif i ordinary =
    ap (after_fillers nom) (
      nom.take_while_lem is_idle_filler (replicate k 0x2F) (dif ∷ i) (fillers-All k)
        (ap not ordinary))
    ∙ ap (read_dif nom) (nom.be_u8-cons dif i)

abbrev all_read : ℕ → List ℕ → Option (IResult MBusRecord)
all_read dif i = if leb (length i) 256 then some (ok ([], manufacturer_record dif i)) else none

after_dif-manufacturer :
    (nom : Nom) (i : List ℕ)
    → parse_after_dif nom i (record blank_record { dif = 0x0F }) ≡ all_read 0x0F i
unfolding parse_after_dif blank_record
after_dif-manufacturer nom i = elim (Bool-cases (leb (length i) 256)) [
  | inl fits ↦ rw fits refl
  | inr long ↦ rw long refl
]

after_dif-more :
    (nom : Nom) (i : List ℕ)
    → parse_after_dif nom i (record blank_record { dif = 0x1F }) ≡ all_read 0x1F i
unfolding parse_after_dif blank_record
after_dif-more nom i = elim (Bool-cases (leb (length i) 256)) [
  | inl fits ↦ rw fits refl
  | inr long ↦ rw long refl
]

all_size : (k dif : ℕ) (i : List ℕ) → length (replicate k 0x2F ++ (dif ∷ i)) ≡ k + 1 + length i
all_size k dif i =
    omega (arith, length-append (replicate k 0x2F) (dif ∷ i), length-replicate {A = ℕ} k 0x2F)

finish_all :
    (n dif : ℕ) (i : List ℕ)
    → takes_all dif ≡ true
    → after_header n (all_read dif i)
      ≡ (if leb (length i) 256 then some (ok (manufacturer_record dif i, n)) else none)
unfolding read_data
finish_all n dif i all = elim (Bool-cases (leb (length i) 256)) [
  | inl fits ↦
      rw (fits, all) (ap (λ (m : ℕ). some (ok (manufacturer_record dif i, m))) (omega arith))
  | inr long ↦ rw long refl
]

-- After a DIF 0x0F or 0x1F all bytes belong to the record, which sets its flag for the latter; more
-- than 256 of them do not fit the array and panic.
pub all_data_outcome :
    (nom : Nom) (k dif : ℕ) (i : List ℕ)
    → (dif ≡ 0x0F) ⊎ (dif ≡ 0x1F)
    → parse_variable_record_consumed nom (replicate k 0x2F ++ (dif ∷ i)) ≡ (
        if leb (length i) 256
        then some (ok (manufacturer_record dif i, k + 1 + length i))
        else none)
unfolding parse_variable_record_consumed
all_data_outcome nom k dif i all = rw (all_size k dif i) (elim all [
  | inl manufacturer ↦
      rw (manufacturer, inner_dif nom k 0x0F i refl, after_dif-manufacturer nom i)
        (finish_all (k + 1 + length i) 0x0F i refl)
  | inr more ↦
      rw (more, inner_dif nom k 0x1F i refl, after_dif-more nom i)
        (finish_all (k + 1 + length i) 0x1F i refl)
])
