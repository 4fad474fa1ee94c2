-- ===== src/Payload/Record/RoundTrip.antt =====
-- A variable data record of src/payload/record.rs is read back from its bytes, and takes exactly these.
use mbuscrate.Prelude.{
  ℕ, zero, suc, ◌≡◌, refl, ap, ◌∙◌, List, [], ◌++◌, true, length, replicate, append_assoc, not, ok,
  some, All, ◌>>=◌,
}
use mbuscrate.Nom.{Nom, IResult}
use mbuscrate.Payload.Record.{
  MBusRecord, blank_record, parse_dife, parse_vib, mbus_dif_datalength_lookup, is_idle_filler,
  parse_after_dif, parse_variable_record_inner, end_vib, mbus_data_str_decode, after_fillers,
  read_dif,
}
use mbuscrate.Payload.Record.Chain.{padded}
use mbuscrate.Payload.Record.Header.{
  WireRecord, IsHeader, text_bytes, vib_bytes, header_bytes, header_record, parse_dife_lem,
  parse_vife_lem, parse_custom_vif_lem,
}

abbrev dib_record : WireRecord → MBusRecord
dib_record w = record {
  storage_number = 0;
  dif = w.dif;
  ndife = length w.difes;
  dife = padded 10 w.difes;
  vif = 0;
  nvife = 0;
  vife = replicate 10 0;
  custom_vif = [];
  data_len = mbus_dif_datalength_lookup w.dif;
  bytes = replicate 256 0;
  more_records_follow = 0;
}

pub fillers-All : (k : ℕ) → All (λ b. is_idle_filler b ≡ true) (replicate k 0x2F)
fillers-All zero = tt
fillers-All (suc k) = (refl, fillers-All k)

module _ (nom : Nom) (w : WireRecord) (h : IsHeader w) (rest : List ℕ) where
  parse_vib_lem : parse_vib nom (vib_bytes w ++ rest, dib_record w) ≡ ok (rest, header_record w)
  unfolding parse_vib
  parse_vib_lem =
      rw
        (
          nom.be_u8-cons w.vif ((text_bytes w ++ w.vifes) ++ rest),
          append_assoc (text_bytes w) w.vifes rest,
        )
        (ap (λ (m : IResult MBusRecord). m >>= end_vib)
            (parse_custom_vif_lem nom (record (dib_record w) { vif = w.vif }) w (w.vifes ++ rest) h
              refl refl)
          ∙ ap ok (
              parse_vife_lem
                (record (dib_record w) { vif = w.vif; custom_vif = mbus_data_str_decode w.text })
                w.vifes rest h.vib_chain h.vib_room refl refl))

  dib_lem :
      parse_dife
        (w.difes ++ (vib_bytes w ++ rest))
        (record blank_record { dif = w.dif; data_len = mbus_dif_datalength_lookup w.dif })
      ≡ (vib_bytes w ++ rest, dib_record w)
  unfolding blank_record
  dib_lem =
      parse_dife_lem
        (record blank_record { dif = w.dif; data_len = mbus_dif_datalength_lookup w.dif }) w.difes
        (vib_bytes w ++ rest) h.dib_chain h.dib_room refl refl

  parse_after_dif_lem :
      parse_after_dif nom (w.difes ++ (vib_bytes w ++ rest)) (record blank_record { dif = w.dif })
      ≡ some (ok (rest, header_record w))
  unfolding parse_after_dif
  parse_after_dif_lem = rw h.ordinary (ap some (ap (parse_vib nom) dib_lem ∙ parse_vib_lem))

  pub parse_variable_record_inner_lem :
      (k : ℕ)
      → parse_variable_record_inner nom (replicate k 0x2F ++ (header_bytes w ++ rest))
        ≡ some (ok (rest, header_record w))
  unfolding parse_variable_record_inner
  parse_variable_record_inner_lem k =
      ap (after_fillers nom) (
        nom.take_while_lem is_idle_filler (replicate k 0x2F) (header_bytes w ++ rest)
          (fillers-All k) (ap not h.not_filler))
      ∙ ap (read_dif nom) (nom.be_u8-cons w.dif ((w.difes ++ vib_bytes w) ++ rest))
      ∙ rw (append_assoc w.difes (vib_bytes w) rest) parse_after_dif_lem
