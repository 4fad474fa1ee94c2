-- ===== src/Payload/Record/Data.antt =====
-- The data of a variable record of src/payload/record.rs, and the whole record with it.
use mbuscrate.Prelude.{
  ℕ, ◌+◌, ◌-◌, ◌≤◌, ◌≡◌, refl, ap, ap₂, ◌∙◌, List, ◌++◌, true, false, leb, ltb, Bool-cases, inl,
  inr, length, drop, take, replicate, length-append, append_assoc, arith, Result, ok, some, Option,
  take-append, length-replicate,
}
use mbuscrate.Nom.{Nom}
use mbuscrate.Mbus.Error.{MBusError}
use mbuscrate.Payload.Record.{
  after_header, parse_variable_record, only_record, MBusRecord, fill_data, read_data,
  parse_variable_record_consumed,
}
use mbuscrate.Payload.Record.Chain.{padded}
use mbuscrate.Payload.Record.Header.{
  announced_lem, size_lem, WireRecord, IsHeader, IsWireRecord, header_bytes, data_bytes, wire_bytes,
  header_record, is_variable,
}
use mbuscrate.Payload.Record.RoundTrip.{parse_variable_record_inner_lem}

abbrev pub stored_record : WireRecord → MBusRecord
stored_record w = record (header_record w) { data_len = length w.bytes; bytes = padded 256 w.bytes }

abbrev Consumed : Type 0
Consumed = Option (Result MBusError (MBusRecord × ℕ))

fill_data_lem :
    (r : MBusRecord) (bs rest : List ℕ) (c : ℕ)
    → r.data_len ≡ length bs
    → length bs ≤ length r.bytes
    → fill_data (bs ++ rest) c r
      ≡ some (ok (record r { bytes = bs ++ drop (length bs) r.bytes }, c + length bs))
fill_data_lem r bs rest c size room =
    let enough : ltb (length (bs ++ rest)) r.data_len ≡ false =
      ground (arith, length-append bs rest) in
    let inside : leb r.data_len (length r.bytes) ≡ true = ground arith in
    let copied : take r.data_len (bs ++ rest) ++ drop r.data_len r.bytes
        ≡ bs ++ drop (length bs) r.bytes =
      ap (λ (n : ℕ). take n (bs ++ rest) ++ drop n r.bytes) size
      ∙ ap (λ (t : List ℕ). t ++ drop (length bs) r.bytes) (take-append bs rest) in
    rw (enough, inside)
      (ap₂ (λ (b : List ℕ) (n : ℕ). some (ok (record r { bytes = b }, c + n))) copied size)

read_data_lem :
    (w : WireRecord) (rest : List ℕ) (c : ℕ)
    → IsWireRecord w
    → read_data (data_bytes w ++ rest) c (header_record w)
      ≡ some (ok (stored_record w, c + length (data_bytes w)))
unfolding read_data
read_data_lem w rest c h = elim (Bool-cases (is_variable w.dif)) [
  | inl variable ↦
      rw (h.header.ordinary, variable)
        (rw (announced_lem w.lvar (length w.bytes) (h.announced variable)) (
          fill_data_lem (record (header_record w) { data_len = length w.bytes }) w.bytes rest
            (c + 1) refl h.room
          ∙ ap (λ (n : ℕ). some (ok (stored_record w, n))) (omega arith)))
  | inr fixed ↦
      rw (h.header.ordinary, fixed)
        (fill_data_lem (header_record w) w.bytes rest c
            (size_lem w.dif (length w.bytes) (h.fixed_size fixed)) h.room
          ∙ ap
              (λ (n : ℕ). some (ok (record (stored_record w) { data_len = n }, c + length w.bytes)))
              (size_lem w.dif (length w.bytes) (h.fixed_size fixed)))
]

pub header_size :
    (w : WireRecord) (k : ℕ) (tail : List ℕ)
    → length (replicate k 0x2F ++ (header_bytes w ++ tail)) - length tail
      ≡ k + length (header_bytes w)
header_size w k tail = omega (
  arith,
  length-append (replicate k 0x2F) (header_bytes w ++ tail),
  length-replicate {A = ℕ} k 0x2F,
  length-append (header_bytes w) tail,
)

-- What follows a header is all that `read_data` still decides.
pub consumed-header :
    (nom : Nom) (w : WireRecord) (k : ℕ) (tail : List ℕ)
    → IsHeader w
    → parse_variable_record_consumed nom (replicate k 0x2F ++ (header_bytes w ++ tail))
      ≡ read_data tail (k + length (header_bytes w)) (header_record w)
unfolding parse_variable_record_consumed
consumed-header nom w k tail h =
    ap (after_header (length (replicate k 0x2F ++ (header_bytes w ++ tail))))
      (parse_variable_record_inner_lem nom w h tail k)
    ∙ ap (λ (n : ℕ). read_data tail n (header_record w)) (header_size w k tail)

module _ (nom : Nom) (w : WireRecord) (h : IsWireRecord w) where
  -- A variable data record, after any number of idle fillers and before any bytes, is read back with
  -- its chains, its text and its data, and takes exactly the fillers and its own bytes. It has a size of
  -- the table of EN 13757-3 for its DIF, other than for the codes 5, 6, 7 and F, or a length byte for
  -- at most 191 characters or for a number of a length as record.rs counts it, at most ten extensions
  -- of the DIF and of the VIF, at most 16 characters of unit and at most 256 bytes of data.
  pub parse_variable_record_consumed-wire :
      (k : ℕ) (rest : List ℕ)
      → parse_variable_record_consumed nom (replicate k 0x2F ++ (wire_bytes w ++ rest))
        ≡ some (ok (stored_record w, k + length (wire_bytes w)))
  parse_variable_record_consumed-wire k rest =
      rw
        (
          append_assoc (header_bytes w) (data_bytes w) rest,
          consumed-header nom w k (data_bytes w ++ rest) h.header,
          read_data_lem w rest (k + length (header_bytes w)) h,
        )
        (ap (λ (n : ℕ). some (ok (stored_record w, n)))
          (omega (arith, length-append (header_bytes w) (data_bytes w))))

  pub parse_variable_record-wire :
      (rest : List ℕ)
      → parse_variable_record nom (wire_bytes w ++ rest) ≡ some (ok (stored_record w))
  unfolding parse_variable_record
  parse_variable_record-wire rest =
      ap (only_record nom) (parse_variable_record_consumed-wire 0 rest)
