-- ===== src/Payload/Record.antt =====
-- src/payload/record.rs: the variable and the fixed data record. Values, units, texts and
-- the time stamp are left out; the header, the raw data and what is consumed are here.
-- A slice or an array index out of range makes Rust panic: `none`.
pub mod Chain
pub mod Header
pub mod RoundTrip
pub mod Data
pub mod Consumed
pub mod Errors
pub mod Fixed
pub mod Samples
mod Tests
use mbuscrate.Prelude.{
  ℕ, zero, suc, ◌+◌, ◌-◌, ◌*◌, ◌%◌, ◌^◌, bit_and, List, [], ◌∷◌, ◌++◌, Bool, true, false, ◌&&◌,
  ◌||◌, ltb, leb, ◌==◌, not, if◌then◌else◌, Option, none, some, Result, ok, err, ◌>>=◌, length,
  drop, set, take, replicate, ◌≡◌, map,
}
use mbuscrate.Nom.{Nom, IResult, error, tag}
use mbuscrate.Mbus.Error.{MBusError, frame_parse_error, unknown_dif, premature_end_at_data}

-- `MBusRecord` with its header; `bytes` is the array `data`, of 256 bytes. The text of a custom VIF is
-- the list of its characters.
pub record MBusRecord : Type 0 where
  pub storage_number : ℕ
  pub dif : ℕ
  pub ndife : ℕ
  pub dife : List ℕ
  pub vif : ℕ
  pub nvife : ℕ
  pub vife : List ℕ
  pub custom_vif : List ℕ
  pub data_len : ℕ
  pub bytes : List ℕ
  pub more_records_follow : ℕ

pub blank_record : MBusRecord
blank_record = record {
  storage_number = 0;
  dif = 0;
  ndife = 0;
  dife = replicate 10 0;
  vif = 0;
  nvife = 0;
  vife = replicate 10 0;
  custom_vif = [];
  data_len = 0;
  bytes = replicate 256 0;
  more_records_follow = 0;
}

-- The `match` on the low four bits.
pub datalength_of : ℕ → ℕ
datalength_of n =
    if n == 0x5
    then 6
    else if n == 0x6
    then 8
    else if n == 0x7
    then 0
    else if n == 0x8
    then 0
    else if n == 0x9
    then 1
    else if n == 0xA
    then 2
    else if n == 0xB
    then 3
    else if n == 0xC
    then 4
    else if n == 0xD
    then 0
    else if n == 0xE
    then 6
    else if n == 0xF
    then 8
    else n

pub mbus_dif_datalength_lookup : ℕ → ℕ
unfolding datalength_of
mbus_dif_datalength_lookup dif = datalength_of (bit_and dif 0x0F)

pub parse_variable_data_length : ℕ → Result MBusError ℕ
parse_variable_data_length input =
    if leb input 0xBF
    then ok input
    else if leb input 0xCF
    then ok ((input - 0xC0) * 2)
    else if leb input 0xDF
    then ok ((input - 0xD0) * 2 + 1)
    else if leb input 0xEF
    then ok (input - 0xE0 + 64)
    else if leb input 0xFA
    then ok (input - 0xF0 + 1120)
    else err (unknown_dif input)

-- A DIF after which all bytes belong to the record: manufacturer data, or more records to follow.
abbrev pub takes_all : ℕ → Bool
takes_all dif = dif == 0x0F || dif == 0x1F

abbrev pub is_idle_filler : ℕ → Bool
is_idle_filler b = b == 0x2F

-- The two loops over extension bytes: the array, the count, and the input that is left.
pub read_extensions : List ℕ → ℕ → List ℕ → List ℕ × ℕ × List ℕ
read_extensions [] count ext = (ext, count, [])
read_extensions (b ∷ i) count ext =
    let more = read_extensions i (count + 1) (set ext count b) in
    if leb 10 count
    then (ext, count, b ∷ i)
    else if bit_and b 0x80 == 0
    then (set ext count b, count + 1, i)
    else more

abbrev pub has_extension : ℕ → Bool
has_extension b = not (bit_and b 0x80 == 0)

abbrev set_more_records : MBusRecord → MBusRecord
set_more_records r = if r.dif == 0x1F then record r { more_records_follow = 1 } else r

pub mbus_data_record_append : MBusRecord → MBusRecord
mbus_data_record_append r = if r.dif == 0x1F then record r { more_records_follow = 1 } else r

-- `data[..src.len()].copy_from_slice(src)`
pub copy_front : List ℕ → List ℕ → Option (List ℕ)
copy_front src dst =
    if leb (length src) (length dst) then some (src ++ drop (length src) dst) else none

-- The branch of `takes_all`, once the bytes are copied.
abbrev copied : List ℕ → List ℕ → MBusRecord → MBusRecord
copied i bs r = record r { data_len = length i; bytes = bs }

abbrev all_data : List ℕ → MBusRecord → Option (List ℕ) → Option (IResult MBusRecord)
all_data i r none = none
all_data i r (some bs) = some (ok ([], mbus_data_record_append (copied i bs r)))

abbrev pub store_dife : MBusRecord → List ℕ × ℕ × List ℕ → List ℕ × MBusRecord
store_dife r (ext, count, rest) = (rest, record r { dife = ext; ndife = count })

abbrev pub store_vife : MBusRecord → List ℕ × ℕ × List ℕ → List ℕ × MBusRecord
store_vife r (ext, count, rest) = (rest, record r { vife = ext; nvife = count })

pub parse_dife : List ℕ → MBusRecord → List ℕ × MBusRecord
unfolding read_extensions
parse_dife i r = if has_extension r.dif then store_dife r (read_extensions i 0 r.dife) else (i, r)

pub parse_vife : List ℕ → MBusRecord → List ℕ × MBusRecord
unfolding read_extensions
parse_vife i r = if has_extension r.vif then store_vife r (read_extensions i 0 r.vife) else (i, r)

-- `mbus_data_str_decode(&mut dst, src, src.len())`: the characters, the last byte first.
abbrev pub mbus_data_str_decode : List ℕ → List ℕ
mbus_data_str_decode [] = []
mbus_data_str_decode (b ∷ bs) = mbus_data_str_decode bs ++ b ∷ []

abbrev store_text : MBusRecord → List ℕ × List ℕ → IResult MBusRecord
store_text r (rest, text) = ok (rest, record r { custom_vif = mbus_data_str_decode text })

abbrev end_vib : List ℕ × MBusRecord → IResult MBusRecord
end_vib (i, r) = ok (parse_vife i r)

-- The loop that copies `data_len` bytes.
abbrev pub with_data : List ℕ → MBusRecord → MBusRecord
with_data remaining r = record r { bytes = take r.data_len remaining ++ drop r.data_len r.bytes }

-- The data of a record whose length is known.
abbrev fill_data : List ℕ → ℕ → MBusRecord → Option (Result MBusError (MBusRecord × ℕ))
fill_data remaining consumed r =
    if ltb (length remaining) r.data_len
    then some (err premature_end_at_data)
    else if leb r.data_len (length r.bytes)
    then some (ok (with_data remaining r, consumed + r.data_len))
    else none

abbrev after_length :
    List ℕ → ℕ → MBusRecord → Result MBusError ℕ → Option (Result MBusError (MBusRecord × ℕ))
after_length remaining consumed r (err e) = some (err e)
after_length remaining consumed r (ok n) =
    fill_data remaining (consumed + 1) (record r { data_len = n })

-- `remaining.first().unwrap_or(&0)`, then `&remaining[1..]`.
abbrev variable_data : List ℕ → ℕ → MBusRecord → Option (Result MBusError (MBusRecord × ℕ))
variable_data [] consumed r = none
variable_data (len ∷ remaining) consumed r =
    after_length remaining consumed r (parse_variable_data_length len)

-- After the header.
pub read_data : List ℕ → ℕ → MBusRecord → Option (Result MBusError (MBusRecord × ℕ))
unfolding parse_variable_data_length
read_data remaining consumed r =
    if takes_all r.dif
    then some (ok (r, consumed))
    else if bit_and r.dif 0x0F == 0x0D
    then variable_data remaining consumed r
    else fill_data remaining consumed r

abbrev after_header : ℕ → Option (IResult MBusRecord) → Option (Result MBusError (MBusRecord × ℕ))
after_header n none = none
after_header n (some (err e)) = some (err frame_parse_error)
after_header n (some (ok (remaining, r))) = read_data remaining (n - length remaining) r

module _ (nom : Nom) where
  abbrev take_custom_vif : MBusRecord → List ℕ × ℕ → IResult MBusRecord
  take_custom_vif r (i, len) =
      if ltb 16 len then err (error i tag) else (nom.take_bytes len i >>= store_text r)

  pub parse_custom_vif : List ℕ → MBusRecord → IResult MBusRecord
  parse_custom_vif i r =
      if bit_and r.vif 0x7F == 0x7C then (nom.be_u8 i >>= take_custom_vif r) else ok (i, r)

  abbrev read_vif : MBusRecord → List ℕ × ℕ → IResult MBusRecord
  read_vif r (i, vif) = parse_custom_vif i (record r { vif = vif }) >>= end_vib

  pub parse_vib : List ℕ × MBusRecord → IResult MBusRecord
  unfolding parse_custom_vif parse_vife
  parse_vib (i, r) = nom.be_u8 i >>= read_vif r

  -- After the DIF byte.
  pub parse_after_dif : List ℕ → MBusRecord → Option (IResult MBusRecord)
  unfolding mbus_data_record_append copy_front parse_vib parse_dife
  parse_after_dif i r =
      if takes_all r.dif
      then all_data i (set_more_records r) (copy_front i r.bytes)
      else some
          (parse_vib (parse_dife i (record r { data_len = mbus_dif_datalength_lookup r.dif })))

  abbrev read_dif : IResult ℕ → Option (IResult MBusRecord)
  read_dif (err e) = some (err e)
  read_dif (ok (rest, dif)) = parse_after_dif rest (record blank_record { dif = dif })

  abbrev after_fillers : IResult (List ℕ) → Option (IResult MBusRecord)
  after_fillers (err e) = some (err e)
  after_fillers (ok (i, _)) = read_dif (nom.be_u8 i)

  pub parse_variable_record_inner : List ℕ → Option (IResult MBusRecord)
  unfolding parse_after_dif
  parse_variable_record_inner input = after_fillers (nom.take_while is_idle_filler input)

  -- The record, and how many bytes it takes.
  pub parse_variable_record_consumed : List ℕ → Option (Result MBusError (MBusRecord × ℕ))
  unfolding parse_variable_record_inner read_data
  parse_variable_record_consumed input =
      after_header (length input) (parse_variable_record_inner input)

  abbrev only_record :
      Option (Result MBusError (MBusRecord × ℕ)) → Option (Result MBusError MBusRecord)
  only_record none = none
  only_record (some (err e)) = some (err e)
  only_record (some (ok (r, consumed))) = some (ok r)

  pub parse_variable_record : List ℕ → Option (Result MBusError MBusRecord)
  parse_variable_record input = only_record (parse_variable_record_consumed input)
