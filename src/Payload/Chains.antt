-- ===== src/Payload/Chains.antt =====
-- src/payload/data.rs: the chains of a record's information blocks, and the numbers that it reads from
-- them. The values in floating point, the units and the record around them are left out.
pub mod Dif
pub mod Vif
pub mod Numbers
mod Tests
use mbuscrate.Prelude.{
  ℕ, zero, suc, ◌+◌, ◌*◌, ◌/◌, ◌%◌, ◌^◌, bit_and, bit_or, List, [], ◌∷◌, ◌++◌, Bool, true, false,
  ◌||◌, ltb, leb, ◌==◌, length, if◌then◌else◌, ok, err, ◌>>=◌,
}
use mbuscrate.Nom.{Nom, IResult, error, eof, too_large}

-- The `while` loop of parse_dif_chain. On a slice that is not empty `be_u8` takes the first byte.
pub dif_loop : List ℕ → List ℕ → ℕ → IResult (List ℕ)
dif_loop [] chain current_byte =
    if bit_and current_byte 0x80 == 0 then ok ([], chain) else err (error [] eof)
dif_loop (b ∷ bs) chain current_byte =
    let more = dif_loop bs (chain ++ b ∷ []) b in
    if bit_and current_byte 0x80 == 0
    then ok (b ∷ bs, chain)
    else if ltb 10 (length chain)
    then err (error (b ∷ bs) too_large)
    else more

abbrev start_dif : List ℕ × ℕ → IResult (List ℕ)
start_dif (remaining, dif) = dif_loop remaining (dif ∷ []) dif

-- The `while let` loop of parse_vif_chain; `last_byte` is the last of the chain.
pub vife_loop : List ℕ → List ℕ → ℕ → IResult (List ℕ)
vife_loop [] chain last_byte =
    if bit_and last_byte 0x80 == 0 then ok ([], chain) else err (error [] eof)
vife_loop (b ∷ bs) chain last_byte =
    let more = vife_loop bs (chain ++ b ∷ []) b in
    if bit_and last_byte 0x80 == 0
    then ok (b ∷ bs, chain)
    else if leb 11 (length chain)
    then ok (b ∷ bs, chain)
    else more

-- The loop over the bytes of a manufacturer.
pub mfg_loop : List ℕ → List ℕ → ℕ → IResult (List ℕ)
mfg_loop [] chain mfg_bytes = ok ([], chain)
mfg_loop (b ∷ bs) chain mfg_bytes =
    let more = mfg_loop bs (chain ++ b ∷ []) (mfg_bytes + 1) in
    if leb 10 mfg_bytes
    then ok (b ∷ bs, chain)
    else if bit_and b 0x80 == 0
    then ok (bs, chain ++ b ∷ [])
    else more

abbrev pub is_extended : ℕ → Bool
is_extended vif = vif == 0xFD || vif == 0xFB

abbrev pub is_text : ℕ → Bool
is_text vif = vif == 0x7C || vif == 0xFC

abbrev pub is_wildcard : ℕ → Bool
is_wildcard vif = vif == 0x7E || vif == 0xFE

abbrev pub is_manufacturer : ℕ → Bool
is_manufacturer vif = vif == 0x7F || vif == 0xFF

abbrev keep_text : ℕ → ℕ → List ℕ × List ℕ → IResult (List ℕ)
keep_text vif len (remaining, ascii_bytes) = ok (remaining, vif ∷ len ∷ ascii_bytes)

abbrev extended : ℕ → List ℕ → IResult (List ℕ)
extended vif [] = err (error [] eof)
extended vif (b ∷ bs) = vife_loop bs (vif ∷ b ∷ []) b

module _ (nom : Nom) where
  pub parse_dif_chain : List ℕ → IResult (List ℕ)
  unfolding dif_loop
  parse_dif_chain input = nom.be_u8 input >>= start_dif

  abbrev plain_text : ℕ → List ℕ → IResult (List ℕ)
  plain_text vif [] = err (error [] eof)
  plain_text vif (len ∷ remaining) = nom.take_bytes len remaining >>= keep_text vif len

  abbrev start_vif : List ℕ × ℕ → IResult (List ℕ)
  start_vif (remaining, vif) =
      if is_extended vif
      then extended vif remaining
      else if is_text vif
      then plain_text vif remaining
      else if is_wildcard vif
      then ok (remaining, vif ∷ [])
      else if is_manufacturer vif
      then mfg_loop remaining (vif ∷ []) 0
      else vife_loop remaining (vif ∷ []) vif

  pub parse_vif_chain : List ℕ → IResult (List ℕ)
  unfolding vife_loop mfg_loop
  parse_vif_chain input = nom.be_u8 input >>= start_vif

-- The loops over the chain from its second byte; `i` counts the extensions before.
pub storage_from : ℕ → ℕ → List ℕ → ℕ
storage_from i storage_number [] = storage_number
storage_from i storage_number (dife ∷ difes) =
    storage_from (i + 1)
      (if ltb 9 i
        then storage_number
        else if ltb i 4
        then bit_or storage_number (bit_and dife 0x0F * 2 ^ (4 * i))
        else storage_number)
      difes

pub extract_storage_number_from_dife_chain : List ℕ → ℕ
unfolding storage_from
extract_storage_number_from_dife_chain [] = 0
extract_storage_number_from_dife_chain (dif ∷ difes) = storage_from 0 0 difes

pub tariff_from : List ℕ → ℕ
tariff_from [] = 0
tariff_from (dife ∷ difes) =
    let later = tariff_from difes in
    let tariff_bits = bit_and dife 0x30 / 2 ^ 4 in if tariff_bits == 0 then later else tariff_bits

pub extract_tariff_from_dife_chain : List ℕ → ℕ
unfolding tariff_from
extract_tariff_from_dife_chain [] = 0
extract_tariff_from_dife_chain (dif ∷ difes) = tariff_from difes

-- The closure `le_to_u64`, on at most eight bytes: `acc | (b as u64) << (8 * i)`.
pub le_from : ℕ → ℕ → List ℕ → ℕ
le_from i acc [] = acc
le_from i acc (b ∷ bs) = le_from (i + 1) (bit_or acc (b * 2 ^ (8 * i) % 2 ^ 64)) bs

pub le_to_u64 : List ℕ → ℕ
unfolding le_from
le_to_u64 bytes = le_from 0 0 bytes
