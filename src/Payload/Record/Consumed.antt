-- ===== src/Payload/Record/Consumed.antt =====
-- What parse_variable_record_consumed of src/payload/record.rs takes off any input, and where it panics.
use mbuscrate.Prelude.{
  ℕ, suc, ◌+◌, ◌-◌, ◌≤◌, ◌<◌, ◌≡◌, refl, ap, bit_and, List, [], ◌∷◌, leb, ltb, ◌==◌, Bool-cases,
  inl, inr, length, length-append, arith, Result, ok, err, none, some, Option, length-drop,
  le_or_lt, ◌>>=◌, subst,
}
use mbuscrate.Mbus.Error.{MBusError}
use mbuscrate.Nom.{Nom, IResult, error, eof, take_while_total}
use mbuscrate.Payload.Record.{
  MBusRecord, fill_data, blank_record, variable_data, after_length, takes_all, is_idle_filler,
  set_more_records, parse_variable_data_length, read_data, parse_variable_record_consumed,
  after_header, parse_custom_vif, take_custom_vif, parse_vib, parse_dife, parse_vife,
  parse_after_dif, copy_front, has_extension, read_dif, parse_variable_record_inner, end_vib,
  all_data, mbus_dif_datalength_lookup,
}
use mbuscrate.Payload.Record.Chain.{read_extensions-length}

-- At most `k` bytes are left.
abbrev Leaves : ℕ → IResult MBusRecord → Type 0
Leaves k (err e) = Unit {0}
Leaves k (ok (rest, r)) = length rest ≤ k

parse_dife-length : (i : List ℕ) (r : MBusRecord) → length (parse_dife i r).0 ≤ length i
unfolding parse_dife
parse_dife-length i r = elim (Bool-cases (has_extension r.dif)) [
  | inl more ↦ rw more (read_extensions-length i 0 r.dife)
  | inr last ↦ rw last (omega arith)
]

parse_vife-length : (i : List ℕ) (r : MBusRecord) → length (parse_vife i r).0 ≤ length i
unfolding parse_vife
parse_vife-length i r = elim (Bool-cases (has_extension r.vif)) [
  | inl more ↦ rw more (read_extensions-length i 0 r.vife)
  | inr last ↦ rw last (omega arith)
]

end_vib-Leaves : (k : ℕ) (m : IResult MBusRecord) → Leaves k m → Leaves k (m >>= end_vib)
end_vib-Leaves k (err e) h = tt
end_vib-Leaves k (ok (i, r)) h = omega (arith, parse_vife-length i r)

Leaves-mono : (j k : ℕ) (m : IResult MBusRecord) → j ≤ k → Leaves j m → Leaves k m
Leaves-mono j k (err e) le h = tt
Leaves-mono j k (ok (i, r)) le h = omega arith

abbrev LeavesIf : ℕ → Option (IResult MBusRecord) → Type 0
LeavesIf k none = Unit {0}
LeavesIf k (some m) = Leaves k m

LeavesIf-mono : (j k : ℕ) (m : Option (IResult MBusRecord)) → j ≤ k → LeavesIf j m → LeavesIf k m
LeavesIf-mono j k none le h = tt
LeavesIf-mono j k (some m) le h = Leaves-mono j k m le h

all_data-Leaves :
    (i : List ℕ) (r : MBusRecord) (bs : Option (List ℕ)) → LeavesIf (length i) (all_data i r bs)
all_data-Leaves i r none = tt
all_data-Leaves i r (some bs) = omega arith

abbrev sized : MBusRecord → MBusRecord
sized r = record r { data_len = mbus_dif_datalength_lookup r.dif }

-- From `low` to `high` bytes are consumed.
abbrev Takes : ℕ → ℕ → Option (Result MBusError (MBusRecord × ℕ)) → Type 0
Takes low high none = Unit {0}
Takes low high (some (err e)) = Unit {0}
Takes low high (some (ok (r, n))) = (low ≤ n) × (n ≤ high)

fill_data-Takes :
    (rest : List ℕ) (c : ℕ) (r : MBusRecord) → Takes c (c + length rest) (fill_data rest c r)
fill_data-Takes rest c r = elim (Bool-cases (ltb (length rest) r.data_len)) [
  | inl short ↦ rw short tt
  | inr enough ↦ elim (Bool-cases (leb r.data_len (length r.bytes))) [
    | inl inside ↦ rw (enough, inside) (ground arith)
    | inr outside ↦ rw (enough, outside) tt
  ]
]

Takes-mono :
    (low low' high high' : ℕ) (m : Option (Result MBusError (MBusRecord × ℕ)))
    → low ≤ low'
    → high' ≤ high
    → Takes low' high' m
    → Takes low high m
Takes-mono low low' high high' none a b h = tt
Takes-mono low low' high high' (some (err e)) a b h = tt
Takes-mono low low' high high' (some (ok (r, n))) a b h = (omega arith, omega arith)

after_length-Takes :
    (rest : List ℕ) (c : ℕ) (r : MBusRecord) (n : Result MBusError ℕ)
    → Takes c (c + suc (length rest)) (after_length rest c r n)
after_length-Takes rest c r (err e) = tt
after_length-Takes rest c r (ok n) =
    Takes-mono c (c + 1) (c + suc (length rest)) (c + 1 + length rest)
      (fill_data rest (c + 1) (record r { data_len = n })) (omega arith) (omega arith)
      (fill_data-Takes rest (c + 1) (record r { data_len = n }))

variable_data-Takes :
    (rest : List ℕ) (c : ℕ) (r : MBusRecord) → Takes c (c + length rest) (variable_data rest c r)
variable_data-Takes [] c r = tt
variable_data-Takes (b ∷ rest) c r = after_length-Takes rest c r (parse_variable_data_length b)

read_data-Takes :
    (rest : List ℕ) (c : ℕ) (r : MBusRecord) → Takes c (c + length rest) (read_data rest c r)
unfolding read_data
read_data-Takes rest c r = elim (Bool-cases (takes_all r.dif)) [
  | inl all ↦ rw all (omega arith, omega arith)
  | inr some_data ↦ elim (Bool-cases (bit_and r.dif 0x0F == 0x0D)) [
    | inl variable ↦ rw (some_data, variable) (variable_data-Takes rest c r)
    | inr fixed ↦ rw (some_data, fixed) (fill_data-Takes rest c r)
  ]
]

after_header-Takes :
    (k n : ℕ) (m : Option (IResult MBusRecord))
    → k < n
    → LeavesIf k m
    → Takes 1 n (after_header n m)
after_header-Takes k n none lt h = tt
after_header-Takes k n (some (err e)) lt h = tt
after_header-Takes k n (some (ok (rest, r))) lt h =
    Takes-mono 1 (n - length rest) n (n - length rest + length rest)
      (read_data rest (n - length rest) r) (omega arith) (omega arith)
      (read_data-Takes rest (n - length rest) r)

module _ (nom : Nom) where
  take_custom_vif-Leaves :
      (i : List ℕ) (len : ℕ) (r : MBusRecord) → Leaves (length i) (take_custom_vif nom r (i, len))
  take_custom_vif-Leaves i len r = elim (Bool-cases (ltb 16 len)) [
    | inl long ↦ rw long tt
    | inr short ↦ elim (le_or_lt len (length i)) [
      | inl enough ↦
          rw (short, nom.take_bytes_enough len i enough) (omega (arith, length-drop len i))
      | inr few ↦ rw (short, nom.take_bytes_short len i few) tt
    ]
  ]

  parse_custom_vif-Leaves :
      (i : List ℕ) (r : MBusRecord) → Leaves (length i) (parse_custom_vif nom i r)
  unfolding parse_custom_vif
  parse_custom_vif-Leaves i r = elim (Bool-cases (bit_and r.vif 0x7F == 0x7C)) [
    | inl plain ↦ rw plain (plain_text i)
    | inr standard ↦ rw standard (omega arith)
  ]
    where
      plain_text : (j : List ℕ) → Leaves (length j) (nom.be_u8 j >>= take_custom_vif nom r)
      plain_text [] = rw nom.be_u8-nil tt
      plain_text (b ∷ j) =
          rw (nom.be_u8-cons b j) (Leaves-mono _ _ _ (omega arith) (take_custom_vif-Leaves j b r))

  parse_vib-Leaves : (i : List ℕ) (r : MBusRecord) → Leaves (length i) (parse_vib nom (i, r))
  unfolding parse_vib
  parse_vib-Leaves [] r = rw nom.be_u8-nil tt
  parse_vib-Leaves (b ∷ i) r = rw (nom.be_u8-cons b i) (
      Leaves-mono (length i) _ _ (omega arith)
        (end_vib-Leaves (length i) _ (parse_custom_vif-Leaves i (record r { vif = b }))))

  parse_after_dif-Leaves :
      (i : List ℕ) (r : MBusRecord) → LeavesIf (length i) (parse_after_dif nom i r)
  unfolding parse_after_dif
  parse_after_dif-Leaves i r = elim (Bool-cases (takes_all r.dif)) [
    | inl all ↦ rw all (all_data-Leaves i (set_more_records r) (copy_front i r.bytes))
    | inr some_data ↦ rw some_data (
        let (rest, r') = parse_dife i (sized r) in
        Leaves-mono (length rest) (length i) (parse_vib nom (rest, r'))
          (parse_dife-length i (sized r)) (parse_vib-Leaves rest r'))
  ]

  read_dif-Leaves : (i : List ℕ) → LeavesIf (length i - 1) (read_dif nom (nom.be_u8 i))
  read_dif-Leaves [] = rw nom.be_u8-nil tt
  read_dif-Leaves (b ∷ i) =
      let r = record blank_record { dif = b } in
      rw (nom.be_u8-cons b i) (
        LeavesIf-mono (length i) (length (b ∷ i) - 1) (parse_after_dif nom i r) (omega arith)
          (parse_after_dif-Leaves i r))

  inner-Leaves :
      (input : List ℕ) → LeavesIf (length input - 1) (parse_variable_record_inner nom input)
  unfolding parse_variable_record_inner
  inner-Leaves input =
      let (xs, ys, found, split) = take_while_total nom is_idle_filler input in
      rw found (
        LeavesIf-mono (length ys - 1) (length input - 1) (read_dif nom (nom.be_u8 ys))
          (omega (arith, ap length split, length-append xs ys)) (read_dif-Leaves ys))

  empty_lem : parse_variable_record_inner nom [] ≡ some (err (error [] eof))
  unfolding parse_variable_record_inner
  empty_lem = rw (nom.take_while_lem is_idle_filler [] [] tt refl, nom.be_u8-nil) refl

  consumed-Takes :
      (input : List ℕ) → Takes 1 (length input) (parse_variable_record_consumed nom input)
  unfolding parse_variable_record_consumed
  consumed-Takes [] = rw empty_lem tt
  consumed-Takes (b ∷ bs) =
      after_header-Takes (length bs) (suc (length bs)) (parse_variable_record_inner nom (b ∷ bs))
        (omega arith) (LeavesIf-mono _ _ _ (omega arith) (inner-Leaves (b ∷ bs)))

  -- A record that is returned has taken at least one byte, and no more than there are.
  pub parse_variable_record_consumed_bounds :
      (input : List ℕ) (r : MBusRecord) (n : ℕ)
      → parse_variable_record_consumed nom input ≡ some (ok (r, n))
      → (1 ≤ n) × (n ≤ length input)
  parse_variable_record_consumed_bounds input r n returned =
      subst (Takes 1 (length input)) returned (consumed-Takes input)
