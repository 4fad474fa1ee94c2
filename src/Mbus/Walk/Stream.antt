-- ===== src/Mbus/Walk/Stream.antt =====
-- process_data of src/mbus/mbus_protocol.rs on a payload that is a row of records.
use mbuscrate.Prelude.{
  ℕ, zero, suc, ◌+◌, ◌≤◌, ◌<◌, ◌≡◌, ◌≢◌, refl, sym, ap, ◌∙◌, List, [], ◌∷◌, ◌++◌, true, false, leb,
  ltb, ◌==◌, length, Result, ok, some, arith, length-append, drop-append, append_assoc, append-nil,
  replicate, map, All, ◌>>◌, length-replicate,
}
use mbuscrate.Nom.{Nom}
use mbuscrate.Mbus.Error.{MBusError}
use mbuscrate.Mbus.Protocol.{StateMachine, idle}
use mbuscrate.Payload.Record.{MBusRecord, parse_variable_record_consumed}
use mbuscrate.Payload.Record.Header.{WireRecord, IsWireRecord, wire_bytes}
use mbuscrate.Payload.Record.Data.{stored_record, parse_variable_record_consumed-wire}
use mbuscrate.Mbus.Walk.{
  Ran, returned, Next, push, unless_stuck, after_variable, walk, process_data, validated,
  validate_all, validate_and_normalize_record,
}

-- Idle fillers, then a record.
abbrev pub Slot : Type 0
Slot = ℕ × WireRecord

abbrev pub slot_bytes : Slot → List ℕ
slot_bytes (k, w) = replicate k 0x2F ++ wire_bytes w

abbrev pub stream_bytes : List Slot → List ℕ
stream_bytes [] = []
stream_bytes (s ∷ ss) = slot_bytes s ++ stream_bytes ss

abbrev pub stored_slot : Slot → MBusRecord
stored_slot (k, w) = stored_record w

-- A record that the checks after the walk let pass too.
abbrev pub IsAccepted : Slot → Type 0
IsAccepted (k, w) = IsWireRecord w × (w.vif ≢ 0xFF) × (length w.bytes ≤ 255)

slot-length : (k : ℕ) (w : WireRecord) → length (slot_bytes (k, w)) ≡ k + length (wire_bytes w)
slot-length k w =
    omega (arith, length-append (replicate k 0x2F) (wire_bytes w), length-replicate {A = ℕ} k 0x2F)

stream_positive : (s : Slot) (ss : List Slot) → 0 < length (stream_bytes (s ∷ ss))
stream_positive (k, w) ss =
    omega (arith, length-append (slot_bytes (k, w)) (stream_bytes ss), slot-length k w)

validate-stream : (ss : List Slot) → All IsAccepted ss → validate_all (map stored_slot ss) ≡ ok tt
unfolding validate_all validate_and_normalize_record
validate-stream [] h = refl
validate-stream ((k, w) ∷ ss) h =
    let vif : (w.vif == 0xFF) ≡ false = ground (arith, h.0.1) in
    let size : ltb 255 (length w.bytes) ≡ false = ground (arith, h.0.2) in
    rw (vif, size) (validate-stream ss h.1)

push_last :
    (next : Next) (xs : List ℕ) (records : List MBusRecord) (r : MBusRecord)
    → push next (xs ++ []) records (r, length xs) ≡ returned (records ++ r ∷ [])
push_last next xs records r =
    let all : leb (length (xs ++ [])) (length xs) ≡ true = ground (arith, length-append xs []) in
    rw all refl

push_more :
    (next : Next) (xs ys : List ℕ) (records : List MBusRecord) (r : MBusRecord)
    → 0 < length ys
    → push next (xs ++ ys) records (r, length xs) ≡ next ys (records ++ r ∷ [])
push_more next xs ys records r more =
    let part : leb (length (xs ++ ys)) (length xs) ≡ false = ground (arith, length-append xs ys) in
    rw (part, drop-append xs ys) refl

unless_stuck-moved :
    (total : ℕ) (next : Next) (bs : List ℕ) (records : List MBusRecord)
    → length bs < total
    → unless_stuck total next bs records ≡ next bs records
unless_stuck-moved total next bs records fewer =
    let moved : leb total (length bs) ≡ false = ground arith in rw moved refl

module _ (nom : Nom) where
  walk_end :
      (fuel total : ℕ) (records : List MBusRecord)
      → walk nom (suc fuel) total [] records ≡ returned records
  unfolding walk
  walk_end fuel total records = refl

  slot_read :
      (k : ℕ) (w : WireRecord) (rest : List ℕ)
      → IsWireRecord w
      → parse_variable_record_consumed nom (slot_bytes (k, w) ++ rest)
        ≡ some (ok (stored_record w, length (slot_bytes (k, w))))
  slot_read k w rest h =
      ap (parse_variable_record_consumed nom) (append_assoc (replicate k 0x2F) (wire_bytes w) rest)
      ∙ parse_variable_record_consumed-wire nom w h k rest
      ∙ ap (λ (n : ℕ). some (ok (stored_record w, n))) (sym (slot-length k w))

  -- A round of the loop on a record.
  walk_round :
      (fuel total : ℕ) (cs : List ℕ) (records : List MBusRecord) (r : MBusRecord) (n : ℕ)
      → 0 < length cs
      → parse_variable_record_consumed nom cs ≡ some (ok (r, n))
      → walk nom (suc fuel) total cs records
        ≡ push (unless_stuck total (walk nom fuel total)) cs records (r, n)
  unfolding walk
  walk_round fuel total [] records r n some_bytes e = absurd (omega arith)
  walk_round fuel total (b ∷ bs) records r n some_bytes e =
      ap (after_variable nom (unless_stuck total (walk nom fuel total)) (b ∷ bs) records) e

  walk-stream :
      (ss : List Slot) (fuel total : ℕ) (records : List MBusRecord)
      → All IsAccepted ss
      → length (stream_bytes ss) < fuel
      → length (stream_bytes ss) ≤ total
      → walk nom fuel total (stream_bytes ss) records ≡ returned (records ++ map stored_slot ss)
  walk-stream ss zero total records h enough inside = absurd (omega arith)
  walk-stream [] (suc fuel) total records h enough inside =
      walk_end fuel total records ∙ ap returned (sym (append-nil records))
  walk-stream ((k, w) ∷ []) (suc fuel) total records h enough inside =
      walk_round fuel total (stream_bytes ((k, w) ∷ [])) records (stored_record w)
        (length (slot_bytes (k, w))) (stream_positive (k, w) []) (slot_read k w [] h.0.0)
      ∙ push_last (unless_stuck total (walk nom fuel total)) (slot_bytes (k, w)) records
          (stored_record w)
  walk-stream ((k, w) ∷ t ∷ ss) (suc fuel) total records h enough inside =
      let rest = stream_bytes (t ∷ ss) in
      let size = length-append (slot_bytes (k, w)) rest in
      walk_round fuel total (stream_bytes ((k, w) ∷ t ∷ ss)) records (stored_record w)
        (length (slot_bytes (k, w))) (stream_positive (k, w) (t ∷ ss)) (slot_read k w rest h.0.0)
      ∙ push_more (unless_stuck total (walk nom fuel total)) (slot_bytes (k, w)) rest records
          (stored_record w) (stream_positive t ss)
      ∙ unless_stuck-moved total (walk nom fuel total) rest (records ++ stored_record w ∷ [])
          (omega (arith, size, slot-length k w))
      ∙ walk-stream (t ∷ ss) fuel total (records ++ stored_record w ∷ []) h.1
          (omega (arith, size, slot-length k w)) (omega (arith, size))
      ∙ ap returned (append_assoc records (stored_record w ∷ []) (map stored_slot (t ∷ ss)))

  process_walk :
      (bs : List ℕ) (m : StateMachine)
      → process_data nom bs m
        ≡ (validated nom (walk nom (suc (length bs)) (length bs) bs []), record m { state = idle })
  unfolding process_data walk validate_all
  process_walk [] m = refl
  process_walk (b ∷ bs) m = refl

  -- A payload that is a row of records, each after any number of idle fillers, is walked over without a
  -- record lost, invented or out of order, and leaves the machine idle. Each record has a size of the
  -- table of EN 13757-3 for its DIF, other than for the codes 5, 6, 7 and F, or a length byte for at
  -- most 191 characters or for a number of a length as record.rs counts it, at most ten extensions of
  -- the DIF and of the VIF, at most 16 characters of unit, at most 255 bytes of data and a VIF other
  -- than 0xFF.
  pub process_data-stream :
      (ss : List Slot) (m : StateMachine)
      → All IsAccepted ss
      → process_data nom (stream_bytes ss) m
        ≡ (returned (ok (map stored_slot ss)), record m { state = idle })
  process_data-stream ss m h =
      let size = length (stream_bytes ss) in
      process_walk (stream_bytes ss) m
      ∙ ap (λ (v : Ran (List MBusRecord)). (validated nom v, record m { state = idle }))
          (walk-stream ss (suc size) size [] h (omega arith) (omega arith))
      ∙ ap
          (λ (v : Result MBusError (Unit {0})).
            (returned (v >> ok (map stored_slot ss)), record m { state = idle }))
          (validate-stream ss h)
