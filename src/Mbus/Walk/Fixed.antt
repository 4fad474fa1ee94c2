-- ===== src/Mbus/Walk/Fixed.antt =====
-- The fixed record in the walk of src/mbus/mbus_protocol.rs.
use mbuscrate.Prelude.{
  ℕ, ◌+◌, ◌*◌, ◌^◌, ◌≤◌, ◌<◌, ◌≡◌, refl, List, ◌++◌, true, false, leb, ltb, length, drop, replicate,
  some, ok, ◌&&◌, arith,
}
use mbuscrate.Nom.{Nom}
use mbuscrate.Payload.Record.Fixed.{fixed_record}
use mbuscrate.Payload.Record.Fixed.Layout.{
  Head, fixed_bytes, IsCounter, parse_fixed_record-layout, fixed_record-dif, fixed_bytes-medium,
}
use mbuscrate.Mbus.Walk.{try_parse_fixed_record, calculate_record_size}

-- A fixed record that is accepted, sixteen bytes long at least, counts as three bytes in the walk.
pub try_parse_fixed_record_size :
    (nom : Nom) (id : ℕ) (head : Head) (s1 s2 : ℕ) (counter tail : List ℕ)
    → id < 10 ^ 8
    → (leb 0x0421 (head.high * 256 + head.low) && leb (head.high * 256 + head.low) 0x6B5A) ≡ true
    → head.medium < 0x80
    → IsCounter head.status counter
    → length (fixed_bytes id head s1 s2 counter tail) ≤ 256
    → let input = fixed_bytes id head s1 s2 counter tail in
      try_parse_fixed_record nom input
      ≡ some (ok (fixed_record input id (input ++ drop (length input) (replicate 256 0)), 3))
unfolding try_parse_fixed_record calculate_record_size
try_parse_fixed_record_size nom id head s1 s2 counter tail small maker medium c fits =
    let input = fixed_bytes id head s1 s2 counter tail in
    let stored = input ++ drop (length input) (replicate 256 0) in
    let inside : leb (length input) 256 ≡ true = ground arith in
    let standard : ltb 0x7F head.medium ≡ false = ground arith in
    rw (parse_fixed_record-layout nom id head s1 s2 tail small maker medium counter c, inside)
      (rw
        (
          fixed_record-dif input id stored,
          fixed_bytes-medium id head s1 s2 counter tail stored,
          standard,
        )
        refl)
