-- ===== src/Mbus/Frame/Tests.antt =====
-- Frames of frame.rs's unit tests, and its theorems at concrete inputs.
use mbuscrate.Prelude.{ℕ, ◌≡◌, refl, List, [], ◌∷◌, ◌++◌, arith, false, ok, IsByte-All}
use mbuscrate.Nom.Sample.{sample_nom}
use mbuscrate.Mbus.Frame.{
  MBusFrame, long, calculate_checksum, checksum_of, calculate_mbus_checksum, checksum_from,
  pack_frame, parse_frame, verify_frame, parse_frame_type, parse_start, parse_lengths,
  parse_frame_as, parse_long_arm, parse_control_or_long_frame_after_header, parse_trailer,
}
use mbuscrate.Mbus.Frame.RoundTrip.{parse_frame-pack_frame}
use mbuscrate.Mbus.Frame.Canonical.{pack_frame-parse_frame}

-- A reply with two bytes of data.
abbrev reply : MBusFrame
reply = record {
  frame_type = long;
  control_field = 0x08;
  address = 0x05;
  control_information = 0x72;
  bytes = 0x01 ∷ 0xFF ∷ [];
  checksum = 0x7F;
  more_records_follow = false;
}

abbrev reply_wire : List ℕ
reply_wire = 0x68 ∷ 5 ∷ 5 ∷ 0x68 ∷ 0x08 ∷ 0x05 ∷ 0x72 ∷ 0x01 ∷ 0xFF ∷ 0x7F ∷ 0x16 ∷ []

reply-verifies : verify_frame reply ≡ ok tt
unfolding verify_frame calculate_checksum checksum_of calculate_mbus_checksum checksum_from
reply-verifies = refl

reply-parses : parse_frame sample_nom reply_wire ≡ ok ([], reply)
unfolding parse_frame parse_frame_type parse_start parse_lengths parse_frame_as parse_long_arm
    parse_control_or_long_frame_after_header parse_trailer
reply-parses = refl

parse_frame-pack_frame_example :
    parse_frame sample_nom (pack_frame reply ++ (0xE5 ∷ []))
    ≡ ok (0xE5 ∷ [], record reply { checksum = calculate_checksum reply })
parse_frame-pack_frame_example =
    parse_frame-pack_frame sample_nom reply (0xE5 ∷ []) ((omega arith, omega arith), refl)

pack_frame-parse_frame_example : reply_wire ≡ pack_frame reply ++ []
pack_frame-parse_frame_example =
    pack_frame-parse_frame sample_nom reply_wire [] reply (IsByte-All reply_wire refl) reply-parses
      reply-verifies (λ h. cc (h.1))
