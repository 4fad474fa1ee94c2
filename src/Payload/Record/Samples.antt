-- ===== src/Payload/Record/Samples.antt =====
-- Two records for the concrete runs: a volume with a storage number, and a plain-text unit with data of
-- variable length.
use mbuscrate.Prelude.{refl, [], ◌∷◌, arith}
use mbuscrate.Payload.Record.Header.{WireRecord, IsHeader, IsWireRecord, string}

abbrev pub volume : WireRecord
volume = record {
  dif = 0x84;
  difes = 0x81 ∷ 0x10 ∷ [];
  vif = 0x93;
  text = [];
  vifes = 0x3A ∷ [];
  lvar = 0;
  bytes = 0x42 ∷ 0x01 ∷ 0x00 ∷ 0x00 ∷ [];
}

abbrev pub named : WireRecord
named = record {
  dif = 0x0D;
  difes = [];
  vif = 0x7C;
  text = b'h' ∷ b's' ∷ [];
  vifes = [];
  lvar = 3;
  bytes = b'A' ∷ b'B' ∷ b'C' ∷ [];
}

pub volume-IsHeader : IsHeader volume
volume-IsHeader = record {
  ordinary = refl;
  not_filler = refl;
  dib_chain = ((λ e. cc), ((λ e. cc), refl));
  dib_room = omega arith;
  vib_chain = ((λ e. cc), refl);
  vib_room = omega arith;
  text_room = omega arith;
  text_plain = λ e. refl;
}

pub volume-IsWireRecord : IsWireRecord volume
volume-IsWireRecord = record {
  header = volume-IsHeader;
  room = omega arith;
  announced = λ e. cc;
  fixed_size = λ e. refl;
}

pub named-IsHeader : IsHeader named
named-IsHeader = record {
  ordinary = refl;
  not_filler = refl;
  dib_chain = refl;
  dib_room = omega arith;
  vib_chain = refl;
  vib_room = omega arith;
  text_room = omega arith;
  text_plain = λ e. cc;
}

pub named-IsWireRecord : IsWireRecord named
named-IsWireRecord = record {
  header = named-IsHeader;
  room = omega arith;
  announced = λ e. string 3 (omega arith);
  fixed_size = λ e. cc;
}
