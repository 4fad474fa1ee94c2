-- ===== src/Wmbus/Frame/Tests.antt =====
-- The theorem on frames at a concrete input.
use mbuscrate.Prelude.{◌≡◌, [], ◌∷◌, ok, arith, inl}
use mbuscrate.Wmbus.Frame.{build, parse_wmbus_frame}
use mbuscrate.Wmbus.Frame.Build.{built, parse_wmbus_frame-build}

parse_wmbus_frame-build_example :
    parse_wmbus_frame (build 0x44 0x2C2D 74644444 0x1B 0x16 0x7A (1 ∷ 2 ∷ 3 ∷ []))
    ≡ ok (built 0x44 0x2C2D 74644444 0x1B 0x16 0x7A (1 ∷ 2 ∷ 3 ∷ []))
parse_wmbus_frame-build_example =
    parse_wmbus_frame-build 0x44 0x2C2D 74644444 0x1B 0x16 0x7A (1 ∷ 2 ∷ 3 ∷ []) (omega arith)
      (omega arith) (omega arith) (inl (omega arith))
