-- ===== src/Util/IoBuffer/Tests.antt =====
-- Runs of the buffer, after the unit tests of iobuffer.rs, and its theorems at concrete inputs.
use mbuscrate.Prelude.{ℕ, ◌≡◌, refl, List, [], ◌∷◌, ◌++◌, some, arith}
use mbuscrate.Util.IoBuffer.{
  IoBuffer, bytes_eq, peek_range, new, write, write_byte, consume, consume_exact, find_pattern,
}
use mbuscrate.Util.IoBuffer.Queue.{
  Op, write_op, write_byte_op, consume_op, consume_exact_op, run, step, run-queue,
}
use mbuscrate.Util.IoBuffer.Limit.{IsValid, run-IsValid, new-IsValid}

abbrev some_bytes : IoBuffer
some_bytes = record {
  queue = 1 ∷ 2 ∷ 3 ∷ 4 ∷ 2 ∷ 3 ∷ 5 ∷ [];
  capacity_limit = some 8;
  bytes_written = 7;
  bytes_consumed = 0;
}

abbrev script : List Op
script =
    write_op (1 ∷ 2 ∷ 3 ∷ [])
    ∷ consume_op 2
    ∷ write_byte_op 4
    ∷ consume_exact_op 5
    ∷ consume_op 10
    ∷ []

run-script : (run new script).1 ≡ 1 ∷ 2 ∷ 3 ∷ 4 ∷ []
unfolding run step write write_byte consume consume_exact
run-script = refl

find_second : find_pattern some_bytes (2 ∷ 3 ∷ 5 ∷ []) ≡ some 4
unfolding find_pattern bytes_eq peek_range
find_second = refl

run-queue_example :
    ◌≡◌ {A = List ℕ} ((run new script).0) ((run new script).1 ++ (run new script).2.queue)
run-queue_example = run-queue new script

run-IsValid_example : IsValid (run new script).2
run-IsValid_example = run-IsValid new script (omega arith) new-IsValid
