-- ===== src/Util/IoBuffer/Queue.antt =====
-- The buffer is a first-in first-out queue of bytes.
use mbuscrate.Prelude.{
  ℕ, zero, suc, ◌+◌, ◌%◌, ◌^◌, ◌≤◌, ◌≡◌, refl, sym, ap, ◌∙◌, List, [], ◌∷◌, ◌++◌, length, take,
  drop, min, Result, ok, err, arith, append_assoc, append-nil, take-append-drop, length-take, ltb,
  Bool-cases, inl, inr,
}
use mbuscrate.Util.IoBuffer.{
  IoBuffer, IoBufferError, write, write_after, write_byte, write_byte_after, consume, consume_exact,
  peek, pop_loop, try_reserve, append,
}

pop_loop_splits : (n : ℕ) (q : List ℕ) → n ≤ length q → pop_loop n q ≡ (take n q, drop n q)
unfolding pop_loop
pop_loop_splits zero q h = refl
pop_loop_splits (suc n) [] h = absurd (omega arith)
pop_loop_splits (suc n) (x ∷ q) h = rw (pop_loop_splits n q (omega arith))

-- `consume` takes the first `count` bytes, or all if there are fewer, keeps the rest in order and
-- counts what it took.
pub consume_lem :
    (b : IoBuffer) (count : ℕ)
    → consume b count ≡ (
      take (min count (length b.queue)) b.queue,
      record b {
        queue = drop (min count (length b.queue)) b.queue;
        bytes_consumed = (b.bytes_consumed + min count (length b.queue)) % 2 ^ 64;
      },
    )
unfolding consume
consume_lem b count = rw (pop_loop_splits (min count (length b.queue)) b.queue (omega arith), size)
  where
    size : length (take (min count (length b.queue)) b.queue) ≡ min count (length b.queue)
    size = omega (arith, length-take (min count (length b.queue)) b.queue)

-- `peek` shows what `consume` would return.
pub peek-consume : (b : IoBuffer) (count : ℕ) → peek b count ≡ (consume b count).0
unfolding peek
peek-consume b count = rw (consume_lem b count) (ap (λ (n : ℕ). take n b.queue) (omega arith))

-- The calls through which bytes enter and leave.
pub data Op : Type 0 where
  write_op : List ℕ → Op
  write_byte_op : ℕ → Op
  consume_op : ℕ → Op
  consume_exact_op : ℕ → Op

-- What entered, what left, and the buffer after the call.
abbrev pub Effect : Type 0
Effect = List ℕ × List ℕ × IoBuffer

unfoldable pub accepted : List ℕ → Result IoBufferError ℕ × IoBuffer → Effect
accepted bytes (ok n, b) = (bytes, [], b)
accepted bytes (err e, b) = ([], [], b)

unfoldable pub accepted_byte : ℕ → Result IoBufferError (Unit {0}) × IoBuffer → Effect
accepted_byte byte (ok u, b) = (byte ∷ [], [], b)
accepted_byte byte (err e, b) = ([], [], b)

unfoldable pub released : Result IoBufferError (List ℕ) × IoBuffer → Effect
released (ok bytes, b) = ([], bytes, b)
released (err e, b) = ([], [], b)

unfoldable pub step : IoBuffer → Op → Effect
unfolding accepted accepted_byte released
step b (write_op bytes) = accepted bytes (write b bytes)
step b (write_byte_op byte) = accepted_byte byte (write_byte b byte)
step b (consume_op count) = let (out, b') = consume b count in ([], out, b')
step b (consume_exact_op count) = released (consume_exact b count)

-- A sequence of calls: all that entered, all that left, and the last buffer.
unfoldable pub run : IoBuffer → List Op → Effect
run b [] = ([], [], b)
run b (op ∷ ops) =
    let (i, o, b') = step b op in let (is, os, b'') = run b' ops in (i ++ is, o ++ os, b'')

take-drop-min :
    (count : ℕ) (q : List ℕ) → take (min count (length q)) q ++ drop (min count (length q)) q ≡ q
take-drop-min count q = take-append-drop (min count (length q)) q

write_after-queue :
    (r : Result IoBufferError (Unit {0})) (b : IoBuffer) (bytes : List ℕ)
    → let (i, o, b') = accepted bytes (write_after r b bytes) in b.queue ++ i ≡ o ++ b'.queue
unfolding accepted write_after append
write_after-queue (ok u) b bytes = refl
write_after-queue (err e) b bytes = append-nil b.queue

write_byte_after-queue :
    (r : Result IoBufferError (Unit {0})) (b : IoBuffer) (byte : ℕ)
    → let (i, o, b') = accepted_byte byte (write_byte_after r b byte) in
      b.queue ++ i ≡ o ++ b'.queue
unfolding accepted_byte write_byte_after append
write_byte_after-queue (ok u) b byte = refl
write_byte_after-queue (err e) b byte = append-nil b.queue

consume-queue :
    (b : IoBuffer) (count : ℕ) → b.queue ++ [] ≡ (consume b count).0 ++ (consume b count).1.queue
consume-queue b count =
    rw (consume_lem b count) (append-nil b.queue ∙ sym (take-drop-min count b.queue))

consume_exact-queue :
    (b : IoBuffer) (count : ℕ)
    → let (i, o, b') = released (consume_exact b count) in b.queue ++ i ≡ o ++ b'.queue
unfolding consume_exact released
consume_exact-queue b count = elim (Bool-cases (ltb (length b.queue) count)) [
  | inl short ↦ rw short (append-nil b.queue)
  | inr enough ↦ rw enough (consume-queue b count)
]

step-queue : (b : IoBuffer) (op : Op) → let (i, o, b') = step b op in b.queue ++ i ≡ o ++ b'.queue
unfolding step write write_byte
step-queue b (write_op bytes) = write_after-queue (try_reserve b (length bytes)) b bytes
step-queue b (write_byte_op byte) = write_byte_after-queue (try_reserve b 1) b byte
step-queue b (consume_op count) = consume-queue b count
step-queue b (consume_exact_op count) = consume_exact-queue b count

-- Over any sequence of writes and reads, what the buffer held followed by all that was accepted is
-- all that was returned followed by what it holds: no byte is lost, repeated or reordered.
pub run-queue :
    (b : IoBuffer) (ops : List Op) → let (i, o, b') = run b ops in b.queue ++ i ≡ o ++ b'.queue
unfolding run
run-queue b [] = append-nil b.queue
run-queue b (op ∷ ops) =
    let (i, o, b') = step b op in
    let (is, os, b'') = run b' ops in
    sym (append_assoc b.queue i is)
    ∙ ap (λ (l : List ℕ). l ++ is) (step-queue b op)
    ∙ append_assoc o b'.queue is
    ∙ ap (λ (l : List ℕ). o ++ l) (run-queue b' ops)
    ∙ sym (append_assoc o os b''.queue)
