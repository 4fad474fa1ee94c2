-- ===== src/Util/IoBuffer.antt =====
-- src/util/iobuffer.rs: the byte queue that the serial and radio code append to and consume from.
-- `VecDeque<u8>` is a list, front first; `usize` and `u64` have 64 bits. The counters and the
-- sums of lengths wrap as release builds do.
pub mod Queue
pub mod Limit
pub mod Search
mod Tests
use mbuscrate.Prelude.{
  ℕ, zero, suc, ◌+◌, ◌-◌, ◌*◌, ◌%◌, ◌^◌, List, [], ◌∷◌, ◌++◌, Bool, true, false, not, Option, none,
  some, ltb, leb, ◌==◌, if◌then◌else◌, length, take, drop, min, Result, ok, err, ◌||◌,
}

-- `IoBufferError`, the variants that the operations return.
pub data IoBufferError : Type 0 where
  insufficient_capacity : ℕ → ℕ → IoBufferError
  buffer_empty invalid_operation : IoBufferError
  capacity_exceeded : ℕ → IoBufferError

-- `IoBuffer`; `queue` is its field `data`. What `VecDeque::capacity` reports is kept out.
pub record IoBuffer : Type 0 where
  pub queue : List ℕ
  pub capacity_limit : Option ℕ
  pub bytes_written : ℕ
  pub bytes_consumed : ℕ

abbrev pub default_capacity_limit : ℕ
default_capacity_limit = 10 * 1024 * 1024

abbrev pub usize_max : ℕ
usize_max = 2 ^ 64 - 1

abbrev pub new : IoBuffer
new = record {
  queue = [];
  capacity_limit = some default_capacity_limit;
  bytes_written = 0;
  bytes_consumed = 0;
}

-- The initial capacity is only a hint to the allocator.
abbrev pub with_capacity : ℕ → IoBuffer
with_capacity capacity = new

abbrev pub unlimited : IoBuffer
unlimited = record new { capacity_limit = none }

unfoldable pub set_capacity_limit : IoBuffer → Option ℕ → IoBuffer
set_capacity_limit b limit = record b { capacity_limit = limit }

-- The test that `ensure_capacity` and `try_reserve` share.
pub check_limit : Option ℕ → ℕ → Result IoBufferError (Unit {0})
check_limit none needed = ok tt
check_limit (some limit) needed = if ltb limit needed then err (capacity_exceeded limit) else ok tt

-- The reservation that follows changes no field of the model.
pub ensure_capacity : IoBuffer → ℕ → Result IoBufferError (Unit {0})
unfolding check_limit
ensure_capacity b min_capacity = check_limit b.capacity_limit min_capacity

pub try_reserve : IoBuffer → ℕ → Result IoBufferError (Unit {0})
unfolding check_limit
try_reserve b additional = check_limit b.capacity_limit ((length b.queue + additional) % 2 ^ 64)

-- `data.extend(..)` and the counter, once the reservation has passed.
unfoldable pub append : IoBuffer → List ℕ → IoBuffer
append b bytes = record b {
  queue = b.queue ++ bytes;
  bytes_written = (b.bytes_written + length bytes) % 2 ^ 64;
}

-- `?` on the reservation.
write_after :
    Result IoBufferError (Unit {0}) → IoBuffer → List ℕ → Result IoBufferError ℕ × IoBuffer
write_after (ok u) b bytes = (ok (length bytes), append b bytes)
write_after (err e) b bytes = (err e, b)

pub write : IoBuffer → List ℕ → Result IoBufferError ℕ × IoBuffer
unfolding write_after append try_reserve
write b bytes = write_after (try_reserve b (length bytes)) b bytes

write_byte_after :
    Result IoBufferError (Unit {0}) → IoBuffer → ℕ → Result IoBufferError (Unit {0}) × IoBuffer
write_byte_after (ok u) b byte = (ok tt, append b (byte ∷ []))
write_byte_after (err e) b byte = (err e, b)

pub write_byte : IoBuffer → ℕ → Result IoBufferError (Unit {0}) × IoBuffer
unfolding write_byte_after append try_reserve
write_byte b byte = write_byte_after (try_reserve b 1) b byte

-- The loop `for _ in 0..to_consume` with `pop_front`: what was popped, and what is left.
pop_loop : ℕ → List ℕ → List ℕ × List ℕ
pop_loop zero queue = ([], queue)
pop_loop (suc n) [] = pop_loop n []
pop_loop (suc n) (x ∷ queue) = let (popped, left) = pop_loop n queue in (x ∷ popped, left)

pub consume : IoBuffer → ℕ → List ℕ × IoBuffer
unfolding pop_loop
consume b count =
    let (result, left) = pop_loop (min count (length b.queue)) b.queue in
    (
      result,
      record b { queue = left; bytes_consumed = (b.bytes_consumed + length result) % 2 ^ 64 },
    )

unfoldable pub consume_exact : IoBuffer → ℕ → Result IoBufferError (List ℕ) × IoBuffer
consume_exact b count =
    if ltb (length b.queue) count
    then (err (insufficient_capacity count (length b.queue)), b)
    else (let (result, b') = consume b count in (ok result, b'))

unfoldable pub peek : IoBuffer → ℕ → List ℕ
peek b count = take (min (length b.queue) count) b.queue

pub peek_range : IoBuffer → ℕ → ℕ → List ℕ
peek_range b start count =
    if leb (length b.queue) start
    then []
    else (let stop = min ((start + count) % 2 ^ 64) (length b.queue) in
        take (stop - start) (drop start b.queue))

unfoldable pub len : IoBuffer → ℕ
len b = length b.queue

pub is_empty : IoBuffer → Bool
is_empty b = length b.queue == 0

available : Option ℕ → ℕ → ℕ
available none used = usize_max
available (some limit) used = limit - used

pub available_capacity : IoBuffer → ℕ
unfolding available
available_capacity b = available b.capacity_limit (length b.queue)

-- The counters stay.
unfoldable pub clear : IoBuffer → IoBuffer
clear b = record b { queue = [] }

-- `append_from`: all of `other` is consumed before the write is tried.
pub append_from : IoBuffer → IoBuffer → Result IoBufferError ℕ × IoBuffer × IoBuffer
append_from b other =
    let (bytes, other') = consume other (length other.queue) in
    let (r, b') = write b bytes in (r, b', other')

-- `split_at`: the tail goes to a new buffer by `write`; the result of that write is `expect`ed, and
-- `none` is its panic.
expect_written : Result IoBufferError ℕ × IoBuffer → Option IoBuffer
expect_written (ok n, b) = some b
expect_written (err e, b) = none

pub split_at : IoBuffer → ℕ → Option IoBuffer × IoBuffer
unfolding expect_written
split_at b pos = if leb (length b.queue) pos then (some new, b) else (
  expect_written (write (with_capacity (length b.queue - pos)) (drop pos b.queue)),
  record b { queue = take pos b.queue },
)

-- Equality of two slices.
unfoldable pub bytes_eq : List ℕ → List ℕ → Bool
bytes_eq [] [] = true
bytes_eq [] (y ∷ ys) = false
bytes_eq (x ∷ xs) [] = false
bytes_eq (x ∷ xs) (y ∷ ys) = if x == y then bytes_eq xs ys else false

-- The loop `for i in 0..=last`: `n` positions are still to be tried, from `i` on.
find_from : IoBuffer → List ℕ → ℕ → ℕ → Option ℕ
find_from b pattern zero i = none
find_from b pattern (suc n) i =
    let rest = find_from b pattern n (i + 1) in
    if bytes_eq (peek_range b i (length pattern)) pattern then some i else rest

pub find_pattern : IoBuffer → List ℕ → Option ℕ
unfolding find_from
find_pattern b pattern =
    if length pattern == 0 || ltb (length b.queue) (length pattern)
    then none
    else find_from b pattern (length b.queue - length pattern + 1) 0

pub starts_with : IoBuffer → List ℕ → Bool
starts_with b pattern =
    if ltb (length b.queue) (length pattern)
    then false
    else bytes_eq (peek b (length pattern)) pattern
