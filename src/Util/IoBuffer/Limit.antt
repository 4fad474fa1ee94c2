-- ===== src/Util/IoBuffer/Limit.antt =====
-- The capacity limit, and the counters.
use mbuscrate.Prelude.{
  subst, le_or_lt, All, false, true, leb, take-append-drop, ℕ, ◌+◌, ◌-◌, ◌%◌, ◌^◌, ◌≤◌, ◌<◌, ◌≡◌,
  refl, sym, List, [], ◌∷◌, ◌++◌, Option, none, some, ◌⊎◌, length, drop, min, ok, err, arith,
  length-append, length-take, length-drop, ltb, Bool-cases, inl, inr,
}
use mbuscrate.Util.IoBuffer.{
  IoBuffer, capacity_exceeded, write, write_after, write_byte, write_byte_after, consume,
  consume_exact, try_reserve, append, check_limit, split_at, new, default_capacity_limit,
  expect_written,
}
use mbuscrate.Util.IoBuffer.Queue.{
  consume_lem, Op, step, run, write_op, write_byte_op, consume_op, consume_exact_op, accepted,
  accepted_byte, released,
}

-- A limit, and one that leaves a slice room in the address space.
abbrev pub WithinLimit : Option ℕ → ℕ → Type 0
WithinLimit none n = ⊥
WithinLimit (some limit) n = (n ≤ limit) × (limit < 2 ^ 62)

-- The buffer has a limit that its length keeps, and its counters differ by its length, modulo
-- 2 ^ 64.
pub record IsValid (b : IoBuffer) : Type 0 where
  pub within : WithinLimit b.capacity_limit (length b.queue)
  pub counted : b.bytes_written % 2 ^ 64 ≡ (b.bytes_consumed + length b.queue) % 2 ^ 64

-- The slices that calls hand over are in memory.
abbrev pub Fits : Op → Type 0
Fits (write_op bytes) = length bytes < 2 ^ 62
Fits op = Unit

-- The reservation passes exactly if the limit leaves room, and fails with the limit.
pub check_limit_cases :
    (limit : Option ℕ) (n k : ℕ)
    → WithinLimit limit n
    → k < 2 ^ 62
    → ((check_limit limit ((n + k) % 2 ^ 64) ≡ ok tt) × WithinLimit limit (n + k))
      ⊎ ((l : ℕ) × (limit ≡ some l)
          × (l < n + k)
          × (check_limit limit ((n + k) % 2 ^ 64) ≡ err (capacity_exceeded l)))
unfolding check_limit
check_limit_cases none n k w h = elim w [ ]
check_limit_cases (some l) n k w h = elim (le_or_lt (n + k) l) [
  | inl p ↦ inl (ground arith, (p, w.1))
  | inr p ↦ inr (l, refl, p, ground arith)
]

append-IsValid :
    (b : IoBuffer) (bytes : List ℕ)
    → IsValid b
    → WithinLimit b.capacity_limit (length b.queue + length bytes)
    → IsValid (append b bytes)
unfolding append
append-IsValid b bytes v w = record {
  within = subst (WithinLimit b.capacity_limit) (sym size) w;
  counted = omega (arith, size, v.counted);
}
  where
    size : length (b.queue ++ bytes) ≡ length b.queue + length bytes
    size = length-append b.queue bytes

consume-IsValid : (b : IoBuffer) (count : ℕ) → IsValid b → IsValid (consume b count).1
consume-IsValid b count v = rw (consume_lem b count) (record {
  within = smaller b.capacity_limit v.within;
  counted = omega (arith, size, v.counted);
})
  where
    size :
        length (drop (min count (length b.queue)) b.queue)
        ≡ length b.queue - min count (length b.queue)
    size = length-drop (min count (length b.queue)) b.queue

    smaller :
        (limit : Option ℕ)
        → WithinLimit limit (length b.queue)
        → WithinLimit limit (length (drop (min count (length b.queue)) b.queue))
    smaller none w = w
    smaller (some limit) w = omega (arith, size)

consume_exact-IsValid :
    (b : IoBuffer) (count : ℕ) → IsValid b → IsValid (released (consume_exact b count)).2
unfolding consume_exact released
consume_exact-IsValid b count v = elim (Bool-cases (ltb (length b.queue) count)) [
  | inl short ↦ rw short v
  | inr enough ↦ rw enough (consume-IsValid b count v)
]

write-IsValid :
    (b : IoBuffer) (bytes : List ℕ)
    → length bytes < 2 ^ 62
    → IsValid b
    → IsValid (accepted bytes (write b bytes)).2
unfolding write accepted try_reserve write_after
write-IsValid b bytes h v =
    elim (check_limit_cases b.capacity_limit (length b.queue) (length bytes) v.within h) [
      | inl (e, w) ↦ rw e (append-IsValid b bytes v w)
      | inr (l, s, p, e) ↦ rw e v
    ]

write_byte-IsValid :
    (b : IoBuffer) (byte : ℕ) → IsValid b → IsValid (accepted_byte byte (write_byte b byte)).2
unfolding write_byte accepted_byte try_reserve write_byte_after
write_byte-IsValid b byte v =
    elim (check_limit_cases b.capacity_limit (length b.queue) 1 v.within (omega arith)) [
      | inl (e, w) ↦ rw e (append-IsValid b (byte ∷ []) v w)
      | inr (l, s, p, e) ↦ rw e v
    ]

pub step-IsValid : (b : IoBuffer) (op : Op) → Fits op → IsValid b → IsValid (step b op).2
unfolding step
step-IsValid b (write_op bytes) h v = write-IsValid b bytes h v
step-IsValid b (write_byte_op byte) h v = write_byte-IsValid b byte v
step-IsValid b (consume_op count) h v = consume-IsValid b count v
step-IsValid b (consume_exact_op count) h v = consume_exact-IsValid b count v

-- On a valid buffer no sequence of reads, and of writes of slices that fit in memory, takes the
-- buffer past its capacity limit, and its counters of bytes written and consumed always differ by
-- its length (as 64-bit counters).
pub run-IsValid : (b : IoBuffer) (ops : List Op) → All Fits ops → IsValid b → IsValid (run b ops).2
unfolding run
run-IsValid b [] h v = v
run-IsValid b (op ∷ ops) h v = run-IsValid (step b op).2 ops h.1 (step-IsValid b op h.0 v)

pub new-IsValid : IsValid new
new-IsValid = omega arith

-- On a buffer that keeps a limit below 2 ^ 62, a write of fewer than 2 ^ 62 bytes is all or
-- nothing: it appends every byte and reports their number if the limit leaves room for them, and
-- else reports the limit and changes nothing.
pub write_lem :
    (b : IoBuffer) (bytes : List ℕ) (limit : ℕ)
    → b.capacity_limit ≡ some limit
    → limit < 2 ^ 62
    → length b.queue ≤ limit
    → length bytes < 2 ^ 62
    → ((length b.queue + length bytes ≤ limit)
        × ((write b bytes).0 ≡ ok (length bytes))
        × ((write b bytes).1.queue ≡ b.queue ++ bytes))
      ⊎ ((limit < length b.queue + length bytes)
          × ((write b bytes).0 ≡ err (capacity_exceeded limit))
          × ((write b bytes).1 ≡ b))
unfolding write try_reserve write_after append check_limit
write_lem b bytes limit e small inside h = elim (le_or_lt (length b.queue + length bytes) limit) [
  | inl p ↦
      let pass : ltb limit ((length b.queue + length bytes) % 2 ^ 64) ≡ false = ground arith in
      inl (p, rw (e, pass), rw (e, pass))
  | inr p ↦
      let stop : ltb limit ((length b.queue + length bytes) % 2 ^ 64) ≡ true = ground arith in
      inr (p, rw (e, stop), rw (e, stop))
]

-- At a position inside a buffer of fewer than 2 ^ 62 bytes, `split_at` panics exactly on a tail
-- longer than the default limit; in all other cases the head is kept, at the length of the
-- position, and the tail is handed over.
pub split_at_lem :
    (b : IoBuffer) (pos : ℕ)
    → pos < length b.queue
    → length b.queue < 2 ^ 62
    → ((length b.queue - pos ≤ default_capacity_limit)
        × (t : IoBuffer) × ((split_at b pos).0 ≡ some t)
        × ((split_at b pos).1.queue ++ t.queue ≡ b.queue)
        × (length (split_at b pos).1.queue ≡ pos))
      ⊎ ((default_capacity_limit < length b.queue - pos) × ((split_at b pos).0 ≡ none))
unfolding split_at expect_written write write_after try_reserve append check_limit
split_at_lem b pos h small = elim (le_or_lt (length b.queue - pos) default_capacity_limit) [
  | inl p ↦
      let pass : ltb default_capacity_limit ((0 + length (drop pos b.queue)) % 2 ^ 64) ≡ false =
        ground (arith, size) in
      inl (
        p,
        append new (drop pos b.queue),
        rw (inside, pass),
        rw inside (take-append-drop pos b.queue),
        rw inside (omega (arith, length-take pos b.queue)),
      )
  | inr p ↦
      let stop : ltb default_capacity_limit ((0 + length (drop pos b.queue)) % 2 ^ 64) ≡ true =
        ground (arith, size) in
      inr (p, rw (inside, stop))
]
  where
    inside : leb (length b.queue) pos ≡ false
    inside = ground arith

    size : length (drop pos b.queue) ≡ length b.queue - pos
    size = length-drop pos b.queue

-- Where the limit leaves room, a write is an append.
pub write-append :
    (b : IoBuffer) (bytes : List ℕ) (limit : ℕ)
    → b.capacity_limit ≡ some limit
    → limit < 2 ^ 62
    → length b.queue + length bytes ≤ limit
    → write b bytes ≡ (ok (length bytes), append b bytes)
unfolding write try_reserve write_after check_limit
write-append b bytes limit e small room =
    let pass : ltb limit ((length b.queue + length bytes) % 2 ^ 64) ≡ false = ground arith in
    rw (e, pass) refl
