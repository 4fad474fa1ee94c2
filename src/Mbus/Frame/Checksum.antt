-- ===== src/Mbus/Frame/Checksum.antt =====
-- The arithmetic checksum, and the frames that pass `verify_frame`.
use mbuscrate.Prelude.{ℕ, ◌+◌, ◌%◌, ◌^◌, ◌<◌, ◌≡◌, List, [], ◌∷◌, arith, IsByte, ok, ◌↔◌}
use mbuscrate.Mbus.Frame.{
  MBusFrame, checksum_from, calculate_mbus_checksum, calculate_checksum, verify_frame,
}

-- The sum of the bytes, with no wrap.
unfoldable pub sum : List ℕ → ℕ
sum [] = 0
sum (b ∷ bs) = b + sum bs

checksum_from-eq :
    (acc : ℕ) (bs : List ℕ) → acc < 2 ^ 8 → checksum_from acc bs ≡ (acc + sum bs) % 2 ^ 8
unfolding checksum_from sum
checksum_from-eq acc [] h = omega arith
checksum_from-eq acc (b ∷ bs) h =
    omega (arith, checksum_from-eq ((acc + b) % 2 ^ 8) bs (omega arith))

-- The wrapping checksum of a byte string is its sum modulo 256.
pub calculate_mbus_checksum-eq-sum : (bs : List ℕ) → calculate_mbus_checksum bs ≡ sum bs % 2 ^ 8
unfolding calculate_mbus_checksum
calculate_mbus_checksum-eq-sum bs = omega (arith, checksum_from-eq 0 bs (omega arith))

pub calculate_mbus_checksum-IsByte : (bs : List ℕ) → IsByte (calculate_mbus_checksum bs)
calculate_mbus_checksum-IsByte bs = omega (arith, calculate_mbus_checksum-eq-sum bs)

-- `verify_frame` accepts exactly the frames whose checksum field is the computed checksum.
pub verify_frame_iff :
    (f : MBusFrame) → (verify_frame f ≡ ok tt) ↔ (f.checksum ≡ calculate_checksum f)
unfolding verify_frame
verify_frame_iff f = ground arith
