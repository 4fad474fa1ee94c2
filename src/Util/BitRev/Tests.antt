-- ===== src/Util/BitRev/Tests.antt =====
-- The values of bitrev.rs's unit tests, and its theorems at concrete inputs.
use mbuscrate.Prelude.{◌≡◌, refl}
use mbuscrate.Util.BitRev.{rev8, rev32, normalize_sync}

sync_a : rev8 0xB3 ≡ 0xCD
unfolding rev8
sync_a = refl

sync_b : normalize_sync 0xBC ≡ 0x3D
unfolding normalize_sync
sync_b = refl

word : rev32 0x12345678 ≡ 0x1E6A2C48
unfolding rev32 rev8
word = refl
