-- ===== src/Wmbus/CompactCache/Runs.antt =====
-- Sequences of operations on a cache.
use mbuscrate.Prelude.{ℕ, refl, List, [], ◌∷◌, arith}
use mbuscrate.Wmbus.CompactCache.{
  CachedDeviceInfo, CacheInner, new, insert, get, remove, clear, remove_stale, stale_signatures,
}
use mbuscrate.Wmbus.CompactCache.Inv.{
  IsValid, insert-IsValid, get-IsValid, remove-IsValid, remove_stale_loop-IsValid,
}

pub data Op : Type 0 where
  insert_op : ℕ → CachedDeviceInfo → Op
  get_op remove_stale_op : ℕ → ℕ → Op
  remove_op : ℕ → Op
  clear_op : Op

unfoldable pub step : Op → CacheInner → CacheInner
step (insert_op s info) c = insert s info c
step (get_op now s) c = (get now s c).1
step (remove_stale_op now max_age) c = (remove_stale now max_age c).1
step (remove_op s) c = (remove s c).1
step clear_op c = clear c

step-IsValid : (op : Op) (c : CacheInner) → IsValid c → IsValid (step op c)
unfolding step remove_stale clear
step-IsValid (insert_op s info) c h = insert-IsValid s info c h
step-IsValid (get_op now s) c h = get-IsValid now s c h
step-IsValid (remove_stale_op now max_age) c h =
    remove_stale_loop-IsValid (stale_signatures now max_age c.devices) 0 c h
step-IsValid (remove_op s) c h = remove-IsValid s c h
step-IsValid clear_op c (agree, fits, counts) = ((tt, tt, λ t. refl), omega arith, counts)

unfoldable pub run : List Op → CacheInner → CacheInner
run [] c = c
run (op ∷ ops) c = run ops (step op c)

new-IsValid : (max_size : ℕ) → IsValid (new max_size)
unfolding new
new-IsValid max_size = ((tt, tt, λ t. refl), omega arith, refl)

run-IsValid_of : (ops : List Op) (c : CacheInner) → IsValid c → IsValid (run ops c)
unfolding run
run-IsValid_of [] c h = h
run-IsValid_of (op ∷ ops) c h = run-IsValid_of ops (step op c) (step-IsValid op c h)

-- After any sequence of operations on a new cache the queue and the map hold the same signatures,
-- each once, there are at most `max_size` devices (one, where `max_size` is zero), and the count
-- of lookups is the hits and the misses together, modulo 2 ^ 64.
pub run-new-IsValid : (max_size : ℕ) (ops : List Op) → IsValid (run ops (new max_size))
run-new-IsValid max_size ops = run-IsValid_of ops (new max_size) (new-IsValid max_size)
