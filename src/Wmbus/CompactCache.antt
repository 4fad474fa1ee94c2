-- ===== src/Wmbus/CompactCache.antt =====
-- src/wmbus/compact_cache.rs: the cache of devices that compact frames refer to.
-- A `HashMap` is an association list, whose order stands for the order of iteration. The mutex
-- makes each method one step, and the clock is the argument `now`, in nanoseconds. The
-- statistics are `u64` and wrap. What serde writes and reads is `CacheData`.
pub mod Keys
pub mod Inv
pub mod Runs
pub mod Lookup
mod Tests
use mbuscrate.Prelude.{
  ℕ, zero, suc, ◌+◌, ◌-◌, ◌*◌, ◌/◌, ◌%◌, ◌^◌, List, [], ◌∷◌, ◌++◌, map, Bool, true, false, not,
  ◌&&◌, ◌||◌, Option, none, some, ◌==◌, leb, ltb, if◌then◌else◌, length, bit_and, bit_or, bit_xor,
}
use mbuscrate.Mbus.Frame.{checksum_from}

pub record CachedDeviceInfo : Type 0 where
  pub manufacturer_id : ℕ
  pub device_address : ℕ
  pub version : ℕ
  pub device_type : ℕ
  pub last_seen : ℕ
  pub last_seen_unix : ℕ
  pub access_count : ℕ

pub record CacheStats : Type 0 where
  pub insertions : ℕ
  pub lookups : ℕ
  pub hits : ℕ
  pub misses : ℕ
  pub evictions : ℕ

abbrev pub Devices : Type 0
Devices = List (ℕ × CachedDeviceInfo)

-- `CacheInner`, the least recently used signature first.
pub record CacheInner : Type 0 where
  pub devices : Devices
  pub lru_queue : List ℕ
  pub max_size : ℕ
  pub stats : CacheStats

abbrev pub no_stats : CacheStats
no_stats = record { insertions = 0; lookups = 0; hits = 0; misses = 0; evictions = 0 }

-- `+= 1` on a `u64`.
abbrev pub count : ℕ → ℕ
count n = (n + 1) % 2 ^ 64

-- `iter().any(|&s| s == signature)`, and `position` followed by `remove`.
abbrev pub has : ℕ → List ℕ → Bool
has s [] = false
has s (t ∷ ts) = t == s || has s ts

abbrev pub remove_first : ℕ → List ℕ → List ℕ
remove_first s [] = []
remove_first s (t ∷ ts) = if t == s then ts else t ∷ remove_first s ts

-- `contains_key`, `get`, `remove` and `insert` of the map.
abbrev pub keys : Devices → List ℕ
keys [] = []
keys ((t, i) ∷ ds) = t ∷ keys ds

abbrev pub find : ℕ → Devices → Option CachedDeviceInfo
find s [] = none
find s ((t, i) ∷ ds) = if t == s then some i else find s ds

abbrev pub map_remove : ℕ → Devices → Devices
map_remove s [] = []
map_remove s ((t, i) ∷ ds) = if t == s then ds else (t, i) ∷ map_remove s ds

abbrev pub map_insert : ℕ → CachedDeviceInfo → Devices → Devices
map_insert s info [] = (s, info) ∷ []
map_insert s info ((t, i) ∷ ds) = if t == s then (s, info) ∷ ds else (t, i) ∷ map_insert s info ds

pub new : ℕ → CacheInner
new max_size = record { devices = []; lru_queue = []; max_size = max_size; stats = no_stats }

-- `lru_queue.pop_front()`, the removal of that device and the count of it.
abbrev pub evict : CacheInner → CacheInner
evict c = evict_front c.lru_queue
  where
    evict_front : List ℕ → CacheInner
    evict_front [] = c
    evict_front (lru ∷ rest) = record c {
      devices = map_remove lru c.devices;
      lru_queue = rest;
      stats = record c.stats { evictions = count c.stats.evictions };
    }

abbrev pub is_full_for : ℕ → CacheInner → Bool
is_full_for signature c = leb c.max_size (length c.devices) && not (has signature (keys c.devices))

-- The first two statements of `insert`, the eviction, and the insertion.
pub insert_started : ℕ → CacheInner → CacheInner
insert_started signature c = record c {
  lru_queue = remove_first signature c.lru_queue;
  stats = record c.stats { insertions = count c.stats.insertions };
}

pub insert_store : ℕ → CachedDeviceInfo → CacheInner → CacheInner
insert_store signature info c = record c {
  devices = map_insert signature info c.devices;
  lru_queue = c.lru_queue ++ (signature ∷ []);
}

pub insert : ℕ → CachedDeviceInfo → CacheInner → CacheInner
unfolding insert_started insert_store
insert signature info c =
    let c1 = insert_started signature c in
    insert_store signature info (if is_full_for signature c1 then evict c1 else c1)

pub get_found : ℕ → ℕ → CachedDeviceInfo → CacheInner → CacheInner
get_found now signature info c = record c {
  devices = map_insert signature info c.devices;
  lru_queue = remove_first signature c.lru_queue ++ (signature ∷ []);
  stats = record c.stats { lookups = count c.stats.lookups; hits = count c.stats.hits };
}

-- `access_count += 1; last_seen = Instant::now()`.
abbrev pub touched : ℕ → CachedDeviceInfo → CachedDeviceInfo
touched now info = record info { access_count = count info.access_count; last_seen = now }

pub get_as : ℕ → ℕ → Option CachedDeviceInfo → CacheInner → Option CachedDeviceInfo × CacheInner
unfolding get_found
get_as now signature none c = (
  none,
  record c {
    stats = record c.stats { lookups = count c.stats.lookups; misses = count c.stats.misses };
  },
)
get_as now signature (some info) c =
    (some (touched now info), get_found now signature (touched now info) c)

pub get : ℕ → ℕ → CacheInner → Option CachedDeviceInfo × CacheInner
unfolding get_as
get now signature c = get_as now signature (find signature c.devices) c

pub remove : ℕ → CacheInner → Bool × CacheInner
remove signature c = (
  has signature (keys c.devices),
  record c {
    devices = map_remove signature c.devices;
    lru_queue = remove_first signature c.lru_queue;
  },
)

pub clear : CacheInner → CacheInner
clear c = record c { devices = []; lru_queue = [] }

pub size : CacheInner → ℕ
size c = length c.devices

-- `duration_since` is zero where the clock went back.
abbrev pub is_stale : ℕ → ℕ → CachedDeviceInfo → Bool
is_stale now max_age info = ltb max_age (now - info.last_seen)

abbrev pub stale_signatures : ℕ → ℕ → Devices → List ℕ
stale_signatures now max_age [] = []
stale_signatures now max_age ((s, info) ∷ ds) =
    if is_stale now max_age info
    then s ∷ stale_signatures now max_age ds
    else stale_signatures now max_age ds

-- The loop over the stale signatures, with `removed` as it counts.
pub remove_stale_loop : List ℕ → ℕ → CacheInner → ℕ × CacheInner
remove_stale_loop [] removed c = (removed, c)
remove_stale_loop (s ∷ ss) removed c =
    remove_stale_loop ss (removed + 1)
      (record c { devices = map_remove s c.devices; lru_queue = remove_first s c.lru_queue })

pub remove_stale : ℕ → ℕ → CacheInner → ℕ × CacheInner
unfolding remove_stale_loop
remove_stale now max_age c = remove_stale_loop (stale_signatures now max_age c.devices) 0 c

pub build_full_frame_request : ℕ → ℕ → List ℕ
build_full_frame_request signature device_address =
    let body = 0x7B ∷ device_address ∷ 0x76 ∷ bit_and signature 0xFF ∷ signature / 2 ^ 8 ∷ [] in
    (0x10 ∷ body) ++ (checksum_from 0 body ∷ 0x16 ∷ [])

-- One byte of `generate_signature`: `wrapping_add`, `rotate_left(1)`, `^=`.
abbrev pub signature_step : ℕ → ℕ → ℕ
signature_step sig byte =
    let added = (sig + byte) % 2 ^ 16 in
    bit_xor (bit_or (added * 2 % 2 ^ 16) (added / 2 ^ 15)) 0xA5A5

pub generate_signature : ℕ → ℕ
generate_signature device_address =
    signature_step
      (signature_step
        (signature_step (signature_step 0 (device_address % 2 ^ 8))
          (device_address / 2 ^ 8 % 2 ^ 8))
        (device_address / 2 ^ 16 % 2 ^ 8))
      (device_address / 2 ^ 24 % 2 ^ 8)
