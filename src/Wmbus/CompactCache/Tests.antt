-- ===== src/Wmbus/CompactCache/Tests.antt =====
-- Runs of the cache, and its theorems at concrete inputs.
use mbuscrate.Prelude.{
  ◌++◌, drop, ℕ, ◌≡◌, refl, List, [], ◌∷◌, none, some, if◌then◌else◌, ◌==◌, length,
}
use mbuscrate.Wmbus.CompactCache.{
  is_full_for, remove_first, CachedDeviceInfo, CacheInner, new, find, insert, insert_started,
  insert_store, get, get_as, get_found,
}
use mbuscrate.Wmbus.CompactCache.Inv.{IsValid}
use mbuscrate.Wmbus.CompactCache.Runs.{Op, insert_op, get_op, run, step, run-new-IsValid}
use mbuscrate.Wmbus.CompactCache.Lookup.{is_victim, insert_lem}

abbrev device : ℕ → CachedDeviceInfo
device address = record {
  manufacturer_id = 0x2C2D;
  device_address = address;
  version = 1;
  device_type = 7;
  last_seen = address;
  last_seen_unix = 0;
  access_count = 0;
}

-- Three insertions and a lookup in a cache of two: the second device makes way for the third.
abbrev script : List Op
script =
    insert_op 1 (device 10) ∷ insert_op 2 (device 20) ∷ get_op 50 1 ∷ insert_op 3 (device 30) ∷ []

script_queue : (run script (new 2)).lru_queue ≡ 1 ∷ 3 ∷ []
unfolding run step new insert insert_started insert_store get get_as get_found
script_queue = refl

-- A cache of size zero holds one device all the same.
holds_one : length (run (insert_op 1 (device 10) ∷ []) (new 0)).devices ≡ 1
unfolding run step new insert insert_started insert_store
holds_one = refl

abbrev filled : CacheInner
filled = run script (new 2)

insert_lem_example :
    (find 1 (insert 4 (device 40) filled).devices ≡ (
      if 4 == 1
      then some (device 40)
      else if is_victim 4 1 filled
      then none
      else find 1 filled.devices))
    × ((insert 4 (device 40) filled).lru_queue
        ≡ (if is_full_for 4 filled
            then drop 1 filled.lru_queue
            else remove_first 4 filled.lru_queue)
          ++ (4 ∷ []))
insert_lem_example = insert_lem 4 (device 40) 1 filled (run-new-IsValid 2 script)

run-new-IsValid_example : IsValid (run script (new 2))
run-new-IsValid_example = run-new-IsValid 2 script
