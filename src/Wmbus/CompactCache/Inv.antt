-- ===== src/Wmbus/CompactCache/Inv.antt =====
-- The invariant of the cache, and that each operation keeps it.
use mbuscrate.Prelude.{
  ℕ, suc, ◌+◌, ◌-◌, ◌%◌, ◌^◌, ◌≤◌, ◌≡◌, refl, sym, ap, subst, ◌∙◌, List, [], ◌∷◌, ◌++◌, true, false,
  ◌==◌, ==_iff, Bool-cases, Option-cases, if◌then◌else◌, length, arith, inl, inr, some, max,
}
use mbuscrate.Wmbus.CompactCache.{
  Devices, CachedDeviceInfo, CacheInner, has, remove_first, keys, find, map_remove, map_insert,
  insert, insert_started, insert_store, evict, is_full_for, get, get_found, touched, remove,
  remove_stale_loop,
}
use mbuscrate.Wmbus.CompactCache.Keys.{
  Nodup, has-remove_first_ne, has-remove_first_self, has-remove_first-false, remove_first-Nodup,
  has-append_one, append_one-Nodup, keys-map_remove, has-keys-map_insert, keys-map_insert-Nodup,
  length-map_insert, length-map_remove,
}

-- The queue and the map hold the same signatures, each once.
abbrev pub Agree : List ℕ → Devices → Type 0
Agree q ds = Nodup q × Nodup (keys ds) × ((t : ℕ) → has t q ≡ has t (keys ds))

-- At most `max_size` devices (one, where that is zero), and every lookup was a hit or a miss.
abbrev pub IsValid : CacheInner → Type 0
IsValid c =
    Agree c.lru_queue c.devices
    × (length c.devices ≤ max 1 c.max_size)
    × (c.stats.lookups ≡ (c.stats.hits + c.stats.misses) % 2 ^ 64)

pub Agree-remove :
    (s : ℕ) (q : List ℕ) (ds : Devices) → Agree q ds → Agree (remove_first s q) (map_remove s ds)
Agree-remove s q ds (nq, nd, same) = (
  remove_first-Nodup s q nq,
  subst Nodup (sym (keys-map_remove s ds)) (remove_first-Nodup s (keys ds) nd),
  agree,
)
  where
    agree : (t : ℕ) → has t (remove_first s q) ≡ has t (keys (map_remove s ds))
    agree t = rw (keys-map_remove s ds) (elim (Bool-cases (s == t)) [
      | inl a ↦
          subst (λ (k : ℕ). has k (remove_first s q) ≡ has k (remove_first s (keys ds)))
            ((==_iff s t).0 a)
            (has-remove_first_self s q nq ∙ sym (has-remove_first_self s (keys ds) nd))
      | inr a ↦ has-remove_first_ne s t q a ∙ same t ∙ sym (has-remove_first_ne s t (keys ds) a)
    ])

-- A queue that agrees but for `s`, which is out of it, agrees once `s` is at its end.
Agree-store :
    (s : ℕ) (info : CachedDeviceInfo) (q : List ℕ) (ds : Devices)
    → Nodup q
    → has s q ≡ false
    → Nodup (keys ds)
    → ((t : ℕ) → (s == t) ≡ false → has t q ≡ has t (keys ds))
    → Agree (q ++ (s ∷ [])) (map_insert s info ds)
Agree-store s info q ds nq out nd same =
    (append_one-Nodup s q nq out, keys-map_insert-Nodup s info ds nd, agree)
  where
    agree : (t : ℕ) → has t (q ++ (s ∷ [])) ≡ has t (keys (map_insert s info ds))
    agree t =
        rw (has-append_one t s q, has-keys-map_insert t s info ds)
          (elim (Bool-cases (s == t)) [ inl a ↦ rw a refl | inr a ↦ rw (a, same t a) refl ])

-- Moving a signature to the back of the queue while its entry is written.
pub Agree-refresh :
    (s : ℕ) (info : CachedDeviceInfo) (q : List ℕ) (ds : Devices)
    → Agree q ds
    → Agree (remove_first s q ++ (s ∷ [])) (map_insert s info ds)
Agree-refresh s info q ds (nq, nd, same) =
    Agree-store s info (remove_first s q) ds (remove_first-Nodup s q nq)
      (has-remove_first_self s q nq) nd (λ t a. has-remove_first_ne s t q a ∙ same t)

-- A queue without the signature agrees as it is once the signature is removed from it.
Agree-absent :
    (s : ℕ) (q : List ℕ) (ds : Devices)
    → Agree q ds
    → has s (keys ds) ≡ false
    → Agree (remove_first s q) ds
Agree-absent s q ds (nq, nd, same) out = (remove_first-Nodup s q nq, nd, agree)
  where
    agree : (t : ℕ) → has t (remove_first s q) ≡ has t (keys ds)
    agree t = elim (Bool-cases (s == t)) [
      | inl a ↦
          subst (λ (k : ℕ). has k (remove_first s q) ≡ has k (keys ds)) ((==_iff s t).0 a)
            (has-remove_first_self s q nq ∙ sym out)
      | inr a ↦ has-remove_first_ne s t q a ∙ same t
    ]

no_keys : (ds : Devices) → ((t : ℕ) → has t [] ≡ has t (keys ds)) → length ds ≡ 0
no_keys [] h = refl
no_keys ((k, i) ∷ ds) h = absurd (cc (h k, here))
  where
    here : has k (keys ((k, i) ∷ ds)) ≡ true
    here = ground arith

-- The front of the queue is a device, and the queue without it is its removal.
front_removed :
    (f : ℕ) (rest : List ℕ) (ds : Devices)
    → Agree (f ∷ rest) ds
    → Agree rest (map_remove f ds) × (suc (length (map_remove f ds)) ≡ length ds)
front_removed f rest ds (nq, nd, same) = (
  subst (λ (q : List ℕ). Agree q (map_remove f ds)) gone
      (Agree-remove f (f ∷ rest) ds (nq, nd, same)),
  shorter,
)
  where
    gone : remove_first f (f ∷ rest) ≡ rest
    gone = ground arith

    here : has f (keys ds) ≡ true
    here = sym (same f) ∙ ground arith

    shorter : suc (length (map_remove f ds)) ≡ length ds
    shorter = ground (arith, length-map_remove f ds, here)

evict_fields :
    (q : List ℕ) (c : CacheInner)
    → Agree q c.devices
    → let c1 = evict (record c { lru_queue = q }) in
      Agree c1.lru_queue c1.devices
      × (length c1.devices ≡ length c.devices - 1)
      × ((t : ℕ) → has t (keys c.devices) ≡ false → has t (keys c1.devices) ≡ false)
evict_fields [] c (nq, nd, same) = ((nq, nd, same), omega (arith, no_keys c.devices same), λ t h. h)
evict_fields (f ∷ rest) c agree = (
  (front_removed f rest c.devices agree).0,
  omega (arith, (front_removed f rest c.devices agree).1),
  λ t h. ap (has t) (keys-map_remove f c.devices) ∙ has-remove_first-false f t (keys c.devices) h,
)

-- An eviction keeps the two sides together and drops one device, if there is any.
evict-Agree :
    (c : CacheInner)
    → Agree c.lru_queue c.devices
    → Agree (evict c).lru_queue (evict c).devices
      × (length (evict c).devices ≡ length c.devices - 1)
      × ((t : ℕ) → has t (keys c.devices) ≡ false → has t (keys (evict c).devices) ≡ false)
evict-Agree c agree = evict_fields c.lru_queue c agree

-- An eviction counts itself and nothing else.
evict_rest_of :
    (q : List ℕ) (c : CacheInner)
    → c.lru_queue ≡ q
    → let c1 = evict (record c { lru_queue = q }) in
      (c1.max_size ≡ c.max_size)
      × (c1.stats.lookups ≡ c.stats.lookups)
      × (c1.stats.hits ≡ c.stats.hits)
      × (c1.stats.misses ≡ c.stats.misses)
evict_rest_of [] c e = (refl, refl, refl, refl)
evict_rest_of (f ∷ rest) c e = (refl, refl, refl, refl)

evict_rest :
    (c : CacheInner)
    → ((evict c).max_size ≡ c.max_size)
      × ((evict c).stats.lookups ≡ c.stats.lookups)
      × ((evict c).stats.hits ≡ c.stats.hits)
      × ((evict c).stats.misses ≡ c.stats.misses)
evict_rest c = evict_rest_of c.lru_queue c refl

insert_store-IsValid :
    (s : ℕ) (info : CachedDeviceInfo) (c : CacheInner)
    → Nodup c.lru_queue
    → has s c.lru_queue ≡ false
    → Nodup (keys c.devices)
    → ((t : ℕ) → (s == t) ≡ false → has t c.lru_queue ≡ has t (keys c.devices))
    → ((if has s (keys c.devices) then length c.devices else suc (length c.devices))
        ≤ max 1 c.max_size)
    → c.stats.lookups ≡ (c.stats.hits + c.stats.misses) % 2 ^ 64
    → IsValid (insert_store s info c)
unfolding insert_store
insert_store-IsValid s info c nq out nd same fits counts = (
  Agree-store s info c.lru_queue c.devices nq out nd same,
  omega (arith, length-map_insert s info c.devices),
  counts,
)

pub insert-IsValid :
    (s : ℕ) (info : CachedDeviceInfo) (c : CacheInner) → IsValid c → IsValid (insert s info c)
unfolding insert insert_started
insert-IsValid s info c (agree, fits, counts) =
    elim (Bool-cases (is_full_for s (insert_started s c))) [
      | inl full ↦
          let out : has s (keys c.devices) ≡ false = ground arith in
          let absent = Agree-absent s c.lru_queue c.devices agree out in
          let (held, size, gone) = evict-Agree (insert_started s c) absent in
          let (m, l, h, n) = evict_rest (insert_started s c) in
          rw full (
            insert_store-IsValid s info (evict (insert_started s c)) held.0 (held.2 s ∙ gone s out)
              held.1 (λ t a. held.2 t) (rw (gone s out) (omega arith)) (omega arith))
      | inr room ↦ rw room (
          insert_store-IsValid s info (insert_started s c)
            (remove_first-Nodup s c.lru_queue agree.0) (has-remove_first_self s c.lru_queue agree.0)
            agree.1 (λ t a. has-remove_first_ne s t c.lru_queue a ∙ agree.2 t) (ground arith)
            counts)
    ]

find-has :
    (s : ℕ) (ds : Devices) (info : CachedDeviceInfo)
    → find s ds ≡ some info
    → has s (keys ds) ≡ true
find-has s [] info h = cc h
find-has s ((k, i) ∷ ds) info h = elim (Bool-cases (k == s)) [
  | inl a ↦ rw a refl
  | inr a ↦ rw a (find-has s ds info (rw a at h))
]

pub get-IsValid : (now s : ℕ) (c : CacheInner) → IsValid c → IsValid (get now s c).1
unfolding get get_found
get-IsValid now s c (agree, fits, counts) = elim (Option-cases (find s c.devices)) [
  | inl miss ↦ rw miss (agree, fits, omega arith)
  | inr (info, hit) ↦ rw hit (
    Agree-refresh s (touched now info) c.lru_queue c.devices agree,
    omega (arith, length_same s (touched now info) c.devices (find-has s c.devices info hit)),
    omega arith,
  )
]
  where
    length_same :
        (s : ℕ) (info : CachedDeviceInfo) (ds : Devices)
        → has s (keys ds) ≡ true
        → length (map_insert s info ds) ≡ length ds
    length_same s info ds h = ground (arith, length-map_insert s info ds)

remove_entry-IsValid :
    (s : ℕ) (c : CacheInner)
    → IsValid c
    → IsValid
        (record c { devices = map_remove s c.devices; lru_queue = remove_first s c.lru_queue })
remove_entry-IsValid s c (agree, fits, counts) = (
  Agree-remove s c.lru_queue c.devices agree,
  ground (arith, length-map_remove s c.devices),
  counts,
)

pub remove-IsValid : (s : ℕ) (c : CacheInner) → IsValid c → IsValid (remove s c).1
unfolding remove
remove-IsValid s c h = remove_entry-IsValid s c h

pub remove_stale_loop-IsValid :
    (ss : List ℕ) (n : ℕ) (c : CacheInner) → IsValid c → IsValid (remove_stale_loop ss n c).1
unfolding remove_stale_loop
remove_stale_loop-IsValid [] n c h = h
remove_stale_loop-IsValid (s ∷ ss) n c h =
    remove_stale_loop-IsValid ss (n + 1)
      (record c { devices = map_remove s c.devices; lru_queue = remove_first s c.lru_queue })
      (remove_entry-IsValid s c h)
