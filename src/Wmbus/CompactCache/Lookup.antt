-- ===== src/Wmbus/CompactCache/Lookup.antt =====
-- What a lookup finds after each operation.
use mbuscrate.Prelude.{
  drop, ◌++◌, leb, not, length, ℕ, suc, ◌+◌, ◌≡◌, refl, sym, ap, subst, ◌∙◌, List, [], ◌∷◌, Bool,
  true, false, ◌&&◌, ◌==◌, ==_iff, Bool-cases, Option-cases, if◌then◌else◌, arith, inl, inr, ◌⊎◌,
  Option, none, some,
}
use mbuscrate.Wmbus.CompactCache.{
  Devices, CachedDeviceInfo, CacheInner, has, remove_first, keys, find, map_remove, map_insert,
  insert, insert_started, insert_store, evict, is_full_for, get, get_found, touched, is_stale,
  remove_stale, remove_stale_loop, stale_signatures,
}
use mbuscrate.Wmbus.CompactCache.Keys.{
  Nodup, keys-map_remove, remove_first-Nodup, length-map_remove, has-remove_first_ne,
}
use mbuscrate.Wmbus.CompactCache.Inv.{IsValid}

find-none : (t : ℕ) (ds : Devices) → has t (keys ds) ≡ false → find t ds ≡ none
find-none t [] h = refl
find-none t ((k, i) ∷ ds) h = ground (arith, find-none t ds)

find-map_insert :
    (t s : ℕ) (info : CachedDeviceInfo) (ds : Devices)
    → find t (map_insert s info ds) ≡ (if s == t then some info else find t ds)
find-map_insert t s info [] = refl
find-map_insert t s info ((k, i) ∷ ds) = elim (Bool-cases (k == s)) [
  | inl a ↦ rw (a, (==_iff k s).0 a) (ground arith)
  | inr a ↦ rw (a, find-map_insert t s info ds) (ground arith)
]

find-map_remove :
    (t s : ℕ) (ds : Devices)
    → Nodup (keys ds)
    → find t (map_remove s ds) ≡ (if s == t then none else find t ds)
find-map_remove t s [] h = ground arith
find-map_remove t s ((k, i) ∷ ds) h = elim (Bool-cases (k == s)) [
  | inl a ↦
      rw (a, (==_iff k s).0 a)
        (elim (Bool-cases (s == t)) [
          | inl b ↦ rw b (
              subst (λ (u : ℕ). find u ds ≡ none) ((==_iff k s).0 a ∙ (==_iff s t).0 b)
                (find-none k ds h.0))
          | inr b ↦ rw b refl
        ])
  | inr a ↦ rw (a, find-map_remove t s ds h.1) (ground arith)
]

remove_first_absent : (s : ℕ) (ks : List ℕ) → has s ks ≡ false → remove_first s ks ≡ ks
remove_first_absent s [] h = refl
remove_first_absent s (k ∷ ks) h = ground (arith, remove_first_absent s ks)

unfoldable pub is_front : ℕ → List ℕ → Bool
is_front t [] = false
is_front t (k ∷ ks) = k == t

-- The device that makes way for `s`: the least recently used one, where the cache is full and `s`
-- is not in it.
unfoldable pub is_victim : ℕ → ℕ → CacheInner → Bool
is_victim s t c =
    (leb c.max_size (length c.devices) && not (has s (keys c.devices))) && is_front t c.lru_queue

find-evict :
    (t : ℕ) (q : List ℕ) (c : CacheInner)
    → Nodup (keys c.devices)
    → find t (evict (record c { lru_queue = q })).devices
      ≡ (if is_front t q then none else find t c.devices)
unfolding is_front
find-evict t [] c h = refl
find-evict t (f ∷ rest) c h = find-map_remove t f c.devices h

insert_finds :
    (s : ℕ) (info : CachedDeviceInfo) (t : ℕ) (c : CacheInner)
    → IsValid c
    → find t (insert s info c).devices
      ≡ (if s == t then some info else if is_victim s t c then none else find t c.devices)
unfolding insert insert_started insert_store is_victim
insert_finds s info t c (agree, fits, counts) = elim (Bool-cases (is_full_for s c)) [
  | inl full ↦
      let out : has s (keys c.devices) ≡ false = ground arith in
      let evicted : find t (evict (insert_started s c)).devices
          ≡ (if is_front t (remove_first s c.lru_queue) then none else find t c.devices) =
        find-evict t (remove_first s c.lru_queue) (insert_started s c) agree.1 in
      rw
        (
          full,
          find-map_insert t s info (evict (insert_started s c)).devices,
          evicted,
          remove_first_absent s c.lru_queue (agree.2 s ∙ out),
        )
        refl
  | inr room ↦ rw (room, find-map_insert t s info c.devices) refl
]

insert_queue :
    (s : ℕ) (info : CachedDeviceInfo) (c : CacheInner)
    → IsValid c
    → (insert s info c).lru_queue
      ≡ (if is_full_for s c then drop 1 c.lru_queue else remove_first s c.lru_queue) ++ (s ∷ [])
unfolding insert insert_started insert_store
insert_queue s info c (agree, fits, counts) = elim (Bool-cases (is_full_for s c)) [
  | inl full ↦
      let out : has s (keys c.devices) ≡ false = ground arith in
      rw (full, remove_first_absent s c.lru_queue (agree.2 s ∙ out)) (front_dropped c.lru_queue)
  | inr room ↦ rw room refl
]
  where
    front_dropped :
        (q : List ℕ)
        → (evict (record (insert_started s c) { lru_queue = q })).lru_queue ++ (s ∷ [])
          ≡ drop 1 q ++ (s ∷ [])
    front_dropped [] = refl
    front_dropped (f ∷ q) = refl

-- After an insertion into a valid cache the inserted signature finds the inserted device, the one
-- evicted from the front of the queue finds nothing, and every other signature finds what it found
-- before; the queue holds the other signatures that are left, in their order, and then the inserted one.
pub insert_lem :
    (s : ℕ) (info : CachedDeviceInfo) (t : ℕ) (c : CacheInner)
    → IsValid c
    → (find t (insert s info c).devices
        ≡ (if s == t then some info else if is_victim s t c then none else find t c.devices))
      × ((insert s info c).lru_queue
          ≡ (if is_full_for s c then drop 1 c.lru_queue else remove_first s c.lru_queue)
            ++ (s ∷ []))
insert_lem s info t c valid = (insert_finds s info t c valid, insert_queue s info c valid)

-- A lookup on any cache returns the device stored under the signature with one access more and
-- the time of the lookup, stores that, and leaves every other signature as it was; on a missing
-- signature it returns nothing and changes no device.
pub get_lem :
    (now s t : ℕ) (c : CacheInner)
    → ((find s c.devices ≡ none) × ((get now s c).0 ≡ none) × ((get now s c).1.devices ≡ c.devices))
      ⊎ ((info : CachedDeviceInfo) × (find s c.devices ≡ some info)
          × ((get now s c).0 ≡ some (touched now info))
          × (find t (get now s c).1.devices
              ≡ (if s == t then some (touched now info) else find t c.devices)))
unfolding get get_found
get_lem now s t c = elim (Option-cases (find s c.devices)) [
  | inl miss ↦ rw miss (inl (refl, refl, refl))
  | inr (info, hit) ↦
      rw hit (inr (info, refl, refl, find-map_insert t s (touched now info) c.devices))
]

-- What is left of a device once the stale ones are gone.
unfoldable pub keep_fresh : ℕ → ℕ → Option CachedDeviceInfo → Option CachedDeviceInfo
keep_fresh now max_age none = none
keep_fresh now max_age (some info) = if is_stale now max_age info then none else some info

has-stale_signatures :
    (now max_age t : ℕ) (ds : Devices)
    → has t (keys ds) ≡ false
    → has t (stale_signatures now max_age ds) ≡ false
has-stale_signatures now max_age t [] h = refl
has-stale_signatures now max_age t ((k, i) ∷ ds) h = elim (Bool-cases (is_stale now max_age i)) [
  | inl a ↦ rw a (ground (arith, has-stale_signatures now max_age t ds))
  | inr a ↦ rw a (has-stale_signatures now max_age t ds (ground arith))
]

stale_signatures-Nodup :
    (now max_age : ℕ) (ds : Devices) → Nodup (keys ds) → Nodup (stale_signatures now max_age ds)
stale_signatures-Nodup now max_age [] h = tt
stale_signatures-Nodup now max_age ((k, i) ∷ ds) h = elim (Bool-cases (is_stale now max_age i)) [
  | inl a ↦
      rw a (has-stale_signatures now max_age k ds h.0, stale_signatures-Nodup now max_age ds h.1)
  | inr a ↦ rw a (stale_signatures-Nodup now max_age ds h.1)
]

find-stale :
    (now max_age t : ℕ) (ds : Devices)
    → Nodup (keys ds)
    → (if has t (stale_signatures now max_age ds) then none else find t ds)
      ≡ keep_fresh now max_age (find t ds)
unfolding keep_fresh
find-stale now max_age t [] h = refl
find-stale now max_age t ((k, i) ∷ ds) h = elim (Bool-cases (is_stale now max_age i)) [
  | inl a ↦ elim (Bool-cases (k == t)) [
    | inl b ↦ rw (a, b) (rw a refl)
    | inr b ↦ rw (a, b) (find-stale now max_age t ds h.1)
  ]
  | inr a ↦ elim (Bool-cases (k == t)) [
    | inl b ↦
        rw (a, b, sym ((==_iff k t).0 b), has-stale_signatures now max_age k ds h.0) (rw a refl)
    | inr b ↦ rw (a, b) (find-stale now max_age t ds h.1)
  ]
]

find-loop :
    (ss : List ℕ) (n t : ℕ) (c : CacheInner)
    → Nodup (keys c.devices)
    → find t (remove_stale_loop ss n c).1.devices ≡ (if has t ss then none else find t c.devices)
unfolding remove_stale_loop
find-loop [] n t c h = refl
find-loop (s ∷ ss) n t c h =
    find-loop ss (n + 1) t
      (record c { devices = map_remove s c.devices; lru_queue = remove_first s c.lru_queue })
      (subst Nodup (sym (keys-map_remove s c.devices)) (remove_first-Nodup s (keys c.devices) h))
    ∙ rw (find-map_remove t s c.devices h) (ground arith)

has-stale-keys :
    (now max_age t : ℕ) (ds : Devices)
    → has t (stale_signatures now max_age ds) ≡ true
    → has t (keys ds) ≡ true
has-stale-keys now max_age t [] h = h
has-stale-keys now max_age t ((k, i) ∷ ds) h = elim (Bool-cases (is_stale now max_age i)) [
  | inl a ↦ elim (Bool-cases (k == t)) [
    | inl b ↦ rw b refl
    | inr b ↦ rw b (has-stale-keys now max_age t ds (rw (a, b) at h))
  ]
  | inr a ↦ rw (has-stale-keys now max_age t ds (rw a at h)) (ground arith)
]

-- Each stale signature is a device, once, so each round of the loop removes one.
loop_size :
    (ss : List ℕ) (n : ℕ) (c : CacheInner)
    → Nodup ss
    → ((t : ℕ) → has t ss ≡ true → has t (keys c.devices) ≡ true)
    → (remove_stale_loop ss n c).0 + length (remove_stale_loop ss n c).1.devices
      ≡ n + length c.devices
unfolding remove_stale_loop
loop_size [] n c h sub = refl
loop_size (s ∷ ss) n c h sub =
    loop_size ss (n + 1)
      (record c { devices = map_remove s c.devices; lru_queue = remove_first s c.lru_queue }) h.1
      rest
    ∙ omega (arith, shorter)
  where
    here : has s (keys c.devices) ≡ true
    here = sub s (ground arith)

    shorter : suc (length (map_remove s c.devices)) ≡ length c.devices
    shorter = ground (arith, length-map_remove s c.devices, here)

    rest : (t : ℕ) → has t ss ≡ true → has t (keys (map_remove s c.devices)) ≡ true
    rest t k = elim (Bool-cases (s == t)) [
      | inl a ↦ absurd (cc (subst (λ (u : ℕ). has u ss ≡ false) ((==_iff s t).0 a) h.0, k))
      | inr a ↦
          ap (has t) (keys-map_remove s c.devices)
          ∙ has-remove_first_ne s t (keys c.devices) a
          ∙ sub t (ground arith)
    ]

-- `remove_stale` on a valid cache takes out exactly the devices that are older than `max_age`, and
-- returns how many these are.
pub remove_stale_lem :
    (now max_age t : ℕ) (c : CacheInner)
    → IsValid c
    → let (removed, c1) = remove_stale now max_age c in
      (find t c1.devices ≡ keep_fresh now max_age (find t c.devices))
      × (removed + length c1.devices ≡ length c.devices)
unfolding remove_stale
remove_stale_lem now max_age t c ((nq, nd, same), fits, counts) = (
  find-loop (stale_signatures now max_age c.devices) 0 t c nd
      ∙ find-stale now max_age t c.devices nd,
  loop_size (stale_signatures now max_age c.devices) 0 c
        (stale_signatures-Nodup now max_age c.devices nd)
        (λ u. has-stale-keys now max_age u c.devices)
      ∙ omega arith,
)
