-- ===== src/Wmbus/CompactCache/Keys.antt =====
-- Key lists with no key twice, and what the map and queue operations do to them.
use mbuscrate.Prelude.{
  ℕ, suc, ◌≡◌, refl, sym, ◌∙◌, List, [], ◌∷◌, ◌++◌, false, ◌||◌, ◌==◌, ==_iff, Bool-cases,
  if◌then◌else◌, length, arith, inl, inr,
}
use mbuscrate.Wmbus.CompactCache.{
  Devices, CachedDeviceInfo, has, remove_first, keys, map_remove, map_insert,
}

abbrev pub Nodup : List ℕ → Type 0
Nodup [] = Unit
Nodup (k ∷ ks) = (has k ks ≡ false) × Nodup ks

pub has-remove_first_ne :
    (s t : ℕ) (ks : List ℕ) → (s == t) ≡ false → has t (remove_first s ks) ≡ has t ks
has-remove_first_ne s t [] h = refl
has-remove_first_ne s t (k ∷ ks) h = elim (Bool-cases (k == s)) [
  | inl a ↦ rw (a, (==_iff k s).0 a, h) refl
  | inr a ↦ rw (a, has-remove_first_ne s t ks h) refl
]

pub has-remove_first_self : (s : ℕ) (ks : List ℕ) → Nodup ks → has s (remove_first s ks) ≡ false
has-remove_first_self s [] h = refl
has-remove_first_self s (k ∷ ks) h = elim (Bool-cases (k == s)) [
  | inl a ↦ rw a (rw (sym ((==_iff k s).0 a)) h.0)
  | inr a ↦ rw (a, has-remove_first_self s ks h.1) (rw a refl)
]

-- A key that is kept out stays out.
pub has-remove_first-false :
    (s t : ℕ) (ks : List ℕ) → has t ks ≡ false → has t (remove_first s ks) ≡ false
has-remove_first-false s t [] h = refl
has-remove_first-false s t (k ∷ ks) h = ground (arith, has-remove_first-false s t ks)

pub remove_first-Nodup : (s : ℕ) (ks : List ℕ) → Nodup ks → Nodup (remove_first s ks)
remove_first-Nodup s [] h = tt
remove_first-Nodup s (k ∷ ks) h = elim (Bool-cases (k == s)) [
  | inl a ↦ rw a h.1
  | inr a ↦ rw a (has-remove_first-false s k ks h.0, remove_first-Nodup s ks h.1)
]

pub has-append_one : (t s : ℕ) (ks : List ℕ) → has t (ks ++ (s ∷ [])) ≡ (s == t || has t ks)
has-append_one t s [] = ground arith
has-append_one t s (k ∷ ks) = ground (arith, has-append_one t s ks)

pub append_one-Nodup : (s : ℕ) (ks : List ℕ) → Nodup ks → has s ks ≡ false → Nodup (ks ++ (s ∷ []))
append_one-Nodup s [] h n = (refl, tt)
append_one-Nodup s (k ∷ ks) h n =
    (has-append_one k s ks ∙ ground arith, append_one-Nodup s ks h.1 (ground arith))

pub keys-map_remove : (s : ℕ) (ds : Devices) → keys (map_remove s ds) ≡ remove_first s (keys ds)
keys-map_remove s [] = refl
keys-map_remove s ((t, i) ∷ ds) = ground (arith, keys-map_remove s ds)

pub has-keys-map_insert :
    (t s : ℕ) (info : CachedDeviceInfo) (ds : Devices)
    → has t (keys (map_insert s info ds)) ≡ (s == t || has t (keys ds))
has-keys-map_insert t s info [] = refl
has-keys-map_insert t s info ((k, i) ∷ ds) = elim (Bool-cases (k == s)) [
  | inl a ↦ rw (a, (==_iff k s).0 a) (ground arith)
  | inr a ↦ rw (a, has-keys-map_insert t s info ds) (ground arith)
]

pub keys-map_insert-Nodup :
    (s : ℕ) (info : CachedDeviceInfo) (ds : Devices)
    → Nodup (keys ds)
    → Nodup (keys (map_insert s info ds))
keys-map_insert-Nodup s info [] h = (refl, tt)
keys-map_insert-Nodup s info ((k, i) ∷ ds) h = elim (Bool-cases (k == s)) [
  | inl a ↦ rw a (rw (sym ((==_iff k s).0 a)) h)
  | inr a ↦
      rw a (has-keys-map_insert k s info ds ∙ ground arith, keys-map_insert-Nodup s info ds h.1)
]

-- An insertion adds an entry exactly where the key is new.
pub length-map_insert :
    (s : ℕ) (info : CachedDeviceInfo) (ds : Devices)
    → length (map_insert s info ds) ≡ (if has s (keys ds) then length ds else suc (length ds))
length-map_insert s info [] = refl
length-map_insert s info ((k, i) ∷ ds) = ground (arith, length-map_insert s info ds)

pub length-map_remove :
    (s : ℕ) (ds : Devices)
    → (if has s (keys ds) then suc (length (map_remove s ds)) else length (map_remove s ds))
      ≡ length ds
length-map_remove s [] = refl
length-map_remove s ((k, i) ∷ ds) = ground (arith, length-map_remove s ds)
