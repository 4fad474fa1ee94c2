-- ===== src/Wmbus/ChannelHopping/Invariant.antt =====
-- src/wmbus/radio/lora/channel_hopping.rs: what holds of a hopper after any operations; get_stats subtracts
-- the length of the blacklist from the number of channels.
use mbuscrate.Prelude.{
  ℕ, zero, suc, ◌+◌, ◌≤◌, ◌<◌, ◌≡◌, ◌≢◌, refl, List, [], ◌∷◌, ◌++◌, Bool, false, ◌&&◌, length,
  arith, if◌then◌else◌,
}
use mbuscrate.Wmbus.ChannelHopping.{ChannelHopper, contains, update_quality, scan_from, retain_ne}

-- The entries of a blacklist are below `n`, each once.
abbrev pub AreChannels : ℕ → List ℕ → Type 0
AreChannels n [] = Unit
AreChannels n (b ∷ bs) = (b < n) × (contains bs b ≡ false) × AreChannels n bs

length-retain_ne_absent :
    (i : ℕ) (bs : List ℕ) → contains bs i ≡ false → length (retain_ne i bs) ≡ length bs
length-retain_ne_absent i [] h = refl
length-retain_ne_absent i (b ∷ bs) h = ground (arith, length-retain_ne_absent i bs)

contains-retain_ne-false :
    (i b : ℕ) (bs : List ℕ) → contains bs b ≡ false → contains (retain_ne i bs) b ≡ false
contains-retain_ne-false i b [] h = refl
contains-retain_ne-false i b (c ∷ bs) h = ground (arith, contains-retain_ne-false i b bs)

AreChannels-retain_ne : (i n : ℕ) (bs : List ℕ) → AreChannels n bs → AreChannels n (retain_ne i bs)
AreChannels-retain_ne i n [] h = tt
AreChannels-retain_ne i n (b ∷ bs) h =
    ground (arith, AreChannels-retain_ne i n bs, contains-retain_ne-false i b bs)

AreChannels-retain_last :
    (n : ℕ) (bs : List ℕ) → AreChannels (suc n) bs → AreChannels n (retain_ne n bs)
AreChannels-retain_last n [] h = tt
AreChannels-retain_last n (b ∷ bs) h =
    ground (arith, AreChannels-retain_last n bs, contains-retain_ne-false n b bs)

length-retain_ne_once :
    (i n : ℕ) (bs : List ℕ) → AreChannels n bs → length bs ≤ suc (length (retain_ne i bs))
length-retain_ne_once i n [] h = omega arith
length-retain_ne_once i n (b ∷ bs) h =
    ground (arith, length-retain_ne_once i n bs, length-retain_ne_absent i bs)

pub AreChannels-length : (n : ℕ) (bs : List ℕ) → AreChannels n bs → length bs ≤ n
AreChannels-length zero [] h = omega arith
AreChannels-length zero (b ∷ bs) h = omega arith
AreChannels-length (suc n) bs h = omega (
  arith,
  length-retain_ne_once n (suc n) bs h,
  AreChannels-length n (retain_ne n bs) (AreChannels-retain_last n bs h),
)

contains-snoc :
    (i b : ℕ) (bs : List ℕ) → contains bs b ≡ false → b ≢ i → contains (bs ++ i ∷ []) b ≡ false
contains-snoc i b [] h away = ground arith
contains-snoc i b (c ∷ bs) h away = ground (arith, contains-snoc i b bs)

AreChannels-snoc :
    (i n : ℕ) (bs : List ℕ)
    → i < n
    → contains bs i ≡ false
    → AreChannels n bs
    → AreChannels n (bs ++ i ∷ [])
AreChannels-snoc i n [] small fresh h = (small, refl, tt)
AreChannels-snoc i n (b ∷ bs) small fresh h =
    ground (arith, AreChannels-snoc i n bs, contains-snoc i b bs)

-- The current channel is one of the channels, and the blacklist is a set of channels.
abbrev pub IsValid : ChannelHopper → Type 0
IsValid h = (h.current_index < h.channels) × AreChannels h.channels h.blacklist

pub update_quality-IsValid :
    (channel_idx : ℕ) (poor : Bool) (h : ChannelHopper)
    → IsValid h
    → IsValid (update_quality channel_idx poor h)
unfolding update_quality
update_quality-IsValid channel_idx poor h valid =
    ground (arith, AreChannels-snoc channel_idx h.channels h.blacklist)

pub scan_from-IsValid :
    (idx : ℕ) (answers : List Bool) (h : ChannelHopper)
    → IsValid h
    → IsValid (scan_from idx answers h)
unfolding scan_from
scan_from-IsValid idx [] h valid = valid
scan_from-IsValid idx (improved ∷ answers) h valid =
    scan_from-IsValid (idx + 1) answers
      (if improved && contains h.blacklist idx
        then record h { blacklist = retain_ne idx h.blacklist }
        else h)
      (ground (arith, AreChannels-retain_ne idx h.channels h.blacklist))
