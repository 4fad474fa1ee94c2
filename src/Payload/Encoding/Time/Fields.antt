-- ===== src/Payload/Encoding/Time/Fields.antt =====
-- The fields of a time, as EN 13757-3 lays them out, and what is decoded from them.
use mbuscrate.Prelude.{
  ℕ, ◌+◌, ◌-◌, ◌*◌, ◌/◌, ◌%◌, ◌^◌, ◌≤◌, ◌<◌, ◌≡◌, refl, ap, ap₂, ◌∙◌, bit_and, bit_or, [], ◌∷◌,
  true, ◌==◌, ==_iff, ok, arith,
}
use mbuscrate.Prelude.Bits.{all_below, all_below_sound, bit_and_low}
use mbuscrate.Payload.Encoding.Time.{year, month, date_secs, decode_mbus_time}

-- The date: the day with the low three bits of the year, and the month with the high four.
abbrev pub day_byte : ℕ → ℕ → ℕ
day_byte y d = y % 8 * 2 ^ 5 + d

abbrev pub month_byte : ℕ → ℕ → ℕ
month_byte y m = y / 8 * 2 ^ 4 + m

-- The seconds that the decoder counts up to a date: years of 365 days, from 100 on, and months of 30.
abbrev pub date_value : ℕ → ℕ → ℕ → ℕ
date_value y m d = (100 + y) * 31536000 + (m - 1) * 2592000 + d * 86400

abbrev pub IsDate : ℕ → ℕ → ℕ → Type 0
IsDate y m d = (y < 128) × (1 ≤ m) × (m ≤ 12) × (d ≤ 31)

abbrev pub IsClock : ℕ → ℕ → ℕ → Type 0
IsClock h mi s = (h < 24) × (mi < 60) × (s < 60)

by_evaluation :
    (bound : ℕ) (f g : ℕ → ℕ) (k : ℕ)
    → all_below bound (λ (x : ℕ). f x == g x) ≡ true
    → k < bound
    → f k ≡ g k
by_evaluation bound f g k passed h =
    (==_iff (f k) (g k)).0 (all_below_sound bound (λ (x : ℕ). f x == g x) k passed h)

low_year : (b : ℕ) → b < 256 → bit_and b 0xE0 / 32 ≡ b / 32
unfolding all_below
low_year b h = by_evaluation 256 (λ (x : ℕ). bit_and x 0xE0 / 32) (λ (x : ℕ). x / 32) b refl h

high_year : (b : ℕ) → b < 256 → bit_and b 0xF0 / 2 ≡ b / 16 * 8
unfolding all_below
high_year b h = by_evaluation 256 (λ (x : ℕ). bit_and x 0xF0 / 2) (λ (x : ℕ). x / 16 * 8) b refl h

whole_year : (y : ℕ) → y < 128 → bit_or (y % 8) (y / 8 * 8) ≡ y
unfolding all_below
whole_year y h = by_evaluation 128 (λ (x : ℕ). bit_or (x % 8) (x / 8 * 8)) (λ (x : ℕ). x) y refl h

year-fields : (y m d : ℕ) → IsDate y m d → year (day_byte y d) (month_byte y m) ≡ 100 + y
unfolding year
year-fields y m d (hy, lo, hi, hd) = ap (λ (n : ℕ). 100 + n) (ap₂ bit_or low high ∙ whole_year y hy)
  where
    low : bit_and (day_byte y d) 0xE0 / 32 ≡ y % 8
    low = low_year (day_byte y d) (omega arith) ∙ omega arith

    high : bit_and (month_byte y m) 0xF0 / 2 ≡ y / 8 * 8
    high = high_year (month_byte y m) (omega arith) ∙ omega arith

month-fields : (y m d : ℕ) → IsDate y m d → month (month_byte y m) ≡ m - 1
unfolding month
month-fields y m d (hy, lo, hi, hd) =
    let field : bit_and (month_byte y m) 0x0F ≡ m = bit_and_low 4 (month_byte y m) ∙ omega arith in
    rw field (omega arith)

date_secs-fields :
    (y m d : ℕ) → IsDate y m d → date_secs (day_byte y d) (month_byte y m) ≡ date_value y m d
unfolding date_secs
date_secs-fields y m d (hy, lo, hi, hd) =
    let day : bit_and (day_byte y d) 0x1F ≡ d = bit_and_low 5 (day_byte y d) ∙ omega arith in
    rw (year-fields y m d (hy, lo, hi, hd), month-fields y m d (hy, lo, hi, hd), day) refl

-- The hour, with flags above it.
abbrev pub hour_byte : ℕ → ℕ → ℕ
hour_byte flags h = flags * 2 ^ 5 + h

valid_bits :
    (v mask : ℕ)
    → all_below 60 (λ (x : ℕ). bit_and x mask == 0) ≡ true
    → v < 60
    → (bit_and v mask == 0) ≡ true
valid_bits v mask passed h = all_below_sound 60 (λ (x : ℕ). bit_and x mask == 0) v passed h

-- The bytes of a date, of a date with hour and minute, and of one with seconds, as EN 13757-3 lays them out,
-- with any flags above the hour, decode into the seconds of the clock and of a date whose years
-- count from 100 and have 365 days, and whose months have 30. The year is below 128, the month
-- from 1 to 12, the day at most 31, and the clock in range.
pub decode_mbus_time_lem :
    (y m d h mi s flags sixth : ℕ)
    → IsDate y m d
    → IsClock h mi s
    → (decode_mbus_time (day_byte y d ∷ month_byte y m ∷ []) ≡ ok (date_value y m d))
      × (decode_mbus_time (mi ∷ hour_byte flags h ∷ day_byte y d ∷ month_byte y m ∷ [])
          ≡ ok (date_value y m d + h * 3600 + mi * 60))
      × (decode_mbus_time (s ∷ mi ∷ hour_byte flags h ∷ day_byte y d ∷ month_byte y m ∷ sixth ∷ [])
          ≡ ok (date_value y m d + h * 3600 + mi * 60 + s))
unfolding decode_mbus_time all_below
decode_mbus_time_lem y m d h mi s flags sixth date (hh, hmi, hs) =
    let secs = date_secs-fields y m d date in
    let hour : bit_and (hour_byte flags h) 0x1F ≡ h =
      bit_and_low 5 (hour_byte flags h) ∙ omega arith in
    let minute : bit_and mi 0x3F ≡ mi = bit_and_low 6 mi ∙ omega arith in
    let second : bit_and s 0x3F ≡ s = bit_and_low 6 s ∙ omega arith in
    let valid_minute : (bit_and mi 0x80 == 0) ≡ true = valid_bits mi 0x80 refl hmi in
    let valid_second : (bit_and s 0x40 == 0) ≡ true = valid_bits s 0x40 refl hs in
    (
      ap ok secs,
      rw valid_minute (
          ap ok (
            ap₂ (λ (a b : ℕ). a + b) (ap₂ (λ (a b : ℕ). a + b * 3600) secs hour)
              (ap (λ (a : ℕ). a * 60) minute))),
      rw valid_second (
          ap ok (
            ap₂ (λ (a b : ℕ). a + b)
              (ap₂ (λ (a b : ℕ). a + b) (ap₂ (λ (a b : ℕ). a + b * 3600) secs hour)
                (ap (λ (a : ℕ). a * 60) minute))
              second)),
    )
