-- ===== src/Util/Calendar/Months.antt =====
-- `GetLatestMonth5Hour` of util/timer.go: 5 o'clock on the first of a month. The months of the Gregorian
-- calendar are counted from January 1970.
use rocommon.Prelude.{
  ℕ, zero, suc, ◌+◌, ◌*◌, ◌/◌, ◌%◌, ◌≤◌, ◌<◌, Bool, ltb, ◌==◌, ◌&&◌, ◌||◌, not, if◌then◌else◌, ◌≡◌,
  refl, arith, Bool-cases, inl, inr,
}
use rocommon.Util.Calendar.{day, hour, day_start, get_latest_5_hour}

abbrev pub is_leap : ℕ → Bool
is_leap y = y % 4 == 0 && (not (y % 100 == 0) || y % 400 == 0)

-- The days of a month of a year, January being 0.
abbrev pub days_in_month : ℕ → ℕ → ℕ
days_in_month y m =
    if m == 1
    then (if is_leap y then 29 else 28)
    else if m == 3 || m == 5 || m == 8 || m == 10
    then 30
    else 31

abbrev pub month_length : ℕ → ℕ
month_length k = days_in_month (1970 + k / 12) (k % 12)

-- The day since 1970-01-01 on which a month begins.
unfoldable pub month_start : ℕ → ℕ
month_start zero = 0
month_start (suc k) = month_start k + month_length k

-- The month of a day, which `Date` gives: the walk through the months, of which there are no more than
-- days.
unfoldable pub month_from : ℕ → ℕ → ℕ → ℕ
unfolding month_start
month_from zero k d = k
month_from (suc n) k d =
    let later = month_from n (suc k) d in if ltb d (month_start (suc k)) then k else later

unfoldable pub month_of : ℕ → ℕ
unfolding month_from
month_of d = month_from d 0 d

-- `GetLatestMonth5Hour`: before 5 on the first of a month it is that day's, and else the next month's.
unfoldable pub get_latest_month_5_hour : ℕ → ℕ → ℕ
unfolding month_of month_start get_latest_5_hour
get_latest_month_5_hour zone now =
    let t = now / 1000 in
    let k = month_of (day zone t) in
    if day zone t == month_start k && ltb (hour zone t) 5
    then get_latest_5_hour zone now
    else (day_start zone (month_start (suc k)) + 5 * 3600) * 1000

month_length_bounds : (k : ℕ) → 28 ≤ month_length k
month_length_bounds k = ground arith

month_start_step : (k : ℕ) → month_start (suc k) ≡ month_start k + month_length k
unfolding month_start
month_start_step k = refl

le_month_start : (k : ℕ) → k ≤ month_start k
le_month_start zero = omega arith
le_month_start (suc k) = omega (arith, le_month_start k, month_start_step k, month_length_bounds k)

month_start_mono : (i k : ℕ) → i ≤ k → month_start i ≤ month_start k
month_start_mono i zero h = rw (let z : i ≡ 0 = omega (arith, h) in z) (omega arith)
month_start_mono i (suc k) h = elim (Bool-cases (i == suc k)) [
  | inl same ↦ rw (let e : i ≡ suc k = ground (arith, same) in e) (omega arith)
  | inr other ↦
      let e : i ≤ k = ground (arith, other, h) in
      omega (arith, month_start_mono i k e, month_start_step k)
]

-- The walk ends at the month that the day is in.
month_from_lem :
    (n k d : ℕ)
    → month_start k ≤ d
    → d < n + k + 1
    → (month_start (month_from n k d) ≤ d) × (d < month_start (suc (month_from n k d)))
unfolding month_from
month_from_lem zero k d h hn = (h, omega (arith, le_month_start (suc k), hn))
month_from_lem (suc n) k d h hn = elim (Bool-cases (ltb d (month_start (suc k)))) [
  | inl here ↦ ground (arith, here, h)
  | inr later ↦
      ground (arith, later, month_from_lem n (suc k) d (ground (arith, later)) (omega (arith, hn)))
]

start_zero : (d : ℕ) → month_start 0 ≤ d
unfolding month_start
start_zero d = omega arith

-- A day is in its month.
pub month_of_lem : (d : ℕ) → (month_start (month_of d) ≤ d) × (d < month_start (suc (month_of d)))
unfolding month_of
month_of_lem d = month_from_lem d 0 d (start_zero d) (omega arith)

-- 5 o'clock on the first of a month, in milliseconds.
abbrev pub month_5_hour : ℕ → ℕ → ℕ
month_5_hour zone i = (day_start zone (month_start i) + 5 * 3600) * 1000

-- 5 o'clock of an earlier day, and of this one from 5 o'clock on, is past.
earlier_day :
    (zone now m : ℕ)
    → zone < 86400
    → 2 ≤ day zone (now / 1000)
    → m < day zone (now / 1000)
    → (day_start zone m + 5 * 3600) * 1000 ≤ now
earlier_day zone now m hz h2 h = omega (arith, hz, h2, h)

same_day :
    (zone now : ℕ)
    → zone < 86400
    → 1 ≤ day zone (now / 1000)
    → 5 ≤ hour zone (now / 1000)
    → (day_start zone (day zone (now / 1000)) + 5 * 3600) * 1000 ≤ now
same_day zone now hz h5 h = omega (arith, hz, h5, h)

later_day :
    (zone now m : ℕ)
    → zone < 86400
    → day zone (now / 1000) < m
    → now < (day_start zone m + 5 * 3600) * 1000
later_day zone now m hz h = omega (arith, hz, h)

before_5 :
    (zone now : ℕ)
    → zone < 86400
    → 1 ≤ day zone (now / 1000)
    → hour zone (now / 1000) < 5
    → (get_latest_5_hour zone now ≡ (day_start zone (day zone (now / 1000)) + 5 * 3600) * 1000)
      × (now < (day_start zone (day zone (now / 1000)) + 5 * 3600) * 1000)
unfolding get_latest_5_hour
before_5 zone now hz h5 h = (ground (arith, h), omega (arith, hz, h5, h))

month_5_hour_mono : (zone i k : ℕ) → i ≤ k → month_5_hour zone i ≤ month_5_hour zone k
month_5_hour_mono zone i k h = omega (arith, month_start_mono i k h)

-- The first 5 o'clock on the first of a month after now.
abbrev pub IsNextMonth : ℕ → ℕ → ℕ → Type 0
IsNextMonth zone now j =
    (now < month_5_hour zone j)
    × ((i : ℕ) → now < month_5_hour zone i → month_5_hour zone j ≤ month_5_hour zone i)

module _ (zone now k : ℕ) (hz : zone < 86400) (h : 31 ≤ day zone (now / 1000))
    (low : month_start k ≤ day zone (now / 1000))
    (high : day zone (now / 1000) < month_start (suc k)) where
  IsNextMonth-this :
      day zone (now / 1000) ≡ month_start k
      → hour zone (now / 1000) < 5
      → (get_latest_5_hour zone now ≡ month_5_hour zone k) × IsNextMonth zone now k
  IsNextMonth-this e h5 =
      let (value, later) = before_5 zone now hz (omega (arith, h)) h5 in
      (
        ground (arith, value, e),
        (
          ground (arith, later, e),
          λ i hi. elim (Bool-cases (ltb i k)) [
            | inr after ↦ month_5_hour_mono zone k i (ground (arith, after))
            | inl before ↦
                let m = month_start_mono (suc i) k (ground (arith, before)) in
                let lt : month_start i < day zone (now / 1000) =
                  omega (arith, m, low, month_start_step i, month_length_bounds i) in
                absurd
                  (omega (arith, hi, earlier_day zone now (month_start i) hz (omega (arith, h)) lt))
          ],
        ),
      )

  not_later :
      (i : ℕ)
      → i ≤ k
      → (day zone (now / 1000) ≡ month_start k → 5 ≤ hour zone (now / 1000))
      → month_5_hour zone i ≤ now
  not_later i hi h5 = elim (Bool-cases (ltb (month_start i) (day zone (now / 1000)))) [
    | inl before ↦
        earlier_day zone now (month_start i) hz (omega (arith, h)) (ground (arith, before))
    | inr same ↦
        let m = month_start_mono i k hi in
        let e : month_start i ≡ day zone (now / 1000) = ground (arith, same, m, low) in
        let f : day zone (now / 1000) ≡ month_start k = ground (arith, same, m, low) in
        let p = same_day zone now hz (omega (arith, h)) (h5 f) in rw e p
  ]

  IsNextMonth-next :
      (day zone (now / 1000) ≡ month_start k → 5 ≤ hour zone (now / 1000))
      → IsNextMonth zone now (suc k)
  IsNextMonth-next h5 = (
    later_day zone now (month_start (suc k)) hz high,
    λ i hi. elim (Bool-cases (ltb k i)) [
      | inl after ↦ month_5_hour_mono zone (suc k) i (ground (arith, after))
      | inr before ↦ absurd (omega (arith, hi, not_later i (ground (arith, before)) h5))
    ],
  )

-- GetLatestMonth5Hour is 5 o'clock on the first of a month, after now, and the first such: from February
-- 1970 on and in a zone of less than a day.
pub get_latest_month_5_hour_first :
    (zone now : ℕ)
    → zone < 86400
    → 31 ≤ day zone (now / 1000)
    → (j : ℕ) × (get_latest_month_5_hour zone now ≡ month_5_hour zone j) × IsNextMonth zone now j
unfolding get_latest_month_5_hour
get_latest_month_5_hour_first zone now hz h =
    let d = day zone (now / 1000) in
    let k = month_of d in
    let (low, high) = month_of_lem d in
    elim (Bool-cases (d == month_start k && ltb (hour zone (now / 1000)) 5)) [
      | inl this ↦
          let (value, next) =
            IsNextMonth-this zone now k hz h low high (ground (arith, this))
              (ground (arith, this)) in
          (k, rw this value, next)
      | inr other ↦ (
        suc k,
        rw other refl,
        IsNextMonth-next zone now k hz h low high (λ e. ground (arith, other, e)),
      )
    ]
