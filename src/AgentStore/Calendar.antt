-- ===== src/AgentStore/Calendar.antt =====
-- `DayStart` and `WeekStart` of agent/store/store.go. Times are nanoseconds since
-- 1970-01-01 00:00 UTC, a Thursday.
use dcr.Prelude.{ℕ, ◌+◌, ◌-◌, ◌*◌, ◌/◌, ◌%◌, ◌≤◌, ◌<◌, ◌≡◌, arith, ◌==◌, ◌∙◌, leb, if◌then◌else◌}

abbrev pub hour_ns : ℕ
hour_ns = 3_600_000_000_000

abbrev pub day_ns : ℕ
day_ns = 86_400_000_000_000

unfoldable pub day_start : ℕ → ℕ
day_start t = t / day_ns * day_ns

-- `time.Weekday`, with 0 for Sunday
abbrev pub weekday : ℕ → ℕ
weekday t = (t / day_ns + 4) % 7

unfoldable pub week_start : ℕ → ℕ
unfolding day_start
week_start t = let wd = if weekday t == 0 then 7 else weekday t in day_start t - (wd - 1) * day_ns

-- From the first Monday after the epoch on, the week starts on a Monday at midnight, not after the
-- day does, and less than seven days before the time itself.
pub week_start_bounds :
    (t : ℕ)
    → 4 * day_ns ≤ t
    → (week_start t % day_ns ≡ 0)
      × (weekday (week_start t) ≡ 1)
      × (week_start t ≤ day_start t)
      × (day_start t ≤ t)
      × (t < week_start t + 7 * day_ns)
unfolding week_start
week_start_bounds t h = ground arith

-- The days since 1970-01-01, and the weeks from Monday to Sunday since the one of that Thursday.
abbrev pub day_of : ℕ → ℕ
day_of t = t / day_ns

abbrev pub week_of : ℕ → ℕ
week_of t = (day_of t + 3) / 7

leb_days : (d t : ℕ) → leb (d * day_ns) t ≡ leb d (day_of t)
leb_days d t = ground arith

leb_weeks : (w d : ℕ) → 1 ≤ w → leb (7 * w - 3) d ≡ leb w ((d + 3) / 7)
leb_weeks w d h = ground arith

week_start_lem : (t : ℕ) → 4 * day_ns ≤ t → week_start t ≡ (7 * week_of t - 3) * day_ns
unfolding week_start
week_start_lem t h = ground arith

week_of_positive : (t : ℕ) → 4 * day_ns ≤ t → 1 ≤ week_of t
week_of_positive t h = omega arith

-- A time is not before the start of a day exactly when its day is not an earlier one.
pub leb-day_start : (now t : ℕ) → leb (day_start now) t ≡ leb (day_of now) (day_of t)
unfolding day_start
leb-day_start now t = leb_days (day_of now) t

-- A time is not before the start of a week exactly when its week is not an earlier one.
pub leb-week_start :
    (now t : ℕ) → 4 * day_ns ≤ now → leb (week_start now) t ≡ leb (week_of now) (week_of t)
leb-week_start now t h =
    rw (week_start_lem now h) (leb_days (7 * week_of now - 3) t)
    ∙ leb_weeks (week_of now) (day_of t) (week_of_positive now h)
