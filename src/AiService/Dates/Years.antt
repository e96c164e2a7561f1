-- ===== src/AiService/Dates/Years.antt =====
-- The years of an era, and the months of a year, day by day.
use spacegate.Common.{ℕ, ◌+◌, ◌-◌, ◌*◌, ◌/◌, ◌≤◌, ◌<◌, leb, if◌then◌else◌, ◌≡◌, ◌⊎◌, arith, true}
use spacegate.AiService.Dates.{year_of_era, month_day}
use spacegate.AiService.Dates.Calendar.{is_leap, Date, tomorrow}

abbrev pub start : ℕ → ℕ
start y = 365 * y + y / 4 - y / 100

pub year_small : (n : ℕ) → n < 146097 → year_of_era n < 400
unfolding year_of_era
year_small n h = omega arith

pub year_begun : (n : ℕ) → n < 146097 → start (year_of_era n) ≤ n
unfolding year_of_era
year_begun n h = omega arith

pub year_ends : (n : ℕ) → n < 146097 → (n < start (year_of_era n + 1)) ⊎ (year_of_era n ≡ 399)
unfolding year_of_era
year_ends n h = omega arith

-- The date by the year that begins in March and the day of it.
abbrev pub date : ℕ → ℕ → Date
date y doy = let (m, d) = month_day doy in (if leb m 2 then y + 1 else y, m, d)

pub tomorrow-same : (y doy : ℕ) → doy < 364 → tomorrow (date y doy) ≡ date y (doy + 1)
unfolding tomorrow month_day
tomorrow-same y doy h = ground arith

pub tomorrow-leap :
    (y : ℕ) → tomorrow (date y 364) ≡ (if is_leap (y + 1) then date y 365 else date (y + 1) 0)
unfolding tomorrow month_day
tomorrow-leap y = ground arith

pub tomorrow-last : (y : ℕ) → is_leap (y + 1) ≡ true → tomorrow (date y 365) ≡ date (y + 1) 0
unfolding tomorrow month_day
tomorrow-last y = ground arith
