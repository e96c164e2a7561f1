-- ===== src/AiService/Dates.antt =====
-- Dates of results: format_completed_at_rfc3339 and civil_from_days of
-- binary/ai-gateway-service/src/app/util.rs. The days of 64 bits of milliseconds stay far from the
-- bounds of an `i64`.
pub mod Calendar
pub mod Years
pub mod Laws
use spacegate.Common.{
  ℕ, suc, ◌+◌, ◌-◌, ◌*◌, ◌/◌, ◌%◌, ltb, leb, if◌then◌else◌, Str, codes, length, replicate, ◌++◌, [],
  ◌∷◌,
}
use spacegate.Common.Int.{ℤ, pos, negsuc}
use spacegate.Common.Parse.{decimal}

-- `+` of a signed and an unsigned number
abbrev pub plus : ℤ → ℕ → ℤ
plus (pos n) k = pos (n + k)
plus (negsuc n) k = if leb (n + 1) k then pos (k - (n + 1)) else negsuc (n - k)

-- The era of 400 years, rounded down, and the day in it.
unfoldable pub era_of : ℤ → ℤ × ℕ
era_of (pos z) = (pos (z / 146097), z - z / 146097 * 146097)
era_of (negsuc z) = (negsuc (z / 146097), (z / 146097 + 1) * 146097 - (z + 1))

unfoldable pub year_of_era : ℕ → ℕ
year_of_era doe = (doe - doe / 1460 + doe / 36524 - doe / 146096) / 365

-- The year that begins in March.
unfoldable pub day_of_year : ℕ → ℕ → ℕ
day_of_year doe yoe = doe - (365 * yoe + yoe / 4 - yoe / 100)

-- The month and the day, by the day of the year that begins in March.
unfoldable pub month_day : ℕ → ℕ × ℕ
month_day doy =
    let mp = (5 * doy + 2) / 153 in
    let d = doy - (153 * mp + 2) / 5 + 1 in (if ltb mp 10 then mp + 3 else mp - 9, d)

-- `yoe + era * 400`
abbrev pub year_in : ℤ → ℕ → ℤ
year_in (pos era) yoe = pos (yoe + era * 400)
year_in (negsuc era) yoe = plus (negsuc (era * 400 + 399)) yoe

unfoldable pub civil_from_days : ℤ → ℤ × ℕ × ℕ
civil_from_days z =
    let (era, doe) = era_of (plus z 719468) in
    let yoe = year_of_era doe in
    let (m, d) = month_day (day_of_year doe yoe) in
    let y = year_in era yoe in (if leb m 2 then plus y 1 else y, m, d)

-- `{:0w}`
unfoldable pub padded : ℕ → ℕ → Str
padded w n = let text = decimal n in replicate (w - length text) b'0' ++ text

abbrev pub padded_year : ℤ → Str
padded_year (pos y) = padded 4 y
padded_year (negsuc y) = b'-' ∷ padded 3 (suc y)

unfoldable pub format_completed_at_rfc3339 : ℕ → Str
unfolding civil_from_days
format_completed_at_rfc3339 ms =
    let (year, month, day) = civil_from_days (pos (ms / 86400000)) in
    let rem_ms = ms % 86400000 in
    padded_year year
    ++ b'-' ∷ padded 2 month
    ++ b'-' ∷ padded 2 day
    ++ b'T' ∷ padded 2 (rem_ms / 3600000)
    ++ b':' ∷ padded 2 (rem_ms % 3600000 / 60000)
    ++ b':' ∷ padded 2 (rem_ms % 60000 / 1000)
    ++ b'.' ∷ padded 3 (rem_ms % 1000)
    ++ b'Z' ∷ []
