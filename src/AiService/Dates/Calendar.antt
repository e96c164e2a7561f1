-- ===== src/AiService/Dates/Calendar.antt =====
-- The Gregorian calendar, day by day.
use spacegate.Common.{ℕ, zero, suc, ◌+◌, ◌%◌, ltb, ◌==◌, not, ◌&&◌, ◌||◌, Bool, if◌then◌else◌}

abbrev pub is_leap : ℕ → Bool
is_leap y = y % 4 == 0 && (not (y % 100 == 0) || y % 400 == 0)

abbrev pub month_length : ℕ → ℕ → ℕ
month_length y m =
    if m == 2
    then (if is_leap y then 29 else 28)
    else if m == 4 || m == 6 || m == 9 || m == 11
    then 30
    else 31

abbrev pub Date : Type 0
Date = ℕ × ℕ × ℕ

unfoldable pub tomorrow : Date → Date
tomorrow (y, m, d) =
    if ltb d (month_length y m)
    then (y, m, d + 1)
    else if ltb m 12
    then (y, m + 1, 1)
    else (y + 1, 1, 1)

-- Days behind the 1st of January 1970.
unfoldable pub days_after : ℕ → Date
days_after zero = (1970, 1, 1)
days_after (suc n) = tomorrow (days_after n)
