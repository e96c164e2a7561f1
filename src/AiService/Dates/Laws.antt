-- ===== src/AiService/Dates/Laws.antt =====
-- The date of a day is the calendar's.
use spacegate.Common.{
  ℕ, zero, suc, ◌+◌, ◌-◌, ◌*◌, ◌/◌, ◌<◌, ltb, leb, ◌==◌, true, false, ◌≡◌, refl, sym, ap, ◌∙◌,
  arith, Bool-cases, inl, inr,
}
use spacegate.Common.Int.{ℤ, pos}
use spacegate.AiService.Dates.{year_of_era, day_of_year, month_day, era_of, civil_from_days}
use spacegate.AiService.Dates.Calendar.{is_leap, Date, tomorrow, days_after}
use spacegate.AiService.Dates.Years.{
  year_small, year_begun, year_ends, date, tomorrow-same, tomorrow-leap, tomorrow-last,
}

-- How the year and its day move on.
data Turn (y doy y' doy' : ℕ) : Type 0 where
  goes_on : doy < 364 → y' ≡ y → doy' ≡ doy + 1 → Turn y doy y' doy'
  leaps : doy ≡ 364 → is_leap (y + 1) ≡ true → y' ≡ y → doy' ≡ 365 → Turn y doy y' doy'
  ends : doy ≡ 364 → is_leap (y + 1) ≡ false → y' ≡ y + 1 → doy' ≡ 0 → Turn y doy y' doy'
  ends_leaping : doy ≡ 365 → is_leap (y + 1) ≡ true → y' ≡ y + 1 → doy' ≡ 0 → Turn y doy y' doy'

Turn-tomorrow : (y doy y' doy' : ℕ) → Turn y doy y' doy' → tomorrow (date y doy) ≡ date y' doy'
Turn-tomorrow y doy y' doy' (goes_on h a b) = tomorrow-same y doy h ∙ rw (a, b) refl
Turn-tomorrow y doy y' doy' (leaps h l a b) = rw (h, a, b) (tomorrow-leap y ∙ rw (l) refl)
Turn-tomorrow y doy y' doy' (ends h l a b) = rw (h, a, b) (tomorrow-leap y ∙ rw (l) refl)
Turn-tomorrow y doy y' doy' (ends_leaping h l a b) = rw (h, a, b) (tomorrow-last y l)

module _ (e n : ℕ) (h : n < 146096) where
  abbrev yoe : ℕ
  yoe = year_of_era n

  abbrev next : ℕ
  next = year_of_era (n + 1)

  within_era : Turn (yoe + e * 400) (day_of_year n yoe) (next + e * 400) (day_of_year (n + 1) next)
  unfolding day_of_year
  within_era =
      let a = year_small n (omega arith) in
      let b = year_begun n (omega arith) in
      let c = year_ends n (omega arith) in
      let a' = year_small (n + 1) (omega arith) in
      let b' = year_begun (n + 1) (omega arith) in
      let c' = year_ends (n + 1) (omega arith) in
      elim (Bool-cases (ltb (day_of_year n yoe) 364)) [
        | inl p ↦ goes_on (ground arith) (ground arith) (ground arith)
        | inr p ↦ elim (Bool-cases (is_leap (yoe + e * 400 + 1))) [
          | inl l ↦ elim (Bool-cases (day_of_year n yoe == 364)) [
            | inl q ↦ leaps (ground arith) l (ground arith) (ground arith)
            | inr q ↦ ends_leaping (ground arith) l (ground arith) (ground arith)
          ]
          | inr l ↦ ends (ground arith) l (ground arith) (ground arith)
        ]
      ]

last_of_era :
    (e n : ℕ)
    → n ≡ 146096
    → Turn (year_of_era n + e * 400) (day_of_year n (year_of_era n)) (0 + (e + 1) * 400) 0
unfolding day_of_year year_of_era
last_of_era e n h =
    rw (h) (ends_leaping (ground arith) (ground arith) (ground arith) (ground arith))

abbrev pub as_civil : Date → ℤ × ℕ × ℕ
as_civil (y, m, d) = (pos y, m, d)

abbrev era : ℕ → ℕ
era n = (n + 719468) / 146097

abbrev day_of_era : ℕ → ℕ
day_of_era n = n + 719468 - (n + 719468) / 146097 * 146097

abbrev dated : ℕ → ℕ → Date
dated e n = date (year_of_era n + e * 400) (day_of_year n (year_of_era n))

civil_from_days-dated : (n : ℕ) → civil_from_days (pos n) ≡ as_civil (dated (era n) (day_of_era n))
unfolding civil_from_days era_of
civil_from_days-dated n =
    elim (Bool-cases
      (leb ((month_day (day_of_year (day_of_era n) (year_of_era (day_of_era n)))).0) 2)) [
        | inl h ↦ rw (h) refl
        | inr h ↦ rw (h) refl
      ]

dated-tomorrow :
    (n : ℕ) → tomorrow (dated (era n) (day_of_era n)) ≡ dated (era (suc n)) (day_of_era (suc n))
unfolding day_of_year year_of_era
dated-tomorrow n =
    let e = era n in
    let d = day_of_era n in
    let moved : (e' d' : ℕ)
        → era (suc n) ≡ e'
        → day_of_era (suc n) ≡ d'
        → dated (era (suc n)) (day_of_era (suc n)) ≡ dated e' d' =
      λ e' d' p q. ap (λ k. dated k (day_of_era (suc n))) p ∙ ap (dated e') q in
    elim (Bool-cases (ltb d 146096)) [
      | inl h ↦
          Turn-tomorrow (year_of_era d + e * 400) (day_of_year d (year_of_era d)) _ _
            (within_era e d (ground arith))
          ∙ sym (moved e (d + 1) (ground arith) (ground arith))
      | inr h ↦
          Turn-tomorrow (year_of_era d + e * 400) (day_of_year d (year_of_era d)) _ _
            (last_of_era e d (ground arith))
          ∙ sym (moved (e + 1) 0 (ground arith) (ground arith))
    ]

dated-days_after : (n : ℕ) → dated (era n) (day_of_era n) ≡ days_after n
unfolding days_after day_of_year year_of_era month_day
dated-days_after zero = refl
dated-days_after (suc n) = sym (dated-tomorrow n) ∙ ap tomorrow (dated-days_after n)

-- For each number of days from the epoch on the year, the month and the day are those that the
-- calendar reaches by as many steps from the 1st of January 1970, each to the next day by the
-- lengths of the months and the rule of leap years.
pub civil_from_days-days_after : (n : ℕ) → civil_from_days (pos n) ≡ as_civil (days_after n)
civil_from_days-days_after n = civil_from_days-dated n ∙ ap as_civil (dated-days_after n)
