-- ===== src/Plugin/Maintenance/Shut.antt =====
-- When maintenance is on, and which addresses it leaves out.
use mathlib.Core.Bool.{true≢false}
use mathlib.Core.Option.{some-injective, none-ne-some}
use spacegate.Common.{
  sym, ap, ◌∙◌, any, Option-cases, ℕ, ◌+◌, ◌≤◌, ◌<◌, ltb, ◌≡◌, ◌↔◌, ◌⊎◌, inl, inr, refl, arith,
  if◌then◌else◌, true, none, some, List, [], ◌∷◌, Str, Bool-cases,
}
use spacegate.Plugin.Maintenance.{
  TimeRange, range_contains, contains_time, Nets, MaintenancePluginConfig, parse_ip, parse_ips,
  create, check_by_time, check_ip,
}

-- The nanoseconds of a day.
abbrev pub day : ℕ
day = 86400000000000

-- A range whose end is before its start ends on the next day.
abbrev pub finish : TimeRange → ℕ
finish range = if ltb range.end range.start then range.end + day else range.end

-- The time is in the range, today or seen from the day before.
abbrev pub Within : ℕ → TimeRange → Type 0
Within time range =
    ((range.start ≤ time) × (time < finish range))
    ⊎ ((range.start ≤ time + day) × (time + day < finish range))

contains_time_iff :
    (time : ℕ) (range : TimeRange)
    → time < day
    → range.start < day
    → range.end < day
    → (contains_time time range ≡ true) ↔ Within time range
unfolding contains_time range_contains
contains_time_iff time range t s e = ground arith

abbrev pub OfDay : List TimeRange → Type 0
OfDay [] = Unit
OfDay (range ∷ ranges) = (range.start < day) × (range.end < day) × OfDay ranges

abbrev pub InSome : ℕ → List TimeRange → Type 0
InSome time [] = ⊥
InSome time (range ∷ ranges) = Within time range ⊎ InSome time ranges

ranges_iff :
    (time : ℕ) (ranges : List TimeRange)
    → time < day
    → OfDay ranges
    → (any (contains_time time) ranges ≡ true) ↔ InSome time ranges
ranges_iff time [] t d = (λ h. true≢false (sym h), λ h. absurd h)
ranges_iff time (range ∷ ranges) t (s, e, d) =
    let first = contains_time_iff time range t s e in
    let rest = ranges_iff time ranges t d in
    elim (Bool-cases (contains_time time range)) [
      | inl c ↦ rw c (λ h. inl (first.0 c), λ h. refl)
      | inr c ↦ rw c (
        λ h. inr (rest.0 h),
        λ h. elim h [ inl w ↦ absurd (true≢false (sym (first.1 w) ∙ c)) | inr i ↦ rest.1 i ],
      )
    ]

module _ (n : Nets) where
  -- One of the texts is of a block, or of an address, that has the address.
  abbrev pub Excludes : n.IpAddr → List Str → Type 0
  Excludes ip [] = ⊥
  Excludes ip (s ∷ ss) =
      ((net : n.IpNet) × (parse_ip n s ≡ some net) × (n.contains net ip ≡ true)) ⊎ Excludes ip ss

  parse_ips-Excludes :
      (ip : n.IpAddr) (ss : List Str)
      → (any (λ net. n.contains net ip) (parse_ips n ss) ≡ true) ↔ Excludes ip ss
  unfolding parse_ips
  parse_ips-Excludes ip [] = (λ h. true≢false (sym h), λ h. absurd h)
  parse_ips-Excludes ip (s ∷ ss) =
      let rest = parse_ips-Excludes ip ss in
      elim (Option-cases (parse_ip n s)) [
        | inl e ↦
            rw (parse_ips, e)
              (
                λ h. inr (rest.0 h),
                λ h. elim h [ inl (net, p, c) ↦ absurd (none-ne-some net p) | inr i ↦ rest.1 i ],
              )
        | inr (net, e) ↦ elim (Bool-cases (n.contains net ip)) [
          | inl c ↦ rw (parse_ips, e, c) (λ h. inl (net, refl, c), λ h. refl)
          | inr c ↦
              rw (parse_ips, e, c)
                (
                  λ h. inr (rest.0 h),
                  λ h. elim h [
                    | inl (net', p, c') ↦ absurd (
                        true≢false (
                          sym c' ∙ ap (λ m. n.contains m ip) (sym (some-injective net net' p)) ∙ c))
                    | inr i ↦ rest.1 i
                  ],
                )
        ]
      ]

  abbrev pub InTime : MaintenancePluginConfig n → ℕ → Type 0
  InTime c time = elim c.enabled_time_range [ none ↦ Unit | some ranges ↦ InSome time ranges ]

  abbrev pub Excluded : MaintenancePluginConfig n → n.IpAddr → Type 0
  Excluded c ip = elim c.exclude_ip_range [ none ↦ ⊥ | some ss ↦ Excludes ip ss ]

  pub check_by_time_iff :
      (c : MaintenancePluginConfig n) (time : ℕ)
      → time < day
      → ((ranges : List TimeRange) → c.enabled_time_range ≡ some ranges → OfDay ranges)
      → (check_by_time n (create n c) time ≡ true) ↔ InTime c time
  unfolding check_by_time create
  check_by_time_iff c time t d = elim (Option-cases c.enabled_time_range) [
    | inl e ↦ rw (check_by_time, create, e) (λ h. tt, λ h. refl)
    | inr (ranges, e) ↦ rw (check_by_time, create, e) (ranges_iff time ranges t (d ranges e))
  ]

  pub check_ip_iff :
      (c : MaintenancePluginConfig n) (ip : n.IpAddr)
      → (check_ip n (create n c) ip ≡ true) ↔ Excluded c ip
  unfolding check_ip create
  check_ip_iff c ip = elim (Option-cases c.exclude_ip_range) [
    | inl e ↦ rw (check_ip, create, e) (λ h. true≢false (sym h), λ h. absurd h)
    | inr (ss, e) ↦ rw (check_ip, create, e) (parse_ips-Excludes ip ss)
  ]
