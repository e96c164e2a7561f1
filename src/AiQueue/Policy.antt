-- ===== src/AiQueue/Policy.antt =====
-- plugins/wasm/ai-gateway-queue/src/policy.rs
use spacegate.Common.{
  ℕ, ◌==◌, if◌then◌else◌, Str, codes, str_eq, to_ascii_lowercase, Bool, ◌||◌, Option, none, some,
  [], ◌∷◌, ◌++◌,
}
use spacegate.Common.Parse.{
  trim, is_whitespace, trim_start_by, find_behind, contains, take_while, is_ascii_digit, parse_u64,
}

unfoldable pub normalize_policy : Str → Option Str
unfolding trim
normalize_policy value =
    let v = to_ascii_lowercase (trim value) in
    if str_eq v (codes "abandon")
    then some (codes "abandon")
    else if str_eq v (codes "queue")
    then some (codes "queue")
    else if str_eq v (codes "wait")
    then some (codes "wait")
    else none

unfoldable pub normalize_priority : Str → Option Str
unfolding trim
normalize_priority value =
    let v = to_ascii_lowercase (trim value) in
    if str_eq v (codes "high")
    then some (codes "high")
    else if str_eq v (codes "normal") || str_eq v (codes "default") || str_eq v (codes "medium")
    then some (codes "normal")
    else if str_eq v (codes "low")
    then some (codes "low")
    else none

unfoldable pub contains_allowed_true : Str → Bool
unfolding contains
contains_allowed_true text =
    contains (codes "\"allowed\":true") text || contains (codes "\"allowed\": true") text

-- The number behind a needle.
unfoldable pub number_behind : Str → Str → Option ℕ
unfolding find_behind parse_u64
number_behind needle text = elim (find_behind needle text) [
  | none ↦ none
  | some behind ↦
      parse_u64
        (take_while is_ascii_digit (trim_start_by (λ c. is_whitespace c || c == b'"') behind))
]

unfoldable pub extract_json_number : Str → Str → Option ℕ
unfolding number_behind
extract_json_number text key =
    let quoted = b'"' ∷ (key ++ b'"' ∷ b':' ∷ []) in
    elim (number_behind quoted text) [
      | some v ↦ some v
      | none ↦ number_behind (quoted ++ b'"' ∷ []) text
    ]
