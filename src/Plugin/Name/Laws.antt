-- ===== src/Plugin/Name/Laws.antt =====
-- Reading the text forms of plugin instance names and ids back.
use spacegate.Common.{
  ℕ, ◌≡◌, refl, arith, ◌==◌, Str, split_once, is_empty, ends_with_code, trim_end_matches,
  trim_matches, false, any, [], ◌∷◌, ◌++◌,
}
use spacegate.Common.Result.{ok, err, ◌>>=◌}
use spacegate.Common.Parse.Laws.{strip_prefix-append, split-behind, split-whole}
use spacegate.Plugin.Instance.{anon, named, mono}
use spacegate.Plugin.Name.{
  invalid_prefix, display_name, from_str, split_dash, display_id, parse_by_code, as_file_stem,
  from_file_stem,
}

trim_end_matches-id : (d : ℕ) (s : Str) → ends_with_code d s ≡ false → trim_end_matches d s ≡ s
trim_end_matches-id d [] h = refl
trim_end_matches-id d (c ∷ []) h = rw h refl
trim_end_matches-id d (c ∷ e ∷ s) h = rw (trim_end_matches-id d (e ∷ s) h) refl

-- A dash in front, a letter that is none, a dash and a text that does not end with one.
trim_matches-letter :
    (c : ℕ) (s : Str)
    → (c == b'-') ≡ false
    → is_empty s ≡ false
    → ends_with_code b'-' s ≡ false
    → trim_matches b'-' (b'-' ∷ c ∷ b'-' ∷ s) ≡ c ∷ b'-' ∷ s
trim_matches-letter c [] h n k = ground arith
trim_matches-letter c (e ∷ s) h n k = rw h (trim_end_matches-id b'-' (c ∷ b'-' ∷ e ∷ s) k)

parse_by_code-behind :
    (code text : Str)
    → parse_by_code code (code ++ text)
      ≡ (from_str (trim_matches b'-' text) >>= (λ name. ok (record { code = code; name = name })))
unfolding parse_by_code
parse_by_code-behind code text = rw (strip_prefix-append code text) refl

-- An id with a name that is neither empty nor ends with a dash is read back from its text,
-- anonymous or named; the text of a singleton is refused.
pub parse_by_code-display_id :
    (code text : Str)
    → is_empty text ≡ false
    → ends_with_code b'-' text ≡ false
    → (parse_by_code code (display_id (record { code = code; name = anon text }))
        ≡ ok (record { code = code; name = anon text }))
      × (parse_by_code code (display_id (record { code = code; name = named text }))
          ≡ ok (record { code = code; name = named text }))
      × (parse_by_code code (display_id (record { code = code; name = mono })) ≡ err invalid_prefix)
unfolding display_id display_name from_str split_dash split_once
parse_by_code-display_id code text n k = (
  rw (parse_by_code-behind, trim_matches-letter b'a' text refl n k) refl,
  rw (parse_by_code-behind, trim_matches-letter b'n' text refl n k, n) refl,
  rw parse_by_code-behind refl,
)

-- From the file stem of an id whose code and text have no dot, the id comes back, but an anonymous
-- instance as one that is named by its uid.
from_file_stem-as_file_stem :
    (code text : Str)
    → any (λ c. c == b'.') code ≡ false
    → any (λ c. c == b'.') text ≡ false
    → (from_file_stem (as_file_stem (record { code = code; name = named text }))
        ≡ record { code = code; name = named text })
      × (from_file_stem (as_file_stem (record { code = code; name = mono }))
          ≡ record { code = code; name = mono })
      × (from_file_stem (as_file_stem (record { code = code; name = anon text }))
          ≡ record { code = code; name = named text })
unfolding from_file_stem as_file_stem
from_file_stem-as_file_stem code text h k = (
  rw (split-behind b'.' code text h, split-whole b'.' text k) refl,
  rw (split-whole b'.' code h) refl,
  rw (split-behind b'.' code text h, split-whole b'.' text k) refl,
)
