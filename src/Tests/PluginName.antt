-- ===== src/Tests/PluginName.antt =====
-- The text forms of plugin ids at concrete inputs.
use spacegate.Common.{◌≡◌, refl, codes, split, split_once}
use spacegate.Common.Result.{ok, err}
use spacegate.Plugin.Instance.{anon, named, mono}
use spacegate.Plugin.Name.{
  invalid_prefix, display_name, from_str, split_dash, display_id, parse_by_code, as_file_stem,
  from_file_stem,
}
use spacegate.Plugin.Name.Laws.{parse_by_code-display_id}

singleton : display_id (record { code = codes "limit"; name = mono }) ≡ codes "limit-m"
unfolding display_id display_name
singleton = refl

singleton_in : from_str (codes "g") ≡ ok mono
unfolding from_str split_dash split_once
singleton_in = refl

-- A name with a dot is cut there.
dotted :
    from_file_stem (as_file_stem (record { code = codes "limit"; name = named (codes "a.b") }))
    ≡ record { code = codes "limit"; name = named (codes "a") }
unfolding from_file_stem as_file_stem split
dotted = refl

parse_by_code-display_id_example :
    (parse_by_code
        (codes "limit")
        (display_id (record { code = codes "limit"; name = anon (codes "x-1") }))
      ≡ ok (record { code = codes "limit"; name = anon (codes "x-1") }))
    × (parse_by_code
          (codes "limit")
          (display_id (record { code = codes "limit"; name = named (codes "x-1") }))
        ≡ ok (record { code = codes "limit"; name = named (codes "x-1") }))
    × (parse_by_code (codes "limit") (display_id (record { code = codes "limit"; name = mono }))
        ≡ err invalid_prefix)
parse_by_code-display_id_example = parse_by_code-display_id (codes "limit") (codes "x-1") refl refl
