-- ===== src/Plugin/Name.antt =====
-- crates/model/src/plugin.rs: the text forms of plugin instance names and ids.
pub mod Laws
use spacegate.Common.{
  if◌then◌else◌, Str, codes, str_eq, split, split_once, is_empty, trim_matches, Option, none, some,
  List, [], ◌∷◌, ◌++◌,
}
use spacegate.Common.Result.{Result, ok, err, of_option, ◌>>=◌}
use spacegate.Common.Parse.{strip_prefix}
use spacegate.Plugin.Instance.{PluginInstanceName, anon, named, mono, PluginInstanceId}

-- The errors of the source are texts.
pub data ParseError : Type 0 where
  unmatched_code : ParseError
  empty_string : ParseError
  missing_uid : ParseError
  missing_name : ParseError
  empty_name : ParseError
  invalid_prefix : ParseError

-- `Display for PluginInstanceName`
unfoldable pub display_name : PluginInstanceName → Str
display_name (anon uid) = codes "a-" ++ uid
display_name (named name) = codes "n-" ++ name
display_name mono = codes "m"

-- `splitn(2, '-')`: the first piece, and the rest behind a dash.
unfoldable pub split_dash : Str → Str × Option Str
unfolding split_once
split_dash s = elim (split_once b'-' s) [ none ↦ (s, none) | some (a, b) ↦ (a, some b) ]

-- `FromStr for PluginInstanceName`
unfoldable pub from_str : Str → Result ParseError PluginInstanceName
from_str s =
    let (prefix, rest) = split_dash s in
    if is_empty s
    then err empty_string
    else if str_eq prefix (codes "a")
    then elim rest [ none ↦ err missing_uid | some uid ↦ ok (anon uid) ]
    else if str_eq prefix (codes "n")
    then (elim rest [
      | none ↦ err missing_name
      | some name ↦ if is_empty name then err empty_name else ok (named name)
    ])
    else if str_eq prefix (codes "g")
    then ok mono
    else err invalid_prefix

-- `Display for PluginInstanceId`
unfoldable pub display_id : PluginInstanceId → Str
unfolding display_name
display_id id = id.code ++ b'-' ∷ display_name id.name

unfoldable pub parse_by_code : Str → Str → Result ParseError PluginInstanceId
unfolding strip_prefix from_str
parse_by_code code id = do
  text ← of_option unmatched_code (strip_prefix code id)
  name ← from_str (trim_matches b'-' text)
  ok (record { code = code; name = name })

unfoldable pub as_file_stem : PluginInstanceId → Str
as_file_stem id = elim id.name [
  | anon uid ↦ id.code ++ b'.' ∷ uid
  | named name ↦ id.code ++ b'.' ∷ name
  | mono ↦ id.code
]

-- The id of the pieces between dots; the code has at least one.
abbrev pub id_of_pieces : List Str → PluginInstanceId
id_of_pieces [] = record { code = []; name = mono }
id_of_pieces (code ∷ []) = record { code = code; name = mono }
id_of_pieces (code ∷ name ∷ pieces) = record { code = code; name = named name }

unfoldable pub from_file_stem : Str → PluginInstanceId
unfolding split
from_file_stem stem = id_of_pieces (split b'.' stem)
