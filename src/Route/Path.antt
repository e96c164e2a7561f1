-- ===== src/Route/Path.antt =====
-- The path of crates/kernel/src/service/http_route/match_request.rs: `HttpPathMatchRewrite`.

pub mod Segments
pub mod Laws
use spacegate.Common.{
  Str, str_eq, eq_ignore_ascii_case, split, is_empty, not, keep, trim_matches, trim_start_matches,
  ends_with_code, Bool, true, false, if◌then◌else◌, Option, none, some, List, [], ◌∷◌, ◌++◌,
}
use spacegate.Route.Request.{Http}

-- `split('/').filter(|s| !s.is_empty())`
unfoldable pub path_segments : Str → List Str
unfolding split
path_segments path = keep (λ s. not (is_empty s)) (split b'/' path)

-- The loop of `match_request` for a prefix.
unfoldable pub match_segments : List Str → List Str → Bool
match_segments path [] = true
match_segments [] (q ∷ prefix) = false
match_segments (p ∷ path) (q ∷ prefix) =
    let rest = match_segments path prefix in if eq_ignore_ascii_case p q then rest else false

-- `for seg in path_segments { push('/'); push_str(seg) }`
abbrev pub push_segments : List Str → Str
push_segments [] = []
push_segments (s ∷ ss) = b'/' ∷ (s ++ push_segments ss)

-- The rewritten path, where the prefix is used up before a segment `first`.
abbrev pub rewritten : Str → Str → Str → List Str → Str
rewritten path replace first rest =
    let value = trim_matches b'/' replace in
    let slash = if is_empty value then [] else b'/' ∷ [] in
    let last = if ends_with_code b'/' path then b'/' ∷ [] else [] in
    b'/' ∷ (value ++ (slash ++ (first ++ (push_segments rest ++ last))))

-- The loop of `rewrite` for a prefix.
unfoldable pub rewrite_segments : Str → Str → List Str → List Str → Option Str
rewrite_segments path replace (p ∷ segments) (q ∷ prefix) =
    let rest = rewrite_segments path replace segments prefix in
    if eq_ignore_ascii_case p q then rest else none
rewrite_segments path replace [] [] = some (b'/' ∷ trim_start_matches b'/' replace)
rewrite_segments path replace (p ∷ segments) [] = some (rewritten path replace p segments)
rewrite_segments path replace [] (q ∷ prefix) = none

module _ (h : Http) where
  open h use {Regex, is_match, replace}

  pub data HttpPathMatchRewrite : Type 0 where
    exact : Str → Option Str → HttpPathMatchRewrite
    prefix : Str → Option Str → HttpPathMatchRewrite
    reg_exp : Regex → Option Str → HttpPathMatchRewrite

  unfoldable pub replace_with : HttpPathMatchRewrite → Str → HttpPathMatchRewrite
  replace_with (exact path r) value = exact path (some value)
  replace_with (prefix path r) value = prefix path (some value)
  replace_with (reg_exp re r) value = reg_exp re (some value)

  unfoldable pub rewrite : HttpPathMatchRewrite → Str → Option Str
  unfolding rewrite_segments path_segments
  rewrite (exact m (some value)) path = if eq_ignore_ascii_case value path then some value else none
  rewrite (prefix m (some value)) path =
      rewrite_segments path value (path_segments path) (path_segments m)
  rewrite (reg_exp re (some value)) path = some (replace re path value)
  rewrite (exact m none) path = none
  rewrite (prefix m none) path = none
  rewrite (reg_exp re none) path = none

  unfoldable pub match_path : HttpPathMatchRewrite → Str → Bool
  unfolding match_segments path_segments
  match_path (exact m r) path = str_eq path m
  match_path (prefix m r) path = match_segments (path_segments path) (path_segments m)
  match_path (reg_exp re r) path = is_match re path

-- crates/plugin/src/model.rs: the modifier of the rewrite and redirect plugins.
pub data SgHttpPathModifierType : Type 0 where
  replace_full_path replace_prefix_match replace_regex : SgHttpPathModifierType

pub record SgHttpPathModifier : Type 0 where
  pub kind : SgHttpPathModifierType
  pub value : Str

module _ (h : Http) where
  -- `SgHttpPathModifier::replace`
  unfoldable pub modifier_replace :
      SgHttpPathModifierType → Str → Str → HttpPathMatchRewrite h → Option Str
  unfolding rewrite_segments path_segments
  modifier_replace replace_full_path value path m =
      if eq_ignore_ascii_case value path then some value else none
  modifier_replace replace_prefix_match value path (prefix m r) =
      rewrite_segments path value (path_segments path) (path_segments m)
  modifier_replace replace_regex value path (reg_exp re r) = some (h.replace re path value)
  modifier_replace kind value path m = none
