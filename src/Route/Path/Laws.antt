-- ===== src/Route/Path/Laws.antt =====
-- The prefix of a route: which paths it takes, and what `rewrite` makes of them.
use mathlib.Core.List.{append-nil}
use spacegate.Common.{
  ◌≡◌, ◌↔◌, refl, sym, ap, ◌∙◌, Str, eq_ignore_ascii_case, str_eq_iff, to_ascii_lowercase, split,
  is_empty, trim_matches, trim_start_matches, ends_with_code, map, Bool, true, false, if◌then◌else◌,
  Option, none, some, List, [], ◌∷◌, ◌++◌, arith, All, length, drop, Bool-cases, inl, inr,
}
use spacegate.Route.Request.{Http}
use spacegate.Route.Path.{
  path_segments, push_segments, match_segments, rewritten, rewrite_segments, HttpPathMatchRewrite,
  exact, prefix, rewrite, match_path, modifier_replace, replace_full_path,
}
use spacegate.Route.Path.Segments.{
  IsSegment, IsEnd, no_slash, slash, path_segments-push, path_segments-append_slash,
  path_segments-slash, path_segments-trim, path_segments-segment, is_empty-nil,
  path_segments-trim_start, path_segments-IsSegment,
}

-- The path begins with the prefix, case of letters aside.
abbrev pub BeginsWith : List Str → List Str → Type 0
BeginsWith path front =
    (rest : List Str) × (map to_ascii_lowercase path
      ≡ map to_ascii_lowercase front ++ map to_ascii_lowercase rest)

∷-head : {x y : Str} {xs ys : List Str} → x ∷ xs ≡ y ∷ ys → x ≡ y
∷-head e = cc

∷-tail : {x y : Str} {xs ys : List Str} → x ∷ xs ≡ y ∷ ys → xs ≡ ys
∷-tail e = cc

injected : {x y : Str} → some x ≡ some y → x ≡ y
injected e = cc

IsEnd-if : (b : Bool) → IsEnd (if b then b'/' ∷ [] else [])
IsEnd-if true = slash
IsEnd-if false = no_slash

match_segments_sound :
    (path front : List Str) → match_segments path front ≡ true → BeginsWith path front
unfolding match_segments
match_segments_sound path [] h = (path, refl)
match_segments_sound [] (q ∷ front) h = cc
match_segments_sound (p ∷ path) (q ∷ front) h = elim (Bool-cases (eq_ignore_ascii_case p q)) [
  | inl same ↦
      let (rest, e) = match_segments_sound path front (ground arith) in
      (
        rest,
        ap (λ a. a ∷ map to_ascii_lowercase path) ((str_eq_iff _ _).0 same)
            ∙ ap (◌∷◌ (to_ascii_lowercase q)) e,
      )
  | inr other ↦ cc (rw other at h)
]

match_segments_complete :
    (path front rest : List Str)
    → map to_ascii_lowercase path ≡ map to_ascii_lowercase front ++ map to_ascii_lowercase rest
    → match_segments path front ≡ true
unfolding match_segments
match_segments_complete path [] rest e = refl
match_segments_complete [] (q ∷ front) rest e = cc
match_segments_complete (p ∷ path) (q ∷ front) rest e =
    rw ((str_eq_iff _ _).1 (∷-head e)) (match_segments_complete path front rest (∷-tail e))

-- A prefix matches exactly the paths whose segments begin with its segments, ASCII case, doubled
-- slashes and slashes at the ends aside.
pub match_path-prefix_iff :
    (h : Http) (front path : Str) (value : Option Str)
    → (match_path h (prefix front value) path ≡ true)
      ↔ BeginsWith (path_segments path) (path_segments front)
unfolding match_path
match_path-prefix_iff h front path value = (
  match_segments_sound (path_segments path) (path_segments front),
  λ b. match_segments_complete (path_segments path) (path_segments front) b.0 b.1,
)

rewrite_segments-none :
    (path value : Str) (ps qs : List Str)
    → match_segments ps qs ≡ false
    → rewrite_segments path value ps qs ≡ none
unfolding rewrite_segments match_segments
rewrite_segments-none path value ps [] h = cc
rewrite_segments-none path value [] (q ∷ qs) h = refl
rewrite_segments-none path value (p ∷ ps) (q ∷ qs) h =
    ground (arith, rewrite_segments-none path value ps qs)

rewrite_segments-some :
    (path value : Str) (ps qs : List Str)
    → match_segments ps qs ≡ true
    → (new : Str) × (rewrite_segments path value ps qs ≡ some new)
unfolding rewrite_segments match_segments
rewrite_segments-some path value [] [] h = (_, refl)
rewrite_segments-some path value (p ∷ ps) [] h = (_, refl)
rewrite_segments-some path value [] (q ∷ qs) h = cc
rewrite_segments-some path value (p ∷ ps) (q ∷ qs) h =
    elim (Bool-cases (eq_ignore_ascii_case p q)) [
      | inl same ↦ rw same (rewrite_segments-some path value ps qs (rw same at h))
      | inr other ↦ cc (rw other at h)
    ]

-- A prefix with a replacement rewrites every path that it matches and none that it does not.
pub rewrite-match_path :
    (h : Http) (front value path : Str)
    → (match_path h (prefix front (some value)) path ≡ true
        → (new : Str) × (rewrite h (prefix front (some value)) path ≡ some new))
      × (match_path h (prefix front (some value)) path ≡ false
          → rewrite h (prefix front (some value)) path ≡ none)
unfolding match_path rewrite
rewrite-match_path h front value path = (
  rewrite_segments-some path value (path_segments path) (path_segments front),
  rewrite_segments-none path value (path_segments path) (path_segments front),
)

path_segments-nil : path_segments [] ≡ []
unfolding path_segments split
path_segments-nil = refl

path_segments-rewritten :
    (path value first : Str) (rest : List Str)
    → All IsSegment (first ∷ rest)
    → path_segments (rewritten path value first rest) ≡ path_segments value ++ first ∷ rest
path_segments-rewritten path value first rest h =
    elim (Bool-cases (is_empty (trim_matches b'/' value))) [
      | inl bare ↦
          let nothing : trim_matches b'/' value ≡ [] =
            is_empty-nil (trim_matches b'/' value) bare in
          rw bare (
            path_segments-slash (
              trim_matches b'/' value
              ++ (first
                  ++ (push_segments rest ++ (if ends_with_code b'/' path then b'/' ∷ [] else []))))
            ∙ ap
                (λ t. path_segments (
                  t
                  ++ (first
                      ++ (push_segments rest
                          ++ (if ends_with_code b'/' path then b'/' ∷ [] else [])))))
                nothing
            ∙ tail_of
            ∙ ap (λ t. t ++ first ∷ rest) (sym path_segments-nil)
            ∙ ap (λ t. path_segments t ++ first ∷ rest) (sym nothing)
            ∙ ap (λ t. t ++ first ∷ rest) (path_segments-trim value))
      | inr some_value ↦ rw some_value (
          path_segments-slash (
            trim_matches b'/' value
            ++ b'/'
              ∷ (first
                  ++ (push_segments rest ++ (if ends_with_code b'/' path then b'/' ∷ [] else []))))
          ∙ path_segments-append_slash (trim_matches b'/' value) (
              first ++ (push_segments rest ++ (if ends_with_code b'/' path then b'/' ∷ [] else [])))
          ∙ ap (◌++◌ (path_segments (trim_matches b'/' value))) tail_of
          ∙ ap (λ t. t ++ first ∷ rest) (path_segments-trim value))
    ]
  where
    tail_of :
        path_segments
          (first ++ (push_segments rest ++ (if ends_with_code b'/' path then b'/' ∷ [] else [])))
        ≡ first ∷ rest
    tail_of =
        path_segments-push first rest (IsEnd-if (ends_with_code b'/' path)) h.1
        ∙ ap (λ t. t ++ rest) (path_segments-segment first h.0)

path_segments-rewrite_segments :
    (path value new : Str) (ps qs : List Str)
    → All IsSegment ps
    → rewrite_segments path value ps qs ≡ some new
    → path_segments new ≡ path_segments value ++ drop (length qs) ps
unfolding rewrite_segments
path_segments-rewrite_segments path value new [] [] h e =
    ap path_segments (sym (injected e))
    ∙ path_segments-slash (trim_start_matches b'/' value)
    ∙ path_segments-trim_start value
    ∙ sym (append-nil (path_segments value))
path_segments-rewrite_segments path value new (p ∷ ps) [] h e =
    ap path_segments (sym (injected e)) ∙ path_segments-rewritten path value p ps h
path_segments-rewrite_segments path value new [] (q ∷ qs) h e = cc
path_segments-rewrite_segments path value new (p ∷ ps) (q ∷ qs) h e =
    elim (Bool-cases (eq_ignore_ascii_case p q)) [
      | inl same ↦
          path_segments-rewrite_segments path value new ps qs h.1 (rw (same, rewrite_segments) at e)
      | inr other ↦ cc (rw (other, rewrite_segments) at e)
    ]

-- A path that a prefix rule rewrites has the segments of the replacement followed by the segments
-- that the prefix leaves over.
pub path_segments-rewrite :
    (h : Http) (front value path new : Str)
    → rewrite h (prefix front (some value)) path ≡ some new
    → path_segments new
      ≡ path_segments value ++ drop (length (path_segments front)) (path_segments path)
unfolding rewrite
path_segments-rewrite h front value path new e =
    path_segments-rewrite_segments path value new (path_segments path) (path_segments front)
      (path_segments-IsSegment path) e

full_path_kept :
    (value path new : Str)
    → (if eq_ignore_ascii_case value path then some value else none) ≡ some new
    → to_ascii_lowercase new ≡ to_ascii_lowercase path
full_path_kept value path new e = elim (Bool-cases (eq_ignore_ascii_case value path)) [
  | inl same ↦
      ap to_ascii_lowercase (sym (injected (rw same at e)))
      ∙ (str_eq_iff (to_ascii_lowercase value) (to_ascii_lowercase path)).0 same
  | inr other ↦ cc (rw other at e)
]

-- An exact rule with a replacement, and a modifier of the full path, change a path in the case of
-- its letters at most.
rewrite_full_path :
    (h : Http) (m value path new : Str) (rule : HttpPathMatchRewrite h)
    → (rewrite h (exact m (some value)) path ≡ some new
        → to_ascii_lowercase new ≡ to_ascii_lowercase path)
      × (modifier_replace h replace_full_path value path rule ≡ some new
          → to_ascii_lowercase new ≡ to_ascii_lowercase path)
unfolding rewrite modifier_replace
rewrite_full_path h m value path new rule =
    (full_path_kept value path new, full_path_kept value path new)
