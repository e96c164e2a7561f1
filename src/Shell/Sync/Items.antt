-- ===== src/Shell/Sync/Items.antt =====
-- The items that a store gives for its names.
use spacegate.Common.{
  ◌≡◌, refl, sym, ap, ◌∙◌, arith, ◌⊎◌, Str, str_eq, str_eq_iff, str_eq_sound, Bool, true, false,
  any, if◌then◌else◌, Option, none, some, List, [], ◌∷◌, Bool-cases, inl, inr,
}
use spacegate.Common.Assoc.{get, put, get-put}
use spacegate.Common.Unique.{Unique, put-Unique}
use spacegate.Common.Result.{ok, err, Result-cases, ok-injective}
use spacegate.Shell.Retrieve.{Kernel, Retrieve, ConfigItem, retrieve_config_item, add_items}
use spacegate.Shell.Sync.{item_of}

if-both {ℓ} : {A : Type ℓ} (b : Bool) (x y : A) → y ≡ x → (if b then x else y) ≡ x
if-both true x y h = refl
if-both false x y h = h

module _ (k : Kernel) where
  add_items-none :
      (r : Retrieve k) (j : Str) (names : List Str) (items : List (Str × ConfigItem k))
      → retrieve_config_item k r j ≡ ok none
      → add_items k r (j ∷ names) items ≡ add_items k r names items
  unfolding add_items
  add_items-none r j names items f = rw (add_items, f) refl

  add_items-some :
      (r : Retrieve k) (j : Str) (names : List Str) (items : List (Str × ConfigItem k))
      (i : ConfigItem k)
      → retrieve_config_item k r j ≡ ok (some i)
      → add_items k r (j ∷ names) items ≡ add_items k r names (put str_eq j i items)
  unfolding add_items
  add_items-some r j names items i f = rw (add_items, f) refl

  add_items-err :
      (r : Retrieve k) (j : Str) (names : List Str) (items : List (Str × ConfigItem k))
      (x : k.BoxError)
      → retrieve_config_item k r j ≡ err x
      → add_items k r (j ∷ names) items ≡ err x
  unfolding add_items
  add_items-err r j names items x f = rw (add_items, f) refl

  -- What a map has for a name agrees with the store.
  abbrev Agrees : Retrieve k → Str → List (Str × ConfigItem k) → Type 0
  Agrees r n items =
      (get str_eq n items ≡ none) ⊎ (get str_eq n items ≡ item_of k (retrieve_config_item k r n))

  -- The item of a name that is listed.
  item_at :
      (r : Retrieve k) (n j : Str) (o : Option (ConfigItem k))
      → retrieve_config_item k r j ≡ ok o
      → str_eq n j ≡ true
      → item_of k (retrieve_config_item k r n) ≡ o
  item_at r n j o f e =
      ap (λ m. item_of k (retrieve_config_item k r m)) (str_eq_sound n j e) ∙ ap (item_of k) f

  -- The items of the names, over those that were there.
  pub add_items-get :
      (r : Retrieve k) (n : Str) (names : List Str) (items all : List (Str × ConfigItem k))
      → Agrees r n items
      → add_items k r names items ≡ ok all
      → get str_eq n all ≡ (
          if any (str_eq n) names
          then item_of k (retrieve_config_item k r n)
          else get str_eq n items)
  unfolding add_items
  add_items-get r n [] items all h e = ground arith
  add_items-get r n (j ∷ names) items all h e = elim (Result-cases (retrieve_config_item k r j)) [
    | inl (none, f) ↦
        let rest =
          add_items-get r n names items all h (sym (add_items-none r j names items f) ∙ e) in
        elim (Bool-cases (str_eq n j)) [
          | inl same ↦
              let absent = item_at r n j none f same in
              let now : get str_eq n items ≡ item_of k (retrieve_config_item k r n) = elim h [
                | inl a ↦ a ∙ sym absent
                | inr a ↦ a
              ] in
              rw same (rest ∙ if-both (any (str_eq n) names) _ _ now)
          | inr other ↦ rw other rest
        ]
    | inl (some i, f) ↦
        let put_ = get-put str_eq str_eq_iff j n i items in
        elim (Bool-cases (str_eq n j)) [
          | inl same ↦
              let now =
                put_
                ∙ ap (λ b. if b then some i else get str_eq n items) same
                ∙ sym (item_at r n j (some i) f same) in
              let rest =
                add_items-get r n names (put str_eq j i items) all (inr now)
                  (sym (add_items-some r j names items i f) ∙ e) in
              rw same (rest ∙ if-both (any (str_eq n) names) _ _ now)
          | inr other ↦
              let now = put_ ∙ ap (λ b. if b then some i else get str_eq n items) other in
              let agrees : Agrees r n (put str_eq j i items) = elim h [
                | inl a ↦ inl (now ∙ a)
                | inr a ↦ inr (now ∙ a)
              ] in
              let rest =
                add_items-get r n names (put str_eq j i items) all agrees
                  (sym (add_items-some r j names items i f) ∙ e) in
              rw other (
                rest
                ∙ ap
                    (λ o.
                      if any (str_eq n) names then item_of k (retrieve_config_item k r n) else o)
                    now)
        ]
    | inr (x, f) ↦ let none_left = sym (add_items-err r j names items x f) ∙ e in ground arith
  ]

  pub add_items-Unique :
      (r : Retrieve k) (names : List Str) (items all : List (Str × ConfigItem k))
      → Unique str_eq items
      → add_items k r names items ≡ ok all
      → Unique str_eq all
  unfolding add_items
  add_items-Unique r [] items all u e = rw (sym (ok-injective items all e)) u
  add_items-Unique r (j ∷ names) items all u e = elim (Result-cases (retrieve_config_item k r j)) [
    | inl (none, f) ↦
        add_items-Unique r names items all u (sym (add_items-none r j names items f) ∙ e)
    | inl (some i, f) ↦
        add_items-Unique r names (put str_eq j i items) all
          (put-Unique str_eq str_eq_iff j i items u) (sym (add_items-some r j names items i f) ∙ e)
    | inr (x, f) ↦ let none_left = sym (add_items-err r j names items x f) ∙ e in ground arith
  ]
