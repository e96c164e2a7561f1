-- ===== src/Wasm/SharedData/Laws.antt =====
-- Compare and swap over sequences of sets.
use spacegate.Common.{
  ap, sym, ℕ, suc, ◌<◌, ◌≡◌, refl, arith, ◌==◌, if◌then◌else◌, Str, str_eq, str_eq_iff,
  str_eq_sound, not, Option-cases, Bool, true, false, ◌&&◌, some, List, [], ◌∷◌, Bool-cases, inl,
  inr,
}
use spacegate.Common.Assoc.{get, put, get-put}
use spacegate.Wasm.SharedData.{
  SharedDataEntry, SharedDataStore, SharedDataSetResult, ok, cas_mismatch, shared_data_get,
  next_cas, entry_or_default, shared_data_set,
}
use spacegate.Wasm.SharedData.Cas.{cas_after, cas_after-fresh}

-- A call of `shared_data_set`: key, value and counter.
pub record SetCall : Type 0 where
  pub key : Str
  pub value : Str
  pub cas : ℕ

unfoldable pub call_set : SetCall → SharedDataStore → SharedDataSetResult × SharedDataStore
unfolding shared_data_set
call_set call store = shared_data_set call.key call.value call.cas store

unfoldable pub run : List SetCall → SharedDataStore → SharedDataStore
run [] store = store
run (call ∷ calls) store = run calls (call_set call store).1

abbrev pub is_ok : SharedDataSetResult → Bool
is_ok ok = true
is_ok cas_mismatch = false

-- The test of `shared_data_set`.
abbrev refused : SetCall → SharedDataStore → Bool
unfolding entry_or_default
refused call store = not (call.cas == 0) && not (call.cas == (entry_or_default call.key store).cas)

-- How many of the calls set the key.
unfoldable pub accepted_sets : Str → List SetCall → SharedDataStore → ℕ
accepted_sets key [] store = 0
accepted_sets key (call ∷ calls) store =
    let (result, store') = call_set call store in
    let rest = accepted_sets key calls store' in
    if str_eq key call.key && is_ok result then suc rest else rest

-- The counter that a set of the key compares with.
unfoldable pub cas_of : Str → SharedDataStore → ℕ
cas_of key store = (entry_or_default key store).cas

entry-put :
    (key j : Str) (e : SharedDataEntry) (store : SharedDataStore)
    → entry_or_default j (put str_eq key e store)
      ≡ (if str_eq j key then e else entry_or_default j store)
unfolding entry_or_default
entry-put key j e store = elim (Bool-cases (str_eq j key)) [
  | inl same ↦ rw (entry_or_default, get-put str_eq str_eq_iff key j e store, same) refl
  | inr other ↦ rw (entry_or_default, get-put str_eq str_eq_iff key j e store, other) refl
]

cas_of-set :
    (call : SetCall) (j : Str) (store : SharedDataStore)
    → cas_of j (call_set call store).1 ≡ (
        if str_eq j call.key && is_ok (call_set call store).0
        then next_cas (cas_of j store)
        else cas_of j store)
unfolding cas_of shared_data_set call_set
cas_of-set call j store = elim (Bool-cases (refused call store)) [
  | inl f ↦ elim (Bool-cases (str_eq j call.key)) [
    | inl same ↦
        rw (shared_data_set, f, cas_of, entry-put call.key j, same)
          (ap (λ k. cas_of k store) (sym (str_eq_sound j call.key same)))
    | inr other ↦ rw (shared_data_set, f, cas_of, entry-put call.key j, other) refl
  ]
  | inr t ↦ elim (Bool-cases (str_eq j call.key)) [
    | inl same ↦
        rw (shared_data_set, t, cas_of, entry-put call.key j, same)
          (ap (λ k. next_cas (cas_of k store)) (sym (str_eq_sound j call.key same)))
    | inr other ↦ rw (shared_data_set, t, cas_of, entry-put call.key j, other) refl
  ]
]

cas_of-run :
    (calls : List SetCall) (key : Str) (store : SharedDataStore)
    → cas_of key (run calls store) ≡ cas_after (accepted_sets key calls store) (cas_of key store)
unfolding run accepted_sets
cas_of-run [] key store = refl
cas_of-run (call ∷ calls) key store =
    elim (Bool-cases (str_eq key call.key && is_ok (call_set call store).0)) [
      | inl set ↦
          rw (cas_of-run calls key (call_set call store).1, cas_of-set call key store, set) refl
      | inr other ↦
          rw (cas_of-run calls key (call_set call store).1, cas_of-set call key store, other) refl
    ]

cas_of-get :
    (key value : Str) (cas : ℕ) (store : SharedDataStore)
    → shared_data_get key store ≡ some (value, cas)
    → cas_of key store ≡ cas
unfolding cas_of entry_or_default shared_data_get
cas_of-get key value cas store h = elim (Option-cases (get str_eq key store)) [
  | inl n ↦ ground arith
  | inr (e, n) ↦ ground arith
]

set-result :
    (key value : Str) (cas : ℕ) (store : SharedDataStore)
    → 0 < cas
    → (shared_data_set key value cas store).0
      ≡ (if cas == cas_of key store then ok else cas_mismatch)
unfolding shared_data_set cas_of
set-result key value cas store p = ground arith

-- For a key that was read with a counter that is not 0, a set with that counter, after any sets of
-- any keys among which fewer than 2 ^ 32 - 1 set the key, succeeds where none of them did and
-- fails where one did.
pub run-stale :
    (key seen value : Str) (cas : ℕ) (calls : List SetCall) (store : SharedDataStore)
    → shared_data_get key store ≡ some (seen, cas)
    → 0 < cas
    → cas < 4294967296
    → accepted_sets key calls store < 4294967295
    → (shared_data_set key value cas (run calls store)).0
      ≡ (if accepted_sets key calls store == 0 then ok else cas_mismatch)
run-stale key seen value cas calls store h p q k =
    let now = cas_of-run calls key store in
    let before = cas_of-get key seen cas store h in
    let n = accepted_sets key calls store in
    ground
      (arith, set-result key value cas (run calls store) p, now, before, cas_after-fresh n cas p q)
