-- ===== src/Wasm/SharedQueue/Step.antt =====
-- What one call does to the contents of every queue.
use mathlib.Core.List.{append-nil}
use spacegate.Common.{
  ℕ, ◌+◌, ◌≤◌, ◌<◌, ◌≡◌, refl, arith, ◌==◌, ==_iff, if◌then◌else◌, Str, some, List, [], ◌∷◌, ◌++◌,
  Option-cases, Bool-cases, inl, inr,
}
use spacegate.Common.Assoc.{get, put, get-put}
use spacegate.Wasm.SharedQueue.{
  SharedQueueRegistry, find_queue, set_queue, queue_register, queue_enqueue, queue_dequeue, name_eq,
  next_qid,
}
use spacegate.Wasm.SharedQueue.Calls.{enqueue, dequeue, sent_by, taken_by, contents, Bounded}

find-set :
    (q j : ℕ) (queue : List Str) (g : SharedQueueRegistry)
    → find_queue j (set_queue q queue g) ≡ (if j == q then some queue else find_queue j g)
unfolding find_queue get set_queue put
find-set q j queue g = get-put (λ a b. a == b) ==_iff q j queue g.by_id

-- A new queue has an id of its own, and is empty.
pub register-contents :
    (vm_id name : Str) (g : SharedQueueRegistry) (q : ℕ)
    → Bounded g
    → g.next_id + 1 < 4294967296
    → contents q (queue_register vm_id name g).1 ≡ contents q g
unfolding contents queue_register
register-contents vm_id name g q b h = elim (Option-cases (get name_eq (vm_id, name) g.by_name)) [
  | inl new ↦ rw (queue_register, new) (ground (arith, find-set (next_qid g.next_id) q [] g, b q))
  | inr (known, e) ↦ rw (queue_register, e) refl
]

pub register-next_id :
    (vm_id name : Str) (g : SharedQueueRegistry)
    → g.next_id + 1 < 4294967296
    → (queue_register vm_id name g).1.next_id ≤ g.next_id + 1
unfolding queue_register
register-next_id vm_id name g h = elim (Option-cases (get name_eq (vm_id, name) g.by_name)) [
  | inl new ↦ rw (queue_register, new) (omega arith)
  | inr (known, e) ↦ rw (queue_register, e) (omega arith)
]

pub register-Bounded :
    (vm_id name : Str) (g : SharedQueueRegistry)
    → Bounded g
    → g.next_id + 1 < 4294967296
    → Bounded (queue_register vm_id name g).1
unfolding queue_register
register-Bounded vm_id name g b h q = elim (Option-cases (get name_eq (vm_id, name) g.by_name)) [
  | inl new ↦
      rw (queue_register, new) (λ k. ground (arith, find-set (next_qid g.next_id) q [] g, b q))
  | inr (known, e) ↦ rw (queue_register, e) (b q)
]

pub enqueue-contents :
    (qid : ℕ) (value : Str) (g : SharedQueueRegistry) (q : ℕ)
    → contents q g ++ sent_by q (enqueue qid value) g ≡ contents q (queue_enqueue qid value g).1
unfolding contents queue_enqueue sent_by
enqueue-contents qid value g q = elim (Option-cases (find_queue qid g)) [
  | inl n ↦ rw (queue_enqueue, sent_by, n) (append-nil (contents q g))
  | inr (queue, e) ↦ elim (Bool-cases (q == qid)) [
    | inl same ↦ ground (arith, find-set qid q (queue ++ value ∷ []) g)
    | inr other ↦ ground (arith, find-set qid q (queue ++ value ∷ []) g, append-nil (contents q g))
  ]
]

pub dequeue-contents :
    (qid : ℕ) (g : SharedQueueRegistry) (q : ℕ)
    → contents q g ≡ taken_by q (dequeue qid) g ++ contents q (queue_dequeue qid g).1
unfolding contents queue_dequeue taken_by
dequeue-contents qid g q = elim (Option-cases (find_queue qid g)) [
  | inl n ↦ rw (queue_dequeue, taken_by, n) refl
  | inr ([], e) ↦ rw (queue_dequeue, taken_by, e) refl
  | inr (value ∷ queue, e) ↦ elim (Bool-cases (q == qid)) [
    | inl same ↦ ground (arith, find-set qid q queue g)
    | inr other ↦ ground (arith, find-set qid q queue g)
  ]
]

pub enqueue-Bounded :
    (qid : ℕ) (value : Str) (g : SharedQueueRegistry)
    → Bounded g
    → ((queue_enqueue qid value g).1.next_id ≡ g.next_id) × Bounded (queue_enqueue qid value g).1
unfolding queue_enqueue set_queue
enqueue-Bounded qid value g b = elim (Option-cases (find_queue qid g)) [
  | inl n ↦ rw (queue_enqueue, n) (refl, b)
  | inr (queue, e) ↦
      rw (queue_enqueue, e)
        (refl, λ q k. ground (arith, find-set qid q (queue ++ value ∷ []) g, b q))
]

pub dequeue-Bounded :
    (qid : ℕ) (g : SharedQueueRegistry)
    → Bounded g
    → ((queue_dequeue qid g).1.next_id ≡ g.next_id) × Bounded (queue_dequeue qid g).1
unfolding queue_dequeue set_queue
dequeue-Bounded qid g b = elim (Option-cases (find_queue qid g)) [
  | inl n ↦ rw (queue_dequeue, n) (refl, b)
  | inr ([], e) ↦ rw (queue_dequeue, e) (refl, b)
  | inr (value ∷ queue, e) ↦
      rw (queue_dequeue, e) (refl, λ q k. ground (arith, find-set qid q queue g, b q))
]
