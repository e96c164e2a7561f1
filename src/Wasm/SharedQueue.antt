-- ===== src/Wasm/SharedQueue.antt =====
-- crates/plugin-wasm/src/shared.rs: the queues that the modules share.
-- The lock is held over each operation, so that operations are steps; no thread panics with it.
pub mod Calls
mod Step
pub mod Fifo
use spacegate.Common.{
  ℕ, ◌+◌, ◌%◌, ◌^◌, max, ◌==◌, Str, str_eq, Bool, ◌&&◌, Option, none, some, List, [], ◌∷◌, ◌++◌,
}
use spacegate.Common.Assoc.{get, put}

-- `by_name` is keyed by the id of a virtual machine and a name.
pub record SharedQueueRegistry : Type 0 where
  pub by_id : List (ℕ × List Str)
  pub by_name : List ((Str × Str) × ℕ)
  pub next_id : ℕ

abbrev pub default_registry : SharedQueueRegistry
default_registry = record { by_id = []; by_name = []; next_id = 0 }

pub data QueueOpResult : Type 0 where
  done : QueueOpResult
  not_found : QueueOpResult
  empty : QueueOpResult

abbrev pub name_eq : Str × Str → Str × Str → Bool
name_eq (vm, name) (vm', name') = str_eq vm vm' && str_eq name name'

abbrev id_eq : ℕ → ℕ → Bool
id_eq i j = i == j

abbrev pub find_queue : ℕ → SharedQueueRegistry → Option (List Str)
unfolding get
find_queue qid g = get id_eq qid g.by_id

abbrev pub set_queue : ℕ → List Str → SharedQueueRegistry → SharedQueueRegistry
unfolding put
set_queue qid queue g = record g { by_id = put id_eq qid queue g.by_id }

-- `wrapping_add(1).max(1)` of a `u32`
abbrev pub next_qid : ℕ → ℕ
next_qid id = max ((id + 1) % 2 ^ 32) 1

unfoldable pub queue_resolve : Str → Str → SharedQueueRegistry → Option ℕ
unfolding get
queue_resolve vm_id name g = get name_eq (vm_id, name) g.by_name

unfoldable pub queue_register : Str → Str → SharedQueueRegistry → ℕ × SharedQueueRegistry
unfolding get put
queue_register vm_id name g =
    let qid = next_qid g.next_id in
    elim (get name_eq (vm_id, name) g.by_name) [
      | some known ↦ (known, g)
      | none ↦ (
        qid,
        record {
          by_id = put id_eq qid [] g.by_id;
          by_name = put name_eq (vm_id, name) qid g.by_name;
          next_id = qid;
        },
      )
    ]

unfoldable pub queue_enqueue : ℕ → Str → SharedQueueRegistry → QueueOpResult × SharedQueueRegistry
queue_enqueue qid value g = elim (find_queue qid g) [
  | some queue ↦ (done, set_queue qid (queue ++ value ∷ []) g)
  | none ↦ (not_found, g)
]

unfoldable pub queue_dequeue :
    ℕ → SharedQueueRegistry → (QueueOpResult × Option Str) × SharedQueueRegistry
queue_dequeue qid g = elim (find_queue qid g) [
  | some [] ↦ ((empty, none), g)
  | some (value ∷ queue) ↦ ((done, some value), set_queue qid queue g)
  | none ↦ ((not_found, none), g)
]
