-- ===== src/Wasm/SharedQueue/Calls.antt =====
-- Sequences of calls of the shared queues, with what they put in and take out.
use spacegate.Common.{ℕ, suc, ◌<◌, ◌≡◌, ◌==◌, if◌then◌else◌, Str, none, some, List, [], ◌∷◌, ◌++◌}
use spacegate.Wasm.SharedQueue.{
  SharedQueueRegistry, done, not_found, empty, find_queue, queue_register, queue_enqueue,
  queue_dequeue,
}

pub data QueueCall : Type 0 where
  register : Str → Str → QueueCall
  enqueue : ℕ → Str → QueueCall
  dequeue : ℕ → QueueCall

unfoldable pub step : QueueCall → SharedQueueRegistry → SharedQueueRegistry
unfolding queue_register queue_enqueue queue_dequeue
step (register vm_id name) g = (queue_register vm_id name g).1
step (enqueue qid value) g = (queue_enqueue qid value g).1
step (dequeue qid) g = (queue_dequeue qid g).1

unfoldable pub run : List QueueCall → SharedQueueRegistry → SharedQueueRegistry
run [] g = g
run (call ∷ calls) g = run calls (step call g)

-- The value that a call puts into a queue.
unfoldable pub sent_by : ℕ → QueueCall → SharedQueueRegistry → List Str
unfolding queue_enqueue
sent_by q (register vm_id name) g = []
sent_by q (enqueue qid value) g = elim (queue_enqueue qid value g).0 [
  | done ↦ if q == qid then value ∷ [] else []
  | not_found ↦ []
  | empty ↦ []
]
sent_by q (dequeue qid) g = []

-- The value that a call takes out of a queue.
unfoldable pub taken_by : ℕ → QueueCall → SharedQueueRegistry → List Str
unfolding queue_dequeue
taken_by q (register vm_id name) g = []
taken_by q (enqueue qid value) g = []
taken_by q (dequeue qid) g = elim (queue_dequeue qid g).0.1 [
  | some value ↦ if q == qid then value ∷ [] else []
  | none ↦ []
]

unfoldable pub sent : ℕ → List QueueCall → SharedQueueRegistry → List Str
sent q [] g = []
sent q (call ∷ calls) g = sent_by q call g ++ sent q calls (step call g)

unfoldable pub taken : ℕ → List QueueCall → SharedQueueRegistry → List Str
taken q [] g = []
taken q (call ∷ calls) g = taken_by q call g ++ taken q calls (step call g)

-- A queue that does not exist has no contents.
unfoldable pub contents : ℕ → SharedQueueRegistry → List Str
contents q g = elim (find_queue q g) [ none ↦ [] | some queue ↦ queue ]

unfoldable pub registrations : List QueueCall → ℕ
registrations [] = 0
registrations (register vm_id name ∷ calls) = suc (registrations calls)
registrations (enqueue qid value ∷ calls) = registrations calls
registrations (dequeue qid ∷ calls) = registrations calls

-- Every queue has an id that was given out.
abbrev pub Bounded : SharedQueueRegistry → Type 0
Bounded g = (q : ℕ) → g.next_id < q → find_queue q g ≡ none
