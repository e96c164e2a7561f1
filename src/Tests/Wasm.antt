-- ===== src/Tests/Wasm.antt =====
-- The data and queues that modules share, at concrete inputs.
use spacegate.Common.{
  arith, ℕ, ◌≡◌, refl, codes, ◌==◌, if◌then◌else◌, none, some, List, [], ◌∷◌, ◌++◌,
}
use spacegate.Wasm.SharedData.{SharedDataStore, ok, cas_mismatch, shared_data_get, shared_data_set}
use spacegate.Wasm.SharedData.Laws.{SetCall, run, accepted_sets, run-stale}
use spacegate.Wasm.SharedQueue.{default_registry}
use spacegate.Wasm.SharedQueue.Calls.{QueueCall, register, enqueue, dequeue, sent, taken, contents}
use spacegate.Wasm.SharedQueue.Fifo.{run-fifo}

abbrev empty_store : SharedDataStore
empty_store = []

-- A refused set of a key that is not there makes the key.
made_by_refusal :
    shared_data_get (codes "k") (shared_data_set (codes "k") (codes "v") 5 empty_store).1
    ≡ some (codes "", 0)
unfolding shared_data_get shared_data_set spacegate.Wasm.SharedData.entry_or_default
    spacegate.Common.Assoc.get spacegate.Common.Assoc.put
made_by_refusal = refl

abbrev stored : SharedDataStore
stored = (codes "k", record { value = codes "v1"; cas = 1 }) ∷ []

abbrev one_set : List SetCall
one_set = record { key = codes "k"; value = codes "v2"; cas = 0 } ∷ []

run-stale_example :
    (shared_data_set (codes "k") (codes "v3") 1 (run one_set stored)).0
    ≡ (if accepted_sets (codes "k") one_set stored == 0 then ok else cas_mismatch)
unfolding accepted_sets shared_data_get spacegate.Common.Assoc.get
    spacegate.Wasm.SharedData.Laws.call_set shared_data_set
    spacegate.Wasm.SharedData.entry_or_default
run-stale_example =
    run-stale (codes "k") (codes "v1") (codes "v3") 1 one_set stored refl (omega arith)
      (omega arith) (omega arith)

abbrev queue_calls : List QueueCall
queue_calls =
    register (codes "default") (codes "jobs")
    ∷ enqueue 1 (codes "a")
    ∷ enqueue 1 (codes "b")
    ∷ enqueue 2 (codes "c")
    ∷ dequeue 1
    ∷ []

run-fifo_example :
    sent 1 queue_calls default_registry
    ≡ taken 1 queue_calls default_registry
      ++ contents 1 (spacegate.Wasm.SharedQueue.Calls.run queue_calls default_registry)
unfolding spacegate.Wasm.SharedQueue.Calls.registrations
run-fifo_example = run-fifo queue_calls 1 (omega arith)
