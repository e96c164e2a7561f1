-- ===== src/Wasm/SharedQueue/Fifo.antt =====
-- Each shared queue gives the values in the order in which it took them.
use mathlib.Core.List.{append-nil, append_assoc}
use spacegate.Common.{ℕ, ◌+◌, ◌≤◌, ◌<◌, ◌≡◌, refl, sym, ap, ◌∙◌, arith, Str, List, [], ◌∷◌, ◌++◌}
use spacegate.Common.Assoc.{get}
use spacegate.Wasm.SharedQueue.{SharedQueueRegistry, default_registry, find_queue}
use spacegate.Wasm.SharedQueue.Calls.{
  QueueCall, register, enqueue, dequeue, step, run, sent_by, taken_by, sent, taken, contents,
  registrations, Bounded,
}
use spacegate.Wasm.SharedQueue.Step.{
  register-contents, register-next_id, register-Bounded, enqueue-contents, enqueue-Bounded,
  dequeue-contents, dequeue-Bounded,
}

-- Contents, what one call sends and takes, and the rest of the calls.
chain :
    (before sent1 sent2 taken1 between taken2 after : List Str)
    → before ++ sent1 ≡ taken1 ++ between
    → between ++ sent2 ≡ taken2 ++ after
    → before ++ (sent1 ++ sent2) ≡ (taken1 ++ taken2) ++ after
chain before sent1 sent2 taken1 between taken2 after h k =
    sym (append_assoc before sent1 sent2)
    ∙ ap (λ l. l ++ sent2) h
    ∙ append_assoc taken1 between sent2
    ∙ ap (λ l. taken1 ++ l) k
    ∙ sym (append_assoc taken1 taken2 after)

step-contents :
    (call : QueueCall) (g : SharedQueueRegistry) (q : ℕ)
    → Bounded g
    → g.next_id + registrations (call ∷ []) < 4294967296
    → contents q g ++ sent_by q call g ≡ taken_by q call g ++ contents q (step call g)
unfolding sent_by taken_by step registrations
step-contents (register vm_id name) g q b h =
    append-nil (contents q g) ∙ sym (register-contents vm_id name g q b h)
step-contents (enqueue qid value) g q b h = enqueue-contents qid value g q
step-contents (dequeue qid) g q b h = append-nil (contents q g) ∙ dequeue-contents qid g q

step-Bounded :
    (call : QueueCall) (g : SharedQueueRegistry)
    → Bounded g
    → g.next_id + registrations (call ∷ []) < 4294967296
    → ((step call g).next_id ≤ g.next_id + registrations (call ∷ [])) × Bounded (step call g)
unfolding step registrations
step-Bounded (register vm_id name) g b h =
    (register-next_id vm_id name g h, register-Bounded vm_id name g b h)
step-Bounded (enqueue qid value) g b h =
    let (e, k) = enqueue-Bounded qid value g b in (rw e (omega arith), k)
step-Bounded (dequeue qid) g b h = let (e, k) = dequeue-Bounded qid g b in (rw e (omega arith), k)

registrations-cons :
    (call : QueueCall) (calls : List QueueCall)
    → registrations (call ∷ calls) ≡ registrations (call ∷ []) + registrations calls
unfolding registrations
registrations-cons (register vm_id name) calls = omega arith
registrations-cons (enqueue qid value) calls = omega arith
registrations-cons (dequeue qid) calls = omega arith

run-contents :
    (calls : List QueueCall) (g : SharedQueueRegistry) (q : ℕ)
    → Bounded g
    → g.next_id + registrations calls < 4294967296
    → contents q g ++ sent q calls g ≡ taken q calls g ++ contents q (run calls g)
unfolding sent taken run
run-contents [] g q b h = append-nil (contents q g)
run-contents (call ∷ calls) g q b h =
    let split = registrations-cons call calls in
    let first : g.next_id + registrations (call ∷ []) < 4294967296 = omega arith in
    let (le, k) = step-Bounded call g b first in
    chain (contents q g) (sent_by q call g) (sent q calls (step call g)) (taken_by q call g)
      (contents q (step call g)) (taken q calls (step call g))
      (contents q (run calls (step call g))) (step-contents call g q b first)
      (run-contents calls (step call g) q k (omega arith))

-- From the empty registry, after any calls of the queues of which fewer than 2 ^ 32 register a
-- name, the values that went into a queue are, in order, those that came out of it followed by
-- those that it holds.
pub run-fifo :
    (calls : List QueueCall) (q : ℕ)
    → registrations calls < 4294967296
    → sent q calls default_registry
      ≡ taken q calls default_registry ++ contents q (run calls default_registry)
unfolding contents find_queue get
run-fifo calls q h = run-contents calls default_registry q (λ j k. refl) (omega arith)
