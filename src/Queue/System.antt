-- ===== src/Queue/System.antt =====
-- Threads that call `queue_push` and `queue_pop` in any order.
use c_lang_coding_projects.Prelude.{ℕ, ◌<◌, List, [], ◌∷◌, ◌++◌}
use c_lang_coding_projects.Threads.{assign}
use c_lang_coding_projects.Queue.{
  QueueState, queue_new, push_wait, push_store, push_post, pop_wait, pop_value, pop_load, pop_post,
}

-- Where a thread stands in a call: outside, behind the wait, or behind the part under the mutex.
pub data Phase : Type 0 where
  idle : Phase
  push_ready : ℕ → Phase
  push_stored : Phase
  pop_ready : Phase
  pop_loaded : ℕ → Phase

-- What a step does to the elements.
pub data Event : Type 0 where
  silent : Event
  pushes : ℕ → Event
  pops : ℕ → Event

-- One step of one thread, with the queue before and behind it.
pub data Act (q : QueueState) : Phase → QueueState → Phase → Event → Type 0 where
  push_starts : (x : ℕ) → 0 < q.slot_available → Act q idle (push_wait q) (push_ready x) silent
  push_stores : {x : ℕ} → Act q (push_ready x) (push_store q x) push_stored (pushes x)
  push_ends : Act q push_stored (push_post q) idle silent
  pop_starts : 0 < q.elem_available → Act q idle (pop_wait q) pop_ready silent
  pop_loads : Act q pop_ready (pop_load q) (pop_loaded (pop_value q)) (pops (pop_value q))
  pop_ends : {x : ℕ} → Act q (pop_loaded x) (pop_post q) idle silent

pub record System : Type 0 where
  pub queue : QueueState
  pub phase : ℕ → Phase

-- One of the `n` threads makes a step.
pub data Step (n : ℕ) (s : System) : System → Event → Type 0 where
  pick :
      (i : ℕ) {q : QueueState} {p : Phase} {e : Event}
      → i < n
      → Act s.queue (s.phase i) q p e
      → Step n s (record { queue = q; phase = assign s.phase i p }) e

abbrev pub init : ℕ → System
init size = record { queue = queue_new size; phase = λ i. idle }

abbrev pub add_push : Event → List ℕ → List ℕ
add_push silent xs = xs
add_push (pushes x) xs = xs ++ x ∷ []
add_push (pops x) xs = xs

abbrev pub add_pop : Event → List ℕ → List ℕ
add_pop silent xs = xs
add_pop (pushes x) xs = xs
add_pop (pops x) xs = xs ++ x ∷ []

-- The states that `n` threads can reach from a new queue, with the elements that went in and came
-- out, in order.
pub data Reach (n size : ℕ) : System → List ℕ → List ℕ → Type 0 where
  start : Reach n size (init size) [] []
  later :
      {s t : System} {e : Event} {ins outs : List ℕ}
      → Reach n size s ins outs
      → Step n s t e
      → Reach n size t (add_push e ins) (add_pop e outs)
