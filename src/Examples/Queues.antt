-- ===== src/Examples/Queues.antt =====
-- Concrete states of the queue of Concurrent Data Structures/queue.c.
use c_lang_coding_projects.Prelude.{ℕ, ◌+◌, ◌<◌, ◌≤◌, ◌≡◌, List, [], ◌∷◌, ◌++◌, arith, length}
use c_lang_coding_projects.Threads.{assign}
use c_lang_coding_projects.Queue.{queue_new, push_wait, push_store, push_post}
use c_lang_coding_projects.Queue.System.{
  idle, push_ready, push_stored, System, pick, Reach, start, later, push_starts, push_stores,
  push_ends,
}
use c_lang_coding_projects.Queue.Invariant.{contents}
use c_lang_coding_projects.Queue.Fifo.{fifo_lem, at_rest_lem}

-- A queue of three slots, in which thread 0 of two puts 7.
abbrev waited : System
waited = record { queue = push_wait (queue_new 3); phase = assign (λ i. idle) 0 (push_ready 7) }

abbrev stored : System
stored = record { queue = push_store waited.queue 7; phase = assign waited.phase 0 push_stored }

abbrev posted : System
posted = record { queue = push_post stored.queue; phase = assign stored.phase 0 idle }

stored-Reach : Reach 2 3 stored (7 ∷ []) []
unfolding queue_new push_wait assign
stored-Reach =
    later (later start (pick 0 (omega arith) (push_starts 7 (omega arith))))
      (pick 0 (omega arith) push_stores)

posted-Reach : Reach 2 3 posted (7 ∷ []) []
unfolding assign
posted-Reach = later stored-Reach (pick 0 (omega arith) push_ends)

fifo_lem_example :
    (k : ℕ) × (k ≤ 3)
    × (7 ∷ [] ≡ [] ++ contents stored.queue k)
    × (stored.queue.front < 3)
    × (stored.queue.back < 3)
fifo_lem_example = fifo_lem (omega arith) stored-Reach

posted_idle : (i : ℕ) → i < 2 → posted.phase i ≡ idle
unfolding assign
posted_idle i lt = ground arith

at_rest_lem_example :
    (rest : List ℕ) × (7 ∷ [] ≡ [] ++ rest)
    × (posted.queue.elem_available ≡ length rest)
    × (posted.queue.slot_available + length rest ≡ 3)
at_rest_lem_example = at_rest_lem (omega arith) posted-Reach posted_idle
