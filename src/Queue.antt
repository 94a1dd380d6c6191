-- ===== src/Queue.antt =====
-- Concurrent Data Structures/queue.c. `queue_push` and `queue_pop` are cut where another thread may
-- run in between: the wait for a semaphore, the part under a mutex, the post to a semaphore. An
-- element is a pointer, taken as a number.
pub mod System
pub mod Window
pub mod Invariant
pub mod Fifo
use c_lang_coding_projects.Prelude.{ℕ, ◌+◌, ◌-◌, ◌%◌}
use c_lang_coding_projects.Arrays.{put}

-- `struct queue`, less its mutexes; the semaphores are their values.
pub record QueueState : Type 0 where
  pub size : ℕ
  pub list : ℕ → ℕ
  pub front : ℕ
  pub back : ℕ
  pub elem_available : ℕ
  pub slot_available : ℕ

-- `queue_new`
unfoldable pub queue_new : ℕ → QueueState
queue_new size = record {
  size = size;
  list = λ i. 0;
  front = 0;
  back = 0;
  elem_available = 0;
  slot_available = size;
}

-- `sem_wait(q->slot_available_sem)`, which returns once the value is above 0.
unfoldable pub push_wait : QueueState → QueueState
push_wait q = record q { slot_available = q.slot_available - 1 }

-- `queue_push` under `back_mutex`.
unfoldable pub push_store : QueueState → ℕ → QueueState
push_store q elem_ptr = record q { list = put q.list q.back elem_ptr; back = (q.back + 1) % q.size }

-- `sem_post(q->elem_available_sem)`
unfoldable pub push_post : QueueState → QueueState
push_post q = record q { elem_available = q.elem_available + 1 }

-- `sem_wait(q->elem_available_sem)`
unfoldable pub pop_wait : QueueState → QueueState
pop_wait q = record q { elem_available = q.elem_available - 1 }

-- `queue_pop` under `front_mutex`: what goes to `*elem`, and the queue.
unfoldable pub pop_value : QueueState → ℕ
pop_value q = q.list q.front

unfoldable pub pop_load : QueueState → QueueState
pop_load q = record q { front = (q.front + 1) % q.size }

-- `sem_post(q->slot_available_sem)`
unfoldable pub pop_post : QueueState → QueueState
pop_post q = record q { slot_available = q.slot_available + 1 }
