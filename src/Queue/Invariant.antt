-- ===== src/Queue/Invariant.antt =====
-- What holds of the queue of queue.c in every reachable state of Queue.System.
use native.Mathlib.Nat.{mod-add-mod, mod-lt, mod-eq_of_lt}
use mathlib.Core.List.{append_assoc}
use mathlib.Core.Path.{ap₂, subst}
use c_lang_coding_projects.Prelude.{
  ℕ, zero, suc, ◌+◌, ◌%◌, ◌<◌, ◌≤◌, ◌≡◌, refl, sym, ap, ◌∙◌, List, [], ◌∷◌, ◌++◌, arith,
}
use c_lang_coding_projects.Threads.{assign, count, count-assign, count_none, count_pos}
use c_lang_coding_projects.Queue.{
  QueueState, queue_new, push_wait, push_store, push_post, pop_wait, pop_value, pop_load, pop_post,
}
use c_lang_coding_projects.Queue.System.{
  Phase, idle, push_ready, push_stored, pop_ready, pop_loaded, Event, Act, push_starts, push_stores,
  push_ends, pop_starts, pop_loads, pop_ends, System, pick, Reach, start, later, add_push, add_pop,
}
use c_lang_coding_projects.Queue.Window.{window, window-put, step_on}

abbrev pub will_store : Phase → ℕ
will_store (push_ready x) = 1
will_store idle = 0
will_store push_stored = 0
will_store pop_ready = 0
will_store (pop_loaded x) = 0

abbrev pub has_stored : Phase → ℕ
has_stored push_stored = 1
has_stored idle = 0
has_stored (push_ready x) = 0
has_stored pop_ready = 0
has_stored (pop_loaded x) = 0

abbrev pub will_load : Phase → ℕ
will_load pop_ready = 1
will_load idle = 0
will_load (push_ready x) = 0
will_load push_stored = 0
will_load (pop_loaded x) = 0

abbrev pub has_loaded : Phase → ℕ
has_loaded (pop_loaded x) = 1
has_loaded idle = 0
has_loaded (push_ready x) = 0
has_loaded push_stored = 0
has_loaded pop_ready = 0

-- `k` elements stand in the ring, from `front` on. A semaphore's value and the threads between a wait
-- and a post account for all elements and for all slots.
pub record Inv (n size : ℕ) (q : QueueState) (f : ℕ → Phase) (k : ℕ) : Type 0 where
  pub same_size : q.size ≡ size
  pub front_in : q.front < size
  pub back_at : q.back ≡ (q.front + k) % size
  pub elems : q.elem_available + count has_stored n f + count will_load n f ≡ k
  pub slots : q.slot_available + count will_store n f + k + count has_loaded n f ≡ size

-- The counts of a state in which thread `i` goes from phase `a` to phase `b`.
record Shift (n : ℕ) (f : ℕ → Phase) (i : ℕ) (a b : Phase) : Type 0 where
  to_store : count will_store n (assign f i b) + will_store a ≡ count will_store n f + will_store b
  stored : count has_stored n (assign f i b) + has_stored a ≡ count has_stored n f + has_stored b
  to_load : count will_load n (assign f i b) + will_load a ≡ count will_load n f + will_load b
  loaded : count has_loaded n (assign f i b) + has_loaded a ≡ count has_loaded n f + has_loaded b
  storing : will_store a ≤ count will_store n f
  loading : will_load a ≤ count will_load n f

shift : (n : ℕ) (f : ℕ → Phase) (i : ℕ) (b : Phase) → i < n → Shift n f i (f i) b
shift n f i b lt = record {
  to_store = count-assign will_store n f i b lt;
  stored = count-assign has_stored n f i b lt;
  to_load = count-assign will_load n f i b lt;
  loaded = count-assign has_loaded n f i b lt;
  storing = count_pos will_store n f i lt;
  loading = count_pos will_load n f i lt;
}

-- The elements in the ring, in order.
abbrev pub contents : QueueState → ℕ → List ℕ
contents q k = window q.list q.size q.front k

-- The invariant with some number of elements in the ring, which are those that went in and did not
-- come out.
abbrev pub Keeps : ℕ → ℕ → QueueState → (ℕ → Phase) → List ℕ → List ℕ → Type 0
Keeps n size q f ins outs = (k : ℕ) × Inv n size q f k × (ins ≡ outs ++ contents q k)

module _ {n size k : ℕ} {q : QueueState} {f : ℕ → Phase} (ins outs : List ℕ)
    (inv : Inv n size q f k) (fifo : ins ≡ outs ++ contents q k) (i : ℕ) where
  after_store :
      (x : ℕ)
      → Shift n f i (push_ready x) push_stored
      → Keeps n size (push_store q x) (assign f i push_stored) (ins ++ x ∷ []) outs
  unfolding push_store
  after_store x s =
      let room : k < size = omega (arith, s.storing, inv.slots) in
      let longer =
        window-put q.list q.size q.front k q.back x (omega (arith, inv.front_in, inv.same_size))
          (omega (arith, room, inv.same_size))
          (inv.back_at ∙ ap (λ z. (q.front + k) % z) (sym inv.same_size)) in
      let next : q.front + k + 1 ≡ q.front + suc k = omega arith in
      (
        suc k,
        record {
          same_size = inv.same_size;
          front_in = inv.front_in;
          back_at =
              ap₂ (λ b z. (b + 1) % z) inv.back_at inv.same_size
              ∙ (mod-add-mod (q.front + k) size 1 ∙ ap (λ z. z % size) next);
          elems = omega (arith, s.stored, s.to_load, inv.elems);
          slots = omega (arith, s.to_store, s.loaded, inv.slots);
        },
        ap (λ l. l ++ x ∷ []) fifo
            ∙ (append_assoc outs (contents q k) (x ∷ []) ∙ ap (λ l. outs ++ l) (sym longer)),
      )

  -- A step that moves the semaphores only.
  posted :
      (e a : ℕ) (f' : ℕ → Phase)
      → e + count has_stored n f' + count will_load n f' ≡ k
      → a + count will_store n f' + k + count has_loaded n f' ≡ size
      → Keeps n size (record q { elem_available = e; slot_available = a }) f' ins outs
  posted e a f' elems slots = (
    k,
    record {
      same_size = inv.same_size;
      front_in = inv.front_in;
      back_at = inv.back_at;
      elems = elems;
      slots = slots;
    },
    fifo,
  )

module _ {n size : ℕ} {q : QueueState} {f : ℕ → Phase} (ins outs : List ℕ) (i : ℕ) where
  after_load :
      (k : ℕ)
      → Inv n size q f k
      → ins ≡ outs ++ contents q k
      → Shift n f i pop_ready (pop_loaded (pop_value q))
      → Keeps n size
          (pop_load q)
          (assign f i (pop_loaded (pop_value q)))
          ins
          (outs ++ pop_value q ∷ [])
  unfolding pop_load pop_value
  after_load zero inv fifo s = absurd (omega (arith, s.loading, inv.elems))
  after_load (suc k) inv fifo s = (
    k,
    record {
      same_size = inv.same_size;
      front_in =
          subst (λ z. (q.front + 1) % z < size) (sym inv.same_size)
            (mod-lt (q.front + 1) (omega (arith, inv.front_in)));
      back_at =
          inv.back_at
          ∙ (step_on size q.front k ∙ ap (λ z. ((q.front + 1) % z + k) % size) (sym inv.same_size));
      elems = omega (arith, s.stored, s.to_load, inv.elems);
      slots = omega (arith, s.to_store, s.loaded, inv.slots);
    },
    fifo
        ∙ sym (
            append_assoc outs (q.list q.front ∷ [])
              (window q.list q.size ((q.front + 1) % q.size) k)),
  )

Act-Keeps :
    {n size : ℕ} {q q' : QueueState} {f : ℕ → Phase} {a b : Phase} {e : Event} (ins outs : List ℕ)
    (i : ℕ)
    → Keeps n size q f ins outs
    → Act q a q' b e
    → Shift n f i a b
    → Keeps n size q' (assign f i b) (add_push e ins) (add_pop e outs)
unfolding push_wait push_post pop_wait pop_post
Act-Keeps ins outs i (k, inv, fifo) (push_starts x pos) s =
    posted ins outs inv fifo i _ _ _ (omega (arith, s.stored, s.to_load, inv.elems))
      (omega (arith, s.to_store, s.loaded, inv.slots, pos))
Act-Keeps ins outs i (k, inv, fifo) (push_stores {x}) s = after_store ins outs inv fifo i x s
Act-Keeps ins outs i (k, inv, fifo) push_ends s =
    posted ins outs inv fifo i _ _ _ (omega (arith, s.stored, s.to_load, inv.elems))
      (omega (arith, s.to_store, s.loaded, inv.slots))
Act-Keeps ins outs i (k, inv, fifo) (pop_starts pos) s =
    posted ins outs inv fifo i _ _ _ (omega (arith, s.stored, s.to_load, inv.elems, pos))
      (omega (arith, s.to_store, s.loaded, inv.slots))
Act-Keeps ins outs i (k, inv, fifo) pop_loads s = after_load ins outs i k inv fifo s
Act-Keeps ins outs i (k, inv, fifo) pop_ends s =
    posted ins outs inv fifo i _ _ _ (omega (arith, s.stored, s.to_load, inv.elems))
      (omega (arith, s.to_store, s.loaded, inv.slots))

Keeps-init : (n size : ℕ) → 0 < size → Keeps n size (queue_new size) (λ i. idle) [] []
unfolding queue_new
Keeps-init n size pos =
    let r = count_none will_store n idle refl in
    let s = count_none has_stored n idle refl in
    let t = count_none will_load n idle refl in
    let u = count_none has_loaded n idle refl in
    let none_on : (0 + 0) % size ≡ 0 = mod-eq_of_lt pos in
    (
      0,
      record {
        same_size = refl;
        front_in = pos;
        back_at = sym none_on;
        elems = omega (arith, s, t);
        slots = omega (arith, r, u);
      },
      refl,
    )

pub Reach-Keeps :
    {n size : ℕ} {s : System} {ins outs : List ℕ}
    → 0 < size
    → Reach n size s ins outs
    → Keeps n size s.queue s.phase ins outs
Reach-Keeps {n} {size} pos start = Keeps-init n size pos
Reach-Keeps {n} pos (later {s} {ins = ins} {outs} r (pick i {p = b} lt act)) =
    Act-Keeps ins outs i (Reach-Keeps pos r) act (shift n s.phase i b lt)
