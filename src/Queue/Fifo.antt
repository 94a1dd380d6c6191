-- ===== src/Queue/Fifo.antt =====
-- The order in which queue.c hands elements over, and when its callers wait.
use native.Mathlib.Nat.{mod-lt}
use mathlib.Core.Path.{subst}
use c_lang_coding_projects.Prelude.{
  ℕ, ◌+◌, ◌<◌, ◌≤◌, ◌≡◌, refl, sym, ap, List, ◌++◌, arith, length, inl, inr, Bool-cases, ltb,
}
use c_lang_coding_projects.Threads.{count, count_find}
use c_lang_coding_projects.Queue.System.{Phase, idle, System, Reach}
use c_lang_coding_projects.Queue.Window.{length-window}
use c_lang_coding_projects.Queue.Invariant.{
  contents, Reach-Keeps, will_store, has_stored, will_load, has_loaded,
}

-- In every state that `n` threads reach from a new queue of a size above 0, the elements that went in
-- are those that came out, in the same order, followed by those in the ring from `front` on, which are
-- at most `size`; `front` and `back` are indices of the ring.
pub fifo_lem :
    {n size : ℕ} {s : System} {ins outs : List ℕ}
    → 0 < size
    → Reach n size s ins outs
    → (k : ℕ) × (k ≤ size)
      × (ins ≡ outs ++ contents s.queue k)
      × (s.queue.front < size)
      × (s.queue.back < size)
fifo_lem {size} {s} pos r =
    let (k, inv, fifo) = Reach-Keeps pos r in
    (
      k,
      omega (arith, inv.slots),
      fifo,
      inv.front_in,
      subst (λ b. b < size) (sym inv.back_at) (mod-lt (s.queue.front + k) pos),
    )

none_counted :
    (w : Phase → ℕ) (n : ℕ) (f : ℕ → Phase)
    → ((i : ℕ) → i < n → f i ≡ idle)
    → w idle ≡ 0
    → count w n f ≡ 0
none_counted w n f rest z = elim (Bool-cases (ltb 0 (count w n f))) [
  | inl e ↦
      let (i, lt, pos) = count_find w n f (ground (arith, e)) in
      absurd (omega (arith, pos, ap w (rest i lt), z))
  | inr e ↦ ground (arith, e)
]

-- In every state that `n` threads reach from a new queue of a size above 0, and in which no thread is
-- inside a call, the elements that went in are those that came out followed by a rest, in the same
-- order; `elem_available_sem` is the length of the rest, and `slot_available_sem` that many less than
-- `size`.
pub at_rest_lem :
    {n size : ℕ} {s : System} {ins outs : List ℕ}
    → 0 < size
    → Reach n size s ins outs
    → ((i : ℕ) → i < n → s.phase i ≡ idle)
    → (rest : List ℕ) × (ins ≡ outs ++ rest)
      × (s.queue.elem_available ≡ length rest)
      × (s.queue.slot_available + length rest ≡ size)
at_rest_lem {n} {size} {s} pos r rest =
    let (k, inv, fifo) = Reach-Keeps pos r in
    let long = length-window s.queue.list s.queue.size s.queue.front k in
    let a = none_counted will_store n s.phase rest refl in
    let b = none_counted has_stored n s.phase rest refl in
    let c = none_counted will_load n s.phase rest refl in
    let d = none_counted has_loaded n s.phase rest refl in
    (
      contents s.queue k,
      fifo,
      omega (arith, inv.elems, b, c, long),
      omega (arith, inv.slots, a, d, long),
    )
