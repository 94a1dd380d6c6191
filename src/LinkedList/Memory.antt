-- ===== src/LinkedList/Memory.antt =====
-- The heap that List.c works on: `struct NodeObj` cells at addresses, and commands over them.
use c_lang_coding_projects.Prelude.{ℕ, Option, none, some, ◌==◌, if◌then◌else◌}

abbrev pub Ptr : Type 0
Ptr = ℕ

-- `NULL`
abbrev pub null : Ptr
null = 0

-- `struct NodeObj`
pub record Node : Type 0 where
  pub value : ℕ
  pub next : Ptr
  pub prev : Ptr

abbrev pub node : ℕ → Ptr → Ptr → Node
node v n p = record { value = v; next = n; prev = p }

-- An address holds a live node, or nothing that may be read.
abbrev pub Heap : Type 0
Heap = Ptr → Option Node

unfoldable pub write : Heap → Ptr → Option Node → Heap
write h p c a = if a == p then c else h a

abbrev pub on_node : (Node → Node) → Option Node → Option Node
on_node f none = none
on_node f (some n) = some (f n)

-- The heap after a field of the node at `p` was assigned.
unfoldable pub modify : Heap → Ptr → (Node → Node) → Heap
modify h p f a = if a == p then on_node f (h a) else h a

-- How a call ends: it returns, it ends the process by `exit(EXIT_FAILURE)`, it reads through a
-- pointer that holds no node, or the model's fuel for a loop is used up.
pub data Run (A : Type 0) : Type 0 where
  ok : A → Heap → Run A
  exited : Run A
  fault : Run A
  out_of_fuel : Run A

abbrev pub Cmd : Type 0 → Type 0
Cmd A = Heap → Run A

abbrev pub pure : {A : Type 0} → A → Cmd A
pure a h = ok a h

abbrev pub stop : {A : Type 0} → Cmd A
stop h = exited

module _ {A B : Type 0} where
  abbrev pub continue : Run A → (A → Cmd B) → Run B
  continue (ok a h) k = k a h
  continue exited k = exited
  continue fault k = fault
  continue out_of_fuel k = out_of_fuel

  infixl 5 ◌>>=◌ ◌>>◌
  abbrev pub ◌>>=◌ : Cmd A → (A → Cmd B) → Cmd B
  ◌>>=◌ m k h = continue (m h) k

  abbrev pub ◌>>◌ : Cmd A → Cmd B → Cmd B
  ◌>>◌ m k h = continue (m h) (λ _. k)

-- `*p`
unfoldable pub load : Ptr → Cmd Node
load p h = if p == null then fault else elim (h p) [ none ↦ fault | some n ↦ ok n h ]

-- An assignment to a field of `*p`.
unfoldable pub assign : Ptr → (Node → Node) → Cmd (Unit {0})
unfolding load
assign p f h = continue (load p h) (λ n g. ok tt (modify g p f))

abbrev pub set_next : Ptr → Ptr → Cmd (Unit {0})
set_next p q = assign p (λ n. record n { next = q })

abbrev pub set_prev : Ptr → Ptr → Cmd (Unit {0})
set_prev p q = assign p (λ n. record n { prev = q })

abbrev pub set_value : Ptr → ℕ → Cmd (Unit {0})
set_value p v = assign p (λ n. record n { value = v })

-- `free` of a live node; `free(NULL)` does nothing.
unfoldable pub free : Ptr → Cmd (Unit {0})
free p h =
    if p == null then ok tt h else elim (h p) [ none ↦ fault | some n ↦ ok tt (write h p none) ]
