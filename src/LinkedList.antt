-- ===== src/LinkedList.antt =====
-- The functions of List.c (Graph ADT with BFS & Shortest Paths/List.c; the copies in the two other
-- directories with a List of int differ in one comment). A `struct ListObj` is a value, and a
-- function that changes one returns the new value; the nodes stand on the heap. `index` is -1 as
-- `none`: no function stores a value below -1. `fresh` is what `malloc` returns.
pub mod Memory
pub mod Chain
pub mod Invariant
pub mod Ends
pub mod Splice
pub mod Insert
pub mod Delete
pub mod Cursor
pub mod Walk
pub mod Removal
pub mod Copying
pub mod Copy
pub mod DeleteFront
pub mod DeleteBack
pub mod DeleteCursor
use Memory.{
  Ptr, null, Node, node, Heap, write, Run, ok, exited, fault, out_of_fuel, Cmd, pure, stop, ◌>>=◌,
  ◌>>◌, load, set_next, set_prev, set_value, free,
}
use c_lang_coding_projects.Prelude.{
  ℕ, zero, suc, ◌+◌, ◌-◌, ◌≡◌, Bool, true, false, ◌&&◌, ◌||◌, not, Option, none, some, List, [],
  ◌∷◌, ◌==◌, ltb, if◌then◌else◌,
}

-- `struct ListObj`
pub record ListObj : Type 0 where
  pub length : ℕ
  pub index : Option ℕ
  pub front : Ptr
  pub back : Ptr
  pub cursor : Ptr

-- `L->index >= 0`
abbrev pub is_defined : Option ℕ → Bool
is_defined none = false
is_defined (some i) = true

-- `L->index == i`
abbrev pub at : Option ℕ → ℕ → Bool
at none i = false
at (some j) i = j == i

abbrev pub minus_one : Option ℕ → Option ℕ
minus_one none = none
minus_one (some zero) = none
minus_one (some (suc i)) = some i

abbrev pub plus_one : Option ℕ → Option ℕ
plus_one none = some 0
plus_one (some i) = some (suc i)

-- `newNode`
unfoldable pub new_node : Ptr → ℕ → Cmd Ptr
new_node fresh x h =
    if fresh == null then ok null h else ok fresh (write h fresh (some (node x null null)))

-- `freeNode`
unfoldable pub free_node : Ptr → Cmd (Unit {0})
free_node p = if not (p == null) then free p else pure tt

-- `newList`, for a `malloc` that returns memory.
unfoldable pub new_list : ListObj
new_list = record { length = 0; index = none; front = null; back = null; cursor = null }

-- The loop of `clear` and `freeList`.
unfoldable pub free_nodes : ℕ → Ptr → Cmd (Unit {0})
free_nodes zero curr h = out_of_fuel
free_nodes (suc fuel) curr h =
    let rest = (load curr >>= λ n. free_node curr >> free_nodes fuel n.next) h in
    if not (curr == null) then rest else ok tt h

-- `freeList`; the handle is gone.
unfoldable pub free_list : ListObj → Cmd (Unit {0})
free_list l = free_nodes (l.length + 1) l.front

unfoldable pub clear : ListObj → Cmd ListObj
clear l = do free_nodes (l.length + 1) l.front; pure new_list

unfoldable pub front : ListObj → Cmd ℕ
front l = if ltb l.length 1 then stop else do n ← load l.front; pure n.value

unfoldable pub back : ListObj → Cmd ℕ
back l = if ltb l.length 1 then stop else do n ← load l.back; pure n.value

unfoldable pub get : ListObj → Cmd ℕ
get l =
    if ltb l.length 1 || not (is_defined l.index) then stop else do n ← load l.cursor; pure n.value

-- The loop of `equals`.
unfoldable pub equal_nodes : ℕ → Ptr → Ptr → Cmd Bool
equal_nodes zero a b h = out_of_fuel
equal_nodes (suc fuel) a b h =
    let rest =
      (load a >>= λ m. load b >>= λ n.
      if not (m.value == n.value) then pure false else equal_nodes fuel m.next n.next)
        h in
    if not (a == null) && not (b == null) then rest else ok true h

unfoldable pub equals : ListObj → ListObj → Cmd Bool
equals a b =
    if not (a.length == b.length) then pure false else equal_nodes (a.length + 1) a.front b.front

unfoldable pub set : ListObj → ℕ → Cmd ListObj
set l x =
    if ltb l.length 1 || not (is_defined l.index) then stop else do set_value l.cursor x; pure l

unfoldable pub move_front : ListObj → ListObj
move_front l = if ltb 0 l.length then record l { cursor = l.front; index = some 0 } else l

unfoldable pub move_back : ListObj → ListObj
move_back l =
    if ltb 0 l.length then record l { cursor = l.back; index = some (l.length - 1) } else l

unfoldable pub move_prev : ListObj → Cmd ListObj
move_prev l =
    if is_defined l.index
    then (if at l.index 0
        then pure (record l { index = none; cursor = null })
        else do n ← load l.cursor; pure (record l { cursor = n.prev; index = minus_one l.index }))
    else pure l

unfoldable pub move_next : ListObj → Cmd ListObj
move_next l =
    if is_defined l.index
    then (if at l.index (l.length - 1)
        then pure (record l { index = none; cursor = null })
        else do n ← load l.cursor; pure (record l { cursor = n.next; index = plus_one l.index }))
    else pure l

unfoldable pub prepend : Ptr → ListObj → ℕ → Cmd ListObj
prepend fresh l x = do
  n ← new_node fresh x
  if l.length == 0 then pure (record l { front = n; back = n; length = l.length + 1 }) else do
    set_next n l.front
    set_prev l.front n
    pure (record l {
      front = n;
      index = if is_defined l.index then plus_one l.index else l.index;
      length = l.length + 1;
    })

unfoldable pub append : Ptr → ListObj → ℕ → Cmd ListObj
append fresh l x = do
  n ← new_node fresh x
  if l.length == 0 then pure (record l { front = n; back = n; length = l.length + 1 }) else do
    set_prev n l.back
    set_next l.back n
    pure (record l { back = n; length = l.length + 1 })

unfoldable pub insert_before : Ptr → ListObj → ℕ → Cmd ListObj
insert_before fresh l x =
    if ltb l.length 1 || not (is_defined l.index)
    then stop
    else if at l.index 0
    then prepend fresh l x
    else do
      n ← new_node fresh x
      set_next n l.cursor
      c ← load l.cursor
      set_prev n c.prev
      m ← load n
      set_next m.prev n
      m ← load n
      set_prev m.next n
      pure (record l { length = l.length + 1; index = plus_one l.index })

unfoldable pub insert_after : Ptr → ListObj → ℕ → Cmd ListObj
insert_after fresh l x =
    if ltb l.length 1 || not (is_defined l.index)
    then stop
    else if at l.index (l.length - 1)
    then append fresh l x
    else do
      n ← new_node fresh x
      c ← load l.cursor
      set_next n c.next
      set_prev n l.cursor
      m ← load n
      set_next m.prev n
      m ← load n
      set_prev m.next n
      pure (record l { length = l.length + 1 })
