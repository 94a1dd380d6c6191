-- ===== src/LinkedList/Removal.antt =====
-- `deleteFront`, `deleteBack` and `delete` of List.c.
use c_lang_coding_projects.Prelude.{◌-◌, ◌||◌, not, none, ◌==◌, ltb, if◌then◌else◌}
use c_lang_coding_projects.LinkedList.Memory.{
  null, Cmd, pure, stop, ◌>>=◌, ◌>>◌, load, set_next, set_prev,
}
use c_lang_coding_projects.LinkedList.{ListObj, is_defined, at, minus_one, free_node}

unfoldable pub delete_front : ListObj → Cmd ListObj
delete_front l = if ltb l.length 1 then stop else do
  l' ←
      (if l.length == 1
        then pure (record l { front = null; back = null; cursor = null; index = none })
        else do
          n ← load l.front
          set_prev n.next null
          pure (
              if at l.index 0
              then record l { front = n.next; cursor = null; index = none }
              else record l { front = n.next; index = minus_one l.index }))
  free_node l.front
  pure (record l' { length = l.length - 1 })

unfoldable pub delete_back : ListObj → Cmd ListObj
delete_back l = if ltb l.length 1 then stop else do
  l' ←
      (if l.length == 1
        then pure (record l { front = null; back = null; cursor = null; index = none })
        else do
          n ← load l.back
          set_next n.prev null
          pure (
              if at l.index (l.length - 1)
              then record l { back = n.prev; cursor = null; index = none }
              else record l { back = n.prev }))
  free_node l.back
  pure (record l' { length = l.length - 1 })

-- The last branch leaves `index` at the place before the deleted node, with a cursor of `NULL`.
unfoldable pub delete : ListObj → Cmd ListObj
delete l =
    if ltb l.length 1 || not (is_defined l.index)
    then stop
    else if at l.index 0
    then delete_front l
    else if at l.index (l.length - 1)
    then delete_back l
    else do
      n ← load l.cursor
      set_next n.prev n.next
      n ← load l.cursor
      set_prev n.next n.prev
      set_next l.cursor null
      set_prev l.cursor null
      free_node l.cursor
      pure (record l { cursor = null; index = minus_one l.index; length = l.length - 1 })
