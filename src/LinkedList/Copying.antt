-- ===== src/LinkedList/Copying.antt =====
-- `copyList` and `concatList` of List.c.
use c_lang_coding_projects.Prelude.{not, List, [], ◌∷◌, ◌==◌, if◌then◌else◌}
use c_lang_coding_projects.LinkedList.Memory.{Ptr, null, ok, out_of_fuel, Cmd, pure, ◌>>=◌, load}
use c_lang_coding_projects.LinkedList.{ListObj, new_list, append}

-- The loop of `copyList` and `concatList`: appends the values of the nodes from `n` on. The i-th
-- call of `malloc` returns the i-th pointer of `fresh`; a run that needs more is out of fuel.
unfoldable pub append_nodes : List Ptr → ListObj → Ptr → Cmd (ListObj × List Ptr)
append_nodes [] l n h = if n == null then ok (l, []) h else out_of_fuel
append_nodes (p ∷ fresh) l n h =
    let rest = (load n >>= λ c. append p l c.value >>= λ l'. append_nodes fresh l' c.next) h in
    if not (n == null) then rest else ok (l, p ∷ fresh) h

unfoldable pub copy_list : List Ptr → ListObj → Cmd ListObj
copy_list fresh l = do (l', _) ← append_nodes fresh new_list l.front; pure l'

unfoldable pub concat_list : List Ptr → ListObj → ListObj → Cmd ListObj
concat_list fresh a b = do
  (c, rest) ← append_nodes fresh new_list a.front
  (c', _) ← append_nodes rest c b.front
  pure c'
