-- ===== src/Examples/Lists.antt =====
-- A heap with one list of three nodes, for the functions of List.c.
use c_lang_coding_projects.Prelude.{
  ◌≡◌, ◌≢◌, ◌↔◌, refl, arith, true, none, some, List, [], ◌∷◌, ◌++◌, ◌==◌, if◌then◌else◌,
}
use c_lang_coding_projects.LinkedList
use c_lang_coding_projects.LinkedList.{
  ListObj, minus_one, prepend, append, insert_before, insert_after, equals, clear, free_list,
  move_front, move_back,
}
use c_lang_coding_projects.LinkedList.Removal.{delete_front, delete_back, delete}
use c_lang_coding_projects.LinkedList.Copying.{copy_list, concat_list}
use c_lang_coding_projects.LinkedList.Memory.{Ptr, null, node, Heap, fault}
use c_lang_coding_projects.LinkedList.Chain.{Cells, SameOutside}
use c_lang_coding_projects.LinkedList.Invariant.{Returns, IsList}
use c_lang_coding_projects.LinkedList.Ends.{shift, prepend_lem, append_lem}
use c_lang_coding_projects.LinkedList.DeleteFront.{delete_front_lem}
use c_lang_coding_projects.LinkedList.DeleteBack.{delete_back_lem}
use c_lang_coding_projects.LinkedList.Delete.{delete_lem, delete-get-fault}
use c_lang_coding_projects.LinkedList.Cursor.{move_front_lem}
use c_lang_coding_projects.LinkedList.Walk.{values, equals_lem, Without, free_list_lem}
use c_lang_coding_projects.LinkedList.Copy.{Supply, renewed, copy_list_lem, concat_list_lem}
use c_lang_coding_projects.Sequence
use c_lang_coding_projects.Sequence.Refinement.{
  view, Refines, insert_before-Refines, insert_after-Refines,
}
use c_lang_coding_projects.Sequence.Movement.{finish, get-Refines}

abbrev three : Heap
three a =
    if a == 1
    then some (node 10 2 0)
    else if a == 2
    then some (node 20 3 1)
    else if a == 3
    then some (node 30 0 2)
    else none

abbrev cells : Cells
cells = (1, 10) ∷ (2, 20) ∷ (3, 30) ∷ []

-- The cursor stands on the second node.
abbrev mid : ListObj
mid = record { length = 3; index = some 1; front = 1; back = 3; cursor = 2 }

mid-IsList : IsList three mid cells
mid-IsList = record {
  chain = (ground arith, refl, refl, (ground arith, refl, refl, (ground arith, refl, refl, tt)));
  front = refl;
  back = refl;
  count = refl;
  placed = refl;
}

four_free : 4 ≢ null
four_free = ground arith

prepend_lem_example : Returns (prepend 4 mid 5 three) (λ l' g.
    IsList g l' ((4, 5) ∷ cells)
    × (l'.index ≡ shift mid.index)
    × SameOutside ((4, 5) ∷ cells) three g)
prepend_lem_example = prepend_lem three mid 4 5 four_free refl cells mid-IsList

append_lem_example : Returns (append 4 mid 5 three) (λ l' g.
    IsList g l' (cells ++ (4, 5) ∷ [])
    × (l'.index ≡ mid.index)
    × SameOutside (cells ++ (4, 5) ∷ []) three g)
append_lem_example = append_lem three mid 4 5 four_free refl cells mid-IsList

delete_front_lem_example : Returns (delete_front mid three) (λ l' g.
    IsList g l' ((2, 20) ∷ (3, 30) ∷ [])
    × (l'.index ≡ some 0)
    × (g 1 ≡ none)
    × SameOutside cells three g)
delete_front_lem_example = delete_front_lem three mid 1 10 ((2, 20) ∷ (3, 30) ∷ []) mid-IsList

delete_back_lem_example : Returns (delete_back mid three) (λ l' g.
    IsList g l' ((1, 10) ∷ (2, 20) ∷ [])
    × (l'.index ≡ some 1)
    × (g 3 ≡ none)
    × SameOutside cells three g)
delete_back_lem_example = delete_back_lem three mid 3 30 ((1, 10) ∷ (2, 20) ∷ []) mid-IsList

delete_lem_example : Returns (delete mid three) (λ l' g.
    IsList g (record l' { index = none }) ((1, 10) ∷ (3, 30) ∷ [])
    × (l'.cursor ≡ null)
    × (l'.index ≡ some 0)
    × (g 2 ≡ none)
    × SameOutside cells three g)
delete_lem_example = delete_lem three mid ((1, 10) ∷ []) 2 20 ((3, 30) ∷ []) mid-IsList refl

delete-get-fault_example : Returns (delete mid three) (λ l' g. LinkedList.get l' g ≡ fault)
delete-get-fault_example = delete-get-fault three mid (1, 10) (3, 30) [] 2 20 [] mid-IsList refl

move_front_lem_example : IsList three (move_front mid) cells × ((move_front mid).index ≡ some 0)
move_front_lem_example = move_front_lem three mid 1 10 ((2, 20) ∷ (3, 30) ∷ []) mid-IsList

equals_lem_example :
    Returns
      (equals mid mid three)
      (λ r g. ((r ≡ true) ↔ (values cells ≡ values cells)) × (g ≡ three))
equals_lem_example = equals_lem three mid mid cells cells mid-IsList mid-IsList

free_list_lem_example : Returns (free_list mid three) (λ _ g. Without cells three g)
free_list_lem_example = free_list_lem three mid cells mid-IsList

abbrev six : List Ptr
six = 4 ∷ 5 ∷ 6 ∷ 7 ∷ 8 ∷ 9 ∷ []

six-Supply : Supply three six
six-Supply = (
  ground arith,
  refl,
  refl,
  (
    ground arith,
    refl,
    refl,
    (
      ground arith,
      refl,
      refl,
      (ground arith, refl, refl, (ground arith, refl, refl, (ground arith, refl, refl, tt))),
    ),
  ),
)

copy_list_lem_example : Returns (copy_list six mid three) (λ c g.
    IsList g c ((4, 10) ∷ (5, 20) ∷ (6, 30) ∷ [])
    × (values (renewed six cells) ≡ values cells)
    × (c.index ≡ none)
    × IsList g mid cells)
copy_list_lem_example = copy_list_lem three mid cells six mid-IsList six-Supply (omega arith)

concat_list_lem_example : Returns (concat_list six mid mid three) (λ c g.
    (zs : Cells) × IsList g c zs
    × (values zs ≡ 10 ∷ 20 ∷ 30 ∷ 10 ∷ 20 ∷ 30 ∷ [])
    × (c.index ≡ none)
    × IsList g mid cells
    × IsList g mid cells)
concat_list_lem_example =
    concat_list_lem three mid mid cells cells six mid-IsList mid-IsList six-Supply (omega arith)

insert_before-Refines_example :
    Refines (LinkedList.insert_before 4 mid 15 three) (Sequence.insert_before (view mid cells) 15)
insert_before-Refines_example = insert_before-Refines three mid 4 15 four_free refl cells mid-IsList

insert_after-Refines_example :
    Refines (LinkedList.insert_after 4 mid 25 three) (Sequence.insert_after (view mid cells) 25)
insert_after-Refines_example = insert_after-Refines three mid 4 25 four_free refl cells mid-IsList

get-Refines_example : LinkedList.get mid three ≡ finish (Sequence.get (view mid cells)) three
get-Refines_example = get-Refines three mid cells mid-IsList
