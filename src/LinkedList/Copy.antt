-- ===== src/LinkedList/Copy.antt =====
-- `copyList` and `concatList` of List.c.
use mathlib.Core.Path.{subst, ap₂}
use mathlib.Core.List.{append_assoc, append-nil}
use c_lang_coding_projects.Prelude.{
  ℕ, zero, suc, ◌+◌, ◌≤◌, ◌≡◌, ◌≢◌, refl, sym, ap, ◌∙◌, length-drop, Bool, Bool-cases, inl, inr,
  true, false, ◌||◌, none, List, [], ◌∷◌, ◌++◌, arith, ◌==◌, length, drop,
}
use c_lang_coding_projects.LinkedList.Memory.{Ptr, null, Heap}
use c_lang_coding_projects.LinkedList.Chain.{
  Cells, owns, first, Chain, Chain-frame, SameOutside, Apart, owns-append, Chain-live,
}
use c_lang_coding_projects.LinkedList.Invariant.{Returns, IsList, load-ok, not-owns_of_none}
use c_lang_coding_projects.LinkedList.Ends.{append_lem}
use c_lang_coding_projects.LinkedList.Walk.{values, values-append}
use c_lang_coding_projects.LinkedList.{ListObj, new_list}
use c_lang_coding_projects.LinkedList.Copying.{append_nodes, copy_list, concat_list}

abbrev pub listed : List Ptr → Ptr → Bool
listed [] a = false
listed (b ∷ ps) a = (b == a) || listed ps a

-- Distinct addresses that hold no node, as successive calls of `malloc` return them.
abbrev pub Supply : Heap → List Ptr → Type 0
Supply h [] = Unit
Supply h (p ∷ ps) = (p ≢ null) × (h p ≡ none) × (listed ps p ≡ false) × Supply h ps

-- The values of a chain in new nodes.
abbrev pub renewed : List Ptr → Cells → Cells
renewed [] xs = []
renewed (p ∷ ps) [] = []
renewed (p ∷ ps) ((a, v) ∷ xs) = (p, v) ∷ renewed ps xs

pub values-renewed :
    (ps : List Ptr) (xs : Cells) → length xs ≤ length ps → values (renewed ps xs) ≡ values xs
values-renewed [] [] le = refl
values-renewed [] (x ∷ xs) le = elim le [ ]
values-renewed (p ∷ ps) [] le = refl
values-renewed (p ∷ ps) ((a, v) ∷ xs) le = ap (λ vs. v ∷ vs) (values-renewed ps xs (omega arith))

Supply-frame :
    (h g : Heap) (ps : List Ptr)
    → Supply h ps
    → ((a : Ptr) → listed ps a ≡ true → g a ≡ h a)
    → Supply g ps
Supply-frame h g [] s same = tt
Supply-frame h g (p ∷ ps) s same =
    (s.0, same p (ground arith) ∙ s.1, s.2, Supply-frame h g ps s.3 (λ a i. same a (ground arith)))

Supply-none : (h : Heap) (ps : List Ptr) (a : Ptr) → Supply h ps → listed ps a ≡ true → h a ≡ none
Supply-none h [] a s i = cc
Supply-none h (p ∷ ps) a s i = elim (Bool-cases (p == a)) [
  | inl e ↦ subst (λ q. h q ≡ none) (ground arith) s.1
  | inr e ↦ Supply-none h ps a s.3 (ground arith)
]

-- What one round of the loop needs and keeps: the nodes still to read, `rest`, are not those of the
-- list that is built, `done`.
pub record Round (h : Heap) (l : ListObj) (done : Cells) (p : Ptr) (rest : Cells) (ps : List Ptr)
    : Type 0 where
  pub list : IsList h l done
  pub source : Chain h p rest null
  pub apart : Apart rest done
  pub supply : Supply h ps

Round-next :
    (h g : Heap) (l l' : ListObj) (done : Cells) (p a v q : ℕ) (rest : Cells) (ps : List Ptr)
    → Round h l done p ((a, v) ∷ rest) (q ∷ ps)
    → IsList g l' (done ++ (q, v) ∷ [])
    → SameOutside (done ++ (q, v) ∷ []) h g
    → Round g l' (done ++ (q, v) ∷ []) a rest ps
Round-next h g l l' done p a v q rest ps r list same = record {
  list = list;
  source = Chain-frame h g a rest null r.source.3 (λ b i. same b (apart b i));
  apart = apart;
  supply = Supply-frame h g ps r.supply.3 (λ b i. same b (unused b i));
}
  where
    apart : Apart rest (done ++ (q, v) ∷ [])
    apart b i =
        let live = Chain-live h a rest null b r.source.3 i in
        let other : q ≢ b = λ e. cc (live.1, r.supply.1) in
        ground (arith, owns-append done ((q, v) ∷ []) b, r.apart b, other)

    unused : (b : Ptr) → listed ps b ≡ true → owns (done ++ (q, v) ∷ []) b ≡ false
    unused b i =
        let out =
          not-owns_of_none h null done null b r.list.chain (Supply-none h ps b r.supply.3 i) in
        ground (arith, owns-append done ((q, v) ∷ []) b, out, i, r.supply.2)

owns_less :
    (done : Cells) (q v : ℕ) (zs : Cells) (b : Ptr)
    → owns (done ++ (q, v) ∷ zs) b ≡ false
    → owns (done ++ (q, v) ∷ []) b ≡ false
owns_less done q v zs b o =
    ground (arith, owns-append done ((q, v) ∷ zs) b, owns-append done ((q, v) ∷ []) b)

append_nodes_lem :
    (ps : List Ptr) (h : Heap) (l : ListObj) (done : Cells) (p : Ptr) (rest : Cells)
    → Round h l done p rest ps
    → length rest ≤ length ps
    → Returns (append_nodes ps l (first rest null) h) (λ (l', left) g.
      Round g l' (done ++ renewed ps rest) null [] left
      × (left ≡ drop (length rest) ps)
      × (l'.index ≡ l.index)
      × SameOutside (done ++ renewed ps rest) h g)
unfolding append_nodes
append_nodes_lem [] h l done p [] r le = (
  (l, []),
  h,
  refl,
  (
    subst (λ zs. Round h l zs null [] []) (sym (append-nil done))
        (record { list = r.list; source = tt; apart = λ a i. cc; supply = tt }),
    refl,
    refl,
    λ a o. refl,
  ),
)
append_nodes_lem [] h l done p (x ∷ rest) r le = elim le [ ]
append_nodes_lem (q ∷ ps) h l done p [] r le = (
  (l, q ∷ ps),
  h,
  refl,
  (
    subst (λ zs. Round h l zs null [] (q ∷ ps)) (sym (append-nil done))
        (record { list = r.list; source = tt; apart = λ a i. cc; supply = r.supply }),
    refl,
    refl,
    λ a o. refl,
  ),
)
append_nodes_lem (q ∷ ps) h l done p ((a, v) ∷ rest) r le =
    let na : (a == null) ≡ false = ground (arith, r.source.0) in
    let (l', g, run, here) = append_lem h l q v r.supply.0 r.supply.1 done r.list in
    let next = Round-next h g l l' done p a v q rest ps r here.0 here.2 in
    let ((l'', left), k, run', there) =
      append_nodes_lem ps g l' (done ++ (q, v) ∷ []) a rest next (omega arith) in
    let joined = append_assoc done ((q, v) ∷ []) (renewed ps rest) in
    (
      (l'', left),
      k,
      rw (na, load-ok h a r.source.0 _ r.source.1, run) run',
      (
        subst (λ zs. Round k l'' zs null [] left) joined there.0,
        there.1,
        there.2 ∙ here.1,
        λ b o.
            subst (λ zs. SameOutside zs g k) joined there.3 b o
            ∙ here.2 b (owns_less done q v (renewed ps rest) b o),
      ),
    )

listed-renewed :
    (ps : List Ptr) (xs : Cells) (a : Ptr) → owns (renewed ps xs) a ≡ true → listed ps a ≡ true
listed-renewed [] xs a i = cc
listed-renewed (p ∷ ps) [] a i = cc
listed-renewed (p ∷ ps) ((b, v) ∷ xs) a i = ground (arith, listed-renewed ps xs a)

live_out :
    (h : Heap) (p : Ptr) (xs new : Cells)
    → Chain h p xs null
    → ((a : Ptr) → owns new a ≡ true → h a ≡ none)
    → Apart xs new
live_out h p xs new c unused a i = elim (Bool-cases (owns new a)) [
  | inl e ↦ cc (unused a e, (Chain-live h p xs null a c i).1)
  | inr e ↦ e
]

-- A list stays what it is while only unused addresses are written to.
IsList-frame :
    (h g : Heap) (l : ListObj) (xs new : Cells)
    → IsList h l xs
    → ((a : Ptr) → owns new a ≡ true → h a ≡ none)
    → SameOutside new h g
    → IsList g l xs
IsList-frame h g l xs new is unused same = record {
  chain =
      Chain-frame h g null xs null is.chain
        (λ a i. same a (live_out h null xs new is.chain unused a i));
  front = is.front;
  back = is.back;
  count = is.count;
  placed = is.placed;
}

new_list-IsList : (h : Heap) → IsList h new_list []
unfolding new_list
new_list-IsList h = record { chain = tt; front = refl; back = refl; count = refl; placed = refl }

first-Round :
    (h : Heap) (l : ListObj) (xs : Cells) (ps : List Ptr)
    → IsList h l xs
    → Supply h ps
    → Round h new_list [] null xs ps
first-Round h l xs ps is s = record {
  list = new_list-IsList h;
  source = is.chain;
  apart = λ a i. refl;
  supply = s;
}

new_list-index : new_list.index ≡ none
unfolding new_list
new_list-index = refl

-- For a list on the heap and enough unused addresses, `copyList` returns a list of new nodes with the
-- values of `L` and no cursor. `L` stays what it was.
pub copy_list_lem :
    (h : Heap) (l : ListObj) (xs : Cells) (ps : List Ptr)
    → IsList h l xs
    → Supply h ps
    → length xs ≤ length ps
    → Returns (copy_list ps l h) (λ c g.
      IsList g c (renewed ps xs)
      × (values (renewed ps xs) ≡ values xs)
      × (c.index ≡ none)
      × IsList g l xs)
unfolding copy_list
copy_list_lem h l xs ps is s le =
    let ((c, left), g, run, done) =
      append_nodes_lem ps h new_list [] null xs (first-Round h l xs ps is s) le in
    (
      c,
      g,
      rw (ap (λ q. append_nodes ps new_list q h) is.front ∙ run),
      (
        done.0.list,
        values-renewed ps xs le,
        done.2 ∙ new_list-index,
        IsList-frame h g l xs (renewed ps xs) is
            (λ a i. Supply-none h ps a s (listed-renewed ps xs a i)) done.3,
      ),
    )

listed-drop : (n : ℕ) (ps : List Ptr) (a : Ptr) → listed (drop n ps) a ≡ true → listed ps a ≡ true
listed-drop zero ps a i = i
listed-drop (suc n) [] a i = i
listed-drop (suc n) (p ∷ ps) a i = ground (arith, listed-drop n ps a)

listed_both :
    (ps left : List Ptr) (xs ys : Cells) (n : ℕ) (a : Ptr)
    → left ≡ drop n ps
    → owns (renewed ps xs ++ renewed left ys) a ≡ true
    → listed ps a ≡ true
listed_both ps left xs ys n a e i = elim (Bool-cases (owns (renewed ps xs) a)) [
  | inl old ↦ listed-renewed ps xs a old
  | inr new ↦ listed-drop n ps a (
      subst (λ qs. listed qs a ≡ true) e
        (listed-renewed left ys a
          (ground (arith, owns-append (renewed ps xs) (renewed left ys) a, new, i))))
]

owns_left : (xs ys : Cells) (a : Ptr) → owns (xs ++ ys) a ≡ false → owns xs a ≡ false
owns_left xs ys a o = ground (arith, owns-append xs ys a)

-- For two lists on the heap and enough unused addresses, `concatList` returns a list of its own
-- nodes with the values of `A` and then those of `B`, and no cursor. `A` and `B`, which may be one
-- list, stay what they were.
pub concat_list_lem :
    (h : Heap) (l m : ListObj) (xs ys : Cells) (ps : List Ptr)
    → IsList h l xs
    → IsList h m ys
    → Supply h ps
    → length xs + length ys ≤ length ps
    → Returns (concat_list ps l m h) (λ c g.
      (zs : Cells) × IsList g c zs
      × (values zs ≡ values xs ++ values ys)
      × (c.index ≡ none)
      × IsList g l xs
      × IsList g m ys)
unfolding concat_list
concat_list_lem h l m xs ys ps is it s le =
    let ((c, left), g, run, done) =
      append_nodes_lem ps h new_list [] null xs (first-Round h l xs ps is s) (omega arith) in
    let unused : (a : Ptr) → owns (renewed ps xs) a ≡ true → h a ≡ none =
      λ a i. Supply-none h ps a s (listed-renewed ps xs a i) in
    let both : (a : Ptr) → owns (renewed ps xs ++ renewed left ys) a ≡ true → listed ps a ≡ true =
      λ a i. listed_both ps left xs ys (length xs) a done.1 i in
    let it' : IsList g m ys = IsList-frame h g m ys (renewed ps xs) it unused done.3 in
    let second =
      let made = done.0 in
      (let r : Round g c (renewed ps xs) null ys left = record {
        list = made.list;
        source = it'.chain;
        apart = live_out h null ys (renewed ps xs) it.chain unused;
        supply = made.supply;
      } in
        r) in
    let ((c', left'), k, run', done') =
      append_nodes_lem left g c (renewed ps xs) null ys second
        (omega (arith, ap length done.1, length-drop (length xs) ps)) in
    let new = renewed ps xs ++ renewed left ys in
    let all_unused : (a : Ptr) → owns new a ≡ true → h a ≡ none =
      λ a i. Supply-none h ps a s (both a i) in
    let same : SameOutside new h k =
      λ a o. done'.3 a o ∙ done.3 a (owns_left (renewed ps xs) (renewed left ys) a o) in
    (
      c',
      k,
      rw (
        ap (λ q. append_nodes ps new_list q h) is.front ∙ run,
        ap (λ q. append_nodes left c q g) it.front ∙ run',
      ),
      (
        new,
        done'.0.list,
        values-append (renewed ps xs) (renewed left ys)
            ∙ ap₂ ◌++◌ (values-renewed ps xs (omega arith)) (
                values-renewed left ys
                  (omega (arith, ap length done.1, length-drop (length xs) ps))),
        done'.2 ∙ (done.2 ∙ new_list-index),
        IsList-frame h k l xs new is all_unused same,
        IsList-frame h k m ys new it all_unused same,
      ),
    )
