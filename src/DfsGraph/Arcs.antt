-- ===== src/DfsGraph/Arcs.antt =====
-- `addArc` of Graph ADT with DFS and Strongly Connected Components/Graph.c.
use mathlib.Core.List.{append_assoc}
use mathlib.Core.Path.{subst}
use c_lang_coding_projects.Prelude.{
  ℕ, zero, suc, ◌+◌, ◌-◌, ◌≤◌, ◌<◌, ◌≡◌, refl, sym, ap, ◌∙◌, inl, inr, Bool, Bool-cases, true,
  false, ◌||◌, ◌&&◌, none, some, List, [], ◌∷◌, ◌++◌, arith, ◌==◌, ltb, if◌then◌else◌, length,
  length-append,
}
use c_lang_coding_projects.Int.{inc}
use c_lang_coding_projects.Sequence.{Seq, append, get, move_front, move_next}
use c_lang_coding_projects.Sequence.Visit.{get_middle}
use c_lang_coding_projects.Sequence.Insertion.{insert_from_back_lem, insert_last, all_above}
use c_lang_coding_projects.Arrays.{put, put_self}
use c_lang_coding_projects.BfsGraph.Walks.{has}
use c_lang_coding_projects.BfsGraph.WellFormed.{has-insert_last, put_each}
use c_lang_coding_projects.DfsGraph.{Graph, out_of_range, find_arc, add_arc}

abbrev pub adjacent : Graph → ℕ → List ℕ
adjacent g u = (g.neighbors u).items

abbrev pub IsVertex : Graph → ℕ → Type 0
IsVertex g u = (1 ≤ u) × (u ≤ g.order)

in_range : (g : Graph) (u : ℕ) → IsVertex g u → out_of_range g u ≡ false
in_range g u h = ground (arith, h.0, h.1)

-- No item stands in the list twice.
abbrev pub IsDistinct : List ℕ → Type 0
IsDistinct [] = Unit
IsDistinct (x ∷ xs) = (has xs x ≡ false) × IsDistinct xs

insert_last-IsDistinct :
    (above : ℕ → Bool) (v : ℕ) (xs : List ℕ)
    → has xs v ≡ false
    → IsDistinct xs
    → IsDistinct (insert_last above v xs)
unfolding insert_last
insert_last-IsDistinct above v [] out d = (refl, tt)
insert_last-IsDistinct above v (x ∷ xs) out d = elim (Bool-cases (all_above above (x ∷ xs))) [
  | inl e ↦ rw e (out, d)
  | inr e ↦ rw e (
    ground (arith, has-insert_last above v xs x, out, d.0),
    insert_last-IsDistinct above v xs (ground (arith, out)) d.1,
  )
]

abbrev at : List ℕ → ℕ → Seq ℕ
at xs i = record { items = xs; place = some i }

-- The search from item number `length xs` on.
find_arc-has :
    (v fuel : ℕ) (xs : List ℕ) (x : ℕ) (ys : List ℕ)
    → suc (length ys) < fuel
    → (l : Seq ℕ) × (find_arc fuel (at (xs ++ x ∷ ys) (length xs)) v ≡ some (has (x ∷ ys) v, l))
      × (l.items ≡ xs ++ x ∷ ys)
unfolding find_arc get move_next
find_arc-has v zero xs x ys lt = elim lt [ ]
find_arc-has v (suc zero) xs x ys lt = absurd (omega arith)
find_arc-has v (suc (suc fuel)) xs x [] lt =
    let last_one : (length xs == length (xs ++ x ∷ []) - 1) ≡ true =
      ground (arith, length-append xs (x ∷ [])) in
    elim (Bool-cases (x == v)) [
      | inl e ↦ (at (xs ++ x ∷ []) (length xs), rw (get_middle xs x [], e), refl)
      | inr e ↦ (
        record { items = xs ++ x ∷ []; place = none },
        rw (get_middle xs x [], e, last_one),
        refl,
      )
    ]
find_arc-has v (suc (suc fuel)) xs x (y ∷ ys) lt =
    let more : (length xs == length (xs ++ x ∷ y ∷ ys) - 1) ≡ false =
      ground (arith, length-append xs (x ∷ y ∷ ys)) in
    elim (Bool-cases (x == v)) [
      | inl e ↦ (at (xs ++ x ∷ y ∷ ys) (length xs), rw (get_middle xs x (y ∷ ys), e), refl)
      | inr e ↦
          let (l, run, its) = find_arc-has v (suc fuel) (xs ++ x ∷ []) y ys (omega arith) in
          let long : length (xs ++ x ∷ []) ≡ suc (length xs) =
            omega (arith, length-append xs (x ∷ [])) in
          let joined = append_assoc xs (x ∷ []) (y ∷ ys) in
          let run' =
            subst (λ zs. find_arc (suc fuel) (at zs (suc (length xs))) v ≡ some (has (y ∷ ys) v, l))
              joined
              (subst
                (λ n.
                  find_arc (suc fuel) (at ((xs ++ x ∷ []) ++ y ∷ ys) n) v
                  ≡ some (has (y ∷ ys) v, l))
                long run) in
          (l, rw (get_middle xs x (y ∷ ys), e, more) run', its ∙ joined)
    ]

-- `m` holds the items `xs` and `v`, each once.
record Joined (xs : List ℕ) (v : ℕ) (m : Seq ℕ) : Type 0 where
  distinct : IsDistinct m.items
  arcs : (y : ℕ) → has m.items y ≡ ((v == y) || has xs y)

has_already : (xs : List ℕ) (v y : ℕ) → has xs v ≡ true → has xs y ≡ ((v == y) || has xs y)
has_already xs v y t = elim (Bool-cases (v == y)) [
  | inl e ↦ rw e (subst (λ z. has xs z ≡ true) (ground (arith, e)) t)
  | inr e ↦ rw e
]

Joined-there :
    (l : Seq ℕ) (v : ℕ) (xs : List ℕ)
    → l.items ≡ xs
    → IsDistinct xs
    → has xs v ≡ true
    → Joined xs v l
Joined-there l v xs same d t = record {
  distinct = subst IsDistinct (sym same) d;
  arcs = λ y. ap (λ zs. has zs y) same ∙ has_already xs v y t;
}

Joined-new :
    (m : Seq ℕ) (v : ℕ) (xs : List ℕ)
    → m.items ≡ insert_last (λ y. ltb v y) v xs
    → IsDistinct xs
    → has xs v ≡ false
    → Joined xs v m
Joined-new m v xs its d f = record {
  distinct = subst IsDistinct (sym its) (insert_last-IsDistinct (λ y. ltb v y) v xs f d);
  arcs = λ y. ap (λ zs. has zs y) its ∙ has-insert_last (λ x. ltb v x) v xs y;
}

-- What `addArc` makes of a graph, for the list `m` of `u`.
module _ (g : Graph) (u v : ℕ) (m : Seq ℕ) where
  arcs-put :
      Joined (adjacent g u) v m
      → (w y : ℕ)
      → has (put g.neighbors u m w).items y ≡ (((u == w) && (v == y)) || has (adjacent g w) y)
  arcs-put a =
      put_each (λ w t. (y : ℕ) → has t.items y ≡ (((u == w) && (v == y)) || has (adjacent g w) y))
        g.neighbors u m (λ y. a.arcs y ∙ ground arith) (λ w ne y. ground (arith, ne))

  IsDistinct-put : Joined (adjacent g u) v m → IsDistinct (put g.neighbors u m u).items
  IsDistinct-put a =
      subst (λ (t : Seq ℕ). IsDistinct t.items) (sym (put_self g.neighbors u m)) a.distinct

-- `addArc` at two vertices returns. The adjacency list of `u` holds no vertex twice if it did not
-- before; the arcs are those that were there and the new one; the size grows by one if the arc is new,
-- and else not at all.
pub add_arc-IsDistinct :
    (g : Graph) (u v : ℕ)
    → IsVertex g u
    → IsVertex g v
    → IsDistinct (adjacent g u)
    → (g' : Graph) × (add_arc g u v ≡ some g')
      × IsDistinct (adjacent g' u)
      × ((w y : ℕ) → has (adjacent g' w) y ≡ (((u == w) && (v == y)) || has (adjacent g w) y))
      × (g'.size ≡ (if has (adjacent g u) v then g.size else inc g.size))
unfolding add_arc append move_front
add_arc-IsDistinct g u v hu hv d = go (adjacent g u) refl
  where
    go :
        (xs : List ℕ)
        → adjacent g u ≡ xs
        → (g' : Graph) × (add_arc g u v ≡ some g')
          × IsDistinct (adjacent g' u)
          × ((w y : ℕ) → has (adjacent g' w) y ≡ (((u == w) && (v == y)) || has (adjacent g w) y))
          × (g'.size ≡ (if has (adjacent g u) v then g.size else inc g.size))
    go [] e =
        let m : Seq ℕ = append (g.neighbors u) v in
        let a : Joined (adjacent g u) v m = record {
          distinct = subst (λ l. IsDistinct (l ++ v ∷ [])) (sym e) (refl, tt);
          arcs = λ y. subst (λ l. has (l ++ v ∷ []) y ≡ ((v == y) || has l y)) (sym e) refl;
        } in
        (
          record g { neighbors = put g.neighbors u m; size = inc g.size },
          rw (in_range g u hu, in_range g v hv, e),
          IsDistinct-put g u v m a,
          arcs-put g u v m a,
          rw e,
        )
    go (x ∷ xs) e =
        let (l, run, its) = find_arc-has v (length (x ∷ xs) + 1) [] x xs (omega arith) in
        let same : l.items ≡ adjacent g u = its ∙ sym e in
        let full : (length (adjacent g u) == 0) ≡ false = ground (arith, ap length e) in
        let pos : ltb 0 (length (adjacent g u)) ≡ true = ground (arith, ap length e) in
        let search =
          subst (λ zs. find_arc (length zs + 1) (at zs 0) v ≡ some (has zs v, l)) (sym e) run in
        elim (Bool-cases (has (adjacent g u) v)) [
          | inl t ↦
              let a = Joined-there l v (adjacent g u) same d t in
              (
                record g { neighbors = put g.neighbors u l },
                rw (in_range g u hu, in_range g v hv, full, pos, search, t),
                IsDistinct-put g u v l a,
                arcs-put g u v l a,
                rw t,
              )
          | inr f ↦
              let (m, ran, put_in) =
                insert_from_back_lem (λ y. ltb v y) l v (ground (arith, ap length its)) in
              let a =
                Joined-new m v (adjacent g u) (put_in ∙ ap (insert_last (λ y. ltb v y) v) same) d
                  f in
              (
                record g { neighbors = put g.neighbors u m; size = inc g.size },
                rw (in_range g u hu, in_range g v hv, full, pos, search, f, ran),
                IsDistinct-put g u v m a,
                arcs-put g u v m a,
                rw f,
              )
        ]
