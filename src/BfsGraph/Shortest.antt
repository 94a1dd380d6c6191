-- ===== src/BfsGraph/Shortest.antt =====
-- BFS as a whole: its loop and the distances behind it.
use mathlib.Core.Path.{subst}
use c_lang_coding_projects.Prelude.{
  ℕ, zero, suc, ◌+◌, ◌≤◌, ◌<◌, ◌≡◌, ◌≢◌, ◌⊎◌, inl, inr, refl, sym, ap, ◌∙◌, Bool-cases, true, false,
  Option, none, some, List, [], ◌∷◌, arith, ◌==◌, ltb, length,
}
use c_lang_coding_projects.Sequence.{Seq, append, fresh_seq, front, delete_front, place_prev}
use c_lang_coding_projects.Sequence.Visit.{visit_lem}
use c_lang_coding_projects.Arrays.{put, put_self, put_other, fill, fill_lem}
use c_lang_coding_projects.BfsGraph.{
  Graph, Color, white, gray, black, is_white, discover, bfs_loop, bfs_start, bfs,
}
use c_lang_coding_projects.BfsGraph.Arcs.{adjacent, IsVertex}
use c_lang_coding_projects.BfsGraph.Walks.{has, depth, is_black, Walk, start, later, Inv}
use c_lang_coding_projects.BfsGraph.Discover.{finished}
use c_lang_coding_projects.BfsGraph.Rounds.{Inside, whites, whites-gray, whites-black, round_lem}

-- Arcs lead to vertices, and the cursor of an empty list is undefined.
pub record IsGraph (g : Graph) : Type 0 where
  pub arcs : (u v : ℕ) → IsVertex g u → has (adjacent g u) v ≡ true → IsVertex g v
  pub cursors : (u : ℕ) → adjacent g u ≡ [] → (g.neighbors u).place ≡ none

-- The adjacency lists of `g` are `adj`.
abbrev pub Lists : (ℕ → List ℕ) → (ℕ → Seq ℕ) → Type 0
Lists adj l = (w : ℕ) → ((l w).items ≡ adj w) × ((l w).items ≡ [] → (l w).place ≡ none)

pub Lists-put :
    (adj : ℕ → List ℕ) (l : ℕ → Seq ℕ) (u : ℕ)
    → Lists adj l
    → Lists adj (put l u (fresh_seq (l u).items))
Lists-put adj l u h w = elim (Bool-cases (u == w)) [
  | inl e ↦
      let p : u ≡ w = ground (arith, e) in
      subst
        (λ z.
          ((put l u (fresh_seq (l u).items) z).items ≡ adj z)
          × ((put l u (fresh_seq (l u).items) z).items ≡ []
              → (put l u (fresh_seq (l u).items) z).place ≡ none))
        p
        (let here = put_self l u (fresh_seq (l u).items) in
          (ap (λ (t : Seq ℕ). t.items) here ∙ (h u).0, λ e. ap (λ (t : Seq ℕ). t.place) here))
  | inr e ↦
      subst (λ (t : Seq ℕ). (t.items ≡ adj w) × (t.items ≡ [] → t.place ≡ none))
        (sym (put_other l u (fresh_seq (l u).items) w (λ p. ground (arith, e, p)))) (h w)
]

module _ (n : ℕ) (adj : ℕ → List ℕ) (s : ℕ)
    (arcs : (u v : ℕ) → Inside n u → has (adj u) v ≡ true → Inside n v) where
  -- The loop comes to its end with an empty queue.
  loop_lem :
      (fuel : ℕ) (g : Graph) (xs : List ℕ) (p : Option ℕ)
      → Lists adj g.neighbors
      → Inv (Inside n) adj s g.color g.distance xs
      → whites n g.color + length xs < fuel
      → (g' : Graph) × (bfs_loop fuel g (record { items = xs; place = p }) ≡ some g')
        × Inv (Inside n) adj s g'.color g'.distance []
  unfolding bfs_loop front delete_front
  loop_lem zero g xs p lists inv lt = elim lt [ ]
  loop_lem (suc fuel) g [] p lists inv lt = (g, refl, inv)
  loop_lem (suc fuel) g (u ∷ xs) p lists inv lt =
      let q : Seq ℕ = record { items = xs; place = place_prev p } in
      let some_items : ltb 0 (length (u ∷ xs)) ≡ true = ground arith in
      let (here, cursor) = lists u in
      let hu = inv.inside u (ground arith) in
      let in_adj : (y : ℕ) → has (g.neighbors u).items y ≡ true → has (adj u) y ≡ true =
        λ y i. subst (λ l. has l y ≡ true) here i in
      let (g1, q1, run, v) =
        round_lem n adj s u (g.neighbors u).items g q inv
          (λ y i. (in_adj y i, arcs u y hu (in_adj y i))) in
      let g2 : Graph = record g1 {
        color = put g1.color u black;
        neighbors = put g1.neighbors u (fresh_seq (g1.neighbors u).items);
      } in
      let processed : (y : ℕ)
          → has (adj u) y ≡ true
          → (is_white (g1.color y) ≡ false) × (depth (g1.distance y) ≤ depth (g1.distance u) + 1) =
        λ y i. v.met y (subst (λ l. has l y ≡ true) (sym here) i) in
      let inv' = finished (Inside n) adj s g1.color g1.distance u q1.items v.inv processed in
      let lists' : Lists adj g2.neighbors =
        Lists-put adj g1.neighbors u (subst (Lists adj) (sym v.neighbors) lists) in
      let less = whites-black n g1.color u (v.inv.queued u (ground arith)) in
      let (g3, run', end) =
        loop_lem fuel g2 q1.items q1.place lists' inv' (omega (arith, less, v.measure, lt)) in
      (g3, rw (some_items, visit_lem (discover u) (g.neighbors u) (g, q) cursor, run) run', end)

whites-le : (n : ℕ) (c : ℕ → Color) → whites n c ≤ n
unfolding whites
whites-le zero c = omega arith
whites-le (suc n) c = ground (arith, whites-le n c)

-- What BFS assigns before its loop.
module _ (n : ℕ) (adj : ℕ → List ℕ) (s : ℕ) (hs : Inside n s) (c : ℕ → Color)
    (f : ℕ → Option ℕ) where
  abbrev pub first_color : ℕ → Color
  first_color = put (fill n c white) s gray

  abbrev pub first_dist : ℕ → Option ℕ
  first_dist = put (fill n f none) s (some 0)

  rest_white : (v : ℕ) → Inside n v → s ≢ v → first_color v ≡ white
  rest_white v h ne = put_other (fill n c white) s gray v ne ∙ fill_lem n c white v h.0 h.1

  rest_none : (v : ℕ) → Inside n v → s ≢ v → first_dist v ≡ none
  rest_none v h ne = put_other (fill n f none) s (some 0) v ne ∙ fill_lem n f none v h.0 h.1

  pub s_gray : first_color s ≡ gray
  s_gray = put_self (fill n c white) s gray

  pub source_or_white :
      (v : ℕ) → Inside n v → (s ≡ v) ⊎ ((first_color v ≡ white) × (first_dist v ≡ none))
  source_or_white v h = elim (Bool-cases (s == v)) [
    | inl e ↦ inl (ground (arith, e))
    | inr e ↦
        let ne : s ≢ v = λ p. ground (arith, e, p) in inr (rest_white v h ne, rest_none v h ne)
  ]

  none_black : (v : ℕ) → Inside n v → is_black (first_color v) ≡ true → ⊥
  none_black v h b = elim (source_or_white v h) [
    | inl e ↦ cc (subst (λ z. is_black (first_color z) ≡ false) e (ap is_black s_gray), b)
    | inr w ↦ cc (ap is_black w.0, b)
  ]

  Inv-first : Inv (Inside n) adj s first_color first_dist (s ∷ [])
  Inv-first = record {
    inside = λ v i. subst (Inside n) (ground (arith, i)) hs;
    queued = λ v i.
        subst (λ z. is_white (first_color z) ≡ false) (ground (arith, i)) (ap is_white s_gray);
    found = λ v h e. elim (source_or_white v h) [
      | inl p ↦ inr (ground (arith, p))
      | inr w ↦ absurd (cc (ap is_white w.0, e))
    ];
    blank = λ v h e. elim (source_or_white v h) [
      | inl p ↦
          absurd (cc (subst (λ z. is_white (first_color z) ≡ false) p (ap is_white s_gray), e))
      | inr w ↦ w.1
    ];
    reached = λ v h e. elim (source_or_white v h) [
      | inl p ↦ (
        0,
        subst (λ z. first_dist z ≡ some 0) p (put_self (fill n f none) s (some 0)),
        subst (λ z. Walk adj s z 0) p start,
      )
      | inr w ↦ absurd (cc (ap is_white w.0, e))
    ];
    done = λ u v h b i. absurd (none_black u h b);
    past = λ u x h b i. absurd (none_black u h b);
    order = (tt, tt);
    source_color = ap is_white s_gray;
    source_dist = put_self (fill n f none) s (some 0);
  }

  pub few_white : whites n first_color + 1 ≤ n
  few_white = omega (
    arith,
    whites-gray n (fill n c white) s hs (ap is_white (fill_lem n c white s hs.0 hs.1)),
    whites-le n (fill n c white),
  )

-- Behind the loop: no walk is shorter than the distance.
module _ (n : ℕ) (adj : ℕ → List ℕ) (s : ℕ) (hs : Inside n s)
    (arcs : (u v : ℕ) → Inside n u → has (adj u) v ≡ true → Inside n v) (color : ℕ → Color)
    (dist : ℕ → Option ℕ) (inv : Inv (Inside n) adj s color dist []) where
  all_black : (v : ℕ) → Inside n v → is_white (color v) ≡ false → is_black (color v) ≡ true
  all_black v h e = elim (inv.found v h e) [ inl b ↦ b | inr i ↦ cc ]

  no_shorter :
      {v k : ℕ} → Walk adj s v k → Inside n v × (is_white (color v) ≡ false) × (depth (dist v) ≤ k)
  no_shorter start = (hs, inv.source_color, omega (arith, ap depth inv.source_dist))
  no_shorter (later {u} {v} w i) =
      let (hu, nw, le) = no_shorter w in
      let (nw', le') = inv.done u v hu (all_black u hu nw) i in
      (arcs u v hu i, nw', omega (arith, le, le'))

  exact : (v d : ℕ) → Inside n v → dist v ≡ some d → Walk adj s v d
  exact v d h e = elim (Bool-cases (is_white (color v))) [
    | inl w ↦ absurd (cc (inv.blank v h w, e))
    | inr w ↦
        let (k, f, walk) = inv.reached v h w in subst (λ o. Walk adj s v (depth o)) (sym f ∙ e) walk
  ]

  shortest : (v k : ℕ) → Walk adj s v k → (d : ℕ) × (dist v ≡ some d) × (d ≤ k)
  shortest v k w =
      let (h, nw, le) = no_shorter w in
      let (d, e, walk) = inv.reached v h nw in (d, e, omega (arith, le, ap depth e))

-- BFS from a vertex of a graph returns. The distance that it gives to a vertex is the length of a walk
-- from the source, and a vertex to which a walk leads has a distance, which is at most the walk's
-- length.
pub bfs_lem :
    (g : Graph) (s : ℕ)
    → IsGraph g
    → IsVertex g s
    → (g' : Graph) × (bfs g s ≡ some g')
      × ((v d : ℕ) → IsVertex g v → g'.distance v ≡ some d → Walk (adjacent g) s v d)
      × ((v k : ℕ) → Walk (adjacent g) s v k → (d : ℕ) × (g'.distance v ≡ some d) × (d ≤ k))
unfolding bfs bfs_start append
bfs_lem g s is hs =
    let n = g.order in
    let adj = adjacent g in
    let (g', run, end) =
      loop_lem n adj s is.arcs (n + 1) (bfs_start g s) (s ∷ []) none (λ w. (refl, is.cursors w))
        (Inv-first n adj s hs g.color g.distance)
        (omega (arith, few_white n adj s hs g.color g.distance)) in
    (
      g',
      run,
      exact n adj s hs is.arcs g'.color g'.distance end,
      shortest n adj s hs is.arcs g'.color g'.distance end,
    )
