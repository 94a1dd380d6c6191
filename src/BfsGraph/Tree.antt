-- ===== src/BfsGraph/Tree.antt =====
-- The tree of parents that BFS builds (Graph ADT with BFS & Shortest Paths/Graph.c).
use mathlib.Core.Path.{subst}
use c_lang_coding_projects.Prelude.{
  ℕ, suc, ◌+◌, ◌≤◌, ◌≡◌, ◌≢◌, ◌⊎◌, inl, inr, refl, sym, ap, ◌∙◌, Bool-cases, true, false, none,
  some, List, [], ◌∷◌, ◌++◌, arith, ◌==◌,
}
use c_lang_coding_projects.Sequence.{Seq, append}
use c_lang_coding_projects.Sequence.Visit.{and_then, fold_option}
use c_lang_coding_projects.Arrays.{put, put_self, put_other}
use c_lang_coding_projects.BfsGraph.{Graph, gray, nil, is_white, discover, next_distance}
use c_lang_coding_projects.BfsGraph.Walks.{has, has-append, depth}
use c_lang_coding_projects.BfsGraph.Rounds.{Inside, whites, whites-gray}

-- `v` was found from its parent, by an arc, and is one deeper.
pub record Child (n : ℕ) (adj : ℕ → List ℕ) (g : Graph) (v : ℕ) : Type 0 where
  pub parent_inside : Inside n (g.parent v)
  pub parent_found : is_white (g.color (g.parent v)) ≡ false
  pub arc : has (adj (g.parent v)) v ≡ true
  pub above : ℕ
  pub parent_distance : g.distance (g.parent v) ≡ some above
  pub one_deeper : g.distance v ≡ some (suc above)

-- The vertices that are not white are the source and children; the others have no parent and no
-- distance. `few`
-- bounds the depth of the tree.
pub record Tree (n : ℕ) (adj : ℕ → List ℕ) (s : ℕ) (g : Graph) : Type 0 where
  pub source : g.source ≡ s
  pub order : g.order ≡ n
  pub root_distance : g.distance s ≡ some 0
  pub unfound : (v : ℕ) → Inside n v → is_white (g.color v) ≡ true → g.parent v ≡ nil
  pub blank : (v : ℕ) → Inside n v → is_white (g.color v) ≡ true → g.distance v ≡ none
  pub tree : (v : ℕ) → Inside n v → is_white (g.color v) ≡ false → (v ≡ s) ⊎ Child n adj g v
  pub few :
      (v : ℕ)
      → Inside n v
      → is_white (g.color v) ≡ false
      → depth (g.distance v) + 1 + whites n g.color ≤ n
  pub root_found : is_white (g.color s) ≡ false
  pub root_inside : Inside n s

-- The vertices of the queue are found.
abbrev pub Queued : ℕ → Graph → List ℕ → Type 0
Queued n g q = (v : ℕ) → has q v ≡ true → Inside n v × (is_white (g.color v) ≡ false)

module _ (n : ℕ) (adj : ℕ → List ℕ) (s u d : ℕ) where
  -- The vertex whose neighbors are looked at.
  pub record Current (g : Graph) : Type 0 where
    pub inside : Inside n u
    pub found : is_white (g.color u) ≡ false
    pub here : g.distance u ≡ some d

  module _ (g : Graph) (t : Tree n adj s g) (c : Current g) (x : ℕ) (hx : Inside n x)
      (arc_x : has (adj u) x ≡ true) (new : is_white (g.color x) ≡ true) where
    g' : Graph
    g' = record g {
      color = put g.color x gray;
      distance = put g.distance x (next_distance (g.distance u));
      parent = put g.parent x u;
    }

    other : (v : ℕ) → is_white (g.color v) ≡ false → x ≢ v
    other v e p = cc

    kept_color : (v : ℕ) → is_white (g.color v) ≡ false → is_white (g'.color v) ≡ false
    unfolding g'
    kept_color v e = ap is_white (put_other g.color x gray v (other v e)) ∙ e

    kept_distance : (v : ℕ) → is_white (g.color v) ≡ false → g'.distance v ≡ g.distance v
    unfolding g'
    kept_distance v e = put_other g.distance x _ v (other v e)

    new_distance : g'.distance x ≡ some (suc d)
    unfolding g'
    new_distance = put_self g.distance x _ ∙ ap next_distance c.here

    new_Child : Child n adj g' x
    unfolding g'
    new_Child =
        let p : g'.parent x ≡ u = put_self g.parent x u in
        record {
          parent_inside = subst (Inside n) (sym p) c.inside;
          parent_found = subst (λ z. is_white (g'.color z) ≡ false) (sym p) (kept_color u c.found);
          arc = subst (λ z. has (adj z) x ≡ true) (sym p) arc_x;
          above = d;
          parent_distance =
              subst (λ z. g'.distance z ≡ some d) (sym p) (kept_distance u c.found ∙ c.here);
          one_deeper = new_distance;
        }

    old_Child : (v : ℕ) → x ≢ v → is_white (g.color v) ≡ false → Child n adj g v → Child n adj g' v
    unfolding g'
    old_Child v ne e ch =
        let p : g'.parent v ≡ g.parent v = put_other g.parent x u v ne in
        record {
          parent_inside = subst (Inside n) (sym p) ch.parent_inside;
          parent_found =
              subst (λ z. is_white (g'.color z) ≡ false) (sym p)
                (kept_color (g.parent v) ch.parent_found);
          arc = subst (λ z. has (adj z) v ≡ true) (sym p) ch.arc;
          above = ch.above;
          parent_distance =
              subst (λ z. g'.distance z ≡ some ch.above) (sym p)
                (kept_distance (g.parent v) ch.parent_found ∙ ch.parent_distance);
          one_deeper = kept_distance v e ∙ ch.one_deeper;
        }

    new_or_old :
        (v : ℕ)
        → is_white (g'.color v) ≡ false
        → (x ≡ v) ⊎ ((x ≢ v) × (is_white (g.color v) ≡ false))
    unfolding g'
    new_or_old v e = elim (Bool-cases (x == v)) [
      | inl p ↦ inl (ground (arith, p))
      | inr p ↦
          let ne : x ≢ v = λ q. ground (arith, p, q) in
          inr (ne, ap is_white (sym (put_other g.color x gray v ne)) ∙ e)
    ]

    still_white : (v : ℕ) → is_white (g'.color v) ≡ true → (x ≢ v) × (is_white (g.color v) ≡ true)
    unfolding g'
    still_white v w = elim (Bool-cases (x == v)) [
      | inl p ↦
          let e : x ≡ v = ground (arith, p) in
          absurd (
            cc (
              subst (λ z. is_white (g'.color z) ≡ false) e (ap is_white (put_self g.color x gray)),
              w,
            ))
      | inr p ↦
          let ne : x ≢ v = λ q. ground (arith, p, q) in
          (ne, ap is_white (sym (put_other g.color x gray v ne)) ∙ w)
    ]

    fewer : whites n g'.color + 1 ≡ whites n g.color
    unfolding g'
    fewer = whites-gray n g.color x hx new

    grown : Tree n adj s g'
    unfolding g'
    grown = record {
      source = t.source;
      order = t.order;
      root_distance = kept_distance s t.root_found ∙ t.root_distance;
      unfound = λ v hv w.
          let (ne, w0) = still_white v w in put_other g.parent x u v ne ∙ t.unfound v hv w0;
      blank = λ v hv w.
          let (ne, w0) = still_white v w in put_other g.distance x _ v ne ∙ t.blank v hv w0;
      tree = λ v hv e. elim (new_or_old v e) [
        | inl p ↦ inr (subst (Child n adj g') p new_Child)
        | inr (ne, e0) ↦ elim (t.tree v hv e0) [
          | inl q ↦ inl q
          | inr ch ↦ inr (old_Child v ne e0 ch)
        ]
      ];
      few = λ v hv e. elim (new_or_old v e) [
        | inl p ↦
            subst (λ z. depth (g'.distance z) + 1 + whites n g'.color ≤ n) p
              (omega
                (arith, ap depth new_distance, ap depth c.here, fewer, t.few u c.inside c.found))
        | inr (ne, e0) ↦ omega (arith, ap depth (kept_distance v e0), fewer, t.few v hv e0)
      ];
      root_found = kept_color s t.root_found;
      root_inside = t.root_inside;
    }

    current' : Current g'
    current' = record {
      inside = c.inside;
      found = kept_color u c.found;
      here = kept_distance u c.found ∙ c.here;
    }

    queued' : (q : List ℕ) → Queued n g q → Queued n g' (q ++ x ∷ [])
    unfolding g'
    queued' q h v i = elim (Bool-cases (x == v)) [
      | inl p ↦
          subst (λ z. Inside n z × (is_white (g'.color z) ≡ false)) (ground (arith, p))
            (hx, ap is_white (put_self g.color x gray))
      | inr p ↦
          let (hv, e) = h v (ground (arith, has-append q (x ∷ []) v, i, p)) in (hv, kept_color v e)
    ]

  -- What the loop over neighbors of `u` keeps.
  pub record Grown (g : Graph) (g' : Graph) (q' : List ℕ) : Type 0 where
    pub tree : Tree n adj s g'
    pub current : Current g'
    pub queued : Queued n g' q'
    pub neighbors : g'.neighbors ≡ g.neighbors

  discover-Tree :
      (g : Graph) (q : Seq ℕ) (x : ℕ)
      → Tree n adj s g
      → Current g
      → Queued n g q.items
      → Inside n x
      → has (adj u) x ≡ true
      → (g' : Graph) × (q' : Seq ℕ) × (discover u (g, q) x ≡ some (g', q')) × Grown g g' q'.items
  unfolding discover append g'
  discover-Tree g q x t c h hx arc = elim (Bool-cases (is_white (g.color x))) [
    | inr old ↦ (g, q, rw old refl, record { tree = t; current = c; queued = h; neighbors = refl })
    | inl new ↦ (
      g' g t c x hx arc new,
      append q x,
      rw new refl,
      record {
        tree = grown g t c x hx arc new;
        current = current' g t c x hx arc new;
        queued = queued' g t c x hx arc new q.items h;
        neighbors = refl;
      },
    )
  ]

  pub round-Tree :
      (xs : List ℕ) (g : Graph) (q : Seq ℕ)
      → Tree n adj s g
      → Current g
      → Queued n g q.items
      → ((y : ℕ) → has xs y ≡ true → Inside n y × (has (adj u) y ≡ true))
      → (g' : Graph) × (q' : Seq ℕ) × (fold_option (discover u) (g, q) xs ≡ some (g', q'))
        × Grown g g' q'.items
  round-Tree [] g q t c h arcs =
      (g, q, refl, record { tree = t; current = c; queued = h; neighbors = refl })
  round-Tree (x ∷ xs) g q t c h arcs =
      let (hx, arc) = arcs x (ground arith) in
      let (g1, q1, run, a) = discover-Tree g q x t c h hx arc in
      let (g2, q2, run', b) =
        round-Tree xs g1 q1 a.tree a.current a.queued (λ y i. arcs y (ground arith)) in
      (
        g2,
        q2,
        ap (λ o. and_then o (λ st. fold_option (discover u) st xs)) run ∙ run',
        record {
          tree = b.tree;
          current = b.current;
          queued = b.queued;
          neighbors = b.neighbors ∙ a.neighbors;
        },
      )
