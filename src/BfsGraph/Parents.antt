-- ===== src/BfsGraph/Parents.antt =====
-- BFS (Graph ADT with BFS & Shortest Paths/Graph.c) leaves a tree of parents behind.
use mathlib.Core.Path.{subst}
use c_lang_coding_projects.Prelude.{
  ℕ, zero, suc, ◌+◌, ◌≤◌, ◌≡◌, inl, inr, refl, sym, ap, ◌∙◌, Bool-cases, true, false, Option, none,
  some, List, [], ◌∷◌, arith, ◌==◌, ltb, length,
}
use c_lang_coding_projects.Sequence.{Seq, append, fresh_seq, front, delete_front, place_prev}
use c_lang_coding_projects.Sequence.Visit.{visit_lem}
use c_lang_coding_projects.Arrays.{put, put_self, put_other, fill, fill_lem}
use c_lang_coding_projects.BfsGraph.{
  Graph, black, nil, is_white, discover, bfs_loop, bfs_start, bfs,
}
use c_lang_coding_projects.BfsGraph.Arcs.{adjacent, IsVertex}
use c_lang_coding_projects.BfsGraph.Walks.{has, depth}
use c_lang_coding_projects.BfsGraph.Rounds.{Inside, whites, whites-black}
use c_lang_coding_projects.BfsGraph.Shortest.{
  IsGraph, Lists, Lists-put, few_white, source_or_white, s_gray,
}
use c_lang_coding_projects.BfsGraph.Tree.{Tree, Queued, round-Tree}

-- The graph that a call returns, if it does.
abbrev pub Holds : Option Graph → (Graph → Type 0) → Type 0
Holds none P = Unit
Holds (some g) P = P g

abbrev pub Left : ℕ → (ℕ → List ℕ) → ℕ → Graph → Type 0
Left n adj s g = Tree n adj s g × Lists adj g.neighbors

module _ (n : ℕ) (adj : ℕ → List ℕ) (s : ℕ) where
  -- The end of a round.
  closed : Graph → ℕ → Graph
  closed g u = record g {
    color = put g.color u black;
    neighbors = put g.neighbors u (fresh_seq (g.neighbors u).items);
  }

  same_white :
      (g : Graph) (u v : ℕ)
      → is_white (g.color u) ≡ false
      → is_white ((closed g u).color v) ≡ is_white (g.color v)
  unfolding closed
  same_white g u v e = elim (Bool-cases (u == v)) [
    | inl p ↦
        let q : u ≡ v = ground (arith, p) in
        subst (λ z. is_white ((closed g u).color z) ≡ is_white (g.color z)) q
          (ap is_white (put_self g.color u black) ∙ sym e)
    | inr p ↦ ap is_white (put_other g.color u black v (λ q. ground (arith, p, q)))
  ]

  closed-Tree :
      (g : Graph) (u : ℕ)
      → is_white (g.color u) ≡ false
      → Tree n adj s g
      → Tree n adj s (closed g u)
  unfolding closed
  closed-Tree g u e t = record {
    source = t.source;
    order = t.order;
    root_distance = t.root_distance;
    unfound = λ v hv w. t.unfound v hv (sym (same_white g u v e) ∙ w);
    blank = λ v hv w. t.blank v hv (sym (same_white g u v e) ∙ w);
    tree = λ v hv w. elim (t.tree v hv (sym (same_white g u v e) ∙ w)) [
      | inl p ↦ inl p
      | inr ch ↦ inr (record {
        parent_inside = ch.parent_inside;
        parent_found = same_white g u (g.parent v) e ∙ ch.parent_found;
        arc = ch.arc;
        above = ch.above;
        parent_distance = ch.parent_distance;
        one_deeper = ch.one_deeper;
      })
    ];
    few = λ v hv w.
        omega (arith, whites-black n g.color u e, t.few v hv (sym (same_white g u v e) ∙ w));
    root_found = same_white g u s e ∙ t.root_found;
    root_inside = t.root_inside;
  }

  pub some_distance :
      (g : Graph) (u : ℕ)
      → Tree n adj s g
      → Inside n u
      → is_white (g.color u) ≡ false
      → (d : ℕ) × (g.distance u ≡ some d)
  some_distance g u t hu e = elim (t.tree u hu e) [
    | inl p ↦ (0, ap g.distance p ∙ t.root_distance)
    | inr ch ↦ (suc ch.above, ch.one_deeper)
  ]

  module _ (arcs : (u v : ℕ) → Inside n u → has (adj u) v ≡ true → Inside n v) where
    loop-Tree :
        (fuel : ℕ) (g : Graph) (xs : List ℕ) (p : Option ℕ)
        → Lists adj g.neighbors
        → Tree n adj s g
        → Queued n g xs
        → Holds (bfs_loop fuel g (record { items = xs; place = p })) (Left n adj s)
    unfolding bfs_loop front delete_front closed
    loop-Tree zero g xs p lists t h = tt
    loop-Tree (suc fuel) g [] p lists t h = (t, lists)
    loop-Tree (suc fuel) g (u ∷ xs) p lists t h =
        let q : Seq ℕ = record { items = xs; place = place_prev p } in
        let some_items : ltb 0 (length (u ∷ xs)) ≡ true = ground arith in
        let (here, cursor) = lists u in
        let (hu, nw) = h u (ground arith) in
        let (d, du) = some_distance g u t hu nw in
        let in_adj : (y : ℕ) → has (g.neighbors u).items y ≡ true → has (adj u) y ≡ true =
          λ y i. subst (λ l. has l y ≡ true) here i in
        let (g1, q1, run, r) =
          round-Tree n adj s u d (g.neighbors u).items g q t
            (record { inside = hu; found = nw; here = du }) (λ v i. h v (ground (arith, i)))
            (λ y i. (arcs u y hu (in_adj y i), in_adj y i)) in
        let rest =
          loop-Tree fuel (closed g1 u) q1.items q1.place
            (Lists-put adj g1.neighbors u (subst (Lists adj) (sym r.neighbors) lists))
            (closed-Tree g1 u r.current.found r.tree)
            (λ v i. let (hv, e) = r.queued v i in (hv, same_white g1 u v r.current.found ∙ e)) in
        rw (some_items, visit_lem (discover u) (g.neighbors u) (g, q) cursor, run) rest

Tree-first : (g : Graph) (s : ℕ) → IsVertex g s → Tree g.order (adjacent g) s (bfs_start g s)
unfolding bfs_start
Tree-first g s hs =
    let n = g.order in
    let adj = adjacent g in
    let root_found : is_white ((bfs_start g s).color s) ≡ false =
      ap is_white (s_gray n adj s hs g.color g.distance) in
    let root_distance : (bfs_start g s).distance s ≡ some 0 =
      put_self (fill n g.distance none) s (some 0) in
    let root : (v : ℕ) → Inside n v → is_white ((bfs_start g s).color v) ≡ false → s ≡ v = λ v hv e.
      elim (source_or_white n adj s hs g.color g.distance v hv) [
        | inl p ↦ p
        | inr w ↦ absurd (cc (ap is_white w.0, e))
      ] in
    record {
      source = refl;
      order = refl;
      root_distance = root_distance;
      unfound = λ v hv w. fill_lem n g.parent nil v hv.0 hv.1;
      blank = λ v hv w. elim (source_or_white n adj s hs g.color g.distance v hv) [
        | inl p ↦
            absurd (cc (subst (λ z. is_white ((bfs_start g s).color z) ≡ false) p root_found, w))
        | inr b ↦ b.1
      ];
      tree = λ v hv e. inl (sym (root v hv e));
      few = λ v hv e.
          subst (λ z. depth ((bfs_start g s).distance z) + 1 + whites n (bfs_start g s).color ≤ n)
            (root v hv e)
            (omega (arith, ap depth root_distance, few_white n adj s hs g.color g.distance));
      root_found = root_found;
      root_inside = hs;
    }

-- Where BFS returns, it leaves a tree of parents and the same adjacency lists.
pub bfs-Tree :
    (g : Graph) (s : ℕ) → IsGraph g → IsVertex g s → Holds (bfs g s) (Left g.order (adjacent g) s)
unfolding bfs bfs_start append
bfs-Tree g s is hs =
    loop-Tree g.order (adjacent g) s is.arcs (g.order + 1) (bfs_start g s) (s ∷ []) none
      (λ w. (refl, is.cursors w)) (Tree-first g s hs)
      (λ v i.
        subst (λ z. Inside g.order z × (is_white ((bfs_start g s).color z) ≡ false))
          (ground (arith, i)) (hs, (Tree-first g s hs).root_found))
