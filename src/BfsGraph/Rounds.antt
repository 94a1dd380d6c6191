-- ===== src/BfsGraph/Rounds.antt =====
-- One round of BFS: the loop over the neighbors of the vertex that leaves the queue.
use mathlib.Core.Path.{subst}
use c_lang_coding_projects.Prelude.{
  ℕ, zero, suc, ◌+◌, ◌≤◌, ◌<◌, ◌≡◌, ◌≢◌, inl, inr, refl, sym, ap, ◌∙◌, Bool-cases, true, false,
  some, List, [], ◌∷◌, ◌++◌, arith, ◌==◌, if◌then◌else◌, length, length-append,
}
use c_lang_coding_projects.Sequence.{Seq, append}
use c_lang_coding_projects.Sequence.Visit.{and_then, fold_option}
use c_lang_coding_projects.Arrays.{put, put_self, put_other}
use c_lang_coding_projects.BfsGraph.{Graph, Color, gray, black, is_white, discover, next_distance}
use c_lang_coding_projects.BfsGraph.Walks.{has, depth, Inv}
use c_lang_coding_projects.BfsGraph.Discover.{discovered, known_depth}

-- `v` is one of the vertices 1 to `n`.
abbrev pub Inside : ℕ → ℕ → Type 0
Inside n v = (1 ≤ v) × (v ≤ n)

abbrev white_one : Color → ℕ
white_one c = if is_white c then 1 else 0

-- The number of white vertices among 1 to `n`.
unfoldable pub whites : ℕ → (ℕ → Color) → ℕ
whites zero c = 0
whites (suc n) c = whites n c + white_one (c (suc n))

whites-above :
    (n : ℕ) (c : ℕ → Color) (v : ℕ) (x : Color) → n < v → whites n (put c v x) ≡ whites n c
unfolding whites put
whites-above zero c v x lt = refl
whites-above (suc n) c v x lt = ground (arith, whites-above n c v x)

pub whites-gray :
    (n : ℕ) (c : ℕ → Color) (v : ℕ)
    → Inside n v
    → is_white (c v) ≡ true
    → whites n (put c v gray) + 1 ≡ whites n c
unfolding whites put
whites-gray zero c v h w = absurd (omega (arith, h.0, h.1))
whites-gray (suc n) c v h w = elim (Bool-cases (v == suc n)) [
  | inl e ↦ ground (arith, e, w, whites-above n c v gray)
  | inr e ↦ ground (arith, e, h.0, h.1, whites-gray n c v (h.0, ground (arith, e, h.1)) w)
]

pub whites-black :
    (n : ℕ) (c : ℕ → Color) (v : ℕ) → is_white (c v) ≡ false → whites n (put c v black) ≡ whites n c
unfolding whites put
whites-black zero c v w = refl
whites-black (suc n) c v w = elim (Bool-cases (v == suc n)) [
  | inl e ↦ ground (arith, e, w, whites-black n c v)
  | inr e ↦ ground (arith, e, whites-black n c v)
]

-- What a part of the loop over the neighbors of `u` comes to, from `g` and `q` to `g'` and `q'`, with
-- the neighbors `xs` looked at.
pub record Visited (n : ℕ) (adj : ℕ → List ℕ) (s u : ℕ) (xs : List ℕ) (g : Graph) (q : List ℕ)
    (g' : Graph) (q' : List ℕ) : Type 0 where
  pub inv : Inv (Inside n) adj s g'.color g'.distance (u ∷ q')
  pub met :
      (y : ℕ)
      → has xs y ≡ true
      → (is_white (g'.color y) ≡ false) × (depth (g'.distance y) ≤ depth (g'.distance u) + 1)
  pub kept :
      (x : ℕ)
      → is_white (g.color x) ≡ false
      → (is_white (g'.color x) ≡ false) × (g'.distance x ≡ g.distance x)
  pub neighbors : g'.neighbors ≡ g.neighbors
  pub order : g'.order ≡ g.order
  pub measure : whites n g'.color + length q' ≡ whites n g.color + length q

module _ (n : ℕ) (adj : ℕ → List ℕ) (s u : ℕ) where
  Visited-nil :
      (g : Graph) (q : List ℕ)
      → Inv (Inside n) adj s g.color g.distance (u ∷ q)
      → Visited n adj s u [] g q g q
  Visited-nil g q inv = record {
    inv = inv;
    met = λ y i. cc;
    kept = λ x e. (e, refl);
    neighbors = refl;
    order = refl;
    measure = refl;
  }

  Visited-trans :
      (x : ℕ) (xs : List ℕ) (g g1 g2 : Graph) (q q1 q2 : List ℕ)
      → Visited n adj s u (x ∷ []) g q g1 q1
      → Visited n adj s u xs g1 q1 g2 q2
      → Visited n adj s u (x ∷ xs) g q g2 q2
  Visited-trans x xs g g1 g2 q q1 q2 a b = record {
    inv = b.inv;
    met = λ y i. elim (Bool-cases (x == y)) [
      | inl e ↦
          let (nw, le) = a.met y (ground (arith, e)) in
          let (nw', same) = b.kept y nw in
          let du = (b.kept u (a.inv.queued u (ground arith))).1 in
          (nw', omega (arith, le, ap depth same, ap depth du))
      | inr e ↦ b.met y (ground (arith, e, i))
    ];
    kept =
        λ y e. let (nw, same) = a.kept y e in let (nw', same') = b.kept y nw in (nw', same' ∙ same);
    neighbors = b.neighbors ∙ a.neighbors;
    order = b.order ∙ a.order;
    measure = b.measure ∙ a.measure;
  }

  -- One neighbor.
  discover_lem :
      (g : Graph) (q : Seq ℕ) (x : ℕ)
      → Inv (Inside n) adj s g.color g.distance (u ∷ q.items)
      → has (adj u) x ≡ true
      → Inside n x
      → (g' : Graph) × (q' : Seq ℕ) × (discover u (g, q) x ≡ some (g', q'))
        × Visited n adj s u (x ∷ []) g q.items g' q'.items
  unfolding discover append
  discover_lem g q x inv arc hx = elim (Bool-cases (is_white (g.color x))) [
    | inr old ↦ (
      g,
      q,
      rw old,
      record {
        inv = inv;
        met = λ y i.
            let e : x ≡ y = ground (arith, i) in
            subst
              (λ z.
                (is_white (g.color z) ≡ false) × (depth (g.distance z) ≤ depth (g.distance u) + 1))
              e (old, known_depth (Inside n) adj s g.color g.distance u q.items inv x hx old);
        kept = λ y e. (e, refl);
        neighbors = refl;
        order = refl;
        measure = refl;
      },
    )
    | inl new ↦
        let (d, du, w) =
          inv.reached u (inv.inside u (ground arith)) (inv.queued u (ground arith)) in
        let color' = put g.color x gray in
        let dist' = put g.distance x (next_distance (g.distance u)) in
        let inv' : Inv (Inside n) adj s color' dist' (u ∷ q.items ++ x ∷ []) =
          subst (λ o. Inv (Inside n) adj s color' (put g.distance x o) (u ∷ q.items ++ x ∷ []))
            (ap next_distance (sym du))
            (discovered (Inside n) adj s g.color g.distance u q.items inv x d hx arc new du) in
        let gray_x : is_white (color' x) ≡ false = ap is_white (put_self g.color x gray) in
        (
          record g { color = color'; distance = dist'; parent = put g.parent x u },
          append q x,
          rw new,
          record {
            inv = inv';
            met = λ y i.
                let e : x ≡ y = ground (arith, i) in
                subst (λ z. (is_white (color' z) ≡ false) × (depth (dist' z) ≤ depth (dist' u) + 1))
                  e
                  (
                    gray_x,
                    known_depth (Inside n) adj s color' dist' u (q.items ++ x ∷ []) inv' x hx
                        gray_x,
                  );
            kept = λ y e.
                let ne : x ≢ y = λ p. cc in
                (ap is_white (put_other g.color x gray y ne) ∙ e, put_other g.distance x _ y ne);
            neighbors = refl;
            order = refl;
            measure = omega (arith, whites-gray n g.color x hx new, length-append q.items (x ∷ []));
          },
        )
  ]

  -- The loop over the neighbors.
  pub round_lem :
      (xs : List ℕ) (g : Graph) (q : Seq ℕ)
      → Inv (Inside n) adj s g.color g.distance (u ∷ q.items)
      → ((y : ℕ) → has xs y ≡ true → (has (adj u) y ≡ true) × Inside n y)
      → (g' : Graph) × (q' : Seq ℕ) × (fold_option (discover u) (g, q) xs ≡ some (g', q'))
        × Visited n adj s u xs g q.items g' q'.items
  round_lem [] g q inv arcs = (g, q, refl, Visited-nil g q.items inv)
  round_lem (x ∷ xs) g q inv arcs =
      let (arc, hx) = arcs x (ground arith) in
      let (g1, q1, run, a) = discover_lem g q x inv arc hx in
      let (g2, q2, run', b) = round_lem xs g1 q1 a.inv (λ y i. arcs y (ground arith)) in
      (
        g2,
        q2,
        ap (λ o. and_then o (λ st. fold_option (discover u) st xs)) run ∙ run',
        Visited-trans x xs g g1 g2 q.items q1.items q2.items a b,
      )
