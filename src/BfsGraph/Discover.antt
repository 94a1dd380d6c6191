-- ===== src/BfsGraph/Discover.antt =====
-- One discovery of BFS, and the end of a round.
use mathlib.Core.Path.{subst}
use c_lang_coding_projects.Prelude.{
  ℕ, suc, ◌+◌, ◌≤◌, ◌≡◌, ◌≢◌, ◌⊎◌, inl, inr, refl, sym, ap, ◌∙◌, Bool-cases, true, false, ◌||◌,
  Option, none, some, List, [], ◌∷◌, ◌++◌, arith, ◌==◌,
}
use c_lang_coding_projects.Arrays.{put, put_self, put_other}
use c_lang_coding_projects.BfsGraph.{Color, white, gray, black, is_white}
use c_lang_coding_projects.BfsGraph.Walks.{
  has, has-append, Walk, later, is_black, depth, Near, IsOrdered, Inv,
}

-- Distances that agree at the vertices of a list.
Near-frame :
    (f g : ℕ → Option ℕ) (d : ℕ) (xs : List ℕ)
    → ((x : ℕ) → has xs x ≡ true → g x ≡ f x)
    → Near f d xs
    → Near g d xs
Near-frame f g d [] same h = tt
Near-frame f g d (x ∷ xs) same h =
    let e : depth (g x) ≡ depth (f x) = ap depth (same x (ground arith)) in
    (
      omega (arith, e, h.0),
      omega (arith, e, h.1),
      Near-frame f g d xs (λ y i. same y (ground arith)) h.2,
    )

IsOrdered-frame :
    (f g : ℕ → Option ℕ) (xs : List ℕ)
    → ((x : ℕ) → has xs x ≡ true → g x ≡ f x)
    → IsOrdered f xs
    → IsOrdered g xs
IsOrdered-frame f g [] same h = tt
IsOrdered-frame f g (x ∷ xs) same h =
    let rest : (y : ℕ) → has xs y ≡ true → g y ≡ f y = λ y i. same y (ground arith) in
    (
      subst (λ d. Near g d xs) (ap depth (sym (same x (ground arith))))
          (Near-frame f g (depth (f x)) xs rest h.0),
      IsOrdered-frame f g xs rest h.1,
    )

Near-append :
    (f : ℕ → Option ℕ) (d : ℕ) (xs : List ℕ) (v : ℕ)
    → Near f d xs
    → d ≤ depth (f v)
    → depth (f v) ≤ d + 1
    → Near f d (xs ++ v ∷ [])
Near-append f d [] v h lo hi = (lo, hi, tt)
Near-append f d (x ∷ xs) v h lo hi = (h.0, h.1, Near-append f d xs v h.2 lo hi)

Near-has :
    (f : ℕ → Option ℕ) (d : ℕ) (xs : List ℕ) (v : ℕ)
    → Near f d xs
    → has xs v ≡ true
    → (d ≤ depth (f v)) × (depth (f v) ≤ d + 1)
Near-has f d [] v h i = cc
Near-has f d (x ∷ xs) v h i = elim (Bool-cases (x == v)) [
  | inl e ↦ ground (arith, e, h.0, h.1)
  | inr e ↦ Near-has f d xs v h.2 (ground (arith, e, i))
]

-- A vertex at the depth that ends the queue.
IsOrdered-append :
    (f : ℕ → Option ℕ) (xs : List ℕ) (v : ℕ)
    → IsOrdered f xs
    → ((x : ℕ) → has xs x ≡ true → (depth (f x) ≤ depth (f v)) × (depth (f v) ≤ depth (f x) + 1))
    → IsOrdered f (xs ++ v ∷ [])
IsOrdered-append f [] v h near = (tt, tt)
IsOrdered-append f (x ∷ xs) v h near =
    let here = near x (ground arith) in
    (
      Near-append f (depth (f x)) xs v h.0 here.0 here.1,
      IsOrdered-append f xs v h.1 (λ y i. near y (ground arith)),
    )

black_not_white : (c : Color) → is_black c ≡ true → is_white c ≡ false
black_not_white white e = cc
black_not_white gray e = refl
black_not_white black e = refl

same_or_other : (v x : ℕ) → (v ≡ x) ⊎ (v ≢ x)
same_or_other v x = elim (Bool-cases (v == x)) [
  | inl e ↦ inl (ground (arith, e))
  | inr e ↦ inr (λ p. ground (arith, e, p))
]

module _ (V : ℕ → Type 0) (adj : ℕ → List ℕ) (s : ℕ) (color : ℕ → Color) (dist : ℕ → Option ℕ)
    (u : ℕ) (q : List ℕ) (inv : Inv V adj s color dist (u ∷ q)) where
  module _ (v d : ℕ) (hv : V v) (arc : has (adj u) v ≡ true) (new : is_white (color v) ≡ true)
      (du : dist u ≡ some d) where
    color' : ℕ → Color
    color' = put color v gray

    dist' : ℕ → Option ℕ
    dist' = put dist v (some (suc d))

    new_queue : List ℕ
    new_queue = u ∷ q ++ v ∷ []

    -- A vertex that was not white before is another one.
    old : (x : ℕ) → is_white (color x) ≡ false → v ≢ x
    old x e p = cc

    same_color : (x : ℕ) → v ≢ x → color' x ≡ color x
    unfolding color'
    same_color x ne = put_other color v gray x ne

    same_dist : (x : ℕ) → v ≢ x → dist' x ≡ dist x
    unfolding dist'
    same_dist x ne = put_other dist v (some (suc d)) x ne

    here_color : color' v ≡ gray
    unfolding color'
    here_color = put_self color v gray

    here_dist : dist' v ≡ some (suc d)
    unfolding dist'
    here_dist = put_self dist v (some (suc d))

    has_new : (x : ℕ) → has new_queue x ≡ (has (u ∷ q) x || has (v ∷ []) x)
    unfolding new_queue
    has_new x = has-append (u ∷ q) (v ∷ []) x

    old_queued : (x : ℕ) → has (u ∷ q) x ≡ true → dist' x ≡ dist x
    old_queued x i = same_dist x (old x (inv.queued x i))

    in_old : (x : ℕ) → v ≢ x → has new_queue x ≡ true → has (u ∷ q) x ≡ true
    in_old x ne i = ground (arith, has_new x, i, ne)

    from_old : (x : ℕ) → has (u ∷ q) x ≡ true → has new_queue x ≡ true
    from_old x i = ground (arith, has_new x, i)

    v_in_new : has new_queue v ≡ true
    v_in_new = ground (arith, has_new v)

    deep_u : depth (dist u) ≡ d
    deep_u = ap depth du

    deep_v : depth (dist' v) ≡ suc d
    deep_v = ap depth here_dist

    u_black_or_not : (x : ℕ) → is_white (color' x) ≡ false → v ≢ x → is_white (color x) ≡ false
    u_black_or_not x e ne = ap is_white (sym (same_color x ne)) ∙ e

    inside' : (x : ℕ) → has new_queue x ≡ true → V x
    inside' x i = elim (same_or_other v x) [
      | inl e ↦ subst V e hv
      | inr ne ↦ inv.inside x (in_old x ne i)
    ]

    not_white_v : (x : ℕ) → v ≡ x → is_white (color' x) ≡ false
    not_white_v x e = subst (λ y. is_white (color' y) ≡ false) e (ap is_white here_color)

    kept_color : (x : ℕ) → is_white (color x) ≡ false → is_white (color' x) ≡ false
    kept_color x e = ap is_white (same_color x (old x e)) ∙ e

    queued' : (x : ℕ) → has new_queue x ≡ true → is_white (color' x) ≡ false
    queued' x i = elim (same_or_other v x) [
      | inl e ↦ not_white_v x e
      | inr ne ↦ kept_color x (inv.queued x (in_old x ne i))
    ]

    found' :
        (x : ℕ)
        → V x
        → is_white (color' x) ≡ false
        → (is_black (color' x) ≡ true) ⊎ (has new_queue x ≡ true)
    found' x hx e = elim (same_or_other v x) [
      | inl p ↦ inr (subst (λ y. has new_queue y ≡ true) p v_in_new)
      | inr ne ↦ elim (inv.found x hx (u_black_or_not x e ne)) [
        | inl b ↦ inl (ap is_black (same_color x ne) ∙ b)
        | inr i ↦ inr (from_old x i)
      ]
    ]

    blank' : (x : ℕ) → V x → is_white (color' x) ≡ true → dist' x ≡ none
    blank' x hx e = elim (same_or_other v x) [
      | inl p ↦ absurd (cc (not_white_v x p, e))
      | inr ne ↦ same_dist x ne ∙ inv.blank x hx (ap is_white (sym (same_color x ne)) ∙ e)
    ]

    Walk-u : Walk adj s u d
    Walk-u =
        let (k, e, w) = inv.reached u (inv.inside u (ground arith)) (inv.queued u (ground arith)) in
        subst (λ o. Walk adj s u (depth o)) (sym e ∙ du) w

    reached' :
        (x : ℕ) → V x → is_white (color' x) ≡ false → (k : ℕ) × (dist' x ≡ some k) × Walk adj s x k
    reached' x hx e = elim (same_or_other v x) [
      | inl p ↦ (
        suc d,
        subst (λ y. dist' y ≡ some (suc d)) p here_dist,
        subst (λ y. Walk adj s y (suc d)) p (later Walk-u arc),
      )
      | inr ne ↦
          let (k, f, w) = inv.reached x hx (u_black_or_not x e ne) in (k, same_dist x ne ∙ f, w)
    ]

    -- A black vertex was black before.
    black_before : (x : ℕ) → is_black (color' x) ≡ true → (v ≢ x) × (is_black (color x) ≡ true)
    black_before x b = elim (same_or_other v x) [
      | inl p ↦ absurd (cc (subst (λ y. is_black (color' y) ≡ false) p (ap is_black here_color), b))
      | inr ne ↦ (ne, ap is_black (sym (same_color x ne)) ∙ b)
    ]

    done' :
        (x y : ℕ)
        → V x
        → is_black (color' x) ≡ true
        → has (adj x) y ≡ true
        → (is_white (color' y) ≡ false) × (depth (dist' y) ≤ depth (dist' x) + 1)
    done' x y hx b i =
        let (ne, b') = black_before x b in
        let (nw, le) = inv.done x y hx b' i in
        (
          kept_color y nw,
          omega (arith, le, ap depth (same_dist x ne), ap depth (same_dist y (old y nw))),
        )

    past' :
        (x y : ℕ)
        → V x
        → is_black (color' x) ≡ true
        → has new_queue y ≡ true
        → depth (dist' x) ≤ depth (dist' y)
    past' x y hx b i =
        let (ne, b') = black_before x b in
        let ex = ap depth (same_dist x ne) in
        elim (same_or_other v y) [
          | inl p ↦ omega (
            arith,
            ex,
            inv.past x u hx b' (ground arith),
            deep_u,
            subst (λ z. depth (dist' z) ≡ suc d) p deep_v,
          )
          | inr other ↦
              omega (arith, ex, inv.past x y hx b' (in_old y other i), ap depth (same_dist y other))
        ]

    near_new :
        (x : ℕ)
        → has (u ∷ q) x ≡ true
        → (depth (dist' x) ≤ depth (dist' v)) × (depth (dist' v) ≤ depth (dist' x) + 1)
    near_new x i =
        let ex = ap depth (old_queued x i) in
        elim (same_or_other u x) [
          | inl p ↦
              let e : depth (dist x) ≡ d = subst (λ z. depth (dist z) ≡ d) p deep_u in
              (omega (arith, ex, e, deep_v), omega (arith, ex, e, deep_v))
          | inr ne ↦
              let (lo, hi) =
                Near-has dist (depth (dist u)) q x inv.order.0 (ground (arith, i, ne)) in
              (omega (arith, ex, hi, deep_u, deep_v), omega (arith, ex, lo, deep_u, deep_v))
        ]

    order' : IsOrdered dist' new_queue
    unfolding new_queue
    order' =
        IsOrdered-append dist' (u ∷ q) v (IsOrdered-frame dist dist' (u ∷ q) old_queued inv.order)
          near_new

    -- A white neighbor `v` of `u` is put into the queue one deeper than `u`.
    pub discovered : Inv V adj s (put color v gray) (put dist v (some (suc d))) (u ∷ q ++ v ∷ [])
    unfolding color' dist' new_queue
    discovered = record {
      inside = inside';
      queued = queued';
      found = found';
      blank = blank';
      reached = reached';
      done = done';
      past = past';
      order = order';
      source_color = kept_color s inv.source_color;
      source_dist = same_dist s (old s inv.source_color) ∙ inv.source_dist;
    }

  module _
      (processed : (y : ℕ)
        → has (adj u) y ≡ true
        → (is_white (color y) ≡ false) × (depth (dist y) ≤ depth (dist u) + 1)) where
    closed : ℕ → Color
    closed = put color u black

    same_closed : (x : ℕ) → u ≢ x → closed x ≡ color x
    unfolding closed
    same_closed x ne = put_other color u black x ne

    here_closed : (x : ℕ) → u ≡ x → closed x ≡ black
    unfolding closed
    here_closed x e = subst (λ y. put color u black y ≡ black) e (put_self color u black)

    stays : (x : ℕ) → is_white (color x) ≡ false → is_white (closed x) ≡ false
    stays x e = elim (same_or_other u x) [
      | inl p ↦ ap is_white (here_closed x p)
      | inr ne ↦ ap is_white (same_closed x ne) ∙ e
    ]

    was : (x : ℕ) → is_white (closed x) ≡ false → is_white (color x) ≡ false
    was x e = elim (same_or_other u x) [
      | inl p ↦ subst (λ y. is_white (color y) ≡ false) p (inv.queued u (ground arith))
      | inr ne ↦ ap is_white (sym (same_closed x ne)) ∙ e
    ]

    -- The round of `u` is over: `u` leaves the queue and turns black.
    pub finished : Inv V adj s (put color u black) dist q
    unfolding closed
    finished = record {
      inside = λ x i. inv.inside x (ground (arith, i));
      queued = λ x i. stays x (inv.queued x (ground (arith, i)));
      found = λ x hx e. elim (same_or_other u x) [
        | inl p ↦ inl (ap is_black (here_closed x p))
        | inr ne ↦ elim (inv.found x hx (was x e)) [
          | inl b ↦ inl (ap is_black (same_closed x ne) ∙ b)
          | inr i ↦ inr (ground (arith, i, ne))
        ]
      ];
      blank = λ x hx e. elim (same_or_other u x) [
        | inl p ↦ absurd (cc (ap is_white (here_closed x p), e))
        | inr ne ↦ inv.blank x hx (ap is_white (sym (same_closed x ne)) ∙ e)
      ];
      reached = λ x hx e. inv.reached x hx (was x e);
      done = λ x y hx b i. elim (same_or_other u x) [
        | inl p ↦
            let (nw, le) = processed y (subst (λ z. has (adj z) y ≡ true) (sym p) i) in
            (stays y nw, subst (λ z. depth (dist y) ≤ depth (dist z) + 1) p le)
        | inr ne ↦
            let (nw, le) = inv.done x y hx (ap is_black (sym (same_closed x ne)) ∙ b) i in
            (stays y nw, le)
      ];
      past = λ x y hx b i. elim (same_or_other u x) [
        | inl p ↦
            subst (λ z. depth (dist z) ≤ depth (dist y)) p
              (Near-has dist (depth (dist u)) q y inv.order.0 i).0
        | inr ne ↦ inv.past x y hx (ap is_black (sym (same_closed x ne)) ∙ b) (ground (arith, i))
      ];
      order = inv.order.1;
      source_color = stays s inv.source_color;
      source_dist = inv.source_dist;
    }

  -- A neighbor of `u` that is not white is at most one deeper than `u`.
  pub known_depth : (v : ℕ) → V v → is_white (color v) ≡ false → depth (dist v) ≤ depth (dist u) + 1
  known_depth v hv e = elim (inv.found v hv e) [
    | inl b ↦ omega (arith, inv.past v u hv b (ground arith))
    | inr i ↦ elim (same_or_other u v) [
      | inl p ↦ subst (λ z. depth (dist z) ≤ depth (dist u) + 1) p (omega arith)
      | inr ne ↦ (Near-has dist (depth (dist u)) q v inv.order.0 (ground (arith, i, ne))).1
    ]
  ]
