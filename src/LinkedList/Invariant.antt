-- ===== src/LinkedList/Invariant.antt =====
-- When a `ListObj` and the heap stand for a sequence of nodes, and what the commands of
-- LinkedList.Memory do at a live node.
use c_lang_coding_projects.Prelude.{
  ℕ, zero, suc, ◌+◌, ◌<◌, ◌≡◌, refl, ◌∙◌, ◌≢◌, true, false, ◌||◌, not, ltb, Option, none, some, [],
  ◌∷◌, ◌++◌, arith, ◌==◌, length,
}
use c_lang_coding_projects.LinkedList.Memory.{
  Ptr, null, Node, node, Heap, write, on_node, modify, Run, ok, load, assign, free,
}
use c_lang_coding_projects.LinkedList.Chain.{Cells, owns, first, last, Chain}
use c_lang_coding_projects.LinkedList.{ListObj, is_defined, at, new_node, free_node}

-- The run returns a value and a heap with the property `P`.
abbrev pub Returns : {A : Type 0} → Run A → (A → Heap → Type 0) → Type 0
Returns {A} r P = (a : A) × (g : Heap) × (r ≡ ok a g) × P a g

abbrev pub ptr_at : Cells → ℕ → Option Ptr
ptr_at [] i = none
ptr_at ((a, v) ∷ xs) zero = some a
ptr_at ((a, v) ∷ xs) (suc i) = ptr_at xs i

-- The cursor points at the node that `index` counts to, and is `NULL` where `index` is -1.
abbrev pub Placed : Option ℕ → Ptr → Cells → Type 0
Placed none c xs = c ≡ null
Placed (some i) c xs = ptr_at xs i ≡ some c

pub record IsList (h : Heap) (l : ListObj) (xs : Cells) : Type 0 where
  pub chain : Chain h null xs null
  pub front : l.front ≡ first xs null
  pub back : l.back ≡ last xs null
  pub count : l.length ≡ length xs
  pub placed : Placed l.index l.cursor xs

pub ptr_at-lt : (xs : Cells) (i : ℕ) (c : Ptr) → ptr_at xs i ≡ some c → i < length xs
ptr_at-lt [] i c e = cc
ptr_at-lt ((a, v) ∷ xs) zero c e = omega arith
ptr_at-lt ((a, v) ∷ xs) (suc i) c e = omega (arith, ptr_at-lt xs i c e)

pub ptr_at-append : (xs ys : Cells) (i : ℕ) → i < length xs → ptr_at (xs ++ ys) i ≡ ptr_at xs i
ptr_at-append [] ys i lt = elim lt [ ]
ptr_at-append ((a, v) ∷ xs) ys zero lt = refl
ptr_at-append ((a, v) ∷ xs) ys (suc i) lt = ptr_at-append xs ys i (omega arith)

pub ptr_at-append_right : (xs ys : Cells) (i : ℕ) → ptr_at (xs ++ ys) (length xs + i) ≡ ptr_at ys i
ptr_at-append_right [] ys i = ground arith
ptr_at-append_right ((a, v) ∷ xs) ys i =
    let e : suc (length xs) + i ≡ suc (length xs + i) = omega arith in
    rw e (ptr_at-append_right xs ys i)

pub Placed-append : (i : Option ℕ) (c : Ptr) (xs ys : Cells) → Placed i c xs → Placed i c (xs ++ ys)
Placed-append none c xs ys p = p
Placed-append (some i) c xs ys p = ptr_at-append xs ys i (ptr_at-lt xs i c p) ∙ p

-- The cursor of a list in which `index` counts the nodes `xs`.
pub cursor_eq :
    (i : Option ℕ) (c : Ptr) (xs : Cells) (a : Ptr) (v : ℕ) (ys : Cells)
    → Placed i c (xs ++ (a, v) ∷ ys)
    → i ≡ some (length xs)
    → c ≡ a
cursor_eq none c xs a v ys p e = cc
cursor_eq (some i) c xs a v ys p e =
    let at : ptr_at (xs ++ (a, v) ∷ ys) (length xs) ≡ some a = at_length xs a v ys in
    ground (arith, p, at, e)
  where
    at_length :
        (xs : Cells) (a : Ptr) (v : ℕ) (ys : Cells)
        → ptr_at (xs ++ (a, v) ∷ ys) (length xs) ≡ some a
    at_length [] a v ys = refl
    at_length ((b, w) ∷ xs) a v ys = at_length xs a v ys

module _ (h : Heap) (a : Ptr) (ne : a ≢ null) where
  not_null : (a == null) ≡ false
  not_null = ground arith

  pub load-ok : (n : Node) → h a ≡ some n → load a h ≡ ok n h
  unfolding load
  load-ok n e = rw (not_null, e)

  pub assign-ok : (f : Node → Node) (n : Node) → h a ≡ some n → assign a f h ≡ ok tt (modify h a f)
  unfolding assign
  assign-ok f n e = rw (not_null, e)

  pub free_node-ok : (n : Node) → h a ≡ some n → free_node a h ≡ ok tt (write h a none)
  unfolding free_node free write
  free_node-ok n e = rw (not_null, not_null, e)

  pub new_node-ok : (x : ℕ) → new_node a x h ≡ ok a (write h a (some (node x null null)))
  unfolding new_node
  new_node-ok x = rw not_null

-- What `write` and `modify` leave at the address itself.
pub write_self : (h : Heap) (a : Ptr) (c : Option Node) → write h a c a ≡ c
unfolding write
write_self h a c = ground arith

pub modify_self : (h : Heap) (a : Ptr) (f : Node → Node) → modify h a f a ≡ on_node f (h a)
unfolding modify
modify_self h a f = ground arith

-- An address without a node is not in a chain.
pub not-owns_of_none :
    (h : Heap) (p : Ptr) (xs : Cells) (n a : Ptr) → Chain h p xs n → h a ≡ none → owns xs a ≡ false
not-owns_of_none h p [] n a c e = refl
not-owns_of_none h p ((b, v) ∷ xs) n a c e = ground (arith, c.1, not-owns_of_none h b xs n a c.3 e)

-- The tests of the functions that need a cursor.
pub guard_passes :
    (n : ℕ) (i : Option ℕ) (m k : ℕ)
    → n ≡ suc m
    → i ≡ some k
    → (ltb n 1 || not (is_defined i)) ≡ false
guard_passes n none m k e f = cc
guard_passes n (some i) m k e f = ground arith

pub at_place : (i : Option ℕ) (k n : ℕ) → i ≡ some k → k ≡ n → at i n ≡ true
at_place none k n e f = cc
at_place (some i) k n e f = ground arith

pub at_other : (i : Option ℕ) (k n : ℕ) → i ≡ some k → k ≢ n → at i n ≡ false
at_other none k n e f = refl
at_other (some i) k n e f = ground arith
