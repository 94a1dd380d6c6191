-- ===== src/LinkedList/Chain.antt =====
-- Doubly linked chains of nodes on the heap of LinkedList.Memory, and what a write does to them.
use c_lang_coding_projects.Prelude.{
  ℕ, ◌≡◌, refl, ◌∙◌, ◌≢◌, Bool, Bool-cases, inl, inr, true, false, ◌||◌, Option, some, List, [],
  ◌∷◌, ◌++◌, arith, ◌==◌, length, ◌<◌,
}
use mathlib.Core.Path.{subst}
use c_lang_coding_projects.LinkedList.Memory.{Ptr, null, Node, node, Heap, write, modify}

-- The address and the value of each node of a chain, in order.
abbrev pub Cells : Type 0
Cells = List (Ptr × ℕ)

abbrev pub owns : Cells → Ptr → Bool
owns [] a = false
owns ((b, v) ∷ xs) a = (b == a) || owns xs a

abbrev pub Apart : Cells → Cells → Type 0
Apart xs ys = (a : Ptr) → owns xs a ≡ true → owns ys a ≡ false

-- The first address of a chain before `n`, and the last one of a chain behind `p`.
abbrev pub first : Cells → Ptr → Ptr
first [] n = n
first ((a, v) ∷ xs) n = a

abbrev pub last : Cells → Ptr → Ptr
last [] p = p
last ((a, v) ∷ xs) p = last xs a

-- Distinct live nodes `xs`, linked both ways, between the addresses `p` and `n`.
abbrev pub Chain : Heap → Ptr → Cells → Ptr → Type 0
Chain h p [] n = Unit
Chain h p ((a, v) ∷ xs) n =
    (a ≢ null) × (h a ≡ some (node v (first xs n) p)) × (owns xs a ≡ false) × Chain h a xs n

-- `g` differs from `h` at most at the nodes of `xs`.
abbrev pub SameOutside : Cells → Heap → Heap → Type 0
SameOutside xs h g = (a : Ptr) → owns xs a ≡ false → g a ≡ h a

pub first-append : (xs ys : Cells) (n : Ptr) → first (xs ++ ys) n ≡ first xs (first ys n)
first-append [] ys n = refl
first-append (x ∷ xs) ys n = refl

pub last-append : (xs ys : Cells) (p : Ptr) → last (xs ++ ys) p ≡ last ys (last xs p)
last-append [] ys p = refl
last-append ((a, v) ∷ xs) ys p = last-append xs ys a

pub owns-append : (xs ys : Cells) (a : Ptr) → owns (xs ++ ys) a ≡ (owns xs a || owns ys a)
owns-append [] ys a = refl
owns-append ((b, v) ∷ xs) ys a = ground (arith, owns-append xs ys a)

pub owns-last : (xs : Cells) (a : Ptr) (v : ℕ) (p : Ptr) → owns ((a, v) ∷ xs) (last xs a) ≡ true
owns-last [] a v p = ground arith
owns-last ((b, w) ∷ xs) a v p = ground (arith, owns-last xs b w a)

pub Chain-frame :
    (h g : Heap) (p : Ptr) (xs : Cells) (n : Ptr)
    → Chain h p xs n
    → ((a : Ptr) → owns xs a ≡ true → g a ≡ h a)
    → Chain g p xs n
Chain-frame h g p [] n c same = tt
Chain-frame h g p ((a, v) ∷ xs) n c same = (
  c.0,
  same a (ground arith) ∙ c.1,
  c.2,
  Chain-frame h g a xs n c.3 (λ b i. same b (ground arith)),
)

pub Chain-write :
    (h : Heap) (p : Ptr) (xs : Cells) (n a : Ptr) (c : Option Node)
    → Chain h p xs n
    → owns xs a ≡ false
    → Chain (write h a c) p xs n
unfolding write
Chain-write h p xs n a c ch out = Chain-frame h _ p xs n ch (λ b i. ground arith)

pub Chain-modify :
    (h : Heap) (p : Ptr) (xs : Cells) (n a : Ptr) (f : Node → Node)
    → Chain h p xs n
    → owns xs a ≡ false
    → Chain (modify h a f) p xs n
unfolding modify
Chain-modify h p xs n a f ch out = Chain-frame h _ p xs n ch (λ b i. ground arith)

pub Chain-join :
    (h : Heap) (p : Ptr) (xs ys : Cells) (n : Ptr)
    → Chain h p xs (first ys n)
    → Chain h (last xs p) ys n
    → Apart xs ys
    → Chain h p (xs ++ ys) n
Chain-join h p [] ys n c d apart = d
Chain-join h p ((a, v) ∷ xs) ys n c d apart = (
  c.0,
  rw (first-append xs ys n) c.1,
  rw (owns-append xs ys a, c.2) (apart a (ground arith)),
  Chain-join h a xs ys n c.3 d (λ b i. apart b (ground arith)),
)

-- The two halves of a chain.
pub record Halves (h : Heap) (p : Ptr) (xs ys : Cells) (n : Ptr) : Type 0 where
  pub left : Chain h p xs (first ys n)
  pub right : Chain h (last xs p) ys n
  pub apart : Apart xs ys

pub Chain-split :
    (h : Heap) (p : Ptr) (xs ys : Cells) (n : Ptr) → Chain h p (xs ++ ys) n → Halves h p xs ys n
Chain-split h p [] ys n c = record { left = tt; right = c; apart = λ a i. cc }
Chain-split h p ((a, v) ∷ xs) ys n c =
    let rest = Chain-split h a xs ys n c.3 in
    record {
      left = (
        c.0,
        rw (first-append xs ys n) at c.1,
        ground (arith, c.2, owns-append xs ys a),
        rest.left,
      );
      right = rest.right;
      apart = λ b i. ground (arith, c.2, owns-append xs ys a, rest.apart b);
    }

pub owns_ne : (xs : Cells) (a b : Ptr) → owns xs a ≡ false → owns xs b ≡ true → b ≢ a
owns_ne xs a b out i e = cc (subst (λ c. owns xs c ≡ true) e i)

pub modify_other : (h : Heap) (q a : Ptr) (f : Node → Node) → q ≢ a → modify h q f a ≡ h a
unfolding modify
modify_other h q a f ne = ground arith

pub write_other : (h : Heap) (q a : Ptr) (c : Option Node) → q ≢ a → write h q c a ≡ h a
unfolding write
write_other h q a c ne = ground arith

-- Assigning `next` of the last node links the chain to another successor.
pub relink_back :
    (h : Heap) (p : Ptr) (xs : Cells) (n m : Ptr)
    → Chain h p xs n
    → Chain (modify h (last xs p) (λ c. record c { next = m })) p xs m
unfolding modify
relink_back h p [] n m c = tt
relink_back h p ((a, v) ∷ []) n m c = (c.0, ground arith, refl, tt)
relink_back h p ((a, v) ∷ (b, w) ∷ xs) n m c = (
  c.0,
  modify_other h (last xs b) a _ (owns_ne ((b, w) ∷ xs) a _ c.2 (owns-last xs b w a)) ∙ c.1,
  c.2,
  relink_back h a ((b, w) ∷ xs) n m c.3,
)

-- Assigning `prev` of the first node links the chain to another predecessor.
pub relink_front :
    (h : Heap) (p q : Ptr) (xs : Cells) (n m : Ptr)
    → Chain h p xs n
    → Chain (modify h (first xs m) (λ c. record c { prev = q })) q xs n
unfolding modify
relink_front h p q [] n m c = tt
relink_front h p q ((a, v) ∷ xs) n m c =
    (c.0, ground (arith, c.1), c.2, Chain-modify h a xs n a _ c.3 c.2)

-- Every node of a chain is live.
pub Chain-live :
    (h : Heap) (p : Ptr) (xs : Cells) (n b : Ptr)
    → Chain h p xs n
    → owns xs b ≡ true
    → (m : Node) × (h b ≡ some m) × (b ≢ null)
Chain-live h p [] n b c i = cc
Chain-live h p ((a, v) ∷ xs) n b c i = elim (Bool-cases (a == b)) [
  | inl e ↦ (
    node v (first xs n) p,
    subst (λ d. h d ≡ some (node v (first xs n) p)) (ground arith) c.1,
    subst (λ d. d ≢ null) (ground arith) c.0,
  )
  | inr e ↦ Chain-live h a xs n b c.3 (ground arith)
]

pub SameOutside-write :
    (xs : Cells) (h g : Heap) (a : Ptr) (c : Option Node)
    → SameOutside xs h g
    → owns xs a ≡ true
    → SameOutside xs h (write g a c)
unfolding write
SameOutside-write xs h g a c same held b out =
    write_other g a b c (owns_ne xs b a out held) ∙ same b out

pub SameOutside-modify :
    (xs : Cells) (h g : Heap) (a : Ptr) (f : Node → Node)
    → SameOutside xs h g
    → owns xs a ≡ true
    → SameOutside xs h (modify g a f)
SameOutside-modify xs h g a f same held b out =
    modify_other g a b f (owns_ne xs b a out held) ∙ same b out

pub first_any : (xs : Cells) (a b : Ptr) → 0 < length xs → first xs a ≡ first xs b
first_any [] a b lt = elim lt [ ]
first_any ((c, v) ∷ xs) a b lt = refl

pub last_any : (xs : Cells) (a b : Ptr) → 0 < length xs → last xs a ≡ last xs b
last_any [] a b lt = elim lt [ ]
last_any ((c, v) ∷ xs) a b lt = refl

pub owns-last_any : (xs : Cells) (p : Ptr) → 0 < length xs → owns xs (last xs p) ≡ true
owns-last_any [] p lt = elim lt [ ]
owns-last_any ((c, v) ∷ xs) p lt = owns-last xs c v p

pub owns-first_any : (xs : Cells) (p : Ptr) → 0 < length xs → owns xs (first xs p) ≡ true
owns-first_any [] p lt = elim lt [ ]
owns-first_any ((c, v) ∷ xs) p lt = ground arith

pub not-owns_of_Apart :
    (xs ys : Cells) (a : Ptr) → Apart xs ys → owns ys a ≡ true → owns xs a ≡ false
not-owns_of_Apart xs ys a apart i = ground (arith, apart a)
