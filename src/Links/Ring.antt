-- ===== src/Links/Ring.antt =====
-- A ring: what the pointers of `struct List` (os/include/lib.h) lead through, forwards and
-- backwards, and what each operation makes of it.
use mathlib.Core.Path.{subst}
use mathlib.Core.Bool.{false≢true}
use kalinote_os.Base.{ℕ, ◌≡◌, ◌≢◌, List, [], ◌∷◌, ◌++◌, true, sym, ◌∙◌, arith, has, ◌∉◌, Distinct}
use kalinote_os.Links.{Links, set_next, set_prev, list_add_to_before, list_next}

-- From `a` the links lead through `xs` to `b`, and back.
abbrev pub Seg : Links → ℕ → List ℕ → ℕ → Type 0
Seg l a [] b = (l.next a ≡ b) × (l.prev b ≡ a)
Seg l a (x ∷ xs) b = (l.next a ≡ x) × (l.prev x ≡ a) × Seg l x xs b

-- The list with head `h` holds `xs`.
pub record IsRing (l : Links) (h : ℕ) (xs : List ℕ) : Type 0 where
  pub links : Seg l h xs h
  pub distinct : Distinct (h ∷ xs)

-- `list_next` is the pointer itself.
pub list_next_lem : (l : Links) (p : ℕ) → list_next l p ≡ l.next p
unfolding list_next
list_next_lem l p = ground arith

-- A write that a segment does not read keeps it.
pub Seg-set_next :
    (l : Links) (p v a : ℕ) (xs : List ℕ) (b : ℕ)
    → p ∉ (a ∷ xs)
    → Seg l a xs b
    → Seg (set_next l p v) a xs b
Seg-set_next l p v a [] b out s = (ground (arith, s), s.1)
Seg-set_next l p v a (x ∷ xs) b out s =
    (ground (arith, s.0), s.1, Seg-set_next l p v x xs b (ground arith) s.2)

pub Seg-set_prev :
    (l : Links) (p v a : ℕ) (xs : List ℕ) (b : ℕ)
    → p ∉ xs
    → p ≢ b
    → Seg l a xs b
    → Seg (set_prev l p v) a xs b
Seg-set_prev l p v a [] b out ne s = (s.0, ground (arith, s.1))
Seg-set_prev l p v a (x ∷ xs) b out ne s =
    (s.0, ground (arith, s.1), Seg-set_prev l p v x xs b (ground arith) ne s.2)

-- The node in front of the end is in the segment.
pub Seg-prev_mem :
    (l : Links) (a : ℕ) (xs : List ℕ) (b : ℕ) → Seg l a xs b → has (l.prev b) (a ∷ xs) ≡ true
Seg-prev_mem l a [] b s = ground (arith, s.1)
Seg-prev_mem l a (x ∷ xs) b s = ground (arith, Seg-prev_mem l x xs b s.2)

pub ne_of_mem : (a b : ℕ) (xs : List ℕ) → has a xs ≡ true → b ∉ xs → a ≢ b
ne_of_mem a b xs m out h = false≢true (sym out ∙ subst (λ z. has z xs ≡ true) h m)

-- `list_add_to_before(b, n)` puts `n` last in the segment that ends at `b`.
pub Seg-add_before :
    (l : Links) (n a : ℕ) (xs : List ℕ) (b : ℕ)
    → n ∉ (b ∷ a ∷ xs)
    → Distinct (a ∷ xs)
    → b ∉ xs
    → Seg l a xs b
    → Seg (list_add_to_before l b n) a (xs ++ (n ∷ [])) b
unfolding list_add_to_before
Seg-add_before l n a [] b out d ob s =
    (ground (arith, s.1), ground (arith, s.1), (ground (arith, s.1), ground (arith, s.1)))
Seg-add_before l n a (x ∷ xs) b out d ob s = (
  ground (arith, s.0, last),
  ground (arith, s.1),
  Seg-add_before l n x xs b (ground arith) d.1 (ground arith) s.2,
)
  where
    last : l.prev b ≢ a
    last = ne_of_mem (l.prev b) a (x ∷ xs) (Seg-prev_mem l x xs b s.2) d.0

-- It keeps a segment that begins at `b`.
pub Seg-add_before_rest :
    (l : Links) (n b : ℕ) (ys : List ℕ) (c : ℕ)
    → n ∉ (b ∷ c ∷ ys)
    → l.prev b ∉ (b ∷ ys)
    → b ∉ ys
    → b ≢ c
    → Seg l b ys c
    → Seg (list_add_to_before l b n) b ys c
unfolding list_add_to_before
Seg-add_before_rest l n b ys c out op ob ne s =
    let l1 = set_next l n b in
    let l2 = set_next l1 (l.prev b) n in
    let l3 = set_prev l2 n (l.prev b) in
    Seg-set_prev l3 b n b ys c ob ne (
      Seg-set_prev l2 n (l.prev b) b ys c (ground arith) (ground arith)
        (Seg-set_next l1 (l.prev b) n b ys c op (Seg-set_next l n b b ys c (ground arith) s)))
