-- ===== src/Links/Ops.antt =====
-- The operations of `struct List` (os/include/lib.h) on a ring: insertion at either end or in
-- front of a node, removal of any node, and the test for emptiness.
use mathlib.Core.Path.{subst}
use kalinote_os.Base.{
  ℕ, ◌≡◌, ◌≢◌, List, [], ◌∷◌, ◌++◌, true, sym, ◌∙◌, arith, has, ◌∉◌, Distinct, ◌⊎◌, inl, inr,
  update, update_self,
}
use kalinote_os.Distinct.{not_mem_front, not_mem_back}
use kalinote_os.Links.{Links, set_next, set_prev, list_add_to_behind, list_del}
use kalinote_os.Links.Ring.{Seg, Seg-set_next, Seg-set_prev, Seg-prev_mem, ne_of_mem}

pub Seg-front :
    (l : Links) (a : ℕ) (xs : List ℕ) (y : ℕ) (ys : List ℕ) (b : ℕ)
    → Seg l a (xs ++ (y ∷ ys)) b
    → Seg l a xs y
Seg-front l a [] y ys b s = (s.0, s.1)
Seg-front l a (x ∷ xs) y ys b s = (s.0, s.1, Seg-front l x xs y ys b s.2)

pub Seg-back :
    (l : Links) (a : ℕ) (xs : List ℕ) (y : ℕ) (ys : List ℕ) (b : ℕ)
    → Seg l a (xs ++ (y ∷ ys)) b
    → Seg l y ys b
Seg-back l a [] y ys b s = s.2
Seg-back l a (x ∷ xs) y ys b s = Seg-back l x xs y ys b s.2

pub Seg-join :
    (l : Links) (a : ℕ) (xs : List ℕ) (y : ℕ) (ys : List ℕ) (b : ℕ)
    → Seg l a xs y
    → Seg l y ys b
    → Seg l a (xs ++ (y ∷ ys)) b
Seg-join l a [] y ys b s t = (s.0, s.1, t)
Seg-join l a (x ∷ xs) y ys b s t = (s.0, s.1, Seg-join l x xs y ys b s.2 t)

-- `list_add_to_behind(e, n)` puts `n` first in the segment that begins at `e`.
pub Seg-add_behind :
    (l : Links) (n e : ℕ) (xs : List ℕ) (b : ℕ)
    → n ∉ (e ∷ b ∷ xs)
    → Distinct (e ∷ xs)
    → b ∉ xs
    → Seg l e xs b
    → Seg (list_add_to_behind l e n) e (n ∷ xs) b
unfolding list_add_to_behind
Seg-add_behind l n e [] b out d ob s =
    (ground (arith, s.0), ground (arith, s.0), (ground (arith, s.0), ground (arith, s.0)))
Seg-add_behind l n e (x ∷ xs) b out d ob s =
    let l1 = set_next l n (l.next e) in
    let l2 = set_prev l1 n e in
    let l3 = set_prev l2 (l2.next n) n in
    (
      ground arith,
      ground (arith, s.0),
      (
        ground (arith, s.0),
        ground (arith, s.0),
        Seg-set_next l3 e n x xs b d.0 (
            Seg-set_prev l2 (l2.next n) n x xs b (second (λ z. z ∉ xs) d.1.0)
              (second (λ z. z ≢ b) (ground arith))
              (Seg-set_prev l1 n e x xs b (ground arith) (ground arith)
                (Seg-set_next l n (l.next e) x xs b (ground arith) s.2))),
      ),
    )
  where
    second : (P : ℕ → Type 0) → P x → P (update l.next n (l.next e) n)
    second P h = subst P (sym (update_self l.next n (l.next e) ∙ s.0)) h

pub Seg-next :
    (l : Links) (a : ℕ) (xs : List ℕ) (b : ℕ)
    → Seg l a xs b
    → (l.next a ≡ b) ⊎ (has (l.next a) xs ≡ true)
Seg-next l a [] b s = inl s.0
Seg-next l a (x ∷ xs) b s = inr (ground (arith, s.0))

-- `list_del(x)` takes `x` out of the segments before and behind it.
pub Seg-del :
    (l : Links) (x a : ℕ) (xs ys : List ℕ) (b : ℕ)
    → Distinct (a ∷ xs ++ (x ∷ ys))
    → b ∉ (xs ++ (x ∷ ys))
    → Seg l a (xs ++ (x ∷ ys)) b
    → Seg (list_del l x) a (xs ++ ys) b
unfolding list_del
Seg-del l x a [] [] b d ob s = (ground (arith, s.0, s.1, s.2.0), ground (arith, s.1, s.2.0))
Seg-del l x a [] (y ∷ ys) b d ob s =
    (ground (arith, s.0, s.1, s.2.0), ground (arith, s.1, s.2.0), del_rest)
  where
    del_rest : Seg (list_del l x) y ys b
    del_rest =
        let l1 = set_prev l (l.next x) (l.prev x) in
        Seg-set_next l1 (l1.prev x) (l1.next x) y ys b
          (subst (λ z. z ∉ (y ∷ ys)) (ground (arith, s.1))
            (let o : a ∉ (y ∷ ys) = ground arith in o))
          (Seg-set_prev l (l.next x) (l.prev x) y ys b (subst (λ z. z ∉ ys) (sym s.2.0) d.1.1.0)
            (subst (λ z. z ≢ b) (sym s.2.0) (ground arith)) s.2.2)
Seg-del l x a (z ∷ xs) ys b d ob s = (
  ground (arith, s.0, last),
  ground (arith, s.1, first),
  Seg-del l x z xs ys b d.1 (ground arith) s.2,
)
  where
    last : l.prev x ≢ a
    last =
        ne_of_mem (l.prev x) a (z ∷ xs) (Seg-prev_mem l z xs x (Seg-front l z xs x ys b s.2))
          (not_mem_front a (z ∷ xs) (x ∷ ys) d.0)

    first : l.next x ≢ z
    first = elim (Seg-next l x ys b (Seg-back l z xs x ys b s.2)) [
      | inl e ↦ ground arith
      | inr m ↦
          ne_of_mem (l.next x) z ys m
            (let t : z ∉ (x ∷ ys) = not_mem_back z xs (x ∷ ys) d.1.0 in ground arith)
    ]
