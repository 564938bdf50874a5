-- ===== src/Distinct.antt =====
-- Distinct lists that are put together of parts.
use mathlib.Core.Path.{subst}
use mathlib.Core.Bool.{false≢true}
use kalinote_os.Base.{
  ℕ, ◌≡◌, ◌≢◌, List, [], ◌∷◌, ◌++◌, true, false, refl, sym, arith, has, ◌∉◌, Distinct, ◌==◌, ◌⊎◌,
  inl, inr, has-append_no,
}

pub not_mem_front : (a : ℕ) (xs ys : List ℕ) → a ∉ (xs ++ ys) → a ∉ xs
not_mem_front a [] ys h = refl
not_mem_front a (x ∷ xs) ys h = ground (arith, not_mem_front a xs ys)

pub not_mem_back : (a : ℕ) (xs ys : List ℕ) → a ∉ (xs ++ ys) → a ∉ ys
not_mem_back a [] ys h = h
not_mem_back a (x ∷ xs) ys h = ground (arith, not_mem_back a xs ys)

pub Distinct-front : (xs ys : List ℕ) → Distinct (xs ++ ys) → Distinct xs
Distinct-front [] ys d = tt
Distinct-front (x ∷ xs) ys d = (not_mem_front x xs ys d.0, Distinct-front xs ys d.1)

pub Distinct-back : (xs ys : List ℕ) → Distinct (xs ++ ys) → Distinct ys
Distinct-back [] ys d = d
Distinct-back (x ∷ xs) ys d = Distinct-back xs ys d.1

-- A node of the first part is not in the second.
pub apart : (a : ℕ) (xs ys : List ℕ) → Distinct (xs ++ ys) → has a xs ≡ true → a ∉ ys
apart a [] ys d m = absurd (false≢true m)
apart a (x ∷ xs) ys d m = elim (==-cases x) [
  | inl e ↦ subst (λ z. z ∉ ys) (sym e) (not_mem_back x xs ys d.0)
  | inr ne ↦ apart a xs ys d.1 (ground arith)
]
  where
    ==-cases : (x : ℕ) → (a ≡ x) ⊎ ((a == x) ≡ false)
    ==-cases x = ground arith

-- The middle of a distinct list is in neither part.
pub middle_front : (x : ℕ) (xs ys : List ℕ) → Distinct (xs ++ (x ∷ ys)) → x ∉ xs
middle_front x [] ys d = refl
middle_front x (z ∷ xs) ys d =
    let a : z ∉ (x ∷ ys) = not_mem_back z xs (x ∷ ys) d.0 in
    ground (arith, middle_front x xs ys d.1)

pub drop_not_mem : (a x : ℕ) (xs ys : List ℕ) → a ∉ (xs ++ (x ∷ ys)) → a ∉ (xs ++ ys)
drop_not_mem a x xs ys h =
    has-append_no a xs ys (not_mem_front a xs (x ∷ ys) h)
      (let t : a ∉ (x ∷ ys) = not_mem_back a xs (x ∷ ys) h in ground arith)

pub Distinct-drop : (x : ℕ) (xs ys : List ℕ) → Distinct (xs ++ (x ∷ ys)) → Distinct (xs ++ ys)
Distinct-drop x [] ys d = d.1
Distinct-drop x (z ∷ xs) ys d = (drop_not_mem z x xs ys d.0, Distinct-drop x xs ys d.1)

pub add_not_mem : (a x : ℕ) (xs ys : List ℕ) → a ≢ x → a ∉ (xs ++ ys) → a ∉ (xs ++ (x ∷ ys))
add_not_mem a x [] ys ne h = ground arith
add_not_mem a x (z ∷ xs) ys ne h = ground (arith, add_not_mem a x xs ys ne)

pub Distinct-add :
    (x : ℕ) (xs ys : List ℕ) → x ∉ (xs ++ ys) → Distinct (xs ++ ys) → Distinct (xs ++ (x ∷ ys))
Distinct-add x [] ys h d = (h, d)
Distinct-add x (z ∷ xs) ys h d =
    (add_not_mem z x xs ys (ground arith) d.0, Distinct-add x xs ys (ground arith) d.1)
