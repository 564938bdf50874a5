-- ===== src/Ordered.antt =====
-- Lists of addresses in the order of a key that memory holds for each: the order of the timers by
-- deadline and of the ready tasks by virtual run time.
use kalinote_os.Base.{
  ℕ, ◌≤◌, ◌≢◌, List, [], ◌∷◌, refl, arith, ◌∉◌, Distinct, All, ltb, if◌then◌else◌, Bool-cases, inl,
  inr,
}

-- Keys do not fall along the list.
abbrev pub Ascending : (ℕ → ℕ) → ℕ → List ℕ → Type 0
Ascending key low [] = Unit
Ascending key low (x ∷ xs) = (low ≤ key x) × Ascending key (key x) xs

-- In front of the first whose key is not smaller.
abbrev pub insert : (ℕ → ℕ) → ℕ → List ℕ → List ℕ
insert key t [] = t ∷ []
insert key t (x ∷ xs) = if ltb (key x) (key t) then x ∷ insert key t xs else t ∷ x ∷ xs

-- `insert` keeps the order.
pub insert-Ascending :
    (key : ℕ → ℕ) (low t : ℕ) (xs : List ℕ)
    → low ≤ key t
    → Ascending key low xs
    → Ascending key low (insert key t xs)
insert-Ascending key low t [] h a = (h, tt)
insert-Ascending key low t (x ∷ xs) h a = elim (Bool-cases (ltb (key x) (key t))) [
  | inl earlier ↦ rw earlier (a.0, insert-Ascending key (key x) t xs (ground arith) a.1)
  | inr stop ↦ rw stop (h, (ground arith, a.1))
]

pub insert-not_mem : (key : ℕ → ℕ) (a t : ℕ) (xs : List ℕ) → a ≢ t → a ∉ xs → a ∉ (insert key t xs)
insert-not_mem key a t [] ne h = ground arith
insert-not_mem key a t (x ∷ xs) ne h = ground (arith, insert-not_mem key a t xs ne)

pub insert-Distinct :
    (key : ℕ → ℕ) (t : ℕ) (xs : List ℕ) → t ∉ xs → Distinct xs → Distinct (insert key t xs)
insert-Distinct key t [] h d = (refl, tt)
insert-Distinct key t (x ∷ xs) h d = elim (Bool-cases (ltb (key x) (key t))) [
  | inl earlier ↦
      rw earlier
        (insert-not_mem key x t xs (ground arith) d.0, insert-Distinct key t xs (ground arith) d.1)
  | inr stop ↦ rw stop (h, d)
]

pub insert-All :
    (key : ℕ → ℕ) (P : ℕ → Type 0) (t : ℕ) (xs : List ℕ) → P t → All P xs → All P (insert key t xs)
insert-All key P t [] p a = (p, tt)
insert-All key P t (x ∷ xs) p a = elim (Bool-cases (ltb (key x) (key t))) [
  | inl earlier ↦ rw earlier (a.0, insert-All key P t xs p a.1)
  | inr stop ↦ rw stop (p, a)
]
