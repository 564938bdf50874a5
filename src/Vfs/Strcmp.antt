-- ===== src/Vfs/Strcmp.antt =====
-- `strcmp` of os/include/lib.h tells equal strings from different ones, and orders them.
use mathlib.Core.Path.{subst}
use kalinote_os.Base.{
  ℕ, ◌+◌, ◌^◌, ◌%◌, ◌≡◌, ◌≢◌, ◌↔◌, inl, inr, true, List, [], ◌∷◌, refl, ap, ◌∙◌, arith, ltb, ◌==◌,
  if◌then◌else◌, Bool-cases,
}
use kalinote_os.Vfs.{strcmp, order}

order_ne : (x y : ℕ) → order x y ≢ 0
order_ne x y = elim (Bool-cases (ltb ((y + 128) % 2 ^ 8) ((x + 128) % 2 ^ 8))) [
  | inl b ↦ rw b (omega arith)
  | inr b ↦ rw b (omega arith)
]

strcmp_self : (xs : List ℕ) → strcmp xs xs ≡ 0
unfolding strcmp
strcmp_self [] = refl
strcmp_self (x ∷ xs) = let e : (x == x) ≡ true = ground arith in rw e (strcmp_self xs)

same_head :
    (x y rest : ℕ) (xs ys : List ℕ)
    → (if x == y then rest else order x y) ≡ 0
    → (rest ≡ 0 → xs ≡ ys)
    → (x ∷ xs) ≡ (y ∷ ys)
same_head x y rest xs ys e f = elim (Bool-cases (x == y)) [
  | inl b ↦
      let h : x ≡ y = ground (arith, b) in
      let t : xs ≡ ys = f (rw b at e) in ap (λ z. z ∷ xs) h ∙ ap (λ zs. y ∷ zs) t
  | inr b ↦ absurd (order_ne x y (rw b at e))
]

strcmp_zero : (xs ys : List ℕ) → strcmp xs ys ≡ 0 → xs ≡ ys
unfolding strcmp
strcmp_zero [] [] e = refl
strcmp_zero [] (y ∷ ys) e = absurd (order_ne 0 y e)
strcmp_zero (x ∷ xs) [] e = absurd (order_ne x 0 e)
strcmp_zero (x ∷ xs) (y ∷ ys) e = same_head x y (strcmp xs ys) xs ys e (strcmp_zero xs ys)

-- `strcmp` gives 0 exactly for equal strings.
pub strcmp_iff : (xs ys : List ℕ) → (strcmp xs ys ≡ 0) ↔ (xs ≡ ys)
strcmp_iff xs ys = (strcmp_zero xs ys, λ e. subst (λ z. strcmp xs z ≡ 0) e (strcmp_self xs))
