-- ===== src/Vfs/Walk.antt =====
-- The two walks of os/kernel/VFS.c over the list of file systems, on enough fuel.
use mathlib.Core.Path.{subst}
use kalinote_os.Base.{
  ℕ, zero, suc, ◌<◌, ◌≡◌, ◌≢◌, ◌⊎◌, inl, inr, Bool, true, false, List, [], ◌∷◌, ◌++◌, some, refl,
  sym, ap, ◌∙◌, arith, ◌==◌, Bool-cases, All, has, ◌∉◌, length,
}
use kalinote_os.Chain.{Chain}
use kalinote_os.Vfs.{Vfs, walk, find_before}

-- The walk comes to the end, with the test failing everywhere, or stops where it holds.
abbrev pub Stops : (ℕ → Bool) → List ℕ → ℕ → Type 0
Stops test xs r =
    ((r ≡ 0) × All (λ x. test x ≡ false) xs) ⊎ ((r ≢ 0) × (has r xs ≡ true) × (test r ≡ true))

Stops-cons :
    (test : ℕ → Bool) (x : ℕ) (xs : List ℕ) (r : ℕ)
    → test x ≡ false
    → Stops test xs r
    → Stops test (x ∷ xs) r
Stops-cons test x xs r e (inl (z, a)) = inl (z, (e, a))
Stops-cons test x xs r e (inr (n, h, t)) = inr (n, ground (arith, h), t)

pub walk-Stops :
    (v : Vfs) (test : ℕ → Bool) (fuel p : ℕ) (xs : List ℕ)
    → Chain v.next p xs 0
    → 0 ∉ xs
    → length xs < fuel
    → (r : ℕ) × (walk v test fuel p ≡ some r) × Stops test xs r
unfolding walk
walk-Stops v test zero p xs c out lt = absurd (omega arith)
walk-Stops v test (suc fuel) p [] c out lt =
    let e : (p == 0) ≡ true = ground (arith, c) in (0, rw e, inl (refl, tt))
walk-Stops v test (suc fuel) p (x ∷ xs) c out lt =
    let here : p ≡ x = c.0 in
    let n : (p == 0) ≡ false = ground (arith, here, out) in
    elim (Bool-cases (test p)) [
      | inl t ↦ (p, rw (n, t), inr (ground (arith, n), ground (arith, here), t))
      | inr t ↦
          let out_tail : 0 ∉ xs = ground (arith, out) in
          let (r, e, s) =
            walk-Stops v test fuel (v.next p) xs
              (subst (λ z. Chain v.next (v.next z) xs 0) (sym here) c.1) out_tail (omega arith) in
          (r, rw (n, t) e, Stops-cons test x xs r (subst (λ z. test z ≡ false) here t) s)
    ]

-- A node that is not in the list has none in front of it.
pub find_before-absent :
    (v : Vfs) (fs fuel p : ℕ) (xs : List ℕ)
    → Chain v.next (v.next p) xs 0
    → 0 ∉ xs
    → fs ∉ xs
    → length xs < fuel
    → find_before v fs fuel p ≡ some 0
unfolding find_before
find_before-absent v fs zero p xs c z out lt = absurd (omega arith)
find_before-absent v fs (suc fuel) p [] c z out lt =
    let e : (v.next p == 0) ≡ true = ground (arith, c) in rw e
find_before-absent v fs (suc fuel) p (x ∷ xs) c z out lt =
    let here : v.next p ≡ x = c.0 in
    let a : (v.next p == 0) ≡ false = ground (arith, here, z) in
    let b : (v.next p == fs) ≡ false = ground (arith, here, out) in
    rw (a, b)
      (find_before-absent v fs fuel (v.next p) xs
        (subst (λ y. Chain v.next (v.next y) xs 0) (sym here) c.1) (ground (arith, z))
        (ground (arith, out)) (omega arith))

-- The last of the nodes `p` and `xs`.
abbrev pub last : ℕ → List ℕ → ℕ
last p [] = p
last p (x ∷ xs) = last x xs

pub find_before-last :
    (v : Vfs) (fs fuel p : ℕ) (xs ys : List ℕ)
    → Chain v.next (v.next p) (xs ++ (fs ∷ ys)) 0
    → 0 ∉ (xs ++ (fs ∷ ys))
    → fs ∉ xs
    → length xs < fuel
    → find_before v fs fuel p ≡ some (last p xs)
unfolding find_before
find_before-last v fs zero p xs ys c z out lt = absurd (omega arith)
find_before-last v fs (suc fuel) p [] ys c z out lt =
    let here : v.next p ≡ fs = c.0 in
    let a : (v.next p == 0) ≡ false = ground (arith, here, z) in
    let b : (v.next p == fs) ≡ true = ground (arith, here) in rw (a, b)
find_before-last v fs (suc fuel) p (x ∷ xs) ys c z out lt =
    let here : v.next p ≡ x = c.0 in
    let a : (v.next p == 0) ≡ false = ground (arith, here, z) in
    let b : (v.next p == fs) ≡ false = ground (arith, here, out) in
    rw (a, b)
      (find_before-last v fs fuel (v.next p) xs ys
          (subst (λ y. Chain v.next (v.next y) (xs ++ (fs ∷ ys)) 0) (sym here) c.1)
          (ground (arith, z)) (ground (arith, out)) (omega arith)
        ∙ ap (λ y. some (last y xs)) here)
