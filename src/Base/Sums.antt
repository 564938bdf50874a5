-- ===== src/Base/Sums.antt =====
-- Sums over the addresses of a list, and what holds of one address or of all.
use mathlib.Core.Path.{◌≡◌, refl, subst, sym, ap, ◌∙◌}
use mathlib.Core.Logic.{◌≢◌, inl, inr}
use mathlib.Core.Bool.{true}
use mathlib.Core.List.{List, [], ◌∷◌, map}
use Prim.Native.Nat.{ℕ, ◌+◌, ◌≤◌}
use native.Mathlib.Omega.{arith}
use kalinote_os.Base.Tests.{◌==◌, Bool-cases, update}
use kalinote_os.Base.Lists.{All, length, has, ◌∉◌, Distinct}

abbrev pub sum_of : (ℕ → ℕ) → List ℕ → ℕ
sum_of f [] = 0
sum_of f (x ∷ xs) = f x + sum_of f xs

sum_of-update_out :
    (f : ℕ → ℕ) (a v : ℕ) (xs : List ℕ) → a ∉ xs → sum_of (update f a v) xs ≡ sum_of f xs
sum_of-update_out f a v [] out = omega arith
sum_of-update_out f a v (x ∷ xs) out = ground (arith, sum_of-update_out f a v xs)

-- A change of one summand moves the sum as much.
pub sum_of-update :
    (f : ℕ → ℕ) (a v : ℕ) (xs : List ℕ)
    → Distinct xs
    → has a xs ≡ true
    → sum_of (update f a v) xs + f a ≡ sum_of f xs + v
sum_of-update f a v [] d h = absurd (ground (arith, h))
sum_of-update f a v (x ∷ xs) d h = elim (Bool-cases (a == x)) [
  | inl e ↦
      let same : a ≡ x = ground (arith, e) in
      let out : a ∉ xs = subst (λ z. z ∉ xs) (sym same) d.0 in
      rw e (omega (arith, sum_of-update_out f a v xs out, ap f same))
  | inr e ↦
      let rest : has a xs ≡ true = ground (arith, e, h) in
      rw e (omega (arith, sum_of-update f a v xs d.1 rest))
]

pub sum_of-le : (f : ℕ → ℕ) (a : ℕ) (xs : List ℕ) → has a xs ≡ true → f a ≤ sum_of f xs
sum_of-le f a [] h = absurd (ground (arith, h))
sum_of-le f a (x ∷ xs) h = elim (Bool-cases (a == x)) [
  | inl e ↦ let same : a ≡ x = ground (arith, e) in omega (arith, ap f same)
  | inr e ↦
      let rest : has a xs ≡ true = ground (arith, e, h) in omega (arith, sum_of-le f a xs rest)
]

-- Something of the list is not zero where the sum is not.
pub sum_of-zero : (f : ℕ → ℕ) (xs : List ℕ) → All (λ x. f x ≡ 0) xs → sum_of f xs ≡ 0
sum_of-zero f [] a = omega arith
sum_of-zero f (x ∷ xs) a = omega (arith, a.0, sum_of-zero f xs a.1)

pub All-has : (P : ℕ → Type 0) (a : ℕ) (xs : List ℕ) → All P xs → has a xs ≡ true → P a
All-has P a [] all h = absurd (ground (arith, h))
All-has P a (x ∷ xs) all h = elim (Bool-cases (a == x)) [
  | inl e ↦ let same : x ≡ a = ground (arith, e) in subst P same all.0
  | inr e ↦ All-has P a xs all.1 (ground (arith, e, h))
]

pub All-of_has : (P : ℕ → Type 0) (xs : List ℕ) → ((x : ℕ) → has x xs ≡ true → P x) → All P xs
All-of_has P [] f = tt
All-of_has P (x ∷ xs) f = (f x (ground arith), All-of_has P xs (λ y h. f y (ground (arith, h))))

-- A property that holds at `a`, and elsewhere because it held before.
pub All-except :
    (P Q : ℕ → Type 0) (a : ℕ) (xs : List ℕ)
    → Q a
    → ((x : ℕ) → x ≢ a → has x xs ≡ true → P x → Q x)
    → All P xs
    → All Q xs
All-except P Q a [] q f all = tt
All-except P Q a (x ∷ xs) q f all = (
  elim (Bool-cases (x == a)) [
    | inl e ↦ let same : a ≡ x = ground (arith, e) in subst Q same q
    | inr e ↦ f x (ground (arith, e)) (ground arith) all.0
  ],
  All-except P Q a xs q (λ y n h. f y n (ground (arith, h))) all.1,
)

pub has-map : (f : ℕ → ℕ) (b : ℕ) (xs : List ℕ) → has b xs ≡ true → has (f b) (map f xs) ≡ true
has-map f b [] h = absurd (ground (arith, h))
has-map f b (x ∷ xs) h = elim (Bool-cases (b == x)) [
  | inl e ↦ let same : b ≡ x = ground (arith, e) in ground (arith, ap f same)
  | inr e ↦
      let rest : has (f b) (map f xs) ≡ true = has-map f b xs (ground (arith, e, h)) in
      ground (arith, rest)
]

-- Two of the list with the same value of `f` are the same, where the values are distinct.
pub map_unique :
    (f : ℕ → ℕ) (a b : ℕ) (xs : List ℕ)
    → Distinct (map f xs)
    → has a xs ≡ true
    → has b xs ≡ true
    → f a ≡ f b
    → a ≡ b
map_unique f a b [] d h k e = absurd (ground (arith, h))
map_unique f a b (x ∷ xs) d h k e = elim (Bool-cases (a == x)) [
  | inl p ↦ elim (Bool-cases (b == x)) [
    | inl q ↦ ground (arith, p, q)
    | inr q ↦
        let same : a ≡ x = ground (arith, p) in
        let in_rest : has (f b) (map f xs) ≡ true = has-map f b xs (ground (arith, q, k)) in
        let out : f b ∉ map f xs = subst (λ z. z ∉ map f xs) (ap f (sym same) ∙ e) d.0 in
        absurd (ground (arith, in_rest, out))
  ]
  | inr p ↦ elim (Bool-cases (b == x)) [
    | inl q ↦
        let same : b ≡ x = ground (arith, q) in
        let in_rest : has (f a) (map f xs) ≡ true = has-map f a xs (ground (arith, p, h)) in
        let out : f a ∉ map f xs = subst (λ z. z ∉ map f xs) (ap f (sym same) ∙ sym e) d.0 in
        absurd (ground (arith, in_rest, out))
    | inr q ↦ map_unique f a b xs d.1 (ground (arith, p, h)) (ground (arith, q, k)) e
  ]
]

sum_of-ext : (f g : ℕ → ℕ) (xs : List ℕ) → ((x : ℕ) → f x ≡ g x) → sum_of f xs ≡ sum_of g xs
sum_of-ext f g [] e = refl
sum_of-ext f g (x ∷ xs) e = omega (arith, e x, sum_of-ext f g xs e)

-- A change at one address, measured by `w`.
pub sum_of-update_map {ℓ} :
    {A : Type ℓ} (w : A → ℕ) (f : ℕ → A) (a : ℕ) (v : A) (xs : List ℕ)
    → Distinct xs
    → has a xs ≡ true
    → sum_of (λ x. w (update f a v x)) xs + w (f a) ≡ sum_of (λ x. w (f x)) xs + w v
sum_of-update_map w f a v xs d h =
    let e : sum_of (λ x. w (update f a v x)) xs ≡ sum_of (update (λ x. w (f x)) a (w v)) xs =
      sum_of-ext (λ x. w (update f a v x)) (update (λ x. w (f x)) a (w v)) xs
        (λ x. elim (Bool-cases (a == x)) [ inl e ↦ rw e refl | inr e ↦ rw e refl ]) in
    omega (arith, e, sum_of-update (λ x. w (f x)) a (w v) xs d h)

pub sum_of-length : (f : ℕ → ℕ) (xs : List ℕ) → ((x : ℕ) → f x ≤ 1) → sum_of f xs ≤ length xs
sum_of-length f [] h = omega arith
sum_of-length f (x ∷ xs) h = omega (arith, h x, sum_of-length f xs h)

-- Two of the list add up to no more than the sum.
pub sum_of-two :
    (f : ℕ → ℕ) (a b : ℕ) (xs : List ℕ)
    → has a xs ≡ true
    → has b xs ≡ true
    → a ≢ b
    → f a + f b ≤ sum_of f xs
sum_of-two f a b [] h k n = absurd (ground (arith, h))
sum_of-two f a b (x ∷ xs) h k n = elim (Bool-cases (a == x)) [
  | inl e ↦
      let same : a ≡ x = ground (arith, e) in
      let rest : has b xs ≡ true = ground (arith, k, same, n) in
      omega (arith, ap f same, sum_of-le f b xs rest)
  | inr e ↦ elim (Bool-cases (b == x)) [
    | inl g ↦
        let same : b ≡ x = ground (arith, g) in
        let rest : has a xs ≡ true = ground (arith, e, h) in
        omega (arith, ap f same, sum_of-le f a xs rest)
    | inr g ↦ omega (arith, sum_of-two f a b xs (ground (arith, e, h)) (ground (arith, g, k)) n)
  ]
]

-- A sum that is not zero has a summand that is not.
pub sum_of-some :
    (f : ℕ → ℕ) (xs : List ℕ) → sum_of f xs ≢ 0 → (x : ℕ) × (has x xs ≡ true) × (f x ≢ 0)
sum_of-some f [] n = absurd (n (omega arith))
sum_of-some f (x ∷ xs) n = elim (Bool-cases (f x == 0)) [
  | inr e ↦ (x, ground arith, ground (arith, e))
  | inl e ↦
      let zero_here : f x ≡ 0 = ground (arith, e) in
      let (y, h, k) = sum_of-some f xs (omega (arith, n, zero_here)) in (y, ground (arith, h), k)
]
