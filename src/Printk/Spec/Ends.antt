-- ===== src/Printk/Spec/Ends.antt =====
-- Reading a specification in os/kernel/printk.c ends, and leaves no more of the format; with enough
-- arguments it finds those that it asks for.
use kalinote_os.Base.{
  ℕ, suc, ◌+◌, ◌-◌, ◌*◌, ◌%◌, ◌^◌, ◌≤◌, inl, inr, true, ◌||◌, List, [], ◌∷◌, arith, Option, some,
  ◌==◌, leb, if◌then◌else◌, Bool-cases, length, ◌∉◌,
}
use kalinote_os.Printk.{Flags, is_digit, skip_atoi, skip_from}
use kalinote_os.Printk.Spec.{
  Result, done, fault, starved, ◌>>=◌, Input, no_flags, is_flag, set_flag, int_of, or_zero,
  read_flags, read_width, after_dot, read_precision, read_qualifier, read_spec,
}

-- It ends without a fault, and `P` holds of what it gives.
abbrev pub Ends : {A : Type 0} → (A → Type 0) → Result A → Type 0
Ends P (done a) = P a
Ends P fault = ⊥
Ends P starved = ⊥

-- No more than `n` bytes of the format are left, not fewer arguments than that, and none of them is 0.
abbrev pub Enough : ℕ → Input → Type 0
Enough n (cs, args) = (length cs ≤ n) × (length cs ≤ length args) × (0 ∉ args)

module _ {A B : Type 0} (Before : A → Type 0) (After : B → Type 0) where
  -- One reading after the other.
  pub Ends-then :
      (first : Result A) (second : A → Result B)
      → Ends Before first
      → ((read : A) → Before read → Ends After (second read))
      → Ends After (first >>= second)
  Ends-then (done read) second ends go = go read ends
  Ends-then fault second ends go = absurd ends
  Ends-then starved second ends go = absurd ends

read_flags-length : (f : Flags) (cs : List ℕ) → length (read_flags f cs).1 ≤ length cs
unfolding read_flags
read_flags-length f [] = omega arith
read_flags-length f (c ∷ cs) = elim (Bool-cases (is_flag c)) [
  | inl e ↦ rw e (omega (arith, read_flags-length (set_flag f c) cs))
  | inr e ↦ rw e (omega arith)
]

skip_from-length : (i : ℕ) (cs : List ℕ) → length (skip_from i cs).1 ≤ length cs
unfolding skip_from
skip_from-length i [] = omega arith
skip_from-length i (c ∷ cs) = elim (Bool-cases (is_digit c)) [
  | inl e ↦ rw e (omega (arith, skip_from-length ((i * 10 + c - 48) % 2 ^ 32) cs))
  | inr e ↦ rw e (omega arith)
]

read_width-Ends :
    (f : Flags) (cs args : List ℕ)
    → length cs ≤ length args
    → 0 ∉ args
    → Ends (λ (f', w, rest). Enough (length cs) rest) (read_width f (cs, args))
unfolding read_width skip_atoi
read_width-Ends f [] args e z = (omega arith, e, z)
read_width-Ends f (c ∷ cs) args e z = elim (Bool-cases (is_digit c)) [
  | inl d ↦ rw d (skip_from-length 0 (c ∷ cs), omega (arith, e, skip_from-length 0 (c ∷ cs)), z)
  | inr d ↦ elim (Bool-cases (c == 42)) [
    | inr n ↦ rw (d, n) (omega arith, e, z)
    | inl y ↦ rw (d, y) (star args e z)
  ]
]
  where
    star :
        (args : List ℕ)
        → suc (length cs) ≤ length args
        → 0 ∉ args
        → Ends
            (λ (f', w, rest). Enough (suc (length cs)) rest)
            (elim args as (λ x. Result (Flags × Option ℕ × Input)) [
              | [] ↦ fault
              | a ∷ args' ↦
                  let w = a % 2 ^ 32 in
                  if leb (2 ^ 31) w
                  then done (record f { left = true }, int_of ((2 ^ 32 - w) % 2 ^ 32), (cs, args'))
                  else done (f, int_of w, (cs, args'))
            ])
    star [] e z = absurd (omega (arith, e))
    star (a ∷ args) e z = elim (Bool-cases (leb (2 ^ 31) (a % 2 ^ 32))) [
      | inl b ↦ rw b (omega arith, omega (arith, e), ground (arith, z))
      | inr b ↦ rw b (omega arith, omega (arith, e), ground (arith, z))
    ]

after_dot-Ends :
    (cs args : List ℕ)
    → length cs ≤ length args
    → 0 ∉ args
    → Ends (λ (p, rest). Enough (length cs) rest) (after_dot (cs, args))
unfolding after_dot skip_atoi
after_dot-Ends [] args e z = (omega arith, e, z)
after_dot-Ends (c ∷ cs) args e z = elim (Bool-cases (is_digit c)) [
  | inl d ↦ rw d (skip_from-length 0 (c ∷ cs), omega (arith, e, skip_from-length 0 (c ∷ cs)), z)
  | inr d ↦ elim (Bool-cases (c == 42)) [
    | inr n ↦ rw (d, n) (omega arith, e, z)
    | inl y ↦ rw (d, y) (star args e z)
  ]
]
  where
    star :
        (args : List ℕ)
        → suc (length cs) ≤ length args
        → 0 ∉ args
        → Ends
            (λ (p, rest). Enough (suc (length cs)) rest)
            (elim args as (λ x. Result (ℕ × Input)) [
              | [] ↦ fault
              | a ∷ args' ↦ done (or_zero (int_of (a % 2 ^ 32)), (cs, args'))
            ])
    star [] e z = absurd (omega (arith, e))
    star (a ∷ args) e z = (omega arith, omega (arith, e), ground (arith, z))

read_precision-Ends :
    (cs args : List ℕ)
    → length cs ≤ length args
    → 0 ∉ args
    → Ends (λ (p, rest). Enough (length cs) rest) (read_precision (cs, args))
unfolding read_precision
read_precision-Ends [] args e z = (omega arith, e, z)
read_precision-Ends (c ∷ cs) args e z = elim (Bool-cases (c == 46)) [
  | inr d ↦ rw d (omega arith, e, z)
  | inl d ↦ rw d (
      Ends-then (λ (p, rest). Enough (length cs) rest) (λ (p, rest). Enough (suc (length cs)) rest)
        (after_dot (cs, args)) (λ (p, rest). done (some p, rest))
        (after_dot-Ends cs args (omega (arith, e)) z)
        (λ (p, rest) h. (omega (arith, h.0), h.1, h.2)))
]

read_qualifier-length : (cs : List ℕ) → length (read_qualifier cs).1 ≤ length cs
unfolding read_qualifier
read_qualifier-length [] = omega arith
read_qualifier-length (c ∷ cs) =
    elim (Bool-cases ((c == 104) || ((c == 108) || ((c == 76) || (c == 90))))) [
      | inl e ↦ rw e (omega arith)
      | inr e ↦ rw e (omega arith)
    ]

pub read_spec-Ends :
    (cs args : List ℕ)
    → length cs ≤ length args
    → 0 ∉ args
    → Ends (λ (spec, rest). Enough (length cs) rest) (read_spec (cs, args))
unfolding read_spec
read_spec-Ends cs args e z =
    let (f, after_flags) = read_flags no_flags cs in
    let shorter = read_flags-length no_flags cs in
    Ends-then (λ (f', w, rest). Enough (length (read_flags no_flags cs).1) rest)
      (λ (spec, rest). Enough (length cs) rest)
      (read_width (read_flags no_flags cs).0 ((read_flags no_flags cs).1, args))
      (λ (f', w, rest). read_precision rest >>= (λ (p, (cs', args')).
        let (q, after) = read_qualifier cs' in
        done
          (record { flags = f'; field_width = w; precision = p; qualifier = q }, (after, args'))))
      (read_width-Ends (read_flags no_flags cs).0 (read_flags no_flags cs).1 args
        (omega (arith, e, shorter)) z)
      (λ (f', w, (cs1, args1)) h.
        Ends-then (λ (p, rest). Enough (length cs1) rest) (λ (spec, rest). Enough (length cs) rest)
          (read_precision (cs1, args1))
          (λ (p, (cs', args')).
            let (q, after) = read_qualifier cs' in
            done (
              record { flags = f'; field_width = w; precision = p; qualifier = q },
              (after, args'),
            ))
          (read_precision-Ends cs1 args1 h.1 h.2)
          (λ (p, (cs', args')) k. (
            omega (arith, shorter, h.0, k.0, read_qualifier-length cs'),
            omega (arith, k.1, read_qualifier-length cs'),
            k.2,
          )))
