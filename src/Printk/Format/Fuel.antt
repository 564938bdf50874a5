-- ===== src/Printk/Format/Fuel.antt =====
-- `vsprintf` of os/kernel/printk.c comes to the end of every format that has its arguments.
use kalinote_os.Base.{
  ℕ, zero, suc, ◌+◌, ◌≤◌, ◌<◌, ◌≢◌, ◌≡◌, ◌∉◌, Gives, refl, Bool, true, false, ◌||◌, List, [], ◌∷◌,
  arith, Option, none, some, ◌==◌, if◌then◌else◌, length,
}
use kalinote_os.Printk.{number}
use kalinote_os.Printk.Width.{number-length}
use kalinote_os.Printk.Spec.{Result, done, fault, starved, Spec, or_zero, next_arg, read_spec}
use kalinote_os.Printk.Spec.Ends.{Ends, Enough, Ends-then, read_spec-Ends}
use kalinote_os.Printk.Format.{
  Output, from_uint, from_int, print_number, bytes_only, pointer_spec, small_spec, signed_spec,
  takes_arg, convert, finish, format_loop, vsprintf,
}

print_number-Ends :
    (spec : Spec) (base a : ℕ)
    → 2 ≤ base
    → base ≤ 36
    → Ends (λ out. Unit {0}) (bytes_only (print_number spec base a))
unfolding print_number
print_number-Ends spec base a lo hi =
    go _ (number a base (or_zero spec.field_width) (or_zero spec.precision) spec.flags)
      (number-length a base (or_zero spec.field_width) (or_zero spec.precision) spec.flags lo hi)
  where
    go :
        (P : List ℕ → Type 0) (o : Option (List ℕ))
        → Gives P o
        → Ends
            (λ out. Unit {0})
            (bytes_only (elim o as (λ x. Result (List ℕ)) [ none ↦ fault | some out ↦ done out ]))
    go P none g = absurd g
    go P (some out) g = tt

if-Ends :
    {A : Type 0} (P : A → Type 0) (b : Bool) (x y : Result A)
    → Ends P x
    → Ends P y
    → Ends P (if b then x else y)
if-Ends P true x y hx hy = hx
if-Ends P false x y hx hy = hy

convert-Ends :
    (strings : ℕ → List ℕ) (count : ℕ) (spec : Spec) (c a : ℕ)
    → a ≢ 0
    → Ends (λ out. Unit {0}) (convert strings count spec c a)
unfolding convert
convert-Ends strings count spec c a nz =
    let given : (a == 0) ≡ false = ground (arith, nz) in
    let P : Output → Type 0 = λ out. Unit in
    if-Ends P (c == 99) _ _ tt (
      if-Ends P (c == 115) _ _ (rw given tt) (
        if-Ends P (c == 111) _ _
          (print_number-Ends spec 8 (from_uint spec a) (omega arith) (omega arith))
          (if-Ends P (c == 112) _ _
            (print_number-Ends (pointer_spec spec) 16 a (omega arith) (omega arith))
            (if-Ends P (c == 120) _ _
              (print_number-Ends (small_spec spec) 16 (from_uint spec a) (omega arith)
                (omega arith))
              (if-Ends P (c == 88) _ _
                (print_number-Ends spec 16 (from_uint spec a) (omega arith) (omega arith))
                (if-Ends P ((c == 100) || (c == 105)) _ _
                  (print_number-Ends (signed_spec spec) 10 (from_int spec a) (omega arith)
                    (omega arith))
                  (if-Ends P (c == 117) _ _
                    (print_number-Ends spec 10 (from_int spec a) (omega arith) (omega arith))
                    tt)))))))

finish-Ends :
    (strings : ℕ → List ℕ) (count : ℕ) (spec : Spec) (cs args : List ℕ)
    → length cs ≤ length args
    → 0 ∉ args
    → Ends (λ (out, rest). Enough (length cs) rest) (finish strings count spec (cs, args))
unfolding finish next_arg
finish-Ends strings count spec [] args e z = (omega arith, e, z)
finish-Ends strings count spec (c ∷ cs) [] e z = absurd (omega (arith, e))
finish-Ends strings count spec (c ∷ cs) (a ∷ args) e z =
    if-Ends (λ (out, rest). Enough (suc (length cs)) rest) (takes_arg c) _ _
      (Ends-then (λ out. Unit {0}) (λ (out, rest). Enough (suc (length cs)) rest)
        (convert strings count spec c a) (λ out. done (out, (cs, args)))
        (convert-Ends strings count spec c a (ground (arith, z)))
        (λ out u. (omega arith, omega (arith, e), ground (arith, z))))
      (omega arith, omega (arith, e), z)

format_loop-Ends :
    (strings : ℕ → List ℕ) (fuel count : ℕ) (cs args : List ℕ)
    → length cs < fuel
    → length cs ≤ length args
    → 0 ∉ args
    → Ends (λ out. Unit {0}) (format_loop strings fuel count (cs, args))
unfolding format_loop
format_loop-Ends strings zero count cs args lt e z = absurd (omega arith)
format_loop-Ends strings (suc fuel) count [] args lt e z = tt
format_loop-Ends strings (suc fuel) count (c ∷ cs) args lt e z =
    let P : Output → Type 0 = λ out. Unit in
    if-Ends P (c == 37) _ _
      (Ends-then (λ (spec, rest). Enough (length cs) rest) P (read_spec (cs, args)) _
        (read_spec-Ends cs args (omega (arith, e)) z)
        (λ (spec, (cs1, args1)) h.
          Ends-then (λ (out, rest). Enough (length cs1) rest) P
            (finish strings count spec (cs1, args1)) _
            (finish-Ends strings count spec cs1 args1 h.1 h.2)
            (λ ((bytes, stores), (cs2, args2)) k.
              Ends-then P P (format_loop strings fuel (count + length bytes) (cs2, args2)) _
                (format_loop-Ends strings fuel (count + length bytes) cs2 args2
                  (omega (arith, lt, h.0, k.0)) k.1 k.2)
                (λ out u. tt))))
      (Ends-then P P (format_loop strings fuel (count + 1) (cs, args)) _
        (format_loop-Ends strings fuel (count + 1) cs args (omega arith) (omega (arith, e)) z)
        (λ out u. tt))

-- What ends without a fault gives a result.
Ends-done : {A : Type 0} (r : Result A) → Ends (λ a. Unit {0}) r → (a : A) × (r ≡ done a)
Ends-done (done a) h = (a, refl)
Ends-done fault h = absurd h
Ends-done starved h = absurd h

-- With at least as many arguments as the format has bytes, none of them 0, `vsprintf` comes to the
-- end of the format with a result: no argument is missing, no `%s` is for NULL, every number is
-- printed, and one round for each byte of the format, and one more, is enough.
pub vsprintf-ends :
    (strings : ℕ → List ℕ) (fmt args : List ℕ)
    → length fmt ≤ length args
    → 0 ∉ args
    → (out : Output) × (vsprintf strings (fmt, args) ≡ done out)
unfolding vsprintf
vsprintf-ends strings fmt args e z =
    Ends-done (format_loop strings (suc (length fmt)) 0 (fmt, args))
      (format_loop-Ends strings (suc (length fmt)) 0 fmt args (omega arith) e z)
