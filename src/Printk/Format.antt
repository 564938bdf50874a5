-- ===== src/Printk/Format.antt =====
-- `vsprintf` of os/kernel/printk.c; `strings` gives the bytes at an address up to their end.
pub mod Fuel
pub mod Escape
mod Tests
use kalinote_os.Base.{
  ℕ, zero, suc, ◌+◌, ◌-◌, ◌*◌, ◌%◌, ◌^◌, Bool, true, false, ◌||◌, List, [], ◌∷◌, ◌++◌, Option, none,
  some, leb, has, ◌==◌, if◌then◌else◌, length, replicate,
}
use kalinote_os.Printk.{Flags, is_digit, skip_atoi, number}
use kalinote_os.Printk.Spec.{
  Result, done, fault, starved, ◌>>=◌, Spec, Input, or_zero, next_arg, read_spec,
}

-- What `%n` writes: an address, the number of bytes, the value.
pub record Store : Type 0 where
  pub address : ℕ
  pub size : ℕ
  pub value : ℕ

-- Bytes in a field: padded in front, or behind with `LEFT`.
pub in_field : Spec → List ℕ → List ℕ
in_field spec bytes =
    let pad = replicate (or_zero spec.field_width - length bytes) 32 in
    if spec.flags.left then bytes ++ pad else pad ++ bytes

abbrev pub is_long : Spec → Bool
is_long spec = or_zero spec.qualifier == 108

-- An `unsigned int`, and an `int`, as the `long` that `number` takes.
abbrev pub from_uint : Spec → ℕ → ℕ
from_uint spec a = if is_long spec then a else a % 2 ^ 32

abbrev pub from_int : Spec → ℕ → ℕ
from_int spec a =
    if is_long spec
    then a
    else if leb (2 ^ 31) (a % 2 ^ 32)
    then a % 2 ^ 32 + 2 ^ 64 - 2 ^ 32
    else a % 2 ^ 32

pub print_number : Spec → (base a : ℕ) → Result (List ℕ)
print_number spec base a =
    elim (number a base (or_zero spec.field_width) (or_zero spec.precision) spec.flags) [
      | none ↦ fault
      | some out ↦ done out
    ]

-- The first `n` bytes of a string.
abbrev pub first : ℕ → List ℕ → List ℕ
first zero cs = []
first (suc n) [] = []
first (suc n) (c ∷ cs) = c ∷ first n cs

abbrev pub first_of : Option ℕ → List ℕ → List ℕ
first_of none cs = cs
first_of (some n) cs = first n cs

abbrev pub pointer_spec : Spec → Spec
pointer_spec spec = elim spec.field_width [
  | none ↦ record spec { field_width = some 16; flags = record spec.flags { zeropad = true } }
  | some w ↦ spec
]

abbrev pub small_spec : Spec → Spec
small_spec spec = record spec { flags = record spec.flags { small = true } }

abbrev pub signed_spec : Spec → Spec
signed_spec spec = record spec { flags = record spec.flags { sign = true } }

abbrev pub Output : Type 0
Output = List ℕ × List Store

abbrev pub bytes_only : Result (List ℕ) → Result Output
bytes_only (done out) = done (out, [])
bytes_only fault = fault
bytes_only starved = starved

-- The letters of the conversions that take an argument.
abbrev pub takes_arg : ℕ → Bool
takes_arg c = has c (99 ∷ 115 ∷ 111 ∷ 112 ∷ 120 ∷ 88 ∷ 100 ∷ 105 ∷ 117 ∷ 110 ∷ [])

-- Their output, `count` bytes after the beginning of the buffer.
pub convert : (ℕ → List ℕ) → (count : ℕ) → Spec → (c a : ℕ) → Result Output
convert strings count spec c a =
    if c == 99
    then done (in_field spec ((a % 256) ∷ []), [])
    else if c == 115
    then (if a == 0 then fault else done (in_field spec (first_of spec.precision (strings a)), []))
    else if c == 111
    then bytes_only (print_number spec 8 (from_uint spec a))
    else if c == 112
    then bytes_only (print_number (pointer_spec spec) 16 a)
    else if c == 120
    then bytes_only (print_number (small_spec spec) 16 (from_uint spec a))
    else if c == 88
    then bytes_only (print_number spec 16 (from_uint spec a))
    else if (c == 100) || (c == 105)
    then bytes_only (print_number (signed_spec spec) 10 (from_int spec a))
    else if c == 117
    then bytes_only (print_number spec 10 (from_int spec a))
    else (let size : ℕ = if is_long spec then 8 else 4 in
        done ([], record { address = a; size = size; value = count } ∷ []))

-- The last `switch`: the letter of a specification, with what is left after it.
pub finish : (ℕ → List ℕ) → (count : ℕ) → Spec → Input → Result (Output × Input)
finish strings count spec ([], args) = done ((37 ∷ [], []), ([], args))
finish strings count spec (c ∷ cs, args) =
    let other : List ℕ = if c == 37 then 37 ∷ [] else 37 ∷ c ∷ [] in
    if takes_arg c
    then (next_arg (cs, args)
        >>= (λ (a, rest). convert strings count spec c a >>= (λ out. done (out, rest))))
    else done ((other, []), (cs, args))

-- The outer loop.
pub format_loop : (ℕ → List ℕ) → ℕ → (count : ℕ) → Input → Result Output
format_loop strings zero count input = starved
format_loop strings (suc fuel) count ([], args) = done ([], [])
format_loop strings (suc fuel) count (c ∷ cs, args) =
    if c == 37
    then (read_spec (cs, args) >>= (λ (spec, input).
        finish strings count spec input >>= (λ ((bytes, stores), rest).
          format_loop strings fuel (count + length bytes) rest
          >>= (λ (bytes', stores'). done (bytes ++ bytes', stores ++ stores')))))
    else (format_loop strings fuel (count + 1) (cs, args)
        >>= (λ (bytes, stores). done (c ∷ bytes, stores)))

pub vsprintf : (ℕ → List ℕ) → Input → Result Output
vsprintf strings (fmt, args) = format_loop strings (suc (length fmt)) 0 (fmt, args)
