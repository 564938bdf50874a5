-- ===== src/Printk/Spec.antt =====
-- The specifications in a format of `vsprintf` in os/kernel/printk.c: flags, width, precision and
-- qualifier. A format is its bytes; the arguments are the 64-bit words that `va_arg` reads one after
-- the other.
pub mod Ends
use kalinote_os.Base.{
  ℕ, zero, suc, ◌+◌, ◌-◌, ◌*◌, ◌%◌, ◌^◌, Bool, true, false, ◌||◌, List, [], ◌∷◌, ◌++◌, Option, none,
  some, leb, has, ◌==◌, if◌then◌else◌, length, replicate,
}
use kalinote_os.Printk.{Flags, is_digit, skip_atoi, number}

-- The bytes of the buffer and the writes of `%n`; `fault` is a missing argument, the string at NULL or,
-- in `color_printk`, a text too long for its buffer, and `starved` a loop out of fuel.
pub data Result (A : Type 0) : Type 0 where
  done : A → Result A
  fault : Result A
  starved : Result A

infixl 5 ◌>>=◌
abbrev pub ◌>>=◌ : {A B : Type 0} → Result A → (A → Result B) → Result B
r >>= f = elim r [ done a ↦ f a | fault ↦ fault | starved ↦ starved ]

-- The specification at a `%`, but its last letter: `none` is -1, a negative number counts as 0.
pub record Spec : Type 0 where
  pub flags : Flags
  pub field_width : Option ℕ
  pub precision : Option ℕ
  pub qualifier : Option ℕ

-- What is left of the format and of the arguments.
abbrev pub Input : Type 0
Input = List ℕ × List ℕ

abbrev pub no_flags : Flags
no_flags = record {
  zeropad = false;
  sign = false;
  plus = false;
  space = false;
  left = false;
  special = false;
  small = false;
}

abbrev pub is_flag : ℕ → Bool
is_flag c = has c (45 ∷ 43 ∷ 32 ∷ 35 ∷ 48 ∷ [])

abbrev pub set_flag : Flags → ℕ → Flags
set_flag f c =
    if c == 45
    then record f { left = true }
    else if c == 43
    then record f { plus = true }
    else if c == 32
    then record f { space = true }
    else if c == 35
    then record f { special = true }
    else record f { zeropad = true }

-- The loop at `repeat`.
unfoldable pub read_flags : Flags → List ℕ → Flags × List ℕ
read_flags f [] = (f, [])
read_flags f (c ∷ cs) =
    let rest = read_flags (set_flag f c) cs in if is_flag c then rest else (f, c ∷ cs)

-- An `int` from its 32-bit word.
abbrev pub int_of : ℕ → Option ℕ
int_of w = if w == 2 ^ 32 - 1 then none else some (if leb (2 ^ 31) w then 0 else w)

-- What stands for a width that is not given, or is negative.
abbrev pub or_zero : Option ℕ → ℕ
or_zero none = 0
or_zero (some n) = n

unfoldable pub read_width : Flags → Input → Result (Flags × Option ℕ × Input)
read_width f ([], args) = done (f, none, ([], args))
read_width f (c ∷ cs, args) =
    let (i, rest) = skip_atoi (c ∷ cs) in
    if is_digit c
    then done (f, int_of i, (rest, args))
    else if c == 42
    then (elim args [
      | [] ↦ fault
      | a ∷ args' ↦
          let w = a % 2 ^ 32 in
          if leb (2 ^ 31) w
          then done (record f { left = true }, int_of ((2 ^ 32 - w) % 2 ^ 32), (cs, args'))
          else done (f, int_of w, (cs, args'))
    ])
    else done (f, none, (c ∷ cs, args))

-- What follows the dot; a negative precision is 0.
unfoldable pub after_dot : Input → Result (ℕ × Input)
after_dot ([], args) = done (0, ([], args))
after_dot (c ∷ cs, args) =
    let (i, rest) = skip_atoi (c ∷ cs) in
    if is_digit c
    then done (or_zero (int_of i), (rest, args))
    else if c == 42
    then (elim args [ [] ↦ fault | a ∷ args' ↦ done (or_zero (int_of (a % 2 ^ 32)), (cs, args')) ])
    else done (0, (c ∷ cs, args))

unfoldable pub read_precision : Input → Result (Option ℕ × Input)
read_precision ([], args) = done (none, ([], args))
read_precision (c ∷ cs, args) =
    if c == 46
    then (after_dot (cs, args) >>= (λ (p, rest). done (some p, rest)))
    else done (none, (c ∷ cs, args))

unfoldable pub read_qualifier : List ℕ → Option ℕ × List ℕ
read_qualifier [] = (none, [])
read_qualifier (c ∷ cs) =
    if (c == 104) || ((c == 108) || ((c == 76) || (c == 90))) then (some c, cs) else (none, c ∷ cs)

-- `va_arg`.
unfoldable pub next_arg : Input → Result (ℕ × Input)
next_arg (cs, []) = fault
next_arg (cs, a ∷ args) = done (a, (cs, args))

unfoldable pub read_spec : Input → Result (Spec × Input)
read_spec (cs, args) =
    let (f, after_flags) = read_flags no_flags cs in
    read_width f (after_flags, args) >>= (λ (f', w, rest).
      read_precision rest >>= (λ (p, (cs', args')).
        let (q, after) = read_qualifier cs' in
        done
          (record { flags = f'; field_width = w; precision = p; qualifier = q }, (after, args'))))
