-- ===== src/Printk/Format/Tests.antt =====
-- Formats printed, and the theorems about `vsprintf` at them.
use kalinote_os.Base.{◌≡◌, arith, ℕ, List, [], ◌∷◌, refl}
use kalinote_os.Printk.{
  is_digit, skip_atoi, skip_from, tmp_digits, tmp_of, backwards, is_negative, sign_of, prefix_of,
  number,
}
use kalinote_os.Printk.Spec.{
  done, read_flags, read_width, read_precision, read_qualifier, next_arg, read_spec,
}
use kalinote_os.Printk.Format.{
  Output, in_field, print_number, convert, finish, format_loop, vsprintf,
}
use kalinote_os.Printk.Format.Fuel.{vsprintf-ends}
use kalinote_os.Printk.Format.Escape.{escape, vsprintf-escape}

-- "a%-4d|%s%n" of -7, the string at 5 and the address 9.
abbrev strings : ℕ → List ℕ
strings a = 111 ∷ 107 ∷ []

abbrev mixed : List ℕ
mixed = 97 ∷ 37 ∷ 45 ∷ 52 ∷ 100 ∷ 124 ∷ 37 ∷ 115 ∷ 37 ∷ 110 ∷ []

mixed_printed :
    vsprintf strings (mixed, 18446744073709551609 ∷ 5 ∷ 9 ∷ [])
    ≡ done (
      97 ∷ 45 ∷ 55 ∷ 32 ∷ 32 ∷ 124 ∷ 111 ∷ 107 ∷ [],
      record { address = 9; size = 4; value = 8 } ∷ [],
    )
unfolding vsprintf format_loop read_spec read_flags read_width is_digit skip_atoi skip_from
    read_precision read_qualifier finish next_arg convert print_number in_field number tmp_of
    tmp_digits backwards is_negative sign_of prefix_of
mixed_printed = refl

abbrev ten_args : List ℕ
ten_args = 7 ∷ 5 ∷ 9 ∷ 1 ∷ 1 ∷ 1 ∷ 1 ∷ 1 ∷ 1 ∷ 1 ∷ []

vsprintf-ends_example : (out : Output) × (vsprintf strings (mixed, ten_args) ≡ done out)
vsprintf-ends_example = vsprintf-ends strings mixed ten_args (omega arith) refl

vsprintf-escape_example :
    vsprintf strings (escape (53 ∷ 37 ∷ 10 ∷ []), []) ≡ done (53 ∷ 37 ∷ 10 ∷ [], [])
vsprintf-escape_example = vsprintf-escape strings (53 ∷ 37 ∷ 10 ∷ []) []
