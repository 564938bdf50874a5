-- ===== src/Printk/Tests.antt =====
-- Numbers written and read back, and the theorems about them at such numbers.
use kalinote_os.Base.{◌-◌, ◌^◌, ◌≡◌, true, false, [], ◌∷◌, ◌++◌, some, refl, arith, Gives}
use kalinote_os.Printk.{
  Flags, is_digit, skip_atoi, tmp_digits, tmp_of, backwards, is_negative, sign_of, prefix_of,
  number,
}
use kalinote_os.Printk.Digits.{skip_atoi-number}

abbrev plain : Flags
plain = record {
  zeropad = false;
  sign = true;
  plus = false;
  space = false;
  left = false;
  special = false;
  small = true;
}

-- "%#06x" of 255.
hex :
    number 255 16 6 0 (record plain { sign = false; special = true; zeropad = true })
    ≡ some (48 ∷ 120 ∷ 48 ∷ 48 ∷ 102 ∷ 102 ∷ [])
unfolding number tmp_of tmp_digits backwards is_negative sign_of prefix_of
hex = refl

-- "%5d" of -42.
minus : number (2 ^ 64 - 42) 10 5 0 plain ≡ some (32 ∷ 32 ∷ 45 ∷ 52 ∷ 50 ∷ [])
unfolding number tmp_of tmp_digits backwards is_negative sign_of prefix_of
minus = refl

skip_atoi-number_example :
    Gives (λ out. skip_atoi (out ++ (32 ∷ [])) ≡ (2026, 32 ∷ [])) (number 2026 10 0 6 plain)
unfolding is_digit
skip_atoi-number_example = skip_atoi-number 2026 6 plain (32 ∷ []) (omega arith) refl refl refl
