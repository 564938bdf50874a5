-- ===== src/Printk/Format/Escape.antt =====
-- `vsprintf` of os/kernel/printk.c writes text as it is, and `%%` as one byte.
use kalinote_os.Base.{
  ℕ, zero, suc, ◌+◌, ◌<◌, ◌≡◌, inl, inr, List, [], ◌∷◌, arith, refl, none, ◌==◌, if◌then◌else◌,
  Bool-cases, length,
}
use kalinote_os.Printk.{is_digit}
use kalinote_os.Printk.Spec.{
  done, Spec, no_flags, read_flags, read_width, read_precision, read_qualifier, read_spec,
}
use kalinote_os.Printk.Format.{finish, format_loop, vsprintf}

-- Text with each `%` doubled.
abbrev pub escape : List ℕ → List ℕ
escape [] = []
escape (c ∷ cs) = if c == 37 then 37 ∷ 37 ∷ escape cs else c ∷ escape cs

percent_spec : Spec
percent_spec = record { flags = no_flags; field_width = none; precision = none; qualifier = none }

read_spec-percent :
    (cs args : List ℕ) → read_spec (37 ∷ cs, args) ≡ done (percent_spec, (37 ∷ cs, args))
unfolding read_spec read_flags read_width is_digit read_precision read_qualifier percent_spec
read_spec-percent cs args = refl

finish-percent :
    (strings : ℕ → List ℕ) (count : ℕ) (cs args : List ℕ)
    → finish strings count percent_spec (37 ∷ cs, args) ≡ done ((37 ∷ [], []), (cs, args))
unfolding finish
finish-percent strings count cs args = refl

format_loop-escape :
    (strings : ℕ → List ℕ) (fuel count : ℕ) (text args : List ℕ)
    → length (escape text) < fuel
    → format_loop strings fuel count (escape text, args) ≡ done (text, [])
unfolding format_loop
format_loop-escape strings zero count text args lt = absurd (omega arith)
format_loop-escape strings (suc fuel) count [] args lt = refl
format_loop-escape strings (suc fuel) count (c ∷ text) args lt = elim (Bool-cases (c == 37)) [
  | inl e ↦
      let same : c ≡ 37 = ground (arith, e) in
      let shorter : length (escape text) < fuel = ground (arith, e, lt) in
      rw
        (
          same,
          format_loop,
          read_spec-percent (escape text) args,
          finish-percent strings count (escape text) args,
          format_loop-escape strings fuel (count + 1) text args shorter,
        )
        refl
  | inr e ↦
      let shorter : length (escape text) < fuel = ground (arith, e, lt) in
      rw (e, format_loop, e, format_loop-escape strings fuel (count + 1) text args shorter) refl
]

-- Text in which every `%` is doubled is printed as the text, whatever the arguments are, and nothing
-- is written elsewhere.
pub vsprintf-escape :
    (strings : ℕ → List ℕ) (text args : List ℕ)
    → vsprintf strings (escape text, args) ≡ done (text, [])
unfolding vsprintf
vsprintf-escape strings text args =
    format_loop-escape strings (suc (length (escape text))) 0 text args (omega arith)
