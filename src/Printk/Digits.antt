-- ===== src/Printk/Digits.antt =====
-- `skip_atoi` of os/kernel/printk.c reads back what `number` writes in base 10.
use kalinote_os.Base.{
  ℕ, zero, suc, ◌+◌, ◌-◌, ◌*◌, ◌/◌, ◌%◌, ◌^◌, ◌<◌, ◌≡◌, Bool, true, false, ◌&&◌, ◌||◌, not, List,
  [], ◌∷◌, ◌++◌, refl, sym, ap, ◌∙◌, arith, ltb, leb, ◌==◌, if◌then◌else◌, length, get_or,
  replicate, Bool-cases, agree_at, Gives, inl, inr,
}
use kalinote_os.Printk.{
  is_digit, skip_from, skip_atoi, Flags, digits, tmp_digits, tmp_of, backwards, is_negative,
  sign_of, prefix_of, number,
}

-- The bound that `fuel` halvings bring down to nothing.
abbrev doubled : ℕ → ℕ
doubled zero = 1
doubled (suc n) = 2 * doubled n

decimal_digit : (small : Bool) (d : ℕ) → d < 10 → get_or (digits small) d 0 ≡ 48 + d
decimal_digit small d lt = agree_at (λ i. get_or (digits small) i 0) (λ i. 48 + i) 10 d lt refl

skip_digit :
    (i d : ℕ) (cs : List ℕ)
    → d < 10
    → i * 10 + d < 2 ^ 32
    → skip_from i ((48 + d) ∷ cs) ≡ skip_from (i * 10 + d) cs
unfolding skip_from is_digit
skip_digit i d cs lt small =
    let e : (leb 48 (48 + d) && leb (48 + d) 57) ≡ true = ground (arith, lt) in
    rw e (ap (λ z. skip_from z cs) (omega (arith, small)))

append_assoc : (xs ys zs : List ℕ) → ((xs ++ ys) ++ zs) ≡ (xs ++ (ys ++ zs))
append_assoc [] ys zs = refl
append_assoc (x ∷ xs) ys zs = ap (λ l. x ∷ l) (append_assoc xs ys zs)

skip_from-tmp_digits :
    (small : Bool) (fuel n : ℕ) (rest : List ℕ)
    → n < doubled fuel
    → n < 2 ^ 32
    → skip_from 0 (backwards (tmp_digits small 10 fuel n) ++ rest) ≡ skip_from n rest
unfolding tmp_digits backwards
skip_from-tmp_digits small zero n rest lt w =
    let e : n ≡ 0 = omega arith in ap (λ i. skip_from i rest) (sym e)
skip_from-tmp_digits small (suc fuel) n rest lt w = elim (Bool-cases (n == 0)) [
  | inl b ↦ let e : n ≡ 0 = ground (arith, b) in rw b (ap (λ i. skip_from i rest) (sym e))
  | inr b ↦
      let ds = backwards (tmp_digits small 10 fuel (n / 10)) in
      let d = get_or (digits small) (n % 10) 0 in
      rw b (
        ap (skip_from 0) (append_assoc ds (d ∷ []) rest)
        ∙ skip_from-tmp_digits small fuel (n / 10) (d ∷ rest) (omega arith) (omega arith)
        ∙ ap (λ c. skip_from (n / 10) (c ∷ rest)) (decimal_digit small (n % 10) (omega arith))
        ∙ skip_digit (n / 10) (n % 10) rest (omega arith) (omega arith)
        ∙ ap (λ i. skip_from i rest) (omega arith))
]

-- Behind the number stands the end of the string or a byte that is no digit.
abbrev pub Stops : List ℕ → Type 0
Stops [] = Unit
Stops (c ∷ cs) = is_digit c ≡ false

skip_from-Stops : (i : ℕ) (rest : List ℕ) → Stops rest → skip_from i rest ≡ (i, rest)
unfolding skip_from
skip_from-Stops i [] h = refl
skip_from-Stops i (c ∷ cs) h = rw h

skip_from-tmp_of :
    (small : Bool) (n : ℕ) (rest : List ℕ)
    → n < 2 ^ 32
    → skip_from 0 (backwards (tmp_of small 10 n) ++ rest) ≡ skip_from n rest
unfolding tmp_of backwards
skip_from-tmp_of small n rest w = elim (Bool-cases (n == 0)) [
  | inl b ↦
      let e : n ≡ 0 = ground (arith, b) in
      rw b (skip_digit 0 0 rest (omega arith) (omega arith) ∙ ap (λ i. skip_from i rest) (sym e))
  | inr b ↦ rw b (skip_from-tmp_digits small 65 n rest (omega arith) w)
]

skip_zeros : (n : ℕ) (rest : List ℕ) → skip_from 0 (replicate n 48 ++ rest) ≡ skip_from 0 rest
skip_zeros zero rest = refl
skip_zeros (suc n) rest =
    skip_digit 0 0 (replicate n 48 ++ rest) (omega arith) (omega arith) ∙ skip_zeros n rest

no_prefix : (type : Flags) → prefix_of type 10 ≡ []
unfolding prefix_of
no_prefix type = elim (Bool-cases type.special) [ inl b ↦ rw b | inr b ↦ rw b ]

no_sign :
    (type : Flags) (n : ℕ)
    → type.plus ≡ false
    → type.space ≡ false
    → n < 2 ^ 63
    → (is_negative type n ≡ false) × (sign_of type n ≡ [])
unfolding sign_of is_negative
no_sign type n p s lt =
    let e : (type.sign && leb (2 ^ 63) n) ≡ false = ground (arith, lt) in (e, rw (e, p, s))

no_padding_then : (b : Bool) (s c : ℕ) → s ≡ 0 → (if b then replicate s c else []) ≡ []
no_padding_then true s c e = ap (λ n. replicate n c) e
no_padding_then false s c e = refl

no_padding_else : (b : Bool) (s c : ℕ) → s ≡ 0 → (if b then [] else replicate s c) ≡ []
no_padding_else true s c e = refl
no_padding_else false s c e = ap (λ n. replicate n c) e

append-nil : (xs : List ℕ) → (xs ++ []) ≡ xs
append-nil [] = refl
append-nil (x ∷ xs) = ap (λ l. x ∷ l) (append-nil xs)

-- A field without padding.
no_padding :
    (zl z l : Bool) (s k : ℕ) (ds rest : List ℕ)
    → s ≡ 0
    → (((if zl then [] else replicate s 32)
          ++ ((if z then replicate s 48 else [])
              ++ (replicate k 48 ++ (ds ++ (if l then replicate s 32 else [])))))
        ++ rest)
      ≡ (replicate k 48 ++ (ds ++ rest))
no_padding zl z l s k ds rest e =
    rw
      (no_padding_else zl s 32 e, no_padding_then z s 48 e, no_padding_then l s 32 e, append-nil ds)
      (append_assoc (replicate k 48) ds rest)

-- `skip_atoi` of what `number` writes in base 10 for a number below 2^31, with no field width, no
-- flag for a plus or a space, any precision and any other flags, gives the number, and stands behind
-- it, when the bytes that follow begin with no digit.
pub skip_atoi-number :
    (n precision : ℕ) (type : Flags) (rest : List ℕ)
    → n < 2 ^ 31
    → type.plus ≡ false
    → type.space ≡ false
    → Stops rest
    → Gives (λ out. skip_atoi (out ++ rest) ≡ (n, rest)) (number n 10 0 precision type)
unfolding number skip_atoi
skip_atoi-number n precision type rest lt p s h =
    let (positive, sign) = no_sign type n p s (omega (arith, lt)) in
    let tmp = tmp_of type.small 10 n in
    let width : ℕ = if ltb precision (length tmp) then length tmp else precision in
    let zeropad = type.zeropad && not type.left in
    rw (positive, sign, no_prefix type)
      (ap (skip_from 0) (
          no_padding (zeropad || type.left) zeropad type.left (0 - width) (width - length tmp)
            (backwards tmp) rest (omega arith))
        ∙ skip_zeros (width - length tmp) (backwards tmp ++ rest)
        ∙ skip_from-tmp_of type.small n rest (omega (arith, lt))
        ∙ skip_from-Stops n rest h)
