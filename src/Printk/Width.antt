-- ===== src/Printk/Width.antt =====
-- The width of what `number` of os/kernel/printk.c writes.
use kalinote_os.Base.{
  ℕ, ◌+◌, ◌-◌, ◌≤◌, ◌≡◌, max, Bool, true, false, ◌&&◌, ◌||◌, not, List, [], ◌∷◌, ◌++◌, refl, ◌∙◌,
  arith, ltb, if◌then◌else◌, length, length-append, length-replicate, replicate, Gives,
}
use kalinote_os.Printk.{Flags, tmp_of, backwards, magnitude, sign_of, prefix_of, number}

length-backwards : (xs : List ℕ) → length (backwards xs) ≡ length xs
unfolding backwards
length-backwards [] = refl
length-backwards (x ∷ xs) =
    omega (arith, length-append (backwards xs) (x ∷ []), length-backwards xs)

length-pad_then :
    (b : Bool) (n c : ℕ) → length (if b then replicate n c else []) ≡ (if b then n else 0)
length-pad_then true n c = length-replicate n c
length-pad_then false n c = refl

length-pad_else :
    (b : Bool) (n c : ℕ) → length (if b then [] else replicate n c) ≡ (if b then 0 else n)
length-pad_else true n c = refl
length-pad_else false n c = length-replicate n c

-- One of the three paddings is written.
one_padding :
    (z l : Bool) (n : ℕ)
    → (if (z && not l) || l then 0 else n) + (if z && not l then n else 0) + (if l then n else 0)
      ≡ n
one_padding true true n = omega arith
one_padding true false n = omega arith
one_padding false true n = omega arith
one_padding false false n = omega arith

-- The parts of the output, put together.
field_length :
    (z l : Bool) (n k : ℕ) (sign prefix ds : List ℕ)
    → length (
        (if (z && not l) || l then [] else replicate n 32)
        ++ (sign
            ++ (prefix
                ++ ((if z && not l then replicate n 48 else [])
                    ++ (replicate k 48 ++ (ds ++ (if l then replicate n 32 else [])))))))
      ≡ n + length sign + length prefix + k + length ds
field_length z l n k sign prefix ds =
    let a : List ℕ = (if (z && not l) || l then [] else replicate n 32) in
    let b : List ℕ = (if z && not l then replicate n 48 else []) in
    let c : List ℕ = (if l then replicate n 32 else []) in
    omega (
      arith,
      length-append a (sign ++ (prefix ++ (b ++ (replicate k 48 ++ (ds ++ c))))),
      length-append sign (prefix ++ (b ++ (replicate k 48 ++ (ds ++ c)))),
      length-append prefix (b ++ (replicate k 48 ++ (ds ++ c))),
      length-append b (replicate k 48 ++ (ds ++ c)),
      length-append (replicate k 48) (ds ++ c),
      length-append ds c,
      length-replicate {A = ℕ} k 48,
      length-pad_else ((z && not l) || l) n 32,
      length-pad_then (z && not l) n 48,
      length-pad_then l n 32,
      one_padding z l n,
    )

-- For a base from 2 to 36 `number` writes as many bytes as the field is wide, or as the sign, the
-- prefix and the digits need, of which there are at least `precision`, if these are more.
pub number-length :
    (num base size precision : ℕ) (type : Flags)
    → 2 ≤ base
    → base ≤ 36
    → Gives
        (λ out.
          length out
          ≡ max size (
              length (sign_of type num)
              + length (prefix_of type base)
              + max precision (length (tmp_of type.small base (magnitude type num)))))
        (number num base size precision type)
unfolding number
number-length num base size precision type lo hi =
    let tmp = tmp_of type.small base (magnitude type num) in
    let proper : (ltb base 2 || ltb 36 base) ≡ false = ground (arith, lo, hi) in
    let sign = sign_of type num in
    let prefix = prefix_of type base in
    let width : ℕ = if ltb precision (length tmp) then length tmp else precision in
    let widest : width ≡ max precision (length tmp) = ground arith in
    rw (proper, Gives)
      (field_length type.zeropad type.left (size - length sign - length prefix - width)
          (width - length tmp) sign prefix (backwards tmp)
        ∙ omega (arith, length-backwards tmp, widest))
