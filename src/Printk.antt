-- ===== src/Printk.antt =====
-- The conversion of numbers of os/kernel/printk.c: `skip_atoi` and `number`. A string is its bytes
-- up to its end, and what `number` writes is the list of its bytes.
pub mod Digits
pub mod Width
pub mod Spec
pub mod Format
pub mod Cursor
mod Tests
use kalinote_os.Base.{
  ℕ, zero, suc, ◌+◌, ◌-◌, ◌*◌, ◌/◌, ◌%◌, ◌^◌, Bool, true, false, ◌&&◌, ◌||◌, not, List, [], ◌∷◌,
  ◌++◌, Option, none, some, ltb, leb, ◌==◌, if◌then◌else◌, length, get_or, replicate,
}

unfoldable pub is_digit : ℕ → Bool
is_digit c = leb 48 c && leb c 57

-- The loop of `skip_atoi` with its `i`: the number, and where the pointer then stands.
pub skip_from : ℕ → List ℕ → ℕ × List ℕ
skip_from i [] = (i, [])
skip_from i (c ∷ cs) =
    let rest = skip_from ((i * 10 + c - 48) % 2 ^ 32) cs in if is_digit c then rest else (i, c ∷ cs)

pub skip_atoi : List ℕ → ℕ × List ℕ
skip_atoi s = skip_from 0 s

-- The bits of `type`.
pub record Flags : Type 0 where
  pub zeropad : Bool
  pub sign : Bool
  pub plus : Bool
  pub space : Bool
  pub left : Bool
  pub special : Bool
  pub small : Bool

abbrev letters : ℕ → ℕ → List ℕ
letters a zero = []
letters a (suc n) = a ∷ letters (suc a) n

abbrev pub digits : Bool → List ℕ
digits small = letters 48 10 ++ letters (if small then 97 else 65) 26

-- The `while` that fills `tmp`, lowest digit first; 65 rounds are enough for 64 bits.
pub tmp_digits : Bool → ℕ → ℕ → ℕ → List ℕ
tmp_digits small base zero num = []
tmp_digits small base (suc fuel) num =
    let rest = tmp_digits small base fuel (num / base) in
    if num == 0 then [] else get_or (digits small) (num % base) 0 ∷ rest

pub tmp_of : Bool → ℕ → ℕ → List ℕ
tmp_of small base num = if num == 0 then 48 ∷ [] else tmp_digits small base 65 num

-- `tmp` written from its end.
pub backwards : List ℕ → List ℕ
backwards [] = []
backwards (x ∷ xs) = backwards xs ++ (x ∷ [])

pub is_negative : Flags → ℕ → Bool
is_negative type num = type.sign && leb (2 ^ 63) num

-- `num = -num`.
abbrev pub magnitude : Flags → ℕ → ℕ
magnitude type num = if is_negative type num then (2 ^ 64 - num) % 2 ^ 64 else num

pub sign_of : Flags → ℕ → List ℕ
sign_of type num =
    if is_negative type num
    then 45 ∷ []
    else if type.plus
    then 43 ∷ []
    else if type.space
    then 32 ∷ []
    else []

pub prefix_of : Flags → ℕ → List ℕ
prefix_of type base =
    if type.special
    then (if base == 8
        then 48 ∷ []
        else if base == 16
        then 48 ∷ get_or (digits type.small) 33 0 ∷ []
        else [])
    else []

-- `number` on a `long` as its 64-bit word. A negative `size` or `precision` counts as 0; a loop
-- `while (size-- > 0)` leaves no size for the next.
pub number : ℕ → ℕ → ℕ → ℕ → Flags → Option (List ℕ)
number num base size precision type =
    let tmp = tmp_of type.small base (magnitude type num) in
    let precision : ℕ = if ltb precision (length tmp) then length tmp else precision in
    let size = size - length (sign_of type num) - length (prefix_of type base) - precision in
    let zeropad = type.zeropad && not type.left in
    if ltb base 2 || ltb 36 base
    then none
    else some (
        (if zeropad || type.left then [] else replicate size 32)
        ++ (sign_of type num
            ++ (prefix_of type base
                ++ ((if zeropad then replicate size 48 else [])
                    ++ (replicate (precision - length tmp) 48
                        ++ (backwards tmp ++ (if type.left then replicate size 32 else [])))))))
