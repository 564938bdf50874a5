-- ===== src/Keyboard/Decode.antt =====
-- `analysis_keycode` of os/driver/keyboard.c on the one-byte codes: a key pressed is `x < 128`, and
-- the same key released is `x + 128`.
use Prim.Native.Nat.{bit_and}
use kalinote_os.Base.{
  agree_at, ℕ, ◌+◌, ◌*◌, ◌<◌, ◌≡◌, ◌≢◌, Bool, false, ◌||◌, List, ◌∷◌, Option, none, some, refl, ap,
  ◌∙◌, arith, ◌==◌, if◌then◌else◌, get_or,
}
use kalinote_os.KeyBuffer.{Buffer, get_code}
use kalinote_os.KeyBuffer.Fifo.{IsFifo, Reads, get_code-Reads}
use kalinote_os.Keyboard.{Keyboard, ◌>>=◌, get_scancode, normal, finish, analysis_keycode}
use kalinote_os.Keyboard.Map.{keycode_map_normal}

pressed_bits : (x : ℕ) → x < 128 → (bit_and x 0x80 ≡ 0) × (bit_and x 0x7f ≡ x)
pressed_bits x h = (
  agree_at (λ i. bit_and i 0x80) (λ i. 0) 128 x h refl,
  agree_at (λ i. bit_and i 0x7f) (λ i. i) 128 x h refl,
)

released_bits : (x : ℕ) → x < 128 → (bit_and (x + 128) 0x80 ≡ 128) × (bit_and (x + 128) 0x7f ≡ x)
released_bits x h = (
  agree_at (λ i. bit_and (i + 128) 0x80) (λ i. 128) 128 x h refl,
  agree_at (λ i. bit_and (i + 128) 0x7f) (λ i. i) 128 x h refl,
)

-- The reader's step on a buffer that holds a byte.
pub get_scancode-cons :
    (k : Keyboard) (x : ℕ) (q : List ℕ)
    → IsFifo k.p_kb (x ∷ q)
    → (b : Buffer) × (get_scancode k ≡ some (x, record k { p_kb = b })) × IsFifo b q
unfolding get_scancode
get_scancode-cons k x q v = go (get_code k.p_kb) refl (get_code-Reads k.p_kb (x ∷ q) v)
  where
    go :
        (r : Option (ℕ × Buffer))
        → get_code k.p_kb ≡ r
        → Reads (x ∷ q) r
        → (b : Buffer) × (get_scancode k ≡ some (x, record k { p_kb = b })) × IsFifo b q
    go none e h = absurd h
    go (some (y, b)) e h = (b, rw (get_scancode, e, h.0) refl, h.1)

-- The key's flag, for the four keys that have one.
abbrev pub set_modifier : ℕ → ℕ → Keyboard → Keyboard
set_modifier x v k =
    if x == 0x2a
    then record k { shift_l = v }
    else if x == 0x36
    then record k { shift_r = v }
    else if x == 0x1d
    then record k { ctrl_l = v }
    else if x == 0x38
    then record k { alt_l = v }
    else k

abbrev pub is_modifier : ℕ → Bool
is_modifier x = (x == 0x2a) || (x == 0x36) || (x == 0x1d) || (x == 0x38)

-- The character of a key, with a shift key held down or without.
abbrev pub character : Keyboard → ℕ → ℕ
character k x =
    get_or keycode_map_normal
      (x * 2 + (if k.shift_l == 0 then (if k.shift_r == 0 then 0 else 1) else 1)) 0

analysis-normal :
    (k : Keyboard) (x : ℕ) (b : Buffer)
    → get_scancode k ≡ some (x, record k { p_kb = b })
    → x ≢ 0xe1
    → x ≢ 0xe0
    → analysis_keycode k ≡ some (normal x (record k { p_kb = b }))
unfolding analysis_keycode finish
analysis-normal k x b e n1 n0 =
    let a : (x == 0xe1) ≡ false = ground arith in
    let c : (x == 0xe0) ≡ false = ground arith in rw (e, ◌>>=◌) (rw (a, c) refl)

normal_pressed :
    (x : ℕ) (k : Keyboard)
    → x < 128
    → normal x k ≡ ((if is_modifier x then 0 else character k x, 1), set_modifier x 1 k)
unfolding normal
normal_pressed x k h = rw ((pressed_bits x h).0, (pressed_bits x h).1) (ground arith)

normal_released :
    (x : ℕ) (k : Keyboard) → x < 128 → normal (x + 128) k ≡ ((0, 0), set_modifier x 0 k)
unfolding normal
normal_released x k h = rw ((released_bits x h).0, (released_bits x h).1) (ground arith)

-- What a code does to the decoder when the buffer begins with it: the key and the make flag, the
-- control keys by `change`, and the byte taken out of the buffer.
abbrev pub Decodes : Keyboard → List ℕ → ℕ × ℕ → (Keyboard → Keyboard) → Type 0
Decodes k q r change =
    (b : Buffer) × (analysis_keycode k ≡ some (r, change (record k { p_kb = b }))) × IsFifo b q

-- A code below 128, of a key pressed, that begins the buffer is taken out of it. It sets the flag of a control key and gives no key; for any other key it gives the key's character,
-- the upper one with a shift key held, and leaves the flags.
pub analysis_keycode-pressed :
    (k : Keyboard) (x : ℕ) (q : List ℕ)
    → x < 128
    → IsFifo k.p_kb (x ∷ q)
    → Decodes k q (if is_modifier x then 0 else character k x, 1) (set_modifier x 1)
analysis_keycode-pressed k x q h v =
    let (b, e, w) = get_scancode-cons k x q v in
    (
      b,
      analysis-normal k x b e (omega arith) (omega arith)
          ∙ ap some (normal_pressed x (record k { p_kb = b }) h),
      w,
    )

-- The code for the same key released clears that flag and gives no key.
pub analysis_keycode-released :
    (k : Keyboard) (x : ℕ) (q : List ℕ)
    → x < 128
    → x ≢ 0x60
    → x ≢ 0x61
    → IsFifo k.p_kb ((x + 128) ∷ q)
    → Decodes k q (0, 0) (set_modifier x 0)
analysis_keycode-released k x q h n0 n1 v =
    let (b, e, w) = get_scancode-cons k (x + 128) q v in
    (
      b,
      analysis-normal k (x + 128) b e (omega arith) (omega arith)
          ∙ ap some (normal_released x (record k { p_kb = b }) h),
      w,
    )
