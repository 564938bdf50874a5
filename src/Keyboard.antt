-- ===== src/Keyboard.antt =====
-- `analysis_keycode` of os/driver/keyboard.c: the decoder of scan codes with the state of the
-- control keys. It returns its locals `key` and `make`, which the source only prints.
pub mod Map
pub mod Decode
pub mod Sequences
mod Tests
use Prim.Native.Nat.{bit_and}
use kalinote_os.Base.{
  ℕ, zero, suc, ◌+◌, ◌*◌, Bool, true, false, ◌||◌, not, List, [], ◌∷◌, Option, none, some, ◌==◌,
  if◌then◌else◌, get_or,
}
use kalinote_os.KeyBuffer.{Buffer, get_code}
use Map.{keycode_map_normal}

pub record Keyboard : Type 0 where
  pub p_kb : Buffer
  pub shift_l : ℕ
  pub shift_r : ℕ
  pub ctrl_l : ℕ
  pub ctrl_r : ℕ
  pub alt_l : ℕ
  pub alt_r : ℕ

-- A step waits (`none`) or goes on with a new state.
abbrev pub Step : Type 0 → Type 0
Step A = Keyboard → Option (A × Keyboard)

abbrev pub pure : {A : Type 0} → A → Step A
pure a k = some (a, k)

infixl 5 ◌>>=◌
abbrev pub ◌>>=◌ : {A B : Type 0} → Step A → (A → Step B) → Step B
◌>>=◌ m f k = elim (m k) [ none ↦ none | some (a, k') ↦ f a k' ]

pub get_scancode : Step ℕ
get_scancode k = elim (get_code k.p_kb) [
  | none ↦ none
  | some (x, b) ↦ some (x, record k { p_kb = b })
]

abbrev pub pausebreak : ℕ
pausebreak = 1

abbrev pub printscreen : ℕ
printscreen = 2

abbrev pub otherkey : ℕ
otherkey = 4

-- `pausebreak_scode` from its second byte on.
abbrev pub pausebreak_scode : List ℕ
pausebreak_scode = 0x1d ∷ 0x45 ∷ 0xe1 ∷ 0x9d ∷ 0xc5 ∷ []

-- The loop of the pause key: its key unless a byte differs.
pub pause_rest : List ℕ → Step ℕ
pause_rest [] = pure pausebreak
pause_rest (c ∷ cs) = do y ← get_scancode; let rest = pause_rest cs; if y == c then rest else pure 0

-- Two more bytes that have to be `a` and `b`: the key is then `printscreen`.
pub screen_rest : ℕ → ℕ → ℕ → Step (ℕ × ℕ)
screen_rest a b make = do
  y ← get_scancode
  if y == a
      then (do z ← get_scancode; if z == b then pure (printscreen, make) else pure (0, 0))
      else pure (0, 0)

-- The `switch` behind 0xE0, on the byte `x` that follows it: `key` and `make`.
pub extended : ℕ → Step (ℕ × ℕ)
extended x k =
    if x == 0x2a
    then screen_rest 0xe0 0x37 1 k
    else if x == 0xb7
    then screen_rest 0xe0 0xaa 0 k
    else if x == 0x1d
    then some ((otherkey, 0), record k { ctrl_r = 1 })
    else if x == 0x9d
    then some ((otherkey, 0), record k { ctrl_r = 0 })
    else if x == 0x38
    then some ((otherkey, 0), record k { alt_r = 1 })
    else if x == 0xb8
    then some ((otherkey, 0), record k { alt_r = 0 })
    else some ((otherkey, 0), k)

-- The last part, for a byte that no prefix has explained.
pub normal : ℕ → Keyboard → (ℕ × ℕ) × Keyboard
normal x k =
    let make : ℕ = if bit_and x 0x80 == 0 then 1 else 0 in
    let column : ℕ = if k.shift_l == 0 then (if k.shift_r == 0 then 0 else 1) else 1 in
    let code = bit_and x 0x7f in
    let key = get_or keycode_map_normal (code * 2 + column) 0 in
    if code == 0x2a
    then ((0, make), record k { shift_l = make })
    else if code == 0x36
    then ((0, make), record k { shift_r = make })
    else if code == 0x1d
    then ((0, make), record k { ctrl_l = make })
    else if code == 0x38
    then ((0, make), record k { alt_l = make })
    else ((if make == 0 then 0 else key, make), k)

-- With a key found the last part is skipped.
pub finish : ℕ → ℕ × ℕ → Step (ℕ × ℕ)
finish x (key, make) k = if key == 0 then some (normal x k) else some ((key, make), k)

pub analysis_keycode : Step (ℕ × ℕ)
analysis_keycode = do
  x ← get_scancode
  if x == 0xe1
      then (do key ← pause_rest pausebreak_scode; finish x (key, 0))
      else if x == 0xe0
      then (do y ← get_scancode; r ← extended y; finish y r)
      else finish x (0, 0)
