-- ===== src/Mouse.antt =====
-- The mouse decoder `analysis_mousecode` of os/driver/mouse.c, on the drivers' buffer, with
-- `mouse_cursor_move` of os/graphic/graphic.c. The calls of `layer_move` are a list.
pub mod Packets
mod Tests
use kalinote_os.Base.{
  ℕ, ◌+◌, ◌-◌, ◌%◌, ◌^◌, Bool, List, [], ◌∷◌, ◌++◌, Option, none, some, ltb, leb, ◌==◌,
  if◌then◌else◌,
}
use kalinote_os.KeyBuffer.{Buffer, get_code}

-- `mouse_count`, the packet `mouse`, the cursor, and what is used of `printk_info`.
pub record Mouse : Type 0 where
  pub buffer : Buffer
  pub mouse_count : ℕ
  pub byte0 : ℕ
  pub byte1 : ℕ
  pub byte2 : ℕ
  pub x : ℕ
  pub y : ℕ
  pub mode : Bool
  pub screen_x : ℕ
  pub screen_y : ℕ
  pub moves : List (ℕ × ℕ)

-- The limits on a coordinate, an `int` as its pattern, by the size of the screen.
abbrev pub limit : (coordinate size : ℕ) → ℕ
limit coordinate size =
    if ltb coordinate (2 ^ 31) then (if leb size coordinate then size else coordinate) else 0

-- A `char` is added to an `unsigned int`, or taken away.
abbrev pub add_char : (coordinate c size : ℕ) → ℕ
add_char coordinate c size =
    limit ((coordinate + (if ltb c 128 then c else c + 2 ^ 32 - 256)) % 2 ^ 32) size

abbrev pub sub_char : (coordinate c size : ℕ) → ℕ
sub_char coordinate c size =
    limit ((coordinate + (if ltb c 128 then 2 ^ 32 - c else 256 - c)) % 2 ^ 32) size

-- `mouse_cursor_move(mouse_cursor.x + mouse.Byte1, mouse_cursor.y - mouse.Byte2)`
pub move_cursor : Mouse → Mouse
move_cursor m =
    let x = add_char m.x m.byte1 m.screen_x in
    let y = sub_char m.y m.byte2 m.screen_y in
    record m { x = x; y = y; moves = m.moves ++ ((x, y) ∷ []) }

-- The `switch` on `mouse_count`.
pub take_byte : ℕ → Mouse → Mouse
take_byte c m =
    if m.mouse_count == 0
    then record m { mouse_count = 1 }
    else if m.mouse_count == 1
    then record m { byte0 = c; mouse_count = 2 }
    else if m.mouse_count == 2
    then record m { byte1 = c; mouse_count = 3 }
    else if m.mouse_count == 3
    then (let m' = record m { byte2 = c; mouse_count = 1 } in if m.mode then move_cursor m' else m')
    else m

-- `none` while it waits for a byte.
pub analysis_mousecode : Mouse → Option Mouse
analysis_mousecode m = elim (get_code m.buffer) [
  | none ↦ none
  | some (c, buffer) ↦ some (take_byte c (record m { buffer = buffer }))
]
