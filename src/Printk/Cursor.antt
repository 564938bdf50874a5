-- ===== src/Printk/Cursor.antt =====
-- The cursor of `color_printk` in os/kernel/printk.c: `struct PRINTK_INFO` of os/include/printk.h,
-- and what `putchar` is called with. The lock around the loop is left out.
pub mod Bounds
mod Tests
use kalinote_os.Base.{
  ℕ, zero, suc, ◌+◌, ◌-◌, ◌*◌, ◌/◌, Bool, true, false, List, [], ◌∷◌, ◌++◌, leb, ◌==◌,
  if◌then◌else◌, length,
}
use kalinote_os.Printk.Spec.{Result, done, fault, starved, Input}
use kalinote_os.Printk.Format.{Store, vsprintf}

pub record PrintkInfo : Type 0 where
  pub mode : ℕ
  pub screen_x : ℕ
  pub screen_y : ℕ
  pub pos_x : ℕ
  pub pos_y : ℕ
  pub csize_x : ℕ
  pub csize_y : ℕ

-- A call of `putchar`: the pixel, and the character. It draws 8 pixels of each of 16 lines from there
-- on, whatever `csize_x` and `csize_y` are.
pub record Glyph : Type 0 where
  pub x : ℕ
  pub y : ℕ
  pub font : ℕ

abbrev pub columns : PrintkInfo → ℕ
columns info = info.screen_x / info.csize_x

abbrev pub rows : PrintkInfo → ℕ
rows info = info.screen_y / info.csize_y

abbrev pub glyph : PrintkInfo → ℕ → Glyph
glyph info c = record { x = info.pos_x * info.csize_x; y = info.pos_y * info.csize_y; font = c }

-- The end of a round: past the last column, past the last row.
pub wrap : PrintkInfo → PrintkInfo
wrap info =
    let past = leb (columns info) info.pos_x in
    let pos_x : ℕ = if past then 0 else info.pos_x in
    let pos_y : ℕ = if past then info.pos_y + 1 else info.pos_y in
    record info { pos_x = pos_x; pos_y = if leb (rows info) pos_y then 0 else pos_y }

-- A character drawn at the cursor, which goes on.
pub draw : ℕ → PrintkInfo → PrintkInfo × List Glyph
draw c info = (wrap (record info { pos_x = info.pos_x + 1 }), glyph info c ∷ [])

-- The rounds at `Label_tab`.
pub draw_tab : ℕ → PrintkInfo → PrintkInfo × List Glyph
draw_tab zero info = (info, [])
draw_tab (suc line) info =
    let (info', glyphs) = draw 32 info in
    let (info'', glyphs') = draw_tab line info' in (info'', glyphs ++ glyphs')

-- The position before; at the beginning of a line it is a number of pixels.
pub back : PrintkInfo → PrintkInfo
back info =
    if info.pos_x == 0
    then (record info {
      pos_x = (columns info - 1) * info.csize_x;
      pos_y = if info.pos_y == 0 then (rows info - 1) * info.csize_y else info.pos_y - 1;
    })
    else record info { pos_x = info.pos_x - 1 }

-- One character of the buffer.
pub put : ℕ → PrintkInfo → PrintkInfo × List Glyph
put c info =
    if c == 10
    then (wrap (record info { pos_y = info.pos_y + 1; pos_x = 0 }), [])
    else if c == 8
    then (wrap (back info), glyph (back info) 32 ∷ [])
    else if c == 9
    then draw_tab ((info.pos_x + 8) / 8 * 8 - info.pos_x) info
    else draw c info

pub put_all : List ℕ → PrintkInfo → PrintkInfo × List Glyph
put_all [] info = (info, [])
put_all (c ∷ cs) info =
    let (info', glyphs) = put c info in
    let (info'', glyphs') = put_all cs info' in (info'', glyphs ++ glyphs')

-- The length of `printk_buf`.
abbrev pub printk_buf_size : ℕ
printk_buf_size = 4096

-- `color_printk`: nothing in graphic mode, else the text that `vsprintf` gives; a text that does not
-- fit into the buffer with its 0 is a fault. The number of bytes, which it returns, is left out.
pub color_printk : (ℕ → List ℕ) → Input → PrintkInfo → Result (PrintkInfo × List Glyph × List Store)
color_printk strings input info =
    if info.mode == 0
    then (elim (vsprintf strings input) [
      | done (text, stores) ↦
          let (info', glyphs) = put_all text info in
          if leb printk_buf_size (length text) then fault else done (info', glyphs, stores)
      | fault ↦ fault
      | starved ↦ starved
    ])
    else done (info, [], [])
