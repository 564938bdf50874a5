-- ===== src/Printk/Cursor/Bounds.antt =====
-- `color_printk` of os/kernel/printk.c draws inside the screen, if no text goes back over the
-- beginning of a line.
use native.Mathlib.Nat.{div-mul-le_self, mul-le-mul_right}
use kalinote_os.Base.{
  ℕ, zero, suc, ◌+◌, ◌-◌, ◌*◌, ◌/◌, ◌≤◌, ◌<◌, ◌≡◌, ◌≢◌, inl, inr, true, false, List, [], ◌∷◌, ◌++◌,
  arith, refl, ◌∙◌, leb, ◌==◌, Bool-cases, All, ◌∉◌, length,
}
use kalinote_os.Printk.Spec.{Result, done, fault, starved, Input}
use kalinote_os.Printk.Format.{Store, vsprintf}
use kalinote_os.Printk.Cursor.{
  PrintkInfo, Glyph, columns, rows, glyph, wrap, draw, draw_tab, put, put_all, color_printk,
}

-- The cursor is at a column and a row of the screen, and columns and rows are as large as what
-- `putchar` draws.
pub record IsOn (info : PrintkInfo) : Type 0 where
  pub column : info.pos_x < columns info
  pub row : info.pos_y < rows info
  pub wide : 8 ≤ info.csize_x
  pub high : 16 ≤ info.csize_y

-- The 8 pixels of the 16 lines that `putchar` draws are inside the screen.
abbrev pub IsInside : PrintkInfo → Glyph → Type 0
IsInside info g = (g.x + 8 ≤ info.screen_x) × (g.y + 16 ≤ info.screen_y)

-- The screen and the characters stay as large as they were.
pub record SameScreen (info info' : PrintkInfo) : Type 0 where
  pub screen_x : info'.screen_x ≡ info.screen_x
  pub screen_y : info'.screen_y ≡ info.screen_y
  pub csize_x : info'.csize_x ≡ info.csize_x
  pub csize_y : info'.csize_y ≡ info.csize_y

-- What is drawn from `info` on, with the state that follows.
abbrev pub Draws : PrintkInfo → PrintkInfo × List Glyph → Type 0
Draws info (info', glyphs) = SameScreen info info' × IsOn info' × All (IsInside info) glyphs

fits : (pos size screen : ℕ) → pos < screen / size → pos * size + size ≤ screen
fits pos size screen lt =
    let rows_of = div-mul-le_self screen size in
    let below : (pos + 1) * size ≤ screen / size * size =
      mul-le-mul_right size (omega (arith, lt)) in
    grind (arith, below, rows_of)

glyph-IsInside : (info : PrintkInfo) (c : ℕ) → IsOn info → IsInside info (glyph info c)
glyph-IsInside info c on = (
  omega (arith, fits info.pos_x info.csize_x info.screen_x on.column, on.wide),
  omega (arith, fits info.pos_y info.csize_y info.screen_y on.row, on.high),
)

wrap-IsOn :
    (info : PrintkInfo)
    → 0 < columns info
    → 0 < rows info
    → 8 ≤ info.csize_x
    → 16 ≤ info.csize_y
    → IsOn (wrap info)
unfolding wrap
wrap-IsOn info c r w h = elim (Bool-cases (leb (columns info) info.pos_x)) [
  | inl e ↦ rw e (record { column = c; row = ground (arith, r); wide = w; high = h })
  | inr e ↦
      rw e (record { column = ground (arith, e); row = ground (arith, r); wide = w; high = h })
]

wrap-SameScreen : (info : PrintkInfo) → SameScreen info (wrap info)
unfolding wrap
wrap-SameScreen info = record { screen_x = refl; screen_y = refl; csize_x = refl; csize_y = refl }

-- Two steps one after the other.
Draws-trans :
    (info : PrintkInfo) (first second : PrintkInfo × List Glyph)
    → Draws info first
    → Draws first.0 second
    → Draws info (second.0, first.1 ++ second.1)
Draws-trans info (mid, glyphs) (end, glyphs') (same, on, all) (same', on', all') = (
  record {
    screen_x = same'.screen_x ∙ same.screen_x;
    screen_y = same'.screen_y ∙ same.screen_y;
    csize_x = same'.csize_x ∙ same.csize_x;
    csize_y = same'.csize_y ∙ same.csize_y;
  },
  on',
  both glyphs all,
)
  where
    rest : (gs : List Glyph) → All (IsInside mid) gs → All (IsInside info) gs
    rest [] a = tt
    rest (g ∷ gs) (h, a) =
        ((omega (arith, h.0, same.screen_x), omega (arith, h.1, same.screen_y)), rest gs a)

    both : (gs : List Glyph) → All (IsInside info) gs → All (IsInside info) (gs ++ glyphs')
    both [] a = rest glyphs' all'
    both (g ∷ gs) (h, a) = (h, both gs a)

draw-Draws : (c : ℕ) (info : PrintkInfo) → IsOn info → Draws info (draw c info)
unfolding draw
draw-Draws c info on =
    let moved = record info { pos_x = info.pos_x + 1 } in
    let same = wrap-SameScreen moved in
    (
      record {
        screen_x = same.screen_x;
        screen_y = same.screen_y;
        csize_x = same.csize_x;
        csize_y = same.csize_y;
      },
      wrap-IsOn moved (omega (arith, on.column)) (omega (arith, on.row)) on.wide on.high,
      (glyph-IsInside info c on, tt),
    )

draw_tab-Draws : (line : ℕ) (info : PrintkInfo) → IsOn info → Draws info (draw_tab line info)
unfolding draw_tab
draw_tab-Draws zero info on =
    (record { screen_x = refl; screen_y = refl; csize_x = refl; csize_y = refl }, on, tt)
draw_tab-Draws (suc line) info on =
    let one = draw-Draws 32 info on in
    Draws-trans info (draw 32 info) (draw_tab line (draw 32 info).0) one
      (draw_tab-Draws line (draw 32 info).0 one.1)

put-Draws : (c : ℕ) (info : PrintkInfo) → c ≢ 8 → IsOn info → Draws info (put c info)
unfolding put
put-Draws c info n on = elim (Bool-cases (c == 10)) [
  | inl e ↦
      let moved = record info { pos_y = info.pos_y + 1; pos_x = 0 } in
      let same = wrap-SameScreen moved in
      rw e (
        record {
          screen_x = same.screen_x;
          screen_y = same.screen_y;
          csize_x = same.csize_x;
          csize_y = same.csize_y;
        },
        wrap-IsOn moved (omega (arith, on.column)) (omega (arith, on.row)) on.wide on.high,
        tt,
      )
  | inr e ↦
      let other : (c == 8) ≡ false = ground (arith, n) in
      elim (Bool-cases (c == 9)) [
        | inl t ↦ rw (e, other, t) (draw_tab-Draws ((info.pos_x + 8) / 8 * 8 - info.pos_x) info on)
        | inr t ↦ rw (e, other, t) (draw-Draws c info on)
      ]
]

put_all-Draws :
    (text : List ℕ) (info : PrintkInfo) → 8 ∉ text → IsOn info → Draws info (put_all text info)
unfolding put_all
put_all-Draws [] info out on =
    (record { screen_x = refl; screen_y = refl; csize_x = refl; csize_y = refl }, on, tt)
put_all-Draws (c ∷ text) info out on =
    let one = put-Draws c info (ground (arith, out)) on in
    Draws-trans info (put c info) (put_all text (put c info).0) one
      (put_all-Draws text (put c info).0 (ground (arith, out)) one.1)

-- What is printed with these writes of `%n`, from `info` on.
abbrev pub Prints : PrintkInfo → List Store → Result (PrintkInfo × List Glyph × List Store) → Type 0
Prints info stores (done (info', glyphs, stores')) = Draws info (info', glyphs) × (stores' ≡ stores)
Prints info stores fault = ⊥
Prints info stores starved = ⊥

-- In text mode, when `vsprintf` gives a text without a backspace that is shorter than the 4096 bytes
-- of `printk_buf`, the cursor is on the screen and a column and a row are at least 8 and 16 pixels:
-- `color_printk` ends, all the 8 by 16 pixels of every `putchar` are inside the screen, the cursor is
-- on the screen afterwards, the size of the screen stays, and the writes of `%n` are those of
-- `vsprintf`.
pub color_printk-Prints :
    (strings : ℕ → List ℕ) (input : Input) (info : PrintkInfo) (text : List ℕ) (stores : List Store)
    → info.mode ≡ 0
    → IsOn info
    → vsprintf strings input ≡ done (text, stores)
    → length text < 4096
    → 8 ∉ text
    → Prints info stores (color_printk strings input info)
unfolding color_printk
color_printk-Prints strings input info text stores mode on e short out =
    let text_mode : (info.mode == 0) ≡ true = ground (arith, mode) in
    let fitting : leb 4096 (length text) ≡ false = ground (arith, short) in
    rw (text_mode, e, fitting) (put_all-Draws text info out on, refl)
