-- ===== src/Printk/Cursor/Tests.antt =====
-- Text printed on a screen, and the theorem about `color_printk` at it.
use kalinote_os.Base.{ℕ, ◌≡◌, List, [], ◌∷◌, refl, arith}
use kalinote_os.Printk.Format.Escape.{escape, vsprintf-escape}
use kalinote_os.Printk.Cursor.{PrintkInfo, color_printk, put_all, put, back, wrap}
use kalinote_os.Printk.Cursor.Bounds.{IsOn, Prints, color_printk-Prints}

abbrev no_strings : ℕ → List ℕ
no_strings a = []

-- A screen of 80 columns and 25 rows, with the cursor at its end.
abbrev screen : PrintkInfo
screen = record {
  mode = 0;
  screen_x = 640;
  screen_y = 400;
  pos_x = 79;
  pos_y = 24;
  csize_x = 8;
  csize_y = 16;
}

screen-IsOn : IsOn screen
screen-IsOn = record {
  column = omega arith;
  row = omega arith;
  wide = omega arith;
  high = omega arith;
}

color_printk-Prints_example :
    Prints screen [] (color_printk no_strings (escape (53 ∷ 9 ∷ 37 ∷ []), []) screen)
color_printk-Prints_example =
    color_printk-Prints no_strings (escape (53 ∷ 9 ∷ 37 ∷ []), []) screen (53 ∷ 9 ∷ 37 ∷ []) [] refl
      screen-IsOn (vsprintf-escape no_strings (53 ∷ 9 ∷ 37 ∷ []) []) (omega arith) refl

-- A backspace at the beginning of a line is drawn at the pixel 632 * 8 of a line of 640.
backspace_outside :
    (put_all (8 ∷ []) (record screen { pos_x = 0; pos_y = 3 })).1
    ≡ (record { x = 5056; y = 32; font = 32 } ∷ [])
unfolding put_all put back wrap
backspace_outside = refl
