-- ===== src/Keyboard/Tests.antt =====
-- A keyboard with bytes waiting, and the theorems about the decoder of scan codes at it.
use kalinote_os.Base.{ℕ, ◌≡◌, List, [], ◌∷◌, refl, arith, get_or, length}
use kalinote_os.Keyboard.{Keyboard, printscreen, otherkey}
use kalinote_os.Keyboard.Map.{keycode_map_normal}
use kalinote_os.Keyboard.Decode.{Decodes, character, set_modifier, analysis_keycode-pressed}
use kalinote_os.Keyboard.Sequences.{
  analysis_keycode-right, analysis_keycode-printscreen, analysis_keycode-latches_shift,
}

abbrev waiting : List ℕ → Keyboard
waiting q = record {
  p_kb = record { head = length q; tail = 0; count = length q; buf = λ i. get_or q i 0 };
  shift_l = 0;
  shift_r = 1;
  ctrl_l = 0;
  ctrl_r = 0;
  alt_l = 0;
  alt_r = 0;
}

-- The key 0x1e gives an A while a shift key is held.
capital : character (waiting []) 0x1e ≡ 65
unfolding keycode_map_normal
capital = refl

analysis_keycode-pressed_example :
    Decodes (waiting (0x1e ∷ [])) [] (character (waiting []) 0x1e, 1) (set_modifier 0x1e 1)
analysis_keycode-pressed_example =
    analysis_keycode-pressed (waiting (0x1e ∷ [])) 0x1e [] (omega arith) (omega arith)

abbrev pause_bytes : List ℕ
pause_bytes = 0xe1 ∷ 0x1d ∷ 0x45 ∷ 0xe1 ∷ 0x9d ∷ 0xc5 ∷ []

abbrev delete_bytes : List ℕ
delete_bytes = 0xe0 ∷ 0x2a ∷ 0xe0 ∷ 0x53 ∷ []

analysis_keycode-latches_shift_example :
    Decodes (waiting delete_bytes) [] (0, 1) (λ k. record k { shift_l = 1 })
analysis_keycode-latches_shift_example =
    analysis_keycode-latches_shift (waiting delete_bytes) 0x53 [] (omega arith) (omega arith)

abbrev ctrl_bytes : List ℕ
ctrl_bytes = 0xe0 ∷ 0x1d ∷ []

right_control_pressed : Decodes (waiting ctrl_bytes) [] (otherkey, 0) (λ k. record k { ctrl_r = 1 })
right_control_pressed = (analysis_keycode-right (waiting ctrl_bytes) []).0 (omega arith)

abbrev screen_bytes : List ℕ
screen_bytes = 0xe0 ∷ 0x2a ∷ 0xe0 ∷ 0x37 ∷ []

print_screen_pressed : Decodes (waiting screen_bytes) [] (printscreen, 1) (λ k. k)
print_screen_pressed = (analysis_keycode-printscreen (waiting screen_bytes) []).0 (omega arith)
