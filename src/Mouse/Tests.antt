-- ===== src/Mouse/Tests.antt =====
-- A mouse near the left edge of the screen, and the theorem about its packets.
use kalinote_os.Base.{[], ◌∷◌, refl, arith, true, Gives, ◌==◌, if◌then◌else◌}
use kalinote_os.KeyBuffer.{Buffer}
use kalinote_os.KeyBuffer.Fifo.{IsFifo}
use kalinote_os.Mouse.{Mouse}
use kalinote_os.Mouse.Packets.{Moved, analyses, analysis_mousecode-packets}

-- Two packets, 20 to the left and 5 up, then 3 to the right and 2 down, and one more byte.
abbrev waiting : Buffer
waiting = record {
  head = 7;
  tail = 0;
  count = 7;
  buf = λ i.
      if i == 1 then 236 else if i == 2 then 5 else if i == 4 then 3 else if i == 5 then 254 else 8;
}

waiting-IsFifo : IsFifo waiting (8 ∷ 236 ∷ 5 ∷ 8 ∷ 3 ∷ 254 ∷ 8 ∷ [])
waiting-IsFifo = record {
  head_in = omega arith;
  tail_in = omega arith;
  count = refl;
  fits = omega arith;
  ends = refl;
  bytes = (refl, (refl, (refl, (refl, (refl, (refl, (refl, tt)))))));
}

abbrev near_edge : Mouse
near_edge = record {
  buffer = waiting;
  mouse_count = 1;
  byte0 = 0;
  byte1 = 0;
  byte2 = 0;
  x = 10;
  y = 100;
  mode = true;
  screen_x = 1024;
  screen_y = 768;
  moves = [];
}

analysis_mousecode-packets_example :
    Gives (Moved true near_edge ((8, 236, 5) ∷ (8, 3, 254) ∷ []) (8 ∷ [])) (analyses 6 near_edge)
analysis_mousecode-packets_example =
    analysis_mousecode-packets near_edge ((8, 236, 5) ∷ (8, 3, 254) ∷ []) (8 ∷ []) waiting-IsFifo
      refl (omega arith) (omega arith) (omega arith) (omega arith)
      (omega arith, omega arith, (omega arith, omega arith, tt))
