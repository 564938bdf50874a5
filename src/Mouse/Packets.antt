-- ===== src/Mouse/Packets.antt =====
-- `analysis_mousecode` of os/driver/mouse.c on packets of three bytes.
use mathlib.Core.List.{append-nil, append_assoc}
use mathlib.Core.Path.{subst}
use kalinote_os.Base.{
  ℕ, zero, suc, ◌+◌, ◌-◌, ◌^◌, ◌≤◌, ◌<◌, ◌≡◌, true, false, List, [], ◌∷◌, ◌++◌, arith, refl, sym,
  ◌∙◌, ap, Option, none, some, ltb, ◌==◌, if◌then◌else◌, Gives, Gives-mono, min, Bool, inl, inr,
  Bool-cases,
}
use kalinote_os.KeyBuffer.{Buffer, get_code}
use kalinote_os.KeyBuffer.Fifo.{IsFifo, get_code-Reads, Reads}
use kalinote_os.Mouse.{Mouse, add_char, sub_char, move_cursor, take_byte, analysis_mousecode}

-- A coordinate between 0 and the size of the screen, moved as far as it goes.
abbrev pub forth : (coordinate c size : ℕ) → ℕ
forth coordinate c size = if ltb c 128 then min (coordinate + c) size else coordinate - (256 - c)

abbrev pub back : (coordinate c size : ℕ) → ℕ
back coordinate c size = if ltb c 128 then coordinate - c else min (coordinate + (256 - c)) size

add_char-forth :
    (coordinate c size : ℕ)
    → coordinate ≤ size
    → size < 2 ^ 31 - 256
    → c < 256
    → add_char coordinate c size ≡ forth coordinate c size
add_char-forth coordinate c size h k l = ground arith

sub_char-back :
    (coordinate c size : ℕ)
    → coordinate ≤ size
    → size < 2 ^ 31 - 256
    → c < 256
    → sub_char coordinate c size ≡ back coordinate c size
sub_char-back coordinate c size h k l = ground arith

-- The bytes of packets, and the way of a cursor by them.
abbrev pub bytes : List (ℕ × ℕ × ℕ) → List ℕ → List ℕ
bytes [] q = q
bytes ((b0, b1, b2) ∷ ps) q = b0 ∷ b1 ∷ b2 ∷ bytes ps q

abbrev pub way : (screen_x screen_y x y : ℕ) → List (ℕ × ℕ × ℕ) → List (ℕ × ℕ)
way screen_x screen_y x y [] = []
way screen_x screen_y x y ((b0, b1, b2) ∷ ps) =
    let x' = forth x b1 screen_x in
    let y' = back y b2 screen_y in (x', y') ∷ way screen_x screen_y x' y' ps

abbrev pub analyses : ℕ → Mouse → Option Mouse
analyses zero m = some m
analyses (suc n) m = elim (analysis_mousecode m) [ none ↦ none | some m' ↦ analyses n m' ]

-- One step for each byte.
abbrev pub steps : List (ℕ × ℕ × ℕ) → ℕ
steps [] = 0
steps (p ∷ ps) = suc (suc (suc (steps ps)))

-- In text mode the cursor stays.
abbrev pub path : (graphic : Bool) → (screen_x screen_y x y : ℕ) → List (ℕ × ℕ × ℕ) → List (ℕ × ℕ)
path true screen_x screen_y x y ps = way screen_x screen_y x y ps
path false screen_x screen_y x y ps = []

abbrev pub last_of : ℕ × ℕ → List (ℕ × ℕ) → ℕ × ℕ
last_of p [] = p
last_of p (q ∷ qs) = last_of q qs

-- A cursor that has gone its way, in front of the bytes that are left.
pub record Moved (graphic : Bool) (m : Mouse) (ps : List (ℕ × ℕ × ℕ)) (q : List ℕ) (m' : Mouse)
    : Type 0 where
  pub buffer : IsFifo m'.buffer q
  pub count : m'.mouse_count ≡ 1
  pub moves : m'.moves ≡ m.moves ++ path graphic m.screen_x m.screen_y m.x m.y ps
  pub at_x : m'.x ≡ (last_of (m.x, m.y) (path graphic m.screen_x m.screen_y m.x m.y ps)).0
  pub at_y : m'.y ≡ (last_of (m.x, m.y) (path graphic m.screen_x m.screen_y m.x m.y ps)).1
  pub inside : (m'.x ≤ m.screen_x) × (m'.y ≤ m.screen_y)

-- A byte that is taken.
one :
    (m : Mouse) (c : ℕ) (q : List ℕ)
    → IsFifo m.buffer (c ∷ q)
    → (b : Buffer) × IsFifo b q
      × (analysis_mousecode m ≡ some (take_byte c (record m { buffer = b })))
unfolding analysis_mousecode
one m c q v = go (get_code m.buffer) (get_code-Reads m.buffer (c ∷ q) v)
  where
    go :
        (o : Option (ℕ × Buffer))
        → Reads (c ∷ q) o
        → (b : Buffer) × IsFifo b q
          × ((elim o as (λ x. Option Mouse) [
            | none ↦ none
            | some (c', buffer) ↦ some (take_byte c' (record m { buffer = buffer }))
          ])
              ≡ some (take_byte c (record m { buffer = b })))
    go none r = absurd r
    go (some (c', b)) r = (b, r.1, ap (λ z. some (take_byte z (record m { buffer = b }))) r.0)

-- The state with the bytes of a packet, and after it.
abbrev with_packet : Mouse → Buffer → (b0 b1 b2 : ℕ) → Mouse
with_packet m b b0 b1 b2 = record m {
  buffer = b;
  byte0 = b0;
  byte1 = b1;
  byte2 = b2;
  mouse_count = 1;
}

abbrev after_packet : Mouse → Buffer → (b0 b1 b2 : ℕ) → Mouse
after_packet m b b0 b1 b2 =
    if m.mode then move_cursor (with_packet m b b0 b1 b2) else with_packet m b b0 b1 b2

three :
    (m : Mouse) (b0 b1 b2 n : ℕ) (q : List ℕ)
    → m.mouse_count ≡ 1
    → IsFifo m.buffer (b0 ∷ b1 ∷ b2 ∷ q)
    → (b : Buffer) × IsFifo b q
      × (analyses (suc (suc (suc n))) m ≡ analyses n (after_packet m b b0 b1 b2))
unfolding take_byte
three m b0 b1 b2 n q count v =
    let go_on : (k : ℕ) → Option Mouse → Option Mouse =
      λ k o. elim o [ none ↦ none | some m' ↦ analyses k m' ] in
    let (x0, f0, e0) = one m b0 (b1 ∷ b2 ∷ q) v in
    let m1 : Mouse = record m { buffer = x0; byte0 = b0; mouse_count = 2 } in
    let (x1, f1, e1) = one m1 b1 (b2 ∷ q) f0 in
    let m2 : Mouse = record m1 { buffer = x1; byte1 = b1; mouse_count = 3 } in
    let (x2, f2, e2) = one m2 b2 q f1 in
    (
      x2,
      f2,
      ap (go_on (suc (suc n))) (e0 ∙ ap some (first x0))
          ∙ ap (go_on (suc n)) e1
          ∙ ap (go_on n) (e2 ∙ ap some (last x2)),
    )
  where
    first :
        (x : Buffer)
        → take_byte b0 (record m { buffer = x })
          ≡ record m { buffer = x; byte0 = b0; mouse_count = 2 }
    first x =
        let no : (m.mouse_count == 0) ≡ false = ground (arith, count) in
        let yes : (m.mouse_count == 1) ≡ true = ground (arith, count) in
        rw (take_byte, no, yes) refl

    last :
        (y : Buffer)
        → take_byte b2 (record m { buffer = y; byte0 = b0; byte1 = b1; mouse_count = 3 })
          ≡ after_packet m y b0 b1 b2
    last y = refl

forth-le : (coordinate c size : ℕ) → coordinate ≤ size → forth coordinate c size ≤ size
forth-le coordinate c size h = ground arith

back-le : (coordinate c size : ℕ) → coordinate ≤ size → back coordinate c size ≤ size
back-le coordinate c size h = ground arith

-- What the code reads are bytes.
abbrev pub AllBytes : List (ℕ × ℕ × ℕ) → Type 0
AllBytes [] = Unit
AllBytes ((b0, b1, b2) ∷ ps) = (b1 < 256) × (b2 < 256) × AllBytes ps

graphic_packets :
    (m : Mouse) (ps : List (ℕ × ℕ × ℕ)) (q : List ℕ)
    → IsFifo m.buffer (bytes ps q)
    → m.mouse_count ≡ 1
    → m.mode ≡ true
    → m.x ≤ m.screen_x
    → m.y ≤ m.screen_y
    → m.screen_x < 2 ^ 31 - 256
    → m.screen_y < 2 ^ 31 - 256
    → AllBytes ps
    → Gives (Moved true m ps q) (analyses (steps ps) m)
unfolding move_cursor
graphic_packets m [] q v count mode hx hy sx sy small = record {
  buffer = v;
  count = count;
  moves = sym (append-nil m.moves);
  at_x = refl;
  at_y = refl;
  inside = (hx, hy);
}
graphic_packets m ((b0, b1, b2) ∷ ps) q v count mode hx hy sx sy small =
    let (b, f, e) = three m b0 b1 b2 (steps ps) (bytes ps q) count v in
    let packet = with_packet m b b0 b1 b2 in
    let next = move_cursor packet in
    let moved : analyses (steps ((b0, b1, b2) ∷ ps)) m ≡ analyses (steps ps) next =
      e ∙ ap (λ z. analyses (steps ps) (if z then move_cursor packet else packet)) mode in
    let ex : next.x ≡ forth m.x b1 m.screen_x = add_char-forth m.x b1 m.screen_x hx sx small.0 in
    let ey : next.y ≡ back m.y b2 m.screen_y = sub_char-back m.y b2 m.screen_y hy sy small.1 in
    let rest =
      graphic_packets next ps q f refl mode (omega (arith, ex, forth-le m.x b1 m.screen_x hx))
        (omega (arith, ey, back-le m.y b2 m.screen_y hy)) sx sy small.2 in
    Gives-mono (Moved true next ps q) (Moved true m ((b0, b1, b2) ∷ ps) q)
      (analyses (steps ((b0, b1, b2) ∷ ps)) m) (analyses (steps ps) next) moved
      (λ m' g. record {
        buffer = g.buffer;
        count = g.count;
        moves =
            g.moves
            ∙ append_assoc m.moves ((next.x, next.y) ∷ [])
                (way m.screen_x m.screen_y next.x next.y ps)
            ∙ λ i. m.moves ++ ((ex i, ey i) ∷ way m.screen_x m.screen_y (ex i) (ey i) ps);
        at_x = g.at_x ∙ λ i. (last_of (ex i, ey i) (way m.screen_x m.screen_y (ex i) (ey i) ps)).0;
        at_y = g.at_y ∙ λ i. (last_of (ex i, ey i) (way m.screen_x m.screen_y (ex i) (ey i) ps)).1;
        inside = g.inside;
      })
      rest

text_packets :
    (m : Mouse) (ps : List (ℕ × ℕ × ℕ)) (q : List ℕ)
    → IsFifo m.buffer (bytes ps q)
    → m.mouse_count ≡ 1
    → m.mode ≡ false
    → m.x ≤ m.screen_x
    → m.y ≤ m.screen_y
    → Gives (Moved false m ps q) (analyses (steps ps) m)
text_packets m [] q v count mode hx hy = record {
  buffer = v;
  count = count;
  moves = sym (append-nil m.moves);
  at_x = refl;
  at_y = refl;
  inside = (hx, hy);
}
text_packets m ((b0, b1, b2) ∷ ps) q v count mode hx hy =
    let (b, f, e) = three m b0 b1 b2 (steps ps) (bytes ps q) count v in
    let packet = with_packet m b b0 b1 b2 in
    let stays : analyses (steps ((b0, b1, b2) ∷ ps)) m ≡ analyses (steps ps) packet =
      e ∙ ap (λ z. analyses (steps ps) (if z then move_cursor packet else packet)) mode in
    Gives-mono (Moved false packet ps q) (Moved false m ((b0, b1, b2) ∷ ps) q)
      (analyses (steps ((b0, b1, b2) ∷ ps)) m) (analyses (steps ps) packet) stays
      (λ m' g. record {
        buffer = g.buffer;
        count = g.count;
        moves = g.moves;
        at_x = g.at_x;
        at_y = g.at_y;
        inside = g.inside;
      })
      (text_packets packet ps q f refl mode hx hy)

-- With a cursor on the screen, at the start of a packet, and a buffer that holds packets and then `q`:
-- `analysis_mousecode` takes one byte at a time without a wait until `q` is left, and the next byte
-- starts a packet again. In graphic mode each packet moves the cursor by its second byte to the right
-- and by its third one up, each taken as a signed number of 8 bits whatever the first byte says of
-- signs and overflow, as far as the screen goes, with one call of `layer_move`; in text mode the
-- cursor stays and nothing is called.
pub analysis_mousecode-packets :
    (m : Mouse) (ps : List (ℕ × ℕ × ℕ)) (q : List ℕ)
    → IsFifo m.buffer (bytes ps q)
    → m.mouse_count ≡ 1
    → m.x ≤ m.screen_x
    → m.y ≤ m.screen_y
    → m.screen_x < 2 ^ 31 - 256
    → m.screen_y < 2 ^ 31 - 256
    → AllBytes ps
    → Gives (Moved m.mode m ps q) (analyses (steps ps) m)
analysis_mousecode-packets m ps q v count hx hy sx sy small = elim (Bool-cases m.mode) [
  | inl e ↦
      subst (λ g. Gives (Moved g m ps q) (analyses (steps ps) m)) (sym e)
        (graphic_packets m ps q v count e hx hy sx sy small)
  | inr e ↦
      subst (λ g. Gives (Moved g m ps q) (analyses (steps ps) m)) (sym e)
        (text_packets m ps q v count e hx hy)
]
