-- ===== src/Keyboard/Sequences.antt =====
-- `analysis_keycode` of os/driver/keyboard.c on the codes of several bytes.
use kalinote_os.Base.{
  ℕ, ◌≡◌, ◌≢◌, false, List, [], ◌∷◌, ◌++◌, some, refl, ◌∙◌, arith, ◌==◌, ==_self,
}
use kalinote_os.KeyBuffer.{Buffer}
use kalinote_os.KeyBuffer.Fifo.{IsFifo}
use kalinote_os.Keyboard.{
  Keyboard, Step, ◌>>=◌, pausebreak, printscreen, otherkey, pausebreak_scode, pause_rest,
  screen_rest, extended, normal, finish, analysis_keycode,
}
use kalinote_os.Keyboard.Decode.{get_scancode-cons, Decodes}

-- A step that reads a byte goes on with it.
bind-some :
    {A B : Type 0} (m : Step A) (f : A → Step B) (k k' : Keyboard) (a : A)
    → m k ≡ some (a, k')
    → (m >>= f) k ≡ f a k'
bind-some m f k k' a e = rw (e, ◌>>=◌) refl

-- The bytes `cs` are all taken when they are the expected ones.
pause_rest-cons :
    (cs : List ℕ) (k : Keyboard) (q : List ℕ)
    → IsFifo k.p_kb (cs ++ q)
    → (b : Buffer) × (pause_rest cs k ≡ some (pausebreak, record k { p_kb = b })) × IsFifo b q
unfolding pause_rest
pause_rest-cons [] k q v = (k.p_kb, refl, v)
pause_rest-cons (c ∷ cs) k q v =
    let (b, e, w) = get_scancode-cons k c (cs ++ q) v in
    let (b', e', w') = pause_rest-cons cs (record k { p_kb = b }) q w in
    (b', rw (e, ◌>>=◌) (rw ==_self e'), w')

-- The six bytes of the pause key give `PAUSEBREAK`, and the flags stay.
pub analysis_keycode-pause :
    (k : Keyboard) (q : List ℕ)
    → IsFifo k.p_kb (0xe1 ∷ pausebreak_scode ++ q)
    → Decodes k q (pausebreak, 0) (λ k'. k')
unfolding analysis_keycode finish
analysis_keycode-pause k q v =
    let (b, e, w) = get_scancode-cons k 0xe1 (pausebreak_scode ++ q) v in
    let (b', e', w') = pause_rest-cons pausebreak_scode (record k { p_kb = b }) q w in
    (b', rw (e, ◌>>=◌) (rw (e', ◌>>=◌) refl), w')

-- Reading 0xE0 and the byte behind it.
analysis-extended :
    (k : Keyboard) (y : ℕ) (q : List ℕ)
    → IsFifo k.p_kb (0xe0 ∷ y ∷ q)
    → (b : Buffer) × (analysis_keycode k ≡ (extended y >>= finish y) (record k { p_kb = b }))
      × IsFifo b q
unfolding analysis_keycode
analysis-extended k y q v =
    let (b, e, w) = get_scancode-cons k 0xe0 (y ∷ q) v in
    let (b', e', w') = get_scancode-cons (record k { p_kb = b }) y q w in
    (b', rw (e, ◌>>=◌) (rw (e', ◌>>=◌) refl), w')

-- The right control and alt keys, pressed and released, set and clear their flags and no other.
pub analysis_keycode-right :
    (k : Keyboard) (q : List ℕ)
    → (IsFifo k.p_kb (0xe0 ∷ 0x1d ∷ q) → Decodes k q (otherkey, 0) (λ k'. record k' { ctrl_r = 1 }))
      × (IsFifo k.p_kb (0xe0 ∷ 0x9d ∷ q)
          → Decodes k q (otherkey, 0) (λ k'. record k' { ctrl_r = 0 }))
      × (IsFifo k.p_kb (0xe0 ∷ 0x38 ∷ q)
          → Decodes k q (otherkey, 0) (λ k'. record k' { alt_r = 1 }))
      × (IsFifo k.p_kb (0xe0 ∷ 0xb8 ∷ q)
          → Decodes k q (otherkey, 0) (λ k'. record k' { alt_r = 0 }))
unfolding extended finish
analysis_keycode-right k q = (
  λ v. let (b, e, w) = analysis-extended k 0x1d q v in (b, e, w),
  λ v. let (b, e, w) = analysis-extended k 0x9d q v in (b, e, w),
  λ v. let (b, e, w) = analysis-extended k 0x38 q v in (b, e, w),
  λ v. let (b, e, w) = analysis-extended k 0xb8 q v in (b, e, w),
)

-- Two bytes more of the print screen key.
screen_rest-cons :
    (k : Keyboard) (a b make : ℕ) (q : List ℕ)
    → IsFifo k.p_kb (a ∷ b ∷ q)
    → (c : Buffer) × (screen_rest a b make k ≡ some ((printscreen, make), record k { p_kb = c }))
      × IsFifo c q
unfolding screen_rest
screen_rest-cons k a b make q v =
    let (c, e, w) = get_scancode-cons k a (b ∷ q) v in
    let (c', e', w') = get_scancode-cons (record k { p_kb = c }) b q w in
    (c', rw (e, ◌>>=◌) (rw ==_self (rw (e', ◌>>=◌) (rw ==_self refl))), w')

-- The four bytes of the print screen key, pressed or released, give `PRINTSCREEN` with the make flag
-- and leave the flags.
pub analysis_keycode-printscreen :
    (k : Keyboard) (q : List ℕ)
    → (IsFifo k.p_kb (0xe0 ∷ 0x2a ∷ 0xe0 ∷ 0x37 ∷ q) → Decodes k q (printscreen, 1) (λ k'. k'))
      × (IsFifo k.p_kb (0xe0 ∷ 0xb7 ∷ 0xe0 ∷ 0xaa ∷ q) → Decodes k q (printscreen, 0) (λ k'. k'))
unfolding extended finish
analysis_keycode-printscreen k q = (
  λ v.
      let (b, e, w) = analysis-extended k 0x2a (0xe0 ∷ 0x37 ∷ q) v in
      let (c, e', w') = screen_rest-cons (record k { p_kb = b }) 0xe0 0x37 1 q w in
      (c, e ∙ rw (e', ◌>>=◌) refl, w'),
  λ v.
      let (b, e, w) = analysis-extended k 0xb7 (0xe0 ∷ 0xaa ∷ q) v in
      let (c, e', w') = screen_rest-cons (record k { p_kb = b }) 0xe0 0xaa 0 q w in
      (c, e ∙ rw (e', ◌>>=◌) refl, w'),
)

screen_rest-miss :
    (k : Keyboard) (y : ℕ) (q : List ℕ)
    → y ≢ 0x37
    → IsFifo k.p_kb (0xe0 ∷ y ∷ q)
    → (c : Buffer) × (screen_rest 0xe0 0x37 1 k ≡ some ((0, 0), record k { p_kb = c })) × IsFifo c q
unfolding screen_rest
screen_rest-miss k y q ne v =
    let (c, e, w) = get_scancode-cons k 0xe0 (y ∷ q) v in
    let (c', e', w') = get_scancode-cons (record k { p_kb = c }) y q w in
    let n : (y == 0x37) ≡ false = ground arith in
    (c', rw (e, ◌>>=◌) (rw (e', ◌>>=◌) (rw n refl)), w')

-- Other keys send the prefix 0xE0 0x2A too. Behind it every code but the print screen key's is
-- taken for a press of the left shift key: its flag is set, and the key's own code is lost.
pub analysis_keycode-latches_shift :
    (k : Keyboard) (y : ℕ) (q : List ℕ)
    → y ≢ 0x37
    → IsFifo k.p_kb (0xe0 ∷ 0x2a ∷ 0xe0 ∷ y ∷ q)
    → Decodes k q (0, 1) (λ k'. record k' { shift_l = 1 })
unfolding extended finish normal
analysis_keycode-latches_shift k y q ne v =
    let (b, e, w) = analysis-extended k 0x2a (0xe0 ∷ y ∷ q) v in
    let (c, e', w') = screen_rest-miss (record k { p_kb = b }) y q ne w in
    (c, e ∙ rw (e', ◌>>=◌) refl, w')
