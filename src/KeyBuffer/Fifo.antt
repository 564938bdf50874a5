-- ===== src/KeyBuffer/Fifo.antt =====
-- While it holds at most 100 bytes the buffer of the keyboard and mouse drivers is a queue.
use kalinote_os.Base.{
  ℕ, ◌+◌, ◌-◌, ◌%◌, ◌^◌, ◌<◌, ◌≤◌, ◌≡◌, ◌≢◌, List, [], ◌∷◌, ◌++◌, Option, none, some, sym, ap, ◌∙◌,
  arith, false, length-append, update_self, length, ◌==◌, if◌then◌else◌, update,
}
use kalinote_os.KeyBuffer.{Buffer, init, handler, get_code}

-- From index `i` on, going round at 100, the array holds `q`.
abbrev pub Holds : (ℕ → ℕ) → ℕ → List ℕ → Type 0
Holds buf i [] = Unit
Holds buf i (x ∷ q) = (buf (i % 100) ≡ x) × Holds buf (i + 1) q

-- The buffer holds the bytes `q`, oldest first.
pub record IsFifo (b : Buffer) (q : List ℕ) : Type 0 where
  pub head_in : b.head ≤ 100
  pub tail_in : b.tail ≤ 100
  pub count : b.count ≡ length q
  pub fits : length q ≤ 100
  pub ends : b.head % 100 ≡ (b.tail + length q) % 100
  pub bytes : Holds b.buf b.tail q

-- A write behind the bytes keeps them.
Holds-update :
    (buf : ℕ → ℕ) (i x p : ℕ) (q : List ℕ)
    → p % 100 ≡ (i + length q) % 100
    → length q < 100
    → Holds buf i q
    → Holds (update buf (p % 100) x) i (q ++ (x ∷ []))
Holds-update buf i x p [] e f h = (ground (arith, e), tt)
Holds-update buf i x p (y ∷ q) e f h =
    let ne : p % 100 ≢ i % 100 = omega arith in
    (ground (arith, ne, h.0), Holds-update buf (i + 1) x p q (omega arith) (omega arith) h.1)

-- Only the place in the ring counts.
Holds-mod : (buf : ℕ → ℕ) (i j : ℕ) (q : List ℕ) → i % 100 ≡ j % 100 → Holds buf i q → Holds buf j q
Holds-mod buf i j [] e h = tt
Holds-mod buf i j (x ∷ q) e h =
    (ap buf (sym e) ∙ h.0, Holds-mod buf (i + 1) (j + 1) q (omega arith) h.1)

wrapped : (i : ℕ) → i ≤ 100 → (if i == 100 then 0 else i) ≡ i % 100
wrapped i h = ground arith

-- A fresh buffer holds nothing.
pub init-IsFifo : IsFifo init []
unfolding init
init-IsFifo = omega arith

-- While fewer than 100 bytes wait, the interrupt handler puts its byte behind them.
pub handler-IsFifo :
    (b : Buffer) (x : ℕ) (q : List ℕ)
    → IsFifo b q
    → length q < 100
    → IsFifo (handler b x) (q ++ (x ∷ []))
unfolding handler
handler-IsFifo b x q v f = record {
  head_in = rw (wrapped b.head v.head_in) (omega arith);
  tail_in = v.tail_in;
  count = omega (arith, v.count, length-append q (x ∷ []));
  fits = omega (arith, length-append q (x ∷ []));
  ends = rw (wrapped b.head v.head_in) (omega (arith, v.ends, length-append q (x ∷ [])));
  bytes = rw (wrapped b.head v.head_in) (Holds-update b.buf b.tail x b.head q v.ends f v.bytes);
}

-- What a reader gets of a buffer that holds `q`: it waits, or takes the oldest byte.
abbrev pub Reads : List ℕ → Option (ℕ × Buffer) → Type 0
Reads [] r = r ≡ none
Reads (x ∷ q) none = ⊥
Reads (x ∷ q) (some (y, b)) = (y ≡ x) × IsFifo b q

-- A reader waits for an empty buffer, and else takes the oldest byte out.
pub get_code-Reads : (b : Buffer) (q : List ℕ) → IsFifo b q → Reads q (get_code b)
unfolding get_code
get_code-Reads b [] v = rw v.count
get_code-Reads b (x ∷ q) v =
    let some_bytes : (b.count == 0) ≡ false = ground (arith, v.count) in
    rw (some_bytes, wrapped b.tail v.tail_in)
      (
        v.bytes.0,
        record {
          head_in = v.head_in;
          tail_in = omega arith;
          count = omega (arith, v.count, v.fits);
          fits = omega (arith, v.fits);
          ends = omega (arith, v.ends);
          bytes = Holds-mod b.buf (b.tail + 1) (b.tail % 100 + 1) q (omega arith) v.bytes.1;
        },
      )

-- The handlers do not look at the count: with 100 bytes waiting, the next byte is written over the
-- oldest one, and the reader gets the newest byte first.
pub handler_overruns :
    (b : Buffer) (x : ℕ) (q : List ℕ)
    → IsFifo b q
    → length q ≡ 100
    → (b' : Buffer) × (get_code (handler b x) ≡ some (x, b')) × (b'.count ≡ 100)
unfolding get_code handler
handler_overruns b x q v full =
    let b' = record b {
      buf = update b.buf (b.head % 100) x;
      head = b.head % 100 + 1;
      tail = b.tail % 100 + 1;
      count = ((b.count + 1) % 2 ^ 32 + 2 ^ 32 - 1) % 2 ^ 32;
    } in
    (
      b',
      rw
          (
            wrapped b.head v.head_in,
            wrapped b.tail v.tail_in,
            same,
            update_self b.buf (b.head % 100) x,
          )
          (let n : ((b.count + 1) % 2 ^ 32 == 0) ≡ false = ground (arith, v.count) in rw n),
      omega (arith, v.count),
    )
  where
    same : b.tail % 100 ≡ b.head % 100
    same = omega (arith, v.ends)
