-- ===== src/KeyBuffer/Tests.antt =====
-- A buffer at the end of its array, and the theorems about the drivers' buffer at it.
use kalinote_os.Base.{◌≡◌, [], ◌∷◌, some, refl, arith, replicate}
use kalinote_os.KeyBuffer.{Buffer, handler, get_code}
use kalinote_os.KeyBuffer.Fifo.{IsFifo, Reads, handler-IsFifo, get_code-Reads, handler_overruns}

-- One byte, in the last place.
abbrev near_end : Buffer
near_end = record { head = 100; tail = 99; count = 1; buf = λ i. 7 }

near_end-IsFifo : IsFifo near_end (7 ∷ [])
near_end-IsFifo = record {
  head_in = omega arith;
  tail_in = omega arith;
  count = refl;
  fits = omega arith;
  ends = refl;
  bytes = (refl, tt);
}

handler-IsFifo_example : IsFifo (handler near_end 9) (7 ∷ 9 ∷ [])
handler-IsFifo_example = handler-IsFifo near_end 9 (7 ∷ []) near_end-IsFifo (omega arith)

get_code-Reads_example : Reads (7 ∷ []) (get_code near_end)
get_code-Reads_example = get_code-Reads near_end (7 ∷ []) near_end-IsFifo

abbrev full : Buffer
full = record { head = 5; tail = 5; count = 100; buf = λ i. 0 }

full-IsFifo : IsFifo full (replicate 100 0)
full-IsFifo = omega arith

handler_overruns_example :
    (b : Buffer) × (get_code (handler full 9) ≡ some (9, b)) × (b.count ≡ 100)
handler_overruns_example = handler_overruns full 9 (replicate 100 0) full-IsFifo refl
