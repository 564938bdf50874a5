-- ===== src/Softirq/Tests.antt =====
-- Two soft interrupts pending, and the theorem about the dispatch at them.
use kalinote_os.Base.{ℕ, ◌+◌, ◌*◌, ◌||◌, refl, arith, ◌==◌}
use kalinote_os.Softirq.{Softirq, do_softirq}
use kalinote_os.Softirq.Dispatch.{Served, do_softirq-Served}

-- The actions write their numbers down, digit by digit.
abbrev note_down : ℕ → ℕ → ℕ → ℕ
note_down a d w = w * 10 + a

abbrev calls : ℕ → ℕ → Softirq × ℕ → Softirq × ℕ
calls a d (s, w) = (s, note_down a d w)

abbrev pending : Softirq
pending = record { status = λ b. b == 0 || b == 5; action = λ i. i + 2; argument = λ i. 0 }

do_softirq-Served_example : Served note_down pending 0 64 0 (do_softirq calls (pending, 0))
do_softirq-Served_example =
    do_softirq-Served calls note_down (λ a d s w. refl) pending 0 (λ b l. ground arith)
