-- ===== src/Timer/Tests.antt =====
-- A queue of two timers, and the theorems about os/kernel/timer.c at it.
use kalinote_os.Base.{ℕ, ◌+◌, ◌-◌, ◌^◌, ◌≡◌, List, [], ◌∷◌, refl, arith, Gives, ◌==◌, if◌then◌else◌}
use kalinote_os.Timer.{Timers, init_timer, add_timer, del_timer, do_timer}
use kalinote_os.Timer.Queue.{IsQueue}
use kalinote_os.Timer.Add.{IsNew, add_timer-IsQueue}
use kalinote_os.Timer.Remove.{del_timer-IsQueue}
use kalinote_os.Timer.Fire.{Fired, do_timer-Fired}

-- Timers 2, due at 10, and 3, due at 20; timer 4, due at 15, is not queued. It is 12 now.
abbrev two_timers : Timers
two_timers = record {
  jiffies = 12;
  head = 2;
  expire_jiffies =
      λ t. if t == 1 then 2 ^ 64 - 1 else if t == 2 then 10 else if t == 3 then 20 else 15;
  func = λ t. t;
  argument = λ t. 100 + t;
  next_timer = λ t. if t == 2 then 3 else if t == 3 then 1 else 0;
}

two_timers-IsQueue : IsQueue two_timers (2 ∷ 3 ∷ [])
two_timers-IsQueue = record {
  chain = (refl, (refl, refl));
  distinct = (refl, (refl, tt));
  no_last = refl;
  no_null = refl;
  ascending = omega arith;
  below = omega arith;
  last_never = refl;
}

-- A deadline is the present and the delay together.
init_timer_deadline : (init_timer two_timers 5 7 8 500).expire_jiffies 5 ≡ 512
unfolding init_timer
init_timer_deadline = refl

four-IsNew : IsNew two_timers (2 ∷ 3 ∷ []) 4
four-IsNew = record {
  allocated = omega arith;
  not_last = omega arith;
  not_queued = refl;
  small = omega arith;
}

add_timer-IsQueue_example : Gives (λ s. IsQueue s (2 ∷ 4 ∷ 3 ∷ [])) (add_timer 9 two_timers 4)
add_timer-IsQueue_example =
    add_timer-IsQueue two_timers 4 9 (2 ∷ 3 ∷ []) two_timers-IsQueue four-IsNew (omega arith)

del_timer-IsQueue_example : Gives (λ s. IsQueue s (2 ∷ [])) (del_timer 9 two_timers 3)
del_timer-IsQueue_example =
    del_timer-IsQueue two_timers 3 9 (2 ∷ 3 ∷ []) two_timers-IsQueue refl (omega arith)

-- Callbacks that note their argument.
abbrev note : ℕ → ℕ → Timers × List ℕ → Timers × List ℕ
note f d (s, w) = (s, d ∷ w)

abbrev noted : ℕ → ℕ → List ℕ → List ℕ
noted f d w = d ∷ w

do_timer-Fired_example :
    Gives (Fired note noted two_timers (2 ∷ 3 ∷ []) []) (do_timer note 9 9 (two_timers, []))
do_timer-Fired_example =
    do_timer-Fired note noted 9 9 two_timers [] (2 ∷ 3 ∷ []) (λ f d s w. refl) two_timers-IsQueue
      (omega arith) (omega arith)
