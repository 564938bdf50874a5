-- ===== src/Timer/Fire.antt =====
-- `do_timer` of os/kernel/timer.c runs the timers that are due, in the order of their deadlines.
use mathlib.Core.Path.{subst}
use kalinote_os.Base.{
  ℕ, zero, suc, ◌-◌, ◌^◌, ◌<◌, ◌≤◌, ◌≡◌, ◌≢◌, List, [], ◌∷◌, true, some, refl, sym, ◌∙◌, arith,
  length, leb, if◌then◌else◌, Gives, Gives-of_eq, Gives-mono, ap, Bool-cases, inl, inr,
}
use kalinote_os.Chain.{Chain}
use kalinote_os.Timer.{Timers, timer_list_last, do_timer}
use kalinote_os.Ordered.{Ascending}
use kalinote_os.Timer.Queue.{IsQueue}
use kalinote_os.Timer.Remove.{del_timer-head}

-- The timers that stay: those behind the last one that is due.
abbrev pub pending : (ℕ → ℕ) → ℕ → List ℕ → List ℕ
pending key now [] = []
pending key now (x ∷ xs) = if leb (key x) now then pending key now xs else x ∷ xs

tail_IsQueue :
    (s : Timers) (x : ℕ) (xs : List ℕ)
    → IsQueue s (x ∷ xs)
    → IsQueue (record s { head = s.next_timer s.head }) xs
tail_IsQueue s x xs v = record {
  chain =
      subst (λ z. Chain s.next_timer (s.next_timer z) xs timer_list_last) (sym v.chain.0) v.chain.1;
  distinct = v.distinct.1;
  no_last = ground (arith, v.no_last);
  no_null = ground (arith, v.no_null);
  ascending = from_zero (s.expire_jiffies x) xs v.ascending.1;
  below = v.below.1;
  last_never = v.last_never;
}
  where
    from_zero :
        (low : ℕ) (ys : List ℕ)
        → Ascending s.expire_jiffies low ys
        → Ascending s.expire_jiffies 0 ys
    from_zero low [] a = tt
    from_zero low (y ∷ ys) a = (omega arith, a.1)

module _ {W : Type 0} (call : ℕ → ℕ → Timers × W → Timers × W) (effect : ℕ → ℕ → W → W) where
  -- The callbacks leave the timers alone: each only has its effect on the rest of the kernel.
  abbrev pub LeavesTimers : Type 0
  LeavesTimers = (f d : ℕ) (s : Timers) (w : W) → call f d (s, w) ≡ (s, effect f d w)

  -- The calls for the timers that are due, in order.
  abbrev pub fired : (ℕ → ℕ) → (ℕ → ℕ) → (ℕ → ℕ) → ℕ → List ℕ → W → W
  fired key func argument now [] w = w
  fired key func argument now (x ∷ xs) w =
      let rest = fired key func argument now xs (effect (func x) (argument x) w) in
      if leb (key x) now then rest else w

  -- After a run the queue holds what is not due, and nothing in it is due.
  pub record Fired (s : Timers) (ts : List ℕ) (w : W) (out : Timers × W) : Type 0 where
    pub queue : IsQueue out.0 (pending s.expire_jiffies s.jiffies ts)
    pub calls : out.1 ≡ fired s.expire_jiffies s.func s.argument s.jiffies ts w
    pub head_later : s.jiffies < s.expire_jiffies out.0.head

  do_timer_stop :
      (fuel rounds : ℕ) (s : Timers) (w : W)
      → s.jiffies < s.expire_jiffies s.head
      → do_timer call fuel (suc rounds) (s, w) ≡ some (s, w)
  unfolding do_timer
  do_timer_stop fuel rounds s w h = ground arith

  do_timer_step :
      (fuel rounds : ℕ) (s : Timers) (w : W)
      → LeavesTimers
      → s.expire_jiffies s.head ≤ s.jiffies
      → s.head ≢ timer_list_last
      → do_timer call fuel (suc rounds) (s, w)
        ≡ do_timer call fuel rounds
            (record s { head = s.next_timer s.head }, effect (s.func s.head) (s.argument s.head) w)
  unfolding do_timer
  do_timer_step fuel rounds s w leaves due ne =
      let test : leb (s.expire_jiffies s.head) s.jiffies ≡ true = ground arith in
      rw (
        test,
        leaves (s.func s.head) (s.argument s.head) s w,
        del_timer-head fuel s ne,
        leaves (s.func s.head) (s.argument s.head) s w,
      )

  -- With the callbacks leaving the queue alone, `do_timer` ends, calls the timers that are due in
  -- the order of their deadlines, and leaves the queue with exactly the others.
  pub do_timer-Fired :
      (fuel rounds : ℕ) (s : Timers) (w : W) (ts : List ℕ)
      → LeavesTimers
      → IsQueue s ts
      → s.jiffies < 2 ^ 64 - 1
      → length ts < rounds
      → Gives (Fired s ts w) (do_timer call fuel rounds (s, w))
  do_timer-Fired fuel zero s w ts leaves v now f = absurd (omega arith)
  do_timer-Fired fuel (suc rounds) s w [] leaves v now f =
      Gives-of_eq (Fired s [] w) (do_timer call fuel (suc rounds) (s, w)) (s, w)
        (do_timer_stop fuel rounds s w later)
        (record { queue = v; calls = refl; head_later = later })
    where
      later : s.jiffies < s.expire_jiffies s.head
      later =
          subst (λ z. s.jiffies < s.expire_jiffies z) (sym v.chain) (omega (arith, v.last_never))
  do_timer-Fired fuel (suc rounds) s w (x ∷ xs) leaves v now f =
      elim (Bool-cases (leb (s.expire_jiffies x) s.jiffies)) [
        | inl due ↦ onward due (
            do_timer-Fired fuel rounds (record s { head = s.next_timer s.head })
              (effect (s.func x) (s.argument x) w) xs leaves (tail_IsQueue s x xs v) now
              (omega arith))
        | inr later ↦
            Gives-of_eq (Fired s (x ∷ xs) w) (do_timer call fuel (suc rounds) (s, w)) (s, w)
              (do_timer_stop fuel rounds s w (ground (arith, v.chain.0)))
              (record {
                queue = rw later v;
                calls = rw later refl;
                head_later = ground (arith, v.chain.0);
              })
      ]
    where
      onward :
          leb (s.expire_jiffies x) s.jiffies ≡ true
          → Gives
              (Fired
                (record s { head = s.next_timer s.head })
                xs
                (effect (s.func x) (s.argument x) w))
              (do_timer call fuel rounds
                (record s { head = s.next_timer s.head }, effect (s.func x) (s.argument x) w))
          → Gives (Fired s (x ∷ xs) w) (do_timer call fuel (suc rounds) (s, w))
      onward due g =
          let after : Timers = record s { head = s.next_timer s.head } in
          Gives-mono (Fired after xs (effect (s.func x) (s.argument x) w)) (Fired s (x ∷ xs) w)
            (do_timer call fuel (suc rounds) (s, w))
            (do_timer call fuel rounds (after, effect (s.func x) (s.argument x) w))
            (do_timer_step fuel rounds s w leaves (ground (arith, v.chain.0))
                (ground (arith, v.chain.0, v.no_last))
              ∙ ap (λ z. do_timer call fuel rounds (after, effect (s.func z) (s.argument z) w))
                  v.chain.0)
            (λ out d. record {
              queue = rw due d.queue;
              calls = rw due d.calls;
              head_later = d.head_later;
            })
            g
