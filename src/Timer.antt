-- ===== src/Timer.antt =====
-- os/kernel/timer.c and os/include/timer.h: the queue of software timers, kept in the order of
-- their deadlines in front of the sentinel `timer_list_last`, which never expires.
-- Timers are addresses, their fields are memory; `0` is NULL.
pub mod Queue
pub mod Add
pub mod Remove
pub mod Fire
mod Tests
use kalinote_os.Base.{
  ℕ, zero, suc, ◌+◌, ◌-◌, ◌^◌, ◌%◌, Option, none, some, ltb, leb, ◌==◌, if◌then◌else◌, update,
}

-- `struct timer_list`, field by field, with the globals `jiffies` and `timer_list_head`.
pub record Timers : Type 0 where
  pub jiffies : ℕ
  pub head : ℕ
  pub expire_jiffies : ℕ → ℕ
  pub func : ℕ → ℕ
  pub argument : ℕ → ℕ
  pub next_timer : ℕ → ℕ

-- The address of `timer_list_last`.
abbrev pub timer_list_last : ℕ
timer_list_last = 1

pub init_timer : Timers → ℕ → ℕ → ℕ → ℕ → Timers
init_timer s timer func argument expire_jiffies = record s {
  next_timer = update s.next_timer timer 0;
  func = update s.func timer func;
  argument = update s.argument timer argument;
  expire_jiffies = update s.expire_jiffies timer ((s.jiffies + expire_jiffies) % 2 ^ 64);
}

-- The `while` of `add_timer`: `pre` and `tmp` where it stops, `none` when the fuel is used up.
pub add_walk : Timers → ℕ → ℕ → ℕ → ℕ → Option (ℕ × ℕ)
add_walk s timer zero pre tmp = none
add_walk s timer (suc fuel) pre tmp =
    let rest = add_walk s timer fuel tmp (s.next_timer tmp) in
    if ltb (s.expire_jiffies tmp) (s.expire_jiffies timer) then rest else some (pre, tmp)

pub add_link : Timers → ℕ → ℕ × ℕ → Timers
add_link s timer (pre, tmp) =
    if pre == 0
    then record s { head = timer; next_timer = update s.next_timer timer tmp }
    else record s { next_timer = update (update s.next_timer pre timer) timer tmp }

pub add_timer : ℕ → Timers → ℕ → Option Timers
unfolding add_walk add_link
add_timer fuel s timer = elim (add_walk s timer fuel 0 s.head) [
  | none ↦ none
  | some place ↦ some (add_link s timer place)
]

-- The `while` of `del_timer`: the timer in front of the one that goes.
pub del_walk : Timers → ℕ → ℕ → ℕ → Option ℕ
del_walk s timer zero tmp = none
del_walk s timer (suc fuel) tmp =
    let rest = del_walk s timer fuel (s.next_timer tmp) in
    if s.next_timer tmp == timer then some tmp else rest

pub del_timer : ℕ → Timers → ℕ → Option Timers
unfolding del_walk
del_timer fuel s timer =
    let walk = del_walk s timer fuel s.head in
    if timer == timer_list_last
    then some s
    else if timer == s.head
    then some (record s { head = s.next_timer s.head })
    else elim walk [
      | none ↦ none
      | some tmp ↦ some (record s { next_timer = update s.next_timer tmp (s.next_timer timer) })
    ]

-- `do_timer`. `call` is the indirect call `func(data)`: it may change the timers and the rest of
-- the kernel, `W`. `rounds` bounds the loop, `fuel` each walk of the queue.
module _ {W : Type 0} (call : ℕ → ℕ → Timers × W → Timers × W) (fuel : ℕ) where
  pub do_timer : ℕ → Timers × W → Option (Timers × W)
  do_timer zero sw = none
  do_timer (suc rounds) (s, w) =
      let (s', w') = call (s.func s.head) (s.argument s.head) (s, w) in
      let rest : Option (Timers × W) = elim (del_timer fuel s' s'.head) [
        | none ↦ none
        | some s'' ↦ do_timer rounds (s'', w')
      ] in
      if leb (s.expire_jiffies s.head) s.jiffies then rest else some (s, w)
