-- ===== src/Sched/Ready.antt =====
-- The invariant of the ready queue of os/kernel/schedule.c.
use kalinote_os.Base.{ℕ, ◌+◌, ◌-◌, ◌^◌, ◌<◌, ◌≡◌, List, [], refl, arith, ◌∉◌, All, length}
use kalinote_os.Ordered.{Ascending}
use kalinote_os.Links.Ring.{IsRing}
use kalinote_os.Links.Laws.{list_init-IsRing}
use kalinote_os.Sched.{Sched, task_queue, init_task, schedule_init}

-- The list of `task_queue` holds the tasks `ts` in the order of virtual run time. The count is of
-- these and of one task more, the head's own run time is the greatest `long`, and the idle task is
-- never queued.
pub record IsReady (s : Sched) (ts : List ℕ) : Type 0 where
  pub ring : IsRing s.links task_queue ts
  pub ascending : Ascending s.vrun_time 0 ts
  pub below : All (λ t. s.vrun_time t < 2 ^ 63) ts
  pub no_init : init_task ∉ ts
  pub count : s.running_task_count ≡ length ts + 1
  pub few : length ts < 2 ^ 32
  pub head_last : s.vrun_time task_queue ≡ 2 ^ 63 - 1

-- `schedule_init` establishes the invariant with nothing queued.
pub schedule_init-IsReady : (s : Sched) (current : ℕ) → IsReady (schedule_init s current) []
unfolding schedule_init
schedule_init-IsReady s current = record {
  ring = list_init-IsRing s.links task_queue;
  ascending = tt;
  below = tt;
  no_init = refl;
  count = refl;
  few = omega arith;
  head_last = refl;
}
