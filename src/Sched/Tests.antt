-- ===== src/Sched/Tests.antt =====
-- Two ready tasks and a running one, and the theorems about os/kernel/schedule.c at them.
use kalinote_os.Base.{
  ℕ, ◌-◌, ◌^◌, ◌≡◌, List, [], ◌∷◌, some, refl, arith, ◌==◌, if◌then◌else◌, update,
}
use kalinote_os.Links.{Links}
use kalinote_os.Sched.{Sched, quarter, insert_task_queue, schedule}
use kalinote_os.Sched.Ready.{IsReady}
use kalinote_os.Sched.Insert.{insert_task_queue-IsReady}
use kalinote_os.Sched.Fair.{Fair, schedule-Fair}

abbrev two_nodes : Links
two_nodes = record {
  prev = λ p. if p == 1 then 4 else if p == 4 then 3 else 1;
  next = λ p. if p == 1 then 3 else if p == 3 then 4 else 1;
}

-- Tasks 3 and 4 are ready, with run times 10 and 20; task 5 runs, with run time 15.
abbrev busy : Sched
busy = record {
  links = two_nodes;
  vrun_time = λ t. if t == 1 then 2 ^ 63 - 1 else if t == 3 then 10 else if t == 4 then 20 else 15;
  state = λ t. 1;
  flags = λ t. 3;
  priority = λ t. 2;
  running_task_count = 3;
  exec_task_jiffies = 0;
  now_task = 5;
}

-- The same with task 5 waiting.
abbrev waiting : Sched
waiting = record busy { state = update busy.state 5 4 }

busy-IsReady : IsReady busy (3 ∷ 4 ∷ [])
busy-IsReady = record {
  ring = record {
    links = (refl, refl, (refl, refl, (refl, refl)));
    distinct = (refl, (refl, (refl, tt)));
  };
  ascending = omega arith;
  below = omega arith;
  no_init = refl;
  count = refl;
  few = omega arith;
  head_last = refl;
}

waiting-IsReady : IsReady waiting (3 ∷ 4 ∷ [])
waiting-IsReady = record {
  ring = busy-IsReady.ring;
  ascending = omega arith;
  below = omega arith;
  no_init = refl;
  count = refl;
  few = omega arith;
  head_last = refl;
}

-- A division towards zero, and its fault.
quarters : (quarter 3 ≡ some 1) × (quarter (2 ^ 64 - 1) ≡ some (2 ^ 64 - 4))
unfolding quarter
quarters = (refl, refl)

insert_task_queue-IsReady_example :
    (s : Sched) × (insert_task_queue 9 busy 5 ≡ some s)
    × IsReady s (3 ∷ 5 ∷ 4 ∷ [])
    × (s ≡ record busy { links = s.links; running_task_count = s.running_task_count })
insert_task_queue-IsReady_example =
    insert_task_queue-IsReady 9 busy 5 (3 ∷ 4 ∷ []) busy-IsReady refl (omega arith) (omega arith)
      (omega arith)

schedule-Fair_example :
    (s : Sched) × (ts : List ℕ) × (schedule 9 busy ≡ some s) × Fair busy 3 (4 ∷ []) s ts
schedule-Fair_example =
    schedule-Fair 9 busy 3 (4 ∷ []) busy-IsReady refl (omega arith) refl (omega arith) (omega arith)
