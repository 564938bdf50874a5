-- ===== src/Semaphore/Tests.antt =====
-- A semaphore with two ready tasks and a running one, and the theorems about it.
use kalinote_os.Base.{◌-◌, ◌^◌, [], ◌∷◌, refl, arith, ◌==◌, if◌then◌else◌}
use kalinote_os.Links.Ring.{IsRing}
use kalinote_os.Sched.{Sched}
use kalinote_os.Sched.Ready.{IsReady}
use kalinote_os.Semaphore.{Semaphore, wait_list, is_positive, semaphore_up, semaphore_down}
use kalinote_os.Semaphore.Wait.{Ups, Downs, semaphore_up-Ups, semaphore_down-Downs}

-- Tasks 3 and 4 are ready, with run times 10 and 20; task 5 runs, with run time 15.
abbrev tasks : Sched
tasks = record {
  links = record {
    prev = λ p. if p == 1 then 4 else if p == 4 then 3 else 1;
    next = λ p. if p == 1 then 3 else if p == 3 then 4 else 1;
  };
  vrun_time = λ t. if t == 1 then 2 ^ 63 - 1 else if t == 3 then 10 else if t == 4 then 20 else 15;
  state = λ t. 1;
  flags = λ t. 0;
  priority = λ t. 2;
  running_task_count = 3;
  exec_task_jiffies = 4;
  now_task = 5;
}

tasks-IsReady : IsReady tasks (3 ∷ 4 ∷ [])
tasks-IsReady = record {
  ring = record {
    links = (refl, refl, (refl, refl, (refl, refl)));
    distinct = (refl, (refl, (refl, tt)));
  };
  ascending = omega arith;
  below = omega arith;
  no_init = refl;
  count = refl;
  few = omega arith;
  head_last = refl;
}

-- Nothing is left of the counter, and task 6 waits, with its `wait` at 8.
abbrev taken : Semaphore
taken = record {
  counter = 0;
  links = record { prev = λ p. if p == 1 then 8 else 1; next = λ p. if p == 1 then 8 else 1 };
  tsk = λ w. 6;
  sched = tasks;
}

taken-IsRing : IsRing taken.links wait_list (8 ∷ [])
taken-IsRing = record { links = (refl, refl, (refl, refl)); distinct = (refl, (refl, tt)) }

semaphore_up-Ups_example : Ups taken (3 ∷ 4 ∷ []) (8 ∷ []) (semaphore_up 9 taken)
semaphore_up-Ups_example =
    semaphore_up-Ups 9 taken (3 ∷ 4 ∷ []) (8 ∷ []) taken-IsRing tasks-IsReady (refl, omega arith)
      (omega arith) (omega arith)

semaphore_down-Downs_example :
    Downs taken 3 (4 ∷ []) (8 ∷ []) 9 (is_positive taken.counter) (semaphore_down 9 9 taken)
semaphore_down-Downs_example =
    semaphore_down-Downs 9 9 taken 3 (4 ∷ []) (8 ∷ []) taken-IsRing refl tasks-IsReady
