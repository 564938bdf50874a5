-- ===== src/Sched/Next.antt =====
-- `get_next_task` of os/kernel/schedule.c takes the task that has run least.
use mathlib.Core.Path.{subst}
use kalinote_os.Base.{ℕ, ◌≤◌, ◌≡◌, List, [], ◌∷◌, false, refl, sym, ◌∙◌, arith, All}
use kalinote_os.Ordered.{Ascending}
use kalinote_os.Links.{list_del, list_is_empty, list_next}
use kalinote_os.Links.Ring.{list_next_lem}
use kalinote_os.Links.Laws.{list_is_empty-IsRing, list_del-IsRing}
use kalinote_os.Sched.{Sched, task_queue, init_task, sub_long, get_next_task}
use kalinote_os.Sched.Ready.{IsReady}

-- All that follow in the order have at least the first's key.
pub Ascending-All :
    (key : ℕ → ℕ) (low high : ℕ) (xs : List ℕ)
    → low ≤ high
    → Ascending key high xs
    → All (λ t. low ≤ key t) xs
Ascending-All key low high [] h a = tt
Ascending-All key low high (x ∷ xs) h a =
    (omega (arith, a.0), Ascending-All key low (key x) xs (omega (arith, a.0)) a.1)

pub Ascending-tail :
    (key : ℕ → ℕ) (low : ℕ) (xs : List ℕ) → Ascending key low xs → Ascending key 0 xs
Ascending-tail key low [] a = tt
Ascending-tail key low (x ∷ xs) a = (omega arith, a.1)

-- The state without the first task of the queue.
abbrev pub without : Sched → ℕ → Sched
without s x = record s {
  links = list_del s.links x;
  running_task_count = sub_long s.running_task_count 1;
}

get_next_task-pair :
    (s : Sched) (x : ℕ)
    → list_is_empty s.links task_queue ≡ false
    → list_next s.links task_queue ≡ x
    → get_next_task s ≡ (x, without s x)
unfolding get_next_task
get_next_task-pair s x e n = rw (e, n)

pub without-IsReady :
    (s : Sched) (x : ℕ) (xs : List ℕ) → IsReady s (x ∷ xs) → IsReady (without s x) xs
without-IsReady s x xs v = record {
  ring = list_del-IsRing s.links task_queue x [] xs v.ring;
  ascending = Ascending-tail s.vrun_time (s.vrun_time x) xs v.ascending.1;
  below = v.below.1;
  no_init = ground (arith, v.no_init);
  count = omega (arith, v.count, v.few);
  few = omega (arith, v.few);
  head_last = v.head_last;
}

pub get_next_task-cons :
    (s : Sched) (x : ℕ) (xs : List ℕ) → IsReady s (x ∷ xs) → get_next_task s ≡ (x, without s x)
get_next_task-cons s x xs v =
    get_next_task-pair s x (list_is_empty-IsRing s.links task_queue (x ∷ xs) v.ring)
      (list_next_lem s.links task_queue ∙ v.ring.links.0)

-- What `get_next_task` does with the queue `ts`.
abbrev pub TakesFirst : Sched → List ℕ → ℕ × Sched → Type 0
TakesFirst s [] (tsk, s') = (tsk ≡ init_task) × (s' ≡ s)
TakesFirst s (x ∷ xs) (tsk, s') =
    (tsk ≡ x) × IsReady s' xs × All (λ t. s.vrun_time x ≤ s.vrun_time t) xs

-- `get_next_task` gives the idle task and changes nothing when no task is ready. Otherwise it takes
-- the first task out of the queue, keeps the rest as it was, and no queued task has run less.
pub get_next_task-TakesFirst :
    (s : Sched) (ts : List ℕ) → IsReady s ts → TakesFirst s ts (get_next_task s)
unfolding get_next_task
get_next_task-TakesFirst s [] v =
    rw (list_is_empty-IsRing s.links task_queue [] v.ring) (refl, refl)
get_next_task-TakesFirst s (x ∷ xs) v =
    rw (list_is_empty-IsRing s.links task_queue (x ∷ xs) v.ring) (
      list_next_lem s.links task_queue ∙ v.ring.links.0,
      subst (λ z. IsReady (without s z) xs)
          (sym (list_next_lem s.links task_queue ∙ v.ring.links.0)) (without-IsReady s x xs v),
      Ascending-All s.vrun_time (s.vrun_time x) (s.vrun_time x) xs (omega arith) v.ascending.1,
    )
