-- ===== src/Sched/Fair.antt =====
-- `schedule` of os/kernel/schedule.c: afterwards a task runs that has run least, none is lost.
use mathlib.Core.Path.{subst}
use mathlib.Core.List.{Perm}
use mathlib.Core.List.Perm
use kalinote_os.Base.{
  ℕ, ◌+◌, ◌^◌, ◌<◌, ◌≤◌, ◌≡◌, List, ◌∷◌, Bool, true, false, some, refl, sym, ◌∙◌, arith, length,
  ◌∉◌, All, leb, ◌==◌, ◌||◌, not, if◌then◌else◌, Bool-cases, inl, inr,
}
use kalinote_os.Ordered.{insert, insert-All}
use kalinote_os.Sched.{
  Sched, task_queue, init_task, task_running, clear_need_schedule, get_next_task, run_next,
  keep_running, schedule,
}
use kalinote_os.Sched.Ready.{IsReady}
use kalinote_os.Sched.Next.{without, without-IsReady, get_next_task-cons, Ascending-All}
use kalinote_os.Sched.Choose.{
  Left, insert-perm, run_next-Left, run_next-Left_asleep, keep_running-Left,
}

clear-IsReady : (s : Sched) (ts : List ℕ) → IsReady s ts → IsReady (clear_need_schedule s) ts
unfolding clear_need_schedule
clear-IsReady s ts v = record {
  ring = v.ring;
  ascending = v.ascending;
  below = v.below;
  no_init = v.no_init;
  count = v.count;
  few = v.few;
  head_last = v.head_last;
}

-- The state behind `get_next_task`.
abbrev taken : Sched → ℕ → Sched
taken s x = without (clear_need_schedule s) x

schedule-branch :
    (fuel : ℕ) (s : Sched) (x : ℕ)
    → get_next_task (clear_need_schedule s) ≡ (x, taken s x)
    → schedule fuel s ≡ (
        if leb (s.vrun_time x) (s.vrun_time s.now_task) || not (s.state s.now_task == task_running)
        then run_next fuel (taken s x) x
        else keep_running fuel (taken s x) x)
unfolding schedule clear_need_schedule
schedule-branch fuel s x e = rw e

-- What a run of `schedule` does with the running task and the queue `x ∷ xs`.
pub record Fair (s : Sched) (x : ℕ) (xs : List ℕ) (s' : Sched) (ts : List ℕ) : Type 0 where
  pub ready : IsReady s' ts
  pub same_tasks : Perm (s'.now_task ∷ ts) (s.now_task ∷ x ∷ xs)
  pub least : All (λ t. s.vrun_time s'.now_task ≤ s.vrun_time t) ts
  pub times : s'.vrun_time ≡ s.vrun_time

Fair-of_Left :
    (s t s' : Sched) (x now : ℕ) (xs ts : List ℕ)
    → Left t now ts s'
    → t.vrun_time ≡ s.vrun_time
    → Perm (now ∷ ts) (s.now_task ∷ x ∷ xs)
    → All (λ z. s.vrun_time now ≤ s.vrun_time z) ts
    → Fair s x xs s' ts
Fair-of_Left s t s' x now xs ts l e p a = record {
  ready = l.ready;
  same_tasks = subst (λ z. Perm (z ∷ ts) (s.now_task ∷ x ∷ xs)) (sym l.runs) p;
  least = subst (λ z. All (λ y. s.vrun_time z ≤ s.vrun_time y) ts) (sym l.runs) a;
  times = l.times ∙ e;
}

module _ (fuel : ℕ) (s : Sched) (x : ℕ) (xs : List ℕ) (v : IsReady s (x ∷ xs)) where
  after : IsReady (taken s x) xs
  unfolding clear_need_schedule
  after = without-IsReady (clear_need_schedule s) x xs (clear-IsReady s (x ∷ xs) v)

  branch : schedule fuel s ≡ (
      if leb (s.vrun_time x) (s.vrun_time s.now_task) || not (s.state s.now_task == task_running)
      then run_next fuel (taken s x) x
      else keep_running fuel (taken s x) x)
  branch =
      schedule-branch fuel s x
        (get_next_task-cons (clear_need_schedule s) x xs (clear-IsReady s (x ∷ xs) v))

  -- With at least one task queued, and a running task that can go on, is not the idle task
  -- `init_task` and is not queued itself: `schedule` ends, and afterwards the running and the queued
  -- tasks are the same ones as before, the running one has run no longer than any that is queued,
  -- and the queue is in order.
  pub schedule-Fair :
      s.now_task ∉ (task_queue ∷ init_task ∷ x ∷ xs)
      → s.vrun_time s.now_task < 2 ^ 63
      → (s.state s.now_task == task_running) ≡ true
      → length xs + 2 < 2 ^ 32
      → length xs < fuel
      → (s' : Sched) × (ts : List ℕ) × (schedule fuel s ≡ some s') × Fair s x xs s' ts
  unfolding clear_need_schedule
  schedule-Fair out lt running few f =
      elim (Bool-cases (leb (s.vrun_time x) (s.vrun_time s.now_task))) [
        | inl switch ↦
            let (s', e, l) =
              run_next-Left fuel (taken s x) x xs after running (ground arith) lt (omega arith) f in
            (
              s',
              insert s.vrun_time s.now_task xs,
              rw (branch, switch) e,
              Fair-of_Left s (taken s x) s' x x xs (insert s.vrun_time s.now_task xs) l refl
                  (Perm.trans (Perm.cons x (insert-perm s.vrun_time s.now_task xs))
                    (Perm.swap s.now_task x xs))
                  (insert-All s.vrun_time (λ z. s.vrun_time x ≤ s.vrun_time z) s.now_task xs
                    (ground arith)
                    (Ascending-All s.vrun_time (s.vrun_time x) (s.vrun_time x) xs (omega arith)
                      v.ascending.1)),
            )
        | inr keep ↦
            let (s', e, l) =
              keep_running-Left fuel (taken s x) x xs after
                (ground (arith, v.ring.distinct.0, v.no_init, v.ring.distinct.1.0)) v.below.0
                (omega arith) f in
            (
              s',
              insert s.vrun_time x xs,
              rw (branch, keep, running) e,
              Fair-of_Left s (taken s x) s' x s.now_task xs (insert s.vrun_time x xs) l refl
                  (Perm.cons s.now_task (insert-perm s.vrun_time x xs))
                  (insert-All s.vrun_time (λ z. s.vrun_time s.now_task ≤ s.vrun_time z) x xs
                    (ground arith)
                    (Ascending-All s.vrun_time (s.vrun_time s.now_task) (s.vrun_time x) xs
                      (ground arith) v.ascending.1)),
            )
      ]

  -- When the running task sleeps, `schedule` ends, runs the task that has run least, and queues
  -- nothing: the sleeping task is left out of the queue.
  pub schedule-asleep :
      (s.state s.now_task == task_running) ≡ false
      → (s' : Sched) × (schedule fuel s ≡ some s') × Left s x xs s'
  unfolding clear_need_schedule
  schedule-asleep asleep =
      let (s', e, l) = run_next-Left_asleep fuel (taken s x) x xs after asleep in
      (
        s',
        test (leb (s.vrun_time x) (s.vrun_time s.now_task)) ∙ e,
        record { ready = l.ready; runs = l.runs; times = l.times },
      )
    where
      test : (b : Bool) → schedule fuel s ≡ run_next fuel (taken s x) x
      test b = rw (branch, asleep) (ground arith)
