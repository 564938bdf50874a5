-- ===== src/Sched/Choose.antt =====
-- `schedule` of os/kernel/schedule.c runs a task that has run least and loses none.
use mathlib.Core.List.{Perm}
use mathlib.Core.List.Perm
use kalinote_os.Base.{
  ℕ, suc, ◌-◌, ◌*◌, ◌/◌, ◌%◌, ◌^◌, ◌<◌, ◌≡◌, ◌≢◌, List, [], ◌∷◌, true, false, some, refl, ap, arith,
  length, ◌∉◌, leb, ltb, ◌==◌, if◌then◌else◌, Bool-cases, inl, inr,
}
use kalinote_os.Ordered.{insert}
use kalinote_os.Sched.{
  Sched, task_queue, init_task, task_running, sub_long, quarter, refill, switch_to,
  insert_task_queue, run_next, keep_running,
}
use kalinote_os.Sched.Ready.{IsReady}
use kalinote_os.Sched.Insert.{insert_task_queue-IsReady}

quarter-some : (n : ℕ) → n ≢ 0 → (q : ℕ) × (quarter n ≡ some q)
unfolding quarter
quarter-some n ne = (if ltb n (2 ^ 63) then 4 / n else sub_long 0 (4 / (2 ^ 64 - n)), ground arith)

-- With a task counted there is a time slice, and nothing else changes.
refill-some :
    (s : Sched) (tsk : ℕ)
    → s.running_task_count ≢ 0
    → (q : ℕ) × (refill s tsk ≡ some (record s { exec_task_jiffies = q }))
unfolding refill
refill-some s tsk ne = elim (Bool-cases (s.exec_task_jiffies == 0)) [
  | inl spent ↦
      let (q, e) = quarter-some s.running_task_count ne in
      (if leb (s.priority tsk) 1 then q else q * 3 % 2 ^ 64, rw (spent, e) refl)
  | inr left ↦ (s.exec_task_jiffies, rw left refl)
]

pub insert-perm : (key : ℕ → ℕ) (t : ℕ) (xs : List ℕ) → Perm (insert key t xs) (t ∷ xs)
insert-perm key t [] = Perm.refl (t ∷ [])
insert-perm key t (x ∷ xs) = elim (Bool-cases (ltb (key x) (key t))) [
  | inl earlier ↦ rw earlier (Perm.trans (Perm.cons x (insert-perm key t xs)) (Perm.swap t x xs))
  | inr stop ↦ rw stop (Perm.refl (t ∷ x ∷ xs))
]

IsReady-exec :
    (s : Sched) (q : ℕ) (now : ℕ) (ts : List ℕ)
    → IsReady s ts
    → IsReady (record s { exec_task_jiffies = q; now_task = now }) ts
IsReady-exec s q now ts v = record {
  ring = v.ring;
  ascending = v.ascending;
  below = v.below;
  no_init = v.no_init;
  count = v.count;
  few = v.few;
  head_last = v.head_last;
}

-- How a run of `schedule` leaves the tasks: `now` runs and `ts` are queued.
pub record Left (s : Sched) (now : ℕ) (ts : List ℕ) (s' : Sched) : Type 0 where
  pub ready : IsReady s' ts
  pub runs : s'.now_task ≡ now
  pub times : s'.vrun_time ≡ s.vrun_time

run_next-awake :
    (fuel : ℕ) (s : Sched) (tsk : ℕ) (s1 s2 : Sched)
    → (s.state s.now_task == task_running) ≡ true
    → insert_task_queue fuel s s.now_task ≡ some s1
    → refill s1 tsk ≡ some s2
    → run_next fuel s tsk ≡ some (record s2 { now_task = tsk })
unfolding run_next switch_to
run_next-awake fuel s tsk s1 s2 a b c = rw (run_next, a, b, c)

run_next-asleep :
    (fuel : ℕ) (s : Sched) (tsk : ℕ) (s2 : Sched)
    → (s.state s.now_task == task_running) ≡ false
    → refill s tsk ≡ some s2
    → run_next fuel s tsk ≡ some (record s2 { now_task = tsk })
unfolding run_next switch_to
run_next-asleep fuel s tsk s2 a c = rw (run_next, a, c)

-- `run_next` with a running task: that one is queued, and `tsk` runs.
pub run_next-Left :
    (fuel : ℕ) (s : Sched) (tsk : ℕ) (ts : List ℕ)
    → IsReady s ts
    → (s.state s.now_task == task_running) ≡ true
    → s.now_task ∉ (task_queue ∷ init_task ∷ ts)
    → s.vrun_time s.now_task < 2 ^ 63
    → suc (length ts) < 2 ^ 32
    → length ts < fuel
    → (s' : Sched) × (run_next fuel s tsk ≡ some s')
      × Left s tsk (insert s.vrun_time s.now_task ts) s'
run_next-Left fuel s tsk ts v running out lt few f =
    let (s1, e1, v1, same) = insert_task_queue-IsReady fuel s s.now_task ts v out lt few f in
    let (q, e2) = refill-some s1 tsk (omega (arith, v1.count)) in
    (
      record s1 { exec_task_jiffies = q; now_task = tsk },
      run_next-awake fuel s tsk s1 (record s1 { exec_task_jiffies = q }) running e1 e2,
      record {
        ready = IsReady-exec s1 q tsk (insert s.vrun_time s.now_task ts) v1;
        runs = refl;
        times = ap (λ z. z.vrun_time) same;
      },
    )

-- With a task that sleeps: it is not queued.
pub run_next-Left_asleep :
    (fuel : ℕ) (s : Sched) (tsk : ℕ) (ts : List ℕ)
    → IsReady s ts
    → (s.state s.now_task == task_running) ≡ false
    → (s' : Sched) × (run_next fuel s tsk ≡ some s') × Left s tsk ts s'
run_next-Left_asleep fuel s tsk ts v asleep =
    let (q, e2) = refill-some s tsk (omega (arith, v.count)) in
    (
      record s { exec_task_jiffies = q; now_task = tsk },
      run_next-asleep fuel s tsk (record s { exec_task_jiffies = q }) asleep e2,
      record { ready = IsReady-exec s q tsk ts v; runs = refl; times = refl },
    )

pub keep_running-Left :
    (fuel : ℕ) (s : Sched) (tsk : ℕ) (ts : List ℕ)
    → IsReady s ts
    → tsk ∉ (task_queue ∷ init_task ∷ ts)
    → s.vrun_time tsk < 2 ^ 63
    → suc (length ts) < 2 ^ 32
    → length ts < fuel
    → (s' : Sched) × (keep_running fuel s tsk ≡ some s')
      × Left s s.now_task (insert s.vrun_time tsk ts) s'
unfolding keep_running
keep_running-Left fuel s tsk ts v out lt few f =
    let (s1, e1, v1, same) = insert_task_queue-IsReady fuel s tsk ts v out lt few f in
    let (q, e2) = refill-some s1 tsk (omega (arith, v1.count)) in
    (
      record s1 { exec_task_jiffies = q },
      rw (keep_running, e1) e2,
      record {
        ready = IsReady-exec s1 q s1.now_task (insert s.vrun_time tsk ts) v1;
        runs = ap (λ z. z.now_task) same;
        times = ap (λ z. z.vrun_time) same;
      },
    )
