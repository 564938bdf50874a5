-- ===== src/Semaphore/Wait.antt =====
-- Tasks wait at a semaphore of os/include/semaphore.h in the order in which they came.
use kalinote_os.Base.{
  ℕ, suc, ◌^◌, ◌<◌, ◌≡◌, inl, inr, Bool, true, false, List, [], ◌∷◌, ◌++◌, ◌∙◌, ap, refl, Option,
  some, ◌==◌, Bool-cases, ◌∉◌, length, update_self, Gives,
}
use kalinote_os.Ordered.{insert}
use kalinote_os.Links.{list_init, list_next}
use kalinote_os.Links.Ring.{IsRing, list_next_lem}
use kalinote_os.Links.Laws.{
  list_init-IsRing_other, list_is_empty-IsRing, list_del-IsRing, list_add_to_before-IsRing,
}
use kalinote_os.Sched.{Sched, task_queue, init_task, task_running, task_uninterruptible}
use kalinote_os.Sched.Ready.{IsReady}
use kalinote_os.Sched.Insert.{insert_task_queue-IsReady}
use kalinote_os.Sched.Fair.{schedule-asleep}
use kalinote_os.Semaphore.{
  Semaphore, wait_list, atomic_inc, atomic_dec, is_positive, wait_queue_init, set_state, wake_first,
  semaphore_up, wait_last, semaphore_down,
}

pub set_state-IsReady :
    (s : Sched) (tsk state : ℕ) (ts : List ℕ) → IsReady s ts → IsReady (set_state s tsk state) ts
set_state-IsReady s tsk state ts v = record {
  ring = v.ring;
  ascending = v.ascending;
  below = v.below;
  no_init = v.no_init;
  count = v.count;
  few = v.few;
  head_last = v.head_last;
}

-- The first of those that wait, whose task becomes ready.
pub record Woken (s : Semaphore) (ts : List ℕ) (wait : ℕ) (rest : List ℕ) (s' : Semaphore)
    : Type 0 where
  pub waiting : IsRing s'.links wait_list rest
  pub ready : IsReady s'.sched (insert s.sched.vrun_time (s.tsk wait) ts)
  pub running : s'.sched.state (s.tsk wait) ≡ task_running
  pub counter : s'.counter ≡ s.counter
  pub tsk : s'.tsk ≡ s.tsk

-- What `semaphore_up` does with the tasks that wait.
abbrev pub Ups : Semaphore → (ts waits : List ℕ) → Option Semaphore → Type 0
Ups s ts [] o = o ≡ some (record s { counter = atomic_inc s.counter })
Ups s ts (wait ∷ rest) o = Gives (Woken s ts wait rest) o

-- A task that waits is not queued and its run time is a positive `long`.
abbrev pub CanWake : Semaphore → (ts waits : List ℕ) → Type 0
CanWake s ts [] = Unit
CanWake s ts (wait ∷ rest) =
    (s.tsk wait ∉ (task_queue ∷ init_task ∷ ts)) × (s.sched.vrun_time (s.tsk wait) < 2 ^ 63)

-- When no task waits, `semaphore_up` counts up. Else it ends, takes the first one that waits off
-- the list, makes its task ready and queues it by its run time; the counter stays.
pub semaphore_up-Ups :
    (fuel : ℕ) (s : Semaphore) (ts waits : List ℕ)
    → IsRing s.links wait_list waits
    → IsReady s.sched ts
    → CanWake s ts waits
    → suc (length ts) < 2 ^ 32
    → length ts < fuel
    → Ups s ts waits (semaphore_up fuel s)
unfolding semaphore_up wake_first
semaphore_up-Ups fuel s ts [] ring v can few f =
    rw (list_is_empty-IsRing s.links wait_list [] ring) refl
semaphore_up-Ups fuel s ts (wait ∷ rest) ring v can few f =
    rw (list_is_empty-IsRing s.links wait_list (wait ∷ rest) ring) woken
  where
    woken : Gives (Woken s ts wait rest) (wake_first fuel s)
    woken =
        let tsk = s.tsk wait in
        let t = set_state s.sched tsk task_running in
        let first : list_next s.links wait_list ≡ wait =
          list_next_lem s.links wait_list ∙ ring.links.0 in
        let (sched, e, ready, same) =
          insert_task_queue-IsReady fuel t tsk ts (set_state-IsReady s.sched tsk task_running ts v)
            can.0 can.1 few f in
        rw (wake_first, first, e, Gives, first)
          (record {
            waiting = list_del-IsRing s.links wait_list wait [] rest ring;
            ready = ready;
            running =
                ap (λ (z : Sched). z.state tsk) same ∙ update_self s.sched.state tsk task_running;
            counter = refl;
            tsk = refl;
          })

-- The running task, which waits last, and the one that runs in its place.
pub record Waits (s : Semaphore) (x : ℕ) (xs waits : List ℕ) (wait : ℕ) (s' : Semaphore)
    : Type 0 where
  pub waiting : IsRing s'.links wait_list (waits ++ (wait ∷ []))
  pub asleep : s'.tsk wait ≡ s.sched.now_task
  pub runs : s'.sched.now_task ≡ x
  pub ready : IsReady s'.sched xs
  pub counter : s'.counter ≡ s.counter

-- What `semaphore_down` does.
abbrev pub Downs : Semaphore → (x : ℕ) → (xs waits : List ℕ) → ℕ → Bool → Option Semaphore → Type 0
Downs s x xs waits wait true o = o ≡ some (record s { counter = atomic_dec s.counter })
Downs s x xs waits wait false o = Gives (Waits s x xs waits wait) o

-- While the counter is above 0, `semaphore_down` counts down. Else, with the task `x` first in the
-- queue, it ends, the running task waits behind all those that wait and is left out of the queue,
-- and `x` runs; the counter stays.
pub semaphore_down-Downs :
    (fuel wait : ℕ) (s : Semaphore) (x : ℕ) (xs waits : List ℕ)
    → IsRing s.links wait_list waits
    → wait ∉ (wait_list ∷ waits)
    → IsReady s.sched (x ∷ xs)
    → Downs s x xs waits wait (is_positive s.counter) (semaphore_down fuel wait s)
unfolding semaphore_down wait_last wait_queue_init list_init
semaphore_down-Downs fuel wait s x xs waits ring out v = elim (Bool-cases (is_positive s.counter)) [
  | inl e ↦ rw e refl
  | inr e ↦ rw e last
]
  where
    last : Gives (Waits s x xs waits wait) (wait_last fuel wait s)
    last =
        let now = s.sched.now_task in
        let t = set_state s.sched now task_uninterruptible in
        let asleep : (t.state t.now_task == task_running) ≡ false =
          rw (update_self s.sched.state now task_uninterruptible) refl in
        let (sched, e, l) =
          schedule-asleep fuel t x xs
            (set_state-IsReady s.sched now task_uninterruptible (x ∷ xs) v) asleep in
        let alone : IsRing (list_init s.links wait) wait_list waits =
          list_init-IsRing_other s.links wait_list wait waits ring out in
        rw (wait_last, e, Gives)
          (record {
            waiting =
                list_add_to_before-IsRing (list_init s.links wait) wait_list wait waits alone out;
            asleep = update_self s.tsk wait now;
            runs = l.runs;
            ready = l.ready;
            counter = refl;
          })
