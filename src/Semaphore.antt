-- ===== src/Semaphore.antt =====
-- A semaphore of os/include/semaphore.h with the atomic counter of os/include/atomic.h, on the
-- scheduler. A `wait_queue_T` is an address, on the stack of the task that waits; its list node has
-- the same address.
pub mod Wait
mod Tests
use Prim.Native.Nat.{bit_and, bit_or}
use kalinote_os.Base.{
  ℕ, ◌+◌, ◌-◌, ◌%◌, ◌^◌, Bool, ◌&&◌, not, Option, none, some, leb, ◌==◌, if◌then◌else◌, update,
}
use kalinote_os.Links.{Links, list_init, list_add_to_before, list_del, list_is_empty, list_next}
use kalinote_os.Sched.{Sched, task_running, task_uninterruptible, insert_task_queue, schedule}

pub record Semaphore : Type 0 where
  pub counter : ℕ
  pub links : Links
  pub tsk : ℕ → ℕ
  pub sched : Sched

-- The address of the semaphore's own `wait`.
abbrev pub wait_list : ℕ
wait_list = 1

-- The operations of an `atomic_T`, a `long` as its 64-bit pattern.
abbrev pub atomic_add : ℕ → ℕ → ℕ
atomic_add n value = (n + value) % 2 ^ 64

abbrev pub atomic_sub : ℕ → ℕ → ℕ
atomic_sub n value = (n + 2 ^ 64 - value) % 2 ^ 64

abbrev pub atomic_set_mask : ℕ → ℕ → ℕ
atomic_set_mask n mask = bit_or n mask

abbrev pub atomic_clear_mask : ℕ → ℕ → ℕ
atomic_clear_mask n mask = bit_and n (2 ^ 64 - 1 - mask)

-- `lock incq` and `lock decq` of a `long`, and whether it is above 0.
abbrev pub atomic_inc : ℕ → ℕ
atomic_inc n = (n + 1) % 2 ^ 64

abbrev pub atomic_dec : ℕ → ℕ
atomic_dec n = (n + 2 ^ 64 - 1) % 2 ^ 64

abbrev pub is_positive : ℕ → Bool
is_positive n = not (n == 0) && not (leb (2 ^ 63) n)

pub wait_queue_init : ℕ → ℕ → Semaphore → Semaphore
wait_queue_init wait tsk s = record s {
  links = list_init s.links wait;
  tsk = update s.tsk wait tsk;
}

pub semaphore_init : ℕ → Semaphore → Semaphore
semaphore_init count s = wait_queue_init wait_list 0 (record s { counter = count })

abbrev pub set_state : Sched → ℕ → ℕ → Sched
set_state s tsk state = record s { state = update s.state tsk state }

-- `__up`
pub wake_first : ℕ → Semaphore → Option Semaphore
wake_first fuel s =
    let wait = list_next s.links wait_list in
    let tsk = s.tsk wait in
    elim (insert_task_queue fuel (set_state s.sched tsk task_running) tsk) [
      | none ↦ none
      | some sched ↦ some (record s { links = list_del s.links wait; sched = sched })
    ]

pub semaphore_up : ℕ → Semaphore → Option Semaphore
semaphore_up fuel s =
    let woken = wake_first fuel s in
    if list_is_empty s.links wait_list
    then some (record s { counter = atomic_inc s.counter })
    else woken

-- `__down`, with its `wait`.
pub wait_last : ℕ → ℕ → Semaphore → Option Semaphore
wait_last fuel wait s =
    let now = s.sched.now_task in
    let s1 = wait_queue_init wait now s in
    let s2 = record s1 {
      sched = set_state s1.sched now task_uninterruptible;
      links = list_add_to_before s1.links wait_list wait;
    } in
    elim (schedule fuel s2.sched) [ none ↦ none | some sched ↦ some (record s2 { sched = sched }) ]

pub semaphore_down : ℕ → ℕ → Semaphore → Option Semaphore
semaphore_down fuel wait s =
    let waiting = wait_last fuel wait s in
    if is_positive s.counter then some (record s { counter = atomic_dec s.counter }) else waiting
