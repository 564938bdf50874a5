-- ===== src/Sched.antt =====
-- os/kernel/schedule.c: the ready queue, ordered by virtual run time, and the choice of the task
-- that runs. A task is the address of its `struct task_struct`, and its `list` field is the node of
-- that address (`container_of` leads from one to the other).
pub mod Ready
pub mod Insert
pub mod Next
pub mod Choose
pub mod Fair
mod Tests
use kalinote_os.Base.{
  ℕ, zero, suc, ◌+◌, ◌-◌, ◌*◌, ◌/◌, ◌%◌, ◌^◌, Bool, Option, none, some, ltb, leb, ◌==◌, not, ◌||◌,
  if◌then◌else◌, update,
}
use Prim.Native.Nat.{bit_and}
use kalinote_os.Links.{Links, list_init, list_add_to_before, list_del, list_is_empty, list_next}

-- `struct schedule`, the fields of the tasks that the scheduler uses, and `now_task[0]`.
pub record Sched : Type 0 where
  pub links : Links
  pub vrun_time : ℕ → ℕ
  pub state : ℕ → ℕ
  pub flags : ℕ → ℕ
  pub priority : ℕ → ℕ
  pub running_task_count : ℕ
  pub exec_task_jiffies : ℕ
  pub now_task : ℕ

-- The addresses of `task_schedule.task_queue` and `init_task_union.task`.
abbrev pub task_queue : ℕ
task_queue = 1

abbrev pub init_task : ℕ
init_task = 2

abbrev pub task_running : ℕ
task_running = 1

abbrev pub task_uninterruptible : ℕ
task_uninterruptible = 4

abbrev pub need_schedule : ℕ
need_schedule = 2

-- A `long` is its 64-bit pattern.
abbrev pub add_long : ℕ → ℕ → ℕ
add_long a b = (a + b) % 2 ^ 64

abbrev pub sub_long : ℕ → ℕ → ℕ
sub_long a b = (a + 2 ^ 64 - b) % 2 ^ 64

pub get_next_task : Sched → ℕ × Sched
get_next_task s =
    let tsk = list_next s.links task_queue in
    if list_is_empty s.links task_queue then (init_task, s) else (
      tsk,
      record s {
        links = list_del s.links tsk;
        running_task_count = sub_long s.running_task_count 1;
      },
    )

-- The `while` of `insert_task_queue`.
pub insert_walk : Sched → ℕ → ℕ → ℕ → Option ℕ
insert_walk s tsk zero tmp = none
insert_walk s tsk (suc fuel) tmp =
    let rest = insert_walk s tsk fuel (list_next s.links tmp) in
    if ltb (s.vrun_time tmp) (s.vrun_time tsk) then rest else some tmp

pub insert_before : Sched → ℕ → ℕ → Sched
insert_before s tsk tmp = record s {
  links = list_add_to_before s.links tmp tsk;
  running_task_count = add_long s.running_task_count 1;
}

pub insert_task_queue : ℕ → Sched → ℕ → Option Sched
unfolding insert_walk insert_before
insert_task_queue fuel s tsk =
    let tmp = list_next s.links task_queue in
    let walk = insert_walk s tsk fuel tmp in
    if tsk == init_task
    then some s
    else if list_is_empty s.links task_queue
    then some (insert_before s tsk tmp)
    else elim walk [ none ↦ none | some tmp ↦ some (insert_before s tsk tmp) ]

-- 4 / n for a `long` n, rounded towards zero; a division by zero is a fault.
pub quarter : ℕ → Option ℕ
quarter n =
    if n == 0
    then none
    else if ltb n (2 ^ 63)
    then some (4 / n)
    else some (sub_long 0 (4 / (2 ^ 64 - n)))

-- The time slice of the task, unless one is left.
pub refill : Sched → ℕ → Option Sched
unfolding quarter
refill s tsk =
    if s.exec_task_jiffies == 0
    then (elim (quarter s.running_task_count) [
      | none ↦ none
      | some q ↦
          some
            (record s { exec_task_jiffies = if leb (s.priority tsk) 1 then q else q * 3 % 2 ^ 64 })
    ])
    else some s

-- `switch_to`: what the scheduler sees of it.
pub switch_to : Sched → ℕ → Sched
switch_to s next = record s { now_task = next }

pub clear_need_schedule : Sched → Sched
clear_need_schedule s = record s {
  flags = update s.flags s.now_task (bit_and (s.flags s.now_task) (2 ^ 64 - 1 - need_schedule));
}

pub run_next : ℕ → Sched → ℕ → Option Sched
unfolding insert_task_queue refill switch_to
run_next fuel s tsk =
    let now = s.now_task in
    let queued = if s.state now == task_running then insert_task_queue fuel s now else some s in
    elim queued [
      | none ↦ none
      | some s ↦ elim (refill s tsk) [ none ↦ none | some s ↦ some (switch_to s tsk) ]
    ]

pub keep_running : ℕ → Sched → ℕ → Option Sched
unfolding insert_task_queue refill
keep_running fuel s tsk = elim (insert_task_queue fuel s tsk) [
  | none ↦ none
  | some s ↦ refill s tsk
]

pub schedule : ℕ → Sched → Option Sched
unfolding clear_need_schedule get_next_task run_next keep_running
schedule fuel s0 =
    let (tsk, s) = get_next_task (clear_need_schedule s0) in
    if leb (s.vrun_time tsk) (s.vrun_time s.now_task) || not (s.state s.now_task == task_running)
    then run_next fuel s tsk
    else keep_running fuel s tsk

-- `schedule_init`, on memory that holds `current` as the running task.
pub schedule_init : Sched → ℕ → Sched
schedule_init s current = record s {
  links = list_init s.links task_queue;
  vrun_time = update s.vrun_time task_queue 0x7fff_ffff_ffff_ffff;
  state = update s.state task_queue 0;
  flags = update s.flags task_queue 0;
  priority = update s.priority task_queue 0;
  running_task_count = 1;
  exec_task_jiffies = 4;
  now_task = current;
}
