-- ===== src/Disk.antt =====
-- The request queue of os/driver/disk.c, with the structures of os/include/disk.h. A request is the
-- address of its `struct block_buffer_node`; the list node in its `wait_queue` has the same address.
-- What the drive answers to `io_in8` is a list that the loops use up, and `none` stands for its end;
-- what is written to the drive is a list of events. `kmalloc` gives the address of a new request,
-- and `kfree` of it leaves nothing to say.
pub mod Registers
pub mod Issue
pub mod Queue
pub mod Serve
pub mod Read
pub mod Transfer
mod Tests
use Prim.Native.Nat.{bit_and, bit_or}
use kalinote_os.Base.{
  ℕ, ◌+◌, ◌-◌, ◌*◌, ◌/◌, ◌%◌, ◌^◌, Bool, true, false, ◌||◌, List, [], ◌∷◌, ◌++◌, Option, none, some,
  ◌==◌, if◌then◌else◌, update,
}
use kalinote_os.Links.{Links, list_init, list_add_to_before, list_del, list_next}
use kalinote_os.Sched.{
  Sched, task_running, task_uninterruptible, need_schedule, add_long, sub_long, insert_task_queue,
  schedule,
}
use kalinote_os.Semaphore.{set_state}

-- The ports, of the second channel.
abbrev pub err_feature : ℕ
err_feature = 0x171

abbrev pub sector_cnt : ℕ
sector_cnt = 0x172

abbrev pub sector_low : ℕ
sector_low = 0x173

abbrev pub sector_mid : ℕ
sector_mid = 0x174

abbrev pub sector_high : ℕ
sector_high = 0x175

abbrev pub device : ℕ
device = 0x176

abbrev pub status_cmd : ℕ
status_cmd = 0x177

abbrev pub alt_sta_ctl : ℕ
alt_sta_ctl = 0x376

abbrev pub status_busy : ℕ
status_busy = 128

abbrev pub status_ready : ℕ
status_ready = 64

abbrev pub status_req : ℕ
status_req = 8

abbrev pub status_error : ℕ
status_error = 1

abbrev pub ata_read_cmd : ℕ
ata_read_cmd = 0x24

abbrev pub ata_write_cmd : ℕ
ata_write_cmd = 0x34

abbrev pub get_identify_disk_cmd : ℕ
get_identify_disk_cmd = 0xec

-- A byte to a port, and a sector from and to memory.
pub data Event : Type 0 where
  out : (port value : ℕ) → Event
  send : (buffer : ℕ) → Event
  receive : (buffer : ℕ) → Event

-- The three functions that `end_handler` points to.
pub data Handler : Type 0 where
  read_handler : Handler
  write_handler : Handler
  other_handler : Handler

-- `disk_request`, the fields of the requests, the scheduler, and the drive.
pub record Disk : Type 0 where
  pub links : Links
  pub in_using : ℕ
  pub block_request_count : ℕ
  pub count : ℕ → ℕ
  pub cmd : ℕ → ℕ
  pub lba : ℕ → ℕ
  pub buffer : ℕ → ℕ
  pub end_handler : ℕ → Handler
  pub tsk : ℕ → ℕ
  pub sched : Sched
  pub answers : List ℕ
  pub events : List Event

-- The address of `disk_request.wait_queue_list.wait_list`.
abbrev pub disk_queue : ℕ
disk_queue = 1

abbrev pub note : List Event → Disk → Disk
note es s = record s { events = s.events ++ es }

-- The loops on `io_in8`: what is left of the answers.
pub until_clear : (mask : ℕ) → List ℕ → Option (List ℕ)
until_clear mask [] = none
until_clear mask (a ∷ rest) = if bit_and a mask == 0 then some rest else until_clear mask rest

pub until_set : (mask : ℕ) → List ℕ → Option (List ℕ)
until_set mask [] = none
until_set mask (a ∷ rest) = if bit_and a mask == 0 then until_set mask rest else some rest

-- The writes in front of a command, with an LBA of 48 bits and with one of 28.
abbrev pub lba48_outs : (count lba : ℕ) → List Event
lba48_outs count lba =
    out device 0x40
    ∷ out err_feature 0
    ∷ out sector_cnt (count / 2 ^ 8 % 256)
    ∷ out sector_low (lba / 2 ^ 24 % 256)
    ∷ out sector_mid (lba / 2 ^ 32 % 256)
    ∷ out sector_high (lba / 2 ^ 40 % 256)
    ∷ out err_feature 0
    ∷ out sector_cnt (count % 256)
    ∷ out sector_low (lba % 256)
    ∷ out sector_mid (lba / 2 ^ 8 % 256)
    ∷ out sector_high (lba / 2 ^ 16 % 256)
    ∷ []

abbrev pub lba28_outs : (count lba : ℕ) → List Event
lba28_outs count lba =
    out device 0xe0
    ∷ out err_feature 0
    ∷ out sector_cnt (count % 256)
    ∷ out sector_low (lba % 256)
    ∷ out sector_mid (lba / 2 ^ 8 % 256)
    ∷ out sector_high (lba / 2 ^ 16 % 256)
    ∷ []

-- The wait for DISK_STATUS_READY and the command, after the other registers.
pub give_command : ℕ → List Event → Disk → Option Disk
give_command node registers s = elim (until_set status_ready s.answers) [
  | none ↦ none
  | some rest ↦
      some (note (registers ++ (out status_cmd (s.cmd node) ∷ [])) (record s { answers = rest }))
]

-- The wait for DISK_STATUS_REQ and a sector to the drive.
pub send_sector : ℕ → Disk → Option Disk
send_sector node s = elim (until_set status_req s.answers) [
  | none ↦ none
  | some rest ↦ some (note (send (s.buffer node) ∷ []) (record s { answers = rest }))
]

-- The `switch` of `cmd_out`. The case of GET_IDENTIFY_DISK_CMD falls through to a message.
pub command : ℕ → Disk → Option Disk
command node s =
    if s.cmd node == ata_write_cmd
    then (elim (give_command node (lba48_outs (s.count node) (s.lba node)) s) [
      | none ↦ none
      | some s' ↦ send_sector node s'
    ])
    else if s.cmd node == ata_read_cmd
    then give_command node (lba48_outs (s.count node) (s.lba node)) s
    else if s.cmd node == get_identify_disk_cmd
    then give_command node (lba28_outs (s.count node) (s.lba node)) s
    else some s

-- A request is taken off the list and given to the drive.
pub start : ℕ → Disk → Option Disk
start node s = elim (until_clear status_busy s.answers) [
  | none ↦ none
  | some rest ↦ command node (record s {
    in_using = node;
    links = list_del s.links node;
    block_request_count = sub_long s.block_request_count 1;
    answers = rest;
  })
]

-- The first one that waits.
pub cmd_out : Disk → Option Disk
cmd_out s = start (list_next s.links disk_queue) s

pub end_request : ℕ → ℕ → Disk → Option Disk
end_request fuel node s =
    let tsk = s.tsk node in
    elim (insert_task_queue fuel (set_state s.sched tsk task_running) tsk) [
      | none ↦ none
      | some sched ↦
          let flagged = record sched {
            flags = update sched.flags tsk (bit_or (sched.flags tsk) need_schedule);
          } in
          let s' = record s { sched = flagged; in_using = 0 } in
          if s'.block_request_count == 0 then some s' else cmd_out s'
    ]

-- The test for an error: a sector is read if there is none, else the error register.
pub check_error : (taken : List Event) → Disk → Option Disk
check_error taken s = elim s.answers [
  | [] ↦ none
  | a ∷ rest ↦
      if bit_and a status_error == 0
      then some (note taken (record s { answers = rest }))
      else (elim rest [ [] ↦ none | b ∷ rest' ↦ some (record s { answers = rest' }) ])
]

abbrev pub count_down : ℕ → Disk → Disk
count_down node s = record s { count = update s.count node ((s.count node + 2 ^ 32 - 1) % 2 ^ 32) }

abbrev pub next_sector : ℕ → Disk → Disk
next_sector node s = record s { buffer = update s.buffer node (s.buffer node + 512) }

-- The three handlers, on the request that is in use.
pub handle : ℕ → Handler → Disk → Option Disk
handle fuel read_handler s =
    let node = s.in_using in
    elim (check_error (receive (s.buffer node) ∷ []) s) [
      | none ↦ none
      | some s1 ↦
          let s2 = count_down node s1 in
          if s2.count node == 0 then end_request fuel node s2 else some (next_sector node s2)
    ]
handle fuel write_handler s =
    let node = s.in_using in
    elim (check_error [] s) [
      | none ↦ none
      | some s1 ↦
          let s2 = count_down node s1 in
          if s2.count node == 0
          then end_request fuel node s2
          else send_sector node (next_sector node s2)
    ]
handle fuel other_handler s =
    let node = s.in_using in
    elim (check_error (receive (s.buffer node) ∷ []) s) [
      | none ↦ none
      | some s1 ↦ end_request fuel node s1
    ]

-- The interrupt; without a request in use it calls through NULL.
pub disk_handler : ℕ → Disk → Option Disk
disk_handler fuel s =
    let served = handle fuel (s.end_handler s.in_using) s in
    if s.in_using == 0 then none else served

abbrev pub handler_of : ℕ → Handler
handler_of cmd =
    if cmd == ata_read_cmd
    then Handler.read_handler
    else if cmd == ata_write_cmd
    then Handler.write_handler
    else Handler.other_handler

-- `node` is what `kmalloc` gives.
abbrev pub make_request : (node cmd blocks count buffer : ℕ) → Disk → Disk
make_request node cmd blocks count buffer s = record s {
  links = list_init s.links node;
  tsk = update s.tsk node s.sched.now_task;
  end_handler = update s.end_handler node (handler_of cmd);
  cmd = update s.cmd node (cmd % 256);
  lba = update s.lba node blocks;
  count = update s.count node (count % 2 ^ 32);
  buffer = update s.buffer node buffer;
}

abbrev pub add_request : ℕ → Disk → Disk
add_request node s = record s {
  links = list_add_to_before s.links disk_queue node;
  block_request_count = add_long s.block_request_count 1;
}

pub submit : ℕ → Disk → Option Disk
submit node s =
    let s1 = add_request node s in
    let issued = cmd_out s1 in if s1.in_using == 0 then issued else some s1

pub wait_for_finish : ℕ → Disk → Option Disk
wait_for_finish fuel s =
    elim (schedule fuel (set_state s.sched s.sched.now_task task_uninterruptible)) [
      | none ↦ none
      | some sched ↦ some (record s { sched = sched })
    ]

-- A request up to the change of the task; the result is that of the call.
abbrev pub request : (fuel node cmd blocks count buffer : ℕ) → Disk → Option Disk
request fuel node cmd blocks count buffer s =
    elim (submit node (make_request node cmd blocks count buffer s)) [
      | none ↦ none
      | some s' ↦ wait_for_finish fuel s'
    ]

abbrev pub with_result : ℕ → Option Disk → Option (ℕ × Disk)
with_result r none = none
with_result r (some s) = some (r, s)

pub transfer : (fuel node cmd blocks count buffer : ℕ) → Disk → Option (ℕ × Disk)
transfer fuel node cmd blocks count buffer s =
    let done = request fuel node cmd blocks count buffer s in
    if (cmd == ata_read_cmd) || (cmd == ata_write_cmd) then with_result 1 done else some (0, s)

pub ioctl : (fuel node cmd arg : ℕ) → Disk → Option (ℕ × Disk)
ioctl fuel node cmd arg s =
    let done = request fuel node cmd 0 0 arg s in
    if cmd == get_identify_disk_cmd then with_result 1 done else some (0, s)

-- The part of `disk_init` on `disk_request`.
pub disk_init : Disk → Disk
disk_init s = note (out alt_sta_ctl 0 ∷ []) (record s {
  links = list_init s.links disk_queue;
  tsk = update s.tsk disk_queue 0;
  in_using = 0;
  block_request_count = 0;
})
