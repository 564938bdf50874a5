-- ===== src/Disk/Tests.antt =====
-- A drive with one request in use and one that waits, and the theorems about it.
use kalinote_os.Base.{
  ◌-◌, ◌%◌, ◌^◌, ◌≡◌, ◌||◌, [], ◌∷◌, ◌++◌, refl, arith, some, ◌==◌, if◌then◌else◌, Gives,
}
use kalinote_os.Sched.{Sched}
use kalinote_os.Sched.Ready.{IsReady}
use kalinote_os.Disk.{
  Disk, Handler, until_clear, until_set, ata_read_cmd, ata_write_cmd, lba48_outs, device, transfer,
}
use kalinote_os.Disk.Registers.{latch, lba48_of, count48_of, lba48_outs-lba48_of}
use kalinote_os.Disk.Issue.{IsQueue, drive_waits}
use kalinote_os.Disk.Serve.{Ended}
use kalinote_os.Disk.Read.{interrupts, receives, interrupts-Ended}
use kalinote_os.Disk.Transfer.{Answers, transfer-Transfers}

lba48_outs-lba48_of_example :
    (lba48_of (latch (lba48_outs 3 0x123456789abc) (λ p. (7, 9))) ≡ 0x123456789abc % 2 ^ 48)
    × (count48_of (latch (lba48_outs 3 0x123456789abc) (λ p. (7, 9))) ≡ 3 % 2 ^ 16)
    × ((latch (lba48_outs 3 0x123456789abc) (λ p. (7, 9)) device).0 ≡ 0x40)
lba48_outs-lba48_of_example = lba48_outs-lba48_of 3 0x123456789abc (λ p. (7, 9))

-- Tasks 3 and 4 are ready, with run times 10 and 20; task 5 runs, with run time 15.
abbrev tasks : Sched
tasks = record {
  links = record {
    prev = λ p. if p == 1 then 4 else if p == 4 then 3 else 1;
    next = λ p. if p == 1 then 3 else if p == 3 then 4 else 1;
  };
  vrun_time = λ t. if t == 1 then 2 ^ 63 - 1 else if t == 3 then 10 else if t == 4 then 20 else 15;
  state = λ t. 1;
  flags = λ t. 0;
  priority = λ t. 2;
  running_task_count = 3;
  exec_task_jiffies = 4;
  now_task = 5;
}

tasks-IsReady : IsReady tasks (3 ∷ 4 ∷ [])
tasks-IsReady = record {
  ring = record {
    links = (refl, refl, (refl, refl, (refl, refl)));
    distinct = (refl, (refl, (refl, tt)));
  };
  ascending = omega arith;
  below = omega arith;
  no_init = refl;
  count = refl;
  few = omega arith;
  head_last = refl;
}

-- The request 20 reads two sectors for task 6, and 30 waits; 80 is the status of a drive that is
-- ready.
abbrev busy : Disk
busy = record {
  links = record { prev = λ p. if p == 1 then 30 else 1; next = λ p. if p == 1 then 30 else 1 };
  in_using = 20;
  block_request_count = 1;
  count = λ n. 2;
  cmd = λ n. ata_read_cmd;
  lba = λ n. 100;
  buffer = λ n. 4096;
  end_handler = λ n. Handler.read_handler;
  tsk = λ n. 6;
  sched = tasks;
  answers = 80 ∷ 80 ∷ 80 ∷ 80 ∷ 80 ∷ [];
  events = [];
}

busy-IsQueue : IsQueue busy 20 (30 ∷ [])
busy-IsQueue = record {
  ring = record { links = (refl, refl, (refl, refl)); distinct = (refl, (refl, tt)) };
  active = refl;
  count = refl;
  few = omega arith;
  idle = λ e. absurd (cc e);
  no_null = refl;
}

busy-ready : drive_waits ata_read_cmd (80 ∷ 80 ∷ 80 ∷ []) ≡ some (80 ∷ [])
unfolding until_clear until_set
busy-ready = refl

busy-waits : drive_waits 36 busy.answers ≡ some (80 ∷ 80 ∷ 80 ∷ [])
unfolding until_clear until_set
busy-waits = refl

interrupts-Ended_example :
    Gives
      (Ended tasks.vrun_time 6 (3 ∷ 4 ∷ []) (30 ∷ []) ([] ++ receives 4096 2))
      (interrupts 9 2 busy)
interrupts-Ended_example =
    interrupts-Ended 9 1 busy (3 ∷ 4 ∷ []) (30 ∷ []) (80 ∷ 80 ∷ []) (80 ∷ 80 ∷ 80 ∷ []) refl
      busy-IsQueue tasks-IsReady (refl, omega arith, omega arith, omega arith) refl refl
      (omega arith) refl refl (refl, (refl, tt)) (80 ∷ [], busy-ready)

transfer-Transfers_example :
    Answers busy 20
      (30 ∷ [])
      3
      (4 ∷ [])
      ata_read_cmd
      200
      1
      8192
      40
      ((ata_read_cmd == ata_read_cmd) || (ata_read_cmd == ata_write_cmd))
      (transfer 9 40 ata_read_cmd 200 1 8192 busy)
transfer-Transfers_example =
    transfer-Transfers 9 40 ata_read_cmd 200 1 8192 busy 20 (30 ∷ []) 3 (4 ∷ []) (80 ∷ 80 ∷ 80 ∷ [])
      busy-IsQueue refl refl (omega arith) busy-waits tasks-IsReady
