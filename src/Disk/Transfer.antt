-- ===== src/Disk/Transfer.antt =====
-- `IDE_transfer` of os/driver/disk.c: a request is made and given to the queue, and its task waits.
use mathlib.Core.Path.{subst}
use kalinote_os.Base.{
  ℕ, suc, ◌%◌, ◌^◌, ◌<◌, ◌≡◌, inl, inr, Bool, true, false, ◌||◌, List, [], ◌∷◌, ◌++◌, refl, sym,
  ◌∙◌, ap, Option, none, some, ◌==◌, ◌∉◌, length, update_self, Gives, Bool-cases,
}
use kalinote_os.Links.Laws.{list_init-IsRing_other}
use kalinote_os.Sched.{Sched, task_running, task_uninterruptible}
use kalinote_os.Sched.Ready.{IsReady}
use kalinote_os.Sched.Fair.{schedule-asleep}
use kalinote_os.Semaphore.{set_state}
use kalinote_os.Semaphore.Wait.{set_state-IsReady}
use kalinote_os.Disk.{
  Disk, disk_queue, ata_read_cmd, ata_write_cmd, handler_of, make_request, submit, wait_for_finish,
  request, with_result, transfer,
}
use kalinote_os.Disk.Issue.{IsQueue, drive_waits}
use kalinote_os.Disk.Queue.{Submitted, SameRequests, submit-Submitted}

-- A new request does not touch the queue.
make_request-IsQueue :
    (s : Disk) (now : ℕ) (xs : List ℕ) (node cmd blocks count buffer : ℕ)
    → IsQueue s now xs
    → node ∉ (disk_queue ∷ xs)
    → IsQueue (make_request node cmd blocks count buffer s) now xs
make_request-IsQueue s now xs node cmd blocks count buffer q out = record {
  ring = list_init-IsRing_other s.links disk_queue node xs q.ring out;
  active = q.active;
  count = q.count;
  few = q.few;
  idle = q.idle;
  no_null = q.no_null;
}

-- The queue does not change with the scheduler.
sched-IsQueue :
    (s : Disk) (sched : Sched) (now : ℕ) (xs : List ℕ)
    → IsQueue s now xs
    → IsQueue (record s { sched = sched }) now xs
sched-IsQueue s sched now xs q = record {
  ring = q.ring;
  active = q.active;
  count = q.count;
  few = q.few;
  idle = q.idle;
  no_null = q.no_null;
}

-- What the request holds.
pub record IsRequest (command blocks sectors place task node : ℕ) (s : Disk) : Type 0 where
  pub cmd : s.cmd node ≡ command % 256
  pub lba : s.lba node ≡ blocks
  pub count : s.count node ≡ sectors % 2 ^ 32
  pub buffer : s.buffer node ≡ place
  pub handler : s.end_handler node ≡ handler_of command
  pub tsk : s.tsk node ≡ task

-- The queue with a request that is in use, or the last one that waits.
abbrev pub Placed : (now : ℕ) → (xs : List ℕ) → (node : ℕ) → Bool → Disk → Type 0
Placed now xs node true s = IsQueue s node []
Placed now xs node false s = IsQueue s now (xs ++ (node ∷ []))

sched-Placed :
    (now : ℕ) (xs : List ℕ) (node : ℕ) (b : Bool) (s : Disk) (sched : Sched)
    → Placed now xs node b s
    → Placed now xs node b (record s { sched = sched })
sched-Placed now xs node true s sched q = sched-IsQueue s sched node [] q
sched-Placed now xs node false s sched q = sched-IsQueue s sched now (xs ++ (node ∷ [])) q

Submitted-Placed :
    (m : Disk) (now : ℕ) (xs : List ℕ) (node : ℕ) (b : Bool) (s : Disk)
    → Submitted m now xs node b s
    → Placed now xs node b s × SameRequests m s
Submitted-Placed m now xs node true s g = (g.0, g.2)
Submitted-Placed m now xs node false s g = (g.0, g.2)

-- The queue after a request, whose task waits while the task `x` runs.
pub record Transfers (s : Disk) (now : ℕ) (xs : List ℕ) (x : ℕ) (ts : List ℕ)
    (command blocks sectors place node : ℕ) (s' : Disk) : Type 0 where
  pub queue : Placed now xs node (now == 0) s'
  pub request : IsRequest command blocks sectors place s.sched.now_task node s'
  pub runs : s'.sched.now_task ≡ x
  pub ready : IsReady s'.sched ts

-- The two cases of the call.
abbrev pub Answers :
    Disk
    → (now : ℕ) → (xs : List ℕ) → (x : ℕ) → (ts : List ℕ) → (command blocks sectors place node : ℕ)
    → Bool
    → Option (ℕ × Disk)
    → Type 0
Answers s now xs x ts command blocks sectors place node true o =
    Gives (λ (r, s'). (r ≡ 1) × Transfers s now xs x ts command blocks sectors place node s') o
Answers s now xs x ts command blocks sectors place node false o = o ≡ some (0, s)

request-Transfers :
    (fuel node cmd blocks count buffer : ℕ) (s : Disk) (now : ℕ) (xs : List ℕ) (x : ℕ)
    (ts rest : List ℕ)
    → IsQueue s now xs
    → node ∉ (disk_queue ∷ xs)
    → 0 ∉ (node ∷ [])
    → suc (length xs) < 2 ^ 63
    → drive_waits (cmd % 256) s.answers ≡ some rest
    → IsReady s.sched (x ∷ ts)
    → Gives
        (Transfers s now xs x ts cmd blocks count buffer node)
        (request fuel node cmd blocks count buffer s)
unfolding wait_for_finish
request-Transfers fuel node cmd blocks count buffer s now xs x ts rest q out no_null few waits v =
    let m = make_request node cmd blocks count buffer s in
    let same_cmd : drive_waits (m.cmd node) m.answers ≡ some rest =
      ap (λ z. drive_waits z s.answers) (update_self s.cmd node (cmd % 256)) ∙ waits in
    go (submit node m) (
      submit-Submitted m now xs node rest
        (make_request-IsQueue s now xs node cmd blocks count buffer q out) out no_null few same_cmd)
  where
    finish :
        (s' : Disk)
        → Placed now xs node (now == 0) s'
        → SameRequests (make_request node cmd blocks count buffer s) s'
        → Gives (Transfers s now xs x ts cmd blocks count buffer node) (wait_for_finish fuel s')
    finish s' placed same =
        let t = set_state s'.sched s'.sched.now_task task_uninterruptible in
        let asleep : (t.state t.now_task == task_running) ≡ false =
          rw (update_self s'.sched.state s'.sched.now_task task_uninterruptible) refl in
        let queued : IsReady s'.sched (x ∷ ts) =
          subst (λ z. IsReady z (x ∷ ts)) (sym same.sched) v in
        let (sched, e, l) =
          schedule-asleep fuel t x ts
            (set_state-IsReady s'.sched s'.sched.now_task task_uninterruptible (x ∷ ts) queued)
            asleep in
        rw (wait_for_finish, e, Gives)
          (record {
            queue = sched-Placed now xs node (now == 0) s' sched placed;
            request = record {
              cmd = ap (λ f. f node) same.cmd ∙ update_self s.cmd node (cmd % 256);
              lba = ap (λ f. f node) same.lba ∙ update_self s.lba node blocks;
              count = ap (λ f. f node) same.count ∙ update_self s.count node (count % 2 ^ 32);
              buffer = ap (λ f. f node) same.buffer ∙ update_self s.buffer node buffer;
              handler =
                  ap (λ f. f node) same.handler ∙ update_self s.end_handler node (handler_of cmd);
              tsk = ap (λ f. f node) same.tsk ∙ update_self s.tsk node s.sched.now_task;
            };
            runs = l.runs;
            ready = l.ready;
          })

    go :
        (o : Option Disk)
        → Gives (Submitted (make_request node cmd blocks count buffer s) now xs node (now == 0)) o
        → Gives
            (Transfers s now xs x ts cmd blocks count buffer node)
            (elim o [ none ↦ none | some s' ↦ wait_for_finish fuel s' ])
    go none g = g
    go (some s') g =
        let (placed, same) =
          Submitted-Placed (make_request node cmd blocks count buffer s) now xs node (now == 0) s'
            g in
        finish s' placed same

-- For a new request on a drive that gets ready, with the task `x` first in the scheduler's queue:
-- `IDE_transfer` of a read or a write returns 1; the request is in use if there was none, and else
-- waits behind all others; it holds the command, the LBA, 32 bits of the count, the buffer, the handler
-- of its command and the running task, which is left out of the scheduler's queue while `x` runs.
-- Any other command returns 0 and changes nothing.
pub transfer-Transfers :
    (fuel node cmd blocks count buffer : ℕ) (s : Disk) (now : ℕ) (xs : List ℕ) (x : ℕ)
    (ts rest : List ℕ)
    → IsQueue s now xs
    → node ∉ (disk_queue ∷ xs)
    → 0 ∉ (node ∷ [])
    → suc (length xs) < 2 ^ 63
    → drive_waits (cmd % 256) s.answers ≡ some rest
    → IsReady s.sched (x ∷ ts)
    → Answers s now xs x ts cmd blocks count buffer node
        ((cmd == ata_read_cmd) || (cmd == ata_write_cmd))
        (transfer fuel node cmd blocks count buffer s)
unfolding transfer
transfer-Transfers fuel node cmd blocks count buffer s now xs x ts rest q out no_null few waits v =
    elim (Bool-cases ((cmd == ata_read_cmd) || (cmd == ata_write_cmd))) [
      | inl e ↦
          rw (transfer, e)
            (one (request fuel node cmd blocks count buffer s) (
              request-Transfers fuel node cmd blocks count buffer s now xs x ts rest q out no_null
                few waits v))
      | inr e ↦ rw (transfer, e) refl
    ]
  where
    one :
        (o : Option Disk)
        → Gives (Transfers s now xs x ts cmd blocks count buffer node) o
        → Answers s now xs x ts cmd blocks count buffer node true (with_result 1 o)
    one none g = g
    one (some s') g = (refl, g)
