-- ===== src/Disk/Serve.antt =====
-- The interrupts of os/driver/disk.c that serve a read, and the end of a request.
use kalinote_os.Base.{
  ℕ, suc, ◌^◌, ◌<◌, ◌≡◌, true, false, List, [], ◌∷◌, arith, refl, ◌∙◌, ap, some, ◌==◌,
  if◌then◌else◌, ◌∉◌, length, update, update_self, Gives,
}
use Prim.Native.Nat.{bit_or}
use kalinote_os.Ordered.{insert}
use kalinote_os.Links.Ring.{IsRing}
use kalinote_os.Sched.{Sched, task_queue, init_task, task_running, need_schedule}
use kalinote_os.Sched.Ready.{IsReady}
use kalinote_os.Sched.Insert.{insert_task_queue-IsReady}
use kalinote_os.Semaphore.{set_state}
use kalinote_os.Semaphore.Wait.{set_state-IsReady}
use kalinote_os.Disk.{Disk, Event, disk_queue, cmd_out, end_request}
use kalinote_os.Disk.Issue.{IsQueue, drive_waits, issued_events, cmd_out-issued, issued-IsQueue}

-- The drive gets ready for the first one of those that wait, if there is one.
abbrev pub CanIssue : (cmd : ℕ → ℕ) → (answers xs : List ℕ) → Type 0
CanIssue cmd answers [] = Unit
CanIssue cmd answers (x ∷ xs) = (rest : List ℕ) × (drive_waits (cmd x) answers ≡ some rest)

-- The queue without the request that has ended: the next one is in use and its command written.
abbrev pub NextInUse : (xs : List ℕ) → (events : List Event) → Disk → Type 0
NextInUse [] events s = IsQueue s 0 [] × (s.events ≡ events)
NextInUse (x ∷ xs) events s =
    IsQueue s x xs × (s.events ≡ issued_events (record s { events = events }) x)

-- The task of a request that has ended is ready.
pub record Ended (vrun_time : ℕ → ℕ) (tsk : ℕ) (ts xs : List ℕ) (events : List Event) (s : Disk)
    : Type 0 where
  pub ready : IsReady s.sched (insert vrun_time tsk ts)
  pub running : s.sched.state tsk ≡ task_running
  pub queue : NextInUse xs events s

-- A task that can be made ready.
abbrev pub CanEnd : Disk → (node : ℕ) → (ts : List ℕ) → (fuel : ℕ) → Type 0
CanEnd s node ts fuel =
    (s.tsk node ∉ (task_queue ∷ init_task ∷ ts))
    × (s.sched.vrun_time (s.tsk node) < 2 ^ 63)
    × (suc (length ts) < 2 ^ 32)
    × (length ts < fuel)

flags-IsReady :
    (s : Sched) (flags : ℕ → ℕ) (ts : List ℕ)
    → IsReady s ts
    → IsReady (record s { flags = flags }) ts
flags-IsReady s flags ts v = record {
  ring = v.ring;
  ascending = v.ascending;
  below = v.below;
  no_init = v.no_init;
  count = v.count;
  few = v.few;
  head_last = v.head_last;
}

-- What follows when no request is in use.
go_on :
    (vrun_time : ℕ → ℕ) (tsk : ℕ) (ts xs : List ℕ) (s : Disk)
    → s.in_using ≡ 0
    → IsRing s.links disk_queue xs
    → s.block_request_count ≡ length xs
    → length xs < 2 ^ 63
    → 0 ∉ xs
    → CanIssue s.cmd s.answers xs
    → IsReady s.sched (insert vrun_time tsk ts)
    → s.sched.state tsk ≡ task_running
    → Gives
        (Ended vrun_time tsk ts xs s.events)
        (if s.block_request_count == 0 then some s else cmd_out s)
go_on vrun_time tsk ts [] s free ring count few no_null next ready running =
    let none_left : (s.block_request_count == 0) ≡ true = ground (arith, count) in
    rw none_left (record {
      ready = ready;
      running = running;
      queue = (
        record {
          ring = ring;
          active = free;
          count = count;
          few = few;
          idle = λ e. refl;
          no_null = no_null;
        },
        refl,
      );
    })
go_on vrun_time tsk ts (x ∷ xs) s free ring count few no_null next ready running =
    let some_left : (s.block_request_count == 0) ≡ false = ground (arith, count) in
    rw (some_left, cmd_out-issued s x next.0 ring.links.0 next.1)
      (record {
        ready = ready;
        running = running;
        queue = (issued-IsQueue s x xs next.0 ring count few no_null, refl);
      })

pub end_request-Ended :
    (fuel : ℕ) (s : Disk) (now node : ℕ) (ts xs : List ℕ)
    → IsQueue s now xs
    → IsReady s.sched ts
    → CanEnd s node ts fuel
    → CanIssue s.cmd s.answers xs
    → Gives (Ended s.sched.vrun_time (s.tsk node) ts xs s.events) (end_request fuel node s)
unfolding end_request
end_request-Ended fuel s now node ts xs q v can next =
    let tsk = s.tsk node in
    let t = set_state s.sched tsk task_running in
    let (sched, e, ready, same) =
      insert_task_queue-IsReady fuel t tsk ts (set_state-IsReady s.sched tsk task_running ts v)
        can.0 can.1 can.2 can.3 in
    let flags = update sched.flags tsk (bit_or (sched.flags tsk) need_schedule) in
    let left : Disk = record s { sched = record sched { flags = flags }; in_using = 0 } in
    rw (end_request, e)
      (go_on s.sched.vrun_time tsk ts xs left refl q.ring q.count q.few q.no_null next
        (flags-IsReady sched flags (insert s.sched.vrun_time tsk ts) ready)
        (ap (λ (z : Sched). z.state tsk) same ∙ update_self s.sched.state tsk task_running))
