-- ===== src/Disk/Read.antt =====
-- A read of several sectors in os/driver/disk.c: one interrupt for each of them.
use mathlib.Core.List.{append_assoc}
use mathlib.Core.Path.{subst}
use Prim.Native.Nat.{bit_and}
use kalinote_os.Base.{
  ℕ, zero, suc, ◌+◌, ◌-◌, ◌%◌, ◌^◌, ◌<◌, ◌≡◌, true, false, List, [], ◌∷◌, ◌++◌, arith, refl, ◌∙◌,
  ap, Option, none, some, ◌==◌, if◌then◌else◌, length, update_self, Gives, All,
}
use kalinote_os.Sched.Ready.{IsReady}
use kalinote_os.Disk.{
  Disk, Event, receive, Handler, status_error, note, end_request, check_error, count_down,
  next_sector, handle, disk_handler,
}
use kalinote_os.Disk.Issue.{IsQueue}
use kalinote_os.Disk.Serve.{CanIssue, CanEnd, Ended, end_request-Ended}

-- Several interrupts, one after the other.
abbrev pub interrupts : (fuel n : ℕ) → Disk → Option Disk
interrupts fuel zero s = some s
interrupts fuel (suc n) s = elim (disk_handler fuel s) [
  | none ↦ none
  | some s' ↦ interrupts fuel n s'
]

-- Sectors that go to the places in a buffer one behind the other.
abbrev pub receives : (buffer n : ℕ) → List Event
receives buffer zero = []
receives buffer (suc n) = receive buffer ∷ receives (buffer + 512) n

-- The state when a sector is read and counted.
abbrev counted : Disk → List ℕ → Disk
counted s left =
    count_down s.in_using (note (receive (s.buffer s.in_using) ∷ []) (record s { answers = left }))

disk_handler-read :
    (fuel : ℕ) (s : Disk) (a : ℕ) (left : List ℕ)
    → (s.in_using == 0) ≡ false
    → s.end_handler s.in_using ≡ Handler.read_handler
    → s.answers ≡ a ∷ left
    → (bit_and a status_error == 0) ≡ true
    → disk_handler fuel s ≡ (
        if (s.count s.in_using + 2 ^ 32 - 1) % 2 ^ 32 == 0
        then end_request fuel s.in_using (counted s left)
        else some (next_sector s.in_using (counted s left)))
unfolding disk_handler handle check_error
disk_handler-read fuel s a left used handler first ok =
    rw
      (
        disk_handler,
        used,
        handler,
        handle,
        check,
        update_self s.count s.in_using ((s.count s.in_using + 2 ^ 32 - 1) % 2 ^ 32),
      )
      refl
  where
    check :
        check_error (receive (s.buffer s.in_using) ∷ []) s
        ≡ some (note (receive (s.buffer s.in_using) ∷ []) (record s { answers = left }))
    check = rw (check_error, first, ok) refl

-- The queue does not change with the count and the buffer of the request in use.
read-IsQueue :
    (s : Disk) (now : ℕ) (xs left : List ℕ) (events : List Event) (count buffer : ℕ → ℕ)
    → IsQueue s now xs
    → IsQueue (record s { answers = left; events = events; count = count; buffer = buffer }) now xs
read-IsQueue s now xs left events count buffer q = record {
  ring = q.ring;
  active = q.active;
  count = q.count;
  few = q.few;
  idle = q.idle;
  no_null = q.no_null;
}

-- A read of `c + 1` sectors that is in use, on a drive that reports no error, takes as many
-- interrupts: each puts the next sector behind the one before in the buffer, and with the last one
-- the task of the request is ready and the next request, if one waits, is in use and its command
-- written to the drive.
pub interrupts-Ended :
    (fuel c : ℕ) (s : Disk) (ts xs statuses tail : List ℕ)
    → (s.in_using == 0) ≡ false
    → IsQueue s s.in_using xs
    → IsReady s.sched ts
    → CanEnd s s.in_using ts fuel
    → s.end_handler s.in_using ≡ Handler.read_handler
    → s.count s.in_using ≡ suc c
    → suc c < 2 ^ 32
    → s.answers ≡ statuses ++ tail
    → length statuses ≡ suc c
    → All (λ a. (bit_and a status_error == 0) ≡ true) statuses
    → CanIssue s.cmd tail xs
    → Gives
        (Ended s.sched.vrun_time
          (s.tsk s.in_using)
          ts
          xs
          (s.events ++ receives (s.buffer s.in_using) (suc c)))
        (interrupts fuel (suc c) s)
interrupts-Ended fuel c s ts xs [] tail used q v can handler count small first long ok next =
    absurd (omega (arith, long))
interrupts-Ended fuel zero s ts xs (a ∷ b ∷ as') tail used q v can handler count small first long ok
      next =
    absurd (omega (arith, long))
interrupts-Ended fuel zero s ts xs (a ∷ []) tail used q v can handler count small first long ok
      next =
    let last : ((s.count s.in_using + 2 ^ 32 - 1) % 2 ^ 32 == 0) ≡ true = ground (arith, count) in
    rw (interrupts, disk_handler-read fuel s a tail used handler first ok.0, last)
      (once
        (Ended s.sched.vrun_time (s.tsk s.in_using) ts xs
          (s.events ++ receives (s.buffer s.in_using) 1))
        (end_request fuel s.in_using (counted s tail))
        (end_request-Ended fuel (counted s tail) s.in_using s.in_using ts xs
          (read-IsQueue s s.in_using xs tail (counted s tail).events (counted s tail).count s.buffer
            q)
          v can next))
  where
    once :
        (P : Disk → Type 0) (o : Option Disk)
        → Gives P o
        → Gives P (elim o [ none ↦ none | some s' ↦ interrupts fuel zero s' ])
    once P none g = g
    once P (some s') g = g
interrupts-Ended fuel (suc c) s ts xs (a ∷ statuses) tail used q v can handler count small first
      long ok next =
    let more : ((s.count s.in_using + 2 ^ 32 - 1) % 2 ^ 32 == 0) ≡ false =
      ground (arith, count, small) in
    let s' = next_sector s.in_using (counted s (statuses ++ tail)) in
    let left : s'.count s.in_using ≡ suc c =
      update_self s.count s.in_using ((s.count s.in_using + 2 ^ 32 - 1) % 2 ^ 32)
      ∙ omega (arith, count, small) in
    let events : s'.events ++ receives (s'.buffer s.in_using) (suc c)
        ≡ s.events ++ receives (s.buffer s.in_using) (suc (suc c)) =
      ap (λ z. s'.events ++ receives z (suc c))
        (update_self s.buffer s.in_using (s.buffer s.in_using + 512))
      ∙ append_assoc s.events (receive (s.buffer s.in_using) ∷ [])
          (receives (s.buffer s.in_using + 512) (suc c)) in
    rw (interrupts, disk_handler-read fuel s a (statuses ++ tail) used handler first ok.0, more)
      (subst
        (λ E.
          Gives (Ended s.sched.vrun_time (s.tsk s.in_using) ts xs E) (interrupts fuel (suc c) s'))
        events
        (interrupts-Ended fuel c s' ts xs statuses tail used
          (read-IsQueue s s.in_using xs (statuses ++ tail) s'.events s'.count s'.buffer q) v can
          handler left (omega (arith, small)) refl (omega (arith, long)) ok.1 next))
