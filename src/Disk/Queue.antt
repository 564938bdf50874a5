-- ===== src/Disk/Queue.antt =====
-- `submit` of os/driver/disk.c: requests are issued in the order in which they come.
use kalinote_os.Base.{
  ℕ, suc, ◌^◌, ◌<◌, ◌≡◌, inl, inr, Bool, true, false, List, [], ◌∷◌, ◌++◌, arith, refl, ◌∙◌, ap,
  some, ◌==◌, Bool-cases, ◌∉◌, length, Gives, has-append_no, length-append,
}
use kalinote_os.Links.Ring.{IsRing}
use kalinote_os.Links.Laws.{list_add_to_before-IsRing}
use kalinote_os.Disk.{Disk, disk_queue, add_request, cmd_out, submit}
use kalinote_os.Disk.Issue.{IsQueue, drive_waits, issued_events, cmd_out-issued, issued-IsQueue}

-- The requests and the tasks are as they were.
pub record SameRequests (s s' : Disk) : Type 0 where
  pub cmd : s'.cmd ≡ s.cmd
  pub lba : s'.lba ≡ s.lba
  pub count : s'.count ≡ s.count
  pub buffer : s'.buffer ≡ s.buffer
  pub handler : s'.end_handler ≡ s.end_handler
  pub tsk : s'.tsk ≡ s.tsk
  pub sched : s'.sched ≡ s.sched

-- The request goes to the drive at once, or waits behind all others.
abbrev pub Submitted : Disk → (now : ℕ) → (xs : List ℕ) → (node : ℕ) → Bool → Disk → Type 0
Submitted s now xs node true s' =
    IsQueue s' node [] × (s'.events ≡ issued_events s node) × SameRequests s s'
Submitted s now xs node false s' =
    IsQueue s' now (xs ++ (node ∷ [])) × (s'.events ≡ s.events) × SameRequests s s'

-- For a new request, and a drive that gets ready for it, `submit` comes to an end: if no request is in
-- use this one is, and its command is written to the drive; else it waits behind all others, and
-- nothing is written. The requests stay as they are.
pub submit-Submitted :
    (s : Disk) (now : ℕ) (xs : List ℕ) (node : ℕ) (rest : List ℕ)
    → IsQueue s now xs
    → node ∉ (disk_queue ∷ xs)
    → 0 ∉ (node ∷ [])
    → suc (length xs) < 2 ^ 63
    → drive_waits (s.cmd node) s.answers ≡ some rest
    → Gives (Submitted s now xs node (now == 0)) (submit node s)
unfolding submit
submit-Submitted s now xs node rest q out no_null few waits = elim (Bool-cases (now == 0)) [
  | inl e ↦ rw (submit, in_use e, e) (first xs q (q.idle e) out)
  | inr e ↦
      rw (submit, in_use e, e)
        (
          last e,
          refl,
          record {
            cmd = refl;
            lba = refl;
            count = refl;
            buffer = refl;
            handler = refl;
            tsk = refl;
            sched = refl;
          },
        )
]
  where
    in_use : {b : Bool} → (now == 0) ≡ b → (s.in_using == 0) ≡ b
    in_use e = ap (λ z. z == 0) q.active ∙ e

    added :
        (ys : List ℕ)
        → IsQueue s now ys
        → node ∉ (disk_queue ∷ ys)
        → IsRing (add_request node s).links disk_queue (ys ++ (node ∷ []))
    added ys v o = list_add_to_before-IsRing s.links disk_queue node ys v.ring o

    counted :
        (ys : List ℕ)
        → IsQueue s now ys
        → (add_request node s).block_request_count ≡ length (ys ++ (node ∷ []))
    counted ys v = omega (arith, v.count, v.few, length-append ys (node ∷ []))

    last : (now == 0) ≡ false → IsQueue (add_request node s) now (xs ++ (node ∷ []))
    last e = record {
      ring = added xs q out;
      active = q.active;
      count = counted xs q;
      few = omega (arith, few, length-append xs (node ∷ []));
      idle = λ t. absurd (ground (arith, e, t));
      no_null = has-append_no 0 xs (node ∷ []) q.no_null no_null;
    }

    first :
        (ys : List ℕ)
        → IsQueue s now ys
        → ys ≡ []
        → node ∉ (disk_queue ∷ ys)
        → Gives (Submitted s now ys node true) (cmd_out (add_request node s))
    first [] v e o =
        let ring = added [] v o in
        rw (cmd_out-issued (add_request node s) node rest ring.links.0 waits) (
          issued-IsQueue (add_request node s) node [] rest ring (counted [] v) (omega arith)
              no_null,
          refl,
          record {
            cmd = refl;
            lba = refl;
            count = refl;
            buffer = refl;
            handler = refl;
            tsk = refl;
            sched = refl;
          },
        )
    first (y ∷ ys) v e o = absurd (cc e)
