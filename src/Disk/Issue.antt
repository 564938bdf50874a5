-- ===== src/Disk/Issue.antt =====
-- `cmd_out` of os/driver/disk.c on a queue that is not empty.
use mathlib.Core.Option.{some-injective}
use kalinote_os.Base.{
  ℕ, ◌^◌, ◌<◌, ◌≡◌, inl, inr, true, List, [], ◌∷◌, ◌++◌, arith, refl, ◌∙◌, ap, Option, none, some,
  ◌==◌, if◌then◌else◌, Bool-cases, ◌∉◌, length,
}
use kalinote_os.Links.{list_del}
use kalinote_os.Links.Ring.{IsRing, list_next_lem}
use kalinote_os.Links.Laws.{list_del-IsRing}
use kalinote_os.Sched.{sub_long}
use kalinote_os.Disk.{
  Disk, Event, out, send, disk_queue, status_cmd, status_busy, status_ready, status_req,
  ata_write_cmd, ata_read_cmd, get_identify_disk_cmd, until_clear, until_set, lba48_outs,
  lba28_outs, give_command, send_sector, command, start, cmd_out, note,
}

-- The loops of a command on what the drive answers.
abbrev pub command_waits : (cmd : ℕ) → List ℕ → Option (List ℕ)
command_waits cmd answers =
    if cmd == ata_write_cmd
    then (elim (until_set status_ready answers) [
      | none ↦ none
      | some rest ↦ until_set status_req rest
    ])
    else if cmd == ata_read_cmd
    then until_set status_ready answers
    else if cmd == get_identify_disk_cmd
    then until_set status_ready answers
    else some answers

abbrev pub drive_waits : (cmd : ℕ) → List ℕ → Option (List ℕ)
drive_waits cmd answers = elim (until_clear status_busy answers) [
  | none ↦ none
  | some rest ↦ command_waits cmd rest
]

-- The events of a command, behind those before.
abbrev pub issued_events : Disk → ℕ → List Event
issued_events s node =
    if s.cmd node == ata_write_cmd
    then (s.events
        ++ (lba48_outs (s.count node) (s.lba node) ++ (out status_cmd (s.cmd node) ∷ [])))
      ++ (send (s.buffer node) ∷ [])
    else if s.cmd node == ata_read_cmd
    then s.events ++ (lba48_outs (s.count node) (s.lba node) ++ (out status_cmd (s.cmd node) ∷ []))
    else if s.cmd node == get_identify_disk_cmd
    then s.events ++ (lba28_outs (s.count node) (s.lba node) ++ (out status_cmd (s.cmd node) ∷ []))
    else s.events

give_command-gives :
    (node : ℕ) (registers : List Event) (s : Disk) (rest : List ℕ)
    → until_set status_ready s.answers ≡ some rest
    → give_command node registers s
      ≡ some (note (registers ++ (out status_cmd (s.cmd node) ∷ [])) (record s { answers = rest }))
unfolding give_command
give_command-gives node registers s rest e = rw (give_command, e) refl

command-gives :
    (node : ℕ) (s : Disk) (rest : List ℕ)
    → command_waits (s.cmd node) s.answers ≡ some rest
    → command node s ≡ some (record s { answers = rest; events = issued_events s node })
unfolding command send_sector
command-gives node s rest = elim (Bool-cases (s.cmd node == ata_write_cmd)) [
  | inl w ↦ rw (command, w) (λ e. written (until_set status_ready s.answers) refl e)
  | inr w ↦ elim (Bool-cases (s.cmd node == ata_read_cmd)) [
    | inl r ↦
        rw (command, w, r) (give_command-gives node (lba48_outs (s.count node) (s.lba node)) s rest)
    | inr r ↦ elim (Bool-cases (s.cmd node == get_identify_disk_cmd)) [
      | inl i ↦
          rw (command, w, r, i)
            (give_command-gives node (lba28_outs (s.count node) (s.lba node)) s rest)
      | inr i ↦ rw (command, w, r, i) (λ e. as_is e)
    ]
  ]
]
  where
    as_is :
        some s.answers ≡ some rest → some s ≡ some (record s { answers = rest; events = s.events })
    as_is e =
        ap (λ (z : List ℕ). some (record s { answers = z; events = s.events }))
          (some-injective s.answers rest e)

    written :
        (o : Option (List ℕ))
        → until_set status_ready s.answers ≡ o
        → (elim o as (λ x. Option (List ℕ)) [ none ↦ none | some left ↦ until_set status_req left ])
          ≡ some rest
        → (elim (give_command node (lba48_outs (s.count node) (s.lba node)) s)
            as (λ x. Option Disk) [ none ↦ none | some s' ↦ send_sector node s' ])
          ≡ some (record s {
            answers = rest;
            events =
                (s.events
                  ++ (lba48_outs (s.count node) (s.lba node) ++ (out status_cmd (s.cmd node) ∷ [])))
                ++ (send (s.buffer node) ∷ []);
          })
    written none e g = absurd (cc g)
    written (some left) e g =
        rw
          (
            give_command-gives node (lba48_outs (s.count node) (s.lba node)) s left e,
            send_sector,
            g,
          )
          refl

-- The request in use, 0 if there is none, and those that wait, in order.
pub record IsQueue (s : Disk) (now : ℕ) (xs : List ℕ) : Type 0 where
  pub ring : IsRing s.links disk_queue xs
  pub active : s.in_using ≡ now
  pub count : s.block_request_count ≡ length xs
  pub few : length xs < 2 ^ 63
  pub idle : (now == 0) ≡ true → xs ≡ []
  pub no_null : 0 ∉ xs

-- The state after `cmd_out` of `node`.
abbrev pub issued : Disk → ℕ → List ℕ → Disk
issued s node rest = record s {
  links = list_del s.links node;
  in_using = node;
  block_request_count = sub_long s.block_request_count 1;
  answers = rest;
  events = issued_events s node;
}

-- The first request is issued when the drive is ready for it.
pub cmd_out-issued :
    (s : Disk) (node : ℕ) (rest : List ℕ)
    → s.links.next disk_queue ≡ node
    → drive_waits (s.cmd node) s.answers ≡ some rest
    → cmd_out s ≡ some (issued s node rest)
unfolding cmd_out start
cmd_out-issued s node rest first waits =
    ap (λ n. start n s) (list_next_lem s.links disk_queue ∙ first)
    ∙ go (until_clear status_busy s.answers) waits
  where
    go :
        (o : Option (List ℕ))
        → (elim o as (λ x. Option (List ℕ)) [
          | none ↦ none
          | some left ↦ command_waits (s.cmd node) left
        ])
          ≡ some rest
        → (elim o as (λ x. Option Disk) [
          | none ↦ none
          | some left ↦ command node (record s {
            links = list_del s.links node;
            in_using = node;
            block_request_count = sub_long s.block_request_count 1;
            answers = left;
          })
        ])
          ≡ some (issued s node rest)
    go none g = absurd (cc g)
    go (some left) g =
        command-gives node
          (record s {
            links = list_del s.links node;
            in_using = node;
            block_request_count = sub_long s.block_request_count 1;
            answers = left;
          })
          rest g

-- It leaves the others in their order.
pub issued-IsQueue :
    (s : Disk) (x : ℕ) (xs rest : List ℕ)
    → IsRing s.links disk_queue (x ∷ xs)
    → s.block_request_count ≡ length (x ∷ xs)
    → length (x ∷ xs) < 2 ^ 63
    → 0 ∉ (x ∷ xs)
    → IsQueue (issued s x rest) x xs
issued-IsQueue s x xs rest ring count few no_null = record {
  ring = list_del-IsRing s.links disk_queue x [] xs ring;
  active = refl;
  count = omega (arith, count, few);
  few = omega (arith, few);
  idle = λ e. absurd (ground (arith, e, no_null));
  no_null = ground (arith, no_null);
}
