-- ===== src/Softirq.antt =====
-- os/kernel/softirq.c: the 64 soft interrupts. `status` is the word `softirq_status` bit by bit; an
-- action is the address of its function.
pub mod Dispatch
mod Tests
use kalinote_os.Base.{
  ℕ, zero, suc, ◌+◌, ◌%◌, Bool, true, false, ◌&&◌, ◌||◌, not, ltb, leb, ◌==◌, if◌then◌else◌, update,
}

pub record Softirq : Type 0 where
  pub status : ℕ → Bool
  pub action : ℕ → ℕ
  pub argument : ℕ → ℕ

pub set_softirq_status : Softirq → (ℕ → Bool) → Softirq
set_softirq_status s status = record s { status = λ b. s.status b || status b }

pub register_softirq : Softirq → ℕ → ℕ → ℕ → Softirq
register_softirq s nr action argument = record s {
  action = update s.action nr action;
  argument = update s.argument nr argument;
}

pub unregister_softirq : Softirq → ℕ → Softirq
unregister_softirq s nr = record s {
  action = update s.action nr 0;
  argument = update s.argument nr 0;
}

pub softirq_init : Softirq → Softirq
softirq_init s = record s { status = λ b. false; action = λ i. 0; argument = λ i. 0 }

-- A word is not 0.
pub any : (ℕ → Bool) → ℕ → Bool
any bits zero = false
any bits (suc n) = bits n || any bits n

-- `1 << i` as the processor shifts an `int`, by `i % 32`, widened to 64 bits with its sign.
pub mask : ℕ → ℕ → Bool
mask i b = if i % 32 == 31 then leb 31 b else b == i % 32

-- `call` is the indirect call `action(data)`: it may change the soft interrupts and the rest of the
-- kernel, `W`.
module _ {W : Type 0} (call : ℕ → ℕ → Softirq × W → Softirq × W) where
  -- The call for the bit `i`, and the bit cleared in what it left.
  pub serve : ℕ → Softirq × W → Softirq × W
  serve i (s, w) =
      let (s', w') = call (s.action i) (s.argument i) (s, w) in
      (record s' { status = λ b. s'.status b && not (mask i b) }, w')

  -- The loop from `i`, with `left` rounds left.
  pub serve_from : ℕ → ℕ → Softirq × W → Softirq × W
  serve_from i zero sw = sw
  serve_from i (suc left) (s, w) =
      let sw' = if any (λ b. s.status b && mask i b) 64 then serve i (s, w) else (s, w) in
      let rest = serve_from (i + 1) left sw' in if any s.status 64 then rest else (s, w)

  pub do_softirq : Softirq × W → Softirq × W
  do_softirq sw = serve_from 0 64 sw
