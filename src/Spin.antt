-- ===== src/Spin.antt =====
-- The spin lock of os/include/spinlock.h, with the preemption count of os/include/preempt.h. A
-- processor in a call is between two instructions; each definition that a step names is one
-- instruction, with the jump behind it, which no other processor can interrupt. `++` and `--` of the
-- count are not atomic: they are a load into a register of the processor and a store.
pub mod Word
pub mod Exclusion
mod Tests
use kalinote_os.Base.{
  ℕ, ◌+◌, ◌-◌, ◌%◌, ◌^◌, ◌≡◌, Bool, true, ◌||◌, List, has, ◌==◌, leb, if◌then◌else◌, update,
}

-- Outside; in `preempt_disable`; before label 1; at label 2; past label 3; and in `spin_unlock` behind
-- the write of the word, before `preempt_enable` and in it.
pub data Phase : Type 0 where
  outside : Phase
  raising : Phase
  trying : Phase
  waiting : Phase
  holding : Phase
  leaving : Phase
  lowering : Phase

-- The lock word, the count of the task of processor 0, which is the one that every processor
-- changes, the register of each processor that holds a count, and where the processors are.
pub record Spin : Type 0 where
  pub lock : ℕ
  pub preempt_count : ℕ
  pub register : ℕ → ℕ
  pub phase : ℕ → Phase

abbrev pub sign_flag : ℕ → Bool
sign_flag w = leb (2 ^ 63) w

-- The load, and the stores of `++` and of `--`.
abbrev pub count_load : ℕ → Spin → Spin
count_load p s = record s { register = update s.register p s.preempt_count }

abbrev pub count_inc : ℕ → Spin → Spin
count_inc p s = record s { preempt_count = (s.register p + 1) % 2 ^ 64 }

abbrev pub count_dec : ℕ → Spin → Spin
count_dec p s = record s { preempt_count = (s.register p + 2 ^ 64 - 1) % 2 ^ 64 }

abbrev pub go : ℕ → Phase → Spin → Spin
go p f s = record s { phase = update s.phase p f }

-- `preempt_disable` and `preempt_enable` when no other processor comes between.
abbrev pub preempt_disable : ℕ → Spin → Spin
preempt_disable p s = count_inc p (count_load p s)

abbrev pub preempt_enable : ℕ → Spin → Spin
preempt_enable p s = count_dec p (count_load p s)

pub spin_init : Spin → Spin
spin_init s = record s { lock = 1 }

-- The load of `preempt_disable` in `spin_lock`.
pub lock_load : ℕ → Spin → Spin
lock_load p s = go p Phase.raising (count_load p s)

-- Its store, up to label 1.
pub lock_enter : ℕ → Spin → Spin
lock_enter p s = go p Phase.trying (count_inc p s)

-- `lock decq; jns 3f`
pub lock_decq : ℕ → Spin → Spin
lock_decq p s =
    let word = (s.lock + 2 ^ 64 - 1) % 2 ^ 64 in
    record s {
      lock = word;
      phase = update s.phase p (if sign_flag word then Phase.waiting else Phase.holding);
    }

-- `pause; cmpq $0; jle 2b; jmp 1b`
pub lock_pause : ℕ → Spin → Spin
lock_pause p s =
    let low = (s.lock == 0) || sign_flag s.lock in
    record s { phase = update s.phase p (if low then Phase.waiting else Phase.trying) }

-- The `movq` of `spin_unlock`.
pub spin_unlock : ℕ → Spin → Spin
spin_unlock p s = go p Phase.leaving (record s { lock = 1 })

-- The load of `preempt_enable` in `spin_unlock`.
pub unlock_load : ℕ → Spin → Spin
unlock_load p s = go p Phase.lowering (count_load p s)

-- Its store, at which the call ends.
pub unlock_leave : ℕ → Spin → Spin
unlock_leave p s = go p Phase.outside (count_dec p s)

-- The whole call when no other processor comes between. What `xchgq` with 0 gave; the lock counts as
-- taken unless that is 0.
pub spin_trylock : ℕ → Spin → ℕ × Spin
spin_trylock p s =
    let s' = record (preempt_disable p s) { lock = 0 } in
    (s.lock, if s.lock == 0 then preempt_enable p s' else go p Phase.holding s')

-- A step of one of the processors. One that holds the lock may release it, one outside may ask.
pub data Step (cpus : List ℕ) (s : Spin) : Spin → Type 0 where
  load : (p : ℕ) → has p cpus ≡ true → s.phase p ≡ Phase.outside → Step cpus s (lock_load p s)
  enter : (p : ℕ) → has p cpus ≡ true → s.phase p ≡ Phase.raising → Step cpus s (lock_enter p s)
  decq : (p : ℕ) → has p cpus ≡ true → s.phase p ≡ Phase.trying → Step cpus s (lock_decq p s)
  pause : (p : ℕ) → has p cpus ≡ true → s.phase p ≡ Phase.waiting → Step cpus s (lock_pause p s)
  unlock : (p : ℕ) → has p cpus ≡ true → s.phase p ≡ Phase.holding → Step cpus s (spin_unlock p s)
  reload : (p : ℕ) → has p cpus ≡ true → s.phase p ≡ Phase.leaving → Step cpus s (unlock_load p s)
  leave : (p : ℕ) → has p cpus ≡ true → s.phase p ≡ Phase.lowering → Step cpus s (unlock_leave p s)

-- What the processors can make of `s` in any order of steps.
pub data Reach (cpus : List ℕ) (s : Spin) : Spin → Type 0 where
  here : Reach cpus s s
  next : {t u : Spin} → Reach cpus s t → Step cpus t u → Reach cpus s u
