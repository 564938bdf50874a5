-- ===== src/Spin/Tests.antt =====
-- Two processors at one spin lock, and the theorems about it.
use kalinote_os.Base.{ℕ, zero, ◌^◌, ◌≤◌, ◌≡◌, ◌⊎◌, List, [], ◌∷◌, refl, arith}
use kalinote_os.Spin.{
  Phase, Spin, load, enter, decq, Reach, here, next, spin_init, lock_load, lock_enter, lock_decq,
  spin_trylock,
}
use kalinote_os.Spin.Exclusion.{IsIdle, spin_lock-exclusive, spin_lock-progress}

abbrev two : List ℕ
two = 0 ∷ 1 ∷ []

abbrev idle : Spin
idle = record { lock = 7; preempt_count = 0; register = λ p. 0; phase = λ p. Phase.outside }

idle-IsIdle : IsIdle idle
idle-IsIdle = record { all = λ p. refl }

-- The first one takes the lock, the second one waits.
abbrev contended : Spin
contended =
    lock_decq 1
      (lock_enter 1 (lock_load 1 (lock_decq 0 (lock_enter 0 (lock_load 0 (spin_init idle))))))

contended-Reach : Reach two (spin_init idle) contended
unfolding lock_decq lock_enter lock_load spin_init
contended-Reach =
    let first = next (next (next here (load 0 refl refl)) (enter 0 refl refl)) (decq 0 refl refl) in
    next (next (next first (load 1 refl refl)) (enter 1 refl refl)) (decq 1 refl refl)

-- Both read the count before one of them writes it: one increment is lost.
count_lost :
    (lock_enter 1 (lock_enter 0 (lock_load 1 (lock_load 0 (spin_init idle))))).preempt_count ≡ 1
unfolding lock_enter lock_load spin_init
count_lost = refl

first_holds : contended.phase 0 ≡ Phase.holding
unfolding lock_decq lock_enter lock_load spin_init
first_holds = refl

second_waits : contended.phase 1 ≡ Phase.waiting
unfolding lock_decq lock_enter lock_load spin_init
second_waits = refl

spin_lock-exclusive_example : (zero ≡ 0) × ((contended.lock ≡ 0) ⊎ (2 ^ 63 ≤ contended.lock))
spin_lock-exclusive_example =
    spin_lock-exclusive two (refl, (refl, tt)) (omega arith) idle contended 0 0 idle-IsIdle
      contended-Reach refl refl first_holds first_holds

spin_lock-progress_example : (u : Spin) × Reach two contended u × (u.phase 1 ≡ Phase.holding)
spin_lock-progress_example =
    spin_lock-progress two (refl, (refl, tt)) (omega arith) idle contended 1 idle-IsIdle
      contended-Reach refl second_waits

-- `spin_trylock` while the first one holds the lock and the second one waits: it is taken again.
trylock_taken_twice :
    ((spin_trylock 2 contended).1.phase 0 ≡ Phase.holding)
    × ((spin_trylock 2 contended).1.phase 2 ≡ Phase.holding)
unfolding lock_decq lock_enter lock_load spin_init spin_trylock
trylock_taken_twice = (refl, refl)
