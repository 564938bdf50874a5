-- ===== src/Spin/Word.antt =====
-- What the lock word of os/include/spinlock.h says of the processors, in every order of their steps.
use mathlib.Core.Path.{subst}
use kalinote_os.Base.{
  ℕ, ◌+◌, ◌-◌, ◌%◌, ◌^◌, ◌≤◌, ◌<◌, ◌≡◌, ◌≢◌, ◌⊎◌, inl, inr, true, ◌||◌, List, length, arith, refl,
  ◌==◌, Bool-cases, has, Distinct, update, sum_of, sum_of-update_map, sum_of-length,
}
use kalinote_os.Spin.{
  Phase, Spin, go, lock_load, lock_enter, lock_decq, lock_pause, spin_unlock, unlock_load,
  unlock_leave, sign_flag,
}

abbrev pub holds : Phase → ℕ
holds Phase.outside = 0
holds Phase.raising = 0
holds Phase.trying = 0
holds Phase.waiting = 0
holds Phase.holding = 1
holds Phase.leaving = 0
holds Phase.lowering = 0

abbrev pub waits : Phase → ℕ
waits Phase.outside = 0
waits Phase.raising = 0
waits Phase.trying = 0
waits Phase.waiting = 1
waits Phase.holding = 0
waits Phase.leaving = 0
waits Phase.lowering = 0

abbrev pub number_of : (Phase → ℕ) → Spin → List ℕ → ℕ
number_of w s cpus = sum_of (λ p. w (s.phase p)) cpus

-- The word is 1 while the lock is free. While it is held the word counts down from 0, at most once
-- for each processor that waits.
pub record IsLock (s : Spin) (cpus : List ℕ) : Type 0 where
  pub one : number_of holds s cpus ≤ 1
  pub free : number_of holds s cpus ≡ 0 → s.lock ≡ 1
  pub held :
      number_of holds s cpus ≡ 1
      → (s.lock ≡ 0) ⊎ ((2 ^ 64 ≤ s.lock + number_of waits s cpus) × (s.lock < 2 ^ 64))

waits-le : (p : Phase) → waits p ≤ 1
waits-le Phase.outside = omega arith
waits-le Phase.raising = omega arith
waits-le Phase.trying = omega arith
waits-le Phase.waiting = omega arith
waits-le Phase.holding = omega arith
waits-le Phase.leaving = omega arith
waits-le Phase.lowering = omega arith

module _ (cpus : List ℕ) (distinct : Distinct cpus) (few : length cpus < 2 ^ 63) where
  -- The numbers after the processor `p` went on from `old` to `new`.
  moved :
      (w : Phase → ℕ) (s : Spin) (p : ℕ) (old new : Phase)
      → has p cpus ≡ true
      → s.phase p ≡ old
      → sum_of (λ q. w (update s.phase p new q)) cpus + w old ≡ number_of w s cpus + w new
  moved w s p old new h e =
      subst (λ z. sum_of (λ q. w (update s.phase p new q)) cpus + w z ≡ number_of w s cpus + w new)
        e (sum_of-update_map w s.phase p new cpus distinct h)

  pub few_waiting : (f : ℕ → Phase) → sum_of (λ q. waits (f q)) cpus < 2 ^ 63
  few_waiting f = omega (arith, sum_of-length (λ q. waits (f q)) cpus (λ q. waits-le (f q)), few)

  -- A step that changes the count, and goes on outside of the loop and of the lock.
  count-IsLock :
      (s : Spin) (p count : ℕ) (register : ℕ → ℕ) (old new : Phase)
      → has p cpus ≡ true
      → s.phase p ≡ old
      → (holds old ≡ 0) × (waits old ≡ 0)
      → (holds new ≡ 0) × (waits new ≡ 0)
      → IsLock s cpus
      → IsLock (go p new (record s { preempt_count = count; register = register })) cpus
  count-IsLock s p count register old new h e from to i =
      let mh = moved holds s p old new h e in
      let mw = moved waits s p old new h e in
      record {
        one = omega (arith, mh, from, to, i.one);
        free = λ z. i.free (omega (arith, mh, from, to, z));
        held = λ z. grind (arith, mh, mw, from, to, z, i.held);
      }

  pub lock_load-IsLock :
      (s : Spin) (p : ℕ)
      → has p cpus ≡ true
      → s.phase p ≡ Phase.outside
      → IsLock s cpus
      → IsLock (lock_load p s) cpus
  unfolding lock_load
  lock_load-IsLock s p h e =
      count-IsLock s p _ _ Phase.outside Phase.raising h e (refl, refl) (refl, refl)

  pub lock_enter-IsLock :
      (s : Spin) (p : ℕ)
      → has p cpus ≡ true
      → s.phase p ≡ Phase.raising
      → IsLock s cpus
      → IsLock (lock_enter p s) cpus
  unfolding lock_enter
  lock_enter-IsLock s p h e =
      count-IsLock s p _ _ Phase.raising Phase.trying h e (refl, refl) (refl, refl)

  pub unlock_load-IsLock :
      (s : Spin) (p : ℕ)
      → has p cpus ≡ true
      → s.phase p ≡ Phase.leaving
      → IsLock s cpus
      → IsLock (unlock_load p s) cpus
  unfolding unlock_load
  unlock_load-IsLock s p h e =
      count-IsLock s p _ _ Phase.leaving Phase.lowering h e (refl, refl) (refl, refl)

  pub unlock_leave-IsLock :
      (s : Spin) (p : ℕ)
      → has p cpus ≡ true
      → s.phase p ≡ Phase.lowering
      → IsLock s cpus
      → IsLock (unlock_leave p s) cpus
  unfolding unlock_leave
  unlock_leave-IsLock s p h e =
      count-IsLock s p _ _ Phase.lowering Phase.outside h e (refl, refl) (refl, refl)

  pub lock_decq-IsLock :
      (s : Spin) (p : ℕ)
      → has p cpus ≡ true
      → s.phase p ≡ Phase.trying
      → IsLock s cpus
      → IsLock (lock_decq p s) cpus
  unfolding lock_decq
  lock_decq-IsLock s p h e i =
      let word = (s.lock + 2 ^ 64 - 1) % 2 ^ 64 in
      elim (Bool-cases (sign_flag word)) [
        | inl low ↦
            let mh = moved holds s p Phase.trying Phase.waiting h e in
            let mw = moved waits s p Phase.trying Phase.waiting h e in
            let neg : 2 ^ 63 ≤ word = ground (arith, low) in
            let taken : number_of holds s cpus ≢ 0 = λ z. omega (arith, i.free z, neg) in
            rw low (record {
              one = omega (arith, mh, i.one);
              free = λ z. absurd (taken (omega (arith, mh, z)));
              held = λ z.
                  below s.lock (number_of waits s cpus) _ mw (few_waiting s.phase)
                    (i.held (omega (arith, mh, z)));
            })
        | inr high ↦
            let mh = moved holds s p Phase.trying Phase.holding h e in
            let pos : word < 2 ^ 63 = ground (arith, high) in
            let free : number_of holds s cpus ≡ 0 =
              not_held s.lock (number_of holds s cpus) (number_of waits s cpus) i.one pos
                (few_waiting s.phase) i.held in
            rw high (record {
              one = omega (arith, mh, free);
              free = λ z. absurd (omega (arith, mh, z, free));
              held = λ z. inl (omega (arith, i.free free));
            })
      ]
    where
      below :
          (lock w w' : ℕ)
          → w' + 0 ≡ w + 1
          → w < 2 ^ 63
          → (lock ≡ 0) ⊎ ((2 ^ 64 ≤ lock + w) × (lock < 2 ^ 64))
          → ((lock + 2 ^ 64 - 1) % 2 ^ 64 ≡ 0)
            ⊎ ((2 ^ 64 ≤ (lock + 2 ^ 64 - 1) % 2 ^ 64 + w')
                × ((lock + 2 ^ 64 - 1) % 2 ^ 64 < 2 ^ 64))
      below lock w w' m f (inl z) = inr (omega (arith, m, z), omega (arith, m, z))
      below lock w w' m f (inr (l, r)) = inr (omega (arith, m, l, r, f), omega (arith, l, r))

      not_held :
          (lock held waiting : ℕ)
          → held ≤ 1
          → (lock + 2 ^ 64 - 1) % 2 ^ 64 < 2 ^ 63
          → waiting < 2 ^ 63
          → (held ≡ 1 → (lock ≡ 0) ⊎ ((2 ^ 64 ≤ lock + waiting) × (lock < 2 ^ 64)))
          → held ≡ 0
      not_held lock held waiting one pos f h = elim (Bool-cases (held == 0)) [
        | inl z ↦ ground (arith, z)
        | inr n ↦ elim (h (ground (arith, n, one))) [
          | inl z ↦ absurd (omega (arith, z, pos))
          | inr (l, r) ↦ absurd (omega (arith, l, r, pos, f))
        ]
      ]

  pub lock_pause-IsLock :
      (s : Spin) (p : ℕ)
      → has p cpus ≡ true
      → s.phase p ≡ Phase.waiting
      → IsLock s cpus
      → IsLock (lock_pause p s) cpus
  unfolding lock_pause
  lock_pause-IsLock s p h e i = elim (Bool-cases ((s.lock == 0) || sign_flag s.lock)) [
    | inl low ↦
        let mh = moved holds s p Phase.waiting Phase.waiting h e in
        let mw = moved waits s p Phase.waiting Phase.waiting h e in
        rw low (record {
          one = omega (arith, mh, i.one);
          free = λ z. i.free (omega (arith, mh, z));
          held = λ z. grind (arith, mh, mw, z, i.held);
        })
    | inr high ↦
        let mh = moved holds s p Phase.waiting Phase.trying h e in
        let nz : s.lock ≢ 0 = ground (arith, high) in
        let pos : s.lock < 2 ^ 63 = ground (arith, high) in
        let free : number_of holds s cpus ≢ 1 = λ z. elim (i.held z) [
          | inl n ↦ nz n
          | inr (l, r) ↦ omega (arith, l, pos, few_waiting s.phase)
        ] in
        rw high (record {
          one = omega (arith, mh, i.one);
          free = λ z. i.free (omega (arith, mh, z));
          held = λ z. absurd (free (omega (arith, mh, z)));
        })
  ]

  pub spin_unlock-IsLock :
      (s : Spin) (p : ℕ)
      → has p cpus ≡ true
      → s.phase p ≡ Phase.holding
      → IsLock s cpus
      → IsLock (spin_unlock p s) cpus
  unfolding spin_unlock
  spin_unlock-IsLock s p h e i =
      let mh = moved holds s p Phase.holding Phase.leaving h e in
      record {
        one = omega (arith, mh, i.one);
        free = λ z. refl;
        held = λ z. absurd (omega (arith, mh, z, i.one));
      }
