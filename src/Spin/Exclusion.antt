-- ===== src/Spin/Exclusion.antt =====
-- At most one processor holds the spin lock of os/include/spinlock.h, and one that waits can get it.
use kalinote_os.Base.{
  ℕ, ◌^◌, ◌≤◌, ◌<◌, ◌≡◌, ◌≢◌, ◌⊎◌, inl, inr, true, List, length, arith, sym, ◌∙◌, ap, refl, ◌==◌,
  Bool-cases, has, Distinct, ==_self, update_self, update_ne, sum_of-zero, sum_of-le, sum_of-two,
  sum_of-some, All-of_has,
}
use kalinote_os.Spin.{
  Phase, Spin, Step, load, enter, decq, pause, unlock, reload, leave, Reach, here, next, spin_init,
  lock_decq, lock_pause, spin_unlock,
}
use kalinote_os.Spin.Word.{
  holds, number_of, IsLock, few_waiting, lock_load-IsLock, lock_enter-IsLock, lock_decq-IsLock,
  lock_pause-IsLock, spin_unlock-IsLock, unlock_load-IsLock, unlock_leave-IsLock,
}

-- No processor is in the lock.
pub record IsIdle (s : Spin) : Type 0 where
  pub all : (p : ℕ) → s.phase p ≡ Phase.outside

module _ (cpus : List ℕ) (distinct : Distinct cpus) (few : length cpus < 2 ^ 63) where
  Step-IsLock : {s t : Spin} → Step cpus s t → IsLock s cpus → IsLock t cpus
  Step-IsLock (load p h e) i = lock_load-IsLock cpus distinct few _ p h e i
  Step-IsLock (enter p h e) i = lock_enter-IsLock cpus distinct few _ p h e i
  Step-IsLock (decq p h e) i = lock_decq-IsLock cpus distinct few _ p h e i
  Step-IsLock (pause p h e) i = lock_pause-IsLock cpus distinct few _ p h e i
  Step-IsLock (unlock p h e) i = spin_unlock-IsLock cpus distinct few _ p h e i
  Step-IsLock (reload p h e) i = unlock_load-IsLock cpus distinct few _ p h e i
  Step-IsLock (leave p h e) i = unlock_leave-IsLock cpus distinct few _ p h e i

  Reach-IsLock : {s t : Spin} → Reach cpus s t → IsLock s cpus → IsLock t cpus
  Reach-IsLock here i = i
  Reach-IsLock (next r step) i = Step-IsLock step (Reach-IsLock r i)

  spin_init-IsLock : (s : Spin) → IsIdle s → IsLock (spin_init s) cpus
  unfolding spin_init
  spin_init-IsLock s idle =
      let none_of : (w : Phase → ℕ) → w Phase.outside ≡ 0 → number_of w s cpus ≡ 0 = λ w e.
        sum_of-zero (λ p. w (s.phase p)) cpus
          (All-of_has (λ p. w (s.phase p) ≡ 0) cpus (λ p h. ap w (idle.all p) ∙ e)) in
      record {
        one = omega (arith, none_of holds refl);
        free = λ z. refl;
        held = λ z. absurd (omega (arith, z, none_of holds refl));
      }

  -- After `spin_init` with no processor in the lock, in every order of the steps of fewer than 2^63
  -- processors: two that hold the lock are the same one, and the lock word is then 0 or negative.
  pub spin_lock-exclusive :
      (s t : Spin) (p q : ℕ)
      → IsIdle s
      → Reach cpus (spin_init s) t
      → has p cpus ≡ true
      → has q cpus ≡ true
      → t.phase p ≡ Phase.holding
      → t.phase q ≡ Phase.holding
      → (p ≡ q) × ((t.lock ≡ 0) ⊎ (2 ^ 63 ≤ t.lock))
  spin_lock-exclusive s t p q idle r h k hp hq =
      let i = Reach-IsLock r (spin_init-IsLock s idle) in
      let some_held : number_of holds t cpus ≡ 1 =
        omega (arith, sum_of-le (λ x. holds (t.phase x)) p cpus h, ap holds hp, i.one) in
      (
        elim (Bool-cases (p == q)) [
          | inl e ↦ ground (arith, e)
          | inr n ↦
              let two = sum_of-two (λ x. holds (t.phase x)) p q cpus h k (ground (arith, n)) in
              absurd (omega (arith, two, ap holds hp, ap holds hq, i.one))
        ],
        elim (i.held some_held) [
          | inl z ↦ inl z
          | inr (l, r) ↦ inr (omega (arith, l, few_waiting cpus distinct few t.phase))
        ],
      )

  -- With the word at 1, a processor that waits gets the lock in two steps.
  wait-holds :
      (s : Spin) (p : ℕ)
      → has p cpus ≡ true
      → s.phase p ≡ Phase.waiting
      → s.lock ≡ 1
      → (u : Spin) × Reach cpus s u × (u.phase p ≡ Phase.holding)
  unfolding lock_pause lock_decq
  wait-holds s p h e one =
      let tried : (lock_pause p s).phase p ≡ Phase.trying =
        rw one (update_self s.phase p Phase.trying) in
      let got : (lock_decq p (lock_pause p s)).phase p ≡ Phase.holding = rw (one, ==_self p) refl in
      (lock_decq p (lock_pause p s), next (next here (pause p h e)) (decq p h tried), got)

  Reach-trans : {s t u : Spin} → Reach cpus s t → Reach cpus t u → Reach cpus s u
  Reach-trans r here = r
  Reach-trans r (next r' step) = next (Reach-trans r r') step

  -- After `spin_init` with no processor in the lock, whatever fewer than 2^63 processors did: from
  -- every state in which a processor waits, steps lead to one in which it holds the lock.
  pub spin_lock-progress :
      (s t : Spin) (p : ℕ)
      → IsIdle s
      → Reach cpus (spin_init s) t
      → has p cpus ≡ true
      → t.phase p ≡ Phase.waiting
      → (u : Spin) × Reach cpus t u × (u.phase p ≡ Phase.holding)
  unfolding spin_unlock
  spin_lock-progress s t p idle r h e =
      let i = Reach-IsLock r (spin_init-IsLock s idle) in
      elim (Bool-cases (number_of holds t cpus == 0)) [
        | inl z ↦ wait-holds t p h e (i.free (ground (arith, z)))
        | inr n ↦
            let (q, k, nz) = sum_of-some (λ x. holds (t.phase x)) cpus (ground (arith, n)) in
            let hq : t.phase q ≡ Phase.holding = holder (t.phase q) nz in
            let ne : q ≢ p = λ c. apart (sym hq ∙ ap t.phase c ∙ e) in
            let still : (spin_unlock q t).phase p ≡ Phase.waiting =
              update_ne t.phase q p Phase.leaving ne ∙ e in
            let (u, r', g) = wait-holds (spin_unlock q t) p h still refl in
            (u, Reach-trans (next here (unlock q k hq)) r', g)
      ]
    where
      holder : (f : Phase) → holds f ≢ 0 → f ≡ Phase.holding
      holder Phase.holding n = refl
      holder Phase.outside n = absurd (n refl)
      holder Phase.raising n = absurd (n refl)
      holder Phase.leaving n = absurd (n refl)
      holder Phase.lowering n = absurd (n refl)
      holder Phase.trying n = absurd (n refl)
      holder Phase.waiting n = absurd (n refl)

      apart : Phase.holding ≢ Phase.waiting
      apart c = absurd (omega (arith, ap holds c))
