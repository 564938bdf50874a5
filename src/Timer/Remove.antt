-- ===== src/Timer/Remove.antt =====
-- `del_timer` of os/kernel/timer.c is removal from the queue.
use mathlib.Core.Path.{subst}
use mathlib.Core.Bool.{false≢true}
use kalinote_os.Base.{
  ℕ, zero, suc, ◌^◌, ◌<◌, ◌≤◌, ◌≡◌, ◌≢◌, List, [], ◌∷◌, true, false, some, refl, sym, ◌∙◌, arith,
  length, has, ◌∉◌, Distinct, All, ◌==◌, update, update_self, Gives, Gives-of_eq, Bool-cases, inl,
  inr,
}
use kalinote_os.Chain.{Chain, Chain-update}
use kalinote_os.Timer.{Timers, timer_list_last, del_walk, del_timer}
use kalinote_os.Ordered.{Ascending}
use kalinote_os.Timer.Queue.{remove, IsQueue}

remove-Ascending :
    (key : ℕ → ℕ) (low t : ℕ) (xs : List ℕ) → Ascending key low xs → Ascending key low (remove t xs)
remove-Ascending key low t [] a = tt
remove-Ascending key low t (x ∷ xs) a = elim (Bool-cases (x == t)) [
  | inl hit ↦ rw hit (weaken xs a.0 a.1)
  | inr miss ↦ rw miss (a.0, remove-Ascending key (key x) t xs a.1)
]
  where
    weaken : (ys : List ℕ) → low ≤ key x → Ascending key (key x) ys → Ascending key low ys
    weaken [] h b = tt
    weaken (y ∷ ys) h b = (omega (arith, b.0), b.1)

remove-not_mem : (a t : ℕ) (xs : List ℕ) → a ∉ xs → a ∉ (remove t xs)
remove-not_mem a t [] h = refl
remove-not_mem a t (x ∷ xs) h = ground (arith, remove-not_mem a t xs)

remove-Distinct : (t : ℕ) (xs : List ℕ) → Distinct xs → Distinct (remove t xs)
remove-Distinct t [] d = tt
remove-Distinct t (x ∷ xs) d = elim (Bool-cases (x == t)) [
  | inl hit ↦ rw hit d.1
  | inr miss ↦ rw miss (remove-not_mem x t xs d.0, remove-Distinct t xs d.1)
]

remove-All : (P : ℕ → Type 0) (t : ℕ) (xs : List ℕ) → All P xs → All P (remove t xs)
remove-All P t [] a = tt
remove-All P t (x ∷ xs) a = elim (Bool-cases (x == t)) [
  | inl hit ↦ rw hit a.1
  | inr miss ↦ rw miss (a.0, remove-All P t xs a.1)
]

-- The walk from `x` finds the timer in front of the one that goes.
abbrev Found : Timers → ℕ → ℕ → ℕ → List ℕ → Type 0
Found s timer fuel x xs =
    (q : ℕ) × (del_walk s timer fuel x ≡ some q)
    × (has q (x ∷ xs) ≡ true)
    × Chain (update s.next_timer q (s.next_timer timer)) x (x ∷ remove timer xs) timer_list_last

del_walk-Found :
    (s : Timers) (timer fuel x : ℕ) (xs : List ℕ)
    → Chain s.next_timer (s.next_timer x) xs timer_list_last
    → Distinct (x ∷ xs)
    → has timer xs ≡ true
    → length xs < fuel
    → Found s timer fuel x xs
unfolding del_walk
del_walk-Found s timer zero x xs c d m f = absurd (omega arith)
del_walk-Found s timer (suc fuel) x [] c d m f = absurd (false≢true m)
del_walk-Found s timer (suc fuel) x (y ∷ ys) c d m f = elim (Bool-cases (y == timer)) [
  | inl hit ↦ here hit
  | inr miss ↦ later miss (del_walk-Found s timer fuel y ys c.1 d.1 (ground arith) (omega arith))
]
  where
    here : (y == timer) ≡ true → Found s timer (suc fuel) x (y ∷ ys)
    here hit = (
      x,
      rw (c.0, hit) refl,
      ground arith,
      rw hit (
        refl,
        rw (update_self s.next_timer x (s.next_timer timer)) (
            Chain-update s.next_timer x (s.next_timer timer) (s.next_timer timer) ys timer_list_last
              (ground arith)
              (subst (λ z. Chain s.next_timer (s.next_timer z) ys timer_list_last) (ground arith)
                c.1)),
      ),
    )

    later : (y == timer) ≡ false → Found s timer fuel y ys → Found s timer (suc fuel) x (y ∷ ys)
    later miss (q, w, i, rest) =
        (q, rw (c.0, miss) w, ground (arith, i), rw miss (refl, (ground (arith, not_x), rest.1)))
      where
        not_x : q ≢ x
        not_x h = false≢true (sym d.0 ∙ subst (λ z. has z (y ∷ ys) ≡ true) h i)

removed_IsQueue :
    (s : Timers) (timer head : ℕ) (next : ℕ → ℕ) (ts : List ℕ)
    → IsQueue s ts
    → Chain next head (remove timer ts) timer_list_last
    → IsQueue (record s { head = head; next_timer = next }) (remove timer ts)
removed_IsQueue s timer head next ts v c = record {
  chain = c;
  distinct = remove-Distinct timer ts v.distinct;
  no_last = remove-not_mem timer_list_last timer ts v.no_last;
  no_null = remove-not_mem 0 timer ts v.no_null;
  ascending = remove-Ascending s.expire_jiffies 0 timer ts v.ascending;
  below = remove-All (λ t. s.expire_jiffies t < 2 ^ 64) timer ts v.below;
  last_never = v.last_never;
}

not_last_of_mem :
    (timer : ℕ) (ts : List ℕ) → timer_list_last ∉ ts → has timer ts ≡ true → timer ≢ timer_list_last
not_last_of_mem timer ts out m h = false≢true (sym out ∙ subst (λ z. has z ts ≡ true) h m)

-- The head goes by moving the head.
pub del_timer-head :
    (fuel : ℕ) (s : Timers)
    → s.head ≢ timer_list_last
    → del_timer fuel s s.head ≡ some (record s { head = s.next_timer s.head })
unfolding del_timer
del_timer-head fuel s ne = ground arith

del_timer-found :
    (s : Timers) (timer fuel q : ℕ)
    → timer ≢ timer_list_last
    → timer ≢ s.head
    → del_walk s timer fuel s.head ≡ some q
    → del_timer fuel s timer
      ≡ some (record s { next_timer = update s.next_timer q (s.next_timer timer) })
unfolding del_timer
del_timer-found s timer fuel q nl nh w =
    let a : (timer == timer_list_last) ≡ false = ground arith in
    let b : (timer == s.head) ≡ false = ground arith in rw (a, b, w)

del_inner :
    (s : Timers) (timer fuel x : ℕ) (xs : List ℕ)
    → IsQueue s (x ∷ xs)
    → (x == timer) ≡ false
    → timer ≢ timer_list_last
    → Found s timer fuel x xs
    → Gives (λ s'. IsQueue s' (remove timer (x ∷ xs))) (del_timer fuel s timer)
del_inner s timer fuel x xs v miss nl (q, w, i, rest) =
    Gives-of_eq (λ s'. IsQueue s' (remove timer (x ∷ xs))) (del_timer fuel s timer)
      (record s { next_timer = update s.next_timer q (s.next_timer timer) })
      (del_timer-found s timer fuel q nl (ground (arith, v.chain.0))
        (subst (λ z. del_walk s timer fuel z ≡ some q) (sym v.chain.0) w))
      (removed_IsQueue s timer s.head (update s.next_timer q (s.next_timer timer)) (x ∷ xs) v
        (rw miss (v.chain.0, rest.1)))

-- `del_timer` of a timer that is queued ends and takes exactly that timer out of the queue.
pub del_timer-IsQueue :
    (s : Timers) (timer fuel : ℕ) (ts : List ℕ)
    → IsQueue s ts
    → has timer ts ≡ true
    → length ts < fuel
    → Gives (λ s'. IsQueue s' (remove timer ts)) (del_timer fuel s timer)
del_timer-IsQueue s timer fuel [] v m f = absurd (false≢true m)
del_timer-IsQueue s timer fuel (x ∷ xs) v m f = elim (Bool-cases (x == timer)) [
  | inl hit ↦ at_head hit
  | inr miss ↦
      del_inner s timer fuel x xs v miss nl
        (del_walk-Found s timer fuel x xs v.chain.1 v.distinct (ground arith) (omega arith))
]
  where
    nl : timer ≢ timer_list_last
    nl = not_last_of_mem timer (x ∷ xs) v.no_last m

    at_head :
        (x == timer) ≡ true
        → Gives (λ s'. IsQueue s' (remove timer (x ∷ xs))) (del_timer fuel s timer)
    at_head hit =
        let e : s.head ≡ timer = ground (arith, v.chain.0) in
        Gives-of_eq (λ s'. IsQueue s' (remove timer (x ∷ xs))) (del_timer fuel s timer)
          (record s { head = s.next_timer s.head })
          (subst (λ z. del_timer fuel s z ≡ some (record s { head = s.next_timer s.head })) e
            (del_timer-head fuel s (λ h. nl (sym e ∙ h))))
          (removed_IsQueue s timer (s.next_timer s.head) s.next_timer (x ∷ xs) v (
            rw hit (
              subst (λ z. Chain s.next_timer (s.next_timer z) xs timer_list_last) (sym v.chain.0)
                v.chain.1)))
