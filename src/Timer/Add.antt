-- ===== src/Timer/Add.antt =====
-- `add_timer` of os/kernel/timer.c is insertion in the order of deadlines.
use kalinote_os.Base.{
  ℕ, zero, suc, ◌-◌, ◌^◌, ◌<◌, ◌≤◌, ◌≡◌, ◌≢◌, List, [], ◌∷◌, true, false, Option, some, refl, sym,
  ◌∙◌, arith, length, has, ◌∉◌, Distinct, ltb, ◌==◌, update, update_self, Gives, Gives-of_eq,
  ltb_of_le, ltb_of_lt, Bool-cases, inl, inr,
}
use mathlib.Core.Path.{subst}
use mathlib.Core.Bool.{false≢true}
use kalinote_os.Chain.{Chain, Chain-update}
use kalinote_os.Ordered.{insert, insert-Ascending, insert-not_mem, insert-Distinct, insert-All}
use kalinote_os.Timer.Queue.{IsQueue}
use kalinote_os.Timer.{Timers, timer_list_last, add_walk, add_link, add_timer}

-- `(q, r)` is a place of the chain from `pre` at which linking the timer in inserts it.
abbrev Place : Timers → ℕ → ℕ → List ℕ → ℕ → ℕ → Type 0
Place s timer pre xs q r =
    (has q (pre ∷ xs) ≡ true)
    × (let next = update (update s.next_timer q timer) timer r in
        Chain next (next pre) (insert s.expire_jiffies timer xs) timer_list_last)

-- Between `pre` and what follows it.
Place-here :
    (s : Timers) (timer pre p : ℕ) (xs : List ℕ)
    → Chain s.next_timer p xs timer_list_last
    → pre ∉ xs
    → timer ∉ (pre ∷ xs)
    → let next = update (update s.next_timer pre timer) timer p in
      Chain next (next pre) (timer ∷ xs) timer_list_last
Place-here s timer pre p xs c d out = (
  ground arith,
  rw (update_self (update s.next_timer pre timer) timer p) (
      Chain-update (update s.next_timer pre timer) timer p p xs timer_list_last (ground arith)
        (Chain-update s.next_timer pre timer p xs timer_list_last d c)),
)

-- A place of the rest of the chain is one of the whole.
Place-later :
    (s : Timers) (timer pre x : ℕ) (xs : List ℕ) (q r : ℕ)
    → s.next_timer pre ≡ x
    → pre ∉ (x ∷ xs)
    → timer ∉ (pre ∷ x ∷ xs)
    → ltb (s.expire_jiffies x) (s.expire_jiffies timer) ≡ true
    → Place s timer x xs q r
    → Place s timer pre (x ∷ xs) q r
Place-later s timer pre x xs q r e d out earlier place =
    (ground (arith, place.0), rw earlier (same, place.1))
  where
    not_pre : q ≢ pre
    not_pre h = false≢true (sym d ∙ subst (λ z. has z (x ∷ xs) ≡ true) h place.0)

    same : update (update s.next_timer q timer) timer r pre ≡ x
    same = ground (arith, not_pre)

-- Where the walk from `pre` stops, linking the timer in inserts it.
abbrev Walked : Timers → ℕ → ℕ → ℕ → ℕ → List ℕ → Type 0
Walked s timer fuel pre p xs =
    (q : ℕ) × (r : ℕ) × (add_walk s timer fuel pre p ≡ some (q, r)) × Place s timer pre xs q r

Walked-later :
    (s : Timers) (timer fuel pre x : ℕ) (xs : List ℕ)
    → s.next_timer pre ≡ x
    → pre ∉ (x ∷ xs)
    → timer ∉ (pre ∷ x ∷ xs)
    → ltb (s.expire_jiffies x) (s.expire_jiffies timer) ≡ true
    → Walked s timer fuel x (s.next_timer x) xs
    → Walked s timer (suc fuel) pre x (x ∷ xs)
unfolding add_walk
Walked-later s timer fuel pre x xs e d out earlier (q, r, w, place) =
    (q, r, rw earlier w, Place-later s timer pre x xs q r e d out earlier place)

add_walk-insert :
    (s : Timers) (timer fuel pre p : ℕ) (xs : List ℕ)
    → Chain s.next_timer p xs timer_list_last
    → Distinct (pre ∷ xs)
    → timer ∉ (pre ∷ xs)
    → s.next_timer pre ≡ p
    → s.expire_jiffies timer < 2 ^ 64
    → s.expire_jiffies timer_list_last ≡ 2 ^ 64 - 1
    → length xs < fuel
    → Walked s timer fuel pre p xs
unfolding add_walk
add_walk-insert s timer zero pre p xs c d out e lt never f = absurd (omega arith)
add_walk-insert s timer (suc fuel) pre p [] c d out e lt never f =
    (pre, p, ground arith, (ground arith, Place-here s timer pre p [] c refl (ground arith)))
add_walk-insert s timer (suc fuel) pre p (x ∷ xs) c d out e lt never f =
    elim (Bool-cases (ltb (s.expire_jiffies x) (s.expire_jiffies timer))) [
      | inl earlier ↦ rw c.0 (
          Walked-later s timer fuel pre x xs (e ∙ c.0) d.0 out earlier (
            add_walk-insert s timer fuel x (s.next_timer x) xs c.1 d.1 (ground arith) refl lt never
              (omega arith)))
      | inr stop ↦ (
        pre,
        p,
        rw (c.0, stop) refl,
        (ground arith, rw stop (Place-here s timer pre p (x ∷ xs) c d.0 out)),
      )
    ]

-- What `add_timer` needs of the timer: allocated, not the sentinel, not queued already.
pub record IsNew (s : Timers) (ts : List ℕ) (timer : ℕ) : Type 0 where
  pub allocated : timer ≢ 0
  pub not_last : timer ≢ timer_list_last
  pub not_queued : timer ∉ ts
  pub small : s.expire_jiffies timer < 2 ^ 64

inserted_IsQueue :
    (s : Timers) (timer head : ℕ) (next : ℕ → ℕ) (ts : List ℕ)
    → IsQueue s ts
    → IsNew s ts timer
    → Chain next head (insert s.expire_jiffies timer ts) timer_list_last
    → IsQueue (record s { head = head; next_timer = next }) (insert s.expire_jiffies timer ts)
inserted_IsQueue s timer head next ts v n c = record {
  chain = c;
  distinct = insert-Distinct s.expire_jiffies timer ts n.not_queued v.distinct;
  no_last =
      insert-not_mem s.expire_jiffies timer_list_last timer ts (λ e. n.not_last (sym e)) v.no_last;
  no_null = insert-not_mem s.expire_jiffies 0 timer ts (λ e. n.allocated (sym e)) v.no_null;
  ascending = insert-Ascending s.expire_jiffies 0 timer ts (omega arith) v.ascending;
  below = insert-All s.expire_jiffies (λ t. s.expire_jiffies t < 2 ^ 64) timer ts n.small v.below;
  last_never = v.last_never;
}

-- In front of the whole queue the head moves.
add_front :
    (s : Timers) (timer p : ℕ) (xs : List ℕ)
    → s.head ≡ p
    → timer ∉ xs
    → Chain s.next_timer p xs timer_list_last
    → Chain (update s.next_timer timer s.head) timer (timer ∷ xs) timer_list_last
add_front s timer p xs e out c = (
  refl,
  rw (update_self s.next_timer timer s.head) (
      subst (λ z. Chain (update s.next_timer timer s.head) z xs timer_list_last) (sym e)
        (Chain-update s.next_timer timer s.head p xs timer_list_last out c)),
)

add_timer-link :
    (s : Timers) (timer fuel : ℕ) (place : ℕ × ℕ)
    → add_walk s timer fuel 0 s.head ≡ some place
    → add_timer fuel s timer ≡ some (add_link s timer place)
unfolding add_timer
add_timer-link s timer fuel place e = rw (e, add_timer)

add_walk_stop :
    (s : Timers) (timer fuel pre p : ℕ)
    → s.expire_jiffies timer ≤ s.expire_jiffies p
    → add_walk s timer (suc fuel) pre p ≡ some (pre, p)
unfolding add_walk
add_walk_stop s timer fuel pre p h = rw (ltb_of_le (s.expire_jiffies p) (s.expire_jiffies timer) h)

add_walk_step :
    (s : Timers) (timer fuel pre p x : ℕ)
    → p ≡ x
    → s.expire_jiffies x < s.expire_jiffies timer
    → add_walk s timer (suc fuel) pre p ≡ add_walk s timer fuel x (s.next_timer x)
unfolding add_walk
add_walk_step s timer fuel pre p x e h =
    rw (e, ltb_of_lt (s.expire_jiffies x) (s.expire_jiffies timer) h)

-- A timer that is due no later than the head goes in front.
add_head :
    (s : Timers) (timer fuel p : ℕ) (ts : List ℕ)
    → IsQueue s ts
    → IsNew s ts timer
    → s.head ≡ p
    → Chain s.next_timer p ts timer_list_last
    → s.expire_jiffies timer ≤ s.expire_jiffies p
    → insert s.expire_jiffies timer ts ≡ timer ∷ ts
    → Gives (λ s'. IsQueue s' (insert s.expire_jiffies timer ts)) (add_timer (suc fuel) s timer)
unfolding add_link
add_head s timer fuel p ts v n e c h i =
    Gives-of_eq (λ s'. IsQueue s' (insert s.expire_jiffies timer ts)) (add_timer (suc fuel) s timer)
      (record s { head = timer; next_timer = update s.next_timer timer s.head })
      (add_timer-link s timer (suc fuel) (0, s.head)
        (add_walk_stop s timer fuel 0 s.head
          (subst (λ z. s.expire_jiffies timer ≤ s.expire_jiffies z) (sym e) h)))
      (inserted_IsQueue s timer timer (update s.next_timer timer s.head) ts v n
        (rw i (add_front s timer p ts e n.not_queued c)))

-- Behind an earlier timer its pointer moves.
add_behind :
    (s : Timers) (timer fuel x : ℕ) (xs : List ℕ)
    → IsQueue s (x ∷ xs)
    → IsNew s (x ∷ xs) timer
    → ltb (s.expire_jiffies x) (s.expire_jiffies timer) ≡ true
    → Walked s timer fuel x (s.next_timer x) xs
    → Gives
        (λ s'. IsQueue s' (insert s.expire_jiffies timer (x ∷ xs)))
        (add_timer (suc fuel) s timer)
unfolding add_link
add_behind s timer fuel x xs v n earlier (q, r, w, place) =
    Gives-of_eq (λ s'. IsQueue s' (insert s.expire_jiffies timer (x ∷ xs)))
      (add_timer (suc fuel) s timer)
      (record s { next_timer = update (update s.next_timer q timer) timer r })
      (add_timer-link s timer (suc fuel) (q, r)
          (add_walk_step s timer fuel 0 s.head x v.chain.0 (ground arith) ∙ w)
        ∙ linked)
      (inserted_IsQueue s timer s.head (update (update s.next_timer q timer) timer r) (x ∷ xs) v n
        (rw earlier (v.chain.0, place.1)))
  where
    not_zero : q ≢ 0
    not_zero h = false≢true (sym v.no_null ∙ subst (λ z. has z (x ∷ xs) ≡ true) h place.0)

    linked :
        ◌≡◌ {A = Option Timers}
          (some (add_link s timer (q, r)))
          (some (record s { next_timer = update (update s.next_timer q timer) timer r }))
    linked = let ne : (q == 0) ≡ false = ground (arith, not_zero) in rw ne

-- `add_timer` ends and leaves the queue with the timer inserted by its deadline, in front of those
-- due at the same time.
pub add_timer-IsQueue :
    (s : Timers) (timer fuel : ℕ) (ts : List ℕ)
    → IsQueue s ts
    → IsNew s ts timer
    → length ts < fuel
    → Gives (λ s'. IsQueue s' (insert s.expire_jiffies timer ts)) (add_timer fuel s timer)
add_timer-IsQueue s timer zero ts v n f = absurd (omega arith)
add_timer-IsQueue s timer (suc fuel) [] v n f =
    add_head s timer fuel timer_list_last [] v n v.chain refl (omega (arith, v.last_never, n.small))
      refl
add_timer-IsQueue s timer (suc fuel) (x ∷ xs) v n f =
    elim (Bool-cases (ltb (s.expire_jiffies x) (s.expire_jiffies timer))) [
      | inl earlier ↦ add_behind s timer fuel x xs v n earlier (
          add_walk-insert s timer fuel x (s.next_timer x) xs v.chain.1 v.distinct n.not_queued refl
            n.small v.last_never (omega arith))
      | inr stop ↦
          add_head s timer fuel x (x ∷ xs) v n v.chain.0 (refl, v.chain.1) (ground arith)
            (rw stop refl)
    ]
