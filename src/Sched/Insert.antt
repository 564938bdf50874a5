-- ===== src/Sched/Insert.antt =====
-- `insert_task_queue` of os/kernel/schedule.c is insertion by virtual run time.
use mathlib.Core.Path.{subst}
use mathlib.Core.List.{append-nil}
use kalinote_os.Base.{
  ℕ, zero, suc, ◌+◌, ◌-◌, ◌%◌, ◌^◌, ◌<◌, ◌≤◌, ◌≡◌, ◌≢◌, List, [], ◌∷◌, ◌++◌, true, false, some,
  refl, sym, ◌∙◌, ap, arith, length, ◌∉◌, ltb, ◌==◌, Bool-cases, inl, inr, ltb_of_le,
}
use kalinote_os.Ordered.{insert, insert-Ascending, insert-not_mem, insert-All}
use kalinote_os.Links.{Links, list_add_to_before, list_is_empty, list_next}
use kalinote_os.Links.Ring.{Seg, IsRing, list_next_lem}
use kalinote_os.Links.Laws.{
  list_is_empty-IsRing, list_add_to_before-IsRing, list_add_to_before-IsRing_inner,
}
use kalinote_os.Sched.{Sched, task_queue, init_task, insert_walk, insert_before, insert_task_queue}
use kalinote_os.Sched.Ready.{IsReady}

-- One element more.
length-insert : (key : ℕ → ℕ) (t : ℕ) (xs : List ℕ) → length (insert key t xs) ≡ length xs + 1
length-insert key t [] = refl
length-insert key t (x ∷ xs) = ground (arith, length-insert key t xs)

-- The first of a list, or else the head of the ring.
abbrev first_or : List ℕ → ℕ → ℕ
first_or [] h = h
first_or (x ∷ xs) h = x

-- The walk from `p` ends in front of `bs`, where `insert` puts the task.
record WalkTo (s : Sched) (tsk fuel p : ℕ) (xs : List ℕ) : Type 0 where
  before : List ℕ
  behind : List ℕ
  splits : xs ≡ before ++ behind
  inserts : insert s.vrun_time tsk xs ≡ before ++ (tsk ∷ behind)
  stops : insert_walk s tsk fuel p ≡ some (first_or behind task_queue)

insert_walk_stop :
    (s : Sched) (tsk fuel p : ℕ)
    → s.vrun_time tsk ≤ s.vrun_time p
    → insert_walk s tsk (suc fuel) p ≡ some p
unfolding insert_walk
insert_walk_stop s tsk fuel p h = rw (ltb_of_le (s.vrun_time p) (s.vrun_time tsk) h)

insert_walk_step :
    (s : Sched) (tsk fuel p q : ℕ)
    → ltb (s.vrun_time p) (s.vrun_time tsk) ≡ true
    → list_next s.links p ≡ q
    → insert_walk s tsk (suc fuel) p ≡ insert_walk s tsk fuel q
unfolding insert_walk
insert_walk_step s tsk fuel p q h e = rw (h, e)

insert_walk-WalkTo :
    (s : Sched) (tsk fuel a p : ℕ) (xs : List ℕ)
    → Seg s.links a xs task_queue
    → s.links.next a ≡ p
    → s.vrun_time tsk < 2 ^ 63
    → s.vrun_time task_queue ≡ 2 ^ 63 - 1
    → length xs < fuel
    → WalkTo s tsk fuel p xs
insert_walk-WalkTo s tsk zero a p xs g e lt last f = absurd (omega arith)
insert_walk-WalkTo s tsk (suc fuel) a p [] g e lt last f = record {
  before = [];
  behind = [];
  splits = refl;
  inserts = refl;
  stops =
      subst (λ z. insert_walk s tsk (suc fuel) z ≡ some task_queue) (sym g.0 ∙ e)
        (insert_walk_stop s tsk fuel task_queue (omega arith));
}
insert_walk-WalkTo s tsk (suc fuel) a p (x ∷ xs) g e lt last f =
    subst (λ z. WalkTo s tsk (suc fuel) z (x ∷ xs)) (sym g.0 ∙ e)
      (elim (Bool-cases (ltb (s.vrun_time x) (s.vrun_time tsk))) [
        | inl earlier ↦
            later earlier
              (insert_walk-WalkTo s tsk fuel x (s.links.next x) xs g.2 refl lt last (omega arith))
        | inr stop ↦ record {
          before = [];
          behind = x ∷ xs;
          splits = refl;
          inserts = rw stop;
          stops = insert_walk_stop s tsk fuel x (ground arith);
        }
      ])
  where
    later :
        ltb (s.vrun_time x) (s.vrun_time tsk) ≡ true
        → WalkTo s tsk fuel (s.links.next x) xs
        → WalkTo s tsk (suc fuel) x (x ∷ xs)
    later earlier w = record {
      before = x ∷ w.before;
      behind = w.behind;
      splits = ap (λ z. x ∷ z) w.splits;
      inserts = rw earlier (ap (λ z. x ∷ z) w.inserts);
      stops =
          insert_walk_step s tsk fuel x (s.links.next x) earlier (list_next_lem s.links x)
          ∙ w.stops;
    }

-- The state with `tsk` inserted meets the invariant if its ring holds the list with `tsk`.
inserted_IsReady :
    (s : Sched) (tsk : ℕ) (l : Links) (xs bs ts : List ℕ)
    → IsReady s ts
    → tsk ≢ init_task
    → s.vrun_time tsk < 2 ^ 63
    → suc (length ts) < 2 ^ 32
    → ts ≡ xs ++ bs
    → insert s.vrun_time tsk ts ≡ xs ++ (tsk ∷ bs)
    → IsRing l task_queue (xs ++ (tsk ∷ bs))
    → IsReady
        (record s { links = l; running_task_count = (s.running_task_count + 1) % 2 ^ 64 })
        (insert s.vrun_time tsk ts)
inserted_IsReady s tsk l xs bs ts v ni lt few split ins ring = record {
  ring = rw ins ring;
  ascending = insert-Ascending s.vrun_time 0 tsk ts (omega arith) v.ascending;
  below = insert-All s.vrun_time (λ t. s.vrun_time t < 2 ^ 63) tsk ts lt v.below;
  no_init = insert-not_mem s.vrun_time init_task tsk ts (λ e. ni (sym e)) v.no_init;
  count = omega (arith, v.count, long);
  few = omega (arith, long);
  head_last = v.head_last;
}
  where
    long : length (insert s.vrun_time tsk ts) ≡ length ts + 1
    long = length-insert s.vrun_time tsk ts

-- Adding in front of what the walk found.
add_before-IsReady :
    (s : Sched) (tsk : ℕ) (xs bs ts : List ℕ)
    → IsReady s ts
    → tsk ∉ (task_queue ∷ init_task ∷ ts)
    → s.vrun_time tsk < 2 ^ 63
    → suc (length ts) < 2 ^ 32
    → ts ≡ xs ++ bs
    → insert s.vrun_time tsk ts ≡ xs ++ (tsk ∷ bs)
    → IsReady (insert_before s tsk (first_or bs task_queue)) (insert s.vrun_time tsk ts)
unfolding insert_before
add_before-IsReady s tsk xs [] ts v out lt few split ins =
    inserted_IsReady s tsk (list_add_to_before s.links task_queue tsk) xs [] ts v (ground arith) lt
      few split ins
      (list_add_to_before-IsRing s.links task_queue tsk xs
        (subst (λ z. IsRing s.links task_queue z) (split ∙ append-nil xs) v.ring)
        (subst (λ z. tsk ∉ (task_queue ∷ z)) (split ∙ append-nil xs) (ground arith)))
add_before-IsReady s tsk xs (e ∷ bs) ts v out lt few split ins =
    inserted_IsReady s tsk (list_add_to_before s.links e tsk) xs (e ∷ bs) ts v (ground arith) lt few
      split ins
      (list_add_to_before-IsRing_inner s.links task_queue tsk e xs bs
        (subst (λ z. IsRing s.links task_queue z) split v.ring)
        (subst (λ z. tsk ∉ (task_queue ∷ z)) split (ground arith)))

insert_task_queue-nil :
    (fuel : ℕ) (s : Sched) (tsk : ℕ)
    → tsk ≢ init_task
    → list_is_empty s.links task_queue ≡ true
    → insert_task_queue fuel s tsk ≡ some (insert_before s tsk (list_next s.links task_queue))
unfolding insert_task_queue
insert_task_queue-nil fuel s tsk ne e =
    let n : (tsk == init_task) ≡ false = ground arith in rw (n, e)

insert_task_queue-cons :
    (fuel : ℕ) (s : Sched) (tsk tmp : ℕ)
    → tsk ≢ init_task
    → list_is_empty s.links task_queue ≡ false
    → insert_walk s tsk fuel (list_next s.links task_queue) ≡ some tmp
    → insert_task_queue fuel s tsk ≡ some (insert_before s tsk tmp)
unfolding insert_task_queue
insert_task_queue-cons fuel s tsk tmp ne e w =
    let n : (tsk == init_task) ≡ false = ground arith in rw (n, e, w)

-- The idle task is never queued.
pub insert_task_queue-init : (fuel : ℕ) (s : Sched) → insert_task_queue fuel s init_task ≡ some s
unfolding insert_task_queue
insert_task_queue-init fuel s = refl

-- `insert_task_queue` ends and puts a task that is not queued yet in front of the first that has
-- run at least as long; the order, the ring and the count of the queue are kept.
pub insert_task_queue-IsReady :
    (fuel : ℕ) (s : Sched) (tsk : ℕ) (ts : List ℕ)
    → IsReady s ts
    → tsk ∉ (task_queue ∷ init_task ∷ ts)
    → s.vrun_time tsk < 2 ^ 63
    → suc (length ts) < 2 ^ 32
    → length ts < fuel
    → (s' : Sched) × (insert_task_queue fuel s tsk ≡ some s')
      × IsReady s' (insert s.vrun_time tsk ts)
      × (s' ≡ record s { links = s'.links; running_task_count = s'.running_task_count })
insert_task_queue-IsReady fuel s tsk [] v out lt few f = (
  insert_before s tsk (list_next s.links task_queue),
  insert_task_queue-nil fuel s tsk (ground arith)
      (list_is_empty-IsRing s.links task_queue [] v.ring),
  subst (λ z. IsReady (insert_before s tsk z) (tsk ∷ []))
      (sym (list_next_lem s.links task_queue ∙ v.ring.links.0))
      (add_before-IsReady s tsk [] [] [] v out lt few refl refl),
  unfold insert_before in refl,
)
insert_task_queue-IsReady fuel s tsk (x ∷ xs) v out lt few f = (
  insert_before s tsk (first_or w.behind task_queue),
  insert_task_queue-cons fuel s tsk (first_or w.behind task_queue) (ground arith)
      (list_is_empty-IsRing s.links task_queue (x ∷ xs) v.ring)
      (subst (λ z. insert_walk s tsk fuel z ≡ some (first_or w.behind task_queue))
        (sym (list_next_lem s.links task_queue ∙ v.ring.links.0)) w.stops),
  add_before-IsReady s tsk w.before w.behind (x ∷ xs) v out lt few w.splits w.inserts,
  unfold insert_before in refl,
)
  where
    w : WalkTo s tsk fuel x (x ∷ xs)
    w =
        insert_walk-WalkTo s tsk fuel task_queue x (x ∷ xs) v.ring.links v.ring.links.0 lt
          v.head_last f
