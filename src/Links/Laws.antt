-- ===== src/Links/Laws.antt =====
-- `struct List` of os/include/lib.h as a sequence: what each operation does to the ring.
use mathlib.Core.List.{append-nil, append_assoc}
use kalinote_os.Base.{ℕ, ◌≡◌, ◌≢◌, List, [], ◌∷◌, ◌++◌, true, false, refl, arith, ◌∉◌, update_self}
use kalinote_os.Distinct.{
  not_mem_front, Distinct-front, Distinct-back, apart, middle_front, Distinct-drop, Distinct-add,
  not_mem_back,
}
use kalinote_os.Links.{
  Links, set_prev, list_init, list_add_to_behind, list_add_to_before, list_del, list_is_empty,
}
use kalinote_os.Links.Ring.{
  Seg, IsRing, Seg-set_next, Seg-set_prev, Seg-prev_mem, Seg-add_before, Seg-add_before_rest,
}
use kalinote_os.Links.Ops.{Seg-front, Seg-back, Seg-join, Seg-add_behind, Seg-del}

-- `list_init` makes the node a list that holds nothing.
pub list_init-IsRing : (l : Links) (h : ℕ) → IsRing (list_init l h) h []
unfolding list_init
list_init-IsRing l h = record {
  links = (update_self l.next h h, update_self l.prev h h);
  distinct = (refl, tt);
}

-- It leaves a list that does not hold the node as it is.
pub list_init-IsRing_other :
    (l : Links) (h n : ℕ) (xs : List ℕ) → IsRing l h xs → n ∉ (h ∷ xs) → IsRing (list_init l n) h xs
unfolding list_init
list_init-IsRing_other l h n xs v out =
    let apart : n ≢ h = ground (arith, out) in
    record {
      links =
          Seg-set_next (set_prev l n n) n n h xs h out
            (Seg-set_prev l n n h xs h (ground (arith, out)) apart v.links);
      distinct = v.distinct;
    }

-- `list_is_empty` is true exactly of the lists that hold nothing.
pub list_is_empty-IsRing :
    (l : Links) (h : ℕ) (xs : List ℕ)
    → IsRing l h xs
    → list_is_empty l h ≡ (elim xs [ [] ↦ true | _ ∷ _ ↦ false ])
unfolding list_is_empty
list_is_empty-IsRing l h [] v = ground (arith, v.links)
list_is_empty-IsRing l h (x ∷ xs) v = ground (arith, v.links.0, v.distinct.0)

-- `list_add_to_behind` of the head puts a new node first.
pub list_add_to_behind-IsRing :
    (l : Links) (h n : ℕ) (xs : List ℕ)
    → IsRing l h xs
    → n ∉ (h ∷ xs)
    → IsRing (list_add_to_behind l h n) h (n ∷ xs)
list_add_to_behind-IsRing l h n xs v out = record {
  links = Seg-add_behind l n h xs h (ground arith) v.distinct v.distinct.0 v.links;
  distinct = Distinct-add n (h ∷ []) xs out v.distinct;
}

-- `list_add_to_before` of the head puts a new node last.
pub list_add_to_before-IsRing :
    (l : Links) (h n : ℕ) (xs : List ℕ)
    → IsRing l h xs
    → n ∉ (h ∷ xs)
    → IsRing (list_add_to_before l h n) h (xs ++ (n ∷ []))
list_add_to_before-IsRing l h n xs v out = record {
  links = Seg-add_before l n h xs h (ground arith) v.distinct v.distinct.0 v.links;
  distinct = Distinct-add n (h ∷ xs) [] (rw append-nil out) (rw append-nil v.distinct);
}

-- `list_add_to_before` of a node `e` of the list puts a new node in front of it.
pub list_add_to_before-IsRing_inner :
    (l : Links) (h n e : ℕ) (xs ys : List ℕ)
    → IsRing l h (xs ++ (e ∷ ys))
    → n ∉ (h ∷ xs ++ (e ∷ ys))
    → IsRing (list_add_to_before l e n) h (xs ++ (n ∷ e ∷ ys))
list_add_to_before-IsRing_inner l h n e xs ys v out = record {
  links = rw (← append_assoc xs (n ∷ []) (e ∷ ys)) (
      Seg-join (list_add_to_before l e n) h (xs ++ (n ∷ [])) e ys h
        (Seg-add_before l n h xs e (ground (arith, outs, out_rest))
          (Distinct-front (h ∷ xs) (e ∷ ys) v.distinct) (middle_front e xs ys v.distinct.1) before)
        (Seg-add_before_rest l n e ys h (ground (arith, outs, out_rest))
          (apart (l.prev e) (h ∷ xs) (e ∷ ys) v.distinct (Seg-prev_mem l h xs e before))
          (Distinct-back xs (e ∷ ys) v.distinct.1).0 (λ q. head_out q)
          (Seg-back l h xs e ys h v.links)));
  distinct = Distinct-add n (h ∷ xs) (e ∷ ys) out v.distinct;
}
  where
    before : Seg l h xs e
    before = Seg-front l h xs e ys h v.links

    outs : n ∉ (h ∷ xs)
    outs = not_mem_front n (h ∷ xs) (e ∷ ys) out

    out_rest : n ∉ (e ∷ ys)
    out_rest = not_mem_back n (h ∷ xs) (e ∷ ys) out

    head_out : e ≢ h
    head_out q = let t : h ∉ (e ∷ ys) = not_mem_back h xs (e ∷ ys) v.distinct.0 in ground arith

-- `list_del` takes exactly its node out.
pub list_del-IsRing :
    (l : Links) (h x : ℕ) (xs ys : List ℕ)
    → IsRing l h (xs ++ (x ∷ ys))
    → IsRing (list_del l x) h (xs ++ ys)
list_del-IsRing l h x xs ys v = record {
  links = Seg-del l x h xs ys h v.distinct v.distinct.0 v.links;
  distinct = Distinct-drop x (h ∷ xs) ys v.distinct;
}
