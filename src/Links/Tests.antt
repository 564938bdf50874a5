-- ===== src/Links/Tests.antt =====
-- A ring of three nodes, and the theorems about `struct List` at it.
use kalinote_os.Base.{◌≡◌, [], ◌∷◌, false, refl, ◌==◌, if◌then◌else◌}
use kalinote_os.Links.{Links, list_del, list_is_empty, list_prev, list_next}
use kalinote_os.Links.Ring.{IsRing}
use kalinote_os.Links.Laws.{list_is_empty-IsRing, list_del-IsRing}

-- The head 1 and the nodes 3 and 4.
abbrev two_nodes : Links
two_nodes = record {
  prev = λ p. if p == 1 then 4 else if p == 4 then 3 else 1;
  next = λ p. if p == 1 then 3 else if p == 3 then 4 else 1;
}

two_nodes-IsRing : IsRing two_nodes 1 (3 ∷ 4 ∷ [])
two_nodes-IsRing = record {
  links = (refl, refl, (refl, refl, (refl, refl)));
  distinct = (refl, (refl, (refl, tt)));
}

ends : (list_prev two_nodes 1 ≡ 4) × (list_next two_nodes 1 ≡ 3)
unfolding list_prev list_next
ends = (refl, refl)

one_is_not_empty : list_is_empty two_nodes 1 ≡ false
one_is_not_empty = list_is_empty-IsRing two_nodes 1 (3 ∷ 4 ∷ []) two_nodes-IsRing

list_del-IsRing_example : IsRing (list_del two_nodes 3) 1 (4 ∷ [])
list_del-IsRing_example = list_del-IsRing two_nodes 1 3 [] (4 ∷ []) two_nodes-IsRing
