-- ===== src/Slab/Kfree/Find.antt =====
-- The search of `kfree` in os/kernel/memory.c for the slab of an address.
use mathlib.Core.Path.{subst}
use kalinote_os.Base.{
  ℕ, zero, suc, ◌+◌, ◌<◌, ◌≤◌, ◌≡◌, ◌≢◌, inl, inr, true, false, List, [], ◌∷◌, arith, sym, ◌∙◌, ap,
  some, ◌==◌, Bool-cases, All, has, ◌∉◌, length,
}
use kalinote_os.Links.{list_next}
use kalinote_os.Links.Ring.{Seg, list_next_lem}
use kalinote_os.Slab.{Slabs, kmalloc_cache}
use kalinote_os.Slab.Kfree.{pool_find, owner}

-- Where no slab begins at `base`, the walk comes round to the first one.
pub pool_find-absent :
    (s : Slabs) (base pool fuel slab : ℕ) (rest : List ℕ)
    → Seg s.links slab rest pool
    → pool ∉ rest
    → All (λ x. s.v_address x ≢ base) (slab ∷ rest)
    → length rest < fuel
    → pool_find s base pool fuel slab ≡ some 0
unfolding pool_find
pool_find-absent s base pool zero slab rest g out a lt = absurd (omega arith)
pool_find-absent s base pool (suc fuel) slab [] g out a lt =
    let no : (s.v_address slab == base) ≡ false = ground (arith, a.0) in
    let next : (list_next s.links slab == pool) ≡ true =
      ground (arith, list_next_lem s.links slab, g.0) in
    rw (no, next)
pool_find-absent s base pool (suc fuel) slab (x ∷ rest) g out a lt =
    let no : (s.v_address slab == base) ≡ false = ground (arith, a.0) in
    let next : list_next s.links slab ≡ x = list_next_lem s.links slab ∙ g.0 in
    let ne : (x == pool) ≡ false = ground (arith, out) in
    rw (no, next, ne)
      (pool_find-absent s base pool fuel x rest g.2 (ground (arith, out)) a.1 (omega arith))

-- The one slab that begins at `base` is found.
pub pool_find-present :
    (s : Slabs) (base pool fuel slab : ℕ) (rest : List ℕ) (r : ℕ)
    → Seg s.links slab rest pool
    → pool ∉ rest
    → has r (slab ∷ rest) ≡ true
    → s.v_address r ≡ base
    → ((x : ℕ) → s.v_address x ≡ base → has x (slab ∷ rest) ≡ true → x ≡ r)
    → length rest < fuel
    → pool_find s base pool fuel slab ≡ some r
unfolding pool_find
pool_find-present s base pool zero slab rest r g out h e u lt = absurd (omega arith)
pool_find-present s base pool (suc fuel) slab [] r g out h e u lt =
    let same : r ≡ slab = ground (arith, h) in
    let hit : (s.v_address slab == base) ≡ true = ground (arith, e, ap s.v_address same) in
    rw hit (ap some (sym same))
pool_find-present s base pool (suc fuel) slab (x ∷ rest) r g out h e u lt =
    elim (Bool-cases (s.v_address slab == base)) [
      | inl b ↦ rw b (ap some (u slab (ground (arith, b)) (ground arith)))
      | inr b ↦
          let ne : r ≢ slab = λ q. ground (arith, b, e, ap s.v_address q) in
          let next : list_next s.links slab ≡ x = list_next_lem s.links slab ∙ g.0 in
          let miss : (x == pool) ≡ false = ground (arith, out) in
          rw (b, next, miss)
            (pool_find-present s base pool fuel x rest r g.2 (ground (arith, out))
              (ground (arith, h, ne)) e (λ y p k. u y p (ground (arith, k))) (omega arith))
    ]

-- The cache is the first one that has the slab.
pub owner-found :
    (s : Slabs) (base fuel i left target slab : ℕ)
    → i ≤ target
    → target < i + left
    → ((q : ℕ)
        → i ≤ q
        → q < target
        → pool_find s base (s.cache_pool (kmalloc_cache q)) fuel (s.cache_pool (kmalloc_cache q))
          ≡ some 0)
    → pool_find s base
        (s.cache_pool (kmalloc_cache target))
        fuel
        (s.cache_pool (kmalloc_cache target))
      ≡ some slab
    → (slab == 0) ≡ false
    → owner s base fuel i left ≡ some (kmalloc_cache target, slab)
unfolding owner
owner-found s base fuel i zero target slab l r none_before found nz = absurd (omega arith)
owner-found s base fuel i (suc left) target slab l r none_before found nz =
    elim (Bool-cases (i == target)) [
      | inl e ↦
          let same : target ≡ i = ground (arith, e) in
          let here =
            subst
              (λ z.
                pool_find s base (s.cache_pool (kmalloc_cache z)) fuel
                  (s.cache_pool (kmalloc_cache z))
                ≡ some slab)
              same found in
          rw (here, owner, nz) (ap (λ z. some (kmalloc_cache z, slab)) (sym same))
      | inr e ↦
          rw (none_before i (omega arith) (ground (arith, e, l)), owner)
            (owner-found s base fuel (i + 1) left target slab (ground (arith, e, l)) (omega arith)
              (λ q a b. none_before q (omega arith) b) found nz)
    ]
