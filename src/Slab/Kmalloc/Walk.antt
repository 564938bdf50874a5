-- ===== src/Slab/Kmalloc/Walk.antt =====
-- The loops of `kmalloc` in os/kernel/memory.c over the caches and along the slabs of one.
use mathlib.Core.Path.{subst}
use kalinote_os.Base.{
  ℕ, zero, suc, ◌+◌, ◌≤◌, ◌<◌, ◌≡◌, ◌≢◌, inl, inr, true, false, List, [], ◌∷◌, arith, ◌∙◌, ap,
  Option, some, ◌==◌, leb, Bool-cases, has, ◌∉◌, sum_of, length,
}
use kalinote_os.Links.{list_next}
use kalinote_os.Links.Ring.{Seg, list_next_lem}
use kalinote_os.Slab.{Slabs, kmalloc_cache}
use kalinote_os.Slab.Kmalloc.{pool_walk, find_cache}
use kalinote_os.Slab.Sound.{IsCache}
use kalinote_os.Slab.Take.{pool_of}

-- The walk from `slab`, with `rest` behind it, stops at a slab with free objects, if there is one.
abbrev pub Walks : Slabs → ℕ → List ℕ → Option ℕ → Type 0
Walks s pool xs o = (r : ℕ) × (o ≡ some r) × (has r xs ≡ true) × (s.free_count r ≢ 0)

pool_walk-Walks :
    (s : Slabs) (pool fuel slab : ℕ) (rest : List ℕ)
    → Seg s.links slab rest pool
    → pool ∉ rest
    → sum_of s.free_count (slab ∷ rest) ≢ 0
    → length rest < fuel
    → Walks s pool (slab ∷ rest) (pool_walk s pool fuel slab)
unfolding pool_walk
pool_walk-Walks s pool zero slab rest g out n lt = absurd (omega arith)
pool_walk-Walks s pool (suc fuel) slab [] g out n lt =
    let some_free : (s.free_count slab == 0) ≡ false = ground (arith, n) in
    (slab, rw some_free, ground arith, ground (arith, some_free))
pool_walk-Walks s pool (suc fuel) slab (x ∷ rest) g out n lt =
    elim (Bool-cases (s.free_count slab == 0)) [
      | inr e ↦ (slab, rw e, ground arith, ground (arith, e))
      | inl e ↦
          let next : list_next s.links slab ≡ x = list_next_lem s.links slab ∙ g.0 in
          let ne : (x == pool) ≡ false = ground (arith, out) in
          let zero_here : s.free_count slab ≡ 0 = ground (arith, e) in
          let (r, q, h, k) =
            pool_walk-Walks s pool fuel x rest g.2 (ground (arith, out))
              (omega (arith, n, zero_here)) (omega arith) in
          (r, rw (e, next, ne) q, ground (arith, h), k)
    ]

pub walked :
    (s : Slabs) (cache fuel : ℕ) (slabs : List ℕ)
    → IsCache s cache slabs
    → s.total_free cache ≢ 0
    → length slabs < fuel
    → Walks s
        (s.cache_pool cache)
        (pool_of s cache slabs)
        (pool_walk s (s.cache_pool cache) fuel (s.cache_pool cache))
walked s cache fuel slabs c n lt =
    pool_walk-Walks s (s.cache_pool cache) fuel (s.cache_pool cache) slabs c.ring.links
      c.ring.distinct.0 (λ e. n (c.free ∙ e)) lt

-- The first cache whose objects are large enough.
pub find_cache-fits :
    (s : Slabs) (size i left last : ℕ)
    → i ≤ last
    → last < i + left
    → size ≤ s.size (kmalloc_cache last)
    → (size ≤ s.size (kmalloc_cache (find_cache s size i left)))
      × ((q : ℕ) → i ≤ q → q < find_cache s size i left → s.size (kmalloc_cache q) < size)
unfolding find_cache
find_cache-fits s size i zero last l r h = absurd (omega arith)
find_cache-fits s size i (suc left) last l r h =
    elim (Bool-cases (leb size (s.size (kmalloc_cache i)))) [
      | inl e ↦ rw e (ground (arith, e), λ q l r. absurd (omega arith))
      | inr e ↦
          let small : s.size (kmalloc_cache i) < size = ground (arith, e) in
          let ne : i ≢ last = λ p. omega (arith, small, h, ap (λ z. s.size (kmalloc_cache z)) p) in
          let rest = find_cache-fits s size (i + 1) left last (omega (arith, ne)) (omega arith) h in
          rw e (
            rest.0,
            λ q l r. elim (Bool-cases (q == i)) [
              | inl p ↦
                  let same : i ≡ q = ground (arith, p) in
                  subst (λ z. s.size (kmalloc_cache z) < size) same small
              | inr p ↦ rest.1 q (ground (arith, p, l)) r
            ],
          )
    ]

pub not_null_of : (p : ℕ) (xs : List ℕ) → 0 ∉ xs → has p xs ≡ true → (p == 0) ≡ false
not_null_of p xs out h = elim (Bool-cases (p == 0)) [
  | inr e ↦ e
  | inl e ↦
      let same : p ≡ 0 = ground (arith, e) in
      let zero_in : has 0 xs ≡ true = subst (λ z. has z xs ≡ true) same h in
      absurd (ground (arith, out, zero_in))
]
