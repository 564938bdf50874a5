-- ===== src/Slab/Kmalloc/Alloc.antt =====
-- `kmalloc` of os/kernel/memory.c from a cache that has free objects.
use mathlib.Core.Path.{subst}
use kalinote_os.Base.{
  ℕ, suc, ◌+◌, ◌*◌, ◌%◌, ◌^◌, ◌≤◌, ◌<◌, ◌≡◌, ◌≢◌, inl, inr, Bool, true, false, ◌&&◌, List, arith,
  sym, ◌∙◌, ap, refl, Option, none, some, ◌==◌, if◌then◌else◌, ltb, Bool-cases, has, update,
  update_self, length,
}
use kalinote_os.Pages.{dec}
use kalinote_os.Slab.{Slabs, scan_map, take_object, object, kmalloc_cache}
use kalinote_os.Slab.Kmalloc.{pool_walk, choose_slab, from_slab, find_cache, kmalloc}
use kalinote_os.Slab.Kmalloc.Walk.{walked, find_cache-fits, not_null_of}
use kalinote_os.Slab.Map.{FirstClear, scan_map-FirstClear}
use kalinote_os.Slab.Count.{clear_bits-zero}
use kalinote_os.Slab.Sound.{IsCache}
use kalinote_os.Slab.Take.{pool_of, its-IsSlab, free-le, take_object-IsCache}

-- What `kmalloc` gives for a cache with free objects: an object of one of its slabs that was free.
-- Its bit and no other is set, the cache stays sound with one object less free, and memory pages
-- stay as they are.
pub record Object (s : Slabs) (cache : ℕ) (slabs : List ℕ) (p : ℕ) (s' : Slabs) (slab j : ℕ)
    : Type 0 where
  pub taken : s' ≡ take_object cache slab j s
  pub its : has slab (pool_of s cache slabs) ≡ true
  pub below : j < s.color_count slab
  pub address : p ≡ (s.v_address slab + s.size cache * j) % 2 ^ 64
  pub was_free : s.bit (s.color_map slab) j ≡ false
  pub first : (q : ℕ) → q < j → s.bit (s.color_map slab) q ≡ true
  pub bits : (a q : ℕ) → s'.bit a q ≡ (if a == s.color_map slab && q == j then true else s.bit a q)
  pub sound : IsCache s' cache slabs
  pub free : s'.total_free cache + 1 ≡ s.total_free cache
  pub pages : s'.memory ≡ s.memory

taken_bits :
    (bit : ℕ → ℕ → Bool) (m j a q : ℕ)
    → update bit m (update (bit m) j true) a q ≡ (if a == m && q == j then true else bit a q)
taken_bits bit m j a q = elim (Bool-cases (m == a)) [
  | inl e ↦ let same : m ≡ a = ground (arith, e) in ground (arith, ap (λ z. bit z q) same)
  | inr e ↦ ground (arith, e)
]

take_object-Object :
    (s : Slabs) (cache : ℕ) (slabs : List ℕ) (slab j : ℕ)
    → IsCache s cache slabs
    → has slab (pool_of s cache slabs) ≡ true
    → s.free_count slab ≢ 0
    → j < s.color_count slab
    → s.bit (s.color_map slab) j ≡ false
    → ((q : ℕ) → q < j → s.bit (s.color_map slab) q ≡ true)
    → Object s cache slabs (object s cache slab j) (take_object cache slab j s) slab j
unfolding take_object
take_object-Object s cache slabs slab j c h n lt clear f = record {
  taken = refl;
  its = h;
  below = lt;
  address = refl;
  was_free = clear;
  first = f;
  bits = taken_bits s.bit (s.color_map slab) j;
  sound = take_object-IsCache s cache slabs c slab h j lt clear;
  free = omega (
    arith,
    update_self s.total_free cache (dec (s.total_free cache)),
    free-le s cache slabs c slab h,
    n,
    c.fits,
  );
  pages = refl;
}

-- An object out of a state, with what it says of the state that follows.
abbrev pub Gets : Slabs → ℕ → List ℕ → Option (ℕ × Slabs) → Type 0
Gets s cache slabs none = ⊥
Gets s cache slabs (some (p, s')) = (slab : ℕ) × (j : ℕ) × Object s cache slabs p s' slab j

from_slab-Gets :
    (s : Slabs) (cache : ℕ) (slabs : List ℕ) (slab : ℕ)
    → IsCache s cache slabs
    → has slab (pool_of s cache slabs) ≡ true
    → s.free_count slab ≢ 0
    → Gets s cache slabs (from_slab cache slab s)
unfolding from_slab
from_slab-Gets s cache slabs slab c h n =
    go (scan_map bits count 0 count) (scan_map-FirstClear bits count)
  where
    bits : ℕ → Bool
    bits = s.bit (s.color_map slab)

    count : ℕ
    count = s.color_count slab

    go :
        (o : Option ℕ)
        → FirstClear bits 0 count o
        → Gets s cache slabs (elim o as (λ x. Option (ℕ × Slabs)) [
          | none ↦ some (0, s)
          | some j ↦ some (object s cache slab j, take_object cache slab j s)
        ])
    go none f = absurd (
        n (
          (its-IsSlab s cache slabs c slab h).free
          ∙ clear_bits-zero bits count (λ q l. f q (omega arith) l)))
    go (some j) (l, lt, clear, f) = (
      slab,
      j,
      take_object-Object s cache slabs slab j c h n lt clear (λ q r. f q (omega arith) r),
    )

kmalloc-rest :
    (s : Slabs) (depth fuel size i slab : ℕ)
    → ltb 1048576 size ≡ false
    → find_cache s size 0 16 ≡ i
    → (s.total_free (kmalloc_cache i) == 0) ≡ false
    → (slab == 0) ≡ false
    → pool_walk s (s.cache_pool (kmalloc_cache i)) fuel (s.cache_pool (kmalloc_cache i)) ≡ some slab
    → kmalloc (suc depth) fuel size s ≡ from_slab (kmalloc_cache i) slab s
unfolding kmalloc choose_slab
kmalloc-rest s depth fuel size i slab big f n nz e =
    rw (big, f, n, e, nz) (ap (λ z. from_slab (kmalloc_cache z) slab s) f)

-- `kmalloc` of at most 1 MB, when the cache for the size is sound and has a free object, ends and
-- gives an object of that cache: the cache is the first one whose objects are large enough; the
-- object is one of a slab of the cache, the first of the slab that was free, at its address; its bit
-- and no other is set, the cache stays sound with one object less free, and no page is taken.
pub kmalloc-Gets :
    (s : Slabs) (depth fuel size i : ℕ) (slabs : List ℕ)
    → size ≤ 1048576
    → size ≤ s.size (kmalloc_cache 15)
    → find_cache s size 0 16 ≡ i
    → IsCache s (kmalloc_cache i) slabs
    → s.total_free (kmalloc_cache i) ≢ 0
    → length slabs < fuel
    → (size ≤ s.size (kmalloc_cache i))
      × ((q : ℕ) → q < i → s.size (kmalloc_cache q) < size)
      × Gets s (kmalloc_cache i) slabs (kmalloc (suc depth) fuel size s)
kmalloc-Gets s depth fuel size i slabs small top e c n lt =
    let fits = find_cache-fits s size 0 16 15 (omega arith) (omega arith) top in
    let (slab, w, h, k) = walked s (kmalloc_cache i) fuel slabs c n lt in
    let nz : (slab == 0) ≡ false =
      not_null_of slab (pool_of s (kmalloc_cache i) slabs) c.no_null h in
    (
      subst (λ z. size ≤ s.size (kmalloc_cache z)) e fits.0,
      λ q r. fits.1 q (omega arith) (omega (arith, r, e)),
      subst (Gets s (kmalloc_cache i) slabs)
          (sym (
            kmalloc-rest s depth fuel size i slab (ground (arith, small)) e (ground (arith, n)) nz
              w))
          (from_slab-Gets s (kmalloc_cache i) slabs slab c h k),
    )
