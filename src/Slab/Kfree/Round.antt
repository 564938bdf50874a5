-- ===== src/Slab/Kfree/Round.antt =====
-- `kfree` of os/kernel/memory.c undoes `kmalloc`.
use mathlib.Core.Path.{subst}
use native.Mathlib.Nat.{mul-div_cancel_left}
use kalinote_os.Base.{
  ℕ, suc, ◌+◌, ◌-◌, ◌*◌, ◌/◌, ◌%◌, ◌^◌, ◌<◌, ◌≤◌, ◌≡◌, ◌≢◌, true, false, List, arith, sym, ◌∙◌, ap,
  refl, Option, none, some, ◌==◌, has, length, Gives, All-of_has,
}
use kalinote_os.Slab.{Slabs, kmalloc_cache, page_2m_size, take_object, give_object}
use kalinote_os.Slab.Sound.{IsCache}
use kalinote_os.Slab.Take.{pool_of, its-IsSlab, free-le, using-le}
use kalinote_os.Slab.Kmalloc.Walk.{not_null_of}
use kalinote_os.Slab.Kmalloc.{find_cache, kmalloc}
use kalinote_os.Slab.Kmalloc.Alloc.{Gets, kmalloc-Gets}
use kalinote_os.Slab.Kfree.{kfree, owner, is_spare}
use kalinote_os.Slab.Kfree.Undo.{Restored, is_spare-Restored, give_object-take_object}
use kalinote_os.Slab.Count.{clear_bits-set}
use kalinote_os.Slab.Kfree.Find.{pool_find-absent, pool_find-present, owner-found}

-- The sixteen caches are sound, and each slab has a page of its own for its objects.
pub record IsHeap (s : Slabs) (slabs : ℕ → List ℕ) : Type 0 where
  pub caches : (i : ℕ) → i < 16 → IsCache s (kmalloc_cache i) (slabs i)
  pub page_start :
      (i x : ℕ)
      → i < 16
      → has x (pool_of s (kmalloc_cache i) (slabs i)) ≡ true
      → s.v_address x % page_2m_size ≡ 0
  pub page_end :
      (i x : ℕ)
      → i < 16
      → has x (pool_of s (kmalloc_cache i) (slabs i)) ≡ true
      → (s.v_address x + page_2m_size ≤ 2 ^ 64)
        × (s.size (kmalloc_cache i) * s.color_count x ≤ page_2m_size)
  pub sizes : (i : ℕ) → i < 16 → 0 < s.size (kmalloc_cache i)
  pub apart :
      (i k x y : ℕ)
      → i < 16
      → k < 16
      → has x (pool_of s (kmalloc_cache i) (slabs i)) ≡ true
      → has y (pool_of s (kmalloc_cache k) (slabs k)) ≡ true
      → s.v_address x ≡ s.v_address y
      → (x ≡ y) × (i ≡ k)

kfree-give :
    (s : Slabs) (depth fuel p i slab : ℕ)
    → owner s (p / page_2m_size * page_2m_size) fuel 0 16 ≡ some (kmalloc_cache i, slab)
    → is_spare
        (kmalloc_cache i)
        slab
        (give_object (kmalloc_cache i) slab ((p - s.v_address slab) / s.size (kmalloc_cache i)) s)
      ≡ false
    → kfree (suc depth) fuel p s
      ≡ some (
        1,
        give_object (kmalloc_cache i) slab ((p - s.v_address slab) / s.size (kmalloc_cache i)) s,
      )
unfolding kfree
kfree-give s depth fuel p i slab e sp =
    let nz : (kmalloc_cache i == 0) ≡ false = ground arith in rw (e, kfree, nz, sp)

-- The page of an object, and its index.
object_place :
    (v size j count : ℕ)
    → v % 2097152 ≡ 0
    → v + 2097152 ≤ 2 ^ 64
    → j < count
    → size * count ≤ 2097152
    → 0 < size
    → ((v + size * j) % 2 ^ 64 ≡ v + size * j)
      × ((v + size * j) / 2097152 * 2097152 ≡ v)
      × ((v + size * j - v) / size ≡ j)
object_place v size j count aligned top lt fits pos =
    let below : size * j < 2097152 = grind (arith, lt, fits, pos) in
    let off : v + size * j - v ≡ size * j = omega arith in
    (omega (arith, below), omega (arith, below), ap (λ z. z / size) off ∙ mul-div_cancel_left j pos)

module _ (s : Slabs) (slabs : ℕ → List ℕ) (heap : IsHeap s slabs) (fuel : ℕ)
    (enough : (q : ℕ) → q < 16 → length (slabs q) < fuel) (i : ℕ) (lt : i < 16) (slab j : ℕ)
    (h : has slab (pool_of s (kmalloc_cache i) (slabs i)) ≡ true) where
  -- The slab of the object is found, in the state after the object was taken.
  owner_after :
      owner (take_object (kmalloc_cache i) slab j s) (s.v_address slab) fuel 0 16
      ≡ some (kmalloc_cache i, slab)
  unfolding take_object
  owner_after =
      owner-found _ (s.v_address slab) fuel 0 16 i slab (omega arith) lt
        (λ q l r.
          let small : q < 16 = omega arith in
          let c = heap.caches q small in
          pool_find-absent _ (s.v_address slab) (s.cache_pool (kmalloc_cache q)) fuel
            (s.cache_pool (kmalloc_cache q)) (slabs q) c.ring.links c.ring.distinct.0
            (All-of_has (λ x. s.v_address x ≢ s.v_address slab)
              (pool_of s (kmalloc_cache q) (slabs q))
              (λ x k e.
                let same = (heap.apart q i x slab small lt k h e).1 in omega (arith, same, r)))
            (enough q small))
        (let c = heap.caches i lt in
          pool_find-present _ (s.v_address slab) (s.cache_pool (kmalloc_cache i)) fuel
            (s.cache_pool (kmalloc_cache i)) (slabs i) slab c.ring.links c.ring.distinct.0 h refl
            (λ x e k. (heap.apart i i x slab lt lt k h e).0) (enough i lt))
        (let c = heap.caches i lt in
          not_null_of slab (pool_of s (kmalloc_cache i) (slabs i)) c.no_null h)

  module _ (below : j < s.color_count slab) (clear : s.bit (s.color_map slab) j ≡ false)
      (kept : is_spare (kmalloc_cache i) slab s ≡ false) where
    abbrev cache : ℕ
    cache = kmalloc_cache i

    abbrev after : Slabs
    after = give_object cache slab j (take_object cache slab j s)

    after-Restored : Restored s after
    after-Restored =
        let c = heap.caches i lt in
        let its = its-IsSlab s cache (slabs i) c slab h in
        let one = clear_bits-set (s.bit (s.color_map slab)) (s.color_count slab) j below clear in
        let free = free-le s cache (slabs i) c slab h in
        let used = using-le s cache (slabs i) c slab h in
        give_object-take_object s cache slab j clear (omega (arith, its.free, one))
          (omega (arith, its.free, one, free)) (omega (arith, free, c.fits)) (omega (arith, c.fits))
          (omega (arith, its.free, one, free, used, c.fits))
          (omega (arith, its.free, one, free, c.fits))

    after_kept : is_spare cache slab after ≡ false
    after_kept = is_spare-Restored s after cache slab after-Restored ∙ kept

    kfree-take_object :
        (depth : ℕ)
        → kfree
            (suc depth)
            fuel
            ((s.v_address slab + s.size cache * j) % 2 ^ 64)
            (take_object cache slab j s)
          ≡ some (1, after)
    unfolding take_object
    kfree-take_object depth =
        let place =
          object_place (s.v_address slab) (s.size cache) j (s.color_count slab)
            (heap.page_start i slab lt h) (heap.page_end i slab lt h).0 below
            (heap.page_end i slab lt h).1 (heap.sizes i lt) in
        let p = (s.v_address slab + s.size cache * j) % 2 ^ 64 in
        let base : p / page_2m_size * page_2m_size ≡ s.v_address slab =
          ap (λ z. z / page_2m_size * page_2m_size) place.0 ∙ place.1 in
        let index : (p - s.v_address slab) / s.size cache ≡ j =
          ap (λ z. (z - s.v_address slab) / s.size cache) place.0 ∙ place.2 in
        let taken = take_object cache slab j s in
        kfree-give taken depth fuel p i slab
          (subst (λ z. owner taken z fuel 0 16 ≡ some (cache, slab)) (sym base) owner_after)
          (subst (λ z. is_spare cache slab (give_object cache slab z taken) ≡ false) (sym index)
            after_kept)
        ∙ ap (λ z. some (1, give_object cache slab z taken)) index

-- What `kfree` makes of what `kmalloc` gave.
abbrev pub Undoes : Slabs → (depth fuel : ℕ) → Option (ℕ × Slabs) → Type 0
Undoes s depth fuel none = ⊥
Undoes s depth fuel (some (p, s')) =
    Gives (λ (r, s''). (r ≡ 1) × Restored s s'') (kfree depth fuel p s')

Undoes-of_Gets :
    (s : Slabs) (slabs : ℕ → List ℕ) (depth fuel i : ℕ) (o : Option (ℕ × Slabs))
    → IsHeap s slabs
    → i < 16
    → ((q : ℕ) → q < 16 → length (slabs q) < fuel)
    → ((x : ℕ)
        → has x (pool_of s (kmalloc_cache i) (slabs i)) ≡ true
        → is_spare (kmalloc_cache i) x s ≡ false)
    → Gets s (kmalloc_cache i) (slabs i) o
    → Undoes s (suc depth) fuel o
Undoes-of_Gets s slabs depth fuel i none heap lt enough kept g = absurd g
Undoes-of_Gets s slabs depth fuel i (some (p, s')) heap lt enough kept (slab, j, o) =
    rw
      (
        o.taken,
        o.address,
        kfree-take_object s slabs heap fuel enough i lt slab j o.its o.below o.was_free
            (kept slab o.its) depth,
      )
      (
        refl,
        after-Restored s slabs heap fuel enough i lt slab j o.its o.below o.was_free
            (kept slab o.its),
      )

-- In a sound heap, `kfree` of what `kmalloc` gave from a cache with a free object ends, gives 1, and
-- restores the bits of all maps and the counts of all slabs and caches; the lists of slabs and the
-- pages stay as they were. No slab of the cache may be one that `kfree` would drop.
pub kfree-kmalloc :
    (s : Slabs) (slabs : ℕ → List ℕ) (depth depth' fuel size i : ℕ)
    → IsHeap s slabs
    → size ≤ 1048576
    → size ≤ s.size (kmalloc_cache 15)
    → find_cache s size 0 16 ≡ i
    → i < 16
    → s.total_free (kmalloc_cache i) ≢ 0
    → ((q : ℕ) → q < 16 → length (slabs q) < fuel)
    → ((x : ℕ)
        → has x (pool_of s (kmalloc_cache i) (slabs i)) ≡ true
        → is_spare (kmalloc_cache i) x s ≡ false)
    → Undoes s (suc depth') fuel (kmalloc (suc depth) fuel size s)
kfree-kmalloc s slabs depth depth' fuel size i heap small top e lt n enough kept =
    Undoes-of_Gets s slabs depth' fuel i (kmalloc (suc depth) fuel size s) heap lt enough kept
      (kmalloc-Gets s depth fuel size i (slabs i) small top e (heap.caches i lt) n (enough i lt)).2
