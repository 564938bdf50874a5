-- ===== src/Slab/Tests.antt =====
-- A heap with one slab in each cache, and the theorems about the object allocator at it.
use native.Mathlib.Nat.{pow-le-pow_right}
use kalinote_os.Base.{
  ℕ, ◌+◌, ◌*◌, ◌^◌, ◌≤◌, ◌<◌, ◌≡◌, ◌==◌, true, false, ◌&&◌, ◌||◌, not, [], arith, refl, some, has,
  ltb, leb,
}
use kalinote_os.Pages.{Memory}
use kalinote_os.Slab.{Slabs, kmalloc_cache, scan_map, scan_bits, word_full}
use kalinote_os.Slab.Count.{clear_bits}
use kalinote_os.Slab.Map.{FirstClear, scan_map-scan_bits}
use kalinote_os.Slab.Sound.{IsCache}
use kalinote_os.Slab.Take.{pool_of}
use kalinote_os.Slab.Kmalloc.{find_cache, kmalloc}
use kalinote_os.Slab.Kmalloc.Alloc.{Gets, kmalloc-Gets}
use kalinote_os.Slab.Kfree.{is_spare}
use kalinote_os.Slab.Init.{slab_init}
use kalinote_os.Slab.Init.Heap.{Leaves, slab_init-IsHeap}
use kalinote_os.Slab.Kfree.Round.{IsHeap, Undoes, kfree-kmalloc}

abbrev no_memory : Memory
no_memory = record {
  bits_map = λ q. true;
  zones_size = 0;
  zone_dma_index = 0;
  zone_normal_index = 0;
  zone_unmaped_index = 0;
  phy_address = λ p. 0;
  zone_struct = λ p. 0;
  attribute = λ p. 0;
  reference_count = λ p. 0;
  zone_start_address = λ z. 0;
  zone_end_address = λ z. 0;
  page_using_count = λ z. 0;
  page_free_count = λ z. 0;
  total_pages_link = λ z. 0;
}

-- The cache at `c` has the one slab `100 + c`, of two objects, the first of them in use.
abbrev heap : Slabs
heap = record {
  links = record { prev = λ p. p; next = λ p. p };
  page = λ x. x;
  using_count = λ x. 1;
  free_count = λ x. 1;
  v_address = λ x. x * 2097152;
  color_length = λ x. 8;
  color_count = λ x. 2;
  color_map = λ x. x + 200;
  bit = λ m j. j == 0 || leb 2 j;
  size = λ c. 2 ^ (c + 4);
  total_using = λ c. 1;
  total_free = λ c. 1;
  cache_pool = λ c. c + 100;
  constructor = λ c. 0;
  destructor = λ c. 0;
  memory = no_memory;
}

heap-IsCache : (c : ℕ) → IsCache heap c []
unfolding clear_bits
heap-IsCache c = record {
  ring = record { links = (refl, refl); distinct = (refl, tt) };
  no_null = ground arith;
  each = (record { free = refl; all = refl }, tt);
  maps = (refl, tt);
  free = refl;
  using = refl;
  fits = omega arith;
}

positive : (k : ℕ) → k < 16 → 0 < heap.size (kmalloc_cache k)
positive k lt =
    let e : 2 ^ 0 ≤ 2 ^ (k + 1 + 4) = pow-le-pow_right (omega arith) {i = 0} (omega arith) in
    omega (arith, e)

its_address : (i x : ℕ) → has x (pool_of heap (kmalloc_cache i) []) ≡ true → x ≡ i + 101
its_address i x h = ground (arith, h)

heap-IsHeap : IsHeap heap (λ i. [])
heap-IsHeap = record {
  caches = λ i lt. heap-IsCache (kmalloc_cache i);
  page_start = λ i x lt h. omega arith;
  page_end = λ i x lt h. (
    omega (arith, its_address i x h),
    let e : 2 ^ (i + 1 + 4) ≤ 2 ^ 20 = pow-le-pow_right (omega arith) {j = 20} (omega arith) in
        omega (arith, e),
  );
  sizes = positive;
  apart =
      λ i k x y l r g h e. (omega arith, omega (arith, its_address i x g, its_address k y h, e));
}

-- The words of a map of 130 bits: the first one full.
long_map : scan_map (λ j. ltb j 70 && not (j == 66)) 130 0 130 ≡ some 66
unfolding scan_map word_full
long_map = refl

scan_map-scan_bits_example :
    (scan_map (λ j. ltb j 70) 130 0 130 ≡ scan_bits (λ j. ltb j 70) 130 0 130)
    × FirstClear (λ j. ltb j 70) 0 130 (scan_map (λ j. ltb j 70) 130 0 130)
scan_map-scan_bits_example = scan_map-scan_bits (λ j. ltb j 70) 130

third : find_cache heap 100 0 16 ≡ 2
unfolding find_cache
third = refl

kmalloc-Gets_example :
    (100 ≤ heap.size (kmalloc_cache 2))
    × ((q : ℕ) → q < 2 → heap.size (kmalloc_cache q) < 100)
    × Gets heap (kmalloc_cache 2) [] (kmalloc 1 1 100 heap)
kmalloc-Gets_example =
    kmalloc-Gets heap 0 1 100 2 [] (omega arith) (omega arith) third
      (heap-IsCache (kmalloc_cache 2)) (omega arith) (omega arith)

kept :
    (x : ℕ)
    → has x (pool_of heap (kmalloc_cache 2) []) ≡ true
    → is_spare (kmalloc_cache 2) x heap ≡ false
unfolding is_spare
kept x h = refl

kfree-kmalloc_example : Undoes heap 1 1 (kmalloc 1 1 100 heap)
kfree-kmalloc_example =
    kfree-kmalloc heap (λ i. []) 0 0 1 100 2 heap-IsHeap (omega arith) (omega arith) third
      (omega arith) (omega arith) (λ q l. omega arith) kept

slab_init-IsHeap_example : Leaves heap.size 3 (slab_init 0xffff800000600000 heap).1
slab_init-IsHeap_example =
    slab_init-IsHeap heap 0xffff800000600000 3 (omega arith) (omega arith) positive (omega arith)
