-- ===== src/Slab/Kmalloc.antt =====
-- `kmalloc` and `kmalloc_create` of os/kernel/memory.c. They call each other; `depth` bounds how
-- deep, and `fuel` the walk along the slabs of a cache.
pub mod Walk
pub mod Alloc
use kalinote_os.Base.{
  ℕ, zero, suc, ◌+◌, ◌-◌, ◌*◌, ◌/◌, ◌%◌, ◌^◌, Bool, true, false, ◌||◌, List, [], ◌∷◌, Option, none,
  some, ltb, leb, ◌==◌, if◌then◌else◌, has, update,
}
use kalinote_os.Links.{list_next, list_init, list_add_to_before}
use kalinote_os.Pages.{alloc_pages, free_pages, page_init, zone_normal, change}
use kalinote_os.Slab.{
  Slabs, Step, pure, ◌>>=◌, sizeof_slab, page_2m_size, kmalloc_cache, phy_to_virt, fill,
  toggle_first, scan_map, take_object, object,
}

abbrev pub pg_kernel : ℕ
pg_kernel = 8

-- The sizes whose slabs stand in their own page, and the others.
abbrev pub small_sizes : List ℕ
small_sizes = 32 ∷ 64 ∷ 128 ∷ 256 ∷ 512 ∷ []

abbrev pub large_sizes : List ℕ
large_sizes =
    1024 ∷ 2048 ∷ 4096 ∷ 8192 ∷ 16384 ∷ 32768 ∷ 65536 ∷ 131072 ∷ 262144 ∷ 524288 ∷ 1048576 ∷ []

-- `((count + 63) >> 6) << 3`, the bytes of a map of `count` bits.
abbrev pub map_length : ℕ → ℕ
map_length count = (count + 63) / 64 * 8

-- `page` with the flag of the kernel; NULL as `none`.
pub new_page : Step (Option ℕ)
new_page s =
    let (found, m) = alloc_pages s.memory zone_normal 1 in
    elim found [
      | none ↦ some (none, record s { memory = m })
      | some page ↦ some (some page, record s { memory = page_init m page pg_kernel })
    ]

-- The map of a new slab: all ones, then the bits of the objects clear.
unfoldable pub clear_map : ℕ → Slabs → Slabs
clear_map slab s =
    let map = s.color_map slab in
    toggle_first (fill s map (s.color_length slab) true) map 0 (s.color_count slab)

pub small_slab : ℕ → ℕ → Slabs → ℕ × Slabs
small_slab size page s =
    let v_address = phy_to_virt (s.memory.phy_address page) in
    let structsize = sizeof_slab + page_2m_size / size / 8 in
    let slab = (v_address + page_2m_size - structsize) % 2 ^ 64 in
    let count = (page_2m_size - page_2m_size / size / 8 - sizeof_slab) / size in
    let s' = record s {
      color_map = update s.color_map slab ((slab + sizeof_slab) % 2 ^ 64);
      free_count = update s.free_count slab count;
      using_count = update s.using_count slab 0;
      color_count = update s.color_count slab count;
      v_address = update s.v_address slab v_address;
      page = update s.page slab page;
      links = list_init s.links slab;
      color_length = update s.color_length slab (map_length count);
    } in
    (slab, clear_map slab s')

-- `slab` and `map` are what `kmalloc` gave for them.
pub large_slab : ℕ → ℕ → ℕ → ℕ → Slabs → Slabs
large_slab size page slab map s =
    let count = page_2m_size / size in
    let s' = record s {
      free_count = update s.free_count slab count;
      using_count = update s.using_count slab 0;
      color_count = update s.color_count slab count;
      color_length = update s.color_length slab (map_length count);
      color_map = update s.color_map slab map;
      v_address = update s.v_address slab (phy_to_virt (s.memory.phy_address page));
      page = update s.page slab page;
      links = list_init s.links slab;
    } in
    clear_map slab s'

-- An address that is then written to.
pub not_null : ℕ → Step (Unit {0})
not_null p s = if p == 0 then none else some (tt, s)

-- `kmalloc_create` with the `kmalloc` that it calls.
pub kmalloc_create : (ℕ → Step ℕ) → ℕ → Step ℕ
kmalloc_create kmalloc size = do
  found ← new_page
  elim found [
    | none ↦ pure 0
    | some page ↦
        if has size small_sizes
        then (λ s. some (small_slab size page s))
        else if has size large_sizes
        then (do
          slab ← kmalloc sizeof_slab
          ok ← not_null slab
          map ← kmalloc (map_length (page_2m_size / size))
          ok ← not_null map
          λ s. some (slab, large_slab size page slab map s))
        else (λ s. some (0, record s { memory = free_pages s.memory (some page) 1 }))
  ]

-- The first of the caches from `i` on that holds objects of the size.
unfoldable pub find_cache : Slabs → ℕ → ℕ → ℕ → ℕ
find_cache s size i zero = i
find_cache s size i (suc left) =
    let rest = find_cache s size (i + 1) left in
    if leb size (s.size (kmalloc_cache i)) then i else rest

-- The `do` loop along the slabs: one with a free object, or the first one again.
pub pool_walk : Slabs → ℕ → ℕ → ℕ → Option ℕ
pool_walk s pool zero slab = none
pool_walk s pool (suc fuel) slab =
    let next = list_next s.links slab in
    let rest = pool_walk s pool fuel next in
    if s.free_count slab == 0 then (if next == pool then some next else rest) else some slab

-- The slab to take an object from, a new one if the cache is used up; 0 if there is none.
pub choose_slab : (ℕ → Step ℕ) → ℕ → ℕ → Step ℕ
choose_slab kmalloc fuel cache s =
    let pool = s.cache_pool cache in
    if s.total_free cache == 0
    then elim (kmalloc_create kmalloc (s.size cache) s) [
      | none ↦ none
      | some (slab, s') ↦
          if slab == 0
          then some (0, s')
          else some (
            slab,
            record s' {
              total_free = change s'.total_free cache (λ n. (n + s'.color_count slab) % 2 ^ 64);
              links = list_add_to_before s'.links (s'.cache_pool cache) slab;
            },
          )
    ]
    else elim (pool_walk s pool fuel pool) [ none ↦ none | some slab ↦ some (slab, s) ]

-- The loop on `j` over the objects of the slab, and what follows it.
pub from_slab : ℕ → ℕ → Step ℕ
from_slab cache slab s =
    let count = s.color_count slab in
    elim (scan_map (s.bit (s.color_map slab)) count 0 count) [
      | none ↦ some (0, s)
      | some j ↦ some (object s cache slab j, take_object cache slab j s)
    ]

pub kmalloc : ℕ → ℕ → ℕ → Step ℕ
kmalloc zero fuel size s = none
kmalloc (suc depth) fuel size s =
    let cache = kmalloc_cache (find_cache s size 0 16) in
    let rest = elim (choose_slab (kmalloc depth fuel) fuel cache s) as (λ x. Option (ℕ × Slabs)) [
      | none ↦ none
      | some (slab, s') ↦ if slab == 0 then some (0, s') else from_slab cache slab s'
    ] in
    if ltb 1048576 size then some (0, s) else rest
