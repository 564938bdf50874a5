-- ===== src/Slab/Init.antt =====
-- `slab_init` of os/kernel/memory.c: the first slab of each cache and its colour map, laid out from
-- `end_of_struct` on, and a page for its objects. A page is its index in `pages_struct`.
pub mod Fresh
pub mod Laid
pub mod Ready
pub mod Heap
use kalinote_os.Base.{ℕ, zero, suc, ◌+◌, ◌-◌, ◌*◌, ◌/◌, ◌%◌, ◌^◌, Bool, true, false, update}
use kalinote_os.Links.{list_init}
use kalinote_os.Pages.{page_init, inc, dec, change}
use kalinote_os.Slab.{Slabs, sizeof_slab, page_2m_size, kmalloc_cache}
use kalinote_os.Slab.Kmalloc.{map_length, clear_map}

-- `sizeof(long) * 10`, left free behind each slab and each map.
abbrev pub gap : ℕ
gap = 80

-- `PG_PTable_Maped | PG_Kernel_Init | PG_Kernel`
abbrev pub pg_init : ℕ
pg_init = 11

abbrev pub virt_to_phy : ℕ → ℕ
virt_to_phy a = (a + 2 ^ 64 - 0xffff800000000000) % 2 ^ 64

-- The colour map behind the slab at `finish`, which is `end_of_struct`.
abbrev pub map_at : ℕ → ℕ
map_at finish = (finish + sizeof_slab + gap) % 2 ^ 64

-- The first slab of one cache at `finish`, but for the bits of its map.
abbrev pub first_slab : ℕ → ℕ → Slabs → Slabs
first_slab i finish s =
    let cache = kmalloc_cache i in
    let count = page_2m_size / s.size cache in
    record s {
      cache_pool = update s.cache_pool cache finish;
      links = list_init s.links finish;
      using_count = update s.using_count finish 0;
      free_count = update s.free_count finish count;
      color_length = update s.color_length finish (map_length count);
      color_count = update s.color_count finish count;
      color_map = update s.color_map finish (map_at finish);
    }

-- Slab and map of one cache, and its counts; `end_of_struct` is then behind them.
pub init_cache : ℕ → ℕ → Slabs → ℕ × Slabs
init_cache i finish s =
    let cache = kmalloc_cache i in
    let count = page_2m_size / s.size cache in
    let s' = clear_map finish (first_slab i finish s) in
    (
      (map_at finish + map_length count + gap) % 2 ^ 64 / 8 * 8,
      record s' {
        total_free = update s'.total_free cache count;
        total_using = update s'.total_using cache 0;
      },
    )

-- The first loop on `i`.
pub init_caches : ℕ → ℕ → ℕ → Slabs → ℕ × Slabs
init_caches i zero finish s = (finish, s)
init_caches i (suc left) finish s =
    let (finish', s') = init_cache i finish s in init_caches (i + 1) left finish' s'

-- A page that the kernel uses from the start.
pub use_page : ℕ → Slabs → Slabs
use_page page s =
    let m = s.memory in
    let zone = m.zone_struct page in
    record s {
      memory =
          page_init
            (record m {
              bits_map = update m.bits_map (m.phy_address page / page_2m_size) true;
              page_using_count = change m.page_using_count zone inc;
              page_free_count = change m.page_free_count zone dec;
            })
            page pg_init;
    }

-- The loop on `j`.
pub use_pages : ℕ → ℕ → Slabs → Slabs
use_pages j zero s = s
use_pages j (suc left) s = use_pages (j + 1) left (use_page j s)

-- The addresses of the objects of one cache, behind `end_of_struct`.
abbrev pub virtual : ℕ → ℕ → ℕ
virtual finish i =
    (finish + page_2m_size * i + page_2m_size - 1) % 2 ^ 64 / page_2m_size * page_2m_size

-- The page for the objects of one cache.
pub place_objects : ℕ → ℕ → Slabs → Slabs
place_objects i finish s =
    let page = virt_to_phy (virtual finish i) / page_2m_size in
    let s' = use_page page s in
    let pool = s'.cache_pool (kmalloc_cache i) in
    record s' {
      page = update s'.page pool page;
      v_address = update s'.v_address pool (virtual finish i);
    }

-- The last loop on `i`.
pub place_all : ℕ → ℕ → ℕ → Slabs → Slabs
place_all i zero finish s = s
place_all i (suc left) finish s = place_all (i + 1) left finish (place_objects i finish s)

-- `finish` is `end_of_struct`, before and after.
pub slab_init : ℕ → Slabs → ℕ × Slabs
slab_init finish s =
    let (finish', s') = init_caches 0 16 finish s in
    let first = (virt_to_phy finish + page_2m_size - 1) % 2 ^ 64 / page_2m_size in
    let last = virt_to_phy finish' / page_2m_size in
    (finish', place_all 0 16 finish' (use_pages first (last + 1 - first) s'))
