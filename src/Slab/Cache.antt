-- ===== src/Slab/Cache.antt =====
-- The caches for objects of one size in os/kernel/memory.c: `slab_create`, and
-- the new slab of `slab_malloc`. `kmalloc` and `kfree` are those of the other modules, at their
-- depth and fuel; a constructor or destructor is an address, and what it returns a parameter.
use kalinote_os.Base.{ℕ, ◌+◌, ◌*◌, ◌/◌, ◌%◌, ◌^◌, false, none, some, ◌==◌, if◌then◌else◌, update}
use kalinote_os.Links.{set_next, set_prev, list_init, list_add_to_behind}
use kalinote_os.Pages.{free_pages, change}
use kalinote_os.Slab.{Slabs, Step, pure, ◌>>=◌, sizeof_slab, page_2m_size, phy_to_virt, fill}
use kalinote_os.Slab.Kmalloc.{kmalloc, new_page, map_length}
use kalinote_os.Slab.Kfree.{kfree}

-- `SIZEOF_LONG_ALIGN`, and `sizeof(struct Slab_cache)`.
abbrev pub long_align : ℕ → ℕ
long_align size = (size + 7) % 2 ^ 64 / 8 * 8

abbrev pub sizeof_slab_cache : ℕ
sizeof_slab_cache = 56

-- `memset` with 0 of a slab, and of a cache.
pub zero_slab : ℕ → Slabs → Slabs
zero_slab slab s = record s {
  links = set_next (set_prev s.links slab 0) slab 0;
  page = update s.page slab 0;
  using_count = update s.using_count slab 0;
  free_count = update s.free_count slab 0;
  v_address = update s.v_address slab 0;
  color_length = update s.color_length slab 0;
  color_count = update s.color_count slab 0;
  color_map = update s.color_map slab 0;
}

pub zero_cache : ℕ → Slabs → Slabs
zero_cache cache s = record s {
  size = update s.size cache 0;
  total_using = update s.total_using cache 0;
  total_free = update s.total_free cache 0;
  cache_pool = update s.cache_pool cache 0;
  constructor = update s.constructor cache 0;
  destructor = update s.destructor cache 0;
}

-- The fields of a slab for objects of `size` on the page, but its map.
pub set_slab : ℕ → ℕ → ℕ → ℕ → Slabs → Slabs
set_slab slab page size using s =
    let count = page_2m_size / size in
    record s {
      page = update s.page slab page;
      using_count = update s.using_count slab using;
      free_count = update s.free_count slab count;
      v_address = update s.v_address slab (phy_to_virt (s.memory.phy_address page));
      color_count = update s.color_count slab count;
      color_length = update s.color_length slab (map_length count);
    }

module _ (depth fuel : ℕ) where
  -- The slab's map, all clear; with no memory for it the page goes back, and the result is 0.
  pub give_map : ℕ → Step ℕ
  give_map slab = do
    map ← (λ s. kmalloc depth fuel (s.color_length slab) s)
    λ s.
        if map == 0
        then some (0, record s { memory = free_pages s.memory (some (s.page slab)) 1 })
        else some (
          map,
          fill (record s { color_map = update s.color_map slab map }) map (s.color_length slab)
              false,
        )

  -- `slab_create`; the first slab of the cache counts its objects as used and as free.
  pub slab_create : ℕ → (constructor destructor : ℕ) → Step ℕ
  slab_create size constructor destructor = do
    cache ← kmalloc depth fuel sizeof_slab_cache
    λ s.
        if cache == 0
        then some (0, s)
        else (do
          pool ← (λ s.
              let s' = zero_cache cache s in
              kmalloc depth fuel sizeof_slab
                (record s' { size = update s'.size cache (long_align size) }))
          λ s.
              if pool == 0
              then (do done ← kfree depth fuel cache; pure 0)
                  (record s { cache_pool = update s.cache_pool cache 0 })
              else (do
                found ← (λ s.
                    let s' =
                      zero_slab pool (record s { cache_pool = update s.cache_pool cache pool }) in
                    new_page (record s' {
                      constructor = update s'.constructor cache constructor;
                      destructor = update s'.destructor cache destructor;
                      links = list_init s'.links pool;
                    }))
                elim found [
                  | none ↦ (do done ← kfree depth fuel pool; again ← kfree depth fuel cache; pure 0)
                  | some page ↦ (do
                    map ← (λ s.
                        let count = page_2m_size / s.size cache in
                        give_map pool (record (set_slab pool page (s.size cache) count s) {
                          total_free = update s.total_free cache count;
                        }))
                    if map == 0
                        then (do
                          done ← kfree depth fuel pool
                          again ← kfree depth fuel cache
                          pure 0)
                        else pure cache)
                ])
                  s)
            s

  -- A new slab behind the first one of the cache; 0 if there is no memory for it.
  pub grow : ℕ → Step ℕ
  grow cache = do
    slab ← kmalloc depth fuel sizeof_slab
    if slab == 0 then pure 0 else (do
      found ← (λ s.
          let s' = zero_slab slab s in new_page (record s' { links = list_init s'.links slab }))
      elim found [
        | none ↦ (do done ← kfree depth fuel slab; pure 0)
        | some page ↦ (do
          map ← (λ s. give_map slab (set_slab slab page (s.size cache) 0 s))
          if map == 0 then (do done ← kfree depth fuel slab; pure 0) else (λ s. some (
            slab,
            record s {
              links = list_add_to_behind s.links (s.cache_pool cache) slab;
              total_free = change s.total_free cache (λ n. (n + s.color_count slab) % 2 ^ 64);
            },
          )))
      ])
