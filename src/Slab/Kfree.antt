-- ===== src/Slab/Kfree.antt =====
-- `kfree` of os/kernel/memory.c. It calls itself for what an empty slab consists of; `depth` bounds
-- how deep, and `fuel` each walk along the slabs of a cache.
pub mod Find
pub mod Undo
pub mod Round
use kalinote_os.Base.{
  ℕ, zero, suc, ◌+◌, ◌-◌, ◌*◌, ◌/◌, ◌%◌, ◌^◌, Bool, true, false, ◌&&◌, not, List, [], ◌∷◌, Option,
  none, some, ltb, leb, ◌==◌, if◌then◌else◌, has, update,
}
use kalinote_os.Links.{list_next, list_del}
use kalinote_os.Pages.{page_clean, free_pages, change}
use kalinote_os.Slab.{Slabs, Step, pure, ◌>>=◌, page_2m_size, kmalloc_cache, give_object}
use kalinote_os.Slab.Kmalloc.{small_sizes}

-- The `do` loop along the slabs of one cache: the slab whose objects begin at `base`, or 0.
pub pool_find : Slabs → ℕ → ℕ → ℕ → ℕ → Option ℕ
pool_find s base pool zero slab = none
pool_find s base pool (suc fuel) slab =
    let next = list_next s.links slab in
    let rest = pool_find s base pool fuel next in
    if s.v_address slab == base then some slab else if next == pool then some 0 else rest

-- The loop on `i` over the caches: cache and slab, or (0, 0).
pub owner : Slabs → ℕ → ℕ → ℕ → ℕ → Option (ℕ × ℕ)
owner s base fuel i zero = some (0, 0)
owner s base fuel i (suc left) =
    let rest = owner s base fuel (i + 1) left in
    let pool = s.cache_pool (kmalloc_cache i) in
    elim (pool_find s base pool fuel pool) [
      | none ↦ none
      | some slab ↦ if slab == 0 then rest else some (kmalloc_cache i, slab)
    ]

-- `page_clean` and `free_pages` of the slab's page.
pub free_page_of : ℕ → Slabs → Slabs
free_page_of slab s =
    let page = s.page slab in
    record s { memory = free_pages (page_clean s.memory page) (some page) 1 }

-- The slab out of the list, with its objects out of the count.
pub unlink_slab : ℕ → ℕ → Slabs → Slabs
unlink_slab cache slab s = record s {
  links = list_del s.links slab;
  total_free = change s.total_free cache (λ n. (n + 2 ^ 64 - s.color_count slab) % 2 ^ 64);
}

-- An empty slab goes when half as many objects again as it has are free in the cache.
unfoldable pub is_spare : ℕ → ℕ → Slabs → Bool
is_spare cache slab s =
    s.using_count slab == 0
    && (leb (s.color_count slab * 3 % 2 ^ 64 / 2) (s.total_free cache)
        && not (s.cache_pool cache == slab))

-- What is done with such a slab, with the `kfree` that is called.
pub drop_slab : (ℕ → Step ℕ) → ℕ → ℕ → Step (Unit {0})
drop_slab kfree cache slab s =
    let s' = unlink_slab cache slab s in
    if has (s.size cache) small_sizes
    then some (tt, free_page_of slab s')
    else (do
      done ← kfree (s'.color_map slab)
      freed ← (λ s. some (tt, free_page_of slab s))
      again ← kfree slab
      pure tt)
        s'

pub kfree : ℕ → ℕ → ℕ → Step ℕ
kfree zero fuel address s = none
kfree (suc depth) fuel address s =
    elim (owner s (address / page_2m_size * page_2m_size) fuel 0 16) as (λ x. Option (ℕ × Slabs)) [
      | none ↦ none
      | some (cache, slab) ↦
          if cache == 0
          then some (0, s)
          else (let index = (address - s.v_address slab) / s.size cache in
              let s' = give_object cache slab index s in
              if is_spare cache slab s'
              then elim (drop_slab (kfree depth fuel) cache slab s') as (λ x. Option (ℕ × Slabs)) [
                | none ↦ none
                | some (u, s'') ↦ some (1, s'')
              ]
              else some (1, s'))
    ]
