-- ===== src/Slab/Objects.antt =====
-- The objects of a cache in os/kernel/memory.c: `slab_malloc`, `slab_free` and `slab_destroy`. A
-- constructor is an address; what it returns is a parameter, and what a destructor returns is not
-- used. Both leave the allocator alone.
use kalinote_os.Base.{
  ℕ, zero, suc, ◌+◌, ◌-◌, ◌*◌, ◌/◌, ◌%◌, ◌^◌, ◌&&◌, Option, none, some, ltb, leb, ◌==◌,
  if◌then◌else◌,
}
use kalinote_os.Links.{list_next, list_del, list_is_empty}
use kalinote_os.Slab.{
  Slabs, Step, pure, ◌>>=◌, page_2m_size, scan_map, scan_bits, take_object, give_object, object,
}
use kalinote_os.Slab.Cache.{grow}
use kalinote_os.Slab.Kfree.{kfree, free_page_of, unlink_slab}

module _ (depth fuel : ℕ) where
  -- A slab whose count says that it has free objects, with none in its map, is tried again unless it
  -- is the first one.
  pub from_pool : ℕ → ℕ → ℕ → Step (Option ℕ)
  from_pool cache zero slab s = none
  from_pool cache (suc rounds) slab s =
      let pool = s.cache_pool cache in
      let after : ℕ = if s.free_count slab == 0 then list_next s.links slab else slab in
      let rest = from_pool cache rounds after s in
      let count = s.color_count slab in
      let found : Option ℕ =
        if s.free_count slab == 0
        then none
        else scan_map (s.bit (s.color_map slab)) count 0 count in
      elim found as (λ x. Option (Option ℕ × Slabs)) [
        | none ↦ if after == pool then some (none, s) else rest
        | some j ↦ some (some (object s cache slab j), take_object cache slab j s)
      ]

  -- `call` is what a constructor or destructor returns for an object and `arg`.
  module _ (call : ℕ → ℕ → ℕ → ℕ) where
    -- The object through the constructor, if there is one; 0 is no object.
    pub construct : ℕ → ℕ → ℕ → Step ℕ
    construct cache arg p s =
        if s.constructor cache == 0 then some (p, s) else some (call (s.constructor cache) p arg, s)

    -- What becomes of a new slab that gave no object.
    pub discard : ℕ → Step ℕ
    discard slab = do
      done ← (λ s. kfree depth fuel (s.color_map slab) (record s { links = list_del s.links slab }))
      again ← (λ s. kfree depth fuel slab (free_page_of slab s))
      pure 0

    pub slab_malloc : ℕ → ℕ → Step ℕ
    slab_malloc cache arg s =
        if s.total_free cache == 0
        then (do
          slab ← grow depth fuel cache
          if slab == 0 then pure 0 else (λ s.
              elim (scan_bits (s.bit (s.color_map slab)) (s.color_count slab) 0
                (s.color_count slab)) [
                  | none ↦ discard slab s
                  | some j ↦
                      construct cache arg (object s cache slab j) (take_object cache slab j s)
                ]))
            s
        else (do
          found ← from_pool cache fuel (s.cache_pool cache)
          elim found [ none ↦ pure 0 | some p ↦ construct cache arg p ])
            s

  -- The `do` loop of `slab_free`: the slab in whose page the address lies, or 0.
  pub pool_holding : Slabs → ℕ → ℕ → ℕ → ℕ → Option ℕ
  pool_holding s address pool zero slab = none
  pool_holding s address pool (suc rounds) slab =
      let next = list_next s.links slab in
      let rest = pool_holding s address pool rounds next in
      if leb (s.v_address slab) address && ltb address (s.v_address slab + page_2m_size)
      then some slab
      else if next == pool
      then some 0
      else rest

  -- The slab goes when it is empty and half as many objects again are free, the first one too.
  pub drop_empty : ℕ → ℕ → Step ℕ
  drop_empty cache slab s =
      if s.using_count slab == 0 && leb (s.color_count slab * 3 % 2 ^ 64 / 2) (s.total_free cache)
      then (do
        done ← kfree depth fuel (s.color_map slab)
        again ← (λ s. kfree depth fuel slab (free_page_of slab s))
        pure 1)
          (unlink_slab cache slab s)
      else some (1, s)

  pub slab_free : ℕ → ℕ → Step ℕ
  slab_free cache address s =
      let pool = s.cache_pool cache in
      elim (pool_holding s address pool fuel pool) [
        | none ↦ none
        | some slab ↦
            if slab == 0
            then some (0, s)
            else (let index = (address - s.v_address slab) / s.size cache in
                drop_empty cache slab (give_object cache slab index s))
      ]

  -- What a slab consists of goes: map, page, and the slab itself.
  pub free_slab : ℕ → Step (Unit {0})
  free_slab slab = do
    done ← (λ s. kfree depth fuel (s.color_map slab) s)
    again ← (λ s. kfree depth fuel slab (free_page_of slab s))
    pure tt

  -- The `while` of `slab_destroy`: all slabs but the last one.
  pub destroy_loop : ℕ → ℕ → Step ℕ
  destroy_loop zero slab s = none
  destroy_loop (suc rounds) slab s =
      let next = list_next s.links slab in
      let rest =
        (do
          gone ← (λ s. free_slab slab (record s { links = list_del s.links slab }))
          destroy_loop rounds next)
          s in
      if list_is_empty s.links slab then some (slab, s) else rest

  pub slab_destroy : ℕ → Step ℕ
  slab_destroy cache s =
      if s.total_using cache == 0
      then (do
        last ← destroy_loop fuel (s.cache_pool cache)
        gone ← free_slab last
        done ← kfree depth fuel cache
        pure 1)
          s
      else some (0, s)
