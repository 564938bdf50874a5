-- ===== src/Slab/Sound.antt =====
-- When a cache of os/kernel/memory.c is sound: its counts are those of the bits in its slabs' maps.
use kalinote_os.Base.{sum_of, ℕ, ◌+◌, ◌^◌, ◌<◌, ◌≡◌, List, ◌∷◌, map, All, ◌∉◌, Distinct}
use kalinote_os.Links.Ring.{IsRing}
use kalinote_os.Slab.{Slabs}
use kalinote_os.Slab.Count.{clear_bits}

-- The counts of a slab are those of its map.
pub record IsSlab (s : Slabs) (slab : ℕ) : Type 0 where
  pub free : s.free_count slab ≡ clear_bits (s.bit (s.color_map slab)) (s.color_count slab)
  pub all : s.using_count slab + s.free_count slab ≡ s.color_count slab

-- The cache has the slabs of its pool and `slabs`, in the order of the list.
pub record IsCache (s : Slabs) (cache : ℕ) (slabs : List ℕ) : Type 0 where
  pub ring : IsRing s.links (s.cache_pool cache) slabs
  pub no_null : 0 ∉ (s.cache_pool cache ∷ slabs)
  pub each : All (IsSlab s) (s.cache_pool cache ∷ slabs)
  pub maps : Distinct (map s.color_map (s.cache_pool cache ∷ slabs))
  pub free : s.total_free cache ≡ sum_of s.free_count (s.cache_pool cache ∷ slabs)
  pub using : s.total_using cache ≡ sum_of s.using_count (s.cache_pool cache ∷ slabs)
  pub fits : s.total_using cache + s.total_free cache < 2 ^ 64
