-- ===== src/Slab/Init/Laid.antt =====
-- What `init_cache` of os/kernel/memory.c makes of its cache, and of the caches before it.
use mathlib.Core.Path.{subst}
use kalinote_os.Base.{
  ℕ, ◌/◌, ◌^◌, ◌<◌, ◌≡◌, ◌≢◌, Bool, false, [], arith, sym, ◌∙◌, ap, refl, ◌==◌, ==_self, update,
  update_self,
}
use kalinote_os.Links.{list_init}
use kalinote_os.Slab.{Slabs, page_2m_size, kmalloc_cache}
use kalinote_os.Slab.Kmalloc.{map_length}
use kalinote_os.Slab.Sound.{IsCache}
use kalinote_os.Slab.Count.{clear_bits}
use kalinote_os.Slab.Init.{first_slab, map_at, init_cache}
use kalinote_os.Slab.Init.Fresh.{clear_map-Fresh}

-- A cache with one slab, none of whose objects is in use.
pub record IsFresh (s : Slabs) (cache : ℕ) : Type 0 where
  pub next : s.links.next (s.cache_pool cache) ≡ s.cache_pool cache
  pub prev : s.links.prev (s.cache_pool cache) ≡ s.cache_pool cache
  pub no_null : s.cache_pool cache ≢ 0
  pub free : s.free_count (s.cache_pool cache) ≡ s.color_count (s.cache_pool cache)
  pub using : s.using_count (s.cache_pool cache) ≡ 0
  pub clear :
      clear_bits (s.bit (s.color_map (s.cache_pool cache))) (s.color_count (s.cache_pool cache))
      ≡ s.color_count (s.cache_pool cache)
  pub total_free : s.total_free cache ≡ s.color_count (s.cache_pool cache)
  pub total_using : s.total_using cache ≡ 0
  pub count : s.color_count (s.cache_pool cache) ≡ page_2m_size / s.size cache

pub IsFresh-IsCache : (s : Slabs) (cache : ℕ) → IsFresh s cache → IsCache s cache []
IsFresh-IsCache s cache f =
    let small : page_2m_size / s.size cache < 2 ^ 64 = omega arith in
    record {
      ring = record { links = (f.next, f.prev); distinct = (refl, tt) };
      no_null = ground (arith, f.no_null);
      each = (record { free = f.free ∙ sym f.clear; all = omega (arith, f.using, f.free) }, tt);
      maps = (refl, tt);
      free = omega (arith, f.total_free, f.free);
      using = omega (arith, f.total_using, f.using);
      fits = omega (arith, f.total_using, f.total_free, f.count, small);
    }

-- What `init_cache` makes of the state, with these bits.
abbrev pub laid : ℕ → ℕ → Slabs → (ℕ → ℕ → Bool) → Slabs
laid i finish s bits =
    let cache = kmalloc_cache i in
    record (first_slab i finish s) {
      bit = bits;
      total_free = update s.total_free cache (page_2m_size / s.size cache);
      total_using = update s.total_using cache 0;
    }

-- The bits are clear for the objects of the new slab, and as they were in the other maps.
pub record Bits (i finish : ℕ) (s : Slabs) (bits : ℕ → ℕ → Bool) : Type 0 where
  pub others : (a : ℕ) → map_at finish ≢ a → bits a ≡ s.bit a
  pub clear :
      clear_bits (bits (map_at finish)) (page_2m_size / s.size (kmalloc_cache i))
      ≡ page_2m_size / s.size (kmalloc_cache i)

pub init_cache-laid :
    (i finish : ℕ) (s : Slabs)
    → (bits : ℕ → ℕ → Bool) × ((init_cache i finish s).1 ≡ laid i finish s bits)
      × Bits i finish s bits
unfolding init_cache
init_cache-laid i finish s =
    let t = first_slab i finish s in
    let count = page_2m_size / s.size (kmalloc_cache i) in
    let its_count : t.color_count finish ≡ count = update_self s.color_count finish count in
    let its_length : t.color_length finish ≡ map_length count =
      update_self s.color_length finish (map_length count) in
    let its_map : t.color_map finish ≡ map_at finish =
      update_self s.color_map finish (map_at finish) in
    let f = clear_map-Fresh t finish (omega (arith, its_count, its_length)) in
    let cache = kmalloc_cache i in
    let totals : Slabs → Slabs = λ z. record z {
      total_free = update z.total_free cache count;
      total_using = update z.total_using cache 0;
    } in
    (
      f.bits,
      ap totals f.only,
      record {
        others = λ a n. f.others a (λ e. n (sym its_map ∙ e));
        clear =
            subst (λ z. clear_bits (f.bits (map_at finish)) z ≡ z) its_count
              (subst (λ z. clear_bits (f.bits z) (t.color_count finish) ≡ t.color_count finish)
                its_map f.clear);
      },
    )

pub laid-IsFresh :
    (i finish : ℕ) (s : Slabs) (bits : ℕ → ℕ → Bool)
    → finish ≢ 0
    → Bits i finish s bits
    → IsFresh (laid i finish s bits) (kmalloc_cache i)
unfolding list_init
laid-IsFresh i finish s bits n b = record {
  next = rw (==_self (kmalloc_cache i), ==_self finish) refl;
  prev = rw (==_self (kmalloc_cache i), ==_self finish) refl;
  no_null = rw (==_self (kmalloc_cache i)) n;
  free = rw (==_self (kmalloc_cache i), ==_self finish) refl;
  using = rw (==_self (kmalloc_cache i), ==_self finish) refl;
  clear = rw (==_self (kmalloc_cache i), ==_self finish) b.clear;
  total_free = rw (==_self (kmalloc_cache i), ==_self finish) refl;
  total_using = rw (==_self (kmalloc_cache i)) refl;
  count = rw (==_self (kmalloc_cache i), ==_self finish) refl;
}

pub laid-IsFresh_other :
    (i finish : ℕ) (s : Slabs) (bits : ℕ → ℕ → Bool) (cache : ℕ)
    → cache ≢ kmalloc_cache i
    → s.cache_pool cache ≢ finish
    → s.color_map (s.cache_pool cache) ≢ map_at finish
    → Bits i finish s bits
    → IsFresh s cache
    → IsFresh (laid i finish s bits) cache
unfolding list_init
laid-IsFresh_other i finish s bits cache nc np nm b f =
    let c : (kmalloc_cache i == cache) ≡ false = ground (arith, nc) in
    let p : (finish == s.cache_pool cache) ≡ false = ground (arith, np) in
    let kept = b.others (s.color_map (s.cache_pool cache)) (λ e. nm (sym e)) in
    record {
      next = rw (c, p) f.next;
      prev = rw (c, p) f.prev;
      no_null = rw c f.no_null;
      free = rw (c, p) f.free;
      using = rw (c, p) f.using;
      clear = rw (c, p, kept) f.clear;
      total_free = rw (c, p) f.total_free;
      total_using = rw c f.total_using;
      count = rw (c, p) f.count;
    }
