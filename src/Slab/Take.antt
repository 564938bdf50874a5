-- ===== src/Slab/Take.antt =====
-- Taking an object from a slab of a sound cache, and giving one back, keep the cache of
-- os/kernel/memory.c sound.
use kalinote_os.Base.{
  ℕ, ◌+◌, ◌≤◌, ◌<◌, ◌≡◌, ◌≢◌, Bool, true, false, not, List, ◌∷◌, arith, sym, ◌∙◌, ap, has, update,
  update_self, update_ne, sum_of-update, sum_of-le, All-has, All-except, map_unique,
}
use kalinote_os.Pages.{inc, dec}
use kalinote_os.Slab.{Slabs, take_object, give_object, toggle}
use kalinote_os.Slab.Count.{clear_bits, clear_bits-set, clear_bits-clear, clear_bits-le}
use kalinote_os.Slab.Sound.{IsSlab, IsCache}

-- The slabs of the cache, the first one included.
abbrev pub pool_of : Slabs → ℕ → List ℕ → List ℕ
pool_of s cache slabs = s.cache_pool cache ∷ slabs

module _ (s : Slabs) (cache : ℕ) (slabs : List ℕ) (c : IsCache s cache slabs) (slab : ℕ)
    (h : has slab (pool_of s cache slabs) ≡ true) where
  pub its-IsSlab : IsSlab s slab
  its-IsSlab = All-has (IsSlab s) slab (pool_of s cache slabs) c.each h

  pub free-le : s.free_count slab ≤ s.total_free cache
  free-le = omega (arith, c.free, sum_of-le s.free_count slab (pool_of s cache slabs) h)

  pub using-le : s.using_count slab ≤ s.total_using cache
  using-le = omega (arith, c.using, sum_of-le s.using_count slab (pool_of s cache slabs) h)

  -- Only this slab, its map and the counts of the cache change.
  abbrev moved : (ℕ → Bool) → (free using total_free total_using : ℕ) → Slabs
  moved bits free using total_free total_using = record s {
    bit = update s.bit (s.color_map slab) bits;
    free_count = update s.free_count slab free;
    using_count = update s.using_count slab using;
    total_free = update s.total_free cache total_free;
    total_using = update s.total_using cache total_using;
  }

  moved-IsSlab :
      (bits : ℕ → Bool) (free using tf tu : ℕ)
      → free ≡ clear_bits bits (s.color_count slab)
      → using + free ≡ s.color_count slab
      → IsSlab (moved bits free using tf tu) slab
  moved-IsSlab bits free using tf tu count all = record {
    free =
        update_self s.free_count slab free
        ∙ count
        ∙ ap (λ b. clear_bits b (s.color_count slab))
            (sym (update_self s.bit (s.color_map slab) bits));
    all =
        omega
          (arith, update_self s.free_count slab free, update_self s.using_count slab using, all);
  }

  moved-IsSlab_other :
      (bits : ℕ → Bool) (free using tf tu x : ℕ)
      → x ≢ slab
      → has x (pool_of s cache slabs) ≡ true
      → IsSlab s x
      → IsSlab (moved bits free using tf tu) x
  moved-IsSlab_other bits free using tf tu x ne k i =
      let ne' : slab ≢ x = λ e. ne (sym e) in
      let maps : s.color_map slab ≢ s.color_map x =
        λ e. ne' (map_unique s.color_map slab x (pool_of s cache slabs) c.maps h k e) in
      record {
        free =
            update_ne s.free_count slab x free ne'
            ∙ i.free
            ∙ ap (λ b. clear_bits b (s.color_count x))
                (sym (update_ne s.bit (s.color_map slab) (s.color_map x) bits maps));
        all = omega (
          arith,
          update_ne s.free_count slab x free ne',
          update_ne s.using_count slab x using ne',
          i.all,
        );
      }

  -- With counts that fit the new map the cache stays sound.
  moved-IsCache :
      (bits : ℕ → Bool) (free using tf tu : ℕ)
      → free ≡ clear_bits bits (s.color_count slab)
      → using + free ≡ s.color_count slab
      → tf + s.free_count slab ≡ s.total_free cache + free
      → tu + s.using_count slab ≡ s.total_using cache + using
      → IsCache (moved bits free using tf tu) cache slabs
  moved-IsCache bits free using tf tu count all ef eu =
      let pool = pool_of s cache slabs in
      let fsum = sum_of-update s.free_count slab free pool c.ring.distinct h in
      let usum = sum_of-update s.using_count slab using pool c.ring.distinct h in
      record {
        ring = c.ring;
        no_null = c.no_null;
        each =
            All-except (IsSlab s) (IsSlab (moved bits free using tf tu)) slab pool
              (moved-IsSlab bits free using tf tu count all)
              (λ x ne k i. moved-IsSlab_other bits free using tf tu x ne k i) c.each;
        maps = c.maps;
        free = omega (arith, update_self s.total_free cache tf, fsum, ef, c.free);
        using = omega (arith, update_self s.total_using cache tu, usum, eu, c.using);
        fits = omega (
          arith,
          update_self s.total_free cache tf,
          update_self s.total_using cache tu,
          ef,
          eu,
          all,
          its-IsSlab.all,
          c.fits,
        );
      }

  -- An object that is free is taken.
  pub take_object-IsCache :
      (j : ℕ)
      → j < s.color_count slab
      → s.bit (s.color_map slab) j ≡ false
      → IsCache (take_object cache slab j s) cache slabs
  unfolding take_object
  take_object-IsCache j lt clear =
      let bits = s.bit (s.color_map slab) in
      let one = clear_bits-set bits (s.color_count slab) j lt clear in
      moved-IsCache (update bits j true) (dec (s.free_count slab)) (inc (s.using_count slab))
        (dec (s.total_free cache)) (inc (s.total_using cache))
        (omega (arith, one, its-IsSlab.free, free-le, c.fits))
        (omega (arith, one, its-IsSlab.free, its-IsSlab.all, free-le, using-le, c.fits))
        (omega (arith, one, its-IsSlab.free, free-le, c.fits))
        (omega (arith, one, its-IsSlab.free, its-IsSlab.all, free-le, using-le, c.fits))

  -- An object that is in use is given back.
  pub give_object-IsCache :
      (j : ℕ)
      → j < s.color_count slab
      → s.bit (s.color_map slab) j ≡ true
      → IsCache (give_object cache slab j s) cache slabs
  unfolding give_object toggle
  give_object-IsCache j lt set =
      let bits = s.bit (s.color_map slab) in
      let one = clear_bits-clear bits (s.color_count slab) j lt set in
      let more = clear_bits-le (update bits j false) (s.color_count slab) in
      let off : not (bits j) ≡ false = ap not set in
      rw off (
        moved-IsCache (update bits j false) (inc (s.free_count slab)) (dec (s.using_count slab))
          (inc (s.total_free cache)) (dec (s.total_using cache))
          (omega (arith, one, more, its-IsSlab.free, its-IsSlab.all, free-le, using-le, c.fits))
          (omega (arith, one, more, its-IsSlab.free, its-IsSlab.all, free-le, using-le, c.fits))
          (omega (arith, one, more, its-IsSlab.free, its-IsSlab.all, free-le, using-le, c.fits))
          (omega (arith, one, more, its-IsSlab.free, its-IsSlab.all, free-le, using-le, c.fits)))
