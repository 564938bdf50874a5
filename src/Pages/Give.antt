-- ===== src/Pages/Give.antt =====
-- What the loop of `free_pages` in os/kernel/memory.c does to the counters of a zone, and what none
-- of the loops changes.
use mathlib.Core.Path.{subst}
use kalinote_os.Base.{
  ℕ, zero, suc, ◌+◌, ◌-◌, ◌%◌, ◌^◌, ◌≤◌, ◌<◌, ◌≡◌, refl, ap, ◌∙◌, arith, update_self,
}
use kalinote_os.Pages.{Memory, inc, dec, change, take_page, take_pages, free_page, free_loop}
use kalinote_os.Pages.Take.{Owned, later, Moved, Moved-change, Moved-none}

pub free_loop-free :
    (m : Memory) (z page number : ℕ)
    → Owned m z page number
    → m.page_free_count z < 2 ^ 64
    → Moved m.page_free_count
        (free_loop m page number).page_free_count
        z
        ((m.page_free_count z + number) % 2 ^ 64)
unfolding free_loop free_page
free_loop-free m z page zero o lt =
    Moved-none m.page_free_count z ((m.page_free_count z + 0) % 2 ^ 64) (omega (arith, lt))
free_loop-free m z page (suc number) o lt =
    let m' = free_page m page in
    let here : m'.page_free_count ≡ change m.page_free_count z inc =
      ap (λ y. change m.page_free_count y inc) (o page (omega arith) (omega arith)).1 in
    let now : m'.page_free_count z ≡ inc (m.page_free_count z) =
      ap (λ f. f z) here ∙ update_self m.page_free_count z (inc (m.page_free_count z)) in
    let f' = (free_loop m' (page + 1) number).page_free_count in
    Moved-change m.page_free_count f' z ((m.page_free_count z + suc number) % 2 ^ 64) inc (
      subst (λ f. Moved f f' z ((m.page_free_count z + suc number) % 2 ^ 64)) here
        (subst (Moved m'.page_free_count f' z) (omega (arith, now))
          (free_loop-free m' z (page + 1) number (later m z page number o) (omega (arith, now)))))

pub free_loop-using :
    (m : Memory) (z page number : ℕ)
    → Owned m z page number
    → number ≤ m.page_using_count z
    → m.page_using_count z < 2 ^ 64
    → Moved m.page_using_count
        (free_loop m page number).page_using_count
        z
        (m.page_using_count z - number)
unfolding free_loop free_page
free_loop-using m z page zero o le lt =
    Moved-none m.page_using_count z (m.page_using_count z - 0) (omega arith)
free_loop-using m z page (suc number) o le lt =
    let m' = free_page m page in
    let here : m'.page_using_count ≡ change m.page_using_count z dec =
      ap (λ y. change m.page_using_count y dec) (o page (omega arith) (omega arith)).1 in
    let now : m'.page_using_count z ≡ m.page_using_count z - 1 =
      ap (λ f. f z) here
      ∙ update_self m.page_using_count z (dec (m.page_using_count z))
      ∙ omega (arith, le, lt) in
    let f' = (free_loop m' (page + 1) number).page_using_count in
    Moved-change m.page_using_count f' z (m.page_using_count z - suc number) dec (
      subst (λ f. Moved f f' z (m.page_using_count z - suc number)) here
        (subst (Moved m'.page_using_count f' z) (omega (arith, now)) (
          free_loop-using m' z (page + 1) number (later m z page number o) (omega (arith, now))
            (omega (arith, now)))))

-- The layout of zones and pages, which the loops do not touch.
pub record Kept (m m' : Memory) : Type 0 where
  pub phy_address : m'.phy_address ≡ m.phy_address
  pub zone_struct : m'.zone_struct ≡ m.zone_struct
  pub zone_start_address : m'.zone_start_address ≡ m.zone_start_address
  pub zone_end_address : m'.zone_end_address ≡ m.zone_end_address
  pub zones_size : m'.zones_size ≡ m.zones_size
  pub zone_dma_index : m'.zone_dma_index ≡ m.zone_dma_index
  pub zone_normal_index : m'.zone_normal_index ≡ m.zone_normal_index
  pub zone_unmaped_index : m'.zone_unmaped_index ≡ m.zone_unmaped_index

pub Kept-refl : (m : Memory) → Kept m m
Kept-refl m = record {
  phy_address = refl;
  zone_struct = refl;
  zone_start_address = refl;
  zone_end_address = refl;
  zones_size = refl;
  zone_dma_index = refl;
  zone_normal_index = refl;
  zone_unmaped_index = refl;
}

pub take_pages-Kept : (m : Memory) (z a page number : ℕ) → Kept m (take_pages m z a page number)
unfolding take_pages take_page
take_pages-Kept m z a page zero = Kept-refl m
take_pages-Kept m z a page (suc number) =
    let k = take_pages-Kept (take_page m z a page) z a (page + 1) number in
    record {
      phy_address = k.phy_address;
      zone_struct = k.zone_struct;
      zone_start_address = k.zone_start_address;
      zone_end_address = k.zone_end_address;
      zones_size = k.zones_size;
      zone_dma_index = k.zone_dma_index;
      zone_normal_index = k.zone_normal_index;
      zone_unmaped_index = k.zone_unmaped_index;
    }
