-- ===== src/Pages/Alloc/Sound.antt =====
-- When the zones of os/kernel/memory.c are sound, and what it means that pages of a zone are taken.
use mathlib.Core.Path.{subst}
use kalinote_os.Base.{
  ℕ, ◌+◌, ◌-◌, ◌/◌, ◌^◌, ◌≤◌, ◌<◌, ◌≡◌, inl, inr, true, false, some, arith, leb, Bool-cases,
}
use kalinote_os.Pages.{Memory, window_free, take_pages}
use kalinote_os.Pages.Find.{Finds, window_free-bits}
use kalinote_os.Pages.Take.{
  Owned, Filled, Moved, take_pages-Filled, take_pages-free, take_pages-using,
}
use kalinote_os.Pages.Give.{Kept, take_pages-Kept}

abbrev pub first_page : Memory → ℕ → ℕ
first_page m z = m.zone_start_address z / 2 ^ 21

abbrev pub end_page : Memory → ℕ → ℕ
end_page m z = m.zone_end_address z / 2 ^ 21

-- The zones as `init_memory` lays them out when at least 64 pages that cannot be used follow each.
pub record IsSound (m : Memory) : Type 0 where
  pub dma_in : m.zone_dma_index < m.zones_size
  pub normal_in : m.zone_normal_index < m.zones_size
  pub unmaped_in : m.zone_unmaped_index < m.zones_size
  pub pages :
      (z : ℕ) → z < m.zones_size → Owned m z (first_page m z) (end_page m z - first_page m z)
  pub apart :
      (z q : ℕ) → z < m.zones_size → end_page m z ≤ q → q < end_page m z + 64 → m.bits_map q ≡ true
  pub counts : (z : ℕ) → m.page_using_count z + m.page_free_count z < 2 ^ 64

-- From `m` to `m'` the pages from `page` on, which are the first free window of the zone, were taken:
-- their bits and no others are set, and the counts of the zone and of no other are moved.
pub record Taken (m : Memory) (number z page : ℕ) (m' : Memory) : Type 0 where
  pub fits : number ≤ m.page_free_count z
  pub starts : first_page m z ≤ page
  pub ends : page + number ≤ end_page m z
  pub first : (q : ℕ) → first_page m z ≤ q → q < page → window_free m.bits_map q number ≡ false
  pub clear : (q : ℕ) → page ≤ q → q < page + number → m.bits_map q ≡ false
  pub bits : Filled m.bits_map m'.bits_map page number true
  pub free : Moved m.page_free_count m'.page_free_count z (m.page_free_count z - number)
  pub using : Moved m.page_using_count m'.page_using_count z (m.page_using_count z + number)
  pub kept : Kept m m'

-- A window found lies in its zone.
pub inside_zone :
    (m : Memory) (number z page : ℕ)
    → IsSound m
    → z < m.zones_size
    → 0 < number
    → page < end_page m z + 64
    → ((q : ℕ) → page ≤ q → q < page + number → m.bits_map q ≡ false)
    → page + number ≤ end_page m z
inside_zone m number z page s h pos below clear = grind (arith, no_bit page, no_bit (end_page m z))
  where
    no_bit : (q : ℕ) → end_page m z ≤ q → q < end_page m z + 64 → page ≤ q → page + number ≤ q
    no_bit q l r f = elim (Bool-cases (leb (page + number) q)) [
      | inl b ↦ ground (arith, b)
      | inr b ↦ absurd (ground (arith, s.apart z q h l r, clear q f (ground (arith, b))))
    ]

pub take_pages-Taken :
    (m : Memory) (number z a page : ℕ)
    → IsSound m
    → z < m.zones_size
    → 0 < number
    → number ≤ m.page_free_count z
    → Finds m.bits_map number (end_page m z + 64) (first_page m z) (end_page m z) (some page)
    → Taken m number z page (take_pages m z a page number)
take_pages-Taken m number z a page s h pos le (starts, below, e, first) =
    let clear = window_free-bits m.bits_map page number e in
    let ends = inside_zone m number z page s h pos below clear in
    let o : Owned m z page number =
      λ p l r. s.pages z h p (omega (arith, l, starts)) (omega (arith, l, r, starts, ends)) in
    record {
      fits = le;
      kept = take_pages-Kept m z a page number;
      starts = starts;
      ends = ends;
      first = first;
      clear = clear;
      bits = take_pages-Filled m z a page number o;
      free = take_pages-free m z a page number le (omega (arith, s.counts z));
      using =
          subst (Moved m.page_using_count (take_pages m z a page number).page_using_count z)
            (omega (arith, s.counts z, le))
            (take_pages-using m z a page number (omega (arith, s.counts z)));
    }
