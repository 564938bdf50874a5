-- ===== src/Pages/Tests.antt =====
-- A memory with one zone, and the theorems about the page allocator at it.
use kalinote_os.Base.{◌*◌, ◌^◌, ◌≡◌, ◌||◌, some, refl, arith, ltb, leb, ◌==◌}
use kalinote_os.Pages.{
  Memory, window_free, scan_word, scan_zone, find_in_zone, search_zones, alloc_pages, free_pages,
  page_init, page_clean,
}
use kalinote_os.Pages.Alloc.Sound.{IsSound}
use kalinote_os.Pages.Count.{page_clean-page_init}
use kalinote_os.Pages.Free.{Restored, free_pages-alloc_pages}
use kalinote_os.Pages.Exact.{IsExact, Allocated, alloc_pages-Allocated, alloc_pages-IsExact}
use kalinote_os.Pages.Exact.Bits.{clear_bits}

-- The pages 2 to 69 are the zone; all below 56 and 60 are in use.
abbrev one_zone : Memory
one_zone = record {
  bits_map = λ q. ltb q 56 || q == 60 || leb 70 q;
  zones_size = 1;
  zone_dma_index = 0;
  zone_normal_index = 0;
  zone_unmaped_index = 0;
  phy_address = λ p. p * 2 ^ 21;
  zone_struct = λ p. 0;
  attribute = λ p. 0;
  reference_count = λ p. 0;
  zone_start_address = λ z. 2 * 2 ^ 21;
  zone_end_address = λ z. 70 * 2 ^ 21;
  page_using_count = λ z. 55;
  page_free_count = λ z. 13;
  total_pages_link = λ z. 0;
}

one_zone-IsSound : IsSound one_zone
one_zone-IsSound = record {
  dma_in = omega arith;
  normal_in = omega arith;
  unmaped_in = omega arith;
  pages = λ z h p l r. (omega arith, omega arith);
  apart = λ z q h l r. ground arith;
  counts = λ z. omega arith;
}

one_zone-IsExact : IsExact one_zone
unfolding clear_bits
one_zone-IsExact = record { sound = one_zone-IsSound; free = λ z h. refl; using = λ z h. refl }

-- Nine pages that lie across two words.
found_across_words : (alloc_pages one_zone 2 9).0 ≡ some 61
unfolding alloc_pages search_zones find_in_zone scan_zone scan_word window_free
found_across_words = refl

alloc_pages-Allocated_example : Allocated one_zone 2 9 (alloc_pages one_zone 2 9)
alloc_pages-Allocated_example = alloc_pages-Allocated one_zone 2 9 one_zone-IsExact

free_pages-alloc_pages_example :
    Restored one_zone (free_pages (alloc_pages one_zone 2 9).1 (alloc_pages one_zone 2 9).0 9)
free_pages-alloc_pages_example = free_pages-alloc_pages one_zone 2 9 one_zone-IsSound

alloc_pages-IsExact_example : IsExact (alloc_pages one_zone 2 9).1
alloc_pages-IsExact_example = alloc_pages-IsExact one_zone 2 9 one_zone-IsExact

-- A page in use that is not shared, initialised once more and cleaned.
page_clean-page_init_example :
    (page_clean (page_init (record one_zone { reference_count = λ p. 1 }) 3 8) 3).reference_count 3
    ≡ 0
page_clean-page_init_example =
    page_clean-page_init (record one_zone { reference_count = λ p. 1 }) 3 8 (omega arith)
