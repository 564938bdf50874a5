-- ===== src/Pages.antt =====
-- The page allocator of os/kernel/memory.c on `struct Global_Memory_Descriptor`, `struct Zone` and
-- `struct Page` of os/include/memory.h. A page and a zone are their indices in `pages_struct` and
-- `zones_struct`. `bits_map` is the array of words bit by bit: bit `b` of word `w` has the index
-- `w * 64 + b`. Loops count down the steps that they have left.
pub mod Find
pub mod Take
pub mod Give
pub mod Alloc
pub mod Free
pub mod Exact
pub mod Count
mod Tests
use Prim.Native.Nat.{bit_and, bit_or}
use kalinote_os.Base.{
  ℕ, zero, suc, ◌+◌, ◌-◌, ◌*◌, ◌/◌, ◌%◌, ◌^◌, Bool, true, false, ◌||◌, not, Option, none, some, ltb,
  leb, ◌==◌, if◌then◌else◌, update,
}

pub record Memory : Type 0 where
  pub bits_map : ℕ → Bool
  pub zones_size : ℕ
  pub zone_dma_index : ℕ
  pub zone_normal_index : ℕ
  pub zone_unmaped_index : ℕ
  pub phy_address : ℕ → ℕ
  pub zone_struct : ℕ → ℕ
  pub attribute : ℕ → ℕ
  pub reference_count : ℕ → ℕ
  pub zone_start_address : ℕ → ℕ
  pub zone_end_address : ℕ → ℕ
  pub page_using_count : ℕ → ℕ
  pub page_free_count : ℕ → ℕ
  pub total_pages_link : ℕ → ℕ

abbrev pub page_2m_shift : ℕ
page_2m_shift = 21

abbrev pub pg_ptable_maped : ℕ
pg_ptable_maped = 1

abbrev pub pg_shared : ℕ
pg_shared = 16

abbrev pub zone_dma : ℕ
zone_dma = 1

abbrev pub zone_normal : ℕ
zone_normal = 2

abbrev pub zone_unmaped : ℕ
zone_unmaped = 4

-- `++` and `--` of an `unsigned long`.
abbrev pub inc : ℕ → ℕ
inc n = (n + 1) % 2 ^ 64

abbrev pub dec : ℕ → ℕ
dec n = (n + 2 ^ 64 - 1) % 2 ^ 64

abbrev pub change : (ℕ → ℕ) → ℕ → (ℕ → ℕ) → ℕ → ℕ
change f p step = update f p (step (f p))

-- The test of `number` bits from bit `at` on, in its word and in the next one.
pub window_free : (ℕ → Bool) → ℕ → ℕ → Bool
window_free bits at zero = true
window_free bits at (suc number) =
    let rest = window_free bits (at + 1) number in if bits at then false else rest

-- The loop on `k` over the bits of the word at `j`.
pub scan_word : (ℕ → Bool) → ℕ → ℕ → ℕ → ℕ → Option ℕ
scan_word bits number j k zero = none
scan_word bits number j k (suc left) =
    let rest = scan_word bits number j (k + 1) left in
    if window_free bits (j / 64 * 64 + k) number then some (j + k - j % 64) else rest

-- The loop on `j` over the words of a zone that ends at `finish`.
pub scan_zone : (ℕ → Bool) → ℕ → ℕ → ℕ → ℕ → ℕ → Option ℕ
scan_zone bits number tmp finish j zero = none
scan_zone bits number tmp finish j (suc left) =
    let rest = scan_zone bits number tmp finish (j + (if j % 64 == 0 then 64 else tmp)) left in
    if ltb j finish
    then elim (scan_word bits number j (j % 64) (64 - j % 64)) [
      | none ↦ rest
      | some page ↦ some page
    ]
    else none

-- What the search makes of the zone `z`; every step of `j` is one at least.
pub find_in_zone : Memory → ℕ → ℕ → Option ℕ
find_in_zone m number z =
    let start = m.zone_start_address z / 2 ^ page_2m_shift in
    let finish = m.zone_end_address z / 2 ^ page_2m_shift in
    scan_zone m.bits_map number (64 - start % 64) finish start (finish - start)

pub take_page : Memory → ℕ → ℕ → ℕ → Memory
take_page m z attribute pageptr = record m {
  bits_map = update m.bits_map (m.phy_address pageptr / 2 ^ page_2m_shift) true;
  page_using_count = change m.page_using_count z inc;
  page_free_count = change m.page_free_count z dec;
  attribute = update m.attribute pageptr attribute;
}

-- The loop on `l`.
pub take_pages : Memory → ℕ → ℕ → ℕ → ℕ → Memory
take_pages m z attribute page zero = m
take_pages m z attribute page (suc number) =
    take_pages (take_page m z attribute page) z attribute (page + 1) number

-- The loop on `i` over `left` zones; `none` is NULL.
pub search_zones : Memory → ℕ → ℕ → ℕ → ℕ → Option ℕ × Memory
search_zones m number attribute i zero = (none, m)
search_zones m number attribute i (suc left) =
    let rest = search_zones m number attribute (i + 1) left in
    if ltb (m.page_free_count i) number then rest else elim (find_in_zone m number i) [
      | none ↦ rest
      | some page ↦ (some page, take_pages m i attribute page number)
    ]

pub alloc_pages : Memory → ℕ → ℕ → Option ℕ × Memory
alloc_pages m zone_select number =
    if leb 64 number || number == 0
    then (none, m)
    else if zone_select == zone_dma
    then search_zones m number pg_ptable_maped 0 (m.zone_dma_index + 1)
    else if zone_select == zone_normal
    then search_zones m number pg_ptable_maped m.zone_dma_index
        (m.zone_normal_index + 1 - m.zone_dma_index)
    else if zone_select == zone_unmaped
    then search_zones m number 0 m.zone_unmaped_index (m.zones_size - m.zone_unmaped_index)
    else (none, m)

pub free_page : Memory → ℕ → Memory
free_page m page = record m {
  bits_map = update m.bits_map (m.phy_address page / 2 ^ page_2m_shift) false;
  page_using_count = change m.page_using_count (m.zone_struct page) dec;
  page_free_count = change m.page_free_count (m.zone_struct page) inc;
  attribute = update m.attribute page 0;
}

-- The loop of `free_pages`.
pub free_loop : Memory → ℕ → ℕ → Memory
free_loop m page zero = m
free_loop m page (suc number) = free_loop (free_page m page) (page + 1) number

pub free_pages : Memory → Option ℕ → ℕ → Memory
free_pages m none number = m
free_pages m (some page) number =
    if leb 64 number || number == 0 then m else free_loop m page number

pub page_init : Memory → ℕ → ℕ → Memory
page_init m page flags =
    let attribute = bit_or (m.attribute page) flags in
    let m' = record m { attribute = update m.attribute page attribute } in
    if (m.reference_count page == 0) || not (bit_and attribute pg_shared == 0)
    then record m' {
      reference_count = change m.reference_count page inc;
      total_pages_link = change m.total_pages_link (m.zone_struct page) inc;
    }
    else m'

pub page_clean : Memory → ℕ → Memory
page_clean m page =
    let count = dec (m.reference_count page) in
    let m' = record m {
      reference_count = update m.reference_count page count;
      total_pages_link = change m.total_pages_link (m.zone_struct page) dec;
    } in
    if count == 0
    then record m' {
      attribute = update m.attribute page (bit_and (m.attribute page) pg_ptable_maped);
    }
    else m'
