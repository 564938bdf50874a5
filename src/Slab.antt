-- ===== src/Slab.antt =====
-- The object allocator of os/kernel/memory.c: `struct Slab` and `struct Slab_cache` of
-- os/include/memory.h, with what `kmalloc`, `kfree` and the `slab_` functions share. Slabs, caches,
-- colour maps and pages are addresses, their fields are memory; a colour map is kept bit by bit, bit
-- `j % 64` of word `j / 64` as `bit map j`. A slab and the list node in it have one address.
pub mod Kmalloc
pub mod Kfree
pub mod Init
pub mod Cache
pub mod Objects
pub mod Map
pub mod Count
pub mod Sound
pub mod Take
mod Tests
use kalinote_os.Base.{
  ℕ, zero, suc, ◌+◌, ◌-◌, ◌*◌, ◌/◌, ◌%◌, ◌^◌, Bool, true, false, ◌&&◌, not, Option, none, some, ltb,
  leb, ◌==◌, if◌then◌else◌, update,
}
use kalinote_os.Links.{Links, list_next}
use kalinote_os.Pages.{Memory, inc, dec, change}

pub record Slabs : Type 0 where
  pub links : Links
  pub page : ℕ → ℕ
  pub using_count : ℕ → ℕ
  pub free_count : ℕ → ℕ
  pub v_address : ℕ → ℕ
  pub color_length : ℕ → ℕ
  pub color_count : ℕ → ℕ
  pub color_map : ℕ → ℕ
  pub bit : ℕ → ℕ → Bool
  pub size : ℕ → ℕ
  pub total_using : ℕ → ℕ
  pub total_free : ℕ → ℕ
  pub cache_pool : ℕ → ℕ
  pub constructor : ℕ → ℕ
  pub destructor : ℕ → ℕ
  pub memory : Memory

-- A step ends in a new state; `none` is a fault (NULL is written through) or a loop out of fuel.
abbrev pub Step : Type 0 → Type 0
Step A = Slabs → Option (A × Slabs)

abbrev pub pure : {A : Type 0} → A → Step A
pure a s = some (a, s)

infixl 5 ◌>>=◌
abbrev pub ◌>>=◌ : {A B : Type 0} → Step A → (A → Step B) → Step B
◌>>=◌ m f s = elim (m s) [ none ↦ none | some (a, s') ↦ f a s' ]

-- `sizeof(struct Slab)`, and the size of a page.
abbrev pub sizeof_slab : ℕ
sizeof_slab = 72

abbrev pub page_2m_size : ℕ
page_2m_size = 2097152

-- The address of `kmalloc_cache_size[i]`.
abbrev pub kmalloc_cache : ℕ → ℕ
kmalloc_cache i = i + 1

abbrev pub phy_to_virt : ℕ → ℕ
phy_to_virt p = (p + 0xffff800000000000) % 2 ^ 64

-- `memset` of `length` bytes of a colour map, 0xff for `true`.
pub fill : Slabs → ℕ → ℕ → Bool → Slabs
fill s map length v = record s {
  bit = update s.bit map (λ j. if ltb j (8 * length) then v else s.bit map j);
}

-- `^= 1UL << j % 64` on the word of `j`.
pub toggle : Slabs → ℕ → ℕ → Slabs
toggle s map j = record s { bit = update s.bit map (update (s.bit map) j (not (s.bit map j))) }

-- The loop that toggles the first bits; `left` are left.
pub toggle_first : Slabs → ℕ → ℕ → ℕ → Slabs
toggle_first s map i zero = s
toggle_first s map i (suc left) = toggle_first (toggle s map i) map (i + 1) left

-- The word that begins at bit `from` is all ones.
unfoldable pub word_full : (ℕ → Bool) → ℕ → ℕ → Bool
word_full bits from zero = true
word_full bits from (suc n) = bits from && word_full bits (from + 1) n

-- The loop on `j`: the first clear bit, with `left` rounds left.
unfoldable pub scan_map : (ℕ → Bool) → ℕ → ℕ → ℕ → Option ℕ
scan_map bits count j zero = none
scan_map bits count j (suc left) =
    let full = word_full bits (j / 64 * 64) 64 in
    let rest = scan_map bits count (if full then j + 64 else j + 1) left in
    if leb count j then none else if full then rest else if bits j then rest else some j

-- The same search without the test of whole words.
unfoldable pub scan_bits : (ℕ → Bool) → ℕ → ℕ → ℕ → Option ℕ
scan_bits bits count j zero = none
scan_bits bits count j (suc left) =
    let rest = scan_bits bits count (j + 1) left in
    if leb count j then none else if bits j then rest else some j

-- An object of the slab is taken: its bit, and the counts of slab and cache.
pub take_object : ℕ → ℕ → ℕ → Slabs → Slabs
take_object cache slab j s =
    let map = s.color_map slab in
    record s {
      bit = update s.bit map (update (s.bit map) j true);
      using_count = change s.using_count slab inc;
      free_count = change s.free_count slab dec;
      total_free = change s.total_free cache dec;
      total_using = change s.total_using cache inc;
    }

-- An object is given back; the bit is toggled, whatever it was.
pub give_object : ℕ → ℕ → ℕ → Slabs → Slabs
give_object cache slab j s =
    let s' = toggle s (s.color_map slab) j in
    record s' {
      free_count = change s'.free_count slab inc;
      using_count = change s'.using_count slab dec;
      total_free = change s'.total_free cache inc;
      total_using = change s'.total_using cache dec;
    }

-- The object `j` of the slab, as an address.
abbrev pub object : Slabs → ℕ → ℕ → ℕ → ℕ
object s cache slab j = (s.v_address slab + s.size cache * j) % 2 ^ 64
