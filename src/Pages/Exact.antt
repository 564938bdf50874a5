-- ===== src/Pages/Exact.antt =====
-- `alloc_pages` of os/kernel/memory.c where the counts of a zone are those of its clear and set bits.
pub mod Bits
use mathlib.Core.Path.{subst}
use kalinote_os.Base.{
  ℕ, ◌+◌, ◌-◌, ◌/◌, ◌^◌, ◌≤◌, ◌<◌, ◌≡◌, ◌≢◌, ◌⊎◌, inl, inr, Bool, true, false, Option, none, some,
  sym, ap, ◌∙◌, arith, leb, ltb, ◌==◌, Bool-cases,
}
use kalinote_os.Pages.{Memory, window_free, alloc_pages}
use kalinote_os.Pages.Find.{window_free-bits}
use kalinote_os.Pages.Alloc.{Lacks, Chosen, Selected, alloc_pages-Chosen}
use kalinote_os.Pages.Alloc.Sound.{IsSound, first_page, end_page, Taken, inside_zone}
use kalinote_os.Pages.Free.{Taken-IsSound, Selected-in}
use Bits.{clear_bits, clear_bits-same, clear_bits-le, clear_bits-Filled}

-- The zones are sound, the count of free pages of each is the number of its clear bits, and all its
-- other pages are counted as used.
pub record IsExact (m : Memory) : Type 0 where
  pub sound : IsSound m
  pub free :
      (z : ℕ)
      → z < m.zones_size
      → m.page_free_count z ≡ clear_bits m.bits_map (first_page m z) (end_page m z - first_page m z)
  pub using :
      (z : ℕ)
      → z < m.zones_size
      → m.page_using_count z + m.page_free_count z ≡ end_page m z - first_page m z

-- No `number` free pages in a row start in the zone.
abbrev pub HasNone : Memory → ℕ → ℕ → Type 0
HasNone m number z =
    (q : ℕ) → first_page m z ≤ q → q < end_page m z → window_free m.bits_map q number ≡ false

Lacks-HasNone :
    (m : Memory) (number z : ℕ)
    → IsExact m
    → z < m.zones_size
    → 0 < number
    → Lacks m number z
    → HasNone m number z
Lacks-HasNone m number z x h pos (inr none_of) q l r = none_of q l r
Lacks-HasNone m number z x h pos (inl few) q l r =
    elim (Bool-cases (window_free m.bits_map q number)) [
      | inr e ↦ e
      | inl e ↦
          let clear = window_free-bits m.bits_map q number e in
          let ends = inside_zone m number z q x.sound h pos (omega (arith, r)) clear in
          absurd (
            omega (
              arith,
              few,
              x.free z h,
              clear_bits-le m.bits_map (first_page m z) (end_page m z - first_page m z) q number l
                  (omega (arith, l, r, ends)) clear,
            ))
    ]

-- NULL with memory as it was, where no selected zone has the pages; or the pages taken.
abbrev pub Allocated : Memory → ℕ → ℕ → Option ℕ × Memory → Type 0
Allocated m select number (none, m') =
    (m' ≡ m) × ((z : ℕ) → 0 < number → number < 64 → Selected m select z → HasNone m number z)
Allocated m select number (some page, m') =
    (z : ℕ) × Selected m select z × (0 < number) × (number < 64) × Taken m number z page m'

Chosen-Allocated :
    (m : Memory) (select number : ℕ) (r : Option ℕ × Memory)
    → IsExact m
    → Chosen m select number r
    → Allocated m select number r
Chosen-Allocated m select number (none, m') x c = (
  c.0,
  λ z pos lt h. Lacks-HasNone m number z x (Selected-in m select z x.sound h) pos (c.1 z pos lt h),
)
Chosen-Allocated m select number (some page, m') x c = c

-- In sound zones with exact counts, `alloc_pages` either gives NULL, with memory as it was and for a
-- number from 1 to 63 no window of so many free pages that starts in any zone selected; or it gives
-- the first of `number` pages of a selected zone, the first in the zone that are all free, and then
-- these and no other pages are marked as used, and the counts of that zone and of no other are moved.
pub alloc_pages-Allocated :
    (m : Memory) (select number : ℕ)
    → IsExact m
    → Allocated m select number (alloc_pages m select number)
alloc_pages-Allocated m select number x =
    Chosen-Allocated m select number (alloc_pages m select number) x
      (alloc_pages-Chosen m select number x.sound)

-- A page is in one zone at most.
zones_apart :
    (m : Memory) (y z p : ℕ)
    → IsSound m
    → y < m.zones_size
    → z < m.zones_size
    → (first_page m y ≤ p) × (p < end_page m y)
    → (first_page m z ≤ p) × (p < end_page m z)
    → y ≡ z
zones_apart m y z p s hy hz (ly, ry) (lz, rz) =
    sym (s.pages y hy p ly (omega (arith, ly, ry))).1
    ∙ (s.pages z hz p lz (omega (arith, lz, rz))).1

Taken-IsExact :
    (m : Memory) (number z page : ℕ) (m' : Memory)
    → IsExact m
    → z < m.zones_size
    → Taken m number z page m'
    → IsExact m'
Taken-IsExact m number z page m' x h t = record {
  sound = Taken-IsSound m number z page m' x.sound h t;
  free = λ y b.
      let hy : y < m.zones_size = omega (arith, b, t.kept.zones_size) in
      free_of y hy
      ∙ sym (
          ap (λ a. clear_bits m'.bits_map a (end_page m' y - a)) (start y)
          ∙ ap (λ e. clear_bits m'.bits_map (first_page m y) (e - first_page m y)) (end y));
  using = λ y b.
      let hy : y < m.zones_size = omega (arith, b, t.kept.zones_size) in using_of y (x.using y hy);
}
  where
    start : (y : ℕ) → first_page m' y ≡ first_page m y
    start y = ap (λ f. f y / 2 ^ 21) t.kept.zone_start_address

    end : (y : ℕ) → end_page m' y ≡ end_page m y
    end y = ap (λ f. f y / 2 ^ 21) t.kept.zone_end_address

    out_of :
        (y : ℕ)
        → y < m.zones_size
        → y ≢ z
        → (q : ℕ) → first_page m y ≤ q
        → q < end_page m y
        → (q < page) ⊎ (page + number ≤ q)
    out_of y hy ne q l r = elim (Bool-cases (ltb q page)) [
      | inl b ↦ inl (ground (arith, b))
      | inr b ↦ elim (Bool-cases (leb (page + number) q)) [
        | inl c ↦ inr (ground (arith, c))
        | inr c ↦
            let above : page ≤ q = ground (arith, b) in
            let below : q < page + number = ground (arith, c) in
            absurd (
              ne (
                zones_apart m y z q x.sound hy h (l, r)
                  (omega (arith, above, t.starts), omega (arith, below, t.ends))))
      ]
    ]

    free_of :
        (y : ℕ)
        → y < m.zones_size
        → m'.page_free_count y
          ≡ clear_bits m'.bits_map (first_page m y) (end_page m y - first_page m y)
    free_of y hy = elim (Bool-cases (y == z)) [
      | inl e ↦
          let same : z ≡ y = ground (arith, e) in
          subst
            (λ y.
              m'.page_free_count y
              ≡ clear_bits m'.bits_map (first_page m y) (end_page m y - first_page m y))
            same
            (omega (
              arith,
              t.free.at,
              x.free z h,
              t.fits,
              clear_bits-Filled m.bits_map m'.bits_map (first_page m z)
                  (end_page m z - first_page m z) page number t.starts
                  (omega (arith, t.starts, t.ends)) t.clear t.bits,
            ))
      | inr e ↦
          let ne : y ≢ z = ground (arith, e) in
          t.free.elsewhere y ne
          ∙ x.free y hy
          ∙ clear_bits-same m.bits_map m'.bits_map (first_page m y) (end_page m y - first_page m y)
              (λ q l r. t.bits.outside q (out_of y hy ne q l (omega (arith, l, r))))
    ]

    using_of :
        (y : ℕ)
        → m.page_using_count y + m.page_free_count y ≡ end_page m y - first_page m y
        → m'.page_using_count y + m'.page_free_count y ≡ end_page m' y - first_page m' y
    using_of y e = elim (Bool-cases (y == z)) [
      | inl b ↦
          let same : z ≡ y = ground (arith, b) in
          let e' =
            subst (λ y. m.page_using_count y + m.page_free_count y ≡ end_page m y - first_page m y)
              (sym same) e in
          subst
            (λ y. m'.page_using_count y + m'.page_free_count y ≡ end_page m' y - first_page m' y)
            same (omega (arith, t.free.at, t.using.at, t.fits, e', start z, end z))
      | inr b ↦
          let ne : y ≢ z = ground (arith, b) in
          omega (arith, t.free.elsewhere y ne, t.using.elsewhere y ne, e, start y, end y)
    ]

Chosen-IsExact :
    (m : Memory) (select number : ℕ) (r : Option ℕ × Memory)
    → IsExact m
    → Chosen m select number r
    → IsExact r.1
Chosen-IsExact m select number (none, m') x c = subst IsExact (sym c.0) x
Chosen-IsExact m select number (some page, m') x (z, h, pos, lt, t) =
    Taken-IsExact m number z page m' x (Selected-in m select z x.sound h) t

-- `alloc_pages` keeps the zones sound and the counts exact on every path: afterwards too, the count of
-- free pages of each zone is the number of clear bits of its pages, and all its other pages are
-- counted as used.
pub alloc_pages-IsExact :
    (m : Memory) (select number : ℕ) → IsExact m → IsExact (alloc_pages m select number).1
alloc_pages-IsExact m select number x =
    Chosen-IsExact m select number (alloc_pages m select number) x
      (alloc_pages-Chosen m select number x.sound)
