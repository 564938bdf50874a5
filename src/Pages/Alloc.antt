-- ===== src/Pages/Alloc.antt =====
-- `alloc_pages` of os/kernel/memory.c over the zones that a call selects, and `free_pages` behind it.
pub mod Sound
use mathlib.Core.Path.{subst}
use kalinote_os.Base.{
  ℕ, zero, suc, ◌+◌, ◌-◌, ◌*◌, ◌/◌, ◌%◌, ◌^◌, ◌≤◌, ◌<◌, ◌≡◌, ◌≢◌, ◌⊎◌, inl, inr, Bool, true, false,
  Option, none, some, refl, sym, ap, ◌∙◌, ◌||◌, ◌↔◌, arith, ltb, leb, ◌==◌, if◌then◌else◌,
  Bool-cases, Option-cases,
}
use kalinote_os.Pages.{Memory, window_free, find_in_zone, take_pages, search_zones, alloc_pages}
use kalinote_os.Pages.Find.{Finds, find_in_zone-Finds}
use Sound.{IsSound, first_page, end_page, Taken, take_pages-Taken}

-- No free window of the length starts in the zone, or its count says so.
abbrev pub Lacks : Memory → ℕ → ℕ → Type 0
Lacks m number z =
    (m.page_free_count z < number)
    ⊎ ((q : ℕ) → first_page m z ≤ q → q < end_page m z → window_free m.bits_map q number ≡ false)

abbrev pub Searched : Memory → ℕ → ℕ → ℕ → Option ℕ × Memory → Type 0
Searched m number from to (none, m') = (m' ≡ m) × ((z : ℕ) → from ≤ z → z < to → Lacks m number z)
Searched m number from to (some page, m') =
    (z : ℕ) × (from ≤ z) × (z < to) × Taken m number z page m'

Searched-next :
    (m : Memory) (number from to : ℕ) (r : Option ℕ × Memory)
    → Lacks m number from
    → Searched m number (from + 1) to r
    → Searched m number from to r
Searched-next m number from to (none, m') l s = (
  s.0,
  λ z h k. elim (Bool-cases (z == from)) [
    | inl e ↦ subst (Lacks m number) (ground (arith, e)) l
    | inr e ↦ s.1 z (ground (arith, e)) k
  ],
)
Searched-next m number from to (some page, m') l (z, h, k, t) = (z, omega (arith, h), k, t)

Searched-found :
    (m : Memory) (number a i to : ℕ) (rest : Option ℕ × Memory) (o : Option ℕ)
    → IsSound m
    → 0 < number
    → number ≤ m.page_free_count i
    → i < m.zones_size
    → i < to
    → o ≡ find_in_zone m number i
    → Finds m.bits_map number (end_page m i + 64) (first_page m i) (end_page m i) o
    → Searched m number (i + 1) to rest
    → Searched m number i to (elim o as (λ x. Option ℕ × Memory) [
      | none ↦ rest
      | some page ↦ (some page, take_pages m i a page number)
    ])
Searched-found m number a i to rest none s pos le in_zones lt e f r =
    Searched-next m number i to rest (inr f) r
Searched-found m number a i to rest (some page) s pos le in_zones lt e f r =
    (i, omega arith, lt, take_pages-Taken m number i a page s in_zones pos le f)

search_zones-Searched :
    (m : Memory) (number a i left : ℕ)
    → IsSound m
    → 0 < number
    → i + left ≤ m.zones_size
    → Searched m number i (i + left) (search_zones m number a i left)
unfolding search_zones
search_zones-Searched m number a i zero s pos le = (refl, λ z h k. absurd (omega arith))
search_zones-Searched m number a i (suc left) s pos le =
    let rest = search_zones m number a (i + 1) left in
    let r : Searched m number (i + 1) (i + suc left) rest =
      subst (λ to. Searched m number (i + 1) to rest) (omega arith)
        (search_zones-Searched m number a (i + 1) left s pos (omega arith)) in
    elim (Bool-cases (ltb (m.page_free_count i) number)) [
      | inl b ↦ rw b (Searched-next m number i (i + suc left) rest (inl (ground (arith, b))) r)
      | inr b ↦ rw b (
          Searched-found m number a i (i + suc left) rest (find_in_zone m number i) s pos
            (ground (arith, b)) (omega arith) (omega arith) refl (find_in_zone-Finds m number i) r)
    ]

-- The zones that `zone_select` names.
abbrev pub Selected : Memory → ℕ → ℕ → Type 0
Selected m select z =
    ((select ≡ 1) × (z ≤ m.zone_dma_index))
    ⊎ (((select ≡ 2) × (m.zone_dma_index ≤ z) × (z ≤ m.zone_normal_index))
        ⊎ ((select ≡ 4) × (m.zone_unmaped_index ≤ z) × (z < m.zones_size)))

-- NULL with memory as it was, where the zones lack the pages; or the pages taken.
abbrev pub Chosen : Memory → ℕ → ℕ → Option ℕ × Memory → Type 0
Chosen m select number (none, m') =
    (m' ≡ m) × ((z : ℕ) → 0 < number → number < 64 → Selected m select z → Lacks m number z)
Chosen m select number (some page, m') =
    (z : ℕ) × Selected m select z × (0 < number) × (number < 64) × Taken m number z page m'

Chosen-of_range :
    (m : Memory) (select number from to : ℕ) (r : Option ℕ × Memory)
    → 0 < number
    → number < 64
    → ((z : ℕ) → Selected m select z → (from ≤ z) × (z < to))
    → ((z : ℕ) → from ≤ z → z < to → Selected m select z)
    → Searched m number from to r
    → Chosen m select number r
Chosen-of_range m select number from to (none, m') pos lt range back s =
    (s.0, λ z p l h. s.1 z (range z h).0 (range z h).1)
Chosen-of_range m select number from to (some page, m') pos lt range back (z, h, k, t) =
    (z, back z h k, pos, lt, t)

module _ {m : Memory} {select number : ℕ} (s : IsSound m) (pos : 0 < number)
    (lt : number < 64) where
  from_dma : select ≡ 1 → Chosen m select number (search_zones m number 1 0 (m.zone_dma_index + 1))
  from_dma e =
      Chosen-of_range m select number 0 (0 + (m.zone_dma_index + 1)) _ pos lt
        (λ z h. grind (arith, e, h)) (λ z l r. inl (e, omega (arith, r)))
        (search_zones-Searched m number 1 0 (m.zone_dma_index + 1) s pos (omega (arith, s.dma_in)))

  from_normal :
      select ≡ 2
      → Chosen m select number
          (search_zones m number 1 m.zone_dma_index (m.zone_normal_index + 1 - m.zone_dma_index))
  from_normal e =
      let left = m.zone_normal_index + 1 - m.zone_dma_index in
      Chosen-of_range m select number m.zone_dma_index (m.zone_dma_index + left) _ pos lt
        (λ z h. grind (arith, e, h)) (λ z l r. inr (inl (e, l, omega (arith, l, r))))
        (search_zones-Searched m number 1 m.zone_dma_index left s pos
          (omega (arith, s.dma_in, s.normal_in)))

  from_unmaped :
      select ≡ 4
      → Chosen m select number
          (search_zones m number 0 m.zone_unmaped_index (m.zones_size - m.zone_unmaped_index))
  from_unmaped e =
      let left = m.zones_size - m.zone_unmaped_index in
      Chosen-of_range m select number m.zone_unmaped_index (m.zone_unmaped_index + left) _ pos lt
        (λ z h. grind (arith, e, h)) (λ z l r. inr (inr (e, l, omega (arith, l, r))))
        (search_zones-Searched m number 0 m.zone_unmaped_index left s pos
          (omega (arith, s.unmaped_in)))

-- The pages come from a selected zone, or each such zone lacks them by its count or by its bits.
pub alloc_pages-Chosen :
    (m : Memory) (select number : ℕ)
    → IsSound m
    → Chosen m select number (alloc_pages m select number)
unfolding alloc_pages
alloc_pages-Chosen m select number s = elim (Bool-cases (leb 64 number || number == 0)) [
  | inl b ↦ rw b (refl, λ z p l h. absurd (ground (arith, b)))
  | inr b ↦
      let pos : 0 < number = ground (arith, b) in
      let lt : number < 64 = ground (arith, b) in
      rw b (elim (Bool-cases (select == 1)) [
        | inl c ↦ rw c (from_dma s pos lt (ground (arith, c)))
        | inr c ↦ rw c (elim (Bool-cases (select == 2)) [
          | inl d ↦ rw d (from_normal s pos lt (ground (arith, d)))
          | inr d ↦ rw d (elim (Bool-cases (select == 4)) [
            | inl e ↦ rw e (from_unmaped s pos lt (ground (arith, e)))
            | inr e ↦ rw e (refl, λ z p l h. absurd (grind (arith, c, d, e, h)))
          ])
        ])
      ])
]
