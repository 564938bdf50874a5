-- ===== src/Pages/Free.antt =====
-- `free_pages` of os/kernel/memory.c undoes `alloc_pages`; pages taken leave the zones sound.
use mathlib.Core.Path.{subst}
use kalinote_os.Base.{
  ℕ, ◌+◌, ◌-◌, ◌/◌, ◌^◌, ◌≤◌, ◌<◌, ◌≡◌, ◌≢◌, inl, inr, Bool, true, false, Option, none, some, refl,
  sym, ap, ◌∙◌, ◌||◌, arith, leb, ◌==◌, Bool-cases,
}
use kalinote_os.Pages.{Memory, alloc_pages, free_pages, free_loop}
use kalinote_os.Pages.Take.{Owned, Filled, Moved, free_loop-Filled}
use kalinote_os.Pages.Give.{Kept, free_loop-free, free_loop-using}
use kalinote_os.Pages.Alloc.{Chosen, Selected, alloc_pages-Chosen}
use kalinote_os.Pages.Alloc.Sound.{IsSound, first_page, end_page, Taken}

-- What pages own stays theirs, as the layout does.
Owned-Kept :
    (m m' : Memory) (z page number : ℕ) → Kept m m' → Owned m z page number → Owned m' z page number
Owned-Kept m m' z page number k o p l r =
    (ap (λ f. f p / 2 ^ 21) k.phy_address ∙ (o p l r).0, ap (λ f. f p) k.zone_struct ∙ (o p l r).1)

Taken-Owned :
    (m : Memory) (number z page : ℕ) (m' : Memory)
    → IsSound m
    → z < m.zones_size
    → Taken m number z page m'
    → Owned m' z page number
Taken-Owned m number z page m' s h t =
    Owned-Kept m m' z page number t.kept
      (λ p l r. s.pages z h p (omega (arith, l, t.starts)) (omega (arith, l, r, t.starts, t.ends)))

-- The same bits and the same counts of free and used pages.
abbrev pub Restored : Memory → Memory → Type 0
Restored m m' =
    ((q : ℕ) → m'.bits_map q ≡ m.bits_map q)
    × ((z : ℕ) → m'.page_free_count z ≡ m.page_free_count z)
    × ((z : ℕ) → m'.page_using_count z ≡ m.page_using_count z)

Filled-back :
    (b b' b'' : ℕ → Bool) (page number : ℕ)
    → Filled b b' page number true
    → Filled b' b'' page number false
    → ((q : ℕ) → page ≤ q → q < page + number → b q ≡ false)
    → (q : ℕ) → b'' q ≡ b q
Filled-back b b' b'' page number f g clear q =
    grind (arith, f.outside q, g.inside q, g.outside q, clear q)

Moved-back :
    (f f' f'' : ℕ → ℕ) (z n : ℕ) → Moved f f' z n → Moved f' f'' z (f z) → (y : ℕ) → f'' y ≡ f y
Moved-back f f' f'' z n v w y = elim (Bool-cases (y == z)) [
  | inl e ↦ subst (λ x. f'' x ≡ f x) (ground (arith, e)) w.at
  | inr e ↦ let ne : y ≢ z = ground (arith, e) in w.elsewhere y ne ∙ v.elsewhere y ne
]

free_loop-Restored :
    (m : Memory) (number z page : ℕ) (m' : Memory)
    → IsSound m
    → z < m.zones_size
    → Taken m number z page m'
    → Restored m (free_loop m' page number)
free_loop-Restored m number z page m' s h t =
    let o = Taken-Owned m number z page m' s h t in
    let m'' = free_loop m' page number in
    (
      Filled-back m.bits_map m'.bits_map m''.bits_map page number t.bits
          (free_loop-Filled m' z page number o) t.clear,
      Moved-back m.page_free_count m'.page_free_count m''.page_free_count z _ t.free (
          subst (Moved m'.page_free_count m''.page_free_count z)
            (omega (arith, t.free.at, t.fits, s.counts z))
            (free_loop-free m' z page number o (omega (arith, t.free.at, s.counts z)))),
      Moved-back m.page_using_count m'.page_using_count m''.page_using_count z _ t.using (
          subst (Moved m'.page_using_count m''.page_using_count z)
            (omega (arith, t.using.at, t.fits, s.counts z))
            (free_loop-using m' z page number o (omega (arith, t.using.at))
              (omega (arith, t.using.at, t.fits, s.counts z)))),
    )

pub Selected-in : (m : Memory) (select z : ℕ) → IsSound m → Selected m select z → z < m.zones_size
Selected-in m select z s h = grind (arith, s.dma_in, s.normal_in, h)

free_pages-Chosen :
    (m : Memory) (select number : ℕ) (r : Option ℕ × Memory)
    → IsSound m
    → Chosen m select number r
    → Restored m (free_pages r.1 r.0 number)
unfolding free_pages
free_pages-Chosen m select number (none, m') s a =
    subst (Restored m) (sym a.0) (λ q. refl, λ z. refl, λ z. refl)
free_pages-Chosen m select number (some page, m') s (z, h, pos, lt, t) =
    let in_range : (leb 64 number || number == 0) ≡ false = ground (arith, pos, lt) in
    rw in_range (free_loop-Restored m number z page m' s (Selected-in m select z s h) t)

-- In sound zones, `free_pages` of what `alloc_pages` gave, NULL included, restores the bit of every
-- page and the counts of free and of used pages of every zone.
pub free_pages-alloc_pages :
    (m : Memory) (select number : ℕ)
    → IsSound m
    → Restored m (free_pages (alloc_pages m select number).1 (alloc_pages m select number).0 number)
free_pages-alloc_pages m select number s =
    free_pages-Chosen m select number (alloc_pages m select number) s
      (alloc_pages-Chosen m select number s)

pub Taken-IsSound :
    (m : Memory) (number z page : ℕ) (m' : Memory)
    → IsSound m
    → z < m.zones_size
    → Taken m number z page m'
    → IsSound m'
Taken-IsSound m number z page m' s h t =
    let k = t.kept in
    record {
      dma_in = omega (arith, k.zone_dma_index, k.zones_size, s.dma_in);
      normal_in = omega (arith, k.zone_normal_index, k.zones_size, s.normal_in);
      unmaped_in = omega (arith, k.zone_unmaped_index, k.zones_size, s.unmaped_in);
      pages = λ y b.
          Owned-Kept m m' y (first_page m' y) (end_page m' y - first_page m' y) k (λ p l r.
            s.pages y (omega (arith, b, k.zones_size)) p (omega (arith, l, start y))
              (omega (arith, r, start y, end y)));
      apart = λ y q b l r.
          let set : m.bits_map q ≡ true =
            s.apart y q (omega (arith, b, k.zones_size)) (omega (arith, l, end y))
              (omega (arith, r, end y)) in
          grind (arith, set, t.bits.inside q, t.bits.outside q);
      counts = λ y. elim (Bool-cases (y == z)) [
        | inl e ↦
            let same : z ≡ y = ground (arith, e) in
            subst (λ x. m'.page_using_count x + m'.page_free_count x < 2 ^ 64) same
              (omega (arith, t.free.at, t.using.at, t.fits, s.counts z))
        | inr e ↦
            let ne : y ≢ z = ground (arith, e) in
            omega (arith, t.free.elsewhere y ne, t.using.elsewhere y ne, s.counts y)
      ];
    }
  where
    start : (y : ℕ) → first_page m' y ≡ first_page m y
    start y = ap (λ f. f y / 2 ^ 21) t.kept.zone_start_address

    end : (y : ℕ) → end_page m' y ≡ end_page m y
    end y = ap (λ f. f y / 2 ^ 21) t.kept.zone_end_address
