-- ===== src/Pages/Take.antt =====
-- What the loops of `alloc_pages` and `free_pages` in os/kernel/memory.c do to the bits and to the
-- counters of a zone.
use mathlib.Core.Path.{subst}
use kalinote_os.Base.{
  ℕ, zero, suc, ◌+◌, ◌-◌, ◌/◌, ◌%◌, ◌^◌, ◌≤◌, ◌<◌, ◌≡◌, ◌≢◌, ◌⊎◌, Bool, true, false, refl, sym, ◌∙◌,
  arith, update, update_self, update_ne,
}
use kalinote_os.Pages.{Memory, inc, dec, change, take_page, take_pages, free_page, free_loop}

-- The `number` bits from `page` on are `v`, and all others are as before.
pub record Filled (bits bits' : ℕ → Bool) (page number : ℕ) (v : Bool) : Type 0 where
  pub inside : (q : ℕ) → page ≤ q → q < page + number → bits' q ≡ v
  pub outside : (q : ℕ) → (q < page) ⊎ (page + number ≤ q) → bits' q ≡ bits q

Filled-update :
    (bits bits' : ℕ → Bool) (page number : ℕ) (v : Bool)
    → Filled (update bits page v) bits' (page + 1) number v
    → Filled bits bits' page (suc number) v
Filled-update bits bits' page number v f = record {
  inside = λ q l r. ground (arith, f.inside q, f.outside q, l, r);
  outside = λ q h. ground (arith, f.outside q, h);
}

-- The pages stand where their addresses say, in the zone `z`.
abbrev pub Owned : Memory → ℕ → ℕ → ℕ → Type 0
Owned m z page number =
    (p : ℕ) → page ≤ p → p < page + number → (m.phy_address p / 2 ^ 21 ≡ p) × (m.zone_struct p ≡ z)

Filled-none : (bits : ℕ → Bool) (page : ℕ) (v : Bool) → Filled bits bits page 0 v
Filled-none bits page v = record { inside = λ q l r. absurd (omega arith); outside = λ q h. refl }

-- The pages of a longer run but the first.
pub later :
    (m : Memory) (z page number : ℕ) → Owned m z page (suc number) → Owned m z (page + 1) number
later m z page number o p l r = o p (omega arith) (omega arith)

pub take_pages-Filled :
    (m : Memory) (z a page number : ℕ)
    → Owned m z page number
    → Filled m.bits_map (take_pages m z a page number).bits_map page number true
unfolding take_pages take_page
take_pages-Filled m z a page zero o = Filled-none m.bits_map page true
take_pages-Filled m z a page (suc number) o =
    let m' = take_page m z a page in
    Filled-update m.bits_map (take_pages m' z a (page + 1) number).bits_map page number true (
      subst
        (λ p.
          Filled (update m.bits_map p true) (take_pages m' z a (page + 1) number).bits_map
            (page + 1) number true)
        (o page (omega arith) (omega arith)).0
        (take_pages-Filled m' z a (page + 1) number (later m z page number o)))

pub free_loop-Filled :
    (m : Memory) (z page number : ℕ)
    → Owned m z page number
    → Filled m.bits_map (free_loop m page number).bits_map page number false
unfolding free_loop free_page
free_loop-Filled m z page zero o = Filled-none m.bits_map page false
free_loop-Filled m z page (suc number) o =
    let m' = free_page m page in
    Filled-update m.bits_map (free_loop m' (page + 1) number).bits_map page number false (
      subst
        (λ p.
          Filled (update m.bits_map p false) (free_loop m' (page + 1) number).bits_map (page + 1)
            number false)
        (o page (omega arith) (omega arith)).0
        (free_loop-Filled m' z (page + 1) number (later m z page number o)))

-- The counters `f` of the zones become `f'`, and only that of `z` changes, from `n` to `n'`.
pub record Moved (f f' : ℕ → ℕ) (z n' : ℕ) : Type 0 where
  pub at : f' z ≡ n'
  pub elsewhere : (y : ℕ) → y ≢ z → f' y ≡ f y

pub Moved-change :
    (f f' : ℕ → ℕ) (z n' : ℕ) (step : ℕ → ℕ) → Moved (change f z step) f' z n' → Moved f f' z n'
Moved-change f f' z n' step v = record {
  at = v.at;
  elsewhere = λ y h. v.elsewhere y h ∙ update_ne f z y (step (f z)) (λ e. h (sym e));
}

pub Moved-none : (f : ℕ → ℕ) (z n : ℕ) → f z ≡ n → Moved f f z n
Moved-none f z n e = record { at = e; elsewhere = λ y h. refl }

-- Taking pages moves them from the free to the used ones of the zone.
pub take_pages-free :
    (m : Memory) (z a page number : ℕ)
    → number ≤ m.page_free_count z
    → m.page_free_count z < 2 ^ 64
    → Moved m.page_free_count
        (take_pages m z a page number).page_free_count
        z
        (m.page_free_count z - number)
unfolding take_pages take_page
take_pages-free m z a page zero le lt =
    Moved-none m.page_free_count z (m.page_free_count z - 0) (omega arith)
take_pages-free m z a page (suc number) le lt =
    let m' = take_page m z a page in
    let now : m'.page_free_count z ≡ m.page_free_count z - 1 =
      update_self m.page_free_count z (dec (m.page_free_count z)) ∙ omega (arith, le, lt) in
    let f' = (take_pages m' z a (page + 1) number).page_free_count in
    Moved-change m.page_free_count f' z (m.page_free_count z - suc number) dec (
      subst (Moved m'.page_free_count f' z) (omega (arith, now))
        (take_pages-free m' z a (page + 1) number (omega (arith, now)) (omega (arith, now))))

pub take_pages-using :
    (m : Memory) (z a page number : ℕ)
    → m.page_using_count z < 2 ^ 64
    → Moved m.page_using_count
        (take_pages m z a page number).page_using_count
        z
        ((m.page_using_count z + number) % 2 ^ 64)
unfolding take_pages take_page
take_pages-using m z a page zero lt =
    Moved-none m.page_using_count z ((m.page_using_count z + 0) % 2 ^ 64) (omega (arith, lt))
take_pages-using m z a page (suc number) lt =
    let m' = take_page m z a page in
    let now : m'.page_using_count z ≡ inc (m.page_using_count z) =
      update_self m.page_using_count z (inc (m.page_using_count z)) in
    let f' = (take_pages m' z a (page + 1) number).page_using_count in
    Moved-change m.page_using_count f' z ((m.page_using_count z + suc number) % 2 ^ 64) inc (
      subst (Moved m'.page_using_count f' z) (omega (arith, now))
        (take_pages-using m' z a (page + 1) number (omega (arith, now))))
