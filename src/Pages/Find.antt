-- ===== src/Pages/Find.antt =====
-- The search of `alloc_pages` in os/kernel/memory.c for bits that are clear in a row: first fit over
-- the whole zone, across the borders of words.
use mathlib.Core.Path.{subst}
use kalinote_os.Base.{
  ℕ, zero, suc, ◌+◌, ◌-◌, ◌*◌, ◌/◌, ◌%◌, ◌^◌, ◌≤◌, ◌<◌, ◌≡◌, ◌≢◌, inl, inr, Bool, true, false,
  Option, none, some, refl, sym, ap, arith, ltb, ◌==◌, if◌then◌else◌, Bool-cases,
}
use kalinote_os.Pages.{Memory, window_free, scan_word, scan_zone, find_in_zone}

-- The window of `number` bits at `at` is free exactly when its bits are clear.
pub window_free-bits :
    (bits : ℕ → Bool) (at number : ℕ)
    → window_free bits at number ≡ true
    → (q : ℕ) → at ≤ q
    → q < at + number
    → bits q ≡ false
unfolding window_free
window_free-bits bits at zero e q l r = absurd (omega arith)
window_free-bits bits at (suc number) e q l r = elim (Bool-cases (bits at)) [
  | inl b ↦ absurd (ground (arith, b, e))
  | inr b ↦
      let rest : window_free bits (at + 1) number ≡ true = ground (arith, b, e) in
      grind (arith, b, window_free-bits bits (at + 1) number rest q)
]

-- The search found the first free window that starts at `from` or behind it, and below `bound`, or
-- there is none in `[from, to)`.
abbrev pub Finds : (ℕ → Bool) → ℕ → ℕ → ℕ → ℕ → Option ℕ → Type 0
Finds bits number bound from to none =
    (q : ℕ) → from ≤ q → q < to → window_free bits q number ≡ false
Finds bits number bound from to (some page) =
    (from ≤ page)
    × (page < bound)
    × (window_free bits page number ≡ true)
    × ((q : ℕ) → from ≤ q → q < page → window_free bits q number ≡ false)

Finds-append :
    (bits : ℕ → Bool) (number bound from mid to : ℕ) (o : Option ℕ)
    → from ≤ mid
    → Finds bits number bound from mid none
    → Finds bits number bound mid to o
    → Finds bits number bound from to o
Finds-append bits number bound from mid to none h f g = λ q l r. grind (arith, f q, g q)
Finds-append bits number bound from mid to (some page) h f (l, below, e, g) =
    (omega (arith, l), below, e, λ q l r. grind (arith, f q, g q))

here : (j k : ℕ) → j / 64 * 64 + k ≡ j + k - j % 64
here j k = omega arith

scan_word-Finds :
    (bits : ℕ → Bool) (number bound j k left : ℕ)
    → j / 64 * 64 + 64 ≤ bound
    → k + left ≡ 64
    → Finds bits number bound (j / 64 * 64 + k) (j / 64 * 64 + 64) (scan_word bits number j k left)
unfolding scan_word
scan_word-Finds bits number bound j k zero h e = λ q l r. absurd (omega arith)
scan_word-Finds bits number bound j k (suc left) h e =
    let at = j / 64 * 64 + k in
    elim (Bool-cases (window_free bits at number)) [
      | inl b ↦ rw b (
        omega arith,
        omega arith,
        subst (λ p. window_free bits p number ≡ true) (here j k) b,
        λ q l r. absurd (omega arith),
      )
      | inr b ↦ rw b (
          Finds-append bits number bound at (j / 64 * 64 + (k + 1)) (j / 64 * 64 + 64)
            (scan_word bits number j (k + 1) left) (omega arith)
            (λ q l r. subst (λ p. window_free bits p number ≡ false) (omega arith) b)
            (scan_word-Finds bits number bound j (k + 1) left h (omega arith)))
    ]

-- A search of the word, and behind it one of the rest.
Finds-join :
    (bits : ℕ → Bool) (number bound from mid to : ℕ) (o rest : Option ℕ)
    → from ≤ mid
    → Finds bits number bound from mid o
    → Finds bits number bound mid to rest
    → Finds bits number bound from to
        (elim o as (λ x. Option ℕ) [ none ↦ rest | some page ↦ some page ])
Finds-join bits number bound from mid to none rest h f g =
    Finds-append bits number bound from mid to rest h f g
Finds-join bits number bound from mid to (some page) rest h f g = f

at_end : (j finish : ℕ) → ltb j finish ≡ false → finish ≤ j
at_end j finish h = ground (arith, h)

not_end : (j finish : ℕ) → ltb j finish ≡ true → j / 64 * 64 + 64 ≤ finish + 64
not_end j finish h = let lt : j < finish = ground (arith, h) in omega arith

abbrev next : ℕ → ℕ
next j = j / 64 * 64 + 64

next_le : (j : ℕ) → j ≤ next j
next_le j = omega arith

word_start : (j : ℕ) → j / 64 * 64 + j % 64 ≡ j
word_start j = omega arith

step_next :
    (tmp j : ℕ) → (j % 64 ≢ 0 → tmp ≡ 64 - j % 64) → j + (if j % 64 == 0 then 64 else tmp) ≡ next j
step_next tmp j h = ground (arith, h)

scan_zone-step :
    (bits : ℕ → Bool) (number tmp finish j left : ℕ)
    → (j % 64 ≢ 0 → tmp ≡ 64 - j % 64)
    → ltb j finish ≡ true
    → scan_zone bits number tmp finish j (suc left)
      ≡ (elim (scan_word bits number j (j % 64) (64 - j % 64)) as (λ x. Option ℕ) [
        | none ↦ scan_zone bits number tmp finish (next j) left
        | some page ↦ some page
      ])
unfolding scan_zone
scan_zone-step bits number tmp finish j left h b = rw b (
    ap
      (λ z. elim (scan_word bits number j (j % 64) (64 - j % 64)) as (λ x. Option ℕ) [
        | none ↦ scan_zone bits number tmp finish z left
        | some page ↦ some page
      ])
      (step_next tmp j h))

-- The loop on `j` covers all of the zone: after its first step it stands at the start of a word.
scan_zone-Finds :
    (bits : ℕ → Bool) (number tmp finish j left : ℕ)
    → (j % 64 ≢ 0 → tmp ≡ 64 - j % 64)
    → finish ≤ j + left
    → Finds bits number (finish + 64) j finish (scan_zone bits number tmp finish j left)
unfolding scan_zone
scan_zone-Finds bits number tmp finish j zero h e = λ q l r. absurd (omega arith)
scan_zone-Finds bits number tmp finish j (suc left) h e = elim (Bool-cases (ltb j finish)) [
  | inr b ↦ rw b (λ q l r. absurd (omega (arith, at_end j finish b)))
  | inl b ↦
      subst (Finds bits number (finish + 64) j finish)
        (sym (scan_zone-step bits number tmp finish j left h b))
        (Finds-join bits number (finish + 64) j (next j) finish
          (scan_word bits number j (j % 64) (64 - j % 64))
          (scan_zone bits number tmp finish (next j) left) (next_le j)
          (subst
            (λ z.
              Finds bits number (finish + 64) z (next j)
                (scan_word bits number j (j % 64) (64 - j % 64)))
            (word_start j)
            (scan_word-Finds bits number (finish + 64) j (j % 64) (64 - j % 64) (not_end j finish b)
              (omega arith)))
          (scan_zone-Finds bits number tmp finish (next j) left (omega arith) (omega arith)))
]

-- The search of a zone finds the first window of clear bits that starts in the zone, if there is any.
pub find_in_zone-Finds :
    (m : Memory) (number z : ℕ)
    → Finds m.bits_map number
        (m.zone_end_address z / 2 ^ 21 + 64)
        (m.zone_start_address z / 2 ^ 21)
        (m.zone_end_address z / 2 ^ 21)
        (find_in_zone m number z)
unfolding find_in_zone
find_in_zone-Finds m number z =
    let start = m.zone_start_address z / 2 ^ 21 in
    let finish = m.zone_end_address z / 2 ^ 21 in
    scan_zone-Finds m.bits_map number (64 - start % 64) finish start (finish - start) (λ n. refl)
      (omega arith)
