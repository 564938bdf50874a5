-- ===== src/Slab/Map.antt =====
-- The search of a colour map in `kmalloc` and `slab_malloc` of os/kernel/memory.c finds the first
-- clear bit, words that are full skipped as a whole.
use mathlib.Core.Path.{subst}
use mathlib.Core.Bool.{true≢false}
use kalinote_os.Base.{
  ℕ, zero, suc, ◌+◌, ◌*◌, ◌/◌, ◌%◌, ◌≤◌, ◌<◌, ◌≡◌, ◌≢◌, ◌⊎◌, inl, inr, Bool, true, false, Option,
  none, some, refl, sym, ◌∙◌, arith, ap, leb, if◌then◌else◌, Bool-cases,
}
use kalinote_os.Slab.{word_full, scan_map, scan_bits}

word_full-bits :
    (bits : ℕ → Bool) (from n q : ℕ)
    → word_full bits from n ≡ true
    → from ≤ q
    → q < from + n
    → bits q ≡ true
unfolding word_full
word_full-bits bits from zero q e l r = absurd (omega arith)
word_full-bits bits from (suc n) q e l r =
    let rest : word_full bits (from + 1) n ≡ true = ground (arith, e) in
    let here : bits from ≡ true = ground (arith, e) in
    grind (arith, here, word_full-bits bits (from + 1) n q rest)

-- The first clear bit of `[from, to)`, or there is none.
abbrev pub FirstClear : (ℕ → Bool) → ℕ → ℕ → Option ℕ → Type 0
FirstClear bits from to none = (q : ℕ) → from ≤ q → q < to → bits q ≡ true
FirstClear bits from to (some j) =
    (from ≤ j) × (j < to) × (bits j ≡ false) × ((q : ℕ) → from ≤ q → q < j → bits q ≡ true)

FirstClear-before :
    (bits : ℕ → Bool) (from mid to : ℕ) (o : Option ℕ)
    → from ≤ mid
    → ((q : ℕ) → from ≤ q → q < mid → bits q ≡ true)
    → FirstClear bits mid to o
    → FirstClear bits from to o
FirstClear-before bits from mid to none h set f = λ q l r. grind (arith, f q, set q)
FirstClear-before bits from mid to (some j) h set (l, r, c, f) =
    (omega (arith, l), r, c, λ q l r. grind (arith, f q, set q))

scan_map-zero : (bits : ℕ → Bool) (count j : ℕ) → scan_map bits count j 0 ≡ none
unfolding scan_map
scan_map-zero bits count j = refl

scan_map-past :
    (bits : ℕ → Bool) (count j left : ℕ)
    → leb count j ≡ true
    → scan_map bits count j (suc left) ≡ none
unfolding scan_map
scan_map-past bits count j left e = rw e

scan_map-full :
    (bits : ℕ → Bool) (count j left : ℕ)
    → j < count
    → word_full bits (j / 64 * 64) 64 ≡ true
    → scan_map bits count j (suc left) ≡ scan_map bits count (j + 64) left
unfolding scan_map
scan_map-full bits count j left lt e = let n : leb count j ≡ false = ground arith in rw (n, e)

scan_map-next :
    (bits : ℕ → Bool) (count j left : ℕ)
    → j < count
    → word_full bits (j / 64 * 64) 64 ≡ false
    → scan_map bits count j (suc left)
      ≡ (if bits j then scan_map bits count (j + 1) left else some j)
unfolding scan_map
scan_map-next bits count j left lt e = let n : leb count j ≡ false = ground arith in rw (n, e)

-- A search that stands inside a word has found it not full.
abbrev Inside : (ℕ → Bool) → ℕ → Type 0
Inside bits j = j % 64 ≢ 0 → word_full bits (j / 64 * 64) 64 ≡ false

Inside-next :
    (bits : ℕ → Bool) (j : ℕ) → word_full bits (j / 64 * 64) 64 ≡ false → Inside bits (j + 1)
Inside-next bits j e h =
    let same : j / 64 * 64 ≡ (j + 1) / 64 * 64 = omega (arith, h) in
    subst (λ z. word_full bits z 64 ≡ false) same e

scan_map-from :
    (bits : ℕ → Bool) (count j left : ℕ)
    → count ≤ j + left
    → Inside bits j
    → FirstClear bits j count (scan_map bits count j left)
scan_map-from bits count j zero h i =
    rw (scan_map-zero bits count j) (λ q l r. absurd (omega arith))
scan_map-from bits count j (suc left) h i = elim (Bool-cases (leb count j)) [
  | inl past ↦
      rw (scan_map-past bits count j left past) (λ q l r. absurd (ground (arith, past, l, r)))
  | inr more ↦
      let lt : j < count = ground (arith, more) in
      elim (Bool-cases (word_full bits (j / 64 * 64) 64)) [
        | inl full ↦
            let start : j % 64 ≡ 0 = grind (arith, i, full) in
            rw (scan_map-full bits count j left lt full) (
              FirstClear-before bits j (j + 64) count (scan_map bits count (j + 64) left)
                (omega arith)
                (λ q l r.
                  word_full-bits bits (j / 64 * 64) 64 q full (omega (arith, start))
                    (omega (arith, start)))
                (scan_map-from bits count (j + 64) left (omega arith)
                  (λ n. absurd (omega (arith, n, start)))))
        | inr free ↦ rw (scan_map-next bits count j left lt free) (elim (Bool-cases (bits j)) [
          | inl b ↦ rw b (
              FirstClear-before bits j (j + 1) count (scan_map bits count (j + 1) left)
                (omega arith) (λ q l r. subst (λ z. bits z ≡ true) (omega (arith, l, r)) b)
                (scan_map-from bits count (j + 1) left (omega arith) (Inside-next bits j free)))
          | inr b ↦ rw b (omega arith, lt, b, λ q l r. absurd (omega arith))
        ])
      ]
]

-- From the start, with as many rounds as there are bits.
pub scan_map-FirstClear :
    (bits : ℕ → Bool) (count : ℕ) → FirstClear bits 0 count (scan_map bits count 0 count)
scan_map-FirstClear bits count =
    scan_map-from bits count 0 count (omega arith) (λ n. absurd (omega (arith, n)))

scan_bits-from :
    (bits : ℕ → Bool) (count j left : ℕ)
    → count ≤ j + left
    → FirstClear bits j count (scan_bits bits count j left)
unfolding scan_bits
scan_bits-from bits count j zero h = λ q l r. absurd (omega arith)
scan_bits-from bits count j (suc left) h = elim (Bool-cases (leb count j)) [
  | inl past ↦ rw past (λ q l r. absurd (ground (arith, past, l, r)))
  | inr more ↦
      let lt : j < count = ground (arith, more) in
      elim (Bool-cases (bits j)) [
        | inl b ↦
            rw (more, b)
              (FirstClear-before bits j (j + 1) count (scan_bits bits count (j + 1) left)
                (omega arith) (λ q l r. subst (λ z. bits z ≡ true) (omega (arith, l, r)) b)
                (scan_bits-from bits count (j + 1) left (omega arith)))
        | inr b ↦ rw (more, b) (omega arith, lt, b, λ q l r. absurd (omega arith))
      ]
]

-- There is one first clear bit at most.
FirstClear-unique :
    (bits : ℕ → Bool) (from to : ℕ) (o p : Option ℕ)
    → FirstClear bits from to o
    → FirstClear bits from to p
    → o ≡ p
FirstClear-unique bits from to none none f g = refl
FirstClear-unique bits from to none (some k) f g = absurd (true≢false (sym (f k g.0 g.1) ∙ g.2))
FirstClear-unique bits from to (some j) none f g = absurd (true≢false (sym (g j f.0 f.1) ∙ f.2))
FirstClear-unique bits from to (some j) (some k) f g = elim (total j k) [
  | inl lt ↦ absurd (true≢false (sym (g.3 j f.0 lt) ∙ f.2))
  | inr (inl e) ↦ ap some e
  | inr (inr lt) ↦ absurd (true≢false (sym (f.3 k g.0 lt) ∙ g.2))
]
  where
    total : (j k : ℕ) → (j < k) ⊎ ((j ≡ k) ⊎ (k < j))
    total j k = omega arith

-- The search of a colour map that passes over a word that is all ones gives what the search that
-- tests every bit gives: the first clear bit of `count`, or nothing when all are set.
pub scan_map-scan_bits :
    (bits : ℕ → Bool) (count : ℕ)
    → (scan_map bits count 0 count ≡ scan_bits bits count 0 count)
      × FirstClear bits 0 count (scan_map bits count 0 count)
scan_map-scan_bits bits count = (
  FirstClear-unique bits 0 count (scan_map bits count 0 count) (scan_bits bits count 0 count)
      (scan_map-FirstClear bits count) (scan_bits-from bits count 0 count (omega arith)),
  scan_map-FirstClear bits count,
)
