-- ===== src/Pages/Exact/Bits.antt =====
-- The number of clear bits in a range of the bit map of os/kernel/memory.c.
use kalinote_os.Base.{
  ℕ, zero, suc, ◌+◌, ◌-◌, ◌≤◌, ◌<◌, ◌≡◌, inl, inr, Bool, true, false, refl, ap, arith,
  if◌then◌else◌,
}
use kalinote_os.Pages.Take.{Filled}

-- How many of the `n` bits from `at` on are clear.
unfoldable pub clear_bits : (ℕ → Bool) → ℕ → ℕ → ℕ
clear_bits bits at zero = 0
clear_bits bits at (suc n) = clear_bits bits (at + 1) n + (if bits at then 0 else 1)

pub clear_bits-same :
    (b b' : ℕ → Bool) (at n : ℕ)
    → ((q : ℕ) → at ≤ q → q < at + n → b' q ≡ b q)
    → clear_bits b at n ≡ clear_bits b' at n
unfolding clear_bits
clear_bits-same b b' at zero h = refl
clear_bits-same b b' at (suc n) h = rw (h at (omega arith) (omega arith)) (
    ap (λ r. r + (if b at then 0 else 1))
      (clear_bits-same b b' (at + 1) n (λ q l r. h q (omega (arith, l)) (omega (arith, r)))))

clear_bits-append :
    (b : ℕ → Bool) (at n k : ℕ)
    → clear_bits b at (n + k) ≡ clear_bits b at n + clear_bits b (at + n) k
unfolding clear_bits
clear_bits-append b at zero k =
    let same : clear_bits b at (0 + k) ≡ clear_bits b at k = ap (clear_bits b at) (omega arith) in
    let here : clear_bits b (at + 0) k ≡ clear_bits b at k =
      ap (λ a. clear_bits b a k) (omega arith) in
    omega (arith, same, here)
clear_bits-append b at (suc n) k =
    let rest = clear_bits-append b (at + 1) n k in
    let moved : clear_bits b (at + 1 + n) k ≡ clear_bits b (at + suc n) k =
      ap (λ a. clear_bits b a k) (omega arith) in
    let next : clear_bits b at (suc n + k) ≡ clear_bits b at (suc (n + k)) =
      ap (clear_bits b at) {y = suc (n + k)} (omega arith) in
    omega (arith, next, rest, moved)

clear_bits-all :
    (b : ℕ → Bool) (at n : ℕ)
    → ((q : ℕ) → at ≤ q → q < at + n → b q ≡ false)
    → clear_bits b at n ≡ n
unfolding clear_bits
clear_bits-all b at zero h = refl
clear_bits-all b at (suc n) h =
    let rest = clear_bits-all b (at + 1) n (λ q l r. h q (omega (arith, l)) (omega (arith, r))) in
    rw (h at (omega arith) (omega arith)) (omega (arith, rest))

clear_bits-none :
    (b : ℕ → Bool) (at n : ℕ) → ((q : ℕ) → at ≤ q → q < at + n → b q ≡ true) → clear_bits b at n ≡ 0
unfolding clear_bits
clear_bits-none b at zero h = refl
clear_bits-none b at (suc n) h =
    let rest = clear_bits-none b (at + 1) n (λ q l r. h q (omega (arith, l)) (omega (arith, r))) in
    rw (h at (omega arith) (omega arith)) (omega (arith, rest))

-- The range before, in and behind a part of it.
clear_bits-parts :
    (b : ℕ → Bool) (at n page number : ℕ)
    → at ≤ page
    → page + number ≤ at + n
    → clear_bits b at n
      ≡ clear_bits b at (page - at)
        + (clear_bits b page number + clear_bits b (page + number) (at + n - (page + number)))
clear_bits-parts b at n page number l r =
    let behind = at + n - (page + number) in
    let whole : clear_bits b at n ≡ clear_bits b at (page - at + (number + behind)) =
      ap (clear_bits b at) (omega (arith, l, r)) in
    let from : clear_bits b (at + (page - at)) (number + behind)
        ≡ clear_bits b page (number + behind) =
      ap (λ a. clear_bits b a (number + behind)) (omega (arith, l)) in
    omega (
      arith,
      whole,
      clear_bits-append b at (page - at) (number + behind),
      from,
      clear_bits-append b page number behind,
    )

-- A clear part is counted.
pub clear_bits-le :
    (b : ℕ → Bool) (at n page number : ℕ)
    → at ≤ page
    → page + number ≤ at + n
    → ((q : ℕ) → page ≤ q → q < page + number → b q ≡ false)
    → number ≤ clear_bits b at n
clear_bits-le b at n page number l r clear =
    omega (arith, clear_bits-parts b at n page number l r, clear_bits-all b page number clear)

-- A clear part that is filled is no longer counted.
pub clear_bits-Filled :
    (b b' : ℕ → Bool) (at n page number : ℕ)
    → at ≤ page
    → page + number ≤ at + n
    → ((q : ℕ) → page ≤ q → q < page + number → b q ≡ false)
    → Filled b b' page number true
    → clear_bits b' at n + number ≡ clear_bits b at n
clear_bits-Filled b b' at n page number l r clear f = omega (
  arith,
  clear_bits-parts b at n page number l r,
  clear_bits-parts b' at n page number l r,
  clear_bits-all b page number clear,
  clear_bits-none b' page number f.inside,
  clear_bits-same b b' at (page - at) (λ q x y. f.outside q (inl (omega (arith, x, y, l)))),
  clear_bits-same b b' (page + number) (at + n - (page + number)) (λ q x y. f.outside q (inr x)),
)
