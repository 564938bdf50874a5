-- ===== src/Slab/Count.antt =====
-- How many of the first bits of a colour map are clear, and how the count of a slab's free objects
-- moves with a bit.
use kalinote_os.Base.{
  ℕ, zero, suc, ◌+◌, ◌≤◌, ◌<◌, ◌≡◌, inl, inr, Bool, true, false, arith, ◌∙◌, ap, ◌==◌,
  if◌then◌else◌, Bool-cases, update, update_ne,
}

-- The clear ones of the first `n` bits.
unfoldable pub clear_bits : (ℕ → Bool) → ℕ → ℕ
clear_bits bits zero = 0
clear_bits bits (suc n) = (if bits n then 0 else 1) + clear_bits bits n

pub clear_bits-le : (bits : ℕ → Bool) (n : ℕ) → clear_bits bits n ≤ n
unfolding clear_bits
clear_bits-le bits zero = omega arith
clear_bits-le bits (suc n) = ground (arith, clear_bits-le bits n)

clear_bits-update_past :
    (bits : ℕ → Bool) (n j : ℕ) (v : Bool)
    → n ≤ j
    → clear_bits (update bits j v) n ≡ clear_bits bits n
unfolding clear_bits
clear_bits-update_past bits zero j v h = omega arith
clear_bits-update_past bits (suc n) j v h =
    rw (update_ne bits j n v (omega arith))
      (omega (arith, clear_bits-update_past bits n j v (omega arith)))

-- A clear bit that is set is one clear bit less.
pub clear_bits-set :
    (bits : ℕ → Bool) (n j : ℕ)
    → j < n
    → bits j ≡ false
    → clear_bits (update bits j true) n + 1 ≡ clear_bits bits n
unfolding clear_bits
clear_bits-set bits zero j h e = absurd (omega arith)
clear_bits-set bits (suc n) j h e = elim (Bool-cases (n == j)) [
  | inl p ↦
      let same : n ≡ j = ground (arith, p) in
      let was : bits n ≡ false = ap bits same ∙ e in
      let hit : (j == n) ≡ true = ground (arith, p) in
      rw (was, hit) (omega (arith, clear_bits-update_past bits n j true (omega (arith, same))))
  | inr p ↦
      rw (update_ne bits j n true (ground (arith, p)))
        (omega (arith, clear_bits-set bits n j (ground (arith, p)) e))
]

-- No bit is clear where the count is zero, and some bit is where it is not.
pub clear_bits-zero :
    (bits : ℕ → Bool) (n : ℕ) → ((q : ℕ) → q < n → bits q ≡ true) → clear_bits bits n ≡ 0
unfolding clear_bits
clear_bits-zero bits zero h = omega arith
clear_bits-zero bits (suc n) h =
    rw (h n (omega arith)) (omega (arith, clear_bits-zero bits n (λ q l. h q (omega (arith, l)))))

-- A set bit that is cleared is one clear bit more.
pub clear_bits-clear :
    (bits : ℕ → Bool) (n j : ℕ)
    → j < n
    → bits j ≡ true
    → clear_bits (update bits j false) n ≡ clear_bits bits n + 1
unfolding clear_bits
clear_bits-clear bits zero j h e = absurd (omega arith)
clear_bits-clear bits (suc n) j h e = elim (Bool-cases (n == j)) [
  | inl p ↦
      let same : n ≡ j = ground (arith, p) in
      let was : bits n ≡ true = ap bits same ∙ e in
      let hit : (j == n) ≡ true = ground (arith, p) in
      rw (was, hit) (omega (arith, clear_bits-update_past bits n j false (omega (arith, same))))
  | inr p ↦
      rw (update_ne bits j n false (ground (arith, p)))
        (omega (arith, clear_bits-clear bits n j (ground (arith, p)) e))
]
