-- ===== src/Slab/Init/Ready.antt =====
-- The caches that `init_caches` of os/kernel/memory.c has laid out are sound, and stay so while it
-- lays out the next one behind them.
use mathlib.Core.Path.{subst}
use native.Mathlib.Nat.{div-le_self}
use kalinote_os.Base.{
  ℕ, zero, suc, ◌+◌, ◌*◌, ◌/◌, ◌%◌, ◌^◌, ◌≤◌, ◌<◌, ◌≡◌, ◌≢◌, inl, inr, Bool, true, false, arith,
  sym, ◌∙◌, ap, refl, ◌==◌, Bool-cases, ==_self,
}
use kalinote_os.Slab.{Slabs, page_2m_size, kmalloc_cache}
use kalinote_os.Slab.Kmalloc.{map_length}
use kalinote_os.Slab.Init.{map_at, init_cache, init_caches}
use kalinote_os.Slab.Init.Laid.{
  IsFresh, laid, Bits, init_cache-laid, laid-IsFresh, laid-IsFresh_other,
}

-- The first `n` caches are laid out below `finish`, one after the other.
pub record Ready (s : Slabs) (n finish : ℕ) : Type 0 where
  pub fresh : (k : ℕ) → k < n → IsFresh s (kmalloc_cache k)
  pub pool : (k : ℕ) → k < n → s.cache_pool (kmalloc_cache k) < finish
  pub map : (k : ℕ) → k < n → s.color_map (s.cache_pool (kmalloc_cache k)) < finish
  pub apart :
      (k l : ℕ)
      → k < n
      → l < n
      → s.cache_pool (kmalloc_cache k) ≡ s.cache_pool (kmalloc_cache l)
      → k ≡ l

-- As much as one cache needs for its slab and its map, for objects of at least one byte.
abbrev pub room : ℕ
room = 262400

Ready-laid :
    (s : Slabs) (n finish : ℕ) (bits : ℕ → ℕ → Bool) (finish' : ℕ)
    → finish ≢ 0
    → finish + 152 < finish'
    → finish + 152 < 2 ^ 64
    → Bits n finish s bits
    → Ready s n finish
    → Ready (laid n finish s bits) (n + 1) finish'
Ready-laid s n finish bits finish' nz more top b r = record {
  fresh = λ k lt. elim (Bool-cases (k == n)) [
    | inl e ↦
        let same : n ≡ k = ground (arith, e) in
        subst (λ z. IsFresh (laid n finish s bits) (kmalloc_cache z)) same
          (laid-IsFresh n finish s bits nz b)
    | inr e ↦
        let before : k < n = ground (arith, e, lt) in
        laid-IsFresh_other n finish s bits (kmalloc_cache k) (λ c. omega (arith, c, before))
          (λ c. omega (arith, c, r.pool k before)) (λ c. omega (arith, c, r.map k before, top)) b
          (r.fresh k before)
  ];
  pool = λ k lt. elim (Bool-cases (k == n)) [
    | inl e ↦
        let here : (n + 1 == k + 1) ≡ true = ground (arith, e) in rw here (omega (arith, more))
    | inr e ↦
        let other : (n + 1 == k + 1) ≡ false = ground (arith, e) in
        rw other (omega (arith, more, r.pool k (ground (arith, e, lt))))
  ];
  map = λ k lt. elim (Bool-cases (k == n)) [
    | inl e ↦
        let here : (n + 1 == k + 1) ≡ true = ground (arith, e) in
        rw (here, ==_self finish) (omega (arith, more, top))
    | inr e ↦
        let before : k < n = ground (arith, e, lt) in
        let other : (n + 1 == k + 1) ≡ false = ground (arith, e) in
        let below : (finish == s.cache_pool (k + 1)) ≡ false = ground (arith, r.pool k before) in
        rw (other, below) (omega (arith, more, r.map k before))
  ];
  apart = λ k l lk ll. elim (Bool-cases (k == n)) [
    | inl e ↦ elim (Bool-cases (l == n)) [
      | inl g ↦ λ h. ground (arith, e, g)
      | inr g ↦
          let here : (n + 1 == k + 1) ≡ true = ground (arith, e) in
          let other : (n + 1 == l + 1) ≡ false = ground (arith, g) in
          rw (here, other) (λ h. absurd (omega (arith, h, r.pool l (ground (arith, g, ll)))))
    ]
    | inr e ↦ elim (Bool-cases (l == n)) [
      | inl g ↦
          let here : (n + 1 == l + 1) ≡ true = ground (arith, g) in
          let other : (n + 1 == k + 1) ≡ false = ground (arith, e) in
          rw (here, other) (λ h. absurd (omega (arith, h, r.pool k (ground (arith, e, lk)))))
      | inr g ↦
          let one : (n + 1 == k + 1) ≡ false = ground (arith, e) in
          let two : (n + 1 == l + 1) ≡ false = ground (arith, g) in
          rw (one, two) (r.apart k l (ground (arith, e, lk)) (ground (arith, g, ll)))
    ]
  ];
}

init_cache-Ready :
    (s : Slabs) (n finish : ℕ)
    → finish ≢ 0
    → finish + room < 2 ^ 64
    → Ready s n finish
    → Ready (init_cache n finish s).1 (n + 1) (init_cache n finish s).0
      × (finish ≤ (init_cache n finish s).0)
      × ((init_cache n finish s).0 ≤ finish + room)
      × ((init_cache n finish s).1.size ≡ s.size)
unfolding init_cache
init_cache-Ready s n finish nz top r =
    let (bits, e, b) = init_cache-laid n finish s in
    let count = page_2m_size / s.size (kmalloc_cache n) in
    let most : count ≤ 2097152 = div-le_self page_2m_size (s.size (kmalloc_cache n)) in
    let long : map_length count ≤ 262144 = omega (arith, most) in
    let end = (map_at finish + map_length count + 80) % 2 ^ 64 / 8 * 8 in
    (
      subst (λ z. Ready z (n + 1) end) (sym e)
          (Ready-laid s n finish bits end nz (omega (arith, top, long)) (omega (arith, top)) b r),
      omega (arith, top, long),
      omega (arith, top, long),
      ap (λ (z : Slabs). z.size) e,
    )

-- The loop lays out the caches that are left.
pub init_caches-Ready :
    (s : Slabs) (n left finish : ℕ)
    → finish ≢ 0
    → finish + left * room + room < 2 ^ 64
    → Ready s n finish
    → Ready (init_caches n left finish s).1 (n + left) (init_caches n left finish s).0
      × (finish ≤ (init_caches n left finish s).0)
      × ((init_caches n left finish s).0 ≤ finish + left * room)
      × ((init_caches n left finish s).1.size ≡ s.size)
unfolding init_caches
init_caches-Ready s n zero finish nz top r =
    (subst (λ z. Ready s z finish) (omega arith) r, omega arith, omega arith, refl)
init_caches-Ready s n (suc left) finish nz top r =
    let (r', low, high, size) = init_cache-Ready s n finish nz (omega (arith, top)) r in
    let (r'', low', high', size') =
      init_caches-Ready (init_cache n finish s).1 (n + 1) left (init_cache n finish s).0
        (λ z. nz (omega (arith, z, low))) (omega (arith, top, high)) r' in
    (
      subst
          (λ z.
            Ready (init_caches (n + 1) left (init_cache n finish s).0 (init_cache n finish s).1).1 z
              (init_caches (n + 1) left (init_cache n finish s).0 (init_cache n finish s).1).0)
          (omega arith) r'',
      omega (arith, low, low'),
      omega (arith, high, high'),
      size' ∙ size,
    )
