-- ===== src/Softirq/Dispatch.antt =====
-- What `do_softirq` of os/kernel/softirq.c calls.
use mathlib.Core.Path.{subst}
use kalinote_os.Base.{
  ℕ, zero, suc, ◌+◌, ◌%◌, ◌<◌, ◌≤◌, ◌≡◌, ◌≢◌, Bool, true, false, ◌&&◌, not, refl, sym, ap, ◌∙◌,
  arith, ltb, ◌==◌, if◌then◌else◌, Bool-cases, inl, inr,
}
use kalinote_os.Softirq.{Softirq, any, mask, serve, serve_from, do_softirq}

any-none : (bits : ℕ → Bool) (n : ℕ) → ((b : ℕ) → b < n → bits b ≡ false) → any bits n ≡ false
unfolding any
any-none bits zero h = refl
any-none bits (suc n) h = rw (h n (omega arith)) (any-none bits n (λ b l. h b (omega arith)))

any-false : (bits : ℕ → Bool) (n b : ℕ) → any bits n ≡ false → b < n → bits b ≡ false
unfolding any
any-false bits zero b e l = absurd (omega arith)
any-false bits (suc n) b e l = elim (Bool-cases (b == n)) [
  | inl p ↦
      let same : n ≡ b = ground (arith, p) in subst (λ z. bits z ≡ false) same (ground (arith, e))
  | inr p ↦ any-false bits n b (ground (arith, e)) (ground (arith, p))
]

mask-low : (i b : ℕ) → i < 31 → mask i b ≡ (b == i)
unfolding mask
mask-low i b h =
    let small : i % 32 ≡ i = omega arith in
    let no : (i == 31) ≡ false = ground (arith, h) in rw (small, no)

masked_off : (bits : ℕ → Bool) (i b : ℕ) → i < 31 → b ≢ i → (bits b && mask i b) ≡ false
masked_off bits i b h ne =
    let e : (b == i) ≡ false = ground (arith, ne) in rw (mask-low i b h, e) (ground (arith, bits b))

-- The test of one bit.
any-mask : (bits : ℕ → Bool) (i n : ℕ) → i < 31 → i < n → any (λ b. bits b && mask i b) n ≡ bits i
unfolding any
any-mask bits i zero h l = absurd (omega arith)
any-mask bits i (suc n) h l = elim (Bool-cases (n == i)) [
  | inl e ↦
      let same : n ≡ i = ground (arith, e) in
      let below : any (λ b. bits b && mask i b) n ≡ false =
        any-none (λ b. bits b && mask i b) n
          (λ b lt. masked_off bits i b h (omega (arith, lt, same))) in
      rw (below, mask-low i n h, e) (ground (arith, ap bits same))
  | inr e ↦ rw (masked_off bits i n h (ground (arith, e))) (any-mask bits i n h (ground (arith, e)))
]

module _ {W : Type 0} (work : ℕ → ℕ → W → W) where
  -- The work of the set bits from `i` on, in ascending order.
  abbrev pub work_of : (ℕ → Bool) → (action argument : ℕ → ℕ) → ℕ → ℕ → W → W
  work_of bits action argument i zero w = w
  work_of bits action argument i (suc left) w =
      work_of bits action argument (i + 1) left
        (if bits i then work (action i) (argument i) w else w)

  work_of-none :
      (bits : ℕ → Bool) (action argument : ℕ → ℕ) (i left : ℕ) (w : W)
      → i + left ≡ 64
      → any bits 64 ≡ false
      → work_of bits action argument i left w ≡ w
  work_of-none bits action argument i zero w e h = refl
  work_of-none bits action argument i (suc left) w e h =
      rw (any-false bits 64 i h (omega arith))
        (work_of-none bits action argument (i + 1) left w (omega arith) h)

  work_of-ext :
      (f g : ℕ → Bool) (action argument : ℕ → ℕ) (i left : ℕ) (w : W)
      → ((b : ℕ) → i ≤ b → f b ≡ g b)
      → work_of f action argument i left w ≡ work_of g action argument i left w
  work_of-ext f g action argument i zero w h = refl
  work_of-ext f g action argument i (suc left) w h = rw (h i (omega arith)) (
      work_of-ext f g action argument (i + 1) left
        (if g i then work (action i) (argument i) w else w) (λ b l. h b (omega arith)))

-- Nothing is left to serve, and the work of the bits was done.
abbrev pub Served :
    {W : Type 0} → (work : ℕ → ℕ → W → W) → Softirq → ℕ → ℕ → W → Softirq × W → Type 0
Served work s i left w r =
    ((b : ℕ) → b < 64 → r.0.status b ≡ false)
    × (r.1 ≡ work_of work s.status s.action s.argument i left w)

below_next :
    (bits : ℕ → Bool) (i b : ℕ)
    → bits i ≡ false
    → (b < i → bits b ≡ false)
    → b < i + 1
    → bits b ≡ false
below_next bits i b e f l = elim (Bool-cases (b == i)) [
  | inl p ↦ let same : i ≡ b = ground (arith, p) in subst (λ z. bits z ≡ false) same e
  | inr p ↦ f (ground (arith, p, l))
]

cleared : (bits : ℕ → Bool) (i : ℕ) → i < 31 → (bits i && not (mask i i)) ≡ false
cleared bits i lt =
    let e : (i == i) ≡ true = ground arith in rw (mask-low i i lt, e) (ground (arith, bits i))

kept : (bits : ℕ → Bool) (i b : ℕ) → i < 31 → i + 1 ≤ b → (bits b && not (mask i b)) ≡ bits b
kept bits i b lt l =
    let e : (b == i) ≡ false = ground (arith, l) in rw (mask-low i b lt, e) (ground (arith, bits b))

module _ {W : Type 0} (call : ℕ → ℕ → Softirq × W → Softirq × W) (work : ℕ → ℕ → W → W)
    (quiet : (a d : ℕ) (s : Softirq) (w : W) → call a d (s, w) ≡ (s, work a d w)) where
  serve-set :
      (i : ℕ) (s : Softirq) (w : W)
      → serve call i (s, w) ≡ (
        record s { status = λ b. s.status b && not (mask i b) },
        work (s.action i) (s.argument i) w,
      )
  unfolding serve
  serve-set i s w = rw (quiet (s.action i) (s.argument i) s w)

  serve_from-Served :
      (i left : ℕ) (s : Softirq) (w : W)
      → i + left ≡ 64
      → ((b : ℕ) → b < i → s.status b ≡ false)
      → ((b : ℕ) → 31 ≤ b → s.status b ≡ false)
      → Served work s i left w (serve_from call i left (s, w))
  unfolding serve_from
  serve_from-Served i zero s w e below high = (λ b l. below b (omega arith), refl)
  serve_from-Served i (suc left) s w e below high = elim (Bool-cases (any s.status 64)) [
    | inr z ↦ rw z (
      λ b l. any-false s.status 64 b z l,
      sym (work_of-none work s.status s.action s.argument i (suc left) w e z),
    )
    | inl z ↦ elim (Bool-cases (ltb i 31)) [
      | inr c ↦
          let none_left : any s.status 64 ≡ false =
            any-none s.status 64 (λ b l. grind (arith, c, below b, high b)) in
          absurd (ground (arith, z, none_left))
      | inl c ↦
          let lt : i < 31 = ground (arith, c) in
          elim (Bool-cases (s.status i)) [
            | inr d ↦
                rw (z, any-mask s.status i 64 lt (omega arith), d)
                  (serve_from-Served (i + 1) left s w (omega arith)
                    (λ b l. below_next s.status i b d (below b) l) high)
            | inl d ↦
                let s' : Softirq = record s { status = λ b. s.status b && not (mask i b) } in
                let w' : W = work (s.action i) (s.argument i) w in
                let r =
                  serve_from-Served (i + 1) left s' w' (omega arith)
                    (λ b l.
                      below_next s'.status i b (cleared s.status i lt) (λ k. rw (below b k)) l)
                    (λ b l. rw (high b l)) in
                rw (z, any-mask s.status i 64 lt (omega arith), d, serve-set i s w)
                  (
                    r.0,
                    r.1
                        ∙ work_of-ext work s'.status s.status s.action s.argument (i + 1) left w'
                            (λ b l. kept s.status i b lt l),
                  )
          ]
    ]
  ]

  -- When the actions leave the soft interrupts alone and no bit above 30 is set, `do_softirq` calls
  -- exactly the actions of the bits that are set, each once, with its argument, from the lowest bit
  -- up, and clears every bit.
  pub do_softirq-Served :
      (s : Softirq) (w : W)
      → ((b : ℕ) → 31 ≤ b → s.status b ≡ false)
      → Served work s 0 64 w (do_softirq call (s, w))
  unfolding do_softirq
  do_softirq-Served s w high =
      serve_from-Served 0 64 s w (omega arith) (λ b l. absurd (omega arith)) high
