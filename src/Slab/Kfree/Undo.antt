-- ===== src/Slab/Kfree/Undo.antt =====
-- Giving an object back right after it was taken restores the slab and its cache.
use kalinote_os.Base.{
  ℕ, ◌+◌, ◌^◌, ◌<◌, ◌≡◌, inl, inr, Bool, true, false, not, arith, sym, ◌∙◌, ap, refl, ◌==◌,
  Bool-cases, update, update_self,
}
use kalinote_os.Pages.{inc, dec}
use kalinote_os.Slab.{Slabs, toggle, take_object, give_object}
use kalinote_os.Slab.Kfree.{is_spare}

-- The bits of all maps, the counts of all slabs and caches, the lists and the pages are the same.
pub record Restored (s s' : Slabs) : Type 0 where
  pub bits : (a q : ℕ) → s'.bit a q ≡ s.bit a q
  pub free : (x : ℕ) → s'.free_count x ≡ s.free_count x
  pub using : (x : ℕ) → s'.using_count x ≡ s.using_count x
  pub total_free : (c : ℕ) → s'.total_free c ≡ s.total_free c
  pub total_using : (c : ℕ) → s'.total_using c ≡ s.total_using c
  pub links : s'.links ≡ s.links
  pub memory : s'.memory ≡ s.memory
  pub color_count : s'.color_count ≡ s.color_count
  pub cache_pool : s'.cache_pool ≡ s.cache_pool

-- Two writes at one address, the second with what stood there.
update_back : (f : ℕ → ℕ) (a v w : ℕ) → w ≡ f a → (x : ℕ) → update (update f a v) a w x ≡ f x
update_back f a v w e x = elim (Bool-cases (a == x)) [
  | inl p ↦ let same : a ≡ x = ground (arith, p) in rw p (e ∙ ap f same)
  | inr p ↦ rw p
]

inc-dec : (n : ℕ) → 0 < n → n < 2 ^ 64 → inc (dec n) ≡ n
inc-dec n p l = omega arith

dec-inc : (n : ℕ) → n + 1 < 2 ^ 64 → dec (inc n) ≡ n
dec-inc n l = omega arith

flip_back :
    (b : ℕ → Bool) (j : ℕ)
    → b j ≡ false
    → (q : ℕ) → update (update b j true) j (not (update b j true j)) q ≡ b q
flip_back b j clear q =
    let self : update b j true j ≡ true = update_self b j true in
    elim (Bool-cases (j == q)) [
      | inl p ↦ let same : j ≡ q = ground (arith, p) in rw p (ap not self ∙ sym clear ∙ ap b same)
      | inr p ↦ rw p
    ]

bits_back :
    (bit : ℕ → ℕ → Bool) (m j : ℕ)
    → bit m j ≡ false
    → (a q : ℕ)
    → update
        (update bit m (update (bit m) j true))
        m
        (update
          (update bit m (update (bit m) j true) m)
          j
          (not (update bit m (update (bit m) j true) m j)))
        a
        q
      ≡ bit a q
bits_back bit m j clear a q =
    let b' = update (bit m) j true in
    elim (Bool-cases (m == a)) [
      | inl p ↦
          let same : m ≡ a = ground (arith, p) in
          rw p (
            ap (λ (f : ℕ → Bool). update f j (not (f j)) q) (update_self bit m b')
            ∙ flip_back (bit m) j clear q
            ∙ ap (λ z. bit z q) same)
      | inr p ↦ rw p
    ]

pub give_object-take_object :
    (s : Slabs) (cache slab j : ℕ)
    → s.bit (s.color_map slab) j ≡ false
    → 0 < s.free_count slab
    → 0 < s.total_free cache
    → s.free_count slab < 2 ^ 64
    → s.total_free cache < 2 ^ 64
    → s.using_count slab + 1 < 2 ^ 64
    → s.total_using cache + 1 < 2 ^ 64
    → Restored s (give_object cache slab j (take_object cache slab j s))
unfolding give_object take_object toggle
give_object-take_object s cache slab j clear f tf fl tfl u tu = record {
  bits = bits_back s.bit (s.color_map slab) j clear;
  free = update_back s.free_count slab (dec (s.free_count slab)) _ (
      ap inc (update_self s.free_count slab (dec (s.free_count slab)))
      ∙ inc-dec (s.free_count slab) f fl);
  using = update_back s.using_count slab (inc (s.using_count slab)) _ (
      ap dec (update_self s.using_count slab (inc (s.using_count slab)))
      ∙ dec-inc (s.using_count slab) u);
  total_free = update_back s.total_free cache (dec (s.total_free cache)) _ (
      ap inc (update_self s.total_free cache (dec (s.total_free cache)))
      ∙ inc-dec (s.total_free cache) tf tfl);
  total_using = update_back s.total_using cache (inc (s.total_using cache)) _ (
      ap dec (update_self s.total_using cache (inc (s.total_using cache)))
      ∙ dec-inc (s.total_using cache) tu);
  links = refl;
  memory = refl;
  color_count = refl;
  cache_pool = refl;
}

pub is_spare-Restored :
    (s s' : Slabs) (cache slab : ℕ) → Restored s s' → is_spare cache slab s' ≡ is_spare cache slab s
unfolding is_spare
is_spare-Restored s s' cache slab r = rw (
  r.using slab,
  r.total_free cache,
  ap (λ f. f slab) r.color_count,
  ap (λ f. f cache) r.cache_pool,
)
