-- ===== src/Slab/Init/Fresh.antt =====
-- The colour map of a new slab in os/kernel/memory.c: the bits of its objects are clear.
use kalinote_os.Base.{
  ℕ, zero, suc, ◌+◌, ◌*◌, ◌≤◌, ◌<◌, ◌≡◌, ◌≢◌, inl, inr, Bool, true, false, not, arith, sym, ◌∙◌, ap,
  refl, ltb, ◌==◌, if◌then◌else◌, Bool-cases, update, update_self, update_ne,
}
use kalinote_os.Slab.{Slabs, fill, toggle, toggle_first}
use kalinote_os.Slab.Kmalloc.{clear_map}
use kalinote_os.Slab.Count.{clear_bits}

-- Only bits of the map change: those in the range are the opposite, those before as they were.
record Flipped (s : Slabs) (map from to : ℕ) (s' : Slabs) : Type 0 where
  pub bits : ℕ → ℕ → Bool
  pub only : s' ≡ record s { bit = bits }
  pub others : (a : ℕ) → map ≢ a → bits a ≡ s.bit a
  pub before : (q : ℕ) → q < from → bits map q ≡ s.bit map q
  pub within : (q : ℕ) → from ≤ q → q < to → bits map q ≡ not (s.bit map q)

toggle_first-Flipped :
    (s : Slabs) (map i left : ℕ) → Flipped s map i (i + left) (toggle_first s map i left)
unfolding toggle_first toggle
toggle_first-Flipped s map i zero = record {
  bits = s.bit;
  only = refl;
  others = λ a n. refl;
  before = λ q l. refl;
  within = λ q l r. absurd (omega (arith, l, r));
}
toggle_first-Flipped s map i (suc left) =
    let one = update (s.bit map) i (not (s.bit map i)) in
    let now : (toggle s map i).bit map ≡ one = update_self s.bit map one in
    let rest = toggle_first-Flipped (toggle s map i) map (i + 1) left in
    record {
      bits = rest.bits;
      only = rest.only;
      others = λ a n. rest.others a n ∙ update_ne s.bit map a one n;
      before = λ q l.
          rest.before q (omega (arith, l))
          ∙ ap (λ f. f q) now
          ∙ update_ne (s.bit map) i q (not (s.bit map i)) (λ e. omega (arith, e, l));
      within = λ q l r. elim (Bool-cases (i == q)) [
        | inl e ↦
            let same : i ≡ q = ground (arith, e) in
            rest.before q (omega (arith, same))
            ∙ ap (λ f. f q) now
            ∙ ap (λ z. one z) (sym same)
            ∙ update_self (s.bit map) i (not (s.bit map i))
            ∙ ap (λ z. not (s.bit map z)) same
        | inr e ↦
            let other : i ≢ q = ground (arith, e) in
            rest.within q (omega (arith, other, l)) (omega (arith, r))
            ∙ ap not (ap (λ f. f q) now ∙ update_ne (s.bit map) i q (not (s.bit map i)) other)
      ];
    }

clear_bits-all :
    (bits : ℕ → Bool) (n : ℕ) → ((q : ℕ) → q < n → bits q ≡ false) → clear_bits bits n ≡ n
unfolding clear_bits
clear_bits-all bits zero h = omega arith
clear_bits-all bits (suc n) h =
    rw (h n (omega arith)) (omega (arith, clear_bits-all bits n (λ q l. h q (omega (arith, l)))))

-- The map of a new slab, if it is long enough for its objects.
pub record Fresh (s : Slabs) (slab : ℕ) (s' : Slabs) : Type 0 where
  pub bits : ℕ → ℕ → Bool
  pub only : s' ≡ record s { bit = bits }
  pub others : (a : ℕ) → s.color_map slab ≢ a → bits a ≡ s.bit a
  pub clear : clear_bits (bits (s.color_map slab)) (s.color_count slab) ≡ s.color_count slab

pub clear_map-Fresh :
    (s : Slabs) (slab : ℕ)
    → s.color_count slab ≤ 8 * s.color_length slab
    → Fresh s slab (clear_map slab s)
unfolding clear_map fill
clear_map-Fresh s slab long =
    let map = s.color_map slab in
    let count = s.color_count slab in
    let filled = fill s map (s.color_length slab) true in
    let f = toggle_first-Flipped filled map 0 count in
    let ones = λ (j : ℕ). if ltb j (8 * s.color_length slab) then true else s.bit map j in
    let now : filled.bit map ≡ ones = update_self s.bit map ones in
    record {
      bits = f.bits;
      only = f.only;
      others = λ a n. f.others a n ∙ update_ne s.bit map a ones n;
      clear = clear_bits-all (f.bits map) count (λ q l.
          let inside : ltb q (8 * s.color_length slab) ≡ true = ground (arith, l, long) in
          let set : ones q ≡ true = rw inside refl in
          f.within q (omega arith) (omega (arith, l)) ∙ ap not (ap (λ g. g q) now ∙ set));
    }
