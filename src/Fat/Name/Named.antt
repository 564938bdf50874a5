-- ===== src/Fat/Name/Named.antt =====
-- Which entries `FAT32_lookup` of os/kernel/fat32.c accepts for a name, where the entry is unused, or
-- that of a file with a plain short name and no long entry in front of it.
use mathlib.Core.Path.{subst}
use kalinote_os.Base.{
  ℕ, zero, suc, ◌+◌, ◌-◌, ◌<◌, ◌≡◌, ◌≢◌, inl, inr, true, false, arith, sym, ltb, ◌==◌, Bool-cases,
  Gives,
}
use kalinote_os.Fat.Name.{long_match, short_match, is_skipped, entry_match}
use kalinote_os.Fat.Name.Plain.{
  IsPlainByte, IsPlain, IsUnused, Begins, IsNamed, Decides, Decides-iff,
}
use kalinote_os.Fat.Name.Short.{short_match-Begins}

module _ (mem name : ℕ → ℕ) (len e n : ℕ) (plain : IsPlain mem e n) where
  -- There is no other base name.
  one_base : (n' : ℕ) → IsPlain mem e n' → n ≡ n'
  one_base n' other = elim (Bool-cases (ltb n n')) [
    | inl y ↦
        let lt : n < n' = ground (arith, y) in
        absurd
          (space (other.base n lt) (plain.pad n (omega arith) (omega (arith, plain.short_base))))
    | inr y ↦ elim (Bool-cases (ltb n' n)) [
      | inl z ↦
          let lt : n' < n = ground (arith, z) in
          absurd (
            space (plain.base n' lt) (other.pad n' (omega arith) (omega (arith, other.short_base))))
      | inr z ↦ ground (arith, y, z)
    ]
  ]
    where
      space : {c : ℕ} → IsPlainByte c → c ≡ 32 → ⊥
      space h k = grind (arith, h, k)

  -- For a name without a space the comparison says whether the name begins with that of the entry.
  pub entry_match-IsNamed :
      (fuel : ℕ)
      → ((i : ℕ) → name i ≢ 32)
      → 0 < fuel
      → Gives (Decides (IsNamed mem name len e)) (entry_match mem name len fuel e)
  unfolding entry_match long_match
  entry_match-IsNamed zero no_space pos = absurd (omega (arith, pos))
  entry_match-IsNamed (suc fuel) no_space pos =
      let first = plain.base 0 plain.some_base in
      let used : is_skipped mem e ≡ false = ground (arith, first, plain.no_long) in
      let short : (mem (e - 32 + 11) == 15) ≡ false = ground (arith, plain.alone) in
      rw (used, long_match, short)
        (Decides-iff (Begins mem name len e n) (IsNamed mem name len e) (short_match mem name len e)
          (λ h. (n, plain, h))
          (λ (n', other, h). subst (Begins mem name len e) (sym (one_base n' other)) h)
          (short_match-Begins mem name len e n plain no_space))

pub entry_match-IsUnused :
    (mem name : ℕ → ℕ) (len fuel e : ℕ)
    → IsUnused mem e
    → Gives (Decides (IsNamed mem name len e)) (entry_match mem name len fuel e)
unfolding entry_match
entry_match-IsUnused mem name len fuel e u =
    let skipped : is_skipped mem e ≡ true = grind (arith, u) in
    rw skipped (λ (n, plain, h). absurd (apart n plain))
  where
    apart : (n : ℕ) → IsPlain mem e n → ⊥
    apart n plain = grind (arith, u, plain.base 0 plain.some_base, plain.no_long)
