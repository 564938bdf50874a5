-- ===== src/Fat/Lookup/Tests.antt =====
-- A directory of two files on a drive in memory, and the theorem about `FAT32_lookup` at it.
use mathlib.Core.Path.{subst}
use kalinote_os.Base.{
  ℕ, zero, suc, ◌+◌, ◌*◌, ◌<◌, ◌≤◌, ◌≡◌, ◌≢◌, inl, inr, Bool, true, ◌&&◌, [], ◌∷◌, arith, refl,
  ◌==◌, Bool-cases, Gives,
}
use kalinote_os.Fat.{read_fat_entry}
use kalinote_os.Fat.Lookup.{lookup_from}
use kalinote_os.Fat.Name.Plain.{IsPlainByte, IsPlain, IsUnused}
use kalinote_os.Fat.Lookup.Named.{seen, IsPlainCluster, Finds, lookup_from-Finds}
use kalinote_os.Fat.Tests.{
  memory_drive, memory_drive-IsDrive, small_volume, byte_at, directory, b_txt,
}

-- What holds of `from` to `from + n - 1`, one after the other.
abbrev Each : (ℕ → Type 0) → (from n : ℕ) → Type 0
Each P from zero = Unit
Each P from (suc n) = P from × Each P (from + 1) n

each : (P : ℕ → Type 0) (from n i : ℕ) → Each P from n → from ≤ i → i < from + n → P i
each P from zero i a l r = absurd (omega (arith, l, r))
each P from (suc n) i (h, a) l r = elim (Bool-cases (i == from)) [
  | inl e ↦ let same : from ≡ i = ground (arith, e) in subst P same h
  | inr e ↦ each P (from + 1) n i a (ground (arith, e, l)) (omega (arith, r))
]

-- The function has one value there.
abbrev all_are : (ℕ → ℕ) → (value from n : ℕ) → Bool
all_are f value from zero = true
all_are f value from (suc n) = (f from == value) && all_are f value (from + 1) n

all_are-Each :
    (f : ℕ → ℕ) (value from n : ℕ) → all_are f value from n ≡ true → Each (λ i. f i ≡ value) from n
all_are-Each f value from zero e = tt
all_are-Each f value from (suc n) e =
    (ground (arith, e), all_are-Each f value (from + 1) n (ground (arith, e)))

-- What is seen of a cluster of the directory in a buffer at 1000.
abbrev seen_in : ℕ → ℕ → ℕ
seen_in c =
    seen memory_drive memory_drive-IsDrive small_volume (byte_at b_txt) 5 6 1000 (λ at. 0) directory
      c

a_txt-IsPlain : IsPlain (seen_in 2) 1000 1
unfolding memory_drive-IsDrive
a_txt-IsPlain =
    let capital : (c : ℕ) → 65 ≤ c → c ≤ 90 → IsPlainByte c = λ c l r. inr (l, r) in
    record {
      some_base = omega arith;
      short_base = omega arith;
      base = λ i r.
          each (λ i. IsPlainByte (seen_in 2 (1000 + i))) 0 1 i
            (capital 65 (omega arith) (omega arith), tt) (omega arith) (omega (arith, r));
      pad = λ i l r.
          each (λ i. seen_in 2 (1000 + i) ≡ 32) 1 7 i
            (all_are-Each (λ i. seen_in 2 (1000 + i)) 32 1 7 refl) l (omega (arith, r));
      ext = λ i l r.
          each (λ i. IsPlainByte (seen_in 2 (1000 + i))) 8 3 i
            (
              capital 84 (omega arith) (omega arith),
              (
                capital 88 (omega arith) (omega arith),
                (capital 84 (omega arith) (omega arith), tt),
              ),
            )
            l (omega (arith, r));
      file = refl;
      no_long = omega arith;
      capital_base = refl;
      capital_ext = refl;
      alone = omega arith;
    }

b_txt-IsPlain : IsPlain (seen_in 3) 1032 1
unfolding memory_drive-IsDrive
b_txt-IsPlain =
    let capital : (c : ℕ) → 65 ≤ c → c ≤ 90 → IsPlainByte c = λ c l r. inr (l, r) in
    record {
      some_base = omega arith;
      short_base = omega arith;
      base = λ i r.
          each (λ i. IsPlainByte (seen_in 3 (1032 + i))) 0 1 i
            (capital 66 (omega arith) (omega arith), tt) (omega arith) (omega (arith, r));
      pad = λ i l r.
          each (λ i. seen_in 3 (1032 + i) ≡ 32) 1 7 i
            (all_are-Each (λ i. seen_in 3 (1032 + i)) 32 1 7 refl) l (omega (arith, r));
      ext = λ i l r.
          each (λ i. IsPlainByte (seen_in 3 (1032 + i))) 8 3 i
            (
              capital 84 (omega arith) (omega arith),
              (
                capital 88 (omega arith) (omega arith),
                (capital 84 (omega arith) (omega arith), tt),
              ),
            )
            l (omega (arith, r));
      file = refl;
      no_long = omega arith;
      capital_base = refl;
      capital_ext = refl;
      alone = omega arith;
    }

-- The other entries begin with 0.
rest-IsUnused :
    (c from n p : ℕ)
    → all_are (λ p. seen_in c (1000 + p * 32 + 0)) 0 from n ≡ true
    → from ≤ p
    → p < from + n
    → IsUnused (seen_in c) (1000 + p * 32)
rest-IsUnused c from n p a l r = inr (
    inr (
      inl (
        each (λ p. seen_in c (1000 + p * 32 + 0) ≡ 0) from n p
          (all_are-Each (λ p. seen_in c (1000 + p * 32 + 0)) 0 from n a) l r)))

first_cluster-IsPlainCluster :
    IsPlainCluster memory_drive memory_drive-IsDrive small_volume
      (byte_at b_txt)
      5
      6
      1000
      (λ at. 0)
      directory
      2
unfolding memory_drive-IsDrive
first_cluster-IsPlainCluster = record {
  behind = omega arith;
  small = omega arith;
  on_disk = omega arith;
  entries = λ p lt. elim (Bool-cases (p == 0)) [
    | inl e ↦
        let same : 0 ≡ p = ground (arith, e) in
        inr (1, subst (λ p. IsPlain (seen_in 2) (1000 + p * 32) 1) same a_txt-IsPlain)
    | inr e ↦ inl (rest-IsUnused 2 1 15 p refl (ground (arith, e)) (omega (arith, lt)))
  ];
}

last_cluster-IsPlainCluster :
    IsPlainCluster memory_drive memory_drive-IsDrive small_volume
      (byte_at b_txt)
      5
      6
      1000
      (λ at. 0)
      directory
      3
unfolding memory_drive-IsDrive
last_cluster-IsPlainCluster = record {
  behind = omega arith;
  small = omega arith;
  on_disk = omega arith;
  entries = λ p lt. elim (Bool-cases (p == 1)) [
    | inl e ↦
        let same : 1 ≡ p = ground (arith, e) in
        inr (1, subst (λ p. IsPlain (seen_in 3) (1000 + p * 32) 1) same b_txt-IsPlain)
    | inr e ↦ inl (elim (Bool-cases (p == 0)) [
      | inl z ↦ rest-IsUnused 3 0 1 p refl (omega arith) (ground (arith, z))
      | inr z ↦ rest-IsUnused 3 2 14 p refl (ground (arith, e, z)) (omega (arith, lt))
    ])
  ];
}

b_txt-no_space : (i : ℕ) → byte_at b_txt i ≢ 32
b_txt-no_space i = ground arith

lookup_from-Finds_example :
    Gives
      (Finds memory_drive memory_drive-IsDrive small_volume
        (byte_at b_txt)
        5
        6
        1000
        (λ at. 0)
        directory
        (2 ∷ 3 ∷ []))
      (lookup_from memory_drive small_volume (byte_at b_txt) 5 6 1000 directory (λ at. 0) 2 2)
unfolding read_fat_entry
lookup_from-Finds_example =
    lookup_from-Finds memory_drive memory_drive-IsDrive small_volume (byte_at b_txt) 5 6 1000
      (λ at. 0) directory 2 2 (3 ∷ []) refl b_txt-no_space
      (first_cluster-IsPlainCluster, refl, omega arith, (last_cluster-IsPlainCluster, omega arith))
      (omega arith) (omega arith)
