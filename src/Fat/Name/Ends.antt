-- ===== src/Fat/Name/Ends.antt =====
-- The comparison of a long name in `FAT32_lookup` of os/kernel/fat32.c ends.
use kalinote_os.Base.{
  ℕ, zero, suc, ◌+◌, ◌-◌, ◌≤◌, ◌<◌, ◌≡◌, inl, inr, Bool, true, false, ◌&&◌, ◌||◌, not, List, [],
  ◌∷◌, Option, none, some, arith, ltb, leb, ◌==◌, Bool-cases, Gives,
}
use kalinote_os.Fat.Device.{word16}
use kalinote_os.Fat.Name.{
  wide, units_from, same_units, Match, same_long, long_match, attr_long_name, dir_attr, short_match,
  is_skipped, entry_match,
}

-- What holds of a result, if there is one.
abbrev IfSome : (ℕ → Type 0) → Option ℕ → Type 0
IfSome P none = Unit
IfSome P (some j) = P j

same_units-le :
    (name : ℕ → ℕ) (len j : ℕ) (us : List ℕ) → IfSome (λ j'. j ≤ j') (same_units name len j us)
unfolding same_units
same_units-le name len j [] = omega arith
same_units-le name len j (u ∷ us) = elim (Bool-cases (ltb len j && (u == 65535))) [
  | inl e ↦ rw e (same_units-le name len j us)
  | inr e ↦ elim (Bool-cases (ltb len j || not (u == wide (name j)))) [
    | inl g ↦ rw (e, g) tt
    | inr g ↦
        rw (e, g) (weaken (same_units name len (j + 1) us) (same_units-le name len (j + 1) us))
  ]
]
  where
    weaken : (o : Option ℕ) → IfSome (λ j'. j + 1 ≤ j') o → IfSome (λ j'. j ≤ j') o
    weaken none h = tt
    weaken (some j') h = omega arith

-- Before the end of the name a unit is taken.
same_units-lt :
    (name : ℕ → ℕ) (len j u : ℕ) (us : List ℕ)
    → j ≤ len
    → IfSome (λ j'. j < j') (same_units name len j (u ∷ us))
unfolding same_units
same_units-lt name len j u us h =
    let inside : (ltb len j && (u == 65535)) ≡ false = ground arith in
    elim (Bool-cases (ltb len j || not (u == wide (name j)))) [
      | inl g ↦ rw (inside, g) tt
      | inr g ↦
          rw (inside, g)
            (weaken (same_units name len (j + 1) us) (same_units-le name len (j + 1) us))
    ]
  where
    weaken : (o : Option ℕ) → IfSome (λ j'. j + 1 ≤ j') o → IfSome (λ j'. j < j') o
    weaken none k = tt
    weaken (some j') k = omega arith

same_long-lt :
    (mem name : ℕ → ℕ) (len entry j : ℕ)
    → j ≤ len
    → IfSome (λ j'. j < j') (same_long mem name len entry j)
unfolding same_long
same_long-lt mem name len entry j h =
    one (same_units name len j (units_from mem (entry + 1) 5))
      (same_units-lt name len j (word16 mem (entry + 1)) (units_from mem (entry + 1 + 2) 4) h)
  where
    last :
        (j2 : ℕ)
        → j < j2
        → IfSome (λ j'. j < j') (same_units name len j2 (units_from mem (entry + 28) 2))
    last j2 l =
        weaken (same_units name len j2 (units_from mem (entry + 28) 2))
          (same_units-le name len j2 (units_from mem (entry + 28) 2))
      where
        weaken : (o : Option ℕ) → IfSome (λ j'. j2 ≤ j') o → IfSome (λ j'. j < j') o
        weaken none k = tt
        weaken (some j') k = omega (arith, k, l)

    two :
        (o : Option ℕ)
        → IfSome (λ j'. j < j') o
        → IfSome
            (λ j'. j < j')
            (elim o as (λ x. Option ℕ) [
              | none ↦ none
              | some j2 ↦ same_units name len j2 (units_from mem (entry + 28) 2)
            ])
    two none k = tt
    two (some j2) k = last j2 k

    one :
        (o : Option ℕ)
        → IfSome (λ j'. j < j') o
        → IfSome
            (λ j'. j < j')
            (elim o as (λ x. Option ℕ) [
              | none ↦ none
              | some j1 ↦ elim (same_units name len j1 (units_from mem (entry + 14) 6)) [
                | none ↦ none
                | some j2 ↦ same_units name len j2 (units_from mem (entry + 28) 2)
              ]
            ])
    one none k = tt
    one (some j1) k = two (same_units name len j1 (units_from mem (entry + 14) 6)) (
        weaken (same_units name len j1 (units_from mem (entry + 14) 6))
          (same_units-le name len j1 (units_from mem (entry + 14) 6)))
      where
        weaken : (o : Option ℕ) → IfSome (λ j'. j1 ≤ j') o → IfSome (λ j'. j < j') o
        weaken none l = tt
        weaken (some j') l = omega (arith, k, l)

-- Every long entry takes at least one character of the name.
long_match-ends :
    (mem name : ℕ → ℕ) (len fuel entry j : ℕ)
    → j ≤ len
    → len < j + fuel
    → Gives (λ m. Unit {0}) (long_match mem name len fuel entry j)
unfolding long_match
long_match-ends mem name len zero entry j h lt = absurd (omega arith)
long_match-ends mem name len (suc fuel) entry j h lt =
    elim (Bool-cases ((dir_attr mem entry == attr_long_name) && not (mem entry == 229))) [
      | inr e ↦ rw e tt
      | inl e ↦ rw e (
          go (λ j' a b. long_match-ends mem name len fuel (entry - 32) j' a (omega (arith, b, lt)))
            (same_long mem name len entry j) (same_long-lt mem name len entry j h))
    ]
  where
    go :
        (next : (j' : ℕ)
          → j' ≤ len
          → j < j'
          → Gives (λ m. Unit {0}) (long_match mem name len fuel (entry - 32) j'))
        → (o : Option ℕ) → IfSome (λ j'. j < j') o
        → Gives
            (λ m. Unit {0})
            (elim o as (λ x. Option Match) [
              | none ↦ some Match.different
              | some j' ↦ elim (leb len j') as (λ x. Option Match) [
                | true ↦ some Match.same
                | false ↦ long_match mem name len fuel (entry - 32) j'
              ]
            ])
    go next none k = tt
    go next (some j') k = elim (Bool-cases (leb len j')) [
      | inl e ↦ rw e tt
      | inr e ↦ rw e (next j' (ground (arith, e)) k)
    ]

-- With more fuel than the name has characters an entry matches or does not.
pub entry_match-ends :
    (mem name : ℕ → ℕ) (len fuel entry : ℕ)
    → len < fuel
    → Gives (λ b. Unit {0}) (entry_match mem name len fuel entry)
unfolding entry_match
entry_match-ends mem name len fuel entry lt = elim (Bool-cases (is_skipped mem entry)) [
  | inl e ↦ rw e tt
  | inr e ↦ rw e (
      go (long_match mem name len fuel (entry - 32) 0)
        (long_match-ends mem name len fuel (entry - 32) 0 (omega arith) (omega arith)))
]
  where
    go :
        (o : Option Match)
        → Gives (λ m. Unit {0}) o
        → Gives
            (λ b. Unit {0})
            (elim o as (λ x. Option Bool) [
              | none ↦ none
              | some Match.same ↦ some true
              | some Match.different ↦ some false
              | some Match.undecided ↦ some (short_match mem name len entry)
            ])
    go none k = absurd k
    go (some Match.same) k = tt
    go (some Match.different) k = tt
    go (some Match.undecided) k = tt
