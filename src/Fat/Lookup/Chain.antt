-- ===== src/Fat/Lookup/Chain.antt =====
-- `FAT32_lookup` of os/kernel/fat32.c on a drive, along the chain of clusters of a directory.
use mathlib.Core.Path.{subst}
use kalinote_os.Base.{
  ℕ, zero, suc, ◌+◌, ◌*◌, ◌≤◌, ◌<◌, ◌≡◌, ◌⊎◌, inl, inr, Bool, true, false, ◌&&◌, List, [], ◌∷◌,
  Option, none, some, arith, refl, sym, ap, ◌∙◌, ltb, leb, if◌then◌else◌, Bool-cases, Gives, length,
}
use kalinote_os.Fat.{Volume, read_fat_entry}
use kalinote_os.Fat.Device.{Drive, IsDrive}
use kalinote_os.Fat.Name.{entry_match}
use kalinote_os.Fat.Name.Ends.{entry_match-ends}
use kalinote_os.Fat.Lookup.{
  Inode, inode_of, scan_entries, cluster_sector, load, entries_per_cluster, end_of_chain,
  lookup_from,
}

-- No entry from `position` on matches, or the one that `found` names is the first that does.
abbrev pub NoMatchFrom : (ℕ → ℕ) → (ℕ → ℕ) → (len fuel buf position left : ℕ) → Type 0
NoMatchFrom mem name len fuel buf position left =
    (p : ℕ)
    → position ≤ p
    → p < position + left
    → entry_match mem name len fuel (buf + p * 32) ≡ some false

abbrev pub FirstMatch : (ℕ → ℕ) → (ℕ → ℕ) → (len fuel buf position left found : ℕ) → Type 0
FirstMatch mem name len fuel buf position left found =
    (position ≤ found)
    × (found < position + left)
    × (entry_match mem name len fuel (buf + found * 32) ≡ some true)
    × ((p : ℕ)
        → position ≤ p
        → p < found
        → entry_match mem name len fuel (buf + p * 32) ≡ some false)

abbrev Scanned : (ℕ → ℕ) → (ℕ → ℕ) → (len fuel buf position left : ℕ) → Option (Option ℕ) → Type 0
Scanned mem name len fuel buf position left none = ⊥
Scanned mem name len fuel buf position left (some none) =
    NoMatchFrom mem name len fuel buf position left
Scanned mem name len fuel buf position left (some (some found)) =
    FirstMatch mem name len fuel buf position left found

scan_entries-Scanned :
    (mem name : ℕ → ℕ) (len fuel buf position left : ℕ)
    → len < fuel
    → Scanned mem name len fuel buf position left (scan_entries mem name len fuel buf position left)
unfolding scan_entries
scan_entries-Scanned mem name len fuel buf position zero h = λ p a b. absurd (omega (arith, a, b))
scan_entries-Scanned mem name len fuel buf position (suc left) h =
    step (scan_entries mem name len fuel buf (position + 1) left)
      (scan_entries-Scanned mem name len fuel buf (position + 1) left h)
      (entry_match mem name len fuel (buf + position * 32)) refl
      (entry_match-ends mem name len fuel (buf + position * 32) h)
  where
    here :
        (p : ℕ)
        → entry_match mem name len fuel (buf + position * 32) ≡ some false
        → position ≡ p
        → entry_match mem name len fuel (buf + p * 32) ≡ some false
    here p e same = ap (λ z. entry_match mem name len fuel (buf + z * 32)) (sym same) ∙ e

    more :
        (rest : Option (Option ℕ))
        → Scanned mem name len fuel buf (position + 1) left rest
        → entry_match mem name len fuel (buf + position * 32) ≡ some false
        → Scanned mem name len fuel buf position (suc left) rest
    more none k e = k
    more (some none) k e = λ p a b. elim (at_or_after p a) [
      | inl same ↦ here p e same
      | inr after ↦ k p after (omega (arith, b))
    ]
      where
        at_or_after : (p : ℕ) → position ≤ p → (position ≡ p) ⊎ (position + 1 ≤ p)
        at_or_after p a = omega (arith, a)
    more (some (some found)) k e = (
      omega (arith, k.0),
      omega (arith, k.1),
      k.2,
      λ p a b. elim (at_or_after p a) [ inl same ↦ here p e same | inr after ↦ k.3 p after b ],
    )
      where
        at_or_after : (p : ℕ) → position ≤ p → (position ≡ p) ⊎ (position + 1 ≤ p)
        at_or_after p a = omega (arith, a)

    step :
        (rest : Option (Option ℕ))
        → Scanned mem name len fuel buf (position + 1) left rest
        → (m : Option Bool) → entry_match mem name len fuel (buf + position * 32) ≡ m
        → Gives (λ b. Unit {0}) m
        → Scanned mem name len fuel buf position (suc left) (elim m as (λ x. Option (Option ℕ)) [
          | none ↦ none
          | some found ↦ if found then some (some position) else rest
        ])
    step rest k none e g = absurd g
    step rest k (some true) e g =
        (omega arith, omega arith, e, λ p a b. absurd (omega (arith, a, b)))
    step rest k (some false) e g = more rest k e

-- A transfer into the buffer leaves nothing of an earlier one.
load-load :
    (mem : ℕ → ℕ) (buf size : ℕ) (old new : ℕ → ℕ)
    → load (load mem buf size old) buf size new ≡ load mem buf size new
load-load mem buf size old new = λ i at. same at i
  where
    same : (at : ℕ) → load (load mem buf size old) buf size new at ≡ load mem buf size new at
    same at = elim (Bool-cases (leb buf at && ltb at (buf + size))) [
      | inl e ↦ rw e refl
      | inr e ↦ rw e refl
    ]

module _ (d : Drive) (law : IsDrive d) (v : Volume) (name : ℕ → ℕ) (len fuel buf : ℕ)
    (mem : ℕ → ℕ) where
  -- Memory with a cluster of the drive in the buffer.
  abbrev pub view : d.State → ℕ → ℕ → ℕ
  view s cluster =
      load mem buf (v.sector_per_cluster * 512)
        (law.bytes s (cluster_sector v cluster) v.sector_per_cluster)

  -- Every cluster of the list is linked to the next one, and the last one ends the chain.
  abbrev pub IsLinked : d.State → ℕ → List ℕ → Type 0
  IsLinked s c [] = ltb (read_fat_entry d v s c) end_of_chain ≡ false
  IsLinked s c (next ∷ cs) =
      (ltb (read_fat_entry d v s c) end_of_chain ≡ true)
      × (read_fat_entry d v s c ≡ next)
      × IsLinked s next cs

  -- The result of a search of the clusters one after the other: the first entry that the
  -- comparison accepts.
  abbrev pub Accepts : d.State → List ℕ → Option Inode → Type 0
  Accepts s [] none = Unit
  Accepts s [] (some i) = ⊥
  Accepts s (c ∷ cs) r =
      ((position : ℕ) × FirstMatch (view s c) name len fuel buf 0 (entries_per_cluster v) position
        × (r ≡ some (inode_of v (view s c) (buf + position * 32) c position)))
      ⊎ (NoMatchFrom (view s c) name len fuel buf 0 (entries_per_cluster v) × Accepts s cs r)

  -- What follows the table's entry of `c`, and what follows a cluster that is read.
  abbrev next_of : d.State → (ℕ → ℕ) → (c rounds : ℕ) → Option (Option Inode)
  next_of s m c rounds =
      elim (ltb (read_fat_entry d v s c) end_of_chain) as (λ x. Option (Option Inode)) [
        | true ↦ lookup_from d v name len fuel buf s m (read_fat_entry d v s c) rounds
        | false ↦ some none
      ]

  abbrev after_read : d.State → (ℕ → ℕ) → (c rounds : ℕ) → Option (Option Inode)
  after_read s m c rounds =
      elim (scan_entries m name len fuel buf 0 (entries_per_cluster v))
        as (λ x. Option (Option Inode)) [
          | none ↦ none
          | some (some position) ↦ some (some (inode_of v m (buf + position * 32) c position))
          | some none ↦ next_of s m c rounds
        ]

  go_on :
      (s : d.State) (c : ℕ) (cs : List ℕ) (o : Option (Option ℕ)) (rest : Option (Option Inode))
      → Scanned (view s c) name len fuel buf 0 (entries_per_cluster v) o
      → Gives (Accepts s cs) rest
      → Gives (Accepts s (c ∷ cs)) (elim o as (λ x. Option (Option Inode)) [
        | none ↦ none
        | some (some position) ↦
            some (some (inode_of v (view s c) (buf + position * 32) c position))
        | some none ↦ rest
      ])
  go_on s c cs none rest k g = absurd k
  go_on s c cs (some (some position)) rest k g = inl (position, k, refl)
  go_on s c cs (some none) none k g = absurd g
  go_on s c cs (some none) (some r) k g = inr (k, g)

  lookup_from-chain :
      (s : d.State) (now : ℕ → ℕ) (c rounds : ℕ) (cs : List ℕ)
      → ((new : ℕ → ℕ)
          → load now buf (v.sector_per_cluster * 512) new
            ≡ load mem buf (v.sector_per_cluster * 512) new)
      → IsLinked s c cs
      → len < fuel
      → length cs < rounds
      → Gives (Accepts s (c ∷ cs)) (lookup_from d v name len fuel buf s now c rounds)
  unfolding lookup_from
  lookup_from-chain s now c zero cs same chain lt enough = absurd (omega (arith, enough))
  lookup_from-chain s now c (suc rounds) cs same chain lt enough =
      rw (lookup_from, law.read s (cluster_sector v c) v.sector_per_cluster)
        (subst (λ m. Gives (Accepts s (c ∷ cs)) (after_read s m c rounds))
          (sym (same (law.bytes s (cluster_sector v c) v.sector_per_cluster)))
          (go_on s c cs (scan_entries (view s c) name len fuel buf 0 (entries_per_cluster v))
            (next_of s (view s c) c rounds)
            (scan_entries-Scanned (view s c) name len fuel buf 0 (entries_per_cluster v) lt)
            (rest
              (λ next cs' link room.
                lookup_from-chain s (view s c) next rounds cs'
                  (λ new.
                    load-load mem buf (v.sector_per_cluster * 512)
                      (law.bytes s (cluster_sector v c) v.sector_per_cluster) new)
                  link lt room)
              cs chain (omega (arith, enough)))))
    where
      rest :
          (again : (next : ℕ) (cs : List ℕ)
            → IsLinked s next cs
            → length cs < rounds
            → Gives
                (Accepts s (next ∷ cs))
                (lookup_from d v name len fuel buf s (view s c) next rounds))
          (cs : List ℕ)
          → IsLinked s c cs
          → length cs < suc rounds
          → Gives (Accepts s cs) (next_of s (view s c) c rounds)
      rest again [] link room = rw (next_of, link) tt
      rest again (next ∷ cs) link room =
          rw (next_of, link.0, link.1) (again next cs link.2 (omega (arith, room)))

  -- The search ends with the first entry of the chain that the comparison accepts, or with NULL.
  pub lookup_from-Accepts :
      (s : d.State) (c rounds : ℕ) (cs : List ℕ)
      → IsLinked s c cs
      → len < fuel
      → length cs < rounds
      → Gives (Accepts s (c ∷ cs)) (lookup_from d v name len fuel buf s mem c rounds)
  lookup_from-Accepts s c rounds cs chain lt enough =
      lookup_from-chain s mem c rounds cs (λ new. refl) chain lt enough
