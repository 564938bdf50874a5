-- ===== src/Fat/Lookup/Named.antt =====
-- `FAT32_lookup` of os/kernel/fat32.c in a directory of plain short names: which node it gives.
use mathlib.Core.Path.{subst}
use kalinote_os.Base.{
  ℕ, ◌+◌, ◌-◌, ◌*◌, ◌/◌, ◌%◌, ◌^◌, ◌≤◌, ◌<◌, ◌≡◌, ◌≢◌, ◌⊎◌, inl, inr, false, ◌&&◌, List, [], ◌∷◌,
  Option, none, some, arith, refl, ap, ◌∙◌, ltb, leb, if◌then◌else◌, Gives, length,
}
use kalinote_os.Fat.{Volume, read_fat_entry}
use kalinote_os.Fat.Device.{Drive, IsDrive, word16, word32}
use kalinote_os.Fat.Name.{entry_match}
use kalinote_os.Fat.Name.Plain.{IsPlain, IsUnused, IsNamed, Decides}
use kalinote_os.Fat.Name.Named.{entry_match-IsNamed, entry_match-IsUnused}
use kalinote_os.Fat.Lookup.{Inode, inode_of, cluster_sector, load, entries_per_cluster, lookup_from}
use kalinote_os.Fat.Lookup.Chain.{
  NoMatchFrom, FirstMatch, view, IsLinked, Accepts, lookup_from-Accepts,
}

-- The node of the file whose entry is at `e`, entry number `position` of the cluster. The blocks are
-- rounded up and the dates and times stand in the fields as the source has it.
pub record IsNode (v : Volume) (mem : ℕ → ℕ) (e cluster position : ℕ) (i : Inode) : Type 0 where
  pub file_size : i.file_size ≡ word32 mem (e + 28)
  pub blocks :
      i.blocks
      ≡ (word32 mem (e + 28) + v.bytes_per_cluster + 2 ^ 64 - 1) % 2 ^ 64 / v.bytes_per_sector
  pub attribute : i.attribute ≡ 1
  pub first_cluster :
      i.first_cluster ≡ (word16 mem (e + 20) * 65536 + word16 mem (e + 26)) % 0x10000000
  pub dentry_location : i.dentry_location ≡ cluster
  pub dentry_position : i.dentry_position ≡ position
  pub create_date : i.create_date ≡ word16 mem (e + 14)
  pub create_time : i.create_time ≡ word16 mem (e + 16)
  pub write_date : i.write_date ≡ word16 mem (e + 22)
  pub write_time : i.write_time ≡ word16 mem (e + 24)

inode_of-IsNode :
    (v : Volume) (mem : ℕ → ℕ) (e cluster position n : ℕ)
    → IsPlain mem e n
    → IsNode v mem e cluster position (inode_of v mem e cluster position)
unfolding inode_of
inode_of-IsNode v mem e cluster position n plain = record {
  file_size = refl;
  blocks = refl;
  attribute = ground (arith, plain.file);
  first_cluster = refl;
  dentry_location = refl;
  dentry_position = refl;
  create_date = refl;
  create_time = refl;
  write_date = refl;
  write_time = refl;
}

module _ (d : Drive) (law : IsDrive d) (v : Volume) (name : ℕ → ℕ) (len fuel buf : ℕ)
    (mem : ℕ → ℕ) where
  -- Memory with the cluster `c` of the drive in the buffer; the first data cluster is number 2.
  abbrev pub seen : d.State → ℕ → ℕ → ℕ
  seen s c at =
      if leb buf at && ltb at (buf + v.sector_per_cluster * 512)
      then law.bytes s (v.data_firstsector + (c - 2) * v.sector_per_cluster) v.sector_per_cluster
          (at - buf)
      else mem at

  -- A data cluster in which each of the 16 entries of a sector is unused or that of a plain file.
  pub record IsPlainCluster (s : d.State) (c : ℕ) : Type 0 where
    pub behind : 2 ≤ c
    pub small : c < 2 ^ 32
    pub on_disk : v.data_firstsector + (c - 2) * v.sector_per_cluster < 2 ^ 64
    pub entries :
        (p : ℕ)
        → p < v.sector_per_cluster * 16
        → IsUnused (seen s c) (buf + p * 32) ⊎ ((n : ℕ) × IsPlain (seen s c) (buf + p * 32) n)

  -- Every cluster of the list is linked to the next one, and the last one ends the chain.
  abbrev pub IsChain : d.State → ℕ → List ℕ → Type 0
  IsChain s c [] = IsPlainCluster s c × (0x0ffffff7 ≤ read_fat_entry d v s c)
  IsChain s c (next ∷ cs) =
      IsPlainCluster s c × (read_fat_entry d v s c ≡ next) × (next < 0x0ffffff7) × IsChain s next cs

  -- The name is that of entry `p` of the cluster.
  abbrev pub NamedAt : d.State → (c p : ℕ) → Type 0
  NamedAt s c p = IsNamed (seen s c) name len (buf + p * 32)

  -- The node of the first entry with the name, in the order of the clusters.
  abbrev pub Finds : d.State → List ℕ → Option Inode → Type 0
  Finds s [] none = Unit
  Finds s [] (some i) = ⊥
  Finds s (c ∷ cs) r =
      ((p : ℕ) × (i : Inode) × (p < v.sector_per_cluster * 16)
        × NamedAt s c p
        × ((q : ℕ) → q < p → NamedAt s c q → ⊥)
        × IsNode v (seen s c) (buf + p * 32) c p i
        × (r ≡ some i))
      ⊎ (((q : ℕ) → q < v.sector_per_cluster * 16 → NamedAt s c q → ⊥) × Finds s cs r)

  module _ (s : d.State) (whole : v.bytes_per_cluster ≡ v.sector_per_cluster * 512)
      (no_space : (i : ℕ) → name i ≢ 32) (enough : len < fuel) where
    view-seen : (c : ℕ) → IsPlainCluster s c → view d law v name len fuel buf mem s c ≡ seen s c
    view-seen c k =
        ap
          (λ sector.
            load mem buf (v.sector_per_cluster * 512) (law.bytes s sector v.sector_per_cluster))
          sector
      where
        number : (c + 2 ^ 32 - 2) % 2 ^ 32 ≡ c - 2
        number = omega (arith, k.behind, k.small)

        sector : cluster_sector v c ≡ v.data_firstsector + (c - 2) * v.sector_per_cluster
        sector =
            ap (λ n. (v.data_firstsector + n * v.sector_per_cluster) % 2 ^ 64) number
            ∙ omega (arith, k.on_disk)

    decided :
        (c p : ℕ)
        → IsPlainCluster s c
        → p < v.sector_per_cluster * 16
        → Gives (Decides (NamedAt s c p)) (entry_match (seen s c) name len fuel (buf + p * 32))
    decided c p k lt = elim (k.entries p lt) [
      | inl u ↦ entry_match-IsUnused (seen s c) name len fuel (buf + p * 32) u
      | inr (n, plain) ↦
          entry_match-IsNamed (seen s c) name len (buf + p * 32) n plain fuel no_space
            (omega (arith, enough))
    ]

    refused :
        (c p : ℕ)
        → IsPlainCluster s c
        → p < v.sector_per_cluster * 16
        → entry_match (seen s c) name len fuel (buf + p * 32) ≡ some false
        → NamedAt s c p
        → ⊥
    refused c p k lt e = subst (Gives (Decides (NamedAt s c p))) e (decided c p k lt)

    Accepts-Finds :
        (c : ℕ) (cs : List ℕ) (r : Option Inode)
        → IsPlainCluster s c
        → (Accepts d law v name len fuel buf mem s cs r → Finds s cs r)
        → Accepts d law v name len fuel buf mem s (c ∷ cs) r
        → Finds s (c ∷ cs) r
    Accepts-Finds c cs r k rest a = here (
        subst
          (λ m.
            ((position : ℕ) × FirstMatch m name len fuel buf 0 (entries_per_cluster v) position
              × (r ≡ some (inode_of v m (buf + position * 32) c position)))
            ⊎ (NoMatchFrom m name len fuel buf 0 (entries_per_cluster v)
                × Accepts d law v name len fuel buf mem s cs r))
          (view-seen c k) a)
      where
        entries : entries_per_cluster v ≡ v.sector_per_cluster * 16
        entries = omega (arith, whole)

        here :
            ((position : ℕ) × FirstMatch
                  (seen s c)
                  name
                  len
                  fuel
                  buf
                  0
                  (entries_per_cluster v)
                  position
                × (r ≡ some (inode_of v (seen s c) (buf + position * 32) c position)))
              ⊎ (NoMatchFrom (seen s c) name len fuel buf 0 (entries_per_cluster v)
                  × Accepts d law v name len fuel buf mem s cs r)
            → Finds s (c ∷ cs) r
        here (inl (p, (from, to, match, first), e)) =
            let lt : p < v.sector_per_cluster * 16 = omega (arith, to, entries) in
            let named : NamedAt s c p =
              subst (Gives (Decides (NamedAt s c p))) match (decided c p k lt) in
            let (n, plain, begins) = named in
            inl (
              p,
              inode_of v (seen s c) (buf + p * 32) c p,
              lt,
              named,
              λ q l. refused c q k (omega (arith, l, lt)) (first q (omega arith) l),
              inode_of-IsNode v (seen s c) (buf + p * 32) c p n plain,
              e,
            )
        here (inr (no_match, b)) =
            inr (
              λ q l. refused c q k l (no_match q (omega arith) (omega (arith, l, entries))),
              rest b,
            )

    chain_plain :
        (c : ℕ) (cs : List ℕ) (r : Option Inode)
        → IsChain s c cs
        → Accepts d law v name len fuel buf mem s (c ∷ cs) r
        → Finds s (c ∷ cs) r
    chain_plain c [] r (k, end) a = Accepts-Finds c [] r k (nothing r) a
      where
        nothing : (r : Option Inode) → Accepts d law v name len fuel buf mem s [] r → Finds s [] r
        nothing none b = tt
        nothing (some i) b = b
    chain_plain c (next ∷ cs) r (k, link, more, chain) a =
        Accepts-Finds c (next ∷ cs) r k (chain_plain next cs r chain) a

    linked : (c : ℕ) (cs : List ℕ) → IsChain s c cs → IsLinked d law v name len fuel buf mem s c cs
    linked c [] (k, end) = ground (arith, end)
    linked c (next ∷ cs) (k, link, more, chain) =
        (ground (arith, link, more), link, linked next cs chain)

    Gives-Finds :
        (c : ℕ) (cs : List ℕ) (o : Option (Option Inode))
        → IsChain s c cs
        → Gives (Accepts d law v name len fuel buf mem s (c ∷ cs)) o
        → Gives (Finds s (c ∷ cs)) o
    Gives-Finds c cs none chain g = g
    Gives-Finds c cs (some r) chain g = chain_plain c cs r chain g

  -- On a drive whose reads succeed, with clusters of whole sectors of 512 bytes, for a name without a
  -- space and a directory whose chain of data clusters is `c` and then `cs`, each of whose entries is
  -- unused or that of a file with a plain short name (1 to 7 capital letters or digits, and 3 in the
  -- extension, with no long entry in front); with more fuel than the name has characters and more
  -- rounds than `cs` has clusters: `FAT32_lookup` comes to an end; it gives the node of the first
  -- file, in the order of the chain, whose base, dot and extension the name begins with, and NULL if
  -- there is none.
  pub lookup_from-Finds :
      (s : d.State) (c rounds : ℕ) (cs : List ℕ)
      → v.bytes_per_cluster ≡ v.sector_per_cluster * 512
      → ((i : ℕ) → name i ≢ 32)
      → IsChain s c cs
      → len < fuel
      → length cs < rounds
      → Gives (Finds s (c ∷ cs)) (lookup_from d v name len fuel buf s mem c rounds)
  lookup_from-Finds s c rounds cs whole no_space chain lt enough =
      Gives-Finds s whole no_space lt c cs (lookup_from d v name len fuel buf s mem c rounds) chain
        (lookup_from-Accepts d law v name len fuel buf mem s c rounds cs
          (linked s whole no_space lt c cs chain) lt enough)
