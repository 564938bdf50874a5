-- ===== src/Fat/Entry/Back.antt =====
-- `fat32_write_inode` of os/kernel/fat32.c on a drive: the entries of the cluster and all other sectors.
use Prim.Native.Nat.{bit_and}
use mathlib.Core.Path.{subst}
use kalinote_os.Base.{
  ℕ, ◌+◌, ◌-◌, ◌*◌, ◌/◌, ◌%◌, ◌^◌, ◌≤◌, ◌<◌, ◌≡◌, ◌≢◌, ◌⊎◌, inl, inr, true, false, ◌&&◌, not, arith,
  refl, ap, ◌∙◌, ltb, leb, ◌==◌, if◌then◌else◌, Bool-cases,
}
use kalinote_os.Fat.{Volume}
use kalinote_os.Fat.Device.{Drive, IsDrive, read_or_zero, word16, word32}
use kalinote_os.Fat.Lookup.{Inode, inode_of, blocks_of, cluster_sector, fs_attr_dir, fs_attr_file}
use kalinote_os.Fat.Name.{attr_directory}
use kalinote_os.Fat.Entry.{
  set_entry, dentry_sector, write_inode, IsOther, set_entry-other, set_entry-size,
  set_entry-cluster,
}

-- A node with another size and first cluster.
abbrev pub with_values : Volume → (was : Inode) → (size first : ℕ) → Inode
with_values v was size first = record {
  file_size = size;
  blocks = blocks_of v size;
  attribute = was.attribute;
  first_cluster = first;
  dentry_location = was.dentry_location;
  dentry_position = was.dentry_position;
  create_date = was.create_date;
  create_time = was.create_time;
  write_date = was.write_date;
  write_time = was.write_time;
}

abbrev pub updated : Volume → (was node : Inode) → Inode
updated v was node = with_values v was node.file_size node.first_cluster

module _ (d : Drive) (law : IsDrive d) (v : Volume) where
  -- The bytes of a cluster.
  abbrev pub held : d.State → ℕ → ℕ → ℕ
  held s cluster = law.bytes s (cluster_sector v cluster) v.sector_per_cluster

  -- A node with an entry in a cluster.
  abbrev pub HasEntry : Inode → Type 0
  HasEntry node =
      (2 ≤ node.dentry_location)
      × (node.dentry_location < 2 ^ 32)
      × (node.dentry_position * 32 + 32 ≤ v.sector_per_cluster * 512)

  held-byte :
      (s : d.State) (c at : ℕ)
      → at < v.sector_per_cluster * 512
      → held s c at ≡ law.byte s (cluster_sector v c + at / 512) (at % 512)
  held-byte s c at h =
      ap (held s c) (omega arith)
      ∙ law.bytes-byte s (cluster_sector v c) v.sector_per_cluster (at / 512) (at % 512)
          (omega (arith, h)) (omega arith)

  held-small : (s : d.State) (c at : ℕ) → at < v.sector_per_cluster * 512 → held s c at < 256
  held-small s c at h =
      omega (arith, held-byte s c at h, law.small s (cluster_sector v c + at / 512) (at % 512))

  same_sector :
      (node : Inode) → HasEntry node → dentry_sector v node ≡ cluster_sector v node.dentry_location
  same_sector node h =
      ap (λ z. (v.data_firstsector + z * v.sector_per_cluster) % 2 ^ 64) (omega (arith, h.0, h.1))

  -- A byte of the drive.
  write_inode-byte :
      (s : d.State) (node : Inode) (q at : ℕ)
      → HasEntry node
      → at < 512
      → law.byte (write_inode d v node s) q at ≡ (
          if leb (cluster_sector v node.dentry_location) q
            && ltb q (cluster_sector v node.dentry_location + v.sector_per_cluster)
          then set_entry
              (held s node.dentry_location)
              (node.dentry_position * 32)
              node
              ((q - cluster_sector v node.dentry_location) * 512 + at)
            % 256
          else law.byte s q at)
  unfolding write_inode
  write_inode-byte s node q at h lt =
      let not_root : (node.dentry_location == 0) ≡ false = ground (arith, h.0) in
      rw
        (
          write_inode,
          not_root,
          same_sector node h,
          read_or_zero,
          law.read s (cluster_sector v node.dentry_location) v.sector_per_cluster,
        )
        (law.byte-write s (cluster_sector v node.dentry_location) v.sector_per_cluster
          (set_entry (held s node.dentry_location) (node.dentry_position * 32) node) q at lt)

  write_inode-held :
      (s : d.State) (node : Inode) (at : ℕ)
      → HasEntry node
      → at < v.sector_per_cluster * 512
      → held (write_inode d v node s) node.dentry_location at
        ≡ set_entry (held s node.dentry_location) (node.dentry_position * 32) node at % 256
  write_inode-held s node at h lt =
      let c = cluster_sector v node.dentry_location in
      let inside : (leb c (c + at / 512) && ltb (c + at / 512) (c + v.sector_per_cluster)) ≡ true =
        ground (arith, lt) in
      let start : (c + at / 512 - c) * 512 + at % 512 ≡ at = omega arith in
      held-byte (write_inode d v node s) node.dentry_location at lt
      ∙ write_inode-byte s node (c + at / 512) (at % 512) h (omega arith)
      ∙ rw (inside, start) refl

  -- What a byte outside the two fields is.
  kept :
      (s : d.State) (node : Inode) (at : ℕ)
      → HasEntry node
      → at < v.sector_per_cluster * 512
      → IsOther (node.dentry_position * 32) at
      → held (write_inode d v node s) node.dentry_location at ≡ held s node.dentry_location at
  kept s node at h lt other = omega (
    arith,
    write_inode-held s node at h lt,
    set_entry-other (held s node.dentry_location) (node.dentry_position * 32) at node other,
    held-small s node.dentry_location at lt,
  )

  word16-kept :
      (s : d.State) (node : Inode) (at : ℕ)
      → HasEntry node
      → at + 2 ≤ v.sector_per_cluster * 512
      → IsOther (node.dentry_position * 32) at
      → IsOther (node.dentry_position * 32) (at + 1)
      → word16 (held (write_inode d v node s) node.dentry_location) at
        ≡ word16 (held s node.dentry_location) at
  word16-kept s node at h lt one two = omega (
    arith,
    kept s node at h (omega (arith, lt)) one,
    kept s node (at + 1) h (omega (arith, lt)) two,
  )

  -- A node by what its entry holds.
  inode_of-eq :
      (m was : ℕ → ℕ) (entry cluster position : ℕ) (size first : ℕ)
      → word32 m (entry + 28) ≡ size
      → (word16 m (entry + 20) * 65536 + word16 m (entry + 26)) % 2 ^ 28 ≡ first
      → m (entry + 11) ≡ was (entry + 11)
      → word16 m (entry + 14) ≡ word16 was (entry + 14)
      → word16 m (entry + 16) ≡ word16 was (entry + 16)
      → word16 m (entry + 22) ≡ word16 was (entry + 22)
      → word16 m (entry + 24) ≡ word16 was (entry + 24)
      → inode_of v m entry cluster position
        ≡ with_values v (inode_of v was entry cluster position) size first
  unfolding inode_of
  inode_of-eq m was entry cluster position size first e28 e20 e11 e14 e16 e22 e24 = λ i. record {
    file_size = e28 i;
    blocks = blocks_of v (e28 i);
    attribute = if not (bit_and (e11 i) attr_directory == 0) then fs_attr_dir else fs_attr_file;
    first_cluster = e20 i;
    dentry_location = cluster;
    dentry_position = position;
    create_date = e14 i;
    create_time = e16 i;
    write_date = e22 i;
    write_time = e24 i;
  }

  entry_updated :
      (s : d.State) (node : Inode)
      → HasEntry node
      → node.file_size < 2 ^ 32
      → node.first_cluster < 2 ^ 28
      → inode_of v
          (held (write_inode d v node s) node.dentry_location)
          (node.dentry_position * 32)
          node.dentry_location
          node.dentry_position
        ≡ updated v
            (inode_of v
              (held s node.dentry_location)
              (node.dentry_position * 32)
              node.dentry_location
              node.dentry_position)
            node
  unfolding inode_of
  entry_updated s node h size first =
      let e = node.dentry_position * 32 in
      let old = held s node.dentry_location in
      let now = held (write_inode d v node s) node.dentry_location in
      let new = set_entry old e node in
      let written : (q : ℕ) → q < e + 32 → now q ≡ new q % 256 =
        λ q l. write_inode-held s node q h (omega (arith, l, h.2)) in
      let word : (at : ℕ) → at + 2 ≤ e + 32 → word16 now at ≡ word16 (λ q. new q % 256) at =
        λ at l. omega (arith, written at (omega (arith, l)), written (at + 1) (omega (arith, l))) in
      inode_of-eq now old e node.dentry_location node.dentry_position node.file_size
        node.first_cluster
        (omega (
          arith,
          word (e + 28) (omega arith),
          word (e + 28 + 2) (omega arith),
          set_entry-size old e node size,
        ))
        (omega (
          arith,
          word (e + 20) (omega arith),
          word (e + 26) (omega arith),
          set_entry-cluster old e node
              (λ at l. held-small s node.dentry_location at (omega (arith, l, h.2))) first,
        ))
        (kept s node (e + 11) h (omega (arith, h.2)) (omega arith))
        (word16-kept s node (e + 14) h (omega (arith, h.2)) (omega arith) (omega arith))
        (word16-kept s node (e + 16) h (omega (arith, h.2)) (omega arith) (omega arith))
        (word16-kept s node (e + 22) h (omega (arith, h.2)) (omega arith) (omega arith))
        (word16-kept s node (e + 24) h (omega (arith, h.2)) (omega arith) (omega arith))

  entry_kept :
      (s : d.State) (node : Inode) (other : ℕ)
      → HasEntry node
      → other * 32 + 32 ≤ v.sector_per_cluster * 512
      → node.dentry_position ≢ other
      → inode_of v
          (held (write_inode d v node s) node.dentry_location)
          (other * 32)
          node.dentry_location
          other
        ≡ inode_of v (held s node.dentry_location) (other * 32) node.dentry_location other
  unfolding inode_of
  entry_kept s node other h room apart =
      let e = other * 32 in
      let old = held s node.dentry_location in
      let now = held (write_inode d v node s) node.dentry_location in
      let same : (q : ℕ) → e ≤ q → q < e + 32 → now q ≡ old q =
        λ q a b. kept s node q h (omega (arith, b, room)) (omega (arith, a, b, apart)) in
      let word : (at : ℕ) → e ≤ at → at + 2 ≤ e + 32 → word16 now at ≡ word16 old at = λ at a b.
        omega (
          arith,
          same at (omega (arith, a)) (omega (arith, b)),
          same (at + 1) (omega (arith, a)) (omega (arith, b)),
        ) in
      inode_of-eq now old e node.dentry_location other (word32 old (e + 28))
        ((word16 old (e + 20) * 65536 + word16 old (e + 26)) % 2 ^ 28)
        (omega (
          arith,
          word (e + 28) (omega arith) (omega arith),
          word (e + 28 + 2) (omega arith) (omega arith),
        ))
        (omega (
          arith,
          word (e + 20) (omega arith) (omega arith),
          word (e + 26) (omega arith) (omega arith),
        ))
        (same (e + 11) (omega arith) (omega arith)) (word (e + 14) (omega arith) (omega arith))
        (word (e + 16) (omega arith) (omega arith)) (word (e + 22) (omega arith) (omega arith))
        (word (e + 24) (omega arith) (omega arith))

  -- On a drive, for a node with an entry in a cluster, a size of 32 bits and a first cluster of 28:
  -- after `fat32_write_inode` the node of its entry is the old one with the new size, blocks and
  -- first cluster, and the node of every other entry of the cluster is as it was; every byte of the
  -- cluster stays, but those of the first cluster and the size in the entry (20, 21 and 26 to 31),
  -- and so does every byte of a sector outside the cluster.
  pub write_inode-inode_of :
      (s : d.State) (node : Inode) (other q at place : ℕ)
      → HasEntry node
      → node.file_size < 2 ^ 32
      → node.first_cluster < 2 ^ 28
      → other * 32 + 32 ≤ v.sector_per_cluster * 512
      → (q < cluster_sector v node.dentry_location)
        ⊎ (cluster_sector v node.dentry_location + v.sector_per_cluster ≤ q)
      → at < 512
      → place < v.sector_per_cluster * 512
      → IsOther (node.dentry_position * 32) place
      → (inode_of v
            (held (write_inode d v node s) node.dentry_location)
            (other * 32)
            node.dentry_location
            other
          ≡ (if node.dentry_position == other
              then updated v
                  (inode_of v (held s node.dentry_location) (other * 32) node.dentry_location other)
                  node
              else inode_of v
                  (held s node.dentry_location)
                  (other * 32)
                  node.dentry_location
                  other))
        × (law.byte (write_inode d v node s) q at ≡ law.byte s q at)
        × (held (write_inode d v node s) node.dentry_location place
            ≡ held s node.dentry_location place)
  write_inode-inode_of s node other q at place h size first room outside la lp unlike = (
    elim (Bool-cases (node.dentry_position == other)) [
      | inl e ↦
          let same : node.dentry_position ≡ other = ground (arith, e) in
          rw e (
            subst
              (λ z.
                inode_of v (held (write_inode d v node s) node.dentry_location) (z * 32)
                  node.dentry_location z
                ≡ updated v
                    (inode_of v (held s node.dentry_location) (z * 32) node.dentry_location z) node)
              same (entry_updated s node h size first))
      | inr e ↦ rw e (entry_kept s node other h room (λ c. ground (arith, e, c)))
    ],
    beyond,
    kept s node place h lp unlike,
  )
    where
      beyond : law.byte (write_inode d v node s) q at ≡ law.byte s q at
      beyond =
          let no : (leb (cluster_sector v node.dentry_location) q
                && ltb q (cluster_sector v node.dentry_location + v.sector_per_cluster))
              ≡ false =
            ground (arith, outside) in
          write_inode-byte s node q at h la ∙ rw no refl
