-- ===== src/Fat/Lookup.antt =====
-- `FAT32_lookup` of os/kernel/fat32.c: the entries of a directory, cluster by cluster. Memory is bytes
-- by address; the buffer of one cluster is at `buf`, and what stands in front of it is read for the
-- long entries of its first entry. What `kmalloc` gives is not tested by the source and is taken to
-- be memory; the buffer is freed on every path and left out.
pub mod Chain
pub mod Named
mod Tests
use Prim.Native.Nat.{bit_and}
use kalinote_os.Base.{
  ℕ, zero, suc, ◌+◌, ◌-◌, ◌*◌, ◌/◌, ◌%◌, ◌^◌, Bool, true, false, ◌&&◌, List, [], ◌∷◌, Option, none,
  some, ltb, leb, ◌==◌, if◌then◌else◌,
}
use kalinote_os.Fat.{Volume, read_fat_entry}
use kalinote_os.Fat.Device.{Drive, word16, word32}
use kalinote_os.Fat.Name.{entry_match, is_directory, dir_attr}

-- `struct index_node` with `struct FAT32_inode_info`.
pub record Inode : Type 0 where
  pub file_size : ℕ
  pub blocks : ℕ
  pub attribute : ℕ
  pub first_cluster : ℕ
  pub dentry_location : ℕ
  pub dentry_position : ℕ
  pub create_date : ℕ
  pub create_time : ℕ
  pub write_date : ℕ
  pub write_time : ℕ

abbrev pub fs_attr_file : ℕ
fs_attr_file = 1

abbrev pub fs_attr_dir : ℕ
fs_attr_dir = 2

-- `(size + bytes_per_cluster - 1) / bytes_per_sector`
abbrev pub blocks_of : Volume → ℕ → ℕ
blocks_of v size = (size + v.bytes_per_cluster + 2 ^ 64 - 1) % 2 ^ 64 / v.bytes_per_sector

-- The node of the entry at `entry`, entry number `position` of the cluster.
unfoldable pub inode_of : Volume → (ℕ → ℕ) → (entry cluster position : ℕ) → Inode
inode_of v mem entry cluster position = record {
  file_size = word32 mem (entry + 28);
  blocks = blocks_of v (word32 mem (entry + 28));
  attribute = if is_directory mem entry then fs_attr_dir else fs_attr_file;
  first_cluster = (word16 mem (entry + 20) * 65536 + word16 mem (entry + 26)) % 2 ^ 28;
  dentry_location = cluster;
  dentry_position = position;
  create_date = word16 mem (entry + 14);
  create_time = word16 mem (entry + 16);
  write_date = word16 mem (entry + 22);
  write_time = word16 mem (entry + 24);
}

-- The loop on `i`: the number of the entry that matches, with `left` entries left.
pub scan_entries : (ℕ → ℕ) → (ℕ → ℕ) → (len fuel buf position left : ℕ) → Option (Option ℕ)
scan_entries mem name len fuel buf position zero = some none
scan_entries mem name len fuel buf position (suc left) =
    let rest = scan_entries mem name len fuel buf (position + 1) left in
    elim (entry_match mem name len fuel (buf + position * 32)) as (λ x. Option (Option ℕ)) [
      | none ↦ none
      | some found ↦ if found then some (some position) else rest
    ]

-- The first sector of a cluster.
abbrev pub cluster_sector : Volume → ℕ → ℕ
cluster_sector v cluster =
    (v.data_firstsector + (cluster + 2 ^ 32 - 2) % 2 ^ 32 * v.sector_per_cluster) % 2 ^ 64

-- Memory with the bytes of a transfer in the buffer.
abbrev pub load : (ℕ → ℕ) → (buf size : ℕ) → (ℕ → ℕ) → ℕ → ℕ
load mem buf size bytes at = if leb buf at && ltb at (buf + size) then bytes (at - buf) else mem at

-- The entries of a cluster, 32 bytes each; a last one may be cut off.
abbrev pub entries_per_cluster : Volume → ℕ
entries_per_cluster v = (v.bytes_per_cluster + 31) / 32

-- The first mark of the end of a chain.
abbrev pub end_of_chain : ℕ
end_of_chain = 0x0ffffff7

module _ (d : Drive) (v : Volume) (name : ℕ → ℕ) (len fuel buf : ℕ) where
  -- From the label `next_cluster` on, for `rounds` clusters at most: `some none` is NULL.
  pub lookup_from : d.State → (mem : ℕ → ℕ) → (cluster rounds : ℕ) → Option (Option Inode)
  lookup_from s mem cluster zero = none
  lookup_from s mem cluster (suc rounds) =
      elim (d.read s (cluster_sector v cluster) v.sector_per_cluster)
        as (λ x. Option (Option Inode)) [
          | none ↦ some none
          | some bytes ↦
              let mem' = load mem buf (v.sector_per_cluster * 512) bytes in
              elim (scan_entries mem' name len fuel buf 0 (entries_per_cluster v))
                as (λ x. Option (Option Inode)) [
                  | none ↦ none
                  | some (some position) ↦
                      some (some (inode_of v mem' (buf + position * 32) cluster position))
                  | some none ↦
                      let next = read_fat_entry d v s cluster in
                      elim (ltb next end_of_chain) as (λ x. Option (Option Inode)) [
                        | true ↦ lookup_from s mem' next rounds
                        | false ↦ some none
                      ]
                ]
        ]

  pub lookup : d.State → (mem : ℕ → ℕ) → (rounds : ℕ) → Inode → Option (Option Inode)
  lookup s mem rounds parent = lookup_from s mem (parent.first_cluster % 2 ^ 32) rounds
