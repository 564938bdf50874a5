-- ===== src/Fat/Superblock.antt =====
-- `fat32_read_superblock` of os/kernel/fat32.c and what `DISK1_FAT32_FS_init` reads from the drive for
-- it: the volume by the fields of the boot sector, the FSInfo sector, and the node of the root.
use native.Mathlib.Nat.{mul-le-mul_left}
use kalinote_os.Base.{
  ℕ, zero, suc, ◌+◌, ◌*◌, ◌/◌, ◌%◌, ◌^◌, ◌≤◌, ◌<◌, ◌≡◌, ◌⊎◌, false, ◌&&◌, arith, refl, ◌∙◌, ltb,
  leb,
}
use kalinote_os.Fat.{Volume, copy_sector, entry_sector, write_copies, write_fat_entry}
use kalinote_os.Fat.Device.{Drive, IsDrive, read_or_zero, word16, word32, set_word32}
use kalinote_os.Fat.Table.{IsVolume, row-lt}
use kalinote_os.Fat.Lookup.{Inode, blocks_of, fs_attr_dir}

-- `struct Disk_Partition_Table_Entry`, what is used of it.
pub record Partition : Type 0 where
  pub start_lba : ℕ
  pub sectors_limit : ℕ

-- The fields of `struct FAT32_BootSector`. Sums of them are `unsigned int`.
unfoldable pub volume_of : Partition → (boot : ℕ → ℕ) → Volume
volume_of p boot = record {
  start_sector = p.start_lba;
  sector_count = p.sectors_limit;
  sector_per_cluster = boot 13;
  bytes_per_cluster = boot 13 * word16 boot 11;
  bytes_per_sector = word16 boot 11;
  data_firstsector = (p.start_lba + word16 boot 14 + word32 boot 36 * boot 16) % 2 ^ 32;
  fat1_firstsector = (p.start_lba + word16 boot 14) % 2 ^ 32;
  sector_per_fat = word32 boot 36;
  num_fats = boot 16;
  fsinfo_sector_infat = word16 boot 48;
  bootsector_bk_infat = word16 boot 50;
}

-- The root directory's node.
pub root_node : Volume → (boot : ℕ → ℕ) → Inode
root_node v boot = record {
  file_size = 0;
  blocks = blocks_of v 0;
  attribute = fs_attr_dir;
  first_cluster = word32 boot 44;
  dentry_location = 0;
  dentry_position = 0;
  create_date = 0;
  create_time = 0;
  write_date = 0;
  write_time = 0;
}

-- What hangs on `struct super_block`: `private_sb_info`, its `fat_fsinfo`, and `root->dir_inode`.
pub record Superblock : Type 0 where
  pub volume : Volume
  pub fsinfo : ℕ → ℕ
  pub root : Inode

unfoldable pub read_superblock : (d : Drive) → Partition → (boot : ℕ → ℕ) → d.State → Superblock
read_superblock d p boot s = record {
  volume = volume_of p boot;
  fsinfo = read_or_zero d s ((p.start_lba + word16 boot 48) % 2 ^ 32) 1;
  root = root_node (volume_of p boot) boot;
}

-- The first entry of `struct Disk_Partition_Table`.
pub first_partition : (sector : ℕ → ℕ) → Partition
first_partition sector = record { start_lba = word32 sector 454; sectors_limit = word32 sector 458 }

-- The two reads of `DISK1_FAT32_FS_init` and the mount.
pub mount_first : (d : Drive) → d.State → Superblock
mount_first d s =
    let p = first_partition (read_or_zero d s 0 1) in
    read_superblock d p (read_or_zero d s p.start_lba 1) s

-- The bytes of a boot sector.
abbrev pub AllBytes : (ℕ → ℕ) → Type 0
AllBytes b = (at : ℕ) → b at < 256

word16-small : (b : ℕ → ℕ) (at : ℕ) → AllBytes b → word16 b at < 65536
word16-small b at small = omega (arith, small at, small (at + 1))

word32-small : (b : ℕ → ℕ) (at : ℕ) → AllBytes b → word32 b at < 2 ^ 32
word32-small b at small =
    omega (arith, small at, small (at + 1), small (at + 2), small (at + 2 + 1))

-- Sector numbers of a volume's tables do not wrap, since they are sums of `unsigned int`.
volume_of-IsVolume :
    (p : Partition) (boot : ℕ → ℕ) → AllBytes boot → 0 < boot 16 → IsVolume (volume_of p boot)
unfolding volume_of
volume_of-IsVolume p boot small some_table =
    let size = word32-small boot 36 small in
    let count = small 16 in
    let all : word32 boot 36 * boot 16 ≤ word32 boot 36 * 256 =
      mul-le-mul_left (word32 boot 36) (omega (arith, count)) in
    record {
      some_table = some_table;
      fits =
          bound ((p.start_lba + word16 boot 14) % 2 ^ 32) (word32 boot 36)
            (word32 boot 36 * boot 16) (omega arith) size all;
    }
  where
    bound : (a b c : ℕ) → a < 2 ^ 32 → b < 2 ^ 32 → c ≤ b * 256 → a + c + b < 2 ^ 64
    bound a b c ha hb hc = omega (arith, ha, hb, hc)

module _ (d : Drive) (law : IsDrive d) (v : Volume) (volume : IsVolume v) where
  -- The loop on the tables writes no sector outside of them.
  write_copies-outside :
      (entry : ℕ) (buf : ℕ → ℕ) (i left q at : ℕ) (s : d.State)
      → entry < v.sector_per_fat * 128
      → i + left ≤ v.num_fats
      → (q < v.fat1_firstsector) ⊎ (v.fat1_firstsector + v.sector_per_fat * v.num_fats ≤ q)
      → at < 512
      → law.byte (write_copies d v entry buf i left s) q at ≡ law.byte s q at
  unfolding write_copies
  write_copies-outside entry buf i zero q at s he room out ha = refl
  write_copies-outside entry buf i (suc left) q at s he room out ha =
      let inside =
        row-lt v.sector_per_fat i v.num_fats (entry / 128) (omega (arith, room))
          (omega (arith, he)) in
      let place : copy_sector v i entry ≡ v.fat1_firstsector + v.sector_per_fat * i + entry / 128 =
        omega (arith, inside, volume.fits) in
      let no : (leb (copy_sector v i entry) q && ltb q (copy_sector v i entry + 1)) ≡ false =
        elsewhere (copy_sector v i entry) (v.sector_per_fat * i) (v.sector_per_fat * v.num_fats)
          (entry / 128) q inside place out in
      write_copies-outside entry buf (i + 1) left q at (d.write s (copy_sector v i entry) 1 buf) he
        (omega (arith, room)) out ha
      ∙ law.byte-write s (copy_sector v i entry) 1 buf q at ha
      ∙ rw no refl
    where
      elsewhere :
          (sector a total b q : ℕ)
          → a + b < total
          → sector ≡ v.fat1_firstsector + a + b
          → (q < v.fat1_firstsector) ⊎ (v.fat1_firstsector + total ≤ q)
          → (leb sector q && ltb q (sector + 1)) ≡ false
      elsewhere sector a total b q h e out = ground (arith, h, e, out)

  write_fat_entry-outside :
      (s : d.State) (entry value q at : ℕ)
      → entry < v.sector_per_fat * 128
      → (q < v.fat1_firstsector) ⊎ (v.fat1_firstsector + v.sector_per_fat * v.num_fats ≤ q)
      → at < 512
      → law.byte (write_fat_entry d v entry value s) q at ≡ law.byte s q at
  unfolding write_fat_entry
  write_fat_entry-outside s entry value q at he out ha =
      let buf = read_or_zero d s (entry_sector v entry) 1 in
      let word = word32 buf (entry % 128 * 4) / 2 ^ 28 * 2 ^ 28 + value % 2 ^ 28 in
      write_copies-outside entry (set_word32 buf (entry % 128 * 4) word) 0 v.num_fats q at s he
        (omega arith) out ha

-- For a boot sector with at least one table, and a start of the data below 2^32, the volume that
-- `fat32_read_superblock` builds has its tables where sector numbers do not wrap, and
-- `DISK1_FAT32_write_FAT_Entry` of an entry of the tables leaves every byte as it was of the sectors
-- in front of the first table (the boot sector and FSInfo) and from the first sector of the data on.
pub read_superblock-layout :
    (d : Drive) (law : IsDrive d) (p : Partition) (boot : ℕ → ℕ) (s : d.State)
    (entry value q at : ℕ)
    → AllBytes boot
    → 0 < boot 16
    → p.start_lba + word16 boot 14 + word32 boot 36 * boot 16 < 2 ^ 32
    → entry < word32 boot 36 * 128
    → (q < (read_superblock d p boot s).volume.fat1_firstsector)
      ⊎ ((read_superblock d p boot s).volume.data_firstsector ≤ q)
    → at < 512
    → IsVolume (read_superblock d p boot s).volume
      × (law.byte (write_fat_entry d (read_superblock d p boot s).volume entry value s) q at
          ≡ law.byte s q at)
unfolding read_superblock volume_of
read_superblock-layout d law p boot s entry value q at small some_table fits he out ha =
    let v = volume_of p boot in
    let volume = volume_of-IsVolume p boot small some_table in
    (
      volume,
      write_fat_entry-outside d law v volume s entry value q at he
          (ranges p.start_lba (word16 boot 14) (word32 boot 36 * boot 16) fits out) ha,
    )
  where
    ranges :
        (start reserved total : ℕ)
        → start + reserved + total < 2 ^ 32
        → (q < (start + reserved) % 2 ^ 32) ⊎ ((start + reserved + total) % 2 ^ 32 ≤ q)
        → (q < (start + reserved) % 2 ^ 32) ⊎ ((start + reserved) % 2 ^ 32 + total ≤ q)
    ranges start reserved total h out = omega (arith, h, out)
