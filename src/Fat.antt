-- ===== src/Fat.antt =====
-- FAT32 in os/kernel/fat32.c and os/include/fat32.h: the fields of `struct FAT32_sb_info` and the
-- entries of the tables. Directories are in the modules below.
pub mod Device
pub mod Table
pub mod Name
pub mod Lookup
pub mod Entry
pub mod Superblock
pub mod Path
pub mod Tests
use kalinote_os.Base.{
  ℕ, zero, suc, ◌+◌, ◌-◌, ◌*◌, ◌/◌, ◌%◌, ◌^◌, Option, none, some, ◌==◌, if◌then◌else◌,
}
use kalinote_os.Fat.Device.{Drive, read_or_zero, word32, set_word32}

pub record Volume : Type 0 where
  pub start_sector : ℕ
  pub sector_count : ℕ
  pub sector_per_cluster : ℕ
  pub bytes_per_cluster : ℕ
  pub bytes_per_sector : ℕ
  pub data_firstsector : ℕ
  pub fat1_firstsector : ℕ
  pub sector_per_fat : ℕ
  pub num_fats : ℕ
  pub fsinfo_sector_infat : ℕ
  pub bootsector_bk_infat : ℕ

-- The sector of an entry in the first table.
abbrev pub entry_sector : Volume → ℕ → ℕ
entry_sector v entry = (v.fat1_firstsector + entry / 128) % 2 ^ 64

-- The same sector of the table `i`.
abbrev pub copy_sector : Volume → ℕ → ℕ → ℕ
copy_sector v i entry = (v.fat1_firstsector + v.sector_per_fat * i + entry / 128) % 2 ^ 64

module _ (d : Drive) where
  pub read_fat_entry : Volume → d.State → ℕ → ℕ
  read_fat_entry v s entry =
      word32 (read_or_zero d s (entry_sector v entry) 1) (entry % 128 * 4) % 2 ^ 28

  -- The loop on `i`, with `left` tables left.
  pub write_copies : Volume → ℕ → (ℕ → ℕ) → ℕ → ℕ → d.State → d.State
  write_copies v entry buf i zero s = s
  write_copies v entry buf i (suc left) s =
      write_copies v entry buf (i + 1) left (d.write s (copy_sector v i entry) 1 buf)

  -- The four highest bits of an entry stay.
  pub write_fat_entry : Volume → ℕ → ℕ → d.State → d.State
  write_fat_entry v entry value s =
      let buf = read_or_zero d s (entry_sector v entry) 1 in
      let at = entry % 128 * 4 in
      let word = word32 buf at / 2 ^ 28 * 2 ^ 28 + value % 2 ^ 28 in
      write_copies v entry (set_word32 buf at word) 0 v.num_fats s
