-- ===== src/Fat/Tests.antt =====
-- A drive in memory with a small FAT32 volume on it, and the theorems about it.
use kalinote_os.Base.{
  ℕ, zero, suc, ◌+◌, ◌-◌, ◌*◌, ◌/◌, ◌%◌, ◌^◌, ◌<◌, ◌≡◌, inl, inr, Bool, true, ◌&&◌, List, [], ◌∷◌,
  Option, none, some, arith, refl, ltb, leb, ◌==◌, if◌then◌else◌, Bool-cases,
}
use kalinote_os.Fat.{Volume, read_fat_entry, write_fat_entry}
use kalinote_os.Fat.Device.{Drive, IsDrive}
use kalinote_os.Fat.Table.{IsVolume, copy_word, patched, read_fat_entry-write_fat_entry}
use kalinote_os.Fat.Lookup.{Inode, inode_of, fs_attr_file}
use kalinote_os.Fat.Entry.{write_inode}
use kalinote_os.Fat.Entry.Back.{held, updated, write_inode-inode_of}
use kalinote_os.Fat.Superblock.{read_superblock, volume_of, read_superblock-layout}
use kalinote_os.Fat.Path.{at_root, path_walk}
use kalinote_os.Fat.Path.Parts.{parts}
use kalinote_os.Fat.Path.Walk.{described, path_walk-described}

-- Sectors of 512 bytes.
abbrev pub memory_drive : Drive
memory_drive = record {
  State = ℕ → ℕ → ℕ;
  read = λ s sector count. some (λ at. s (sector + at / 512) (at % 512) % 256);
  write = λ s sector count buf q at.
      if leb sector q && ltb q (sector + count) then buf ((q - sector) * 512 + at) else s q at;
}

unfoldable pub memory_drive-IsDrive : IsDrive memory_drive
memory_drive-IsDrive = record {
  byte = λ s sector at. s sector at % 256;
  small = λ s sector at. omega arith;
  bytes = λ s sector count at. s (sector + at / 512) (at % 512) % 256;
  read = λ s sector count. refl;
  bytes-byte = λ s sector count k at lk la.
      let row : (k * 512 + at) / 512 ≡ k = omega (arith, la) in
      let column : (k * 512 + at) % 512 ≡ at = omega (arith, la) in rw (row, column) refl;
  byte-write = λ s sector count buf q at la.
      elim (Bool-cases (leb sector q && ltb q (sector + count))) [
        | inl e ↦ rw e refl
        | inr e ↦ rw e refl
      ];
}

-- Two tables of one sector each at 32 and 33, and clusters of one sector from 34 on.
abbrev pub small_volume : Volume
small_volume = record {
  start_sector = 0;
  sector_count = 100;
  sector_per_cluster = 1;
  bytes_per_cluster = 512;
  bytes_per_sector = 512;
  data_firstsector = 34;
  fat1_firstsector = 32;
  sector_per_fat = 1;
  num_fats = 2;
  fsinfo_sector_infat = 1;
  bootsector_bk_infat = 6;
}

small_volume-IsVolume : IsVolume small_volume
small_volume-IsVolume = record { some_table = omega arith; fits = omega arith }

-- All sectors hold the numbers from 0 to 255, twice.
abbrev counted : ℕ → ℕ → ℕ
counted q at = at % 256

read_fat_entry-write_fat_entry_example :
    (copy_word memory_drive memory_drive-IsDrive small_volume small_volume-IsVolume
        (write_fat_entry memory_drive small_volume 2 5 counted)
        1
        2
      ≡ (if 2 == 2
          then patched memory_drive memory_drive-IsDrive small_volume small_volume-IsVolume
              (copy_word memory_drive memory_drive-IsDrive small_volume small_volume-IsVolume
                counted 0 2)
              5
          else copy_word memory_drive memory_drive-IsDrive small_volume small_volume-IsVolume
              counted 0 2))
    × (read_fat_entry memory_drive small_volume
          (write_fat_entry memory_drive small_volume 2 5 counted)
          2
        ≡ (if 2 == 2 then 5 % 2 ^ 28 else read_fat_entry memory_drive small_volume counted 2))
unfolding memory_drive-IsDrive
read_fat_entry-write_fat_entry_example =
    read_fat_entry-write_fat_entry memory_drive memory_drive-IsDrive small_volume
      small_volume-IsVolume counted 2 2 5 1 (omega arith) (omega arith) (omega arith)
      (λ k row at lk lr la. refl)

-- Bytes from a list, 0 behind its end.
abbrev pub byte_at : List ℕ → ℕ → ℕ
byte_at [] at = 0
byte_at (b ∷ bs) at = if at == 0 then b else byte_at bs (at - 1)

abbrev zeros : List ℕ → ℕ → List ℕ
zeros bs zero = bs
zeros bs (suc n) = 0 ∷ zeros bs n

-- A directory of the clusters 2 and 3, `A.TXT` in the first one and `B.TXT` in the second one.
abbrev table_bytes : List ℕ
table_bytes = zeros (3 ∷ 0 ∷ 0 ∷ 0 ∷ 255 ∷ 255 ∷ 255 ∷ 15 ∷ []) 8

abbrev entry_bytes : (letter first size : ℕ) → List ℕ
entry_bytes letter first size =
    letter ∷ 32 ∷ 32 ∷ 32 ∷ 32 ∷ 32 ∷ 32 ∷ 32 ∷ 84 ∷ 88 ∷ 84 ∷ 32 ∷ zeros (first ∷ 0 ∷ size ∷ []) 14

abbrev pub directory : ℕ → ℕ → ℕ
directory q =
    if q == 32
    then byte_at table_bytes
    else if q == 33
    then byte_at table_bytes
    else if q == 34
    then byte_at (entry_bytes 65 4 7)
    else if q == 35
    then byte_at (zeros (entry_bytes 66 5 9) 32)
    else λ at. 0

abbrev pub b_txt : List ℕ
b_txt = 66 ∷ 46 ∷ 84 ∷ 88 ∷ 84 ∷ []

table_of_directory :
    (read_fat_entry memory_drive small_volume directory 2 ≡ 3)
    × (read_fat_entry memory_drive small_volume directory 3 ≡ 0x0fffffff)
unfolding read_fat_entry
table_of_directory = (refl, refl)

-- The node of `B.TXT`, grown to 300 bytes.
abbrev grown : Inode
grown = record {
  file_size = 300;
  blocks = 1;
  attribute = fs_attr_file;
  first_cluster = 5;
  dentry_location = 3;
  dentry_position = 1;
  create_date = 0;
  create_time = 0;
  write_date = 0;
  write_time = 0;
}

write_inode-inode_of_example :
    (inode_of small_volume
        (held memory_drive memory_drive-IsDrive small_volume
          (write_inode memory_drive small_volume grown directory)
          3)
        (1 * 32)
        3
        1
      ≡ (if 1 == 1
          then updated small_volume
              (inode_of small_volume
                (held memory_drive memory_drive-IsDrive small_volume directory 3)
                (1 * 32)
                3
                1)
              grown
          else inode_of small_volume
              (held memory_drive memory_drive-IsDrive small_volume directory 3)
              (1 * 32)
              3
              1))
    × (memory_drive-IsDrive.byte (write_inode memory_drive small_volume grown directory) 34 0
        ≡ memory_drive-IsDrive.byte directory 34 0)
    × (held memory_drive memory_drive-IsDrive small_volume
          (write_inode memory_drive small_volume grown directory)
          3
          32
        ≡ held memory_drive memory_drive-IsDrive small_volume directory 3 32)
write_inode-inode_of_example =
    write_inode-inode_of memory_drive memory_drive-IsDrive small_volume directory grown 1 34 0 32
      (omega arith, omega arith, omega arith) (omega arith) (omega arith) (omega arith)
      (inl (omega arith)) (omega arith) (omega arith) (inl (omega arith))

-- A boot sector with 512 bytes in a sector, one sector in a cluster, 32 reserved sectors and two
-- tables of one sector.
abbrev boot_bytes : List ℕ
boot_bytes = zeros (0 ∷ 2 ∷ 1 ∷ 32 ∷ 0 ∷ 2 ∷ zeros (1 ∷ 0 ∷ 0 ∷ 0 ∷ []) 19) 11

abbrev all_bytes : List ℕ → Bool
all_bytes [] = true
all_bytes (b ∷ bs) = ltb b 256 && all_bytes bs

byte_at-small : (bs : List ℕ) (at : ℕ) → all_bytes bs ≡ true → byte_at bs at < 256
byte_at-small [] at e = omega arith
byte_at-small (b ∷ bs) at e =
    let front : ltb b 256 ≡ true = ground (arith, e) in
    let others : all_bytes bs ≡ true = ground (arith, e) in
    let rest = byte_at-small bs (at - 1) others in
    elim (Bool-cases (at == 0)) [ inl g ↦ rw g (ground (arith, front)) | inr g ↦ rw g rest ]

read_superblock-layout_example :
    IsVolume
      (read_superblock memory_drive
        (record { start_lba = 0; sectors_limit = 100 })
        (byte_at boot_bytes)
        counted).volume
    × (memory_drive-IsDrive.byte
          (write_fat_entry memory_drive
            (read_superblock memory_drive
              (record { start_lba = 0; sectors_limit = 100 })
              (byte_at boot_bytes)
              counted).volume
            2
            5
            counted)
          34
          8
        ≡ memory_drive-IsDrive.byte counted 34 8)
unfolding read_superblock volume_of
read_superblock-layout_example =
    read_superblock-layout memory_drive memory_drive-IsDrive
      (record { start_lba = 0; sectors_limit = 100 }) (byte_at boot_bytes) counted 2 5 34 8
      (λ at. byte_at-small boot_bytes at refl) (omega arith) (omega arith) (omega arith)
      (inr (omega arith)) (omega arith)

-- A directory 1 of a directory 2: names of one byte are found in the root, and the others below.
abbrev find : ℕ → List ℕ → Option ℕ
find node [] = none
find node (c ∷ []) = if node == 0 then some c else none
find node (c ∷ d ∷ cs) = if node == 0 then none else some (node + c)

path_walk-described_example :
    path_walk find 0 9 (at_root 0) (47 ∷ 65 ∷ 47 ∷ 47 ∷ 66 ∷ 67 ∷ 47 ∷ [])
    ≡ some (described find 0 (at_root 0) (parts (47 ∷ 65 ∷ 47 ∷ 47 ∷ 66 ∷ 67 ∷ 47 ∷ [])))
path_walk-described_example =
    path_walk-described find 0 9 0 (47 ∷ 65 ∷ 47 ∷ 47 ∷ 66 ∷ 67 ∷ 47 ∷ []) (omega arith)
