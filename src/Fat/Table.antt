-- ===== src/Fat/Table.antt =====
-- `DISK1_FAT32_read_FAT_Entry` and `DISK1_FAT32_write_FAT_Entry` of os/kernel/fat32.c on a drive.
use native.Mathlib.Nat.{mul-le-mul_left}
use kalinote_os.Base.{
  ℕ, zero, suc, ◌+◌, ◌-◌, ◌*◌, ◌/◌, ◌%◌, ◌^◌, ◌≤◌, ◌<◌, ◌≡◌, ◌≢◌, ◌⊎◌, inl, inr, true, false, ◌&&◌,
  arith, refl, sym, ap, ◌∙◌, ltb, leb, ◌==◌, if◌then◌else◌, Bool-cases,
}
use kalinote_os.Fat.Device.{
  Drive, IsDrive, read_or_zero, word32, set_word32, word32-set_word32, word32-set_word32_other,
  word32-eq,
}
use kalinote_os.Fat.{
  Volume, entry_sector, copy_sector, read_fat_entry, write_copies, write_fat_entry,
}

-- The tables lie where sector numbers do not wrap.
pub record IsVolume (v : Volume) : Type 0 where
  pub some_table : 0 < v.num_fats
  pub fits : v.fat1_firstsector + v.sector_per_fat * v.num_fats + v.sector_per_fat < 2 ^ 64

-- Rows of `n` do not overlap.
row_unique : (n i k a b : ℕ) → a < n → b < n → n * i + a ≡ n * k + b → (i ≡ k) × (a ≡ b)
row_unique n i k a b ha hb e = elim (total i k) [
  | inl lt ↦
      let below : n * (i + 1) ≤ n * k = mul-le-mul_left n (omega arith) in
      absurd (grind (arith, below, e))
  | inr (inl same) ↦ (same, omega (arith, e, ap (λ z. n * z) same))
  | inr (inr lt) ↦
      let below : n * (k + 1) ≤ n * i = mul-le-mul_left n (omega arith) in
      absurd (grind (arith, below, e))
]
  where
    total : (i k : ℕ) → (i < k) ⊎ ((i ≡ k) ⊎ (k < i))
    total i k = omega arith

pub row-lt : (n i m a : ℕ) → i < m → a < n → n * i + a < n * m
row-lt n i m a h l =
    let below : n * (i + 1) ≤ n * m = mul-le-mul_left n (omega arith) in grind (arith, below)

module _ (d : Drive) (law : IsDrive d) (v : Volume) (volume : IsVolume v) where
  -- Where a sector of the table `i` is.
  abbrev place : ℕ → ℕ → ℕ
  place i row = v.fat1_firstsector + v.sector_per_fat * i + row

  -- The word of an entry in the table `i`, its four highest bits included.
  abbrev pub copy_word : d.State → (i entry : ℕ) → ℕ
  copy_word s i entry = word32 (law.byte s (place i (entry / 128))) (entry % 128 * 4)

  read-byte :
      (s : d.State) (sector at : ℕ) → at < 512 → read_or_zero d s sector 1 at ≡ law.byte s sector at
  read-byte s sector at h =
      rw (read_or_zero, law.read s sector 1)
        (ap (law.bytes s sector 1) (omega arith)
          ∙ law.bytes-byte s sector 1 0 at (omega arith) h
          ∙ ap (λ z. law.byte s z at) (omega arith))

  copy_sector-place :
      (i entry : ℕ)
      → i < v.num_fats
      → entry < v.sector_per_fat * 128
      → copy_sector v i entry ≡ place i (entry / 128)
  copy_sector-place i entry lt h =
      let inside = row-lt v.sector_per_fat i v.num_fats (entry / 128) lt (omega arith) in
      omega (arith, inside, volume.fits)

  -- A byte of a table after a write of one sector.
  write-byte :
      (entry row : ℕ) (buf : ℕ → ℕ) (i k at : ℕ) (s : d.State)
      → entry < v.sector_per_fat * 128
      → row < v.sector_per_fat
      → i < v.num_fats
      → at < 512
      → law.byte (d.write s (copy_sector v i entry) 1 buf) (place k row) at
        ≡ (if (i == k) && (entry / 128 == row) then buf at % 256 else law.byte s (place k row) at)
  write-byte entry row buf i k at s he hr lt ha = rw (copy_sector-place i entry lt he) (
      law.byte-write s (place i (entry / 128)) 1 buf (place k row) at ha
      ∙ elim (Bool-cases ((i == k) && (entry / 128 == row))) [
        | inl e ↦
            let same : place k row ≡ place i (entry / 128) = ground (arith, e) in
            let inside : (leb (place i (entry / 128)) (place k row)
                  && ltb (place k row) (place i (entry / 128) + 1))
                ≡ true =
              ground (arith, same) in
            let start : (place k row - place i (entry / 128)) * 512 + at ≡ at =
              omega (arith, same) in
            rw (inside, e, start) refl
        | inr e ↦
            let other : place i (entry / 128) ≢ place k row = λ c.
              let u =
                row_unique v.sector_per_fat i k (entry / 128) row (omega arith) hr
                  (omega (arith, c)) in
              ground (arith, e, u.0, u.1) in
            let outside : (leb (place i (entry / 128)) (place k row)
                  && ltb (place k row) (place i (entry / 128) + 1))
                ≡ false =
              ground (arith, other) in
            rw (outside, e) refl
      ])

  -- What a byte of a table is after the loop.
  write_copies-byte :
      (entry row : ℕ) (buf : ℕ → ℕ) (i left k at : ℕ) (s : d.State)
      → entry < v.sector_per_fat * 128
      → row < v.sector_per_fat
      → i + left ≤ v.num_fats
      → at < 512
      → law.byte (write_copies d v entry buf i left s) (place k row) at ≡ (
          if (leb i k && ltb k (i + left)) && (entry / 128 == row)
          then buf at % 256
          else law.byte s (place k row) at)
  unfolding write_copies
  write_copies-byte entry row buf i zero k at s he hr room ha = ground arith
  write_copies-byte entry row buf i (suc left) k at s he hr room ha =
      write_copies-byte entry row buf (i + 1) left k at (d.write s (copy_sector v i entry) 1 buf) he
        hr (omega arith) ha
      ∙ rw (write-byte entry row buf i k at s he hr (omega arith) ha) (ground arith)

  read_fat_entry-copy_word :
      (s : d.State) (entry : ℕ)
      → entry < v.sector_per_fat * 128
      → read_fat_entry d v s entry ≡ copy_word s 0 entry % 2 ^ 28
  unfolding read_fat_entry
  read_fat_entry-copy_word s entry h =
      let spot : entry_sector v entry ≡ place 0 (entry / 128) =
        omega (arith, copy_sector-place 0 entry volume.some_table h) in
      ap (λ z. z % 2 ^ 28)
        (word32-eq (read_or_zero d s (entry_sector v entry) 1) (law.byte s (place 0 (entry / 128)))
          (entry % 128 * 4) (omega arith)
          (λ q l. read-byte s (entry_sector v entry) q l ∙ ap (λ z. law.byte s z q) spot))

  small_word : (s : d.State) (entry : ℕ) → copy_word s 0 entry < 256 * 256 * 65536
  small_word s entry =
      let sector = place 0 (entry / 128) in
      let at = entry % 128 * 4 in
      omega (
        arith,
        law.small s sector at,
        law.small s sector (at + 1),
        law.small s sector (at + 2),
        law.small s sector (at + 2 + 1),
      )

  -- The word that `write_fat_entry` puts in the place of another one.
  abbrev pub patched : (old value : ℕ) → ℕ
  patched old value = old / 2 ^ 28 * 2 ^ 28 + value % 2 ^ 28

  copy_word-write :
      (s : d.State) (entry other value k : ℕ)
      → entry < v.sector_per_fat * 128
      → other < v.sector_per_fat * 128
      → k < v.num_fats
      → copy_word (write_fat_entry d v entry value s) k other ≡ (
          if entry == other
          then patched (copy_word s 0 entry) value
          else if entry / 128 == other / 128
          then copy_word s 0 other
          else copy_word s k other)
  unfolding write_fat_entry
  copy_word-write s entry other value k he ho lk =
      let old = read_or_zero d s (entry_sector v entry) 1 in
      let at = entry % 128 * 4 in
      let new = set_word32 old at (patched (word32 old at) value) in
      let spot : entry_sector v entry ≡ place 0 (entry / 128) =
        omega (arith, copy_sector-place 0 entry volume.some_table he) in
      let was : (q : ℕ) → q < 512 → old q ≡ law.byte s (place 0 (entry / 128)) q =
        λ q l. read-byte s (entry_sector v entry) q l ∙ ap (λ z. law.byte s z q) spot in
      let first_word : word32 old at ≡ copy_word s 0 entry =
        word32-eq old (law.byte s (place 0 (entry / 128))) at (omega arith) was in
      let byte : (q : ℕ)
          → q < 512
          → law.byte (write_copies d v entry new 0 v.num_fats s) (place k (other / 128)) q ≡ (
              if (leb 0 k && ltb k (0 + v.num_fats)) && (entry / 128 == other / 128)
              then new q % 256
              else law.byte s (place k (other / 128)) q) =
        λ q l.
          write_copies-byte entry (other / 128) new 0 v.num_fats k q s he (omega arith)
            (omega arith) l in
      let inside : (leb 0 k && ltb k (0 + v.num_fats)) ≡ true = ground arith in
      let spot' = other % 128 * 4 in
      elim (Bool-cases (entry / 128 == other / 128)) [
        | inl e ↦
            let written =
              word32-eq
                (law.byte (write_copies d v entry new 0 v.num_fats s) (place k (other / 128)))
                (λ q. new q % 256) spot' (omega arith) (λ q l. byte q l ∙ rw (inside, e) refl) in
            written ∙ elim (Bool-cases (entry == other)) [
              | inl g ↦
                  let same : entry ≡ other = ground (arith, g) in
                  rw g (
                    ap (word32 (λ q. new q % 256)) (ap (λ z. z % 128 * 4) (sym same))
                    ∙ word32-set_word32 old at (patched (word32 old at) value)
                        (omega (arith, small_word s entry, first_word))
                    ∙ ap (λ z. patched z value) first_word)
              | inr g ↦
                  let apart : entry % 128 ≢ other % 128 = λ c. ground (arith, g, e, c) in
                  rw (g, e)
                    (word32-set_word32_other old at (patched (word32 old at) value) spot'
                        (beside (entry % 128) (other % 128) apart)
                      ∙ word32-eq (λ q. old q % 256) (law.byte s (place 0 (other / 128))) spot'
                          (omega arith)
                          (λ q l.
                            let row : entry / 128 ≡ other / 128 = ground (arith, e) in
                            omega (
                              arith,
                              was q l,
                              ap (λ z. law.byte s (place 0 z) q) row,
                              law.small s (place 0 (other / 128)) q,
                            )))
            ]
        | inr e ↦
            let g : (entry == other) ≡ false = ground (arith, e) in
            rw (g, e)
              (word32-eq
                (law.byte (write_copies d v entry new 0 v.num_fats s) (place k (other / 128)))
                (law.byte s (place k (other / 128))) spot' (omega arith)
                (λ q l. byte q l ∙ rw (inside, e) refl))
      ]
    where
      beside : (a b : ℕ) → a ≢ b → (a * 4 + 4 ≤ b * 4) ⊎ (b * 4 + 4 ≤ a * 4)
      beside a b n = omega (arith, n)

  -- The tables hold the same bytes.
  abbrev pub AllSame : d.State → Type 0
  AllSame s =
      (k row at : ℕ)
      → k < v.num_fats
      → row < v.sector_per_fat
      → at < 512
      → law.byte s (place k row) at ≡ law.byte s (place 0 row) at

  AllSame-word :
      (s : d.State) (k entry : ℕ)
      → AllSame s
      → k < v.num_fats
      → entry < v.sector_per_fat * 128
      → copy_word s k entry ≡ copy_word s 0 entry
  AllSame-word s k entry same lk h =
      word32-eq (law.byte s (place k (entry / 128))) (law.byte s (place 0 (entry / 128)))
        (entry % 128 * 4) (omega arith) (λ q l. same k (entry / 128) q lk (omega arith) l)

  copy_word-write_same :
      (s : d.State) (entry other value k : ℕ)
      → entry < v.sector_per_fat * 128
      → other < v.sector_per_fat * 128
      → k < v.num_fats
      → AllSame s
      → copy_word (write_fat_entry d v entry value s) k other
        ≡ (if entry == other then patched (copy_word s 0 entry) value else copy_word s 0 other)
  copy_word-write_same s entry other value k he ho lk same =
      copy_word-write s entry other value k he ho lk ∙ elim (Bool-cases (entry == other)) [
        | inl e ↦ rw e refl
        | inr e ↦ elim (Bool-cases (entry / 128 == other / 128)) [
          | inl g ↦ rw (e, g) refl
          | inr g ↦ rw (e, g) (AllSame-word s k other same lk ho)
        ]
      ]

  -- On a drive whose tables hold the same bytes, after `DISK1_FAT32_write_FAT_Entry` of an entry of
  -- the tables: every table has the new value with the four highest bits of the old word, and all
  -- other entries as they were; `DISK1_FAT32_read_FAT_Entry` gives the value back, 28 bits of it,
  -- and of other entries what it gave before.
  pub read_fat_entry-write_fat_entry :
      (s : d.State) (entry other value k : ℕ)
      → entry < v.sector_per_fat * 128
      → other < v.sector_per_fat * 128
      → k < v.num_fats
      → AllSame s
      → (copy_word (write_fat_entry d v entry value s) k other
          ≡ (if entry == other then patched (copy_word s 0 entry) value else copy_word s 0 other))
        × (read_fat_entry d v (write_fat_entry d v entry value s) other
            ≡ (if entry == other then value % 2 ^ 28 else read_fat_entry d v s other))
  read_fat_entry-write_fat_entry s entry other value k he ho lk same = (
    copy_word-write_same s entry other value k he ho lk same,
    read_fat_entry-copy_word (write_fat_entry d v entry value s) other ho
        ∙ ap (λ z. z % 2 ^ 28)
            (copy_word-write_same s entry other value 0 he ho volume.some_table same)
        ∙ elim (Bool-cases (entry == other)) [
          | inl e ↦ rw e (omega arith)
          | inr e ↦ rw e (sym (read_fat_entry-copy_word s other ho))
        ],
  )
