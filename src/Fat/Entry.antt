-- ===== src/Fat/Entry.antt =====
-- `fat32_write_inode` of os/kernel/fat32.c: the directory entry of a node is written back. The
-- buffer of one cluster is zeroed and then read; what the transfers return is not looked at.
pub mod Back
use Prim.Native.Nat.{bit_or, bit_or-bitwise}
use kalinote_os.Base.{
  ℕ, ◌+◌, ◌-◌, ◌*◌, ◌/◌, ◌%◌, ◌^◌, ◌≤◌, ◌<◌, ◌≡◌, ◌⊎◌, inl, inr, Bool, true, false, ◌&&◌, arith,
  refl, sym, ap, ◌∙◌, ltb, leb, ◌==◌, if◌then◌else◌, Bool-cases,
}
use kalinote_os.Fat.{Volume}
use kalinote_os.Fat.Device.{
  Drive, IsDrive, read_or_zero, word16, word32, set_word16, set_word32, word32-set_word32,
}
use kalinote_os.Fat.Name.{is_directory}
use kalinote_os.Fat.Lookup.{Inode}

-- `(old & 0xf000) | (first_cluster >> 16)`, the four highest bits and the others.
abbrev pub high_word : (old first_cluster : ℕ) → ℕ
high_word old first_cluster =
    let high = first_cluster / 65536 in bit_or (high / 4096) (old / 4096) * 4096 + high % 4096

-- The three assignments to the entry at `entry`.
abbrev pub set_entry : (ℕ → ℕ) → (entry : ℕ) → Inode → ℕ → ℕ
set_entry buf entry node =
    let sized = set_word32 buf (entry + 28) node.file_size in
    let low = set_word16 sized (entry + 26) (node.first_cluster % 65536) in
    set_word16 low (entry + 20) (high_word (word16 low (entry + 20)) node.first_cluster)

-- The first sector of the cluster that the entry is in.
abbrev pub dentry_sector : Volume → Inode → ℕ
dentry_sector v node =
    (v.data_firstsector + (node.dentry_location + 2 ^ 64 - 2) % 2 ^ 64 * v.sector_per_cluster)
    % 2 ^ 64

pub write_inode : (d : Drive) → Volume → Inode → d.State → d.State
write_inode d v node s =
    let sector = dentry_sector v node in
    let buf = read_or_zero d s sector v.sector_per_cluster in
    if node.dentry_location == 0
    then s
    else d.write s sector v.sector_per_cluster (set_entry buf (node.dentry_position * 32) node)

-- The bytes of an entry that do not hold the size or the first cluster.
abbrev pub IsOther : (entry at : ℕ) → Type 0
IsOther entry at =
    (at + 1 ≤ entry + 20) ⊎ ((entry + 22 ≤ at) × (at + 1 ≤ entry + 26)) ⊎ (entry + 32 ≤ at)

pub set_entry-other :
    (b : ℕ → ℕ) (entry at : ℕ) (node : Inode)
    → IsOther entry at
    → set_entry b entry node at % 256 ≡ b at % 256
set_entry-other b entry at node h = ground (arith, h)

word32-same : (f g : ℕ → ℕ) (at : ℕ) → ((q : ℕ) → at ≤ q → f q ≡ g q) → word32 f at ≡ word32 g at
word32-same f g at e = omega (
  arith,
  e at (omega arith),
  e (at + 1) (omega arith),
  e (at + 2) (omega arith),
  e (at + 2 + 1) (omega arith),
)

set_word16-other :
    (b : ℕ → ℕ) (at v q : ℕ) → (q + 1 ≤ at) ⊎ (at + 2 ≤ q) → set_word16 b at v q ≡ b q
set_word16-other b at v q h = ground (arith, h)

set_word16-word16 :
    (b : ℕ → ℕ) (at v : ℕ)
    → v < 65536
    → (set_word16 b at v at ≡ v % 256) × (set_word16 b at v (at + 1) ≡ v / 256)
set_word16-word16 b at v h = (ground arith, ground arith)

pub set_entry-size :
    (b : ℕ → ℕ) (entry : ℕ) (node : Inode)
    → node.file_size < 2 ^ 32
    → word32 (λ q. set_entry b entry node q % 256) (entry + 28) ≡ node.file_size
set_entry-size b entry node h =
    let sized = set_word32 b (entry + 28) node.file_size in
    let low = set_word16 sized (entry + 26) (node.first_cluster % 65536) in
    let high = high_word (word16 low (entry + 20)) node.first_cluster in
    word32-same (λ q. set_entry b entry node q % 256) (λ q. sized q % 256) (entry + 28)
      (λ q l.
        ap (λ z. z % 256)
          (set_word16-other low (entry + 20) high q (inr (omega (arith, l)))
            ∙ set_word16-other sized (entry + 26) (node.first_cluster % 65536) q
                (inr (omega (arith, l)))))
    ∙ word32-set_word32 b (entry + 28) node.file_size (omega (arith, h))

high_word-eq :
    (old first_cluster : ℕ)
    → first_cluster < 2 ^ 28
    → high_word old first_cluster ≡ old / 4096 * 4096 + first_cluster / 65536
high_word-eq old first_cluster h =
    let none_above : first_cluster / 65536 / 4096 ≡ 0 = omega (arith, h) in
    ap (λ z. bit_or z (old / 4096) * 4096 + first_cluster / 65536 % 4096) none_above
    ∙ ap (λ z. z * 4096 + first_cluster / 65536 % 4096) (nothing-or (old / 4096))
    ∙ omega (arith, h)
  where
    nothing-or : (y : ℕ) → bit_or 0 y ≡ y
    nothing-or y = λ i. bit_or-bitwise 0 y i

pub set_entry-cluster :
    (b : ℕ → ℕ) (entry : ℕ) (node : Inode)
    → ((at : ℕ) → at < entry + 32 → b at < 256)
    → node.first_cluster < 2 ^ 28
    → (word16 (λ q. set_entry b entry node q % 256) (entry + 20) * 65536
          + word16 (λ q. set_entry b entry node q % 256) (entry + 26))
        % 2 ^ 28
      ≡ node.first_cluster
set_entry-cluster b entry node small h =
    let sized = set_word32 b (entry + 28) node.file_size in
    let low = set_word16 sized (entry + 26) (node.first_cluster % 65536) in
    let old = word16 low (entry + 20) in
    let high = high_word old node.first_cluster in
    let is_old : (q : ℕ) → q < entry + 22 → low q ≡ b q = λ q l.
      set_word16-other sized (entry + 26) (node.first_cluster % 65536) q (inl (omega (arith, l)))
      ∙ set_word16-other (set_word16 b (entry + 28) node.file_size) (entry + 28 + 2)
          (node.file_size / 65536) q (inl (omega (arith, l)))
      ∙ set_word16-other b (entry + 28) node.file_size q (inl (omega (arith, l))) in
    let old_small : old < 65536 = omega (
      arith,
      is_old (entry + 20) (omega arith),
      is_old (entry + 20 + 1) (omega arith),
      small (entry + 20) (omega arith),
      small (entry + 20 + 1) (omega arith),
    ) in
    let value : high ≡ old / 4096 * 4096 + node.first_cluster / 65536 =
      high_word-eq old node.first_cluster h in
    let high_bytes = set_word16-word16 low (entry + 20) high (omega (arith, value, old_small, h)) in
    let low_bytes =
      set_word16-word16 sized (entry + 26) (node.first_cluster % 65536) (omega arith) in
    let kept : (q : ℕ) → entry + 22 ≤ q → set_entry b entry node q ≡ low q =
      λ q l. set_word16-other low (entry + 20) high q (inr (omega (arith, l))) in
    number (set_entry b entry node (entry + 20)) (set_entry b entry node (entry + 20 + 1))
      (set_entry b entry node (entry + 26)) (set_entry b entry node (entry + 26 + 1)) (old / 4096)
      node.first_cluster (omega (arith, old_small)) h (high_bytes.0 ∙ ap (λ z. z % 256) value)
      (high_bytes.1 ∙ ap (λ z. z / 256) value) (kept (entry + 26) (omega arith) ∙ low_bytes.0)
      (kept (entry + 26 + 1) (omega arith) ∙ low_bytes.1)
  where
    number :
        (h0 h1 l0 l1 top first : ℕ)
        → top < 16
        → first < 2 ^ 28
        → h0 ≡ (top * 4096 + first / 65536) % 256
        → h1 ≡ (top * 4096 + first / 65536) / 256
        → l0 ≡ first % 65536 % 256
        → l1 ≡ first % 65536 / 256
        → ((h0 % 256 + 256 * (h1 % 256)) * 65536 + (l0 % 256 + 256 * (l1 % 256))) % 2 ^ 28 ≡ first
    number h0 h1 l0 l1 top first ht hf e0 e1 e2 e3 =
        let high : h0 % 256 + 256 * (h1 % 256) ≡ top * 4096 + first / 65536 =
          omega (arith, ht, hf, e0, e1) in
        let low : l0 % 256 + 256 * (l1 % 256) ≡ first % 65536 = omega (arith, e2, e3) in
        omega (arith, high, low, hf)
