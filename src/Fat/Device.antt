-- ===== src/Fat/Device.antt =====
-- What os/kernel/fat32.c asks of `IDE_device_operation.transfer`: a drive of sectors of 512 bytes.
-- Bytes in memory and words in bytes.
use kalinote_os.Base.{
  ℕ, ◌+◌, ◌-◌, ◌*◌, ◌/◌, ◌%◌, ◌≤◌, ◌<◌, ◌≡◌, ◌⊎◌, inl, inr, ◌&&◌, Option, none, some, arith, ltb,
  leb, ◌==◌, if◌then◌else◌,
}

-- `read` gives the bytes of `count` sectors, or nothing if the transfer fails; `write` takes them.
pub record Drive : Type 1 where
  pub State : Type 0
  pub read : State → (sector count : ℕ) → Option (ℕ → ℕ)
  pub write : State → (sector count : ℕ) → (ℕ → ℕ) → State

-- A read of the drive gives the bytes of its sectors, of which a write replaces those that it names.
pub record IsDrive (d : Drive) : Type 0 where
  pub byte : d.State → (sector at : ℕ) → ℕ
  pub small : (s : d.State) (sector at : ℕ) → byte s sector at < 256
  pub bytes : d.State → (sector count : ℕ) → ℕ → ℕ
  pub read : (s : d.State) (sector count : ℕ) → d.read s sector count ≡ some (bytes s sector count)
  pub bytes-byte :
      (s : d.State) (sector count k at : ℕ)
      → k < count
      → at < 512
      → bytes s sector count (k * 512 + at) ≡ byte s (sector + k) at
  pub byte-write :
      (s : d.State) (sector count : ℕ) (buf : ℕ → ℕ) (q at : ℕ)
      → at < 512
      → byte (d.write s sector count buf) q at ≡ (
          if leb sector q && ltb q (sector + count)
          then buf ((q - sector) * 512 + at) % 256
          else byte s q at)

-- `memset` with 0, then a read; what the transfer returns is not looked at.
abbrev pub read_or_zero : (d : Drive) → d.State → (sector count : ℕ) → ℕ → ℕ
read_or_zero d s sector count = elim (d.read s sector count) [ none ↦ λ at. 0 | some buf ↦ buf ]

-- Words in bytes, the lowest byte first.
abbrev pub word16 : (ℕ → ℕ) → ℕ → ℕ
word16 b at = b at + 256 * b (at + 1)

abbrev pub word32 : (ℕ → ℕ) → ℕ → ℕ
word32 b at = word16 b at + 65536 * word16 b (at + 2)

abbrev pub set_byte : (ℕ → ℕ) → ℕ → ℕ → ℕ → ℕ
set_byte b at v q = if at == q then v % 256 else b q

abbrev pub set_word16 : (ℕ → ℕ) → ℕ → ℕ → ℕ → ℕ
set_word16 b at v = set_byte (set_byte b at v) (at + 1) (v / 256)

abbrev pub set_word32 : (ℕ → ℕ) → ℕ → ℕ → ℕ → ℕ
set_word32 b at v = set_word16 (set_word16 b at v) (at + 2) (v / 65536)

-- Words that go out byte by byte.
pub word32-set_word32 :
    (b : ℕ → ℕ) (at v : ℕ) → v < 256 * 256 * 65536 → word32 (λ q. set_word32 b at v q % 256) at ≡ v
word32-set_word32 b at v h = ground arith

pub word32-set_word32_other :
    (b : ℕ → ℕ) (at v q : ℕ)
    → (at + 4 ≤ q) ⊎ (q + 4 ≤ at)
    → word32 (λ z. set_word32 b at v z % 256) q ≡ word32 (λ z. b z % 256) q
word32-set_word32_other b at v q (inl h) = ground arith
word32-set_word32_other b at v q (inr h) = ground arith

pub word32-eq :
    (b c : ℕ → ℕ) (at : ℕ)
    → at + 4 ≤ 512
    → ((q : ℕ) → q < 512 → b q ≡ c q)
    → word32 b at ≡ word32 c at
word32-eq b c at h e = omega (
  arith,
  e at (omega arith),
  e (at + 1) (omega arith),
  e (at + 2) (omega arith),
  e (at + 2 + 1) (omega arith),
)
