-- ===== src/Fat/Name/Plain.antt =====
-- Entries of directories in os/kernel/fat32.c that are those of files with plain short names.
use Prim.Native.Nat.{bit_and}
use kalinote_os.Base.{ℕ, ◌+◌, ◌-◌, ◌≤◌, ◌<◌, ◌≡◌, ◌≢◌, ◌⊎◌, Bool, true, false}

-- A capital letter or a digit.
abbrev pub IsPlainByte : ℕ → Type 0
IsPlainByte c = ((48 ≤ c) × (c ≤ 57)) ⊎ ((65 ≤ c) × (c ≤ 90))

-- The entry at `e` is that of a file, with `n` bytes of a base name and three of an extension, no
-- letter in lower case, and no long entry in front of it.
pub record IsPlain (mem : ℕ → ℕ) (e n : ℕ) : Type 0 where
  pub some_base : 0 < n
  pub short_base : n ≤ 7
  pub base : (i : ℕ) → i < n → IsPlainByte (mem (e + i))
  pub pad : (i : ℕ) → n ≤ i → i < 8 → mem (e + i) ≡ 32
  pub ext : (i : ℕ) → 8 ≤ i → i < 11 → IsPlainByte (mem (e + i))
  pub file : bit_and (mem (e + 11)) 16 ≡ 0
  pub no_long : mem (e + 11) ≢ 15
  pub capital_base : bit_and (mem (e + 12)) 8 ≡ 0
  pub capital_ext : bit_and (mem (e + 12)) 16 ≡ 0
  pub alone : mem (e - 32 + 11) ≢ 15

-- The entry is unused, deleted, or a long one.
abbrev pub IsUnused : (ℕ → ℕ) → ℕ → Type 0
IsUnused mem e =
    (mem (e + 11) ≡ 15) ⊎ ((mem (e + 0) ≡ 229) ⊎ ((mem (e + 0) ≡ 0) ⊎ (mem (e + 0) ≡ 5)))

-- The name begins with the base, a dot and the extension.
pub record Begins (mem name : ℕ → ℕ) (len e n : ℕ) : Type 0 where
  pub base : (i : ℕ) → i < n → (i < len) × (name i ≡ mem (e + i))
  pub dot : name n ≡ 46
  pub ext : (i : ℕ) → n + 1 ≤ i → i < n + 4 → name i ≡ mem (e + (i + (7 - n)))

-- The entry is that of a plain file, and the name begins with its own.
abbrev pub IsNamed : (mem name : ℕ → ℕ) → (len e : ℕ) → Type 0
IsNamed mem name len e = (n : ℕ) × IsPlain mem e n × Begins mem name len e n

-- The Boolean says whether the proposition holds.
abbrev pub Decides : Type 0 → Bool → Type 0
Decides P true = P
Decides P false = P → ⊥

pub Decides-iff : (P Q : Type 0) (b : Bool) → (P → Q) → (Q → P) → Decides P b → Decides Q b
Decides-iff P Q true f g h = f h
Decides-iff P Q false f g h = λ q. h (g q)
