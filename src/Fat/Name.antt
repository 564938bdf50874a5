-- ===== src/Fat/Name.antt =====
-- The comparison of a name with a directory entry in `FAT32_lookup` of os/kernel/fat32.c. A directory
-- is in memory, byte by byte; an entry is its address, and its long entries stand in front of it. A
-- name is the bytes at `dest_dentry->name`, `len` of them before its end.
pub mod Ends
pub mod Plain
pub mod Short
pub mod Named
use Prim.Native.Nat.{bit_and}
use kalinote_os.Base.{
  ℕ, zero, suc, ◌+◌, ◌-◌, ◌*◌, ◌%◌, Bool, true, false, ◌&&◌, ◌||◌, not, List, [], ◌∷◌, Option, none,
  some, ltb, leb, ◌==◌, if◌then◌else◌,
}
use kalinote_os.Fat.Device.{word16}

abbrev pub attr_directory : ℕ
attr_directory = 16

abbrev pub attr_long_name : ℕ
attr_long_name = 15

abbrev pub lowercase_base : ℕ
lowercase_base = 8

abbrev pub lowercase_ext : ℕ
lowercase_ext = 16

-- `DIR_Attr` and `DIR_NTRes`; `LDIR_Attr` has the place of `DIR_Attr`.
abbrev pub dir_attr : (ℕ → ℕ) → ℕ → ℕ
dir_attr mem entry = mem (entry + 11)

abbrev pub dir_nt_res : (ℕ → ℕ) → ℕ → ℕ
dir_nt_res mem entry = mem (entry + 12)

abbrev pub is_directory : (ℕ → ℕ) → ℕ → Bool
is_directory mem entry = not (bit_and (dir_attr mem entry) attr_directory == 0)

-- The thirteen units of `LDIR_Name1`, `LDIR_Name2` and `LDIR_Name3`.
abbrev units_from : (ℕ → ℕ) → ℕ → ℕ → List ℕ
units_from mem at zero = []
units_from mem at (suc n) = word16 mem at ∷ units_from mem (at + 2) n

-- `(unsigned short)` of a `char`.
abbrev pub wide : ℕ → ℕ
wide c = if leb 128 c then c + 65280 else c

-- One of the loops on `x` over units; where `j` then is, or nothing after a difference.
pub same_units : (ℕ → ℕ) → ℕ → ℕ → List ℕ → Option ℕ
same_units name len j [] = some j
same_units name len j (u ∷ us) =
    let skip = ltb len j && (u == 65535) in
    let rest = same_units name len (if skip then j else j + 1) us in
    if skip then rest else if ltb len j || not (u == wide (name j)) then none else rest

-- A match, a difference, or no long entry that decides.
pub data Match : Type 0 where
  same : Match
  different : Match
  undecided : Match

-- The three loops on one long entry.
pub same_long : (ℕ → ℕ) → (ℕ → ℕ) → ℕ → ℕ → ℕ → Option ℕ
same_long mem name len entry j = elim (same_units name len j (units_from mem (entry + 1) 5)) [
  | none ↦ none
  | some j1 ↦ elim (same_units name len j1 (units_from mem (entry + 14) 6)) [
    | none ↦ none
    | some j2 ↦ same_units name len j2 (units_from mem (entry + 28) 2)
  ]
]

-- The `while` over the long entries, from the last one in front of the entry on.
pub long_match : (ℕ → ℕ) → (ℕ → ℕ) → ℕ → ℕ → ℕ → ℕ → Option Match
long_match mem name len zero entry j = none
long_match mem name len (suc fuel) entry j =
    let is_long = (dir_attr mem entry == attr_long_name) && not (mem entry == 229) in
    let next = λ (j' : ℕ). long_match mem name len fuel (entry - 32) j' in
    if is_long
    then (elim (same_long mem name len entry j) as (λ x. Option Match) [
      | none ↦ some Match.different
      | some j' ↦ elim (leb len j') as (λ x. Option Match) [
        | true ↦ some Match.same
        | false ↦ next j'
      ]
    ])
    else some Match.undecided

-- An `unsigned char`, as a number, is the `char` of the name.
abbrev pub same_char : ℕ → ℕ → Bool
same_char c n = ltb n 128 && (c == n)

abbrev pub is_letter : ℕ → Bool
is_letter c = (leb 65 c && leb c 90) || (leb 97 c && leb c 122)

abbrev pub is_number : ℕ → Bool
is_number c = leb 48 c && leb c 57

abbrev pub take_if : Bool → ℕ → Option ℕ
take_if test j = if test then some (j + 1) else none

-- A letter of the entry in the case that its flag asks for.
abbrev pub in_case : (ℕ → ℕ) → ℕ → ℕ → ℕ → ℕ
in_case mem entry flag c = if bit_and (dir_nt_res mem entry) flag == 0 then c else c + 32

-- The `switch` on a byte of the base name: where `j` then is, or a difference.
pub base_step : (ℕ → ℕ) → (ℕ → ℕ) → (len entry x j : ℕ) → Option ℕ
base_step mem name len entry x j =
    let c = mem (entry + x) in
    if c == 32
    then (if is_directory mem entry
        then (if ltb j len && same_char c (name j)
            then some (j + 1)
            else if j == len
            then some j
            else none)
        else (if name j == 46 then some j else take_if (same_char c (name j)) j))
    else if is_letter c
    then take_if (ltb j len && same_char (in_case mem entry lowercase_base c) (name j)) j
    else if is_number c
    then take_if (ltb j len && same_char c (name j)) j
    else some (j + 1)

-- The `switch` on a byte of the extension.
pub ext_step : (ℕ → ℕ) → (ℕ → ℕ) → (entry x j : ℕ) → Option ℕ
ext_step mem name entry x j =
    let c = mem (entry + x) in
    if is_letter c
    then take_if (same_char (in_case mem entry lowercase_ext c) (name j)) j
    else if is_number c || (c == 32)
    then take_if (same_char c (name j)) j
    else none

-- The loops on `x`, with `left` rounds left.
pub base_match : (ℕ → ℕ) → (ℕ → ℕ) → (len entry x j left : ℕ) → Option ℕ
base_match mem name len entry x j zero = some j
base_match mem name len entry x j (suc left) = elim (base_step mem name len entry x j) [
  | none ↦ none
  | some j' ↦ base_match mem name len entry (x + 1) j' left
]

pub ext_match : (ℕ → ℕ) → (ℕ → ℕ) → (entry x j left : ℕ) → Option ℕ
ext_match mem name entry x j zero = some j
ext_match mem name entry x j (suc left) = elim (ext_step mem name entry x j) [
  | none ↦ none
  | some j' ↦ ext_match mem name entry (x + 1) j' left
]

pub is_some : Option ℕ → Bool
is_some none = false
is_some (some j) = true

-- The short name; what stands between base and extension is not looked at.
pub short_match : (ℕ → ℕ) → (ℕ → ℕ) → (len entry : ℕ) → Bool
short_match mem name len entry = elim (base_match mem name len entry 0 0 8) [
  | none ↦ false
  | some j ↦ if is_directory mem entry then true else is_some (ext_match mem name entry 8 (j + 1) 3)
]

-- An entry that is a long one, is free, or begins with 0x05, is passed over.
abbrev pub is_skipped : (ℕ → ℕ) → ℕ → Bool
is_skipped mem entry =
    let c = mem entry in
    (dir_attr mem entry == attr_long_name) || ((c == 229) || ((c == 0) || (c == 5)))

-- The body of the loop on `i`, for one entry: whether the entry is the one that is looked for.
pub entry_match : (ℕ → ℕ) → (ℕ → ℕ) → (len fuel entry : ℕ) → Option Bool
entry_match mem name len fuel entry =
    if is_skipped mem entry
    then some false
    else (elim (long_match mem name len fuel (entry - 32) 0) [
      | none ↦ none
      | some Match.same ↦ some true
      | some Match.different ↦ some false
      | some Match.undecided ↦ some (short_match mem name len entry)
    ])
