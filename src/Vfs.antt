-- ===== src/Vfs.antt =====
-- The registry of file systems of os/kernel/VFS.c with `struct file_system_type` of
-- os/include/VFS.h, and `strcmp` of os/include/lib.h. A name is its bytes up to the end of the
-- string; the list begins at the static `filesystem` and ends in NULL.
pub mod Strcmp
pub mod Walk
pub mod Registry
pub mod Mount
mod Tests
use kalinote_os.Base.{
  ℕ, zero, suc, ◌+◌, ◌-◌, ◌^◌, ◌%◌, Bool, List, [], ◌∷◌, Option, none, some, ltb, ◌==◌,
  if◌then◌else◌, update,
}

-- Two bytes that differ, compared as signed ones.
abbrev pub order : ℕ → ℕ → ℕ
order x y = if ltb ((y + 128) % 2 ^ 8) ((x + 128) % 2 ^ 8) then 1 else 2 ^ 32 - 1

-- `FirstPart` and `SecondPart`, each with a 0 behind its bytes.
pub strcmp : List ℕ → List ℕ → ℕ
strcmp [] [] = 0
strcmp [] (y ∷ ys) = order 0 y
strcmp (x ∷ xs) [] = order x 0
strcmp (x ∷ xs) (y ∷ ys) = let rest = strcmp xs ys in if x == y then rest else order x y

pub record Vfs : Type 0 where
  pub name : ℕ → List ℕ
  pub read_superblock : ℕ → ℕ
  pub next : ℕ → ℕ

-- The address of the static `filesystem`.
abbrev pub filesystem : ℕ
filesystem = 1

-- The `for` over the list: where `test` holds first, 0 at the end, `none` when the fuel is used up.
pub walk : Vfs → (ℕ → Bool) → ℕ → ℕ → Option ℕ
walk v test zero p = none
walk v test (suc fuel) p =
    let rest = walk v test fuel (v.next p) in
    if p == 0 then some 0 else if test p then some p else rest

-- `call` is the indirect call of `read_superblock` on a partition entry and a buffer; a call through
-- NULL, as for the static `filesystem`, is a fault and gives `none`.
pub mount_fs : (call : ℕ → ℕ → ℕ → ℕ) → ℕ → Vfs → List ℕ → ℕ → ℕ → Option ℕ
mount_fs call fuel v name dpte buf =
    elim (walk v (λ p. strcmp (v.name p) name == 0) fuel filesystem) [
      | none ↦ none
      | some p ↦
          if p == 0
          then some 0
          else if v.read_superblock p == 0
          then none
          else some (call (v.read_superblock p) dpte buf)
    ]

pub register_filesystem : ℕ → Vfs → ℕ → Option (ℕ × Vfs)
register_filesystem fuel v fs =
    elim (walk v (λ p. strcmp (v.name fs) (v.name p) == 0) fuel filesystem) [
      | none ↦ none
      | some p ↦ some (
          if p == 0
          then (1, record v { next = update (update v.next fs (v.next filesystem)) filesystem fs })
          else (0, v))
    ]

-- The `while` of `unregister_filesystem`: the node in front of `fs`, 0 at the end of the list.
pub find_before : Vfs → ℕ → ℕ → ℕ → Option ℕ
find_before v fs zero p = none
find_before v fs (suc fuel) p =
    let rest = find_before v fs fuel (v.next p) in
    if v.next p == 0 then some 0 else if v.next p == fs then some p else rest

pub unregister_filesystem : ℕ → Vfs → ℕ → Option (ℕ × Vfs)
unregister_filesystem fuel v fs = elim (find_before v fs fuel filesystem) [
  | none ↦ none
  | some p ↦ some (
      if p == 0
      then (0, v)
      else (1, record v { next = update (update v.next p (v.next (v.next p))) fs 0 }))
]
