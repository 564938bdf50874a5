-- ===== src/Vfs/Mount.antt =====
-- `mount_fs` of os/kernel/VFS.c on a list of file systems with different names.
use mathlib.Core.Path.{subst}
use mathlib.Core.Bool.{false≢true}
use kalinote_os.Base.{
  All-has, ℕ, ◌+◌, ◌<◌, ◌≡◌, ◌≢◌, inl, inr, true, false, List, [], ◌∷◌, none, some, if◌then◌else◌,
  refl, sym, ap, arith, ◌==◌, Bool-cases, has, length,
}
use kalinote_os.Vfs.{Vfs, strcmp, filesystem, mount_fs}
use kalinote_os.Vfs.Strcmp.{strcmp_iff}
use kalinote_os.Vfs.Walk.{Stops, walk-Stops}
use kalinote_os.Vfs.Registry.{IsRegistry, registry-Chain, no_null, name_eq}
use kalinote_os.Vfs.Registry.Unlink.{NamesDiffer}

NamesDiffer-unique :
    (name : ℕ → List ℕ) (a b : ℕ) (xs : List ℕ)
    → NamesDiffer name xs
    → has a xs ≡ true
    → has b xs ≡ true
    → name a ≡ name b
    → a ≡ b
NamesDiffer-unique name a b [] d h k e = absurd (false≢true h)
NamesDiffer-unique name a b (x ∷ xs) d h k e = elim (Bool-cases (a == x)) [
  | inl p ↦ elim (Bool-cases (b == x)) [
    | inl q ↦ ground (arith, p, q)
    | inr q ↦
        let same : a ≡ x = ground (arith, p) in
        absurd (
          All-has (λ y. name x ≢ name y) b xs d.0 (ground (arith, q, k))
            (subst (λ z. name z ≡ name b) same e))
  ]
  | inr p ↦ elim (Bool-cases (b == x)) [
    | inl q ↦
        let same : b ≡ x = ground (arith, q) in
        absurd (
          All-has (λ y. name x ≢ name y) a xs d.0 (ground (arith, p, h))
            (subst (λ z. name z ≡ name a) same (sym e)))
    | inr q ↦ NamesDiffer-unique name a b xs d.1 (ground (arith, p, h)) (ground (arith, q, k)) e
  ]
]

Stops-registered :
    (v : Vfs) (fss : List ℕ) (g r : ℕ)
    → IsRegistry v fss
    → has g (filesystem ∷ fss) ≡ true
    → Stops (λ p. strcmp (v.name p) (v.name g) == 0) (filesystem ∷ fss) r
    → (r ≡ g) × ((r == 0) ≡ false)
Stops-registered v fss g r i h (inl (z, a)) =
    let no : (strcmp (v.name g) (v.name g) == 0) ≡ false =
      All-has (λ p. (strcmp (v.name p) (v.name g) == 0) ≡ false) g (filesystem ∷ fss) a h in
    absurd (ground (arith, no, (strcmp_iff (v.name g) (v.name g)).1 refl))
Stops-registered v fss g r i h (inr (n, k, t)) = (
  NamesDiffer-unique v.name r g (filesystem ∷ fss) i.names k h (name_eq (v.name r) (v.name g) t),
  ground (arith, n),
)

-- `mount_fs` with the name of a registered file system whose `read_superblock` is not NULL ends and
-- gives what that file system's `read_superblock` gives, and of no other; with one whose
-- `read_superblock` is NULL, such as the static `filesystem`, it faults.
pub mount_fs-registered :
    (call : ℕ → ℕ → ℕ → ℕ) (fuel : ℕ) (v : Vfs) (fss : List ℕ) (g dpte buf : ℕ)
    → IsRegistry v fss
    → has g (filesystem ∷ fss) ≡ true
    → length fss + 1 < fuel
    → mount_fs call fuel v (v.name g) dpte buf
      ≡ (if v.read_superblock g == 0 then none else some (call (v.read_superblock g) dpte buf))
unfolding mount_fs
mount_fs-registered call fuel v fss g dpte buf i h lt =
    let (r, e, s) =
      walk-Stops v (λ p. strcmp (v.name p) (v.name g) == 0) fuel filesystem (filesystem ∷ fss)
        (registry-Chain v fss i) (no_null v fss i) (omega (arith, lt)) in
    let (same, n) = Stops-registered v fss g r i h s in
    rw (e, mount_fs, n)
      (ap
        (λ z. if v.read_superblock z == 0 then none else some (call (v.read_superblock z) dpte buf))
        same)
