-- ===== src/Vfs/Registry.antt =====
-- The list of file systems of os/kernel/VFS.c: its invariant and what the operations do to it.
pub mod Unlink
use mathlib.Core.Path.{subst}
use mathlib.Core.Bool.{false≢true}
use kalinote_os.Base.{
  ℕ, zero, suc, ◌+◌, ◌<◌, ◌≡◌, ◌≢◌, ◌⊎◌, inl, inr, Bool, true, false, List, [], ◌∷◌, ◌++◌, Option,
  none, some, refl, sym, ap, ◌∙◌, arith, ◌==◌, ==_self, if◌then◌else◌, Bool-cases, All, has, ◌∉◌,
  Distinct, length, Gives, update, update_self, update_ne, has-append_no,
}
use kalinote_os.Chain.{Chain, Chain-update}
use kalinote_os.Distinct.{Distinct-back, middle_front, Distinct-drop, drop_not_mem}
use kalinote_os.Vfs.{
  Vfs, strcmp, filesystem, walk, mount_fs, register_filesystem, find_before, unregister_filesystem,
}
use kalinote_os.Vfs.Strcmp.{strcmp_iff}
use kalinote_os.Vfs.Walk.{Stops, walk-Stops, find_before-absent, find_before-last, last}
use Unlink.{NamesDiffer, NamesDiffer-drop, unlink-Chain}

-- Behind `filesystem` the list holds `fss`; no two names are equal.
pub record IsRegistry (v : Vfs) (fss : List ℕ) : Type 0 where
  pub chain : Chain v.next (v.next filesystem) fss 0
  pub distinct : Distinct (filesystem ∷ fss)
  pub no_null : 0 ∉ fss
  pub names : NamesDiffer v.name (filesystem ∷ fss)

-- The strings are compared by their bytes.
pub name_eq : (xs ys : List ℕ) → (strcmp xs ys == 0) ≡ true → xs ≡ ys
name_eq xs ys e = (strcmp_iff xs ys).0 (ground (arith, e))

pub name_ne : (xs ys : List ℕ) → (strcmp xs ys == 0) ≡ false → xs ≢ ys
name_ne xs ys e h = let z : strcmp xs ys ≡ 0 = (strcmp_iff xs ys).1 h in ground (arith, e, z)

-- What registering gives: 0 and no change when a registered name is equal, else 1 and the list with
-- `fs` in front.
abbrev pub Registers : Vfs → List ℕ → ℕ → ℕ × Vfs → Type 0
Registers v fss fs (r, v') =
    ((r ≡ 0) × (v' ≡ v) × ((g : ℕ) × (has g (filesystem ∷ fss) ≡ true) × (v.name fs ≡ v.name g)))
    ⊎ ((r ≡ 1) × IsRegistry v' (fs ∷ fss))

All-map : (P Q : ℕ → Type 0) (xs : List ℕ) → ((x : ℕ) → P x → Q x) → All P xs → All Q xs
All-map P Q [] f a = tt
All-map P Q (x ∷ xs) f a = (f x a.0, All-map P Q xs f a.1)

linked :
    (v : Vfs) (fss : List ℕ) (fs : ℕ)
    → IsRegistry v fss
    → fs ∉ (filesystem ∷ fss)
    → fs ≢ 0
    → All (λ x. (strcmp (v.name fs) (v.name x) == 0) ≡ false) (filesystem ∷ fss)
    → IsRegistry
        (record v { next = update (update v.next fs (v.next filesystem)) filesystem fs })
        (fs ∷ fss)
linked v fss fs i out nn a =
    let next1 = update v.next fs (v.next filesystem) in
    let next2 = update next1 filesystem fs in
    let ne : fs ≢ filesystem = ground (arith, out) in
    let out_tail : fs ∉ fss = ground (arith, out) in
    let at_fs : next2 fs ≡ v.next filesystem = ground (arith, ne) in
    let d = i.distinct in
    record {
      chain = (
        update_self next1 filesystem fs,
        subst (λ p. Chain next2 p fss 0) (sym at_fs)
            (Chain-update next1 filesystem fs (v.next filesystem) fss 0 d.0 (
              Chain-update v.next fs (v.next filesystem) (v.next filesystem) fss 0 out_tail
                i.chain)),
      );
      distinct = (ground (arith, ne, d.0), (out_tail, d.1));
      no_null = ground (arith, nn, i.no_null);
      names = (
        (λ e. name_ne (v.name fs) (v.name filesystem) a.0 (sym e), i.names.0),
        (
          All-map (λ x. (strcmp (v.name fs) (v.name x) == 0) ≡ false) (λ x. v.name fs ≢ v.name x)
              fss (λ x. name_ne (v.name fs) (v.name x)) a.1,
          i.names.1,
        ),
      );
    }

registered :
    (v : Vfs) (fss : List ℕ) (fs r : ℕ)
    → IsRegistry v fss
    → fs ∉ (filesystem ∷ fss)
    → fs ≢ 0
    → Stops (λ p. strcmp (v.name fs) (v.name p) == 0) (filesystem ∷ fss) r
    → Registers v fss fs (
        if r == 0
        then (1, record v { next = update (update v.next fs (v.next filesystem)) filesystem fs })
        else (0, v))
registered v fss fs r i out nn (inl (z, a)) =
    let e : (r == 0) ≡ true = ground (arith, z) in rw e (inr (refl, linked v fss fs i out nn a))
registered v fss fs r i out nn (inr (n, h, t)) =
    let e : (r == 0) ≡ false = ground (arith, n) in
    rw e (inl (refl, refl, (r, h, name_eq (v.name fs) (v.name r) t)))

pub registry-Chain :
    (v : Vfs) (fss : List ℕ) → IsRegistry v fss → Chain v.next filesystem (filesystem ∷ fss) 0
registry-Chain v fss i = (refl, i.chain)

pub no_null : (v : Vfs) (fss : List ℕ) → IsRegistry v fss → 0 ∉ (filesystem ∷ fss)
no_null v fss i = ground (arith, i.no_null)

-- `register_filesystem` of a node that is not in the list ends: when a registered file system has
-- the same name it gives 0 and changes nothing, else it gives 1 and puts the node into the list,
-- which keeps its order and its names different.
pub register_filesystem-Registers :
    (fuel : ℕ) (v : Vfs) (fss : List ℕ) (fs : ℕ)
    → IsRegistry v fss
    → fs ∉ (filesystem ∷ fss)
    → fs ≢ 0
    → length fss + 1 < fuel
    → Gives (Registers v fss fs) (register_filesystem fuel v fs)
unfolding register_filesystem
register_filesystem-Registers fuel v fss fs i out nn lt =
    let (r, e, s) =
      walk-Stops v (λ p. strcmp (v.name fs) (v.name p) == 0) fuel filesystem (filesystem ∷ fss)
        (registry-Chain v fss i) (no_null v fss i) (omega (arith, lt)) in
    rw (e, Gives, register_filesystem) (registered v fss fs r i out nn s)

last-ne_null : (p : ℕ) (xs ys : List ℕ) → p ≢ 0 → 0 ∉ (xs ++ ys) → (last p xs == 0) ≡ false
last-ne_null p [] ys n h = ground (arith, n)
last-ne_null p (x ∷ xs) ys n h = last-ne_null x xs ys (ground (arith, h)) (ground (arith, h))

unlinked :
    (v : Vfs) (xs ys : List ℕ) (fs : ℕ)
    → IsRegistry v (xs ++ (fs ∷ ys))
    → IsRegistry
        (record v {
          next =
              update
                (update v.next (last filesystem xs) (v.next (v.next (last filesystem xs))))
                fs
                0;
        })
        (xs ++ ys)
unlinked v xs ys fs i =
    let q = last filesystem xs in
    let next1 = update v.next q (v.next (v.next q)) in
    let root_ne : fs ≢ filesystem =
      λ e. ground (arith, e, middle_front fs (filesystem ∷ xs) ys i.distinct) in
    record {
      chain =
          subst (λ z. Chain (update next1 fs 0) z (xs ++ ys) 0)
            (sym (update_ne next1 fs filesystem 0 root_ne))
            (Chain-update next1 fs 0 (next1 filesystem) (xs ++ ys) 0
              (has-append_no fs xs ys (middle_front fs xs ys i.distinct.1)
                (Distinct-back xs (fs ∷ ys) i.distinct.1).0)
              (unlink-Chain v.next filesystem fs xs ys i.chain i.distinct));
      distinct = Distinct-drop fs (filesystem ∷ xs) ys i.distinct;
      no_null = drop_not_mem 0 fs xs ys i.no_null;
      names = NamesDiffer-drop v.name fs (filesystem ∷ xs) ys i.names;
    }

-- `unregister_filesystem` of a node in the list ends, gives 1, and takes exactly that node out.
pub unregister_filesystem-IsRegistry :
    (fuel : ℕ) (v : Vfs) (xs ys : List ℕ) (fs : ℕ)
    → IsRegistry v (xs ++ (fs ∷ ys))
    → length xs < fuel
    → Gives (λ (r, v'). (r ≡ 1) × IsRegistry v' (xs ++ ys)) (unregister_filesystem fuel v fs)
unfolding unregister_filesystem
unregister_filesystem-IsRegistry fuel v xs ys fs i lt =
    let found =
      find_before-last v fs fuel filesystem xs ys i.chain i.no_null
        (middle_front fs xs ys i.distinct.1) lt in
    let q = last filesystem xs in
    let nn : (q == 0) ≡ false = last-ne_null filesystem xs (fs ∷ ys) (omega arith) i.no_null in
    rw (found, Gives, unregister_filesystem, nn) (refl, unlinked v xs ys fs i)

-- `unregister_filesystem` of a node that is not in the list ends, gives 0, and changes nothing.
pub unregister_filesystem-absent :
    (fuel : ℕ) (v : Vfs) (fss : List ℕ) (fs : ℕ)
    → IsRegistry v fss
    → fs ∉ fss
    → length fss < fuel
    → unregister_filesystem fuel v fs ≡ some (0, v)
unfolding unregister_filesystem
unregister_filesystem-absent fuel v fss fs i out lt =
    rw (find_before-absent v fs fuel filesystem fss i.chain i.no_null out lt, unregister_filesystem)
