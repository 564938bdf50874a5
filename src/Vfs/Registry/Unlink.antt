-- ===== src/Vfs/Registry/Unlink.antt =====
-- Taking a node out of the list of file systems of os/kernel/VFS.c.
use mathlib.Core.Path.{subst}
use kalinote_os.Base.{
  ℕ, ◌≡◌, ◌≢◌, List, [], ◌∷◌, ◌++◌, sym, ap, ◌∙◌, arith, true, All, has, ◌∉◌, Distinct, update,
  update_self, update_ne,
}
use kalinote_os.Chain.{Chain, Chain-update}
use kalinote_os.Distinct.{not_mem_front}
use kalinote_os.Vfs.Walk.{last}

-- No two of the file systems have the same name.
abbrev pub NamesDiffer : (ℕ → List ℕ) → List ℕ → Type 0
NamesDiffer name [] = Unit
NamesDiffer name (x ∷ xs) = All (λ y. name x ≢ name y) xs × NamesDiffer name xs

All-drop : (P : ℕ → Type 0) (x : ℕ) (xs ys : List ℕ) → All P (xs ++ (x ∷ ys)) → All P (xs ++ ys)
All-drop P x [] ys a = a.1
All-drop P x (z ∷ xs) ys a = (a.0, All-drop P x xs ys a.1)

pub NamesDiffer-drop :
    (name : ℕ → List ℕ) (x : ℕ) (xs ys : List ℕ)
    → NamesDiffer name (xs ++ (x ∷ ys))
    → NamesDiffer name (xs ++ ys)
NamesDiffer-drop name x [] ys n = n.1
NamesDiffer-drop name x (z ∷ xs) ys n =
    (All-drop (λ y. name z ≢ name y) x xs ys n.0, NamesDiffer-drop name x xs ys n.1)

has-last : (p : ℕ) (xs : List ℕ) → has (last p xs) (p ∷ xs) ≡ true
has-last p [] = ground arith
has-last p (x ∷ xs) = ground (arith, has-last x xs)

ne_of_mem : (p q : ℕ) (xs : List ℕ) → p ∉ xs → has q xs ≡ true → q ≢ p
ne_of_mem p q xs out h e = ground (arith, out, subst (λ z. has z xs ≡ true) e h)

-- The node `fs` is skipped by the one in front of it, the last of `p` and `xs`.
pub unlink-Chain :
    (next : ℕ → ℕ) (p fs : ℕ) (xs ys : List ℕ)
    → Chain next (next p) (xs ++ (fs ∷ ys)) 0
    → Distinct (p ∷ (xs ++ (fs ∷ ys)))
    → Chain
        (update next (last p xs) (next (next (last p xs))))
        (update next (last p xs) (next (next (last p xs))) p)
        (xs ++ ys)
        0
unlink-Chain next p fs [] ys c d =
    let out : p ∉ ys = ground (arith, d.0) in
    let start : update next p (next (next p)) p ≡ next fs =
      update_self next p (next (next p)) ∙ ap next c.0 in
    subst (λ z. Chain (update next p (next (next p))) z ys 0) (sym start)
      (Chain-update next p (next (next p)) (next fs) ys 0 out c.1)
unlink-Chain next p fs (x ∷ xs) ys c d =
    let q = last x xs in
    let out : p ∉ (x ∷ xs) = not_mem_front p (x ∷ xs) (fs ∷ ys) d.0 in
    (
      update_ne next q p (next (next q)) (ne_of_mem p q (x ∷ xs) out (has-last x xs)) ∙ c.0,
      unlink-Chain next x fs xs ys c.1 d.1,
    )
