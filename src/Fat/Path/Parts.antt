-- ===== src/Fat/Path/Parts.antt =====
-- The names in a path, for `path_walk` of os/kernel/fat32.c.
use kalinote_os.Base.{
  ℕ, ◌≤◌, ◌<◌, ◌≡◌, inl, inr, Bool, true, false, not, List, [], ◌∷◌, arith, refl, ap, ◌==◌,
  if◌then◌else◌, Bool-cases, length,
}
use kalinote_os.Fat.Path.{slash, skip_slashes, component, after_component}

-- The names in a path: the longest pieces without a slash.
abbrev pub starts_part : List ℕ → Bool
starts_part [] = false
starts_part (c ∷ cs) = not (c == slash)

abbrev pub prepend : ℕ → List (List ℕ) → List (List ℕ)
prepend c [] = (c ∷ []) ∷ []
prepend c (p ∷ ps) = (c ∷ p) ∷ ps

unfoldable pub parts : List ℕ → List (List ℕ)
parts [] = []
parts (c ∷ cs) =
    if c == slash
    then parts cs
    else if starts_part cs
    then prepend c (parts cs)
    else (c ∷ []) ∷ parts cs

pub parts-skip_slashes : (name : List ℕ) → parts (skip_slashes name) ≡ parts name
unfolding parts skip_slashes
parts-skip_slashes [] = refl
parts-skip_slashes (c ∷ cs) = elim (Bool-cases (c == slash)) [
  | inl e ↦ rw (skip_slashes, parts, e) (parts-skip_slashes cs)
  | inr e ↦ let same : skip_slashes (c ∷ cs) ≡ c ∷ cs = rw (skip_slashes, e) refl in ap parts same
]

component-stops : (name : List ℕ) → starts_part name ≡ false → component name ≡ []
unfolding component
component-stops [] e = refl
component-stops (c ∷ cs) e =
    let is_slash : (c == slash) ≡ true = ground (arith, e) in rw (component, is_slash) refl

after_component-stops : (name : List ℕ) → starts_part name ≡ false → after_component name ≡ name
unfolding after_component
after_component-stops [] e = refl
after_component-stops (c ∷ cs) e =
    let is_slash : (c == slash) ≡ true = ground (arith, e) in rw (after_component, is_slash) refl

-- The first name is what the code copies, and the others are those of what is left.
pub parts-component :
    (name : List ℕ)
    → starts_part name ≡ true
    → parts name ≡ component name ∷ parts (after_component name)
unfolding parts component after_component
parts-component [] e = absurd (ground (arith, e))
parts-component (c ∷ cs) e =
    let no : (c == slash) ≡ false = ground (arith, e) in
    rw (parts, component, after_component, no)
      (elim (Bool-cases (starts_part cs)) [
        | inl g ↦ rw g (ap (prepend c) (parts-component cs g))
        | inr g ↦ rw (g, component-stops cs g, after_component-stops cs g) refl
      ])

pub skip_slashes-length : (name : List ℕ) → length (skip_slashes name) ≤ length name
unfolding skip_slashes
skip_slashes-length [] = omega arith
skip_slashes-length (c ∷ cs) = elim (Bool-cases (c == slash)) [
  | inl e ↦ rw (skip_slashes, e) (omega (arith, skip_slashes-length cs))
  | inr e ↦ rw (skip_slashes, e) (omega arith)
]

after_component-length : (name : List ℕ) → length (after_component name) ≤ length name
unfolding after_component
after_component-length [] = omega arith
after_component-length (c ∷ cs) = elim (Bool-cases (c == slash)) [
  | inl e ↦ rw (after_component, e) (omega arith)
  | inr e ↦ rw (after_component, e) (omega (arith, after_component-length cs))
]

-- After the slashes there is a name or nothing.
abbrev pub Starts : List ℕ → Type 0
Starts [] = Unit
Starts (c ∷ cs) = starts_part (c ∷ cs) ≡ true

pub skip_slashes-Starts : (name : List ℕ) → Starts (skip_slashes name)
unfolding skip_slashes
skip_slashes-Starts [] = tt
skip_slashes-Starts (c ∷ cs) = elim (Bool-cases (c == slash)) [
  | inl e ↦ rw (Starts, skip_slashes, e) (skip_slashes-Starts cs)
  | inr e ↦ rw (Starts, skip_slashes, e) (rw e refl)
]

-- What is left after a name is shorter.
pub rest-length :
    (name : List ℕ)
    → starts_part name ≡ true
    → length (skip_slashes (after_component name)) < length name
unfolding after_component
rest-length [] e = absurd (ground (arith, e))
rest-length (c ∷ cs) e =
    let no : (c == slash) ≡ false = ground (arith, e) in
    rw (after_component, no)
      (omega (arith, skip_slashes-length (after_component cs), after_component-length cs))
