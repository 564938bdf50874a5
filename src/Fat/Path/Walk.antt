-- ===== src/Fat/Path/Walk.antt =====
-- `path_walk` of os/kernel/fat32.c against a description of a path by its names.
use Prim.Native.Nat.{bit_and}
use mathlib.Core.Path.{subst}
use kalinote_os.Base.{
  ℕ, zero, suc, ◌≤◌, ◌≡◌, inl, inr, true, List, [], ◌∷◌, Option, none, some, arith, refl, sym, ap,
  ◌∙◌, ◌==◌, if◌then◌else◌, Bool-cases, length,
}
use kalinote_os.Fat.Path.{
  skip_slashes, component, after_component, Dentry, at_root, below, node_of, Trail, attach,
  walk_from, path_walk,
}
use kalinote_os.Fat.Path.Parts.{
  starts_part, parts, Starts, parts-skip_slashes, parts-component, skip_slashes-length,
  skip_slashes-Starts, rest-length,
}

-- `root->parent` is the root.
abbrev pub parent_of : {Node : Type 0} → Dentry Node → Dentry Node
parent_of (at_root i) = at_root i
parent_of (below parent name i) = parent

module _ {Node : Type 0} (lookup : Node → List ℕ → Option Node) (flags : ℕ) where
  -- From an entry on down by the names, and all entries on the way as far as they are found.
  abbrev pub descend : Dentry Node → List (List ℕ) → Option (Dentry Node)
  descend d [] = some d
  descend d (p ∷ ps) = elim (lookup (node_of d) p) [
    | none ↦ none
    | some i ↦ descend (below d p i) ps
  ]

  abbrev pub reached : Dentry Node → List (List ℕ) → List (Dentry Node)
  reached d [] = []
  reached d (p ∷ ps) = elim (lookup (node_of d) p) [
    | none ↦ []
    | some i ↦ below d p i ∷ reached (below d p i) ps
  ]

  abbrev pub chosen : Option (Dentry Node) → Option (Dentry Node)
  chosen none = none
  chosen (some d) = some (if bit_and flags 1 == 0 then d else parent_of d)

  abbrev pub described : Dentry Node → List (List ℕ) → Trail Node
  described d ps = record { result = chosen (descend d ps); attached = reached d ps }

  walk_from-described :
      (rounds : ℕ) (parent : Dentry Node) (name : List ℕ)
      → starts_part name ≡ true
      → length name ≤ rounds
      → walk_from lookup flags rounds parent name ≡ some (described parent (parts name))
  unfolding walk_from parts
  walk_from-described zero parent [] e room = absurd (ground (arith, e))
  walk_from-described zero parent (c ∷ cs) e room = absurd (omega (arith, room))
  walk_from-described (suc rounds) parent name e room =
      subst (λ ps. walk_from lookup flags (suc rounds) parent name ≡ some (described parent ps))
        (sym (parts-component name e))
        (go (λ path c cs start shorter. walk_from-described rounds path (c ∷ cs) start shorter)
          (lookup (node_of parent) (component name)))
    where
      tail :
          (next : (path : Dentry Node) (c : ℕ) (cs : List ℕ)
            → starts_part (c ∷ cs) ≡ true
            → length (c ∷ cs) ≤ rounds
            → walk_from lookup flags rounds path (c ∷ cs) ≡ some (described path (parts (c ∷ cs))))
          (i : Node) (left : List ℕ)
          → Starts left
          → length left ≤ rounds
          → attach (below parent (component name) i) (elim left as (λ x. Option (Trail Node)) [
            | [] ↦ some (record {
              result =
                  some (if bit_and flags 1 == 0 then below parent (component name) i else parent);
              attached = [];
            })
            | c ∷ cs ↦ walk_from lookup flags rounds (below parent (component name) i) (c ∷ cs)
          ])
            ≡ some (record {
              result = chosen (descend (below parent (component name) i) (parts left));
              attached =
                  below parent (component name) i
                  ∷ reached (below parent (component name) i) (parts left);
            })
      tail next i [] start short = refl
      tail next i (c ∷ cs) start short =
          ap (attach (below parent (component name) i))
            (next (below parent (component name) i) c cs start short)

      go :
          (next : (path : Dentry Node) (c : ℕ) (cs : List ℕ)
            → starts_part (c ∷ cs) ≡ true
            → length (c ∷ cs) ≤ rounds
            → walk_from lookup flags rounds path (c ∷ cs) ≡ some (described path (parts (c ∷ cs))))
          (o : Option Node)
          → (elim o as (λ x. Option (Trail Node)) [
            | none ↦ some (record { result = none; attached = [] })
            | some i ↦
                attach
                  (below parent (component name) i)
                  (elim (skip_slashes (after_component name)) as (λ x. Option (Trail Node)) [
                    | [] ↦ some (record {
                      result = some (
                          if bit_and flags 1 == 0 then below parent (component name) i else parent);
                      attached = [];
                    })
                    | c ∷ cs ↦
                        walk_from lookup flags rounds (below parent (component name) i) (c ∷ cs)
                  ])
          ])
            ≡ some (record {
              result = chosen (elim o [
                | none ↦ none
                | some i ↦ descend (below parent (component name) i) (parts (after_component name))
              ]);
              attached = elim o [
                | none ↦ []
                | some i ↦
                    below parent (component name) i
                    ∷ reached (below parent (component name) i) (parts (after_component name))
              ];
            })
      go next none = refl
      go next (some i) =
          tail next i (skip_slashes (after_component name))
            (skip_slashes-Starts (after_component name)) (omega (arith, room, rest-length name e))
          ∙ ap
              (λ ps. some (record {
                result = chosen (descend (below parent (component name) i) ps);
                attached =
                    below parent (component name) i ∷ reached (below parent (component name) i) ps;
              }))
              (parts-skip_slashes (after_component name))

  -- With as many rounds as the path has bytes `path_walk` comes to an end. It goes down from the root
  -- by the names between the slashes, however many of these there are, and links every entry that
  -- it finds to its parent, in this order; it returns the last one, or its parent if the lowest bit
  -- of the flags is set, and NULL if a name is not found.
  pub path_walk-described :
      (rounds : ℕ) (root : Node) (name : List ℕ)
      → length name ≤ rounds
      → path_walk lookup flags rounds (at_root root) name
        ≡ some (described (at_root root) (parts name))
  unfolding path_walk parts
  path_walk-described rounds root name room =
      go (skip_slashes name) (skip_slashes-Starts name)
        (omega (arith, room, skip_slashes-length name))
      ∙ ap (λ ps. some (described (at_root root) ps)) (parts-skip_slashes name)
    where
      go :
          (left : List ℕ)
          → Starts left
          → length left ≤ rounds
          → (elim left as (λ x. Option (Trail Node)) [
            | [] ↦ some (record { result = some (at_root root); attached = [] })
            | c ∷ cs ↦ walk_from lookup flags rounds (at_root root) (c ∷ cs)
          ])
            ≡ some (described (at_root root) (parts left))
      go [] start short = elim (Bool-cases (bit_and flags 1 == 0)) [
        | inl e ↦ rw (chosen, descend, e) refl
        | inr e ↦ rw (chosen, descend, e) refl
      ]
      go (c ∷ cs) start short = walk_from-described rounds (at_root root) (c ∷ cs) start short
