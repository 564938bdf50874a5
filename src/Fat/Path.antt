-- ===== src/Fat/Path.antt =====
-- `path_walk` of os/kernel/fat32.c. A name is its bytes before the 0; `inode_ops->lookup`, which the
-- code calls through a pointer, is a parameter. An entry of the tree is known by its parent, its
-- name and its node.
pub mod Parts
pub mod Walk
use Prim.Native.Nat.{bit_and}
use kalinote_os.Base.{
  ℕ, zero, suc, Bool, true, false, not, List, [], ◌∷◌, Option, none, some, ◌==◌, if◌then◌else◌,
}

abbrev pub slash : ℕ
slash = 47

-- `while(*name == '/') name++;`
pub skip_slashes : List ℕ → List ℕ
skip_slashes [] = []
skip_slashes (c ∷ cs) = if c == slash then skip_slashes cs else c ∷ cs

-- The bytes that `while(*name && (*name != '/')) name++;` passes, and where it ends.
pub component : List ℕ → List ℕ
component [] = []
component (c ∷ cs) = if c == slash then [] else c ∷ component cs

pub after_component : List ℕ → List ℕ
after_component [] = []
after_component (c ∷ cs) = if c == slash then c ∷ cs else after_component cs

-- `struct dir_entry`.
pub data Dentry (Node : Type 0) : Type 0 where
  at_root : Node → Dentry Node
  below : Dentry Node → List ℕ → Node → Dentry Node

pub node_of : {Node : Type 0} → Dentry Node → Node
node_of (at_root i) = i
node_of (below parent name i) = i

-- What `path_walk` returns, and the entries that it puts in the lists `subdirs_list`, in this order.
pub record Trail (Node : Type 0) : Type 0 where
  pub result : Option (Dentry Node)
  pub attached : List (Dentry Node)

abbrev pub attach : {Node : Type 0} → Dentry Node → Option (Trail Node) → Option (Trail Node)
attach path none = none
attach path (some w) = some (record { result = w.result; attached = path ∷ w.attached })

module _ {Node : Type 0} (lookup : Node → List ℕ → Option Node) (flags : ℕ) where
  -- The `for`, for `rounds` names at most.
  pub walk_from : (rounds : ℕ) → Dentry Node → (name : List ℕ) → Option (Trail Node)
  walk_from zero parent name = none
  walk_from (suc rounds) parent name =
      elim (lookup (node_of parent) (component name)) as (λ x. Option (Trail Node)) [
        | none ↦ some (record { result = none; attached = [] })
        | some i ↦
            let path = below parent (component name) i in
            attach path (elim (skip_slashes (after_component name)) as (λ x. Option (Trail Node)) [
              | [] ↦ some (record {
                result = some (if bit_and flags 1 == 0 then path else parent);
                attached = [];
              })
              | c ∷ cs ↦ walk_from rounds path (c ∷ cs)
            ])
      ]

  pub path_walk : (rounds : ℕ) → (root : Dentry Node) → (name : List ℕ) → Option (Trail Node)
  path_walk rounds root name = elim (skip_slashes name) as (λ x. Option (Trail Node)) [
    | [] ↦ some (record { result = some root; attached = [] })
    | c ∷ cs ↦ walk_from rounds root (c ∷ cs)
  ]
