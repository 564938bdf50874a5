-- ===== src/Links.antt =====
-- os/include/lib.h: `struct List`, the circular doubly linked lists of the kernel. Nodes are
-- addresses; the two pointers of each are memory.
pub mod Ring
pub mod Ops
pub mod Laws
mod Tests
use kalinote_os.Base.{ℕ, Bool, ◌&&◌, ◌==◌, if◌then◌else◌, update}

pub record Links : Type 0 where
  pub prev : ℕ → ℕ
  pub next : ℕ → ℕ

-- `p->next = v` and `p->prev = v`
abbrev pub set_next : Links → ℕ → ℕ → Links
set_next l p v = record l { next = update l.next p v }

abbrev pub set_prev : Links → ℕ → ℕ → Links
set_prev l p v = record l { prev = update l.prev p v }

unfoldable pub list_init : Links → ℕ → Links
list_init l list = set_next (set_prev l list list) list list

pub list_add_to_behind : Links → ℕ → ℕ → Links
list_add_to_behind l entry new =
    let l = set_next l new (l.next entry) in
    let l = set_prev l new entry in let l = set_prev l (l.next new) new in set_next l entry new

pub list_add_to_before : Links → ℕ → ℕ → Links
list_add_to_before l entry new =
    let l = set_next l new entry in
    let l = set_next l (l.prev entry) new in
    let l = set_prev l new (l.prev entry) in set_prev l entry new

pub list_del : Links → ℕ → Links
list_del l entry =
    let l = set_prev l (l.next entry) (l.prev entry) in set_next l (l.prev entry) (l.next entry)

pub list_is_empty : Links → ℕ → Bool
list_is_empty l entry = (entry == l.next entry) && (l.prev entry == entry)

-- A NULL pointer is `0`, and is what both return for it.
pub list_prev : Links → ℕ → ℕ
list_prev l entry = if l.prev entry == 0 then 0 else l.prev entry

pub list_next : Links → ℕ → ℕ
list_next l entry = if l.next entry == 0 then 0 else l.next entry
