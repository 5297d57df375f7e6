-- ===== src/Links.antt =====
-- lists.h, the linked lists of the program: `struct list_head` in a store, and the functions over it.
-- An address is a number, and NULL is 0.
pub mod Ring
pub mod Rotate
pub mod Cut
pub mod Move
pub mod Front
mod Tests
use opencli.Base.{ℕ, Bool, ◌==◌, if◌then◌else◌}

-- The members of every `struct list_head`.
pub record Store : Type 0 where
  pub next : ℕ → ℕ
  pub prev : ℕ → ℕ

-- A member, written at the address `a`.
abbrev pub put : (ℕ → ℕ) → ℕ → ℕ → ℕ → ℕ
put f a v k = if k == a then v else f k

-- `INIT_LIST_HEAD`
unfoldable pub init_list_head : Store → ℕ → Store
init_list_head s ptr = record { next = put s.next ptr ptr; prev = put s.prev ptr ptr }

-- `list_del`. Its second line reads `nodePtr->prev` behind the first, which writes it only where it
-- does not change.
unfoldable pub list_del : Store → ℕ → Store
list_del s node = record {
  next = put (put s.next (s.prev node) (s.next node)) node 0;
  prev = put (put s.prev (s.next node) (s.prev node)) node 0;
}

unfoldable pub list_empty : Store → ℕ → Bool
list_empty s list = s.next list == list

-- `__list_add`
unfoldable pub list_add_between : Store → ℕ → ℕ → ℕ → Store
list_add_between s node prev next = record {
  next = put (put s.next node next) prev node;
  prev = put (put s.prev next node) node prev;
}

unfoldable pub list_add_tail : Store → ℕ → ℕ → Store
list_add_tail s node list = list_add_between s node (s.prev list) list

unfoldable pub list_add : Store → ℕ → ℕ → Store
list_add s node list = list_add_between s node list (s.next list)

unfoldable pub move_to_tail : Store → ℕ → ℕ → Store
move_to_tail s node list = list_add_tail (list_del s node) node list
