-- ===== src/Dplist.antt =====
-- Project/lib/dplist.c: a doubly linked list of pointers to elements that the caller's three
-- callbacks copy, free and compare. The file as it stands does not compile; the spellings that no
-- declaration matches are read as the declared name that is meant: `dplist_note_t` as
-- `dplist_node_t`, `element_commpare` as `element_compare`, and in `dpl_remove_at_index` the
-- counter `id` as `pos`. Everything else is translated as written, assignments in conditions and
-- comparisons in place of assignments included. A `struct dplist` lives outside the heap of its
-- nodes; a pointer to one is an option, none for NULL. A function that changes one returns it.
pub mod AtIndex
pub mod Chain
pub mod Defs
pub mod Front
pub mod Insert
pub mod InsertAt
pub mod Order
pub mod Read
pub mod Relink
pub mod Remove
pub mod Slot
pub mod Sorted
mod Tests
pub mod Update
