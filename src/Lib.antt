-- ===== src/Lib.antt =====
-- Verification of mulle-rbtree: a red-black tree with parent pointers and its container of values.
--
-- The program has two layers. `struct mulle__rbtree` (src/mulle--rbtree.h, src/mulle--rbtree.c) links,
-- balances, searches and walks nodes that the caller asks it for. `struct mulle_rbtree`
-- (src/mulle-rbtree.h, src/mulle-rbtree.c) owns its nodes: it retains a value, inserts a node for it,
-- releases it, and reports changed nodes to a callback.
--
-- How the files correspond to the code:
-- - Color models the `_color` word of a node with its bit operations; Color/Flags compares the word with three
-- independent flags. All other files have one map for each flag.
-- - Storage names the operations of the node pool (mulle-container) and memcpy, which are parameters.
-- - RbTree holds the tree record with one map for each field of a node, the options, the small
-- functions on nodes, initialisation, and the marking of dirty nodes. A node is an address, and the
-- address 0 is the tree's own nil node, whose parent field the code writes during a removal.
-- - RbTree/Rotate: mulle_rb_node_set_left, mulle_rb_node_set_right, mulle_rb_node_reparent and the
-- rotations. LeftOnto, RightOnto, Left and Right say what each field is afterwards; LeftTurn and RightTurn
-- say it of the tree.
-- - RbTree/Fixup: the two loops that restore the balance. Tests, Strained, Quiet, Turns and RedRed carry
-- the proof for the loop after an insertion; Short, Siblings, Pulls, Rounds, Steps and BlackBlack the one
-- for the loop after a removal, and Blacken is about the end of both.
-- - RbTree/Navigate: the first, last, next and previous node, the walks and the count.
-- - RbTree/Init and RbTree/Value: initialisation, the value of a node, read as the options say, and what a
-- node keeps of a value.
-- - RbTree/Find: the searches, over the orders of Order and the depth of Shape/Depth. RbTree/Insert: the three ways to insert.
-- - RbTree/Remove: the removal, a function for each passage of `_mulle__rbtree_remove_node`. Unlink takes a
-- node with at most one child out; Leftmost, Passages, Substitute and Successor put the successor in the
-- place of a node with two children; Marked, RedBlack, SpliceOut, Finish and Whole put this together.
-- - RbTree/Dirty: the walk that reports and cleans the dirty nodes; Mark and Settled are about the marking,
-- and Report is about the walk where the marking does not hold.
-- - RbTree/Marks, Reparent, Rest and Recolor: what the writes leave as it is.
-- - Map: the tree of values, with the caller's functions as a parameter. Fresh, Prepared and Freed are about
-- a node that the pool hands out and takes back; Unreported, Add, Absent, Remove, Values, Enumerate and
-- Done are about the operations, adding and removing in a tree without dirty flags, and Reports, AddTold
-- and Told are about trees with them.
-- - Map/Model says what a tree of values promises: a list of values, and a step for each call. Holds relates a
-- tree to its list; Adds, Deletes and Reads show that each call is a step, Session that any sequence of calls
-- is, and Roundtrip follows from the steps alone. Start has the defaults of the initialisation, and Null the
-- variants of the functions that accept a NULL tree. Storage also names what the pool promises.
-- - Order: what a comparison function promises, and sorted lists. Sides: two elements of the same list.
-- - Shape: the binary tree that the links stand for, a place in it (a context), the relation `At` between
-- a store and a shape at a place, and the red-black conditions. Append continues one way up by another,
-- and Locate finds the place of a node in the order.
-- - Examples: small trees, on which the theorems are applied.
--
-- Loops take fuel, and a loop that returns a value is `none` when its fuel runs out; each theorem on a
-- loop states the fuel that it needs. The climb of `mark_node_as_dirty` returns the store it has reached.
--
-- A `struct mulle_rbnode` is taken to have 40 bytes with its payload at 32, as on a 64-bit machine, and
-- `size_t` to have 64 bits. The memory from the payload field of a node on has two readings, as a pointer
-- and in place, and the options of a tree say which one it uses. A value is what a callback or a
-- comparison finds at the pointer that it is given: in a tree with extra bytes the code passes an address
-- inside the node, and the value is the bytes there. Such a callback is taken not to write to the node.
-- What memcpy keeps of a value, when an element has room for less than the whole, is a parameter.
-- The sign of the result of a comparison is all that the code reads of it.
--
-- Not modelled: assertions, allocators, the memory of the node pool, a dirty callback that writes into the
-- extra bytes of a node, and the computation of a node's address from that of its extra bytes.
pub mod Base
pub mod Color
pub mod Storage
pub mod RbTree
pub mod Map
pub mod Order
pub mod Sides
pub mod Shape
pub mod Examples
