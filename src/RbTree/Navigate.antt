-- ===== src/RbTree/Navigate.antt =====
-- Walking from node to node (src/mulle--rbtree.h). A loop takes fuel and returns `none` when it runs
-- out.
pub mod Ends
pub mod Steps
pub mod Back
pub mod Walks
pub mod Count
use mulle_rbtree.Base.{
  ℕ, zero, suc, ◌+◌, ◌%◌, Bool, not, ◌&&◌, Option, none, some, ◌==◌, if◌then◌else◌, ◌>>=◌,
}
use mulle_rbtree.Storage.{Ptr, nil}
use mulle_rbtree.RbTree.{RbTree}

module _ {V S : Type 0} where
  unfoldable pub find_leftmost_node : ℕ → Ptr → RbTree V S → Option Ptr
  find_leftmost_node zero p s = none
  find_leftmost_node (suc fuel) p s =
      let rest = find_leftmost_node fuel (s.left p) s in
      if not (s.left p == nil) then rest else some p

  unfoldable pub find_rightmost_node : ℕ → Ptr → RbTree V S → Option Ptr
  find_rightmost_node zero p s = none
  find_rightmost_node (suc fuel) p s =
      let rest = find_rightmost_node fuel (s.right p) s in
      if not (s.right p == nil) then rest else some p

  -- up until we come from a left child
  unfoldable pub climb_right : ℕ → Ptr → RbTree V S → Option Ptr
  climb_right zero node s = none
  climb_right (suc fuel) node s =
      let parent = s.parent node in
      let rest = climb_right fuel parent s in
      if not (parent == nil) && (node == s.right parent) then rest else some parent

  -- up until we come from a right child
  unfoldable pub climb_left : ℕ → Ptr → RbTree V S → Option Ptr
  climb_left zero node s = none
  climb_left (suc fuel) node s =
      let parent = s.parent node in
      let rest = climb_left fuel parent s in
      if not (parent == nil) && (node == s.left parent) then rest else some parent

  unfoldable pub next_node : ℕ → Ptr → RbTree V S → Option Ptr
  next_node fuel node s =
      if not (s.right node == nil)
      then find_leftmost_node fuel (s.right node) s
      else climb_right fuel node s

  unfoldable pub previous_node : ℕ → Ptr → RbTree V S → Option Ptr
  previous_node fuel node s =
      if not (s.left node == nil)
      then find_rightmost_node fuel (s.left node) s
      else climb_left fuel node s

  -- The callback takes the node and the user's data, and says whether to go on.
  module _ {U : Type 0} (callback : Ptr → U → Bool × U) where
    unfoldable pub walk_loop : (climb fuel : ℕ) → Ptr → RbTree V S → U → Option U
    walk_loop climb zero node s u = none
    walk_loop climb (suc fuel) node s u =
        let called = callback node u in
        let rest = do next ← next_node climb node s; walk_loop climb fuel next s called.1
        in if node == nil then some u else if called.0 then rest else some called.1

    unfoldable pub walk : ℕ → RbTree V S → U → Option U
    unfolding walk_loop
    walk fuel s u = do first ← find_leftmost_node fuel s.root s; walk_loop fuel fuel first s u

    unfoldable pub walk_reverse_loop : (climb fuel : ℕ) → Ptr → RbTree V S → U → Option U
    walk_reverse_loop climb zero node s u = none
    walk_reverse_loop climb (suc fuel) node s u =
        let called = callback node u in
        let rest = do
          next ← previous_node climb node s
          walk_reverse_loop climb fuel next s called.1
        in if node == nil then some u else if called.0 then rest else some called.1

    unfoldable pub walk_reverse : ℕ → RbTree V S → U → Option U
    unfolding walk_reverse_loop
    walk_reverse fuel s u = do
      last ← find_rightmost_node fuel s.root s
      walk_reverse_loop fuel fuel last s u

  -- a `size_t` has 64 bits
  unfoldable pub walk_count : ℕ → Ptr → RbTree V S → Option ℕ
  walk_count zero p s = none
  walk_count (suc fuel) p s =
      let count = do
        l ← walk_count fuel (s.left p) s
        r ← walk_count fuel (s.right p) s
        some (((l + r) % 0x10000000000000000 + 1) % 0x10000000000000000)
      in if p == nil then some 0 else count

  unfoldable pub get_count : ℕ → RbTree V S → Option ℕ
  unfolding walk_count
  get_count fuel s = walk_count fuel s.root s
