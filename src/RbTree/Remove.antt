-- ===== src/RbTree/Remove.antt =====
-- `_mulle__rbtree_remove_node` (src/mulle--rbtree.c), a function for each of its passages.
pub mod Unlink
pub mod RedBlack
pub mod Finish
pub mod Whole
pub mod Successor
pub mod Marked
pub mod SpliceOut
pub mod Leftmost
pub mod Passages
pub mod Substitute
use mulle_rbtree.Base.{
  ℕ, Bool, true, false, not, ◌&&◌, ◌||◌, Option, some, ◌==◌, if◌then◌else◌, ◌>>=◌,
}
use mulle_rbtree.Storage.{Ptr, nil, Storage}
use mulle_rbtree.RbTree.{
  RbTree, has_option, use_dirty, set_root, set_parent, set_left, set_right, set_color,
  set_node_marked, mark_node_as_dirty, free_node,
}
use mulle_rbtree.RbTree.Navigate.{next_node}
use mulle_rbtree.RbTree.Fixup.{black_black_fixup}

module _ {V S : Type 0} where
  -- `y`: the node itself if a child is missing, and its successor otherwise
  unfoldable pub splice_node : ℕ → Ptr → RbTree V S → Option Ptr
  splice_node fuel a_node s =
      if (s.left a_node == nil) || (s.right a_node == nil)
      then some a_node
      else next_node fuel a_node s

  -- `x`: the child that moves up to the place of `y`
  unfoldable pub only_child : Ptr → RbTree V S → Ptr
  only_child y s = if not (s.left y == nil) then s.left y else s.right y

  -- `x` is linked to the parent of `y`
  unfoldable pub unlink : (y x : Ptr) → RbTree V S → RbTree V S
  unlink y x s =
      let s₁ = set_parent x (s.parent y) s in
      let s₂ = set_node_marked (s₁.parent x) s₁ in
      let s₃ =
        if s₂.parent y == nil
        then set_root x s₂
        else if y == s₂.left (s₂.parent y)
        then set_left (s₂.parent y) x s₂
        else set_right (s₂.parent y) x s₂ in
      set_node_marked (s₃.parent y) s₃

  -- the children of the removed node pass to `y`
  unfoldable pub adopt_children : (a_node y x orig_left orig_right : Ptr) → RbTree V S → RbTree V S
  adopt_children a_node y x orig_left orig_right s =
      let s₁ = set_left y orig_left (set_parent y (s.parent a_node) s) in
      if not (y == orig_right)
      then set_right y orig_right s₁
      else (let s₂ = set_parent x y s₁ in set_node_marked (s₂.parent x) s₂)

  -- the parent of the removed node gets `y` for a child
  unfoldable pub take_place : (a_node y : Ptr) → RbTree V S → RbTree V S
  take_place a_node y s =
      if not (s.parent y == nil)
      then (let t =
            if s.left (s.parent y) == a_node
            then set_left (s.parent y) y s
            else set_right (s.parent y) y s in
          set_node_marked (t.parent y) t)
      else set_root y s

  -- the new children of `y` get it for a parent
  unfoldable pub reparent_children : (y : Ptr) → RbTree V S → RbTree V S
  reparent_children y s =
      let s₁ = set_parent (s.right y) y s in
      let s₂ = set_parent (s₁.left y) y s₁ in
      set_node_marked (s₂.left y) (set_node_marked (s₂.right y) s₂)

  -- `y` takes the place, the children and the colour of the removed node
  unfoldable pub substitute : (a_node y x orig_left orig_right : Ptr) → RbTree V S → RbTree V S
  unfolding adopt_children take_place reparent_children
  substitute a_node y x orig_left orig_right s =
      let s₁ = adopt_children a_node y x orig_left orig_right s in
      let s₂ = set_color y (s₁.red a_node) s₁ in reparent_children y (take_place a_node y s₂)

  abbrev pub when : Bool → (RbTree V S → RbTree V S) → RbTree V S → RbTree V S
  when true f s = f s
  when false f s = s

  -- the branches that the removal changed become dirty
  unfoldable pub mark_removed : ℕ → (a_node y x y_original_parent : Ptr) → RbTree V S → RbTree V S
  mark_removed fuel a_node y x y_original_parent s =
      let s₁ = when (not (s.parent a_node == nil)) (mark_node_as_dirty fuel (s.parent a_node)) s in
      let s₂ = when (not (y == a_node) && not (y == nil)) (mark_node_as_dirty fuel y) s₁ in
      let s₃ =
        when (not (y == a_node) && (x == nil) && not (y_original_parent == nil))
          (mark_node_as_dirty fuel y_original_parent) s₂ in
      when (not (x == nil)) (mark_node_as_dirty fuel x) s₃

  -- from the choice of `y` to the dirty flags: `x` and the tree
  unfoldable pub splice_out : ℕ → (a_node y : Ptr) → RbTree V S → Ptr × RbTree V S
  unfolding only_child unlink substitute mark_removed
  splice_out fuel a_node y s =
      let orig_left = s.left a_node in
      let orig_right = s.right a_node in
      let s₁ = when (not (y == a_node)) (set_node_marked y) s in
      let y_original_parent = if y == a_node then nil else s₁.parent y in
      let x = only_child y s₁ in
      let s₂ = unlink y x (set_node_marked x s₁) in
      let s₃ = when (not (y == a_node)) (substitute a_node y x orig_left orig_right) s₂ in
      (x, when (has_option use_dirty s₃) (mark_removed fuel a_node y x y_original_parent) s₃)

  unfoldable pub remove_node : Storage V S → ℕ → Ptr → RbTree V S → Option (RbTree V S)
  unfolding splice_node splice_out
  remove_node storage fuel a_node s =
      let s₁ = set_node_marked a_node s in
      let s₂ = set_node_marked (s.right a_node) (set_node_marked (s.left a_node) s₁) in
      do
        y ← splice_node fuel a_node s₂
        let fixup = not (s₂.red y)
        let (x, s₃) = splice_out fuel a_node y s₂
        let s₄ = free_node storage a_node s₃
        if fixup then black_black_fixup fuel x s₄ else some s₄
