-- ===== src/RbTree/Rotate.antt =====
-- The rotations of src/mulle--rbtree.c and the helpers that they call. The assertions are left out:
-- they are compiled away under NDEBUG.
pub mod LeftOnto
pub mod Left
pub mod RightOnto
pub mod Right
pub mod LeftTurn
pub mod RightTurn
use mulle_rbtree.Base.{ℕ, ◌==◌, if◌then◌else◌}
use mulle_rbtree.Storage.{Ptr, nil}
use mulle_rbtree.RbTree.{
  RbTree, has_option, use_dirty, set_root, set_parent, set_left, set_right, set_node_marked,
  mark_node_as_dirty,
}

module _ {V S : Type 0} where
  -- `mulle_rb_node_set_left`
  unfoldable pub node_set_left : Ptr → Ptr → RbTree V S → RbTree V S
  node_set_left p o s = set_left p o (if o == nil then s else set_parent o p s)

  -- `mulle_rb_node_set_right`
  unfoldable pub node_set_right : Ptr → Ptr → RbTree V S → RbTree V S
  node_set_right p o s = set_right p o (if o == nil then s else set_parent o p s)

  -- the write of `t` into the link that led to `p`
  unfoldable pub replace_child : Ptr → Ptr → RbTree V S → RbTree V S
  replace_child p t s =
      if p == s.right (s.parent p) then set_right (s.parent p) t s else set_left (s.parent p) t s

  -- `t` is reached from where `p` was: from the root, or from the parent of `p`
  unfoldable pub relink : Ptr → Ptr → RbTree V S → RbTree V S
  relink p t s =
      if s.parent p == nil
      then set_root t s
      else let s₁ = replace_child p t s in set_node_marked (s₁.parent p) s₁

  -- `mulle_rb_node_reparent`: `t` takes the place of `p` under the parent of `p`
  unfoldable pub node_reparent : Ptr → Ptr → RbTree V S → RbTree V S
  node_reparent p t s = relink p t (set_node_marked t (set_parent t (s.parent p) s))

  -- what both rotations end with
  unfoldable pub mark_rotated : ℕ → Ptr → RbTree V S → RbTree V S
  mark_rotated fuel p s =
      let s₁ = set_node_marked (s.parent p) s in
      if has_option use_dirty s₁ then mark_node_as_dirty fuel p s₁ else s₁

  -- `m` is the subtree between the two nodes, `t->_left`
  unfoldable pub left_rotate_onto : ℕ → (p t m : Ptr) → RbTree V S → RbTree V S
  left_rotate_onto fuel p t m s =
      let s₁ = node_set_right p m s in
      let s₂ = node_reparent p t (set_node_marked (s₁.left t) s₁) in
      mark_rotated fuel p (set_parent p t (set_left t p s₂))

  unfoldable pub left_rotate_node : ℕ → Ptr → RbTree V S → RbTree V S
  left_rotate_node fuel p s =
      let s₁ = set_node_marked p s in
      let t = s₁.right p in
      let s₂ = set_node_marked t s₁ in left_rotate_onto fuel p t (s₂.left t) s₂

  -- `m` is `t->_right`
  unfoldable pub right_rotate_onto : ℕ → (p t m : Ptr) → RbTree V S → RbTree V S
  right_rotate_onto fuel p t m s =
      let s₁ = node_set_left p m s in
      let s₂ = node_reparent p t (set_node_marked (s₁.right t) s₁) in
      mark_rotated fuel p (set_parent p t (set_right t p s₂))

  unfoldable pub right_rotate_node : ℕ → Ptr → RbTree V S → RbTree V S
  right_rotate_node fuel p s =
      let s₁ = set_node_marked p s in
      let t = s₁.left p in
      let s₂ = set_node_marked t s₁ in right_rotate_onto fuel p t (s₂.right t) s₂
