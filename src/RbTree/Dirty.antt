-- ===== src/RbTree/Dirty.antt =====
-- The walk over the dirty nodes (src/mulle--rbtree.h, src/mulle--rbtree.c). A dirty node stands
-- below dirty nodes only, so the walk need not look below a clean one.
pub mod Settled
pub mod Mark
pub mod Walk
pub mod Report
use mulle_rbtree.Base.{ℕ, zero, suc, not, Option, none, some, ◌==◌, if◌then◌else◌, ◌>>=◌}
use mulle_rbtree.Storage.{Ptr, nil}
use mulle_rbtree.RbTree.{RbTree, clear_dirty, get_node_value}

module _ {V S U : Type 0} (callback : Option V → Option V → Option V → U → U) where
  -- The callback takes the values of the node, of its left and of its right child; what it does is
  -- a change of `U`, so one that writes into the extra bytes of the nodes is not modelled.
  unfoldable pub walk_dirty_from : ℕ → Ptr → RbTree V S × U → Option (RbTree V S × U)
  walk_dirty_from zero p (s, u) = none
  walk_dirty_from (suc fuel) p (s, u) =
      let lower = walk_dirty_from fuel (s.left p) (s, u) in
      let rest = do
        (s₁, u₁) ← if not (s.left p == nil) then lower else some (s, u)
        let upper = walk_dirty_from fuel (s₁.right p) (s₁, u₁)
        (s₂, u₂) ← if not (s₁.right p == nil) then upper else some (s₁, u₁)
        let value = get_node_value p s₂
        let left_value = get_node_value (s₂.left p) s₂
        let right_value = get_node_value (s₂.right p) s₂
        some (clear_dirty p s₂, callback value left_value right_value u₂)
      in if not (s.dirty p) then some (s, u) else rest

  unfoldable pub walk_dirty : ℕ → RbTree V S × U → Option (RbTree V S × U)
  unfolding walk_dirty_from
  walk_dirty fuel (s, u) = walk_dirty_from fuel s.root (s, u)
