-- ===== src/RbTree/Insert.antt =====
-- Insertion (src/mulle--rbtree.c): by comparison, before a node, and after a node.
pub mod Rebalance
pub mod Link
pub mod Attach
pub mod Place
pub mod Descend
pub mod Sorted
use mulle_rbtree.Base.{
  ℕ, zero, suc, false, Option, none, some, ◌==◌, if◌then◌else◌, Ordering, ◌>>=◌,
}
use mulle_rbtree.Storage.{Ptr, nil}
use mulle_rbtree.RbTree.{
  RbTree, has_option, allow_duplicates, use_dirty, set_root, set_parent, set_left, set_right,
  set_color, mark_node_as_dirty, node_value,
}
use mulle_rbtree.RbTree.Navigate.{find_leftmost_node, find_rightmost_node}
use mulle_rbtree.RbTree.Fixup.{red_red_fixup}

-- errno.h
abbrev pub eexist : ℕ
eexist = 17

-- Where the descent ends: at a node with an equal key, or below a parent, on the side of the sign.
pub data Descent : Type 0 where
  duplicate : Descent
  place : Ptr → Ordering → Descent

module _ {V S : Type 0} where
  -- the link from `parent` down to the new node
  unfoldable pub link_child : Ptr → Ptr → Ordering → RbTree V S → RbTree V S
  link_child a_node parent direction s = elim direction [
    | Ordering.lt ↦ set_left parent a_node s
    | _ ↦ set_right parent a_node s
  ]

  -- the part of `attach_node` before the dirty flags
  unfoldable pub attach_balanced : ℕ → Ptr → Ptr → Ordering → RbTree V S → Option (RbTree V S)
  unfolding link_child
  attach_balanced fuel a_node parent direction s =
      let s₁ = set_parent a_node parent s in
      if parent == nil
      then some (set_color a_node false (set_root a_node s₁))
      else (let s₂ = link_child a_node parent direction s₁ in
          if s₂.red parent then red_red_fixup fuel a_node s₂ else some s₂)

  unfoldable pub attach_node : ℕ → Ptr → Ptr → Ordering → RbTree V S → Option (RbTree V S)
  unfolding attach_balanced
  attach_node fuel a_node parent direction s = do
    s' ← attach_balanced fuel a_node parent direction s
    some (if has_option use_dirty s' then mark_node_as_dirty fuel a_node s' else s')

  unfoldable pub insert_node_before_node : ℕ → Ptr → Ptr → RbTree V S → Option (RbTree V S)
  insert_node_before_node fuel a_node successor s =
      let y = s.left successor in
      if y == nil
      then attach_node fuel a_node successor Ordering.lt s
      else do x ← find_rightmost_node fuel y s; attach_node fuel a_node x Ordering.gt s

  unfoldable pub insert_node_after_node : ℕ → Ptr → Ptr → RbTree V S → Option (RbTree V S)
  insert_node_after_node fuel a_node predecessor s =
      let y = s.right predecessor in
      if y == nil
      then attach_node fuel a_node predecessor Ordering.gt s
      else do x ← find_leftmost_node fuel y s; attach_node fuel a_node x Ordering.lt s

module _ {V S : Type 0} (comp : V → V → Ordering) where
  -- `x` trails behind `y`; `c` is the last comparison
  unfoldable pub descend : V → ℕ → (x y : Ptr) → Ordering → RbTree V S → Option Descent
  descend value zero x y c s = none
  descend value (suc fuel) x y c s =
      let sign = comp value (node_value y s) in
      let lower = descend value fuel y (s.left y) sign s in
      let upper = descend value fuel y (s.right y) sign s in
      if y == nil then some (place x c) else elim sign [
        | Ordering.lt ↦ lower
        | Ordering.eq ↦ if has_option allow_duplicates s then upper else some duplicate
        | Ordering.gt ↦ upper
      ]

  -- 0 or EEXIST, with the tree
  unfoldable pub insert_node : ℕ → Ptr → RbTree V S → Option (ℕ × RbTree V S)
  unfolding descend
  insert_node fuel a_node s = elim (descend (node_value a_node s) fuel nil s.root Ordering.eq s) [
    | none ↦ none
    | some duplicate ↦ some (eexist, s)
    | some (place x c) ↦ do s' ← attach_node fuel a_node x c s; some (0, s')
  ]
