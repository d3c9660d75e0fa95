-- ===== src/RbTree/Rotate/LeftOnto.antt =====
-- The links after `left_rotate_onto`, one map at a time. `t` is the right child of `p`, `m` the
-- subtree between them, and `q` the parent of `p`, with the right child `o`.
use mulle_rbtree.Base.{ℕ, ◌≡◌, ◌≢◌, arith, ◌==◌, if◌then◌else◌}
use mulle_rbtree.Storage.{Ptr, nil}
use mulle_rbtree.RbTree.{RbTree, update, set_node_marked, set_left, set_parent}
use mulle_rbtree.RbTree.Rotate.{left_rotate_onto, node_reparent, node_set_right}
use mulle_rbtree.RbTree.Marks.{
  mark_rotated-SameLinks, set_node_marked-SameLinks, node_set_right-root, node_set_right-parent,
  node_set_right-left, node_set_right-right, node_set_right-red, node_set_right-payload,
  node_set_right-nodes, node_set_right-options,
}
use mulle_rbtree.RbTree.Reparent.{
  node_reparent-root, node_reparent-parent, node_reparent-left, node_reparent-right,
  node_reparent-red, node_reparent-payload, node_reparent-nodes, node_reparent-options,
}

-- where the nodes stand
pub record Standing {V S : Type 0} (s : RbTree V S) (p t m q o : Ptr) : Type 0 where
  pub child : s.right p ≡ t
  pub inner : s.left t ≡ m
  pub up : s.parent p ≡ q
  pub across : s.right q ≡ o
  pub p_ne_t : p ≢ t
  pub m_ne_p : m ≢ p
  pub q_ne_p : q ≢ p
  pub q_ne_t : q ≢ t

module _ {V S : Type 0} (fuel : ℕ) (p t m q o : Ptr) where
  module _ (s : RbTree V S) (h : Standing s p t m q o) where
    abbrev linked : RbTree V S
    linked = set_node_marked ((node_set_right p m s).left t) (node_set_right p m s)

    abbrev moved : RbTree V S
    moved = node_reparent p t linked

    linked-up : update linked.parent t (linked.parent p) p ≡ q
    unfolding update
    linked-up = ground (
      arith,
      h,
      set_node_marked-SameLinks ((node_set_right p m s).left t) (node_set_right p m s),
      node_set_right-parent p m s,
    )

    linked-across : linked.right q ≡ o
    unfolding update
    linked-across = ground (
      arith,
      h,
      set_node_marked-SameLinks ((node_set_right p m s).left t) (node_set_right p m s),
      node_set_right-right p m s,
    )

    pub onto-root : (left_rotate_onto fuel p t m s).root ≡ (if q == nil then t else s.root)
    unfolding left_rotate_onto update
    onto-root = ground (
      arith,
      h,
      mark_rotated-SameLinks fuel p (set_parent p t (set_left t p moved)),
      node_reparent-root p t q o linked linked-up linked-across,
      set_node_marked-SameLinks ((node_set_right p m s).left t) (node_set_right p m s),
      node_set_right-root p m s,
      node_set_right-parent p m s,
    )

    pub onto-parent :
        (b : Ptr)
        → (left_rotate_onto fuel p t m s).parent b ≡ (
            if b == p
            then t
            else if b == t
            then q
            else if m == nil
            then s.parent b
            else if b == m
            then p
            else s.parent b)
    unfolding left_rotate_onto update
    onto-parent b = ground (
      arith,
      h,
      mark_rotated-SameLinks fuel p (set_parent p t (set_left t p moved)),
      node_reparent-parent p t q o linked linked-up linked-across,
      set_node_marked-SameLinks ((node_set_right p m s).left t) (node_set_right p m s),
      node_set_right-parent p m s,
    )

    pub onto-left :
        (b : Ptr)
        → (left_rotate_onto fuel p t m s).left b ≡ (
            if b == t
            then p
            else if q == nil
            then s.left b
            else if p == o
            then s.left b
            else if b == q
            then t
            else s.left b)
    unfolding left_rotate_onto update
    onto-left b = ground (
      arith,
      h,
      mark_rotated-SameLinks fuel p (set_parent p t (set_left t p moved)),
      node_reparent-left p t q o linked linked-up linked-across,
      set_node_marked-SameLinks ((node_set_right p m s).left t) (node_set_right p m s),
      node_set_right-left p m s,
      node_set_right-parent p m s,
    )

    pub onto-right :
        (b : Ptr)
        → (left_rotate_onto fuel p t m s).right b ≡ (
            if b == p
            then m
            else if q == nil
            then s.right b
            else if p == o
            then (if b == q then t else s.right b)
            else s.right b)
    unfolding left_rotate_onto update
    onto-right b = ground (
      arith,
      h,
      mark_rotated-SameLinks fuel p (set_parent p t (set_left t p moved)),
      node_reparent-right p t q o linked linked-up linked-across,
      set_node_marked-SameLinks ((node_set_right p m s).left t) (node_set_right p m s),
      node_set_right-right p m s,
      node_set_right-parent p m s,
    )

    pub onto-red : (left_rotate_onto fuel p t m s).red ≡ s.red
    unfolding left_rotate_onto update
    onto-red = ground (
      arith,
      h,
      mark_rotated-SameLinks fuel p (set_parent p t (set_left t p moved)),
      node_reparent-red p t q o linked linked-up linked-across,
      set_node_marked-SameLinks ((node_set_right p m s).left t) (node_set_right p m s),
      node_set_right-red p m s,
      node_set_right-parent p m s,
    )

    pub onto-payload : (left_rotate_onto fuel p t m s).payload ≡ s.payload
    unfolding left_rotate_onto update
    onto-payload = ground (
      arith,
      h,
      mark_rotated-SameLinks fuel p (set_parent p t (set_left t p moved)),
      node_reparent-payload p t q o linked linked-up linked-across,
      set_node_marked-SameLinks ((node_set_right p m s).left t) (node_set_right p m s),
      node_set_right-payload p m s,
      node_set_right-parent p m s,
    )

    pub onto-nodes : (left_rotate_onto fuel p t m s).nodes ≡ s.nodes
    unfolding left_rotate_onto update
    onto-nodes = ground (
      arith,
      h,
      mark_rotated-SameLinks fuel p (set_parent p t (set_left t p moved)),
      node_reparent-nodes p t q o linked linked-up linked-across,
      set_node_marked-SameLinks ((node_set_right p m s).left t) (node_set_right p m s),
      node_set_right-nodes p m s,
      node_set_right-parent p m s,
    )

    pub onto-options : (left_rotate_onto fuel p t m s).options ≡ s.options
    unfolding left_rotate_onto update
    onto-options = ground (
      arith,
      h,
      mark_rotated-SameLinks fuel p (set_parent p t (set_left t p moved)),
      node_reparent-options p t q o linked linked-up linked-across,
      set_node_marked-SameLinks ((node_set_right p m s).left t) (node_set_right p m s),
      node_set_right-options p m s,
      node_set_right-parent p m s,
    )
