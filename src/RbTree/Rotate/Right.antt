-- ===== src/RbTree/Rotate/Right.antt =====
-- The links after a right rotation (src/mulle--rbtree.c), one map at a time.
use mulle_rbtree.Base.{ℕ, ◌≡◌, ap, arith, ◌==◌, if◌then◌else◌}
use mulle_rbtree.Storage.{Ptr, nil}
use mulle_rbtree.RbTree.{RbTree, set_node_marked}
use mulle_rbtree.RbTree.Rotate.{right_rotate_onto, right_rotate_node}
use mulle_rbtree.RbTree.Marks.{set_node_marked-SameLinks}
use mulle_rbtree.RbTree.Rotate.RightOnto.{
  Standing, onto-root, onto-parent, onto-right, onto-left, onto-red, onto-payload, onto-nodes,
  onto-options,
}

module _ {V S : Type 0} (fuel : ℕ) (p t m q o : Ptr) where
  module _ (s : RbTree V S) (h : Standing s p t m q o) where
    abbrev marked : RbTree V S
    marked = set_node_marked t (set_node_marked p s)

    marked-Standing : Standing marked p t m q o
    marked-Standing =
        ground (
          arith,
          h,
          set_node_marked-SameLinks p s,
          set_node_marked-SameLinks t (set_node_marked p s),
        )

    child-marked : (set_node_marked p s).left p ≡ t
    child-marked = ground (arith, h, set_node_marked-SameLinks p s)

    inner-marked : marked.right t ≡ m
    inner-marked =
        ground (
          arith,
          h,
          set_node_marked-SameLinks p s,
          set_node_marked-SameLinks t (set_node_marked p s),
        )

    rotate_onto : right_rotate_node fuel p s ≡ right_rotate_onto fuel p t m marked
    unfolding right_rotate_node
    rotate_onto = rw (child-marked, inner-marked)

    pub right_rotate-root : (right_rotate_node fuel p s).root ≡ (if q == nil then t else s.root)
    right_rotate-root = rw rotate_onto (
        ground (
          arith,
          h,
          onto-root fuel p t m q o marked marked-Standing,
          set_node_marked-SameLinks p s,
          set_node_marked-SameLinks t (set_node_marked p s),
        ))

    pub right_rotate-parent :
        (b : Ptr)
        → (right_rotate_node fuel p s).parent b ≡ (
            if b == p
            then t
            else if b == t
            then q
            else if m == nil
            then s.parent b
            else if b == m
            then p
            else s.parent b)
    right_rotate-parent b = rw rotate_onto (
        ground (
          arith,
          h,
          onto-parent fuel p t m q o marked marked-Standing b,
          set_node_marked-SameLinks p s,
          set_node_marked-SameLinks t (set_node_marked p s),
        ))

    pub right_rotate-right :
        (b : Ptr)
        → (right_rotate_node fuel p s).right b ≡ (
            if b == t
            then p
            else if q == nil
            then s.right b
            else if p == o
            then (if b == q then t else s.right b)
            else s.right b)
    right_rotate-right b = rw rotate_onto (
        ground (
          arith,
          h,
          onto-right fuel p t m q o marked marked-Standing b,
          set_node_marked-SameLinks p s,
          set_node_marked-SameLinks t (set_node_marked p s),
        ))

    pub right_rotate-left :
        (b : Ptr)
        → (right_rotate_node fuel p s).left b ≡ (
            if b == p
            then m
            else if q == nil
            then s.left b
            else if p == o
            then s.left b
            else if b == q
            then t
            else s.left b)
    right_rotate-left b = rw rotate_onto (
        ground (
          arith,
          h,
          onto-left fuel p t m q o marked marked-Standing b,
          set_node_marked-SameLinks p s,
          set_node_marked-SameLinks t (set_node_marked p s),
        ))

    pub right_rotate-red : (right_rotate_node fuel p s).red ≡ s.red
    right_rotate-red = rw rotate_onto (
        ground (
          arith,
          h,
          onto-red fuel p t m q o marked marked-Standing,
          set_node_marked-SameLinks p s,
          set_node_marked-SameLinks t (set_node_marked p s),
        ))

    pub right_rotate-payload : (right_rotate_node fuel p s).payload ≡ s.payload
    right_rotate-payload = rw rotate_onto (
        ground (
          arith,
          h,
          onto-payload fuel p t m q o marked marked-Standing,
          set_node_marked-SameLinks p s,
          set_node_marked-SameLinks t (set_node_marked p s),
        ))

    pub right_rotate-nodes : (right_rotate_node fuel p s).nodes ≡ s.nodes
    right_rotate-nodes = rw rotate_onto (
        ground (
          arith,
          h,
          onto-nodes fuel p t m q o marked marked-Standing,
          set_node_marked-SameLinks p s,
          set_node_marked-SameLinks t (set_node_marked p s),
        ))

    pub right_rotate-options : (right_rotate_node fuel p s).options ≡ s.options
    right_rotate-options = rw rotate_onto (
        ground (
          arith,
          h,
          onto-options fuel p t m q o marked marked-Standing,
          set_node_marked-SameLinks p s,
          set_node_marked-SameLinks t (set_node_marked p s),
        ))

    pub right_rotate-node :
        (b : Ptr)
        → ((right_rotate_node fuel p s).parent b ≡ (
            if b == p
            then t
            else if b == t
            then q
            else if m == nil
            then s.parent b
            else if b == m
            then p
            else s.parent b))
          × ((right_rotate_node fuel p s).left b ≡ (
              if b == p
              then m
              else if q == nil
              then s.left b
              else if p == o
              then s.left b
              else if b == q
              then t
              else s.left b))
          × ((right_rotate_node fuel p s).right b ≡ (
              if b == t
              then p
              else if q == nil
              then s.right b
              else if p == o
              then (if b == q then t else s.right b)
              else s.right b))
          × ((right_rotate_node fuel p s).red b ≡ s.red b)
    right_rotate-node b = (
      right_rotate-parent b,
      right_rotate-left b,
      right_rotate-right b,
      ap (λ f. f b) right_rotate-red,
    )
