-- ===== src/RbTree/Marks.antt =====
-- What the helpers of the rotations do to each field. The markers and the dirty flags are no part of
-- the links.
use mulle_rbtree.Base.{ℕ, zero, suc, ◌≡◌, arith, ◌==◌, if◌then◌else◌}
use mulle_rbtree.Storage.{Ptr, nil}
use mulle_rbtree.RbTree.{RbTree, update, set_dirty, set_node_marked, mark_node_as_dirty}
use mulle_rbtree.RbTree.Rotate.{node_set_left, node_set_right, replace_child, mark_rotated}

module _ {V S : Type 0} where
  -- the two trees differ in their flags at most
  pub record SameLinks (s s' : RbTree V S) : Type 0 where
    pub root : s'.root ≡ s.root
    pub parent : s'.parent ≡ s.parent
    pub left : s'.left ≡ s.left
    pub right : s'.right ≡ s.right
    pub red : s'.red ≡ s.red
    pub payload : s'.payload ≡ s.payload
    pub nodes : s'.nodes ≡ s.nodes
    pub options : s'.options ≡ s.options

  pub set_node_marked-SameLinks : (p : Ptr) (s : RbTree V S) → SameLinks s (set_node_marked p s)
  unfolding set_node_marked
  set_node_marked-SameLinks p s = ground arith

  pub mark_node_as_dirty-SameLinks :
      (fuel : ℕ) (p : Ptr) (s : RbTree V S) → SameLinks s (mark_node_as_dirty fuel p s)
  unfolding mark_node_as_dirty
  mark_node_as_dirty-SameLinks zero p s = ground arith
  mark_node_as_dirty-SameLinks (suc fuel) p s =
      ground (arith, mark_node_as_dirty-SameLinks fuel (s.parent p) (set_dirty p s))

  pub mark_rotated-SameLinks :
      (fuel : ℕ) (p : Ptr) (s : RbTree V S) → SameLinks s (mark_rotated fuel p s)
  unfolding mark_rotated
  mark_rotated-SameLinks fuel p s = ground (
    arith,
    set_node_marked-SameLinks (s.parent p) s,
    mark_node_as_dirty-SameLinks fuel p (set_node_marked (s.parent p) s),
  )

  module _ (p : Ptr) (s : RbTree V S) where
    pub marked-root : (set_node_marked p s).root ≡ s.root
    marked-root = (set_node_marked-SameLinks p s).root

    pub marked-parent : (set_node_marked p s).parent ≡ s.parent
    marked-parent = (set_node_marked-SameLinks p s).parent

    pub marked-left : (set_node_marked p s).left ≡ s.left
    marked-left = (set_node_marked-SameLinks p s).left

    pub marked-right : (set_node_marked p s).right ≡ s.right
    marked-right = (set_node_marked-SameLinks p s).right

    pub marked-red : (set_node_marked p s).red ≡ s.red
    marked-red = (set_node_marked-SameLinks p s).red

    pub marked-payload : (set_node_marked p s).payload ≡ s.payload
    marked-payload = (set_node_marked-SameLinks p s).payload

    pub marked-nodes : (set_node_marked p s).nodes ≡ s.nodes
    marked-nodes = (set_node_marked-SameLinks p s).nodes

    pub marked-options : (set_node_marked p s).options ≡ s.options
    marked-options = (set_node_marked-SameLinks p s).options

  module _ (fuel : ℕ) (p : Ptr) (s : RbTree V S) where
    pub rotated-root : (mark_rotated fuel p s).root ≡ s.root
    rotated-root = (mark_rotated-SameLinks fuel p s).root

    pub rotated-parent : (mark_rotated fuel p s).parent ≡ s.parent
    rotated-parent = (mark_rotated-SameLinks fuel p s).parent

    pub rotated-left : (mark_rotated fuel p s).left ≡ s.left
    rotated-left = (mark_rotated-SameLinks fuel p s).left

    pub rotated-right : (mark_rotated fuel p s).right ≡ s.right
    rotated-right = (mark_rotated-SameLinks fuel p s).right

    pub rotated-red : (mark_rotated fuel p s).red ≡ s.red
    rotated-red = (mark_rotated-SameLinks fuel p s).red

    pub rotated-payload : (mark_rotated fuel p s).payload ≡ s.payload
    rotated-payload = (mark_rotated-SameLinks fuel p s).payload

    pub rotated-nodes : (mark_rotated fuel p s).nodes ≡ s.nodes
    rotated-nodes = (mark_rotated-SameLinks fuel p s).nodes

    pub rotated-options : (mark_rotated fuel p s).options ≡ s.options
    rotated-options = (mark_rotated-SameLinks fuel p s).options

  module _ (p o : Ptr) (s : RbTree V S) where
    pub node_set_left-root : (node_set_left p o s).root ≡ s.root
    unfolding node_set_left
    node_set_left-root = ground arith

    pub node_set_left-parent :
        (node_set_left p o s).parent ≡ (if o == nil then s.parent else update s.parent o p)
    unfolding node_set_left
    node_set_left-parent = ground arith

    pub node_set_left-left : (node_set_left p o s).left ≡ update s.left p o
    unfolding node_set_left
    node_set_left-left = ground arith

    pub node_set_left-right : (node_set_left p o s).right ≡ s.right
    unfolding node_set_left
    node_set_left-right = ground arith

    pub node_set_left-red : (node_set_left p o s).red ≡ s.red
    unfolding node_set_left
    node_set_left-red = ground arith

    pub node_set_left-payload : (node_set_left p o s).payload ≡ s.payload
    unfolding node_set_left
    node_set_left-payload = ground arith

    pub node_set_left-nodes : (node_set_left p o s).nodes ≡ s.nodes
    unfolding node_set_left
    node_set_left-nodes = ground arith

    pub node_set_left-options : (node_set_left p o s).options ≡ s.options
    unfolding node_set_left
    node_set_left-options = ground arith

  module _ (p o : Ptr) (s : RbTree V S) where
    pub node_set_right-root : (node_set_right p o s).root ≡ s.root
    unfolding node_set_right
    node_set_right-root = ground arith

    pub node_set_right-parent :
        (node_set_right p o s).parent ≡ (if o == nil then s.parent else update s.parent o p)
    unfolding node_set_right
    node_set_right-parent = ground arith

    pub node_set_right-right : (node_set_right p o s).right ≡ update s.right p o
    unfolding node_set_right
    node_set_right-right = ground arith

    pub node_set_right-left : (node_set_right p o s).left ≡ s.left
    unfolding node_set_right
    node_set_right-left = ground arith

    pub node_set_right-red : (node_set_right p o s).red ≡ s.red
    unfolding node_set_right
    node_set_right-red = ground arith

    pub node_set_right-payload : (node_set_right p o s).payload ≡ s.payload
    unfolding node_set_right
    node_set_right-payload = ground arith

    pub node_set_right-nodes : (node_set_right p o s).nodes ≡ s.nodes
    unfolding node_set_right
    node_set_right-nodes = ground arith

    pub node_set_right-options : (node_set_right p o s).options ≡ s.options
    unfolding node_set_right
    node_set_right-options = ground arith

  pub ruleset marks = (
    marked-root, marked-parent, marked-left, marked-right, marked-red, marked-payload, marked-nodes,
    marked-options, rotated-root, rotated-parent, rotated-left, rotated-right, rotated-red,
    rotated-payload, rotated-nodes, rotated-options,
  )

  module _ (p t : Ptr) (s : RbTree V S) where
    pub replace_child-root : (replace_child p t s).root ≡ s.root
    unfolding replace_child
    replace_child-root = ground arith

    pub replace_child-parent : (replace_child p t s).parent ≡ s.parent
    unfolding replace_child
    replace_child-parent = ground arith

    pub replace_child-right :
        (replace_child p t s).right
        ≡ (if p == s.right (s.parent p) then update s.right (s.parent p) t else s.right)
    unfolding replace_child
    replace_child-right = ground arith

    pub replace_child-left :
        (replace_child p t s).left
        ≡ (if p == s.right (s.parent p) then s.left else update s.left (s.parent p) t)
    unfolding replace_child
    replace_child-left = ground arith

    pub replace_child-red : (replace_child p t s).red ≡ s.red
    unfolding replace_child
    replace_child-red = ground arith

    pub replace_child-payload : (replace_child p t s).payload ≡ s.payload
    unfolding replace_child
    replace_child-payload = ground arith

    pub replace_child-nodes : (replace_child p t s).nodes ≡ s.nodes
    unfolding replace_child
    replace_child-nodes = ground arith

    pub replace_child-options : (replace_child p t s).options ≡ s.options
    unfolding replace_child
    replace_child-options = ground arith

  pub ruleset replaced = (
    replace_child-root, replace_child-parent, replace_child-left, replace_child-right,
    replace_child-red, replace_child-payload, replace_child-nodes, replace_child-options,
  )
