-- ===== src/RbTree/Reparent.antt =====
-- What `mulle_rb_node_reparent` (src/mulle--rbtree.c) writes, field by field.
use mulle_rbtree.Base.{◌≡◌, ◌∙◌, ap, arith, ◌==◌, if◌then◌else◌}
use mulle_rbtree.Storage.{Ptr, nil}
use mulle_rbtree.RbTree.{RbTree, update, set_parent, set_node_marked}
use mulle_rbtree.RbTree.Rotate.{replace_child, relink, node_reparent}
use mulle_rbtree.RbTree.Marks.{set_node_marked-SameLinks, marked-parent, marked-right, marks}

module _ {V S : Type 0} where
  -- `q` is the parent of `p`, and `o` the right child of `q`
  module _ (p t q o : Ptr) (s : RbTree V S) (up : s.parent p ≡ q) (across : s.right q ≡ o) where
    relink-root : (relink p t s).root ≡ (if q == nil then t else s.root)
    unfolding relink replace_child
    relink-root = ground (arith, set_node_marked-SameLinks q (replace_child p t s))

    relink-parent : (relink p t s).parent ≡ s.parent
    unfolding relink replace_child
    relink-parent = ground (arith, set_node_marked-SameLinks q (replace_child p t s))

    relink-right :
        (relink p t s).right
        ≡ (if q == nil then s.right else if p == o then update s.right q t else s.right)
    unfolding relink replace_child
    relink-right = ground (arith, set_node_marked-SameLinks q (replace_child p t s))

    relink-left :
        (relink p t s).left
        ≡ (if q == nil then s.left else if p == o then s.left else update s.left q t)
    unfolding relink replace_child
    relink-left = ground (arith, set_node_marked-SameLinks q (replace_child p t s))

    relink-red : (relink p t s).red ≡ s.red
    unfolding relink replace_child
    relink-red = ground (arith, set_node_marked-SameLinks q (replace_child p t s))

    relink-payload : (relink p t s).payload ≡ s.payload
    unfolding relink replace_child
    relink-payload = ground (arith, set_node_marked-SameLinks q (replace_child p t s))

    relink-nodes : (relink p t s).nodes ≡ s.nodes
    unfolding relink replace_child
    relink-nodes = ground (arith, set_node_marked-SameLinks q (replace_child p t s))

    relink-options : (relink p t s).options ≡ s.options
    unfolding relink replace_child
    relink-options = ground (arith, set_node_marked-SameLinks q (replace_child p t s))

  module _ (p t q o : Ptr) (s : RbTree V S) (up : update s.parent t (s.parent p) p ≡ q)
      (across : s.right q ≡ o) where
    moved-parent : (set_node_marked t (set_parent t (s.parent p) s)).parent p ≡ q
    moved-parent = ap (λ f. f p) (marked-parent t (set_parent t (s.parent p) s)) ∙ up

    moved-right : (set_node_marked t (set_parent t (s.parent p) s)).right q ≡ o
    moved-right = ap (λ f. f q) (marked-right t (set_parent t (s.parent p) s)) ∙ across

    pub node_reparent-root : (node_reparent p t s).root ≡ (if q == nil then t else s.root)
    unfolding node_reparent
    node_reparent-root =
        relink-root p t q o (set_node_marked t (set_parent t (s.parent p) s)) moved-parent
          moved-right
        ∙ simp marks

    pub node_reparent-parent : (node_reparent p t s).parent ≡ update s.parent t (s.parent p)
    unfolding node_reparent
    node_reparent-parent =
        relink-parent p t q o (set_node_marked t (set_parent t (s.parent p) s)) moved-parent
          moved-right
        ∙ simp marks

    pub node_reparent-right :
        (node_reparent p t s).right
        ≡ (if q == nil then s.right else if p == o then update s.right q t else s.right)
    unfolding node_reparent
    node_reparent-right =
        relink-right p t q o (set_node_marked t (set_parent t (s.parent p) s)) moved-parent
          moved-right
        ∙ simp marks

    pub node_reparent-left :
        (node_reparent p t s).left
        ≡ (if q == nil then s.left else if p == o then s.left else update s.left q t)
    unfolding node_reparent
    node_reparent-left =
        relink-left p t q o (set_node_marked t (set_parent t (s.parent p) s)) moved-parent
          moved-right
        ∙ simp marks

    pub node_reparent-red : (node_reparent p t s).red ≡ s.red
    unfolding node_reparent
    node_reparent-red =
        relink-red p t q o (set_node_marked t (set_parent t (s.parent p) s)) moved-parent
          moved-right
        ∙ simp marks

    pub node_reparent-payload : (node_reparent p t s).payload ≡ s.payload
    unfolding node_reparent
    node_reparent-payload =
        relink-payload p t q o (set_node_marked t (set_parent t (s.parent p) s)) moved-parent
          moved-right
        ∙ simp marks

    pub node_reparent-nodes : (node_reparent p t s).nodes ≡ s.nodes
    unfolding node_reparent
    node_reparent-nodes =
        relink-nodes p t q o (set_node_marked t (set_parent t (s.parent p) s)) moved-parent
          moved-right
        ∙ simp marks

    pub node_reparent-options : (node_reparent p t s).options ≡ s.options
    unfolding node_reparent
    node_reparent-options =
        relink-options p t q o (set_node_marked t (set_parent t (s.parent p) s)) moved-parent
          moved-right
        ∙ simp marks
