-- ===== src/Map/Prepared.antt =====
-- A node set up by `_mulle__rbtree_init_node` (src/mulle--rbtree.h) and not yet linked.
use mulle_rbtree.Base.{refl, ◌≡◌, ◌≢◌, ◌∙◌, ap, Ordering}
use mulle_rbtree.Storage.{Ptr, nil, Storage}
use mulle_rbtree.Order.{Sorted}
use mulle_rbtree.RbTree.{RbTree, init_node}
use mulle_rbtree.RbTree.Value.{values, stored, values-payload}
use mulle_rbtree.Map.Fresh.{
  occurs-inorder, Sorted-frame, init_node-own, init_node-others, init_node-options, init_node-nodes,
  init_node-IsTree,
}
use mulle_rbtree.Shape.{Shape, count, inorder}
use mulle_rbtree.Shape.Zipper.{IsTree}

module _ {V S : Type 0} (storage : Storage V S) where
  -- `s'` is `s` with the value `v` in a node `p` that no tree has
  pub record Prepared (s : RbTree V S) (p : Ptr) (v : V) (nodes : S) (s' : RbTree V S)
      : Type 0 where
    pub own : values s' p ≡ stored storage (record s { nodes = nodes }) v
    pub off : (b : Ptr) → b ≢ p → values s' b ≡ values s b
    pub options : s'.options ≡ s.options
    pub pool : s'.nodes ≡ nodes
    pub tree : (t : Shape) → IsTree s t → count p t ≡ 0 → IsTree s' t

  pub init_node-Prepared :
      (s : RbTree V S) (p : Ptr) (v : V) (nodes : S)
      → p ≢ nil
      → Prepared s p v nodes (init_node storage p v (record s { nodes = nodes }))
  init_node-Prepared s p v nodes n = record {
    own = init_node-own storage p v (record s { nodes = nodes }) n;
    off = λ b m.
        init_node-others storage p v (record s { nodes = nodes }) n b m
        ∙ ap (λ m. m b) (values-payload s (record s { nodes = nodes }) refl refl);
    options = init_node-options storage p v (record s { nodes = nodes }) n;
    pool = init_node-nodes storage p v (record s { nodes = nodes }) n;
    tree = λ t h fresh.
        init_node-IsTree storage p v (record s { nodes = nodes }) n t
          (record {
            focus = h.focus;
            path = h.path;
            distinct = h.distinct;
            nil_node = record {
              black = h.nil_node.black;
              left = h.nil_node.left;
              right = h.nil_node.right;
            };
          })
          fresh;
  }

  pub Prepared-Sorted :
      (comp : V → V → Ordering) (s : RbTree V S) (p : Ptr) (v : V) (nodes : S) (s' : RbTree V S)
      (t : Shape)
      → Prepared s p v nodes s'
      → count p t ≡ 0
      → Sorted comp (values s) (inorder t)
      → Sorted comp (values s') (inorder t)
  Prepared-Sorted comp s p v nodes s' t r fresh =
      Sorted-frame comp (values s) (values s') (inorder t)
        (λ b m. r.off b (λ e. m (occurs-inorder b t ∙ ap (λ q. count q t) e ∙ fresh)))
