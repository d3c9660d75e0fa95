-- ===== src/Map/Fresh.antt =====
-- A node that `_mulle__rbtree_new_node` (src/mulle--rbtree.h) has set up beside a tree.
use mulle_rbtree.Base.{
  ℕ, ◌+◌, ◌≡◌, ◌≢◌, refl, sym, ◌∙◌, ap, List, [], ◌∷◌, ◌++◌, Ordering, ◌==◌, arith,
}
use mulle_rbtree.Storage.{Ptr, nil, Storage}
use mulle_rbtree.Order.{All, Le, Sorted}
use mulle_rbtree.RbTree.{RbTree, update, init_node, node_value, get_payload, get_extra, has_option}
use mulle_rbtree.RbTree.Value.{values, stored}
use mulle_rbtree.RbTree.Insert.Link.{IsNew}
use mulle_rbtree.Shape.{Shape, leaf, node, one_if, count, inorder}
use mulle_rbtree.Shape.Rep.{SameNode, Rep-frame}
use mulle_rbtree.Shape.Refocus.{one_if_self}
use mulle_rbtree.Shape.Zipper.{IsTree}

-- how often a node occurs in a list
abbrev pub occurs : Ptr → List Ptr → ℕ
occurs b [] = 0
occurs b (x ∷ xs) = one_if (b == x) + occurs b xs

pub occurs-append : (b : Ptr) (xs ys : List Ptr) → occurs b (xs ++ ys) ≡ occurs b xs + occurs b ys
occurs-append b [] ys = omega arith
occurs-append b (x ∷ xs) ys = omega (arith, occurs-append b xs ys)

pub occurs-inorder : (b : Ptr) (t : Shape) → occurs b (inorder t) ≡ count b t
occurs-inorder b leaf = refl
occurs-inorder b (node l c a r) =
    omega
      (arith, occurs-append b (inorder l) (a ∷ inorder r), occurs-inorder b l, occurs-inorder b r)

module _ {V : Type 0} (comp : V → V → Ordering) (value value' : Ptr → V) where
  All-frame :
      (x : Ptr) (xs : List Ptr)
      → ((b : Ptr) → occurs b (x ∷ xs) ≢ 0 → value' b ≡ value b)
      → All (Le comp value x) xs
      → All (Le comp value' x) xs
  All-frame x [] e h = tt
  All-frame x (y ∷ ys) e h = (
    rw (e x (omega (arith, one_if_self x)), e y (omega (arith, one_if_self y))) h.0,
    All-frame x ys (λ b m. e b (omega arith)) h.1,
  )

  -- only the values of the nodes in the list count
  pub Sorted-frame :
      (xs : List Ptr)
      → ((b : Ptr) → occurs b xs ≢ 0 → value' b ≡ value b)
      → Sorted comp value xs
      → Sorted comp value' xs
  Sorted-frame [] e h = tt
  Sorted-frame (x ∷ xs) e h = (All-frame x xs e h.0, Sorted-frame xs (λ b m. e b (omega arith)) h.1)

module _ {V S : Type 0} (storage : Storage V S) (p : Ptr) (value : V) (s : RbTree V S)
    (n : p ≢ nil) where
  pub init_node-IsNew : IsNew (init_node storage p value s) p
  unfolding init_node update
  init_node-IsNew = ground arith

  init_node-off : (b : Ptr) → b ≢ p → SameNode s (init_node storage p value s) b
  unfolding init_node update
  init_node-off b m = ground arith

  pub init_node-own : values (init_node storage p value s) p ≡ stored storage s value
  unfolding init_node update node_value get_payload get_extra has_option
  init_node-own = ground arith

  pub init_node-others : (b : Ptr) → b ≢ p → values (init_node storage p value s) b ≡ values s b
  unfolding init_node update node_value get_payload get_extra has_option
  init_node-others b m = ground arith

  init_node-root : (init_node storage p value s).root ≡ s.root
  unfolding init_node
  init_node-root = refl

  pub init_node-options : (init_node storage p value s).options ≡ s.options
  unfolding init_node
  init_node-options = refl

  pub init_node-nodes : (init_node storage p value s).nodes ≡ s.nodes
  unfolding init_node
  init_node-nodes = refl

  -- the tree beside it is as before
  pub init_node-IsTree :
      (t : Shape) → IsTree s t → count p t ≡ 0 → IsTree (init_node storage p value s) t
  init_node-IsTree t h fresh = record {
    focus =
        Rep-frame s (init_node storage p value s) nil t h.focus
          (λ b m. init_node-off b (λ e. m (ap (λ q. count q t) e ∙ fresh)));
    path = init_node-root ∙ h.path;
    distinct = h.distinct;
    nil_node = let off = init_node-off nil (λ e. n (sym e)) in ground (arith, h.nil_node, off);
  }
