-- ===== src/RbTree/Fixup/Blacken.antt =====
-- The root becomes black at the end of both fixups of src/mulle--rbtree.c.
use mulle_rbtree.Base.{false, ◌≡◌, refl, sym, subst, List, arith}
use mulle_rbtree.Storage.{Ptr}
use mulle_rbtree.RbTree.{RbTree, update, set_color}
use mulle_rbtree.RbTree.Rest.{SameRest, SameRest-trans}
use mulle_rbtree.RbTree.Recolor.{set_color-At}
use mulle_rbtree.Shape.{Shape, leaf, node, inorder}
use mulle_rbtree.Shape.Balance.{IsRedBlack, Calm, Balanced}
use mulle_rbtree.Shape.Zipper.{IsTree}

module _ {V S : Type 0} where
  -- a red-black tree of the nodes `xs`, in this order, with the payloads as before
  pub record Rebalanced (s : RbTree V S) (xs : List Ptr) (s' : RbTree V S) : Type 0 where
    pub shape : Shape
    pub tree : IsTree s' shape
    pub order : inorder shape ≡ xs
    pub red_black : IsRedBlack shape
    pub rest : SameRest s s'

  blacken-leaf : (s' : RbTree V S) → IsTree s' leaf → IsTree (set_color s'.root false s') leaf
  unfolding update
  blacken-leaf s' h = record {
    focus = tt;
    path = h.path;
    distinct = h.distinct;
    nil_node = ground (arith, h.nil_node);
  }

  recolored : (s : RbTree V S) → SameRest s (set_color s.root false s)
  recolored s = record { payload = refl; nodes = refl; options = refl }

  -- the root becomes black
  pub blacken-Rebalanced :
      (s s' : RbTree V S) (xs : List Ptr) (t : Shape)
      → IsTree s' t
      → inorder t ≡ xs
      → Balanced t
      → Calm t
      → SameRest s s'
      → Rebalanced s xs (set_color s'.root false s')
  blacken-Rebalanced s s' xs leaf h o b c r = record {
    shape = leaf;
    tree = blacken-leaf s' h;
    order = o;
    red_black = record { black_root = refl; calm = tt; balanced = tt };
    rest = SameRest-trans r (recolored s');
  }
  blacken-Rebalanced s s' xs (node l d a u) h o b c r = record {
    shape = node l false a u;
    tree =
        subst (λ q. IsTree (set_color q false s') (node l false a u)) (sym h.path)
          (set_color-At false h);
    order = o;
    red_black = record {
      black_root = refl;
      calm = ground (arith, c);
      balanced = ground (arith, b);
    };
    rest = SameRest-trans r (recolored s');
  }
