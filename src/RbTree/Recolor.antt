-- ===== src/RbTree/Recolor.antt =====
-- A new colour for the node at the focus.
use mulle_rbtree.RbTree.Marks.{SameLinks}
use mulle_rbtree.Shape.{parent_of, root_of}
use mulle_rbtree.Shape.Rep.{Rep-frame, RepAbove-frame}
use mulle_rbtree.Base.{Bool, arith, ◌≢◌, refl}
use mulle_rbtree.Storage.{Ptr}
use mulle_rbtree.RbTree.{RbTree, update, set_color}
use mulle_rbtree.Shape.{Shape, node, Context}
use mulle_rbtree.Shape.Rep.{SameNode, Rep-frame, RepAbove-frame}
use mulle_rbtree.Shape.Zipper.{At}
use mulle_rbtree.Shape.Refocus.{one_if_self}

module _ {V S : Type 0} (s : RbTree V S) (a : Ptr) (v : Bool) where
  set_color-off : (b : Ptr) → b ≢ a → SameNode s (set_color a v s) b
  unfolding update
  set_color-off b n = ground arith

module _ {V S : Type 0} {s : RbTree V S} {k : Context} {l r : Shape} {c : Bool} {a : Ptr} where
  -- the node at the focus has the new colour, and nothing else changes
  pub set_color-At : (v : Bool) → At s k (node l c a r) → At (set_color a v s) k (node l v a r)
  unfolding update
  set_color-At v h =
      let f = h.focus in
      let s' = set_color a v s in
      record {
        focus = (
          f.0,
          f.1,
          f.2,
          f.3,
          ground arith,
          Rep-frame s s' a l f.5 (λ b m.
              set_color-off s a v b (λ e. m (rw e (omega (arith, h.distinct a, one_if_self a))))),
          Rep-frame s s' a r f.6 (λ b m.
              set_color-off s a v b (λ e. m (rw e (omega (arith, h.distinct a, one_if_self a))))),
        );
        path = RepAbove-frame s s' a k h.path refl (λ b m.
            set_color-off s a v b (λ e. m (rw e (omega (arith, h.distinct a, one_if_self a)))));
        distinct = h.distinct;
        nil_node = ground (arith, h.nil_node, f.0);
      }

module _ {V S : Type 0} where
  -- flags are no part of a shape
  pub At-SameLinks :
      (s s' : RbTree V S) (k : Context) (t : Shape) → SameLinks s s' → At s k t → At s' k t
  At-SameLinks s s' k t e h = record {
    focus = Rep-frame s s' (parent_of k) t h.focus (λ b m. ground (arith, e));
    path = RepAbove-frame s s' (root_of t) k h.path e.root (λ b m. ground (arith, e));
    distinct = h.distinct;
    nil_node = ground (arith, e, h.nil_node);
  }
