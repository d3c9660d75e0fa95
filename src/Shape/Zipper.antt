-- ===== src/Shape/Zipper.antt =====
-- A store that stands for a shape in a context, and moving the focus. No address occurs twice.
use mulle_rbtree.Base.{◌+◌, ◌≤◌, Bool, false, ◌≡◌, ◌≢◌, arith}
use mulle_rbtree.Storage.{Ptr, nil}
use mulle_rbtree.RbTree.{RbTree}
use mulle_rbtree.Shape.{
  Shape, node, Context, top, in_left, in_right, root_of, parent_of, count, count_above, plug,
}
use mulle_rbtree.Shape.Rep.{Rep, RepAbove}
use mulle_rbtree.Shape.Refocus.{count-root_of, one_if_self}

module _ {V S : Type 0} where
  -- the nil node is black and has no children; its parent is free
  pub record IsNil (s : RbTree V S) : Type 0 where
    pub black : s.red nil ≡ false
    pub left : s.left nil ≡ nil
    pub right : s.right nil ≡ nil

  pub record At (s : RbTree V S) (k : Context) (t : Shape) : Type 0 where
    pub focus : Rep s (parent_of k) t
    pub path : RepAbove s (root_of t) k
    pub distinct : (b : Ptr) → count b t + count_above b k ≤ 1
    pub nil_node : IsNil s

  -- The store stands for a whole tree.
  abbrev pub IsTree : RbTree V S → Shape → Type 0
  IsTree s t = At s top t

  module _ {s : RbTree V S} {k : Context} {l r : Shape} {c : Bool} {a : Ptr} where
    pub down_left : At s k (node l c a r) → At s (in_left c a r k) l
    down_left h =
        let f = h.focus in
        record {
          focus = f.5;
          path = (f.0, f.1, f.2, f.3, f.4, f.6, h.path);
          distinct = λ b. omega (arith, h.distinct b);
          nil_node = h.nil_node;
        }

    pub down_right : At s k (node l c a r) → At s (in_right l c a k) r
    down_right h =
        let f = h.focus in
        record {
          focus = f.6;
          path = (f.0, f.1, f.2, f.3, f.4, f.5, h.path);
          distinct = λ b. omega (arith, h.distinct b);
          nil_node = h.nil_node;
        }

    pub up_left : At s (in_left c a r k) l → At s k (node l c a r)
    up_left h =
        let p = h.path in
        record {
          focus = (p.0, p.1, p.2, p.3, p.4, h.focus, p.5);
          path = p.6;
          distinct = λ b. omega (arith, h.distinct b);
          nil_node = h.nil_node;
        }

    pub up_right : At s (in_right l c a k) r → At s k (node l c a r)
    up_right h =
        let p = h.path in
        record {
          focus = (p.0, p.1, p.2, p.3, p.4, p.5, h.focus);
          path = p.6;
          distinct = λ b. omega (arith, h.distinct b);
          nil_node = h.nil_node;
        }

  pub At-plug : (s : RbTree V S) (k : Context) (t : Shape) → At s k t → IsTree s (plug k t)
  At-plug s top t h = h
  At-plug s (in_left c a r k) t h = At-plug s k (node t c a r) (up_left h)
  At-plug s (in_right l c a k) t h = At-plug s k (node l c a t) (up_right h)

  -- a node is not the root of its sibling
  pub ne-sibling_left :
      {s : RbTree V S} {c d : Bool} {a x : Ptr} {l r b : Shape} {k : Context}
      → At s (in_left c a r k) (node l d x b)
      → x ≢ root_of r
  ne-sibling_left {x} {r} h e =
      count-root_of r x h.focus.0 e (omega (arith, h.distinct x, one_if_self x))

  pub ne-sibling_right :
      {s : RbTree V S} {c d : Bool} {a x : Ptr} {l r b : Shape} {k : Context}
      → At s (in_right r c a k) (node l d x b)
      → x ≢ root_of r
  ne-sibling_right {x} {r} h e =
      count-root_of r x h.focus.0 e (omega (arith, h.distinct x, one_if_self x))
