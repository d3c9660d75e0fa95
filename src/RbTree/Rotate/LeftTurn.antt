-- ===== src/RbTree/Rotate/LeftTurn.antt =====
-- The left rotation (src/mulle--rbtree.c) on the shape at any place of a tree.
use mulle_rbtree.Base.{ℕ, Bool, ◌≡◌, ◌≢◌, ◌∙◌, arith, refl, sym}
use mulle_rbtree.Storage.{Ptr, nil}
use mulle_rbtree.RbTree.{RbTree}
use mulle_rbtree.RbTree.Rotate.{left_rotate_node}
use mulle_rbtree.RbTree.Rotate.Left
use mulle_rbtree.RbTree.Rotate.LeftOnto
use mulle_rbtree.Shape.{Shape, node, Context, root_of, parent_of}
use mulle_rbtree.Shape.Rep.{Rep, SameNode, Rep-frame, Rep-ne-nil, RepAbove-ne-nil}
use mulle_rbtree.Shape.Zipper.{At, IsNil}
use mulle_rbtree.Shape.Refocus.{
  Rep-reparent, RepAbove-refocus, count-root_of, count_above-parent_of, one_if_self, one_if-eq,
  SameBelow, SameAbove,
}

module _ {V S : Type 0} {s : RbTree V S} {k : Context} {c d : Bool} {p t : Ptr} {A B C : Shape}
    (fuel : ℕ) (h : At s k (node A c p (node B d t C))) where
  left_rotate-Standing : LeftOnto.Standing s p t (root_of B) (parent_of k) (s.right (parent_of k))
  left_rotate-Standing =
      let f = h.focus in
      let g = f.6 in
      record {
        child = f.3;
        inner = g.2;
        up = f.1;
        across = refl;
        p_ne_t = λ e. absurd (omega (arith, h.distinct p, one_if_self p, one_if-eq p t e));
        m_ne_p = λ e. count-root_of B p f.0 (sym e) (omega (arith, h.distinct p, one_if_self p));
        q_ne_p =
            λ e. count_above-parent_of k p f.0 (sym e) (omega (arith, h.distinct p, one_if_self p));
        q_ne_t =
            λ e. count_above-parent_of k t g.0 (sym e) (omega (arith, h.distinct t, one_if_self t));
      }

  abbrev left_turned : RbTree V S
  left_turned = left_rotate_node fuel p s

  left_turned-off :
      (b : Ptr)
      → b ≢ p
      → b ≢ t
      → (root_of B ≢ nil → b ≢ root_of B)
      → (parent_of k ≢ nil → b ≢ parent_of k)
      → SameNode s left_turned b
  left_turned-off b np nt nm nq = ground (
    arith,
    Left.left_rotate-node fuel p t (root_of B) (parent_of k) (s.right (parent_of k)) s
        left_rotate-Standing b,
  )

  left_turned-below :
      (b : Ptr)
      → b ≢ nil
      → b ≢ p
      → b ≢ t
      → (parent_of k ≢ nil → b ≢ parent_of k)
      → SameBelow s left_turned p B b
  left_turned-below b nn np nt nq = ground (
    arith,
    Left.left_rotate-node fuel p t (root_of B) (parent_of k) (s.right (parent_of k)) s
        left_rotate-Standing b,
  )

  left_turned-above :
      (b : Ptr)
      → b ≢ nil
      → b ≢ p
      → b ≢ t
      → (root_of B ≢ nil → b ≢ root_of B)
      → SameAbove s left_turned p t k b
  left_turned-above b nn np nt nm = ground (
    arith,
    Left.left_rotate-node fuel p t (root_of B) (parent_of k) (s.right (parent_of k)) s
        left_rotate-Standing b,
  )

  left_turned-Rep : Rep left_turned (parent_of k) (node (node A c p B) d t C)
  left_turned-Rep =
      let f = h.focus in
      let g = f.6 in
      let st = left_rotate-Standing in
      (
        g.0,
        ground (
          arith,
          Left.left_rotate-node fuel p t (root_of B) (parent_of k) (s.right (parent_of k)) s
              left_rotate-Standing t,
          st,
        ),
        ground (
          arith,
          Left.left_rotate-node fuel p t (root_of B) (parent_of k) (s.right (parent_of k)) s
              left_rotate-Standing t,
          st,
        ),
        ground (
          arith,
          Left.left_rotate-node fuel p t (root_of B) (parent_of k) (s.right (parent_of k)) s
              left_rotate-Standing t,
          st,
        ),
        ground (
          arith,
          Left.left_rotate-node fuel p t (root_of B) (parent_of k) (s.right (parent_of k)) s
              left_rotate-Standing t,
          st,
        ),
        (
          f.0,
          ground (
            arith,
            Left.left_rotate-node fuel p t (root_of B) (parent_of k) (s.right (parent_of k)) s
                left_rotate-Standing p,
            st,
          ),
          ground (
            arith,
            Left.left_rotate-node fuel p t (root_of B) (parent_of k) (s.right (parent_of k)) s
                left_rotate-Standing p,
            st,
          ),
          ground (
            arith,
            Left.left_rotate-node fuel p t (root_of B) (parent_of k) (s.right (parent_of k)) s
                left_rotate-Standing p,
            st,
          ),
          ground (
            arith,
            Left.left_rotate-node fuel p t (root_of B) (parent_of k) (s.right (parent_of k)) s
                left_rotate-Standing p,
            st,
          ),
          Rep-frame s left_turned p A f.5 (λ b m.
              left_turned-off b (λ e. m (rw e (omega (arith, h.distinct p, one_if_self p))))
                (λ e. m (rw e (omega (arith, h.distinct t, one_if_self t))))
                (λ n e. count-root_of B b (λ z. n (sym e ∙ z)) e (omega (arith, h.distinct b, m)))
                (λ n e.
                  count_above-parent_of k b (λ z. n (sym e ∙ z)) e
                    (omega (arith, h.distinct b, m)))),
          Rep-reparent s left_turned t p B g.5 (λ b. omega (arith, h.distinct b))
              (λ b m.
                left_turned-below b (Rep-ne-nil s t B b g.5 m)
                  (λ e. m (rw e (omega (arith, h.distinct p, one_if_self p))))
                  (λ e. m (rw e (omega (arith, h.distinct t, one_if_self t))))
                  (λ n e.
                    count_above-parent_of k b (λ z. n (sym e ∙ z)) e
                      (omega (arith, h.distinct b, m)))),
        ),
        Rep-frame s left_turned t C g.6 (λ b m.
            left_turned-off b (λ e. m (rw e (omega (arith, h.distinct p, one_if_self p))))
              (λ e. m (rw e (omega (arith, h.distinct t, one_if_self t))))
              (λ n e. count-root_of B b (λ z. n (sym e ∙ z)) e (omega (arith, h.distinct b, m)))
              (λ n e.
                count_above-parent_of k b (λ z. n (sym e ∙ z)) e (omega (arith, h.distinct b, m)))),
      )

  left_turned-IsNil : IsNil left_turned
  left_turned-IsNil =
      let f = h.focus in
      let st = left_rotate-Standing in
      ground (
        arith,
        h.nil_node,
        f.0,
        f.6.0,
        Left.left_rotate-node fuel p t (root_of B) (parent_of k) (s.right (parent_of k)) s st nil,
      )

  -- The left rotation at a node with a right child, at any place of a tree, turns the two nodes
  -- around each other and keeps the rest of the tree, its colours and its nil node.
  pub left_rotate-At : At left_turned k (node (node A c p B) d t C)
  left_rotate-At = record {
    focus = left_turned-Rep;
    path =
        RepAbove-refocus s left_turned p t k h.path h.focus.0
          (omega (arith, h.distinct p, one_if_self p)) (λ b. omega (arith, h.distinct b))
          (Left.left_rotate-root fuel p t (root_of B) (parent_of k) (s.right (parent_of k)) s
            left_rotate-Standing)
          (λ b m.
            left_turned-above b (RepAbove-ne-nil s p k b h.path m)
              (λ e. m (rw e (omega (arith, h.distinct p, one_if_self p))))
              (λ e. m (rw e (omega (arith, h.distinct t, one_if_self t))))
              (λ n e. count-root_of B b (λ z. n (sym e ∙ z)) e (omega (arith, h.distinct b, m))));
    distinct = λ b. omega (arith, h.distinct b);
    nil_node = left_turned-IsNil;
  }

  -- the parent of the nil node is free, and stays as it is
  pub left_rotate-nil : left_turned.parent nil ≡ s.parent nil
  left_rotate-nil =
      let st = left_rotate-Standing in
      ground (
        arith,
        h.focus.0,
        h.focus.6.0,
        Left.left_rotate-parent fuel p t (root_of B) (parent_of k) (s.right (parent_of k)) s st nil,
      )
