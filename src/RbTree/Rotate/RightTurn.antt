-- ===== src/RbTree/Rotate/RightTurn.antt =====
-- The right rotation (src/mulle--rbtree.c) on the shape at any place of a tree.
use mulle_rbtree.Base.{ℕ, Bool, ◌≡◌, ◌≢◌, ◌∙◌, arith, refl, sym}
use mulle_rbtree.Storage.{Ptr, nil}
use mulle_rbtree.RbTree.{RbTree}
use mulle_rbtree.RbTree.Rotate.{right_rotate_node}
use mulle_rbtree.RbTree.Rotate.Right
use mulle_rbtree.RbTree.Rotate.RightOnto
use mulle_rbtree.Shape.{Shape, node, Context, root_of, parent_of}
use mulle_rbtree.Shape.Rep.{Rep, SameNode, Rep-frame, Rep-ne-nil, RepAbove-ne-nil}
use mulle_rbtree.Shape.Zipper.{At, IsNil}
use mulle_rbtree.Shape.Refocus.{
  Rep-reparent, RepAbove-refocus, count-root_of, count_above-parent_of, one_if_self, one_if-eq,
  SameBelow, SameAbove,
}

module _ {V S : Type 0} {s : RbTree V S} {k : Context} {c d : Bool} {p t : Ptr} {A B C : Shape}
    (fuel : ℕ) (h : At s k (node (node C d t B) c p A)) where
  right_rotate-Standing : RightOnto.Standing s p t (root_of B) (parent_of k) (s.right (parent_of k))
  right_rotate-Standing =
      let f = h.focus in
      let g = f.5 in
      record {
        child = f.2;
        inner = g.3;
        up = f.1;
        across = refl;
        p_ne_t = λ e. absurd (omega (arith, h.distinct p, one_if_self p, one_if-eq p t e));
        m_ne_p = λ e. count-root_of B p f.0 (sym e) (omega (arith, h.distinct p, one_if_self p));
        q_ne_p =
            λ e. count_above-parent_of k p f.0 (sym e) (omega (arith, h.distinct p, one_if_self p));
        q_ne_t =
            λ e. count_above-parent_of k t g.0 (sym e) (omega (arith, h.distinct t, one_if_self t));
      }

  abbrev right_turned : RbTree V S
  right_turned = right_rotate_node fuel p s

  right_turned-off :
      (b : Ptr)
      → b ≢ p
      → b ≢ t
      → (root_of B ≢ nil → b ≢ root_of B)
      → (parent_of k ≢ nil → b ≢ parent_of k)
      → SameNode s right_turned b
  right_turned-off b np nt nm nq = ground (
    arith,
    Right.right_rotate-node fuel p t (root_of B) (parent_of k) (s.right (parent_of k)) s
        right_rotate-Standing b,
  )

  right_turned-below :
      (b : Ptr)
      → b ≢ nil
      → b ≢ p
      → b ≢ t
      → (parent_of k ≢ nil → b ≢ parent_of k)
      → SameBelow s right_turned p B b
  right_turned-below b nn np nt nq = ground (
    arith,
    Right.right_rotate-node fuel p t (root_of B) (parent_of k) (s.right (parent_of k)) s
        right_rotate-Standing b,
  )

  right_turned-above :
      (b : Ptr)
      → b ≢ nil
      → b ≢ p
      → b ≢ t
      → (root_of B ≢ nil → b ≢ root_of B)
      → SameAbove s right_turned p t k b
  right_turned-above b nn np nt nm = ground (
    arith,
    Right.right_rotate-node fuel p t (root_of B) (parent_of k) (s.right (parent_of k)) s
        right_rotate-Standing b,
  )

  right_turned-Rep : Rep right_turned (parent_of k) (node C d t (node B c p A))
  right_turned-Rep =
      let f = h.focus in
      let g = f.5 in
      let st = right_rotate-Standing in
      (
        g.0,
        ground (
          arith,
          Right.right_rotate-node fuel p t (root_of B) (parent_of k) (s.right (parent_of k)) s
              right_rotate-Standing t,
          st,
        ),
        ground (
          arith,
          Right.right_rotate-node fuel p t (root_of B) (parent_of k) (s.right (parent_of k)) s
              right_rotate-Standing t,
          st,
        ),
        ground (
          arith,
          Right.right_rotate-node fuel p t (root_of B) (parent_of k) (s.right (parent_of k)) s
              right_rotate-Standing t,
          st,
        ),
        ground (
          arith,
          Right.right_rotate-node fuel p t (root_of B) (parent_of k) (s.right (parent_of k)) s
              right_rotate-Standing t,
          st,
        ),
        Rep-frame s right_turned t C g.5 (λ b m.
            right_turned-off b (λ e. m (rw e (omega (arith, h.distinct p, one_if_self p))))
              (λ e. m (rw e (omega (arith, h.distinct t, one_if_self t))))
              (λ n e. count-root_of B b (λ z. n (sym e ∙ z)) e (omega (arith, h.distinct b, m)))
              (λ n e.
                count_above-parent_of k b (λ z. n (sym e ∙ z)) e (omega (arith, h.distinct b, m)))),
        (
          f.0,
          ground (
            arith,
            Right.right_rotate-node fuel p t (root_of B) (parent_of k) (s.right (parent_of k)) s
                right_rotate-Standing p,
            st,
          ),
          ground (
            arith,
            Right.right_rotate-node fuel p t (root_of B) (parent_of k) (s.right (parent_of k)) s
                right_rotate-Standing p,
            st,
          ),
          ground (
            arith,
            Right.right_rotate-node fuel p t (root_of B) (parent_of k) (s.right (parent_of k)) s
                right_rotate-Standing p,
            st,
          ),
          ground (
            arith,
            Right.right_rotate-node fuel p t (root_of B) (parent_of k) (s.right (parent_of k)) s
                right_rotate-Standing p,
            st,
          ),
          Rep-reparent s right_turned t p B g.6 (λ b. omega (arith, h.distinct b))
              (λ b m.
                right_turned-below b (Rep-ne-nil s t B b g.6 m)
                  (λ e. m (rw e (omega (arith, h.distinct p, one_if_self p))))
                  (λ e. m (rw e (omega (arith, h.distinct t, one_if_self t))))
                  (λ n e.
                    count_above-parent_of k b (λ z. n (sym e ∙ z)) e
                      (omega (arith, h.distinct b, m)))),
          Rep-frame s right_turned p A f.6 (λ b m.
              right_turned-off b (λ e. m (rw e (omega (arith, h.distinct p, one_if_self p))))
                (λ e. m (rw e (omega (arith, h.distinct t, one_if_self t))))
                (λ n e. count-root_of B b (λ z. n (sym e ∙ z)) e (omega (arith, h.distinct b, m)))
                (λ n e.
                  count_above-parent_of k b (λ z. n (sym e ∙ z)) e
                    (omega (arith, h.distinct b, m)))),
        ),
      )

  right_turned-IsNil : IsNil right_turned
  right_turned-IsNil =
      let f = h.focus in
      let st = right_rotate-Standing in
      ground (
        arith,
        h.nil_node,
        f.0,
        f.5.0,
        Right.right_rotate-node fuel p t (root_of B) (parent_of k) (s.right (parent_of k)) s st nil,
      )

  -- The right rotation at a node with a left child, at any place of a tree, turns the two nodes
  -- around each other and keeps the rest of the tree, its colours and its nil node.
  pub right_rotate-At : At right_turned k (node C d t (node B c p A))
  right_rotate-At = record {
    focus = right_turned-Rep;
    path =
        RepAbove-refocus s right_turned p t k h.path h.focus.0
          (omega (arith, h.distinct p, one_if_self p)) (λ b. omega (arith, h.distinct b))
          (Right.right_rotate-root fuel p t (root_of B) (parent_of k) (s.right (parent_of k)) s
            right_rotate-Standing)
          (λ b m.
            right_turned-above b (RepAbove-ne-nil s p k b h.path m)
              (λ e. m (rw e (omega (arith, h.distinct p, one_if_self p))))
              (λ e. m (rw e (omega (arith, h.distinct t, one_if_self t))))
              (λ n e. count-root_of B b (λ z. n (sym e ∙ z)) e (omega (arith, h.distinct b, m))));
    distinct = λ b. omega (arith, h.distinct b);
    nil_node = right_turned-IsNil;
  }

  -- the parent of the nil node is free, and stays as it is
  pub right_rotate-nil : right_turned.parent nil ≡ s.parent nil
  right_rotate-nil =
      let st = right_rotate-Standing in
      ground (
        arith,
        h.focus.0,
        h.focus.5.0,
        Right.right_rotate-parent fuel p t (root_of B) (parent_of k) (s.right (parent_of k)) s st
            nil,
      )
