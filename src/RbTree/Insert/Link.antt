-- ===== src/RbTree/Insert/Link.antt =====
-- The link from a parent to a new node (`_mulle__rbtree_attach_node` in src/mulle--rbtree.c).
use mulle_rbtree.Base.{Bool, true, ◌≡◌, ◌≢◌, refl, ◌∙◌, ap, Ordering, arith}
use mulle_rbtree.Storage.{Ptr, nil}
use mulle_rbtree.RbTree.{RbTree, update, set_parent, set_left, set_right}
use mulle_rbtree.RbTree.Rest.{SameRest}
use mulle_rbtree.RbTree.Insert.{link_child}
use mulle_rbtree.Shape.{Shape, leaf, Context, top, in_left, in_right, parent_of, count_above}
use mulle_rbtree.Shape.Rep.{SameNode, Rep-frame, RepAbove-frame}
use mulle_rbtree.Shape.Refocus.{one_if_self, one_if-eq}
use mulle_rbtree.Shape.Zipper.{At}
use mulle_rbtree.RbTree.Insert.Rebalance.{Fits, single, single-distinct}

module _ {V S : Type 0} where
  -- a node as `init_node` leaves it, which is not in the tree
  pub record IsNew (s : RbTree V S) (a : Ptr) : Type 0 where
    pub ne_nil : a ≢ nil
    pub left : s.left a ≡ nil
    pub right : s.right a ≡ nil
    pub red : s.red a ≡ true

  linked_left-off :
      (s : RbTree V S) (p a b : Ptr)
      → b ≢ p
      → b ≢ a
      → SameNode s (set_left p a (set_parent a p s)) b
  unfolding update
  linked_left-off s p a b np na = ground arith

  link_left-At :
      (s : RbTree V S) (k : Context) (r : Shape) (c : Bool) (p a : Ptr)
      → At s (in_left c p r k) leaf
      → IsNew s a
      → count_above a (in_left c p r k) ≡ 0
      → At (set_left p a (set_parent a p s)) (in_left c p r k) (single a)
  unfolding update
  link_left-At s k r c p a h new fresh =
      let apart : a ≢ p = λ e. absurd (omega (arith, fresh, one_if-eq a p e)) in
      let p' = h.path in
      let s' = (set_left p a (set_parent a p s)) in
      record {
        focus = (new.ne_nil, ground arith, ground arith, ground arith, new.red, tt, tt);
        path = (
          p'.0,
          ground arith,
          ground arith,
          ground arith,
          p'.4,
          Rep-frame s s' p r p'.5 (λ b m.
              linked_left-off s p a b (λ e. m (rw e (omega (arith, h.distinct p, one_if_self p))))
                (λ e. m (rw e (omega (arith, fresh))))),
          RepAbove-frame s s' p k p'.6 refl (λ b m.
              linked_left-off s p a b (λ e. m (rw e (omega (arith, h.distinct p, one_if_self p))))
                (λ e. m (rw e (omega (arith, fresh))))),
        );
        distinct = λ b.
            single-distinct a b (count_above b (in_left c p r k)) (h.distinct b)
              (λ e. ap (λ q. count_above q (in_left c p r k)) e ∙ fresh);
        nil_node = ground (arith, h.nil_node, p'.0, new.ne_nil);
      }

  linked_right-off :
      (s : RbTree V S) (p a b : Ptr)
      → b ≢ p
      → b ≢ a
      → SameNode s (set_right p a (set_parent a p s)) b
  unfolding update
  linked_right-off s p a b np na = ground arith

  link_right-At :
      (s : RbTree V S) (k : Context) (r : Shape) (c : Bool) (p a : Ptr)
      → At s (in_right r c p k) leaf
      → IsNew s a
      → count_above a (in_right r c p k) ≡ 0
      → At (set_right p a (set_parent a p s)) (in_right r c p k) (single a)
  unfolding update
  link_right-At s k r c p a h new fresh =
      let apart : a ≢ p = λ e. absurd (omega (arith, fresh, one_if-eq a p e)) in
      let p' = h.path in
      let s' = (set_right p a (set_parent a p s)) in
      record {
        focus = (new.ne_nil, ground arith, ground arith, ground arith, new.red, tt, tt);
        path = (
          p'.0,
          ground arith,
          ground arith,
          ground arith,
          p'.4,
          Rep-frame s s' p r p'.5 (λ b m.
              linked_right-off s p a b (λ e. m (rw e (omega (arith, h.distinct p, one_if_self p))))
                (λ e. m (rw e (omega (arith, fresh))))),
          RepAbove-frame s s' p k p'.6 refl (λ b m.
              linked_right-off s p a b (λ e. m (rw e (omega (arith, h.distinct p, one_if_self p))))
                (λ e. m (rw e (omega (arith, fresh))))),
        );
        distinct = λ b.
            single-distinct a b (count_above b (in_right r c p k)) (h.distinct b)
              (λ e. ap (λ q. count_above q (in_right r c p k)) e ∙ fresh);
        nil_node = ground (arith, h.nil_node, p'.0, new.ne_nil);
      }

module _ {V S : Type 0} where
  -- the link of the new node, on the side of the context
  pub link_child-At :
      (s : RbTree V S) (k : Context) (a : Ptr) (d : Ordering)
      → At s k leaf
      → IsNew s a
      → count_above a k ≡ 0
      → parent_of k ≢ nil
      → Fits k d
      → At (link_child a (parent_of k) d (set_parent a (parent_of k) s)) k (single a)
  unfolding link_child
  link_child-At s top a d h new fresh n fits = absurd (n refl)
  link_child-At s (in_left c p r k) a d h new fresh n fits =
      rw fits (link_left-At s k r c p a h new fresh)
  link_child-At s (in_right l c p k) a Ordering.lt h new fresh n fits = absurd (fits refl)
  link_child-At s (in_right l c p k) a Ordering.eq h new fresh n fits =
      link_right-At s k l c p a h new fresh
  link_child-At s (in_right l c p k) a Ordering.gt h new fresh n fits =
      link_right-At s k l c p a h new fresh

  pub link_child-SameRest :
      (s : RbTree V S) (a p : Ptr) (d : Ordering) → SameRest s (link_child a p d (set_parent a p s))
  unfolding link_child
  link_child-SameRest s a p d = ground arith
