-- ===== src/RbTree/Insert/Attach.antt =====
-- `_mulle__rbtree_attach_node` (src/mulle--rbtree.c) at a free place of a red-black tree.
use mulle_rbtree.Base.{
  ℕ, ◌<◌, true, false, ◌≡◌, ◌≢◌, refl, ◌∙◌, ap, some, [], ◌∷◌, ◌++◌, Ordering, if◌then◌else◌, arith,
}
use mulle_rbtree.Storage.{Ptr, nil}
use mulle_rbtree.RbTree.{
  RbTree, update, set_root, set_parent, set_color, has_option, use_dirty, mark_node_as_dirty,
}
use mulle_rbtree.RbTree.Recolor.{At-SameLinks}
use mulle_rbtree.RbTree.Marks.{SameLinks, mark_node_as_dirty-SameLinks}
use mulle_rbtree.RbTree.Rest.{Returns, returns, Returns-mono, Returns-some, SameRest-trans}
use mulle_rbtree.RbTree.Fixup.{red_red_fixup}
use mulle_rbtree.RbTree.Insert.{link_child, attach_balanced, attach_node}
use mulle_rbtree.Shape.{
  leaf, node, Context, top, in_left, in_right, parent_of, count_above, before, after, plug, depth,
  is_red,
}
use mulle_rbtree.Shape.Balance.{IsRedBlack, CalmAbove, list_laws}
use mulle_rbtree.Shape.Unplug.{BlackRoot-flip, Calm-unplug, BlackRoot-unplug, is_red-plug}
use mulle_rbtree.Shape.Zipper.{At, IsTree}
use mulle_rbtree.RbTree.Insert.Rebalance.{
  Fits, single, Strained-single, red_red_fixup-Rebalanced, Rebalanced-plug,
}
use mulle_rbtree.RbTree.Fixup.Blacken.{Rebalanced}
use mulle_rbtree.RbTree.Insert.Link.{IsNew, link_child-At, link_child-SameRest}

module _ {V S : Type 0} where
  alone-At :
      (a : Ptr) (s : RbTree V S)
      → IsTree s leaf
      → IsNew s a
      → IsTree (set_color a false (set_root a (set_parent a nil s))) (node leaf false a leaf)
  unfolding update
  alone-At a s h new = record {
    focus = (new.ne_nil, ground arith, new.left, new.right, ground arith, tt, tt);
    path = refl;
    distinct = λ b. ground arith;
    nil_node = ground (arith, h.nil_node, new.ne_nil);
  }

  attach_balanced-top :
      (fuel : ℕ) (a : Ptr) (d : Ordering) (s : RbTree V S)
      → IsTree s leaf
      → IsNew s a
      → Returns (Rebalanced s (a ∷ [])) (attach_balanced fuel a nil d s)
  unfolding attach_balanced
  attach_balanced-top fuel a d s h new = returns (record {
    shape = node leaf false a leaf;
    tree = alone-At a s h new;
    order = refl;
    red_black = record {
      black_root = refl;
      calm = (refl, refl, tt, tt);
      balanced = (refl, tt, tt);
    };
    rest = record { payload = refl; nodes = refl; options = refl };
  })

  attach_balanced-below :
      (fuel : ℕ) (a : Ptr) (d : Ordering) (s : RbTree V S) (p : Ptr)
      → p ≢ nil
      → attach_balanced fuel a p d s ≡ (
          if (link_child a p d (set_parent a p s)).red p
          then red_red_fixup fuel a (link_child a p d (set_parent a p s))
          else some (link_child a p d (set_parent a p s)))
  unfolding attach_balanced
  attach_balanced-below fuel a d s p n = ground arith

  red_parent :
      (fuel : ℕ) (k : Context) (a : Ptr) (d : Ordering) (s : RbTree V S)
      → At s k leaf
      → IsNew s a
      → count_above a k ≡ 0
      → parent_of k ≢ nil
      → Fits k d
      → IsRedBlack (plug k leaf)
      → depth k < fuel
      → (link_child a (parent_of k) d (set_parent a (parent_of k) s)).red (parent_of k) ≡ true
      → Returns (Rebalanced s (before k ++ a ∷ after k)) (attach_balanced fuel a (parent_of k) d s)
  red_parent fuel k a d s h new fresh n fits rb f e =
      let s' = link_child a (parent_of k) d (set_parent a (parent_of k) s) in
      rw (attach_balanced-below fuel a d s (parent_of k) n, e)
        (Returns-mono
          (red_red_fixup-Rebalanced fuel k leaf leaf s' a (before k ++ a ∷ after k)
            (link_child-At s k a d h new fresh n fits) (Strained-single k a rb) (simp list_laws) f)
          (λ t r. record {
            shape = r.shape;
            tree = r.tree;
            order = r.order;
            red_black = r.red_black;
            rest = SameRest-trans (link_child-SameRest s a (parent_of k) d) r.rest;
          }))

  black_parent :
      (fuel : ℕ) (k : Context) (a : Ptr) (d : Ordering) (s : RbTree V S)
      → At s k leaf
      → IsNew s a
      → count_above a k ≡ 0
      → parent_of k ≢ nil
      → Fits k d
      → IsRedBlack (plug k leaf)
      → CalmAbove true k
      → is_red (plug k (single a)) ≡ false
      → (link_child a (parent_of k) d (set_parent a (parent_of k) s)).red (parent_of k) ≡ false
      → Returns (Rebalanced s (before k ++ a ∷ after k)) (attach_balanced fuel a (parent_of k) d s)
  black_parent fuel k a d s h new fresh n fits rb calm black e =
      let s' = link_child a (parent_of k) d (set_parent a (parent_of k) s) in
      rw (attach_balanced-below fuel a d s (parent_of k) n, e)
        (returns (
          Rebalanced-plug s s' k a (before k ++ a ∷ after k)
            (link_child-At s k a d h new fresh n fits) (Strained-single k a rb) calm black
            (simp list_laws) (link_child-SameRest s a (parent_of k) d)))

  link_child-red :
      (s : RbTree V S) (a p : Ptr) (d : Ordering)
      → (link_child a p d (set_parent a p s)).red ≡ s.red
  unfolding link_child
  link_child-red s a p d = ground arith

  -- A new node hung below a red-black tree: the result is a red-black tree with the node between
  -- those before and those after its place.
  pub attach_balanced-Rebalanced :
      (fuel : ℕ) (k : Context) (a : Ptr) (d : Ordering) (s : RbTree V S)
      → At s k leaf
      → IsNew s a
      → count_above a k ≡ 0
      → Fits k d
      → IsRedBlack (plug k leaf)
      → depth k < fuel
      → Returns (Rebalanced s (before k ++ a ∷ after k)) (attach_balanced fuel a (parent_of k) d s)
  attach_balanced-Rebalanced fuel top a d s h new fresh fits rb f =
      attach_balanced-top fuel a d s h new
  attach_balanced-Rebalanced fuel (in_left true p r k) a d s h new fresh fits rb f =
      red_parent fuel (in_left true p r k) a d s h new fresh h.path.0 fits rb f
        (ap (λ g. g p) (link_child-red s a p d) ∙ h.path.4)
  attach_balanced-Rebalanced fuel (in_right l true p k) a d s h new fresh fits rb f =
      red_parent fuel (in_right l true p k) a d s h new fresh h.path.0 fits rb f
        (ap (λ g. g p) (link_child-red s a p d) ∙ h.path.4)
  attach_balanced-Rebalanced fuel (in_left false p r k) a d s h new fresh fits rb f =
      let above = (Calm-unplug (in_left false p r k) leaf rb.calm).1 in
      let root = BlackRoot-unplug (in_left false p r k) leaf rb.black_root in
      black_parent fuel (in_left false p r k) a d s h new fresh h.path.0 fits rb
        (refl, above.1, above.2, above.3) (is_red-plug k (single a) r false p root)
        (ap (λ g. g p) (link_child-red s a p d) ∙ h.path.4)
  attach_balanced-Rebalanced fuel (in_right l false p k) a d s h new fresh fits rb f =
      let above = (Calm-unplug (in_right l false p k) leaf rb.calm).1 in
      let root = BlackRoot-unplug (in_right l false p k) leaf rb.black_root in
      black_parent fuel (in_right l false p k) a d s h new fresh h.path.0 fits rb
        (refl, above.1, above.2, above.3)
        (is_red-plug k l (single a) false p (BlackRoot-flip k l (single a) false p root))
        (ap (λ g. g p) (link_child-red s a p d) ∙ h.path.4)

  attach_node_lem :
      (fuel : ℕ) (a p : Ptr) (d : Ordering) (s s' : RbTree V S)
      → attach_balanced fuel a p d s ≡ some s'
      → attach_node fuel a p d s
        ≡ some (if has_option use_dirty s' then mark_node_as_dirty fuel a s' else s')
  unfolding attach_node
  attach_node_lem fuel a p d s s' e = ground arith

  -- A new node attached at any free place of a red-black tree, on the side that the sign says,
  -- ends in a red-black tree that has the node between those before and those after its place,
  -- with more fuel than the place is deep.
  pub attach_node-Rebalanced :
      (fuel : ℕ) (k : Context) (a : Ptr) (d : Ordering) (s : RbTree V S)
      → At s k leaf
      → IsNew s a
      → count_above a k ≡ 0
      → Fits k d
      → IsRedBlack (plug k leaf)
      → depth k < fuel
      → Returns (Rebalanced s (before k ++ a ∷ after k)) (attach_node fuel a (parent_of k) d s)
  attach_node-Rebalanced fuel k a d s h new fresh fits rb f =
      let (s', e, r) =
        Returns-some (attach_balanced-Rebalanced fuel k a d s h new fresh fits rb f) in
      let s₂ = if has_option use_dirty s' then mark_node_as_dirty fuel a s' else s' in
      let same : SameLinks s' s₂ = ground (arith, mark_node_as_dirty-SameLinks fuel a s') in
      rw (attach_node_lem fuel a (parent_of k) d s s' e) (
        returns (record {
          shape = r.shape;
          tree = At-SameLinks s' s₂ top r.shape same r.tree;
          order = r.order;
          red_black = r.red_black;
          rest =
              SameRest-trans r.rest
                (record { payload = same.payload; nodes = same.nodes; options = same.options });
        }))
