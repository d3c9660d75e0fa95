-- ===== src/RbTree/Insert/Place.antt =====
-- The places that `_mulle__rbtree_insert_node_before_node` and
-- `_mulle__rbtree_insert_node_after_node` (src/mulle--rbtree.c) find.
use mulle_rbtree.Base.{
  ℕ, ◌<◌, Bool, ◌≡◌, ◌≢◌, refl, sym, ◌∙◌, ap, subst, some, List, ◌∷◌, ◌++◌, Ordering, arith,
}
use mulle_rbtree.Storage.{Ptr, nil}
use mulle_rbtree.RbTree.{RbTree}
use mulle_rbtree.RbTree.Rest.{Returns, Returns-some}
use mulle_rbtree.RbTree.Navigate.{find_leftmost_node, find_rightmost_node}
use mulle_rbtree.RbTree.Navigate.Ends.{
  LeftEnd, RightEnd, find_leftmost_node-LeftEnd, find_rightmost_node-RightEnd,
}
use mulle_rbtree.RbTree.Navigate.Steps.{Position, size-plug}
use mulle_rbtree.RbTree.Insert.{attach_node, insert_node_before_node, insert_node_after_node}
use mulle_rbtree.RbTree.Insert.Rebalance.{Fits}
use mulle_rbtree.RbTree.Fixup.Blacken.{Rebalanced}
use mulle_rbtree.RbTree.Insert.Link.{IsNew}
use mulle_rbtree.RbTree.Insert.Attach.{attach_node-Rebalanced}
use mulle_rbtree.Shape.{
  Shape, leaf, node, Context, in_left, in_right, parent_of, count, inorder, before, after, plug,
  size,
}
use mulle_rbtree.Shape.Refocus.{count-plug}
use mulle_rbtree.Shape.Balance.{IsRedBlack, list_laws}
use mulle_rbtree.Shape.Zipper.{At, down_left, down_right}

-- the same nodes on both sides
along : (a : Ptr) {us us' vs vs' : List Ptr} → us ≡ us' → vs ≡ vs' → us ++ a ∷ vs ≡ us' ++ a ∷ vs'
along a {us} {vs'} e g = ap (λ q. us ++ a ∷ q) g ∙ ap (λ q. q ++ a ∷ vs') e

module _ {V S : Type 0} (s : RbTree V S) (a : Ptr) (t : Shape) (new : IsNew s a)
    (fresh : count a t ≡ 0) (rb : IsRedBlack t) (fuel : ℕ) (f : size t < fuel) where
  -- below any free place of the tree
  pub attach_node-place :
      (k : Context) (d : Ordering) (xs : List Ptr)
      → At s k leaf
      → plug k leaf ≡ t
      → Fits k d
      → before k ++ a ∷ after k ≡ xs
      → Returns (Rebalanced s xs) (attach_node fuel a (parent_of k) d s)
  attach_node-place k d xs h w fits e =
      subst (λ xs. Returns (Rebalanced s xs) (attach_node fuel a (parent_of k) d s)) e
        (attach_node-Rebalanced fuel k a d s h new
          (omega (arith, fresh, count-plug a k leaf, ap (count a) w)) fits
          (subst IsRedBlack (sym w) rb) (omega (arith, f, size-plug k leaf, ap size w)))

  insert_before-leaf :
      (p : Ptr)
      → s.left p ≡ nil
      → insert_node_before_node fuel a p s ≡ attach_node fuel a p Ordering.lt s
  unfolding insert_node_before_node
  insert_before-leaf p e = ground arith

  insert_before-child :
      (p y x : Ptr)
      → s.left p ≡ y
      → y ≢ nil
      → find_rightmost_node fuel y s ≡ some x
      → insert_node_before_node fuel a p s ≡ attach_node fuel a x Ordering.gt s
  unfolding insert_node_before_node
  insert_before-child p y x e n g = ground arith

  insert_after-leaf :
      (p : Ptr)
      → s.right p ≡ nil
      → insert_node_after_node fuel a p s ≡ attach_node fuel a p Ordering.gt s
  unfolding insert_node_after_node
  insert_after-leaf p e = ground arith

  insert_after-child :
      (p y x : Ptr)
      → s.right p ≡ y
      → y ≢ nil
      → find_leftmost_node fuel y s ≡ some x
      → insert_node_after_node fuel a p s ≡ attach_node fuel a x Ordering.lt s
  unfolding insert_node_after_node
  insert_after-child p y x e n g = ground arith

  -- below the last node of the left subtree of `p`
  before-RightEnd :
      (k : Context) (l r : Shape) (c : Bool) (p x : Ptr) (xs : List Ptr)
      → plug k (node l c p r) ≡ t
      → (before k ++ inorder l) ++ a ∷ p ∷ (inorder r ++ after k) ≡ xs
      → RightEnd s (in_left c p r k) l x
      → Returns (Rebalanced s xs) (attach_node fuel a x Ordering.gt s)
  before-RightEnd k l r c p x xs w e end =
      attach_node-place (in_right end.lower end.color x end.context) Ordering.gt xs
        (down_right end.at) (end.whole ∙ w) (λ q. absurd (ground (arith, q)))
        ((simp list_laws) ∙ (along a end.behind end.ahead ∙ e))

  -- below the first node of the right subtree of `p`
  after-LeftEnd :
      (k : Context) (l r : Shape) (c : Bool) (p x : Ptr) (xs : List Ptr)
      → plug k (node l c p r) ≡ t
      → (before k ++ inorder l) ++ p ∷ a ∷ (inorder r ++ after k) ≡ xs
      → LeftEnd s (in_right l c p k) r x
      → Returns (Rebalanced s xs) (attach_node fuel a x Ordering.lt s)
  after-LeftEnd k l r c p x xs w e end =
      attach_node-place (in_left end.color x end.upper end.context) Ordering.lt xs
        (down_left end.at) (end.whole ∙ w) refl
        (along a end.behind end.ahead ∙ ((simp list_laws) ∙ e))

  insert_before-At :
      (k : Context) (l r : Shape) (c : Bool) (p : Ptr) (xs : List Ptr)
      → At s k (node l c p r)
      → plug k (node l c p r) ≡ t
      → (before k ++ inorder l) ++ a ∷ p ∷ (inorder r ++ after k) ≡ xs
      → Returns (Rebalanced s xs) (insert_node_before_node fuel a p s)
  insert_before-At k leaf r c p xs h w e = rw (insert_before-leaf p h.focus.2) (
      attach_node-place (in_left c p r k) Ordering.lt xs (down_left h) w refl
        ((simp list_laws) ∙ e))
  insert_before-At k (node l d b m) r c p xs h w e =
      let lower = down_left h in
      let (x, found, end) = Returns-some (
        find_rightmost_node-RightEnd fuel s (in_left c p r k) m d b l lower
          (omega (arith, f, size-plug k (node (node l d b m) c p r), ap size w))) in
      rw (insert_before-child p b x h.focus.2 lower.focus.0 found)
        (before-RightEnd k (node l d b m) r c p x xs w e end)

  insert_after-At :
      (k : Context) (l r : Shape) (c : Bool) (p : Ptr) (xs : List Ptr)
      → At s k (node l c p r)
      → plug k (node l c p r) ≡ t
      → (before k ++ inorder l) ++ p ∷ a ∷ (inorder r ++ after k) ≡ xs
      → Returns (Rebalanced s xs) (insert_node_after_node fuel a p s)
  insert_after-At k l leaf c p xs h w e = rw (insert_after-leaf p h.focus.3) (
      attach_node-place (in_right l c p k) Ordering.gt xs (down_right h) w
        (λ q. absurd (ground (arith, q))) ((simp list_laws) ∙ e))
  insert_after-At k l (node m d b r) c p xs h w e =
      let upper = down_right h in
      let (x, found, end) = Returns-some (
        find_leftmost_node-LeftEnd fuel s (in_right l c p k) m d b r upper
          (omega (arith, f, size-plug k (node l c p (node m d b r)), ap size w))) in
      rw (insert_after-child p b x h.focus.3 upper.focus.0 found)
        (after-LeftEnd k l (node m d b r) c p x xs w e end)

  -- A new node that is inserted before a node of a red-black tree, with more fuel than nodes,
  -- stands directly before it in the red-black tree that results, and nothing else changes in the
  -- order.
  pub insert_node_before_node-Rebalanced :
      (p : Ptr) (ys zs : List Ptr)
      → Position s t p ys zs
      → Returns (Rebalanced s (ys ++ a ∷ p ∷ zs)) (insert_node_before_node fuel a p s)
  insert_node_before_node-Rebalanced p ys zs h =
      insert_before-At h.context h.lower h.upper h.color p (ys ++ a ∷ p ∷ zs) h.at h.whole
        (rw (h.behind, h.ahead) refl)

  -- A new node that is inserted after a node of a red-black tree, with more fuel than nodes,
  -- stands directly after it in the red-black tree that results, and nothing else changes in the
  -- order.
  pub insert_node_after_node-Rebalanced :
      (p : Ptr) (ys zs : List Ptr)
      → Position s t p ys zs
      → Returns (Rebalanced s (ys ++ p ∷ a ∷ zs)) (insert_node_after_node fuel a p s)
  insert_node_after_node-Rebalanced p ys zs h =
      insert_after-At h.context h.lower h.upper h.color p (ys ++ p ∷ a ∷ zs) h.at h.whole
        (rw (h.behind, h.ahead) refl)
