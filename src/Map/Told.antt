-- ===== src/Map/Told.antt =====
-- `_mulle_rbtree_remove_node` and `_mulle_rbtree_remove` (src/mulle-rbtree.c) in any tree: with dirty
-- flags, the walk over the dirty nodes comes last.
use mulle_rbtree.Base.{
  if◌then◌else◌, ◌==◌, ◌&&◌, ℕ, ◌<◌, ◌≤◌, Bool, true, false, ◌≡◌, refl, sym, ◌∙◌, ap, subst, some,
  List, ◌∷◌, ◌++◌, length, arith,
}
use mulle_rbtree.Storage.{Ptr, Storage}
use mulle_rbtree.Order.{IsComparison, Sorted, Sorted-remove}
use mulle_rbtree.RbTree.{RbTree, has_option, use_dirty, mark_node_as_dirty}
use mulle_rbtree.RbTree.Value.{values, values-payload}
use mulle_rbtree.RbTree.Marks.{SameLinks, mark_node_as_dirty-SameLinks}
use mulle_rbtree.RbTree.Recolor.{At-SameLinks}
use mulle_rbtree.RbTree.Rest.{Returns, returns, Returns-some}
use mulle_rbtree.RbTree.Navigate.Steps.{Position}
use mulle_rbtree.RbTree.Find.{find_node}
use mulle_rbtree.RbTree.Find.Exact.{Found, hit, miss, find_node-Found}
use mulle_rbtree.RbTree.Remove.{remove_node}
use mulle_rbtree.RbTree.Remove.Whole.{remove_node-Removed, unmarked}
use mulle_rbtree.Map.{enoent, Callbacks, remove, remove_value_node, walk_dirty_values}
use mulle_rbtree.Map.Absent.{Position-inorder}
use mulle_rbtree.Map.Freed.{has_option-options}
use mulle_rbtree.Map.Remove.{
  remove_value_node_lem, TakenOut, Taken, taken, absent, remove-hit, remove-miss,
}
use mulle_rbtree.Shape.{Shape, inorder, size}
use mulle_rbtree.Shape.Balance.{IsRedBlack}
use mulle_rbtree.Shape.Length.{length-append, length-inorder}
use mulle_rbtree.Shape.Zipper.{IsTree}
use mulle_rbtree.Map.Reports.{Walks, Tells, Told, walk_dirty_values-Reported}

module _ {V S W : Type 0} (storage : Storage V S) (callbacks : Callbacks V W) where
  Position-SameLinks :
      (s s' : RbTree V S) (t : Shape) (p : Ptr) (ys zs : List Ptr)
      → SameLinks s s'
      → Position s t p ys zs
      → Position s' t p ys zs
  Position-SameLinks s s' t p ys zs e h = record {
    context = h.context;
    lower = h.lower;
    color = h.color;
    upper = h.upper;
    at = At-SameLinks s s' _ _ e h.at;
    whole = h.whole;
    behind = h.behind;
    ahead = h.ahead;
  }

  remove_value_node-dirty :
      (fuel : ℕ) (p : Ptr) (s s' : RbTree V S) (w : W) (o : RbTree V S × W)
      → has_option use_dirty s ≡ true
      → remove_node storage fuel p (mark_node_as_dirty fuel p s) ≡ some s'
      → has_option use_dirty s' ≡ true
      → walk_dirty_values callbacks fuel (s', callbacks.release (values s p) w) ≡ some o
      → remove_value_node storage callbacks fuel p (s, w) ≡ some o
  unfolding remove_value_node
  remove_value_node-dirty fuel p s s' w o d e d' g = rw (d, e, d', g) refl

  -- the node is out, and its value was released, before the walk
  pub record ToldOut (fuel : ℕ) (r : Bool) (s : RbTree V S) (p : Ptr) (w : W) (xs : List Ptr)
      (o : RbTree V S × W) : Type 0 where
    pub before : RbTree V S × W
    pub unlinked :
        remove_node storage fuel p (if r then mark_node_as_dirty fuel p s else s) ≡ some before.0
    pub out : TakenOut storage callbacks s p w xs before
    pub walks : Walks callbacks fuel r before o
    pub links : SameLinks before.0 o.0
    pub tells : Tells callbacks r before.1 o.1

  removed-size :
      (t t' : Shape) (p : Ptr) (ys zs : List Ptr)
      → inorder t ≡ ys ++ p ∷ zs
      → inorder t' ≡ ys ++ zs
      → size t' ≤ size t
  removed-size t t' p ys zs e e' = omega (
    arith,
    length-inorder t,
    length-inorder t',
    ap length e,
    ap length e',
    length-append ys zs,
    length-append ys (p ∷ zs),
  )

  -- Removing a node from a red-black tree of values, with or without dirty flags, with more fuel
  -- than nodes, releases the value of the node once and takes the node out of the tree, where it
  -- was marked as dirty first if there are dirty flags, and leaves a red-black tree of the other
  -- nodes in the order they had; with dirty flags the tree and the state of the callbacks are then
  -- those that the walk over the dirty nodes led to, which changed no link and only ran the dirty
  -- callback, if anything.
  pub remove_value_node-ToldOut :
      (fuel : ℕ) (s : RbTree V S) (w : W) (t : Shape) (p : Ptr) (ys zs : List Ptr) (r : Bool)
      → Position s t p ys zs
      → IsRedBlack t
      → size t < fuel
      → has_option use_dirty s ≡ r
      → Returns
          (ToldOut fuel r s p w (ys ++ zs))
          (remove_value_node storage callbacks fuel p (s, w))
  remove_value_node-ToldOut fuel s w t p ys zs false h rb f d =
      let (s', e, out) = Returns-some (remove_node-Removed storage fuel s t p ys zs h rb f) in
      let w₁ = callbacks.release (values s p) w in
      rw
        (remove_value_node_lem storage callbacks fuel p s s' w d e
          (has_option-options use_dirty s' s out.options ∙ d))
        (returns (record {
          before = (s', w₁);
          unlinked = e;
          out = record { removed = out; released = refl };
          walks = refl;
          links = ground arith;
          tells = refl;
        }))
  remove_value_node-ToldOut fuel s w t p ys zs true h rb f d =
      let s₁ = mark_node_as_dirty fuel p s in
      let e₁ = mark_node_as_dirty-SameLinks fuel p s in
      let (s', e, a) = Returns-some (
        remove_node-Removed storage fuel s₁ t p ys zs (Position-SameLinks s s₁ t p ys zs e₁ h) rb
          f) in
      let out = unmarked storage e₁ s' a in
      let w₁ = callbacks.release (values s p) w in
      let small = removed-size t out.shape p ys zs (Position-inorder s t p ys zs h) out.order in
      let (q, g, g', walked) =
        walk_dirty_values-Reported callbacks fuel s' out.shape w₁ out.tree
          (omega (arith, f, small)) in
      rw
        (remove_value_node-dirty fuel p s s' w q d e
          (has_option-options use_dirty s' s out.options ∙ d) g)
        (returns (record {
          before = (s', w₁);
          unlinked = e;
          out = record { removed = out; released = refl };
          walks = g';
          links = walked.links;
          tells = walked.notified;
        }))

  module _ (law : IsComparison callbacks.comparison) where
    remove-Found :
        (fuel : ℕ) (key : V) (s : RbTree V S) (w : W) (t : Shape) (p : Ptr) (r : Bool)
        → IsRedBlack t
        → Sorted callbacks.comparison (values s) (inorder t)
        → size t < fuel
        → has_option use_dirty s ≡ r
        → Found callbacks.comparison law key s t p
        → find_node callbacks.comparison fuel key s ≡ some p
        → Returns
            (Told callbacks fuel (λ n. (n == 0) && r) (Taken storage callbacks law s t key w))
            (remove storage callbacks fuel key (s, w))
    remove-Found fuel key s w t p r rb sorted f d (hit {ys} {zs} at q) e =
        let (o, g, a) = Returns-some (remove_value_node-ToldOut fuel s w t p ys zs r at rb f d) in
        rw (remove-hit storage callbacks law fuel key s w p o at.at.focus.0 e g) (
          returns (record {
            before = (0, a.before.0, a.before.1);
            holds =
                taken p ys zs at q a.out
                  (subst (λ m. Sorted callbacks.comparison m (ys ++ zs))
                    (sym (values-payload s a.before.0 a.out.removed.payload a.out.removed.options))
                    (Sorted-remove callbacks.comparison (values s) ys zs p (
                      subst (Sorted callbacks.comparison (values s))
                        (Position-inorder s t p ys zs at) sorted)))
                  refl;
            code = refl;
            walks = a.walks;
            links = a.links;
            tells = a.tells;
          }))
    remove-Found fuel key s w t p r rb sorted f d (miss n h) e =
        rw (remove-miss storage callbacks law fuel key s w p n e) (
          returns (record {
            before = (enoent, s, w);
            holds = absent h refl refl refl;
            code = refl;
            walks = refl;
            links = ground arith;
            tells = refl;
          }))

    -- Removing a value from a sorted red-black tree, with or without dirty flags, with more fuel
    -- than nodes: either the result is 0, one node with an equal value is gone, its value was
    -- released once, and the others stand in a sorted red-black tree in the order they had, and
    -- with dirty flags the tree and the state of the callbacks are then those that the walk over
    -- the dirty nodes led to, which changed no link and only ran the dirty callback, if anything;
    -- or no node has an equal value, and the result is ENOENT and the tree and the state of the
    -- callbacks are as they were.
    pub remove-Told :
        (fuel : ℕ) (key : V) (s : RbTree V S) (w : W) (t : Shape) (r : Bool)
        → IsTree s t
        → IsRedBlack t
        → Sorted callbacks.comparison (values s) (inorder t)
        → size t < fuel
        → has_option use_dirty s ≡ r
        → Returns
            (Told callbacks fuel (λ n. (n == 0) && r) (Taken storage callbacks law s t key w))
            (remove storage callbacks fuel key (s, w))
    remove-Told fuel key s w t r h rb sorted f d =
        let (p, e, found) =
          Returns-some (find_node-Found callbacks.comparison law key s fuel t h sorted f) in
        remove-Found fuel key s w t p r rb sorted f d found e
