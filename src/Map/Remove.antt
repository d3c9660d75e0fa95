-- ===== src/Map/Remove.antt =====
-- `_mulle_rbtree_remove` and `_mulle_rbtree_remove_node` (src/mulle-rbtree.c) in a tree without dirty
-- flags.
use mulle_rbtree.Base.{
  arith, ℕ, ◌<◌, false, ◌≡◌, ◌≢◌, refl, sym, ◌∙◌, subst, some, List, ◌++◌, Ordering,
}
use mulle_rbtree.Storage.{Ptr, nil, Storage}
use mulle_rbtree.Order.{All, IsComparison, Sorted, Sorted-remove}
use mulle_rbtree.RbTree.{RbTree, is_nil_node, has_option, use_dirty}
use mulle_rbtree.RbTree.Value.{values, values-payload}
use mulle_rbtree.RbTree.Rest.{Returns, returns, Returns-some}
use mulle_rbtree.RbTree.Navigate.Steps.{Position}
use mulle_rbtree.RbTree.Find.{find_node}
use mulle_rbtree.RbTree.Find.Exact.{Found, hit, miss, find_node-Found}
use mulle_rbtree.RbTree.Remove.{remove_node}
use mulle_rbtree.RbTree.Remove.Finish.{Removed}
use mulle_rbtree.RbTree.Remove.Whole.{remove_node-Removed}
use mulle_rbtree.Map.{Callbacks, remove, remove_value_node, enoent}
use mulle_rbtree.Map.Absent.{Position-inorder}
use mulle_rbtree.Map.Freed.{has_option-options}
use mulle_rbtree.Shape.{Shape, inorder, size}
use mulle_rbtree.Shape.Balance.{IsRedBlack}
use mulle_rbtree.Shape.Zipper.{IsTree}

not_nil : (p : Ptr) → p ≢ nil → is_nil_node p ≡ false
not_nil p n = ground arith

module _ {V S W : Type 0} (storage : Storage V S) (callbacks : Callbacks V W) where
  -- the tree without the node, whose value was released once
  pub record TakenOut (s : RbTree V S) (p : Ptr) (w : W) (xs : List Ptr) (o : RbTree V S × W)
      : Type 0 where
    pub removed : Removed storage p s xs o.0
    pub released : o.1 ≡ callbacks.release (values s p) w

  pub remove_value_node_lem :
      (fuel : ℕ) (p : Ptr) (s s' : RbTree V S) (w : W)
      → has_option use_dirty s ≡ false
      → remove_node storage fuel p s ≡ some s'
      → has_option use_dirty s' ≡ false
      → remove_value_node storage callbacks fuel p (s, w)
        ≡ some (s', callbacks.release (values s p) w)
  unfolding remove_value_node
  remove_value_node_lem fuel p s s' w d e d' = rw (d, e, d') refl

  -- Removing a node from a red-black tree of values without dirty flags, with more fuel than
  -- nodes, releases the value of the node once and leaves a red-black tree of the other nodes in
  -- the order they had.
  pub remove_value_node-TakenOut :
      (fuel : ℕ) (s : RbTree V S) (w : W) (t : Shape) (p : Ptr) (ys zs : List Ptr)
      → Position s t p ys zs
      → IsRedBlack t
      → size t < fuel
      → has_option use_dirty s ≡ false
      → Returns (TakenOut s p w (ys ++ zs)) (remove_value_node storage callbacks fuel p (s, w))
  remove_value_node-TakenOut fuel s w t p ys zs h rb f d =
      let (s', e, r) = Returns-some (remove_node-Removed storage fuel s t p ys zs h rb f) in
      rw (remove_value_node_lem fuel p s s' w d e (has_option-options use_dirty s' s r.options ∙ d))
        (returns (record { removed = r; released = refl }))

  module _ (law : IsComparison callbacks.comparison) where
    -- 0 and the tree without the first equal node found, or ENOENT and everything as it was
    pub data Taken (s : RbTree V S) (t : Shape) (key : V) (w : W) (o : ℕ × RbTree V S × W)
        : Type 0 where
      taken :
          (p : Ptr) (ys zs : List Ptr)
          → Position s t p ys zs
          → callbacks.comparison key (values s p) ≡ Ordering.eq
          → TakenOut s p w (ys ++ zs) (o.1, o.2)
          → Sorted callbacks.comparison (values o.1) (ys ++ zs)
          → o.0 ≡ 0
          → Taken s t key w o
      absent :
          All (λ q. callbacks.comparison key (values s q) ≢ Ordering.eq) (inorder t)
          → o.0 ≡ enoent
          → o.1 ≡ s
          → o.2 ≡ w
          → Taken s t key w o

    pub remove-hit :
        (fuel : ℕ) (key : V) (s : RbTree V S) (w : W) (p : Ptr) (o : RbTree V S × W)
        → p ≢ nil
        → find_node callbacks.comparison fuel key s ≡ some p
        → remove_value_node storage callbacks fuel p (s, w) ≡ some o
        → remove storage callbacks fuel key (s, w) ≡ some (0, o.0, o.1)
    unfolding remove
    remove-hit fuel key s w p o n e g = rw (e, not_nil p n, g) refl

    pub remove-miss :
        (fuel : ℕ) (key : V) (s : RbTree V S) (w : W) (p : Ptr)
        → p ≡ nil
        → find_node callbacks.comparison fuel key s ≡ some p
        → remove storage callbacks fuel key (s, w) ≡ some (enoent, s, w)
    unfolding remove
    remove-miss fuel key s w p n e = rw (e, n) refl

    remove-Found :
        (fuel : ℕ) (key : V) (s : RbTree V S) (w : W) (t : Shape) (p : Ptr)
        → IsRedBlack t
        → Sorted callbacks.comparison (values s) (inorder t)
        → size t < fuel
        → has_option use_dirty s ≡ false
        → Found callbacks.comparison law key s t p
        → find_node callbacks.comparison fuel key s ≡ some p
        → Returns (Taken s t key w) (remove storage callbacks fuel key (s, w))
    remove-Found fuel key s w t p rb sorted f d (hit {ys} {zs} at q) e =
        let (o, g, r) = Returns-some (remove_value_node-TakenOut fuel s w t p ys zs at rb f d) in
        rw (remove-hit fuel key s w p o at.at.focus.0 e g) (
          returns (
            taken p ys zs at q r
              (subst (λ m. Sorted callbacks.comparison m (ys ++ zs))
                (sym (values-payload s o.0 r.removed.payload r.removed.options))
                (Sorted-remove callbacks.comparison (values s) ys zs p (
                  subst (Sorted callbacks.comparison (values s)) (Position-inorder s t p ys zs at)
                    sorted)))
              refl))
    remove-Found fuel key s w t p rb sorted f d (miss n h) e =
        rw (remove-miss fuel key s w p n e) (returns (absent h refl refl refl))

    -- Removing a value from a sorted red-black tree without dirty flags, with more fuel than
    -- nodes: either the result is 0, one node with an equal value is gone, its value was released
    -- once, and the others stand in a sorted red-black tree in the order they had; or no node has
    -- an equal value, and the result is ENOENT and the tree and the state of the callbacks are as
    -- they were.
    pub remove-Taken :
        (fuel : ℕ) (key : V) (s : RbTree V S) (w : W) (t : Shape)
        → IsTree s t
        → IsRedBlack t
        → Sorted callbacks.comparison (values s) (inorder t)
        → size t < fuel
        → has_option use_dirty s ≡ false
        → Returns (Taken s t key w) (remove storage callbacks fuel key (s, w))
    remove-Taken fuel key s w t h rb sorted f d =
        let (p, e, found) =
          Returns-some (find_node-Found callbacks.comparison law key s fuel t h sorted f) in
        remove-Found fuel key s w t p rb sorted f d found e
