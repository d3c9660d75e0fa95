-- ===== src/Map/AddTold.antt =====
-- `_mulle_rbtree_add` (src/mulle-rbtree.c) in any tree: with dirty flags, the walk over the dirty nodes
-- comes last.
use mulle_rbtree.Base.{
  ℕ, ◌+◌, ◌<◌, ◌≤◌, Bool, true, false, ◌≡◌, ◌≢◌, refl, ◌∙◌, ap, ◌∷◌, length, arith,
}
use mulle_rbtree.Storage.{Ptr, nil, Storage}
use mulle_rbtree.Order.{IsComparison, Sorted}
use mulle_rbtree.RbTree.Value.{values, stored}
use mulle_rbtree.RbTree.{RbTree, has_option, use_dirty}
use mulle_rbtree.RbTree.Rest.{Returns, returns, Returns-mono, Returns-some}
use mulle_rbtree.Map.{Callbacks, add}
use mulle_rbtree.Map.Freed.{has_option-options}
use mulle_rbtree.Map.Add.{add-Added, add-dirty}
use mulle_rbtree.Map.Unreported.{Added, refused, added, unreported-Added, Added-options}
use mulle_rbtree.Shape.{Shape, count, inorder, size}
use mulle_rbtree.Shape.Balance.{IsRedBlack}
use mulle_rbtree.Shape.Length.{length-append, length-inorder}
use mulle_rbtree.Shape.Zipper.{IsTree}
use mulle_rbtree.Map.Reports.{Told, quiet, walk_dirty_values-Reported}

module _ {V S W : Type 0} (storage : Storage V S) (callbacks : Callbacks V W) where
  module _ (law : IsComparison callbacks.comparison) where
    Added-IsTree :
        (s : RbTree V S) (t : Shape) (p : Ptr) (v k : V) (w : W) (o : ℕ × RbTree V S × W)
        → Added storage callbacks law s t p v k w o
        → (t' : Shape) × IsTree o.1 t' × (size t' ≤ size t + 1)
    Added-IsTree s t p v k w o (refused g at q tree others options nodes c state) =
        (t, tree, omega arith)
    Added-IsTree s t p v k w o
          (added t' ys zs split tree order rb sorted low high own others options nodes c state) =
        (
          t',
          tree,
          omega (
            arith,
            length-inorder t,
            length-inorder t',
            ap length order,
            ap length split,
            length-append ys zs,
            length-append ys (p ∷ zs),
          ),
        )

    -- Adding a value to a sorted red-black tree, with or without dirty flags, with fuel for one
    -- node more than the tree has, where the pool hands out a node that is not nil and not in the
    -- tree: the value is refused with EEXIST or added in a new node, as in a tree without dirty
    -- flags, and with dirty flags the tree and the state of the callbacks are then those that the
    -- walk over the dirty nodes led to, which changed no link and only ran the dirty callback, if
    -- anything.
    pub add-Told :
        (fuel : ℕ) (value : V) (s : RbTree V S) (w : W) (t : Shape) (r : Bool)
        → IsTree s t
        → IsRedBlack t
        → Sorted callbacks.comparison (values s) (inorder t)
        → size t + 1 < fuel
        → has_option use_dirty s ≡ r
        → (storage.malloc s.nodes).0 ≢ nil
        → count (storage.malloc s.nodes).0 t ≡ 0
        → Returns
            (Told callbacks fuel
              (λ _. r)
              (Added storage callbacks law s t
                (storage.malloc s.nodes).0
                (callbacks.retain value w).0
                (stored storage
                  (record s { nodes = (storage.malloc s.nodes).1 })
                  (callbacks.retain value w).0)
                (callbacks.retain value w).1))
            (add storage callbacks fuel value (s, w))
    add-Told fuel value s w t false h rb sorted f d n fresh =
        Returns-mono
          (add-Added storage callbacks law fuel value s w t h rb sorted (omega (arith, f)) d n
            fresh)
          (λ o a. quiet callbacks fuel _ o a)
    add-Told fuel value s w t true h rb sorted f d n fresh =
        let (o, e, a) = Returns-some (
          unreported-Added storage callbacks law fuel value s w t h rb sorted (omega (arith, f)) n
            fresh) in
        let (t', tree, bound) = Added-IsTree s t _ _ _ _ o a in
        let (q, g, g', walked) =
          walk_dirty_values-Reported callbacks fuel o.1 t' o.2 tree (omega (arith, f, bound)) in
        rw
          (add-dirty storage callbacks law fuel value s w o q e
            (has_option-options use_dirty o.1 s
                (Added-options storage callbacks law fuel value s w t o a)
              ∙ d)
            g)
          (returns (record {
            before = o;
            holds = a;
            code = refl;
            walks = g';
            links = walked.links;
            tells = walked.notified;
          }))
