-- ===== src/Map/Add.antt =====
-- `_mulle_rbtree_add` (src/mulle-rbtree.c) in a tree without dirty flags.
use mulle_rbtree.Base.{
  if◌then◌else◌, none, Option, true, ◌>>=◌, ℕ, ◌<◌, false, ◌≡◌, ◌≢◌, refl, ◌∙◌, ap, some,
}
use mulle_rbtree.Storage.{nil, Storage}
use mulle_rbtree.Order.{IsComparison, Sorted}
use mulle_rbtree.RbTree.Value.{values, stored}
use mulle_rbtree.RbTree.{RbTree, has_option, use_dirty, init_node, new_node}
use mulle_rbtree.RbTree.Rest.{Returns, returns, Returns-some}
use mulle_rbtree.RbTree.Insert.{insert_node}
use mulle_rbtree.Map.{Callbacks, add, walk_dirty_values}
use mulle_rbtree.Map.Freed.{has_option-options}
use mulle_rbtree.Shape.{Shape, count, inorder, size}
use mulle_rbtree.Shape.Balance.{IsRedBlack}
use mulle_rbtree.Shape.Zipper.{IsTree}
use mulle_rbtree.Map.Unreported.{Added, unreported, unreported-Added, Added-options}

bind-bind :
    {A B C : Type 0} (i : Option A) (f : A → Option B) (h : B → Option C)
    → (i >>= λ a. f a >>= h) ≡ ((i >>= f) >>= h)
bind-bind none f h = refl
bind-bind (some a) f h = refl

module _ {V S W : Type 0} (storage : Storage V S) (callbacks : Callbacks V W)
    (law : IsComparison callbacks.comparison) where
  module _ (fuel : ℕ) (value : V) (s : RbTree V S) (w : W) where
    -- the walk, where the tree uses dirty flags
    abbrev report : ℕ × RbTree V S × W → Option (ℕ × RbTree V S × W)
    report o =
        let walked = do (s', w') ← walk_dirty_values callbacks fuel (o.1, o.2); some (o.0, s', w')
        in if has_option use_dirty o.1 then walked else some o

    add-report :
        add storage callbacks fuel value (s, w)
        ≡ (unreported storage callbacks law fuel value s w >>= report)
    unfolding add new_node
    add-report =
        bind-bind
          (insert_node callbacks.comparison fuel (storage.malloc s.nodes).0 (
            init_node storage (storage.malloc s.nodes).0 (callbacks.retain value w).0
              (record s { nodes = (storage.malloc s.nodes).1 })))
          _ report

    add-clean :
        (o : ℕ × RbTree V S × W)
        → unreported storage callbacks law fuel value s w ≡ some o
        → has_option use_dirty o.1 ≡ false
        → add storage callbacks fuel value (s, w) ≡ some o
    add-clean o e d = add-report ∙ ap (λ i. i >>= report) e ∙ rw d refl

    pub add-dirty :
        (o : ℕ × RbTree V S × W) (p : RbTree V S × W)
        → unreported storage callbacks law fuel value s w ≡ some o
        → has_option use_dirty o.1 ≡ true
        → walk_dirty_values callbacks fuel (o.1, o.2) ≡ some p
        → add storage callbacks fuel value (s, w) ≡ some (o.0, p.0, p.1)
    add-dirty o p e d g = add-report ∙ ap (λ i. i >>= report) e ∙ rw (d, g) refl

    -- Adding a value to a sorted red-black tree without dirty flags, with more fuel than nodes,
    -- where the pool hands out a node that is not nil and not in the tree: what the new node keeps
    -- of the value is the value itself, or, with extra bytes, as much as memcpy copies for the
    -- size of an element. Either duplicates are not allowed and a node of the tree has a value
    -- equal to that, and then the result is EEXIST, the nodes stand as before, and the value is
    -- released; or the result is 0, the value stays retained, and a sorted red-black tree has what
    -- was kept in the new node, after all values that are not higher, with the values of all other
    -- nodes as before.
    pub add-Added :
        (t : Shape)
        → IsTree s t
        → IsRedBlack t
        → Sorted callbacks.comparison (values s) (inorder t)
        → size t < fuel
        → has_option use_dirty s ≡ false
        → (storage.malloc s.nodes).0 ≢ nil
        → count (storage.malloc s.nodes).0 t ≡ 0
        → Returns
            (Added storage callbacks law s t
              (storage.malloc s.nodes).0
              (callbacks.retain value w).0
              (stored storage
                (record s { nodes = (storage.malloc s.nodes).1 })
                (callbacks.retain value w).0)
              (callbacks.retain value w).1)
            (add storage callbacks fuel value (s, w))
    add-Added t h rb sorted f d n fresh =
        let (o, e, a) =
          Returns-some
            (unreported-Added storage callbacks law fuel value s w t h rb sorted f n fresh) in
        rw
          (add-clean o e (
            has_option-options use_dirty o.1 s
              (Added-options storage callbacks law fuel value s w t o a)
            ∙ d))
          (returns a)
