-- ===== src/Map/Unreported.antt =====
-- `_mulle_rbtree_add` (src/mulle-rbtree.c) up to the walk over the dirty nodes.
use mulle_rbtree.Base.{
  Option, ◌>>=◌, ℕ, ◌<◌, false, ◌≡◌, ◌≢◌, refl, sym, ◌∙◌, ap, subst, some, List, ◌∷◌, ◌++◌,
  Ordering,
}
use mulle_rbtree.Storage.{Ptr, nil, Storage}
use mulle_rbtree.Order.{All, IsComparison, Sorted, Low, High}
use mulle_rbtree.RbTree.Value.{values, stored, values-payload}
use mulle_rbtree.RbTree.{RbTree, has_option, allow_duplicates, init_node, free_node}
use mulle_rbtree.RbTree.Rest.{Returns, returns, Returns-some}
use mulle_rbtree.RbTree.Navigate.Steps.{Position}
use mulle_rbtree.RbTree.Insert.{insert_node, eexist}
use mulle_rbtree.RbTree.Fixup.Blacken.{Rebalanced}
use mulle_rbtree.RbTree.Insert.Sorted.{Inserted, rejected, accepted, insert_node-Inserted}
use mulle_rbtree.Map.{Callbacks, given_back}
use mulle_rbtree.Map.Freed.{
  has_option-options, free_node-Position, free_node-payload, free_node-options, free_node-nodes,
}
use mulle_rbtree.Map.Prepared.{Prepared, init_node-Prepared, Prepared-Sorted}
use mulle_rbtree.Map.Fresh.{init_node-IsNew}
use mulle_rbtree.RbTree.Remove.Finish.{free_node-At}
use mulle_rbtree.Shape.{Shape, top, count, inorder, size}
use mulle_rbtree.Shape.Balance.{IsRedBlack}
use mulle_rbtree.Shape.Zipper.{IsTree}

module _ {V S W : Type 0} (storage : Storage V S) (callbacks : Callbacks V W)
    (law : IsComparison callbacks.comparison) where
  -- EEXIST, the tree as it was and the value released, or 0 and the value `v` retained, and `k`,
  -- what is kept of it, in a new node after all values that are not higher
  pub data Added (s : RbTree V S) (t : Shape) (p : Ptr) (v k : V) (w : W) (o : ℕ × RbTree V S × W)
      : Type 0 where
    refused :
        {b : Ptr} {ys zs : List Ptr}
        → has_option allow_duplicates s ≡ false
        → Position o.1 t b ys zs
        → callbacks.comparison k (values o.1 b) ≡ Ordering.eq
        → IsTree o.1 t
        → ((b : Ptr) → b ≢ p → values o.1 b ≡ values s b)
        → o.1.options ≡ s.options
        → o.1.nodes ≡ storage.free p (storage.malloc s.nodes).1
        → o.0 ≡ eexist
        → o.2 ≡ callbacks.release v w
        → Added s t p v k w o
    added :
        (t' : Shape) (ys zs : List Ptr)
        → ys ++ zs ≡ inorder t
        → IsTree o.1 t'
        → inorder t' ≡ ys ++ p ∷ zs
        → IsRedBlack t'
        → Sorted callbacks.comparison (values o.1) (ys ++ p ∷ zs)
        → All (Low callbacks.comparison (values o.1) (has_option allow_duplicates s) k) ys
        → All (High callbacks.comparison (values o.1) k) zs
        → values o.1 p ≡ k
        → ((b : Ptr) → b ≢ p → values o.1 b ≡ values s b)
        → o.1.options ≡ s.options
        → o.1.nodes ≡ (storage.malloc s.nodes).1
        → o.0 ≡ 0
        → o.2 ≡ w
        → Added s t p v k w o

  module _ (fuel : ℕ) (value : V) (s : RbTree V S) (w : W) where
    abbrev pub retained : V
    retained = (callbacks.retain value w).0

    abbrev pub node_of : Ptr
    node_of = (storage.malloc s.nodes).0

    -- what the new node keeps of it
    abbrev pub kept : V
    kept = stored storage (record s { nodes = (storage.malloc s.nodes).1 }) retained

    abbrev prepared : RbTree V S
    prepared = init_node storage node_of retained (record s { nodes = (storage.malloc s.nodes).1 })

    prepared_lem :
        node_of ≢ nil → Prepared storage s node_of retained (storage.malloc s.nodes).1 prepared
    prepared_lem n = init_node-Prepared storage s node_of retained (storage.malloc s.nodes).1 n

    -- `add` before the walk over the dirty nodes
    abbrev pub unreported : Option (ℕ × RbTree V S × W)
    unreported = do
      (rval, s₂) ← insert_node callbacks.comparison fuel node_of prepared
      let back =
          given_back storage callbacks rval node_of retained (s₂, (callbacks.retain value w).1)
      some (rval, back.0, back.1)

    unreported_lem :
        (rval : ℕ) (s' : RbTree V S)
        → insert_node callbacks.comparison fuel node_of prepared ≡ some (rval, s')
        → unreported
          ≡ some (
            rval,
            (given_back storage callbacks rval node_of retained
                (s', (callbacks.retain value w).1)).0,
            (given_back storage callbacks rval node_of retained
                (s', (callbacks.retain value w).1)).1,
          )
    unreported_lem rval s' e = rw e refl

    given_back-0 :
        (s' : RbTree V S) (w' : W)
        → given_back storage callbacks 0 node_of retained (s', w') ≡ (s', w')
    unfolding given_back
    given_back-0 s' w' = refl

    given_back-eexist :
        (s' : RbTree V S) (w' : W)
        → given_back storage callbacks eexist node_of retained (s', w')
          ≡ (free_node storage node_of s', callbacks.release retained w')
    unfolding given_back
    given_back-eexist s' w' = refl

    refused_case :
        (t : Shape) (b : Ptr) (ys zs : List Ptr) (s' : RbTree V S)
        → node_of ≢ nil
        → IsTree s t
        → count node_of t ≡ 0
        → has_option allow_duplicates prepared ≡ false
        → Position prepared t b ys zs
        → callbacks.comparison (values prepared node_of) (values prepared b) ≡ Ordering.eq
        → s' ≡ prepared
        → insert_node callbacks.comparison fuel node_of prepared ≡ some (eexist, s')
        → Returns (Added s t node_of retained kept (callbacks.retain value w).1) unreported
    refused_case t b ys zs s' n h fresh g at q same e =
        let w' = (callbacks.retain value w).1 in
        let freed = free_node storage node_of prepared in
        let freed_values =
          values-payload prepared freed (free_node-payload storage node_of prepared)
            (free_node-options storage node_of prepared) in
        let eq = ap (λ o. o) (e ∙ ap (λ z. some (eexist, z)) same) in
        rw (unreported_lem eexist prepared eq, given_back-eexist prepared w')
          (returns (
            refused
              (has_option-options allow_duplicates s prepared (sym (prepared_lem n).options) ∙ g)
              (free_node-Position storage node_of prepared t b ys zs at)
              (ap (λ m. callbacks.comparison kept (m b)) freed_values
                ∙ ap (λ m. callbacks.comparison m (values prepared b)) (sym (prepared_lem n).own)
                ∙ q)
              (free_node-At storage node_of prepared top t ((prepared_lem n).tree t h fresh))
              (λ b m. ap (λ g. g b) freed_values ∙ (prepared_lem n).off b m)
              (free_node-options storage node_of prepared ∙ (prepared_lem n).options)
              (free_node-nodes storage node_of prepared
                ∙ ap (storage.free node_of) (prepared_lem n).pool)
              refl refl))

    accepted_case :
        (t : Shape) (ys zs : List Ptr) (s' : RbTree V S)
        → node_of ≢ nil
        → ys ++ zs ≡ inorder t
        → All
            (Low callbacks.comparison
              (values prepared)
              (has_option allow_duplicates prepared)
              (values prepared node_of))
            ys
        → All (High callbacks.comparison (values prepared) (values prepared node_of)) zs
        → Rebalanced prepared (ys ++ node_of ∷ zs) s'
        → Sorted callbacks.comparison (values s') (ys ++ node_of ∷ zs)
        → insert_node callbacks.comparison fuel node_of prepared ≡ some (0, s')
        → Returns (Added s t node_of retained kept (callbacks.retain value w).1) unreported
    accepted_case t ys zs s' n split low high r sorted e =
        let w' = (callbacks.retain value w).1 in
        let comp = callbacks.comparison in
        let same_option : has_option allow_duplicates prepared ≡ has_option allow_duplicates s =
          has_option-options allow_duplicates prepared s (prepared_lem n).options in
        let same_values = values-payload prepared s' r.rest.payload r.rest.options in
        rw (unreported_lem 0 s' e, given_back-0 s' w')
          (returns (
            added r.shape ys zs split r.tree r.order r.red_black sorted
              (subst (λ m. All (Low comp m (has_option allow_duplicates s) kept) ys)
                (sym same_values)
                (subst (λ d. All (Low comp (values prepared) d kept) ys) same_option
                  (subst
                    (λ v.
                      All (Low comp (values prepared) (has_option allow_duplicates prepared) v) ys)
                    (prepared_lem n).own low)))
              (subst (λ m. All (High comp m kept) zs) (sym same_values)
                (subst (λ v. All (High comp (values prepared) v) zs) (prepared_lem n).own high))
              (ap (λ m. m node_of) same_values ∙ (prepared_lem n).own)
              (λ b m. ap (λ g. g b) same_values ∙ (prepared_lem n).off b m)
              (r.rest.options ∙ (prepared_lem n).options) (r.rest.nodes ∙ (prepared_lem n).pool)
              refl refl))

    insert_node-Added :
        (t : Shape) (o : ℕ × RbTree V S)
        → node_of ≢ nil
        → IsTree s t
        → count node_of t ≡ 0
        → Inserted callbacks.comparison law prepared t node_of o
        → insert_node callbacks.comparison fuel node_of prepared ≡ some o
        → Returns (Added s t node_of retained kept (callbacks.retain value w).1) unreported
    insert_node-Added t o n h fresh (rejected {b} {ys} {zs} g at q c same) e =
        refused_case t b ys zs o.1 n h fresh g at q same (e ∙ ap (λ c. some (c, o.1)) c)
    insert_node-Added t o n h fresh (accepted ys zs split low high r sorted c) e =
        accepted_case t ys zs o.1 n split low high r sorted (e ∙ ap (λ c. some (c, o.1)) c)

    pub unreported-Added :
        (t : Shape)
        → IsTree s t
        → IsRedBlack t
        → Sorted callbacks.comparison (values s) (inorder t)
        → size t < fuel
        → node_of ≢ nil
        → count node_of t ≡ 0
        → Returns (Added s t node_of retained kept (callbacks.retain value w).1) unreported
    unreported-Added t h rb sorted f n fresh =
        let (o, e, inserted) = Returns-some (
          insert_node-Inserted callbacks.comparison law fuel node_of prepared t
            ((prepared_lem n).tree t h fresh)
            (init_node-IsNew storage node_of retained
              (record s { nodes = (storage.malloc s.nodes).1 }) n)
            fresh rb f
            (Prepared-Sorted storage callbacks.comparison s node_of retained
              (storage.malloc s.nodes).1 prepared t (prepared_lem n) fresh sorted)) in
        insert_node-Added t o n h fresh inserted e

    pub Added-options :
        (t : Shape) (o : ℕ × RbTree V S × W)
        → Added s t node_of retained kept (callbacks.retain value w).1 o
        → o.1.options ≡ s.options
    Added-options t o (refused g at q tree others options nodes c state) = options
    Added-options t o
          (added t' ys zs split tree order rb sorted low high own others options nodes c state) =
        options
