-- ===== src/RbTree/Insert/Sorted.antt =====
-- `_mulle__rbtree_insert_node` (src/mulle--rbtree.c) in a sorted tree.
use mathlib.Core.List.{append-nil}
use mulle_rbtree.Base.{
  ℕ, ◌<◌, false, ◌≡◌, refl, sym, ◌∙◌, ap, subst, some, List, ◌∷◌, ◌++◌, Ordering, arith,
}
use mulle_rbtree.Storage.{Ptr, nil}
use mulle_rbtree.Order.{All, All-imp, IsComparison, Le, Sorted, Low, High, Low-Le, Sorted-insert}
use mulle_rbtree.RbTree.{RbTree, has_option, allow_duplicates}
use mulle_rbtree.RbTree.Value.{values, values-payload}
use mulle_rbtree.RbTree.Rest.{Returns, returns, Returns-some}
use mulle_rbtree.RbTree.Find.Exact.{Bounds, Bounds-top}
use mulle_rbtree.RbTree.Navigate.Steps.{Position}
use mulle_rbtree.RbTree.Insert.{
  Descent, duplicate, place, descend, insert_node, attach_node, eexist,
}
use mulle_rbtree.RbTree.Insert.Rebalance.{Fits}
use mulle_rbtree.RbTree.Fixup.Blacken.{Rebalanced}
use mulle_rbtree.RbTree.Insert.Link.{IsNew}
use mulle_rbtree.RbTree.Insert.Place.{attach_node-place}
use mulle_rbtree.Shape.{
  Shape, leaf, Context, top, parent_of, count, inorder, before, after, plug, size,
}
use mulle_rbtree.Shape.Balance.{IsRedBlack, inorder-plug}
use mulle_rbtree.Shape.Zipper.{At, IsTree}
use mulle_rbtree.RbTree.Insert.Descend.{Spot, taken, free, descend-Spot}

module _ {V S : Type 0} (comp : V → V → Ordering) (law : IsComparison comp) where
  -- EEXIST and the tree as it was, or 0 and a tree with the node between the lower and the higher
  -- nodes, after all equal ones
  pub data Inserted (s : RbTree V S) (t : Shape) (a : Ptr) (o : ℕ × RbTree V S) : Type 0 where
    rejected :
        {b : Ptr} {ys zs : List Ptr}
        → has_option allow_duplicates s ≡ false
        → Position s t b ys zs
        → comp (values s a) (values s b) ≡ Ordering.eq
        → o.0 ≡ eexist
        → o.1 ≡ s
        → Inserted s t a o
    accepted :
        (ys zs : List Ptr)
        → ys ++ zs ≡ inorder t
        → All (Low comp (values s) (has_option allow_duplicates s) (values s a)) ys
        → All (High comp (values s) (values s a)) zs
        → Rebalanced s (ys ++ a ∷ zs) o.1
        → Sorted comp (values o.1) (ys ++ a ∷ zs)
        → o.0 ≡ 0
        → Inserted s t a o

  insert_node-duplicate :
      (fuel : ℕ) (a : Ptr) (s : RbTree V S)
      → descend comp (values s a) fuel nil s.root Ordering.eq s ≡ some duplicate
      → insert_node comp fuel a s ≡ some (eexist, s)
  unfolding insert_node
  insert_node-duplicate fuel a s e = ground (arith)

  insert_node-place :
      (fuel : ℕ) (a p : Ptr) (c : Ordering) (s s' : RbTree V S)
      → descend comp (values s a) fuel nil s.root Ordering.eq s ≡ some (place p c)
      → attach_node fuel a p c s ≡ some s'
      → insert_node comp fuel a s ≡ some (0, s')
  unfolding insert_node
  insert_node-place fuel a p c s s' e g = ground (arith)

  insert_node-free :
      (fuel : ℕ) (a : Ptr) (s : RbTree V S) (t : Shape)
      → IsNew s a
      → count a t ≡ 0
      → IsRedBlack t
      → size t < fuel
      → Sorted comp (values s) (inorder t)
      → (k : Context) (c : Ordering) → At s k leaf
      → plug k leaf ≡ t
      → Fits k c
      → Bounds comp law (values s a) s (has_option allow_duplicates s) k leaf
      → descend comp (values s a) fuel nil s.root Ordering.eq s ≡ some (place (parent_of k) c)
      → Returns (Inserted s t a) (insert_node comp fuel a s)
  insert_node-free fuel a s t new fresh rb f sorted k c h w fits b e =
      let (s', g, r) =
        Returns-some (
          attach_node-place s a t new fresh rb fuel f k c (before k ++ a ∷ after k) h w fits
            refl) in
      let split : before k ++ after k ≡ inorder t =
        sym (ap inorder (sym w) ∙ inorder-plug k leaf ∙ rw append-nil refl) in
      let d = has_option allow_duplicates s in
      rw (insert_node-place fuel a (parent_of k) c s s' e g) (
        returns (
          accepted (before k) (after k) split b.low b.high r
            (subst (λ m. Sorted comp m (before k ++ a ∷ after k))
              (sym (values-payload s s' r.rest.payload r.rest.options))
              (Sorted-insert comp (values s) (before k) (after k) a
                (subst (Sorted comp (values s)) (sym split) sorted)
                (All-imp (Low comp (values s) d (values s a)) (λ x. Le comp (values s) x a)
                  (before k) (λ x. Low-Le comp (values s) law d (values s a) x) b.low)
                (All-imp (High comp (values s) (values s a)) (Le comp (values s) a) (after k)
                  (λ x q. ground (arith, q)) b.high)))
            refl))

  insert_node-Spot :
      (fuel : ℕ) (a : Ptr) (s : RbTree V S) (t : Shape)
      → IsNew s a
      → count a t ≡ 0
      → IsRedBlack t
      → size t < fuel
      → Sorted comp (values s) (inorder t)
      → (o : Descent) → descend comp (values s a) fuel nil s.root Ordering.eq s ≡ some o
      → Spot comp law (values s a) s t (has_option allow_duplicates s) refl o
      → Returns (Inserted s t a) (insert_node comp fuel a s)
  insert_node-Spot fuel a s t new fresh rb f sorted duplicate e (taken g at q) =
      rw (insert_node-duplicate fuel a s e) (returns (rejected g at q refl refl))
  insert_node-Spot fuel a s t new fresh rb f sorted (place p c) e (free k h w g fits b) =
      insert_node-free fuel a s t new fresh rb f sorted k c h w fits b
        (e ∙ ap (λ q. some (place q c)) (sym g))

  -- A new node inserted into a sorted red-black tree, with more fuel than the tree has nodes:
  -- either duplicates are not allowed and the tree has a node with an equal key, and then the
  -- result is EEXIST and the tree as it was; or the result is 0 and a sorted red-black tree of the
  -- old nodes and the new one, which stands after all nodes that are not higher and before all
  -- higher ones. The payloads, the pool and the options are as before.
  pub insert_node-Inserted :
      (fuel : ℕ) (a : Ptr) (s : RbTree V S) (t : Shape)
      → IsTree s t
      → IsNew s a
      → count a t ≡ 0
      → IsRedBlack t
      → size t < fuel
      → Sorted comp (values s) (inorder t)
      → Returns (Inserted s t a) (insert_node comp fuel a s)
  insert_node-Inserted fuel a s t h new fresh rb f sorted =
      let d = has_option allow_duplicates s in
      let (o, e, spot) = Returns-some (
        descend-Spot comp law (values s a) s t d refl fuel top t Ordering.eq h refl tt
          (Bounds-top comp law (values s a) s d t sorted) f) in
      insert_node-Spot fuel a s t new fresh rb f sorted o
        (ap (λ q. descend comp (values s a) fuel nil q Ordering.eq s) h.path ∙ e) spot
