-- ===== src/Map/Values.antt =====
-- The values that the searches of src/mulle-rbtree.h find.
use mulle_rbtree.Base.{ℕ, ◌<◌, false, ◌≡◌, ◌≢◌, refl, Option, none, some, List, Ordering}
use mulle_rbtree.Storage.{Ptr}
use mulle_rbtree.Order.{All, IsComparison, Sorted, Low}
use mulle_rbtree.RbTree.{RbTree, get_node_value}
use mulle_rbtree.RbTree.Rest.{Returns, returns, Returns-some}
use mulle_rbtree.RbTree.Navigate.Steps.{Position}
use mulle_rbtree.RbTree.Find.{find_node, find_node_equal_or_greater}
use mulle_rbtree.RbTree.Find.Exact.{Found, hit, miss, find_node-Found}
use mulle_rbtree.RbTree.Find.LowerBound.{
  AtLeast, equal, greater, beyond, find_node_equal_or_greater-AtLeast,
}
use mulle_rbtree.RbTree.Value.{get_node_value-some, get_node_value-none, values}
use mulle_rbtree.Map.{Callbacks, find, find_equal_or_greater}
use mulle_rbtree.Shape.{Shape, inorder, size}
use mulle_rbtree.Shape.Zipper.{IsTree}

module _ {V S W : Type 0} (callbacks : Callbacks V W) (law : IsComparison callbacks.comparison)
    (key : V) (s : RbTree V S) (t : Shape) where
  -- the value of a node with an equal key, or no value if no node has one
  pub data FoundValue (o : Option V) : Type 0 where
    hit_value :
        {p : Ptr} {ys zs : List Ptr}
        → Position s t p ys zs
        → callbacks.comparison key (values s p) ≡ Ordering.eq
        → o ≡ some (values s p)
        → FoundValue o
    miss_value :
        o ≡ none
        → All (λ q. callbacks.comparison key (values s q) ≢ Ordering.eq) (inorder t)
        → FoundValue o

  -- the value of a node with an equal key, the least greater value, or no value
  pub data ValueAtLeast (o : Option V) : Type 0 where
    equal_value :
        {p : Ptr} {ys zs : List Ptr}
        → Position s t p ys zs
        → callbacks.comparison key (values s p) ≡ Ordering.eq
        → o ≡ some (values s p)
        → ValueAtLeast o
    greater_value :
        {p : Ptr} {ys zs : List Ptr}
        → Position s t p ys zs
        → callbacks.comparison key (values s p) ≡ Ordering.lt
        → All (Low callbacks.comparison (values s) false key) ys
        → o ≡ some (values s p)
        → ValueAtLeast o
    no_value :
        o ≡ none → All (Low callbacks.comparison (values s) false key) (inorder t) → ValueAtLeast o

  Found-value :
      (p : Ptr) → Found callbacks.comparison law key s t p → FoundValue (get_node_value p s)
  Found-value p (hit at e) = hit_value at e (get_node_value-some p s at.at.focus.0)
  Found-value p (miss e h) = miss_value (get_node_value-none p s e) h

  AtLeast-value :
      (p : Ptr) → AtLeast callbacks.comparison law key s t p → ValueAtLeast (get_node_value p s)
  AtLeast-value p (equal at e) = equal_value at e (get_node_value-some p s at.at.focus.0)
  AtLeast-value p (greater at e low) =
      greater_value at e low (get_node_value-some p s at.at.focus.0)
  AtLeast-value p (beyond e low) = no_value (get_node_value-none p s e) low

  find-node :
      (fuel : ℕ) (p : Ptr)
      → find_node callbacks.comparison fuel key s ≡ some p
      → find callbacks fuel key s ≡ some (get_node_value p s)
  unfolding find
  find-node fuel p e = rw e refl

  find_equal_or_greater-node :
      (fuel : ℕ) (p : Ptr)
      → find_node_equal_or_greater callbacks.comparison fuel key s ≡ some p
      → find_equal_or_greater callbacks fuel key s ≡ some (get_node_value p s)
  unfolding find_equal_or_greater
  find_equal_or_greater-node fuel p e = rw e refl

  -- In a sorted tree, with more fuel than nodes, the result of the search is the value of a node
  -- with an equal key, or no value if no node of the tree has one.
  pub find-FoundValue :
      (fuel : ℕ)
      → IsTree s t
      → Sorted callbacks.comparison (values s) (inorder t)
      → size t < fuel
      → Returns FoundValue (find callbacks fuel key s)
  find-FoundValue fuel h sorted f =
      let (p, e, found) =
        Returns-some (find_node-Found callbacks.comparison law key s fuel t h sorted f) in
      rw (find-node fuel p e) (returns (Found-value p found))

  -- In a sorted tree, with more fuel than nodes, the result of the search for an equal or greater
  -- key is the value of a node with an equal key, or else that of the first node with a greater
  -- key, all nodes before it being lower, or no value if all nodes are lower.
  pub find_equal_or_greater-ValueAtLeast :
      (fuel : ℕ)
      → IsTree s t
      → Sorted callbacks.comparison (values s) (inorder t)
      → size t < fuel
      → Returns ValueAtLeast (find_equal_or_greater callbacks fuel key s)
  find_equal_or_greater-ValueAtLeast fuel h sorted f =
      let (p, e, found) =
        Returns-some
          (find_node_equal_or_greater-AtLeast callbacks.comparison law key s fuel t h sorted f) in
      rw (find_equal_or_greater-node fuel p e) (returns (AtLeast-value p found))
