-- ===== src/Map/Enumerate.antt =====
-- The enumerators (src/mulle-rbtree.h) against the list of all nodes.
use mulle_rbtree.Base.{
  ℕ, zero, suc, ◌<◌, ◌≡◌, ◌≢◌, refl, ◌∙◌, ap, some, List, [], ◌∷◌, ◌++◌, map, reverse, arith,
}
use mulle_rbtree.Storage.{Ptr, nil}
use mulle_rbtree.RbTree.{RbTree}
use mulle_rbtree.RbTree.Value.{get_node_value-some, values}
use mulle_rbtree.RbTree.Rest.{Returns-some}
use mulle_rbtree.RbTree.Navigate.{next_node, previous_node, find_leftmost_node, find_rightmost_node}
use mathlib.Core.List.{reverse-append}
use mulle_rbtree.RbTree.Navigate.Steps.{Ahead, Behind, finish, start, next_node-Ahead, first-Ahead}
use mulle_rbtree.RbTree.Navigate.Back.{previous_node-Behind, last-Behind}
use mulle_rbtree.RbTree.Navigate.Walks.{length, length-append, length-inorder}
use mulle_rbtree.Map.{
  enumerate, enumerator_next, for_loop, for_values, reverseenumerate, reverseenumerator_next,
  reversefor_loop, reversefor_values,
}
use mulle_rbtree.Shape.{Shape, inorder, size}
use mulle_rbtree.Shape.Zipper.{IsTree}

module _ {V S : Type 0} where
  for_loop-nil :
      (climb fuel : ℕ) (s : RbTree V S)
      → for_loop climb (suc fuel) (record { node = some nil }) s ≡ some []
  unfolding for_loop enumerator_next
  for_loop-nil climb fuel s = refl

  for_loop-node :
      (climb fuel : ℕ) (p q : Ptr) (s : RbTree V S) (items : List V)
      → p ≢ nil
      → next_node climb p s ≡ some q
      → for_loop climb fuel (record { node = some q }) s ≡ some items
      → for_loop climb (suc fuel) (record { node = some p }) s ≡ some (values s p ∷ items)
  unfolding for_loop enumerator_next
  for_loop-node climb fuel p q s items n e f = ground (arith, get_node_value-some p s n)

  for_loop-values :
      (climb fuel : ℕ) (s : RbTree V S) (t : Shape) (ys us : List Ptr) (p : Ptr)
      → Ahead s t ys us p
      → size t < climb
      → length us < fuel
      → for_loop climb fuel (record { node = some p }) s ≡ some (map (values s) us)
  for_loop-values climb zero s t ys us p h c f = absurd (omega arith)
  for_loop-values climb (suc fuel) s t ys us p (finish e n) c f =
      rw (e, n) (for_loop-nil climb fuel s)
  for_loop-values climb (suc fuel) s t ys us p (Ahead.arrive zs e h) c f =
      let (q, next, there) = Returns-some (next_node-Ahead climb s t p ys zs h c) in
      let rest =
        for_loop-values climb fuel s t (ys ++ p ∷ []) zs q there c (omega (arith, ap length e)) in
      rw e (for_loop-node climb fuel p q s (map (values s) zs) h.at.focus.0 next rest)

  enumerate_lem :
      (fuel : ℕ) (p : Ptr) (s : RbTree V S)
      → find_leftmost_node fuel s.root s ≡ some p
      → for_values fuel s ≡ for_loop fuel fuel (record { node = some p }) s
  unfolding for_values enumerate
  enumerate_lem fuel p s e = rw e refl

  -- The loop over an enumerator of a tree, with more fuel than nodes, runs on the values of all
  -- nodes in order.
  pub for_values-inorder :
      (fuel : ℕ) (s : RbTree V S) (t : Shape)
      → IsTree s t
      → size t < fuel
      → for_values fuel s ≡ some (map (values s) (inorder t))
  for_values-inorder fuel s t h f =
      let (p, first, there) = Returns-some (first-Ahead fuel s t h f) in
      enumerate_lem fuel p s first
      ∙ for_loop-values fuel fuel s t [] (inorder t) p there f (omega (arith, length-inorder t))

module _ {V S : Type 0} where
  reversefor_loop-nil :
      (climb fuel : ℕ) (s : RbTree V S)
      → reversefor_loop climb (suc fuel) (record { node = some nil }) s ≡ some []
  unfolding reversefor_loop reverseenumerator_next
  reversefor_loop-nil climb fuel s = refl

  reversefor_loop-node :
      (climb fuel : ℕ) (p q : Ptr) (s : RbTree V S) (items : List V)
      → p ≢ nil
      → previous_node climb p s ≡ some q
      → reversefor_loop climb fuel (record { node = some q }) s ≡ some items
      → reversefor_loop climb (suc fuel) (record { node = some p }) s ≡ some (values s p ∷ items)
  unfolding reversefor_loop reverseenumerator_next
  reversefor_loop-node climb fuel p q s items n e f = ground (arith, get_node_value-some p s n)

  reversefor_loop-values :
      (climb fuel : ℕ) (s : RbTree V S) (t : Shape) (us zs : List Ptr) (p : Ptr)
      → Behind s t us zs p
      → size t < climb
      → length us < fuel
      → reversefor_loop climb fuel (record { node = some p }) s ≡ some (map (values s) (reverse us))
  reversefor_loop-values climb zero s t us zs p h c f = absurd (omega arith)
  reversefor_loop-values climb (suc fuel) s t us zs p (start e n) c f =
      rw (e, n) (reversefor_loop-nil climb fuel s)
  reversefor_loop-values climb (suc fuel) s t us zs p (Behind.arrive ys e h) c f =
      let (q, next, there) = Returns-some (previous_node-Behind climb s t p ys zs h c) in
      let rest =
        reversefor_loop-values climb fuel s t ys (p ∷ zs) q there c
          (omega (arith, ap length e, length-append ys (p ∷ []))) in
      rw (e, reverse-append ys (p ∷ []))
        (reversefor_loop-node climb fuel p q s (map (values s) (reverse ys)) h.at.focus.0 next rest)

  reverseenumerate_lem :
      (fuel : ℕ) (p : Ptr) (s : RbTree V S)
      → find_rightmost_node fuel s.root s ≡ some p
      → reversefor_values fuel s ≡ reversefor_loop fuel fuel (record { node = some p }) s
  unfolding reversefor_values reverseenumerate
  reverseenumerate_lem fuel p s e = rw e refl

  -- The loop over a reverse enumerator of a tree, with more fuel than nodes, runs on the values of
  -- all nodes in the opposite order.
  pub reversefor_values-inorder :
      (fuel : ℕ) (s : RbTree V S) (t : Shape)
      → IsTree s t
      → size t < fuel
      → reversefor_values fuel s ≡ some (map (values s) (reverse (inorder t)))
  reversefor_values-inorder fuel s t h f =
      let (p, last, there) = Returns-some (last-Behind fuel s t h f) in
      reverseenumerate_lem fuel p s last
      ∙ reversefor_loop-values fuel fuel s t (inorder t) [] p there f
          (omega (arith, length-inorder t))
