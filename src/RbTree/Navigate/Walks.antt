-- ===== src/RbTree/Navigate/Walks.antt =====
-- The walks of src/mulle--rbtree.h against the list of all nodes.
use mulle_rbtree.Base.{
  ℕ, zero, suc, ◌+◌, ◌<◌, Bool, ◌≡◌, ◌≢◌, refl, ap, some, List, [], ◌∷◌, ◌++◌, reverse, arith,
  if◌then◌else◌, Bool-cases, inl, inr,
}
use mathlib.Core.List.{reverse-append}
use mulle_rbtree.Storage.{Ptr, nil}
use mulle_rbtree.RbTree.{RbTree}
use mulle_rbtree.RbTree.Rest.{Returns-some}
use mulle_rbtree.RbTree.Navigate.{
  next_node, previous_node, walk_loop, walk, walk_reverse_loop, walk_reverse,
}
use mulle_rbtree.RbTree.Navigate.Steps.{Ahead, Behind, next_node-Ahead, finish, start}
use mulle_rbtree.RbTree.Navigate.Back.{previous_node-Behind}
use mulle_rbtree.RbTree.Navigate.Steps.{first-Ahead}
use mulle_rbtree.RbTree.Navigate.Back.{last-Behind}
use mulle_rbtree.Shape.{Shape, leaf, node, inorder, size}
use mulle_rbtree.Shape.Zipper.{IsTree}

abbrev pub length : List Ptr → ℕ
length [] = 0
length (x ∷ xs) = suc (length xs)

pub length-append : (xs ys : List Ptr) → length (xs ++ ys) ≡ length xs + length ys
length-append [] ys = omega arith
length-append (x ∷ xs) ys = omega (arith, length-append xs ys)

pub length-inorder : (t : Shape) → length (inorder t) ≡ size t
length-inorder leaf = refl
length-inorder (node l c a r) =
    omega (arith, length-append (inorder l) (a ∷ inorder r), length-inorder l, length-inorder r)

-- the callback on each node of a list in turn, until it says to stop
abbrev pub visit : {U : Type 0} → (Ptr → U → Bool × U) → List Ptr → U → U
visit callback [] u = u
visit callback (p ∷ ps) u =
    if (callback p u).0 then visit callback ps (callback p u).1 else (callback p u).1

module _ {V S U : Type 0} (callback : Ptr → U → Bool × U) where
  walk_loop-nil :
      (climb fuel : ℕ) (s : RbTree V S) (u : U)
      → walk_loop callback climb (suc fuel) nil s u ≡ some u
  unfolding walk_loop
  walk_loop-nil climb fuel s u = ground arith

  walk_loop-node :
      (climb fuel : ℕ) (p q : Ptr) (s : RbTree V S) (u : U)
      → p ≢ nil
      → next_node climb p s ≡ some q
      → walk_loop callback climb (suc fuel) p s u ≡ (
          if (callback p u).0
          then walk_loop callback climb fuel q s (callback p u).1
          else some (callback p u).1)
  unfolding walk_loop
  walk_loop-node climb fuel p q s u n e = ground arith

  walk_loop-visit :
      (climb fuel : ℕ) (s : RbTree V S) (t : Shape) (ys us : List Ptr) (p : Ptr) (u : U)
      → Ahead s t ys us p
      → size t < climb
      → length us < fuel
      → walk_loop callback climb fuel p s u ≡ some (visit callback us u)
  walk_loop-visit climb zero s t ys us p u h c f = absurd (omega arith)
  walk_loop-visit climb (suc fuel) s t ys us p u (finish e n) c f =
      rw (e, n) (walk_loop-nil climb fuel s u)
  walk_loop-visit climb (suc fuel) s t ys us p u (Ahead.arrive zs e h) c f =
      let (q, next, there) = Returns-some (next_node-Ahead climb s t p ys zs h c) in
      let rest =
        walk_loop-visit climb fuel s t (ys ++ p ∷ []) zs q (callback p u).1 there c
          (omega (arith, ap length e)) in
      rw (e, walk_loop-node climb fuel p q s u h.at.focus.0 next)
        (elim (Bool-cases (callback p u).0) [ inl go ↦ rw go rest | inr stop ↦ rw stop ])

  -- The walk over a tree, with more fuel than nodes, calls the callback on all nodes in order
  -- until it says to stop.
  pub walk-visit :
      (fuel : ℕ) (s : RbTree V S) (t : Shape) (u : U)
      → IsTree s t
      → size t < fuel
      → walk callback fuel s u ≡ some (visit callback (inorder t) u)
  unfolding walk
  walk-visit fuel s t u h f =
      let (p, first, there) = Returns-some (first-Ahead fuel s t h f) in
      rw first
        (walk_loop-visit fuel fuel s t [] (inorder t) p u there f (omega (arith, length-inorder t)))

module _ {V S U : Type 0} (callback : Ptr → U → Bool × U) where
  walk_reverse_loop-nil :
      (climb fuel : ℕ) (s : RbTree V S) (u : U)
      → walk_reverse_loop callback climb (suc fuel) nil s u ≡ some u
  unfolding walk_reverse_loop
  walk_reverse_loop-nil climb fuel s u = ground arith

  walk_reverse_loop-node :
      (climb fuel : ℕ) (p q : Ptr) (s : RbTree V S) (u : U)
      → p ≢ nil
      → previous_node climb p s ≡ some q
      → walk_reverse_loop callback climb (suc fuel) p s u ≡ (
          if (callback p u).0
          then walk_reverse_loop callback climb fuel q s (callback p u).1
          else some (callback p u).1)
  unfolding walk_reverse_loop
  walk_reverse_loop-node climb fuel p q s u n e = ground arith

  walk_reverse_loop-visit :
      (climb fuel : ℕ) (s : RbTree V S) (t : Shape) (us zs : List Ptr) (p : Ptr) (u : U)
      → Behind s t us zs p
      → size t < climb
      → length us < fuel
      → walk_reverse_loop callback climb fuel p s u ≡ some (visit callback (reverse us) u)
  walk_reverse_loop-visit climb zero s t us zs p u h c f = absurd (omega arith)
  walk_reverse_loop-visit climb (suc fuel) s t us zs p u (start e n) c f =
      rw (e, n) (walk_reverse_loop-nil climb fuel s u)
  walk_reverse_loop-visit climb (suc fuel) s t us zs p u (Behind.arrive ys e h) c f =
      let (q, next, there) = Returns-some (previous_node-Behind climb s t p ys zs h c) in
      let rest =
        walk_reverse_loop-visit climb fuel s t ys (p ∷ zs) q (callback p u).1 there c
          (omega (arith, ap length e, length-append ys (p ∷ []))) in
      rw
        (e, reverse-append ys (p ∷ []), walk_reverse_loop-node climb fuel p q s u h.at.focus.0 next)
        (elim (Bool-cases (callback p u).0) [ inl go ↦ rw go rest | inr stop ↦ rw stop ])

  -- The reverse walk over a tree, with more fuel than nodes, calls the callback on all nodes in
  -- the opposite order until it says to stop.
  pub walk_reverse-visit :
      (fuel : ℕ) (s : RbTree V S) (t : Shape) (u : U)
      → IsTree s t
      → size t < fuel
      → walk_reverse callback fuel s u ≡ some (visit callback (reverse (inorder t)) u)
  unfolding walk_reverse
  walk_reverse-visit fuel s t u h f =
      let (p, last, there) = Returns-some (last-Behind fuel s t h f) in
      rw last (
        walk_reverse_loop-visit fuel fuel s t (inorder t) [] p u there f
          (omega (arith, length-inorder t)))
