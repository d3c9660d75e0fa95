-- ===== src/Map/Done.antt =====
-- `_mulle_rbtree_done` (src/mulle-rbtree.c) against the list of all nodes.
use mulle_rbtree.Base.{
  ℕ, zero, suc, ◌<◌, ◌≡◌, ◌≢◌, refl, ap, some, List, [], ◌∷◌, ◌++◌, if◌then◌else◌, inl, inr,
  Bool-cases, arith,
}
use mulle_rbtree.Storage.{Ptr, nil, Storage}
use mulle_rbtree.RbTree.{RbTree, done}
use mulle_rbtree.RbTree.Value.{values}
use mulle_rbtree.RbTree.Rest.{Returns-some}
use mulle_rbtree.RbTree.Navigate.{next_node, find_leftmost_node}
use mulle_rbtree.RbTree.Navigate.Steps.{Ahead, finish, next_node-Ahead, first-Ahead}
use mulle_rbtree.RbTree.Navigate.Walks.{length, length-inorder}
use mulle_rbtree.Map.{Callbacks, release_from, done_tree}
use mulle_rbtree.Shape.{Shape, inorder, size}
use mulle_rbtree.Shape.Zipper.{IsTree}

module _ {V S W : Type 0} (storage : Storage V S) (callbacks : Callbacks V W) where
  -- one release for each value
  abbrev pub release_all : (Ptr → V) → List Ptr → W → W
  release_all value [] w = w
  release_all value (p ∷ ps) w = release_all value ps (callbacks.release (value p) w)

  release_from-nil :
      (climb fuel : ℕ) (s : RbTree V S) (w : W)
      → release_from storage callbacks climb (suc fuel) nil s w ≡ some w
  unfolding release_from
  release_from-nil climb fuel s w = refl

  release_from-node :
      (climb fuel : ℕ) (p q : Ptr) (s : RbTree V S) (w : W)
      → p ≢ nil
      → next_node climb p s ≡ some q
      → release_from storage callbacks climb (suc fuel) p s w
        ≡ release_from storage callbacks climb fuel q s (callbacks.release (values s p) w)
  unfolding release_from
  release_from-node climb fuel p q s w n e = ground (arith)

  release_from-all :
      (climb fuel : ℕ) (s : RbTree V S) (t : Shape) (ys us : List Ptr) (p : Ptr) (w : W)
      → Ahead s t ys us p
      → size t < climb
      → length us < fuel
      → release_from storage callbacks climb fuel p s w ≡ some (release_all (values s) us w)
  release_from-all climb zero s t ys us p w h c f = absurd (omega arith)
  release_from-all climb (suc fuel) s t ys us p w (finish e n) c f =
      rw (e, n) (release_from-nil climb fuel s w)
  release_from-all climb (suc fuel) s t ys us p w (Ahead.arrive zs e h) c f =
      let (q, next, there) = Returns-some (next_node-Ahead climb s t p ys zs h c) in
      rw (e, release_from-node climb fuel p q s w h.at.focus.0 next)
        (release_from-all climb fuel s t (ys ++ p ∷ []) zs q (callbacks.release (values s p) w)
          there c (omega (arith, ap length e)))

  done_tree-released :
      (fuel : ℕ) (p : Ptr) (s : RbTree V S) (w w' : W)
      → find_leftmost_node fuel s.root s ≡ some p
      → release_from storage callbacks fuel fuel p s w ≡ some w'
      → done_tree storage callbacks fuel (s, w)
        ≡ some (done storage s, (if callbacks.releases then w' else w))
  unfolding done_tree
  done_tree-released fuel p s w w' e f = elim (Bool-cases callbacks.releases) [
    | inl b ↦ rw (b, e, f) refl
    | inr b ↦ rw b refl
  ]

  -- When a tree is done, with more fuel than nodes, the pool is done, and if the callbacks release
  -- values then each value of the tree is released once, in order.
  pub done_tree-release_all :
      (fuel : ℕ) (s : RbTree V S) (w : W) (t : Shape)
      → IsTree s t
      → size t < fuel
      → done_tree storage callbacks fuel (s, w)
        ≡ some (
          done storage s,
          (if callbacks.releases then release_all (values s) (inorder t) w else w),
        )
  done_tree-release_all fuel s w t h f =
      let (p, first, there) = Returns-some (first-Ahead fuel s t h f) in
      done_tree-released fuel p s w (release_all (values s) (inorder t) w) first (
        release_from-all fuel fuel s t [] (inorder t) p w there f (omega (arith, length-inorder t)))
