-- ===== src/RbTree/Dirty/Report.antt =====
-- `_mulle__rbtree_walk_dirty` (src/mulle--rbtree.c) on any tree, wherever its dirty nodes stand.
use mulle_rbtree.Base.{ℕ, zero, suc, ◌<◌, refl, sym, ◌∙◌, ap, Option, inl, inr, Bool-cases, arith}
use mulle_rbtree.Storage.{Ptr, nil}
use mulle_rbtree.RbTree.{RbTree}
use mulle_rbtree.RbTree.Marks.{SameLinks}
use mulle_rbtree.RbTree.Remove.Marked.{SameLinks-trans}
use mulle_rbtree.RbTree.Rest.{Returns, returns, Returns-some}
use mulle_rbtree.RbTree.Dirty.{walk_dirty}
use mulle_rbtree.RbTree.Dirty.Walk.{
  child, child-node, walk_dirty_from-clean, walk_dirty_from-dirty, cleaned_links, walk_dirty-root,
}
use mulle_rbtree.Shape.{Shape, leaf, node, root_of, size}
use mulle_rbtree.Shape.Rep.{Rep, Rep-frame}
use mulle_rbtree.Shape.Zipper.{IsTree}

module _ {V U : Type 0} (callback : Option V → Option V → Option V → U → U) where
  -- the callback ran some number of times
  pub data Notified (u : U) : U → Type 0 where
    unchanged : Notified u u
    call : {v : U} (a l r : Option V) → Notified u v → Notified u (callback a l r v)

  pub Notified-trans : {u v w : U} → Notified u v → Notified v w → Notified u w
  Notified-trans h unchanged = h
  Notified-trans h (call a l r g) = call a l r (Notified-trans h g)

module _ {V S U : Type 0} (callback : Option V → Option V → Option V → U → U) where
  -- the tree has the same links, and only the callback changed the state
  pub record Reported (s : RbTree V S) (u : U) (o : RbTree V S × U) : Type 0 where
    pub links : SameLinks s o.0
    pub notified : Notified callback u o.1

  nothing : (s : RbTree V S) (u : U) → Reported s u (s, u)
  nothing s u = record { links = ground arith; notified = unchanged }

  child-Reported :
      (fuel : ℕ) (s : RbTree V S) (q : Ptr) (t : Shape) (u : U)
      → Rep s q t
      → size t < fuel
      → Returns (Reported s u) (child callback fuel (root_of t) (s, u))
  child-Reported fuel s q leaf u h f = returns (nothing s u)
  child-Reported zero s q (node l c a r) u h f = absurd (omega arith)
  child-Reported (suc fuel) s q (node l c a r) u h f = elim (Bool-cases (s.dirty a)) [
    | inr e ↦
        rw
          (child-node callback (suc fuel) a (s, u) h.0, walk_dirty_from-clean callback fuel a s u e)
          (returns (nothing s u))
    | inl e ↦
        let (o₁, f₁, w₁) = Returns-some (child-Reported fuel s a l u h.5 (omega arith)) in
        let (o₂, f₂, w₂) = Returns-some (
          child-Reported fuel o₁.0 a r o₁.1
            (Rep-frame s o₁.0 a r h.6 (λ b m. ground (arith, w₁.links))) (omega arith)) in
        rw
          (
            child-node callback (suc fuel) a (s, u) h.0,
            walk_dirty_from-dirty callback fuel a (root_of l) (root_of r) s o₁.0 o₂.0 u o₁.1 o₂.1 e
                h.2 f₁ (ap (λ g. g a) w₁.links.right ∙ h.3) f₂
                (ap (λ g. g a) w₂.links.left ∙ ap (λ g. g a) w₁.links.left ∙ h.2)
                (ap (λ g. g a) w₂.links.right ∙ ap (λ g. g a) w₁.links.right ∙ h.3),
          )
          (returns (record {
            links = cleaned_links callback a s o₂.0 (SameLinks-trans w₁.links w₂.links);
            notified = call _ _ _ (Notified-trans callback w₁.notified w₂.notified);
          }))
  ]

  -- an empty tree, whose nil node is dirty
  nil-Reported :
      (fuel : ℕ) (s : RbTree V S) (u : U)
      → IsTree s leaf
      → Returns (Reported s u) (walk_dirty callback (suc fuel) (s, u))
  nil-Reported fuel s u h = elim (Bool-cases (s.dirty nil)) [
    | inr e ↦
        rw
          (
            walk_dirty-root callback (suc fuel) nil s u h.path,
            walk_dirty_from-clean callback fuel nil s u e,
          )
          (returns (nothing s u))
    | inl e ↦
        let left = h.nil_node.left in
        let right = h.nil_node.right in
        rw
          (
            walk_dirty-root callback (suc fuel) nil s u h.path,
            walk_dirty_from-dirty callback fuel nil nil nil s s s u u u e left refl right refl left
                right,
          )
          (returns (record {
            links = cleaned_links callback nil s s (ground arith);
            notified = call _ _ _ unchanged;
          }))
  ]

  -- The walk over the dirty nodes of any tree, wherever its dirty nodes stand, comes to its end
  -- with more fuel than nodes; it changes dirty flags only, and the state changes by calls of the
  -- callback only.
  pub walk_dirty-Reported :
      (fuel : ℕ) (s : RbTree V S) (t : Shape) (u : U)
      → IsTree s t
      → size t < fuel
      → Returns (Reported s u) (walk_dirty callback fuel (s, u))
  walk_dirty-Reported zero s t u h f = absurd (omega arith)
  walk_dirty-Reported (suc fuel) s leaf u h f = nil-Reported fuel s u h
  walk_dirty-Reported (suc fuel) s (node l c a r) u h f =
      rw
        (
          walk_dirty-root callback (suc fuel) a s u h.path,
          sym (child-node callback (suc fuel) a (s, u) h.focus.0),
        )
        (child-Reported (suc fuel) s nil (node l c a r) u h.focus f)
