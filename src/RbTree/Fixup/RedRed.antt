-- ===== src/RbTree/Fixup/RedRed.antt =====
-- The loop of `_mulle__rbtree_red_red_fixup` (src/mulle--rbtree.c) on the shape, from a red node
-- whose parent may be red.
use mulle_rbtree.Base.{ℕ, zero, suc, ◌<◌, true, false, ◌≡◌, refl, sym, List, arith}
use mulle_rbtree.Storage.{Ptr}
use mulle_rbtree.RbTree.{RbTree}
use mulle_rbtree.RbTree.Rest.{Returns, returns, SameRest, SameRest-trans}
use mulle_rbtree.RbTree.Fixup.{recolor, red_red_loop}
use mulle_rbtree.RbTree.Fixup.Tests.{
  ne-root, red_red_loop-root, red_red_loop-black, step_left-recolor, step_right-recolor,
}
use mulle_rbtree.Shape.{Shape, leaf, node, Context, top, in_left, in_right, depth}
use mulle_rbtree.Shape.Balance.{around, list_laws}
use mulle_rbtree.Shape.Zipper.{At, up_left, up_right, ne-sibling_right}
use mulle_rbtree.RbTree.Fixup.Strained.{
  Strained, Strained-up_left_outer, Strained-up_left_inner, Strained-up_right_outer,
  Strained-up_right_inner,
}
use mulle_rbtree.RbTree.Fixup.Quiet.{
  Quiet, Quiet-plug, recolor_left_outer-At, recolor_left_inner-At, recolor_right_outer-At,
  recolor_right_inner-At, SameRest-recolor, next_round,
}
use mulle_rbtree.RbTree.Fixup.Turns.{
  turn_left_outer, turn_left_inner, turn_right_outer, turn_right_inner,
}

module _ {V S : Type 0} where
  pub red_red_loop-Quiet :
      (climb fuel : ℕ) (k : Context) (l r : Shape) (s₀ s : RbTree V S) (x : Ptr)
      → At s k (node l true x r)
      → Strained k (node l true x r)
      → depth k < fuel
      → (xs : List Ptr) → around k (node l true x r) ≡ xs
      → SameRest s₀ s
      → Returns (Quiet s₀ xs) (red_red_loop climb fuel x s)
  red_red_loop-Quiet climb zero k l r s₀ s x h w f xs order same = absurd (omega arith)
  red_red_loop-Quiet climb (suc fuel) top l r s₀ s x h w f xs order same =
      rw (red_red_loop-root climb fuel x s (sym h.path))
        (returns (Quiet-plug top (node l true x r) h w tt order same))
  red_red_loop-Quiet climb (suc fuel) (in_left false p q k) l r s₀ s x h w f xs order same =
      rw (red_red_loop-black climb fuel x s p h.focus.1 h.path.4) (
        returns
          (Quiet-plug (in_left false p q k) (node l true x r) h w (ground (arith, w)) order same))
  red_red_loop-Quiet climb (suc fuel) (in_left true p q top) l r s₀ s x h w f xs order same =
      absurd (ground (arith, w))
  red_red_loop-Quiet climb (suc fuel) (in_right q false p k) l r s₀ s x h w f xs order same =
      rw (red_red_loop-black climb fuel x s p h.focus.1 h.path.4) (
        returns
          (Quiet-plug (in_right q false p k) (node l true x r) h w (ground (arith, w)) order same))
  red_red_loop-Quiet climb (suc fuel) (in_right q true p top) l r s₀ s x h w f xs order same =
      absurd (ground (arith, w))
  red_red_loop-Quiet climb (suc fuel) (in_left true p r (in_left c g (node ul true y ur) k)) xa xb
        s₀ s x h w f xs order same =
      rw
        (next_round climb fuel s p x (g, recolor x y s)
          (ne-root s xa xb true x _ h (λ z. absurd (omega (arith, z)))) h.focus.1 h.path.4
          (step_left-recolor climb x p g y s h.focus.1 h.path.1 h.path.6.2 h.path.6.3 h.path.6.5.4))
        (red_red_loop-Quiet climb fuel k _ _ s₀ (recolor x y s) g (recolor_left_outer-At h)
          (Strained-up_left_outer w) (omega arith) xs (rw (← order) (simp list_laws))
          (SameRest-trans same (SameRest-recolor x y s)))
  red_red_loop-Quiet climb (suc fuel) (in_left true p r (in_left c g (node ul false y ur) k)) xa xb
        s₀ s x h w f xs order same =
      turn_left_outer climb fuel (omega arith) h w refl order same
  red_red_loop-Quiet climb (suc fuel) (in_left true p r (in_left c g leaf k)) xa xb s₀ s x h w f xs
        order same =
      turn_left_outer climb fuel (omega arith) h w refl order same
  red_red_loop-Quiet climb (suc fuel) (in_right r true p (in_left c g (node ul true y ur) k)) xa xb
        s₀ s x h w f xs order same =
      rw
        (next_round climb fuel s p x (g, recolor x y s)
          (ne-root s xa xb true x _ h (λ z. absurd (omega (arith, z)))) h.focus.1 h.path.4
          (step_left-recolor climb x p g y s h.focus.1 h.path.1 h.path.6.2 h.path.6.3 h.path.6.5.4))
        (red_red_loop-Quiet climb fuel k _ _ s₀ (recolor x y s) g (recolor_left_inner-At h)
          (Strained-up_left_inner w) (omega arith) xs (rw (← order) (simp list_laws))
          (SameRest-trans same (SameRest-recolor x y s)))
  red_red_loop-Quiet climb (suc fuel) (in_right r true p (in_left c g (node ul false y ur) k)) xa xb
        s₀ s x h w f xs order same =
      turn_left_inner climb fuel (omega arith) h w refl order same
  red_red_loop-Quiet climb (suc fuel) (in_right r true p (in_left c g leaf k)) xa xb s₀ s x h w f xs
        order same =
      turn_left_inner climb fuel (omega arith) h w refl order same
  red_red_loop-Quiet climb (suc fuel) (in_right r true p (in_right (node ur true y ul) c g k)) xb xa
        s₀ s x h w f xs order same =
      rw
        (next_round climb fuel s p x (g, recolor x y s)
          (ne-root s xb xa true x _ h (λ z. absurd (omega (arith, z)))) h.focus.1 h.path.4
          (step_right-recolor climb x p g y s h.focus.1 h.path.1 h.path.6.3 h.path.6.2
            (ne-sibling_right (up_right h)) h.path.6.5.4))
        (red_red_loop-Quiet climb fuel k _ _ s₀ (recolor x y s) g (recolor_right_outer-At h)
          (Strained-up_right_outer w) (omega arith) xs (rw (← order) (simp list_laws))
          (SameRest-trans same (SameRest-recolor x y s)))
  red_red_loop-Quiet climb (suc fuel) (in_right r true p (in_right (node ur false y ul) c g k)) xb
        xa s₀ s x h w f xs order same =
      turn_right_outer climb fuel (omega arith) h w refl order same
  red_red_loop-Quiet climb (suc fuel) (in_right r true p (in_right leaf c g k)) xb xa s₀ s x h w f
        xs order same =
      turn_right_outer climb fuel (omega arith) h w refl order same
  red_red_loop-Quiet climb (suc fuel) (in_left true p r (in_right (node ur true y ul) c g k)) xb xa
        s₀ s x h w f xs order same =
      rw
        (next_round climb fuel s p x (g, recolor x y s)
          (ne-root s xb xa true x _ h (λ z. absurd (omega (arith, z)))) h.focus.1 h.path.4
          (step_right-recolor climb x p g y s h.focus.1 h.path.1 h.path.6.3 h.path.6.2
            (ne-sibling_right (up_left h)) h.path.6.5.4))
        (red_red_loop-Quiet climb fuel k _ _ s₀ (recolor x y s) g (recolor_right_inner-At h)
          (Strained-up_right_inner w) (omega arith) xs (rw (← order) (simp list_laws))
          (SameRest-trans same (SameRest-recolor x y s)))
  red_red_loop-Quiet climb (suc fuel) (in_left true p r (in_right (node ur false y ul) c g k)) xb xa
        s₀ s x h w f xs order same =
      turn_right_inner climb fuel (omega arith) h w refl order same
  red_red_loop-Quiet climb (suc fuel) (in_left true p r (in_right leaf c g k)) xb xa s₀ s x h w f xs
        order same =
      turn_right_inner climb fuel (omega arith) h w refl order same
