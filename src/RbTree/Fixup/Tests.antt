-- ===== src/RbTree/Fixup/Tests.antt =====
-- The tests of `_mulle__rbtree_red_red_fixup` (src/mulle--rbtree.c), and how often its loop goes
-- on.
use mulle_rbtree.Base.{ℕ, suc, Bool, true, false, ◌≡◌, ◌≢◌, refl, some, arith, ◌⊎◌, inl, inr}
use mulle_rbtree.Storage.{Ptr}
use mulle_rbtree.RbTree.{RbTree, set_color}
use mulle_rbtree.RbTree.Fixup.{recolor, red_red_step, red_red_loop, red_red_left, red_red_right}
use mulle_rbtree.RbTree.Rotate.{left_rotate_node, right_rotate_node}
use mulle_rbtree.Shape.{
  Shape, leaf, node, Context, top, in_left, in_right, root_of, is_red, count_above, depth,
}
use mulle_rbtree.Shape.Rep.{Rep, RepAbove}
use mulle_rbtree.Shape.Refocus.{one_if_self, one_if-eq}
use mulle_rbtree.Shape.Zipper.{At, IsNil}

module _ {V S : Type 0} where
  -- the colour of a subtree is read at its root
  pub red-root_of :
      (s : RbTree V S) (q : Ptr) (t : Shape) → IsNil s → Rep s q t → s.red (root_of t) ≡ is_red t
  red-root_of s q leaf n h = n.black
  red-root_of s q (node l c a r) n h = h.4

  -- the root pointer leads to the focus or to a node of the context
  pub rooted :
      (s : RbTree V S) (x : Ptr) (k : Context)
      → RepAbove s x k
      → ((depth k ≡ 0) × (s.root ≡ x)) ⊎ (count_above s.root k ≢ 0)
  rooted s x top h = inl (refl, h)
  rooted s x (in_left c a r k) h = elim (rooted s a k h.6) [
    | inl (d, e) ↦ inr (λ z. absurd (omega (arith, z, one_if-eq s.root a e)))
    | inr m ↦ inr (λ z. m (omega (arith, z)))
  ]
  rooted s x (in_right l c a k) h = elim (rooted s a k h.6) [
    | inl (d, e) ↦ inr (λ z. absurd (omega (arith, z, one_if-eq s.root a e)))
    | inr m ↦ inr (λ z. m (omega (arith, z)))
  ]

  -- a node with a context is not the root
  pub ne-root :
      (s : RbTree V S) (l r : Shape) (c : Bool) (x : Ptr) (k : Context)
      → At s k (node l c x r)
      → depth k ≢ 0
      → x ≢ s.root
  ne-root s l r c x k h n e = elim (rooted s x k h.path) [
    | inl (d, e) ↦ n d
    | inr m ↦ m (rw (← e) (omega (arith, h.distinct x, one_if_self x)))
  ]

  module _ (climb fuel : ℕ) (x : Ptr) (s : RbTree V S) where
    pub red_red_loop-root : x ≡ s.root → red_red_loop climb (suc fuel) x s ≡ some s
    unfolding red_red_loop
    red_red_loop-root e = ground arith

    pub red_red_loop-black :
        (q : Ptr) → s.parent x ≡ q → s.red q ≡ false → red_red_loop climb (suc fuel) x s ≡ some s
    unfolding red_red_loop
    red_red_loop-black q up e = ground arith

    pub red_red_loop-red :
        (q : Ptr)
        → x ≢ s.root
        → s.parent x ≡ q
        → s.red q ≡ true
        → red_red_loop climb (suc fuel) x s
          ≡ red_red_loop climb fuel (red_red_step climb x s).0 (red_red_step climb x s).1
    unfolding red_red_loop
    red_red_loop-red q n up e = ground arith

  -- `p` is the parent of `x`, `g` the parent of `p`, `y` the other child of `g`
  module _ (fuel : ℕ) (x p g y : Ptr) (s : RbTree V S) (up : s.parent x ≡ p)
      (upper : s.parent p ≡ g) where
    pub recolor_lem : recolor x y s ≡ set_color y false (set_color g true (set_color p false s))
    unfolding recolor
    recolor_lem = rw (up, upper)

    pub red_red_right_lem :
        red_red_right fuel x s ≡ right_rotate_node fuel g (set_color g true (set_color p false s))
    unfolding red_red_right
    red_red_right_lem = rw (up, upper)

    pub red_red_left_lem :
        red_red_left fuel x s ≡ left_rotate_node fuel g (set_color g true (set_color p false s))
    unfolding red_red_left
    red_red_left_lem = rw (up, upper)

    module _ (here : s.left g ≡ p) (other : s.right g ≡ y) where
      pub step_left-recolor : s.red y ≡ true → red_red_step fuel x s ≡ (g, recolor x y s)
      unfolding red_red_step
      step_left-recolor e = ground arith

      pub step_left-outer :
          s.red y ≡ false → x ≢ s.right p → red_red_step fuel x s ≡ (g, red_red_right fuel x s)
      unfolding red_red_step
      step_left-outer e n = ground arith

      pub step_left-inner :
          s.red y ≡ false
          → x ≡ s.right p
          → red_red_step fuel x s ≡ (
            (left_rotate_node fuel p s).parent ((left_rotate_node fuel p s).parent p),
            red_red_right fuel p (left_rotate_node fuel p s),
          )
      unfolding red_red_step
      step_left-inner e n = ground arith

    module _ (here : s.right g ≡ p) (other : s.left g ≡ y) (ne : p ≢ y) where
      pub step_right-recolor : s.red y ≡ true → red_red_step fuel x s ≡ (g, recolor x y s)
      unfolding red_red_step
      step_right-recolor e = ground arith

      pub step_right-outer :
          s.red y ≡ false → x ≢ s.left p → red_red_step fuel x s ≡ (g, red_red_left fuel x s)
      unfolding red_red_step
      step_right-outer e n = ground arith

      pub step_right-inner :
          s.red y ≡ false
          → x ≡ s.left p
          → red_red_step fuel x s ≡ (
            (right_rotate_node fuel p s).parent ((right_rotate_node fuel p s).parent p),
            red_red_left fuel p (right_rotate_node fuel p s),
          )
      unfolding red_red_step
      step_right-inner e n = ground arith
