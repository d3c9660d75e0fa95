-- ===== src/RbTree/Fixup/BlackBlack.antt =====
-- `_mulle__rbtree_black_black_fixup` (src/mulle--rbtree.c) as a whole, from a subtree that lacks one black
-- node.
use mulle_rbtree.Base.{
  zero-cases, ℕ, zero, suc, ◌≤◌, ◌<◌, true, false, ◌≡◌, ◌≢◌, refl, sym, ◌∙◌, inl, inr, List,
  Bool-cases, arith,
}
use mulle_rbtree.Storage.{Ptr}
use mulle_rbtree.RbTree.{RbTree, set_color}
use mulle_rbtree.RbTree.Rest.{
  Returns, returns, Returns-some, SameRest, SameRest-trans, SameRest-refl,
}
use mulle_rbtree.RbTree.Recolor.{set_color-At}
use mulle_rbtree.RbTree.Fixup.{black_black_step, black_black_loop, black_black_fixup}
use mulle_rbtree.RbTree.Fixup.Tests.{red-root_of, rooted, ne-root}
use mulle_rbtree.RbTree.Fixup.Quiet.{Quiet, Quiet-plug}
use mulle_rbtree.RbTree.Fixup.Blacken.{Rebalanced, blacken-Rebalanced}
use mulle_rbtree.RbTree.Fixup.Short.{Short, rounds, Strained-red, Calm-black}
use mulle_rbtree.RbTree.Fixup.Siblings.{
  black_black_loop-root, black_black_loop-red, black_black_loop-black,
}
use mulle_rbtree.RbTree.Fixup.Pulls.{Hangs}
use mulle_rbtree.RbTree.Fixup.Rounds.{After, finished, onward}
use mulle_rbtree.RbTree.Fixup.Steps.{
  left-step_black, left-step_red, right-step_black, right-step_red,
}
use mulle_rbtree.Shape.{Shape, leaf, node, Context, top, in_left, in_right, root_of, is_red, depth}
use mulle_rbtree.Shape.Rep.{RepAbove-ne-nil}
use mulle_rbtree.Shape.Balance.{around, inorder-plug}
use mulle_rbtree.Shape.Zipper.{At}

module _ {V S : Type 0} where
  step-After :
      (fuel : ℕ) (k : Context) (t : Shape) (s₀ s : RbTree V S) (xs : List Ptr)
      → At s k t
      → Hangs s k t
      → Short k t
      → is_red t ≡ false
      → around k t ≡ xs
      → SameRest s₀ s
      → depth k ≢ 0
      → After s₀ xs (depth k) (black_black_step fuel (root_of t) s)
  step-After fuel top t s₀ s xs h g short black order same n = absurd (n refl)
  step-After fuel (in_left c p leaf k) t s₀ s xs h g short black order same n =
      absurd (ground (arith, short))
  step-After fuel (in_left c p (node wl false w wr) k) t s₀ s xs h g short black order same n =
      left-step_black fuel black wl wr w h g short order same
  step-After fuel (in_left c p (node wl true w wr) k) t s₀ s xs h g short black order same n =
      left-step_red fuel black wl wr w h g short order same
  step-After fuel (in_right leaf c p k) t s₀ s xs h g short black order same n =
      absurd (ground (arith, short))
  step-After fuel (in_right (node wl false w wr) c p k) t s₀ s xs h g short black order same n =
      right-step_black fuel black wr wl w h g short order same
  step-After fuel (in_right (node wl true w wr) c p k) t s₀ s xs h g short black order same n =
      right-step_red fuel black wr wl w h g short order same

  -- the result of the loop with its node painted black
  abbrev Painted : RbTree V S → List Ptr → Ptr × RbTree V S → Type 0
  Painted s₀ xs o = Quiet s₀ xs (set_color o.0 false o.1)

  paint_root :
      (s₀ s : RbTree V S) (xs : List Ptr) (x : Ptr)
      → Quiet s₀ xs s
      → x ≡ s.root
      → Painted s₀ xs (x, s)
  paint_root s₀ s xs x q e =
      let r = blacken-Rebalanced s₀ s xs q.shape q.tree q.order q.balanced q.calm q.rest in
      rw e (record {
        shape = r.shape;
        tree = r.tree;
        order = r.order;
        balanced = r.red_black.balanced;
        calm = r.red_black.calm;
        rest = r.rest;
      })

  whole-Painted :
      (k : Context) (t : Shape) (s₀ s : RbTree V S) (xs : List Ptr)
      → At s k t
      → Short k t
      → is_red t ≡ false
      → around k t ≡ xs
      → SameRest s₀ s
      → depth k ≡ 0
      → (s.root ≡ root_of t) × Painted s₀ xs (root_of t, s)
  whole-Painted top t s₀ s xs h short black order same n = (
    h.path,
    paint_root s₀ s xs (root_of t)
        (record {
          shape = t;
          tree = h;
          order = inorder-plug top t ∙ order;
          balanced = short.balanced;
          calm = Calm-black t black short.calm;
          rest = same;
        })
        (sym h.path),
  )
  whole-Painted (in_left c a r k) t s₀ s xs h short black order same n = absurd (omega (arith, n))
  whole-Painted (in_right l c a k) t s₀ s xs h short black order same n = absurd (omega (arith, n))

  ne-whole :
      (k : Context) (t : Shape) (s : RbTree V S) → At s k t → depth k ≢ 0 → root_of t ≢ s.root
  ne-whole k leaf s h n e = elim (rooted s _ k h.path) [
    | inl (d, q) ↦ n d
    | inr m ↦ RepAbove-ne-nil s _ k s.root h.path m (sym e)
  ]
  ne-whole k (node l c a r) s h n e = ne-root s l r c a k h n e

  red-Painted :
      (k : Context) (t : Shape) (s₀ s : RbTree V S) (xs : List Ptr)
      → At s k t
      → Short k t
      → is_red t ≡ true
      → around k t ≡ xs
      → SameRest s₀ s
      → (s.red (root_of t) ≡ true) × Painted s₀ xs (root_of t, s)
  red-Painted k leaf s₀ s xs h short red order same = absurd (ground (arith, red))
  red-Painted k (node l false a r) s₀ s xs h short red order same = absurd (ground (arith, red))
  red-Painted k (node l true a r) s₀ s xs h short red order same = (
    h.focus.4,
    Quiet-plug k (node l false a r) (set_color-At false h) (Strained-red short) short.above order
        (SameRest-trans same (record { payload = refl; nodes = refl; options = refl })),
  )

  -- the loop ends well from every short place, with so much fuel
  abbrev Ends : ℕ → ℕ → RbTree V S → List Ptr → Type 0
  Ends climb fuel s₀ xs =
      (k : Context) (t : Shape) (s : RbTree V S)
      → At s k t
      → Hangs s k t
      → Short k t
      → around k t ≡ xs
      → SameRest s₀ s
      → rounds k t < fuel
      → Returns (Painted s₀ xs) (black_black_loop climb fuel (root_of t) s)

  After-Painted :
      (climb fuel n : ℕ) (s₀ : RbTree V S) (xs : List Ptr) (o : Ptr × RbTree V S)
      → Ends climb fuel s₀ xs
      → 0 < n
      → n ≤ fuel
      → After s₀ xs n o
      → Returns (Painted s₀ xs) (black_black_loop climb fuel o.0 o.1)
  After-Painted climb zero n s₀ xs o ends z f a = absurd (omega arith)
  After-Painted climb (suc fuel) n s₀ xs o ends z f (finished q e) =
      rw (black_black_loop-root climb fuel o.0 o.1 e) (returns (paint_root s₀ o.1 xs o.0 q e))
  After-Painted climb (suc fuel) n s₀ xs o ends z f (onward k t h g short e order same m) =
      rw e (ends k t o.1 h g short order same (omega (arith, m, f)))

  black_black_loop-Ends : (climb fuel : ℕ) (s₀ : RbTree V S) (xs : List Ptr) → Ends climb fuel s₀ xs
  black_black_loop-Ends climb zero s₀ xs k t s h g short order same f = absurd (omega arith)
  black_black_loop-Ends climb (suc fuel) s₀ xs k t s h g short order same f =
      elim (Bool-cases (is_red t)) [
        | inl red ↦
            let (e, q) = red-Painted k t s₀ s xs h short red order same in
            rw (black_black_loop-red climb fuel (root_of t) s e) (returns q)
        | inr black ↦ elim (zero-cases (depth k)) [
          | inl d ↦
              let (e, q) = whole-Painted k t s₀ s xs h short black order same d in
              rw (black_black_loop-root climb fuel (root_of t) s (sym e)) (returns q)
          | inr n ↦
              rw
                (black_black_loop-black climb fuel (root_of t) s (ne-whole k t s h n)
                  (red-root_of s _ t h.nil_node h.focus ∙ black))
                (After-Painted climb fuel (depth k) s₀ xs (black_black_step climb (root_of t) s)
                  (black_black_loop-Ends climb fuel s₀ xs) (omega (arith, n))
                  (ground (arith, black, f))
                  (step-After climb k t s₀ s xs h g short black order same n))
        ]
      ]

  -- The fixup after a removal, at a subtree that lacks one black node on each path and hangs below
  -- the parent that the context says, ends if its fuel exceeds the depth of the subtree (or is
  -- positive, where its root is red), and makes a red-black tree of the same nodes in the same
  -- order.
  pub black_black_fixup-Rebalanced :
      (fuel : ℕ) (k : Context) (t : Shape) (s : RbTree V S) (xs : List Ptr)
      → At s k t
      → Hangs s k t
      → Short k t
      → around k t ≡ xs
      → rounds k t < fuel
      → Returns (Rebalanced s xs) (black_black_fixup fuel (root_of t) s)
  unfolding black_black_fixup
  black_black_fixup-Rebalanced fuel k t s xs h g short order f =
      let (o, e, q) =
        Returns-some
          (black_black_loop-Ends fuel fuel s xs k t s h g short order (SameRest-refl s) f) in
      rw (black_black_fixup, e)
        (returns (blacken-Rebalanced s _ xs q.shape q.tree q.order q.balanced q.calm q.rest))
