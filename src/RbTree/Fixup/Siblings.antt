-- ===== src/RbTree/Fixup/Siblings.antt =====
-- The branches of the body of `_mulle__rbtree_black_black_fixup` (src/mulle--rbtree.c), and how often
-- its loop goes on.
use mulle_rbtree.Base.{ℕ, suc, Bool, true, false, ◌≡◌, ◌≢◌, refl, some, arith}
use mulle_rbtree.Storage.{Ptr}
use mulle_rbtree.RbTree.{RbTree, set_color}
use mulle_rbtree.RbTree.Rotate.{left_rotate_node, right_rotate_node}
use mulle_rbtree.RbTree.Fixup.{
  black_black_left, black_black_right, black_black_step, black_black_loop,
}

module _ {V S : Type 0} (fuel : ℕ) where
  -- the last case: `w` takes the colour of `p`, and comes up
  abbrev pub close_left : (p w v : Ptr) → Bool → RbTree V S → RbTree V S
  close_left p w v c s =
      left_rotate_node fuel p (set_color v false (set_color p false (set_color w c s)))

  -- the case before it: the inner child `u` of `w` comes up
  abbrev pub inner_left : (w u : Ptr) → RbTree V S → RbTree V S
  inner_left w u s = right_rotate_node fuel w (set_color w true (set_color u false s))

  -- the first case: the red sibling `w` comes up
  abbrev pub outer_left : (p w : Ptr) → RbTree V S → RbTree V S
  outer_left p w s = left_rotate_node fuel p (set_color p true (set_color w false s))

  module _ (x w : Ptr) (s : RbTree V S) where
    pub black_black_left-up :
        (p u v : Ptr)
        → s.parent x ≡ p
        → s.left w ≡ u
        → s.right w ≡ v
        → s.red u ≡ false
        → s.red v ≡ false
        → black_black_left fuel x w s ≡ (p, set_color w true s)
    unfolding black_black_left
    black_black_left-up p u v e eu ev f g = rw (eu, ev, f, g, e) refl

    pub black_black_left-close :
        (p v : Ptr) (c : Bool)
        → s.parent x ≡ p
        → s.right w ≡ v
        → s.red v ≡ true
        → s.red p ≡ c
        → black_black_left fuel x w s ≡ ((close_left p w v c s).root, close_left p w v c s)
    unfolding black_black_left
    black_black_left-close p v c e ev g f = ground (arith, e, ev, g, f)

    pub black_black_left-inner :
        (p u v v' : Ptr) (c : Bool)
        → s.left w ≡ u
        → s.right w ≡ v
        → s.red u ≡ true
        → s.red v ≡ false
        → (inner_left w u s).parent x ≡ p
        → (inner_left w u s).right p ≡ u
        → (inner_left w u s).right u ≡ v'
        → (inner_left w u s).red p ≡ c
        → black_black_left fuel x w s
          ≡ ((close_left p u v' c (inner_left w u s)).root, close_left p u v' c (inner_left w u s))
    unfolding black_black_left
    black_black_left-inner p u v v' c eu ev f g up ep er ec = rw (eu, ev, f, g, up, ep, er, ec) refl

  module _ (x p w : Ptr) (s : RbTree V S) (up : s.parent x ≡ p) (here : s.left p ≡ x)
      (other : s.right p ≡ w) where
    pub step_left-black : s.red w ≡ false → black_black_step fuel x s ≡ black_black_left fuel x w s
    unfolding black_black_step
    step_left-black e = ground arith

    pub step_left-red :
        (w' : Ptr)
        → s.red w ≡ true
        → (outer_left p w s).parent x ≡ p
        → (outer_left p w s).right p ≡ w'
        → black_black_step fuel x s ≡ black_black_left fuel x w' (outer_left p w s)
    unfolding black_black_step
    step_left-red w' e f g = ground arith

  -- the last case: `w` takes the colour of `p`, and comes up
  abbrev pub close_right : (p w v : Ptr) → Bool → RbTree V S → RbTree V S
  close_right p w v c s =
      right_rotate_node fuel p (set_color v false (set_color p false (set_color w c s)))

  -- the case before it: the inner child `u` of `w` comes up
  abbrev pub inner_right : (w u : Ptr) → RbTree V S → RbTree V S
  inner_right w u s = left_rotate_node fuel w (set_color w true (set_color u false s))

  -- the first case: the red sibling `w` comes up
  abbrev pub outer_right : (p w : Ptr) → RbTree V S → RbTree V S
  outer_right p w s = right_rotate_node fuel p (set_color p true (set_color w false s))

  module _ (x w : Ptr) (s : RbTree V S) where
    pub black_black_right-up :
        (p u v : Ptr)
        → s.parent x ≡ p
        → s.right w ≡ u
        → s.left w ≡ v
        → s.red u ≡ false
        → s.red v ≡ false
        → black_black_right fuel x w s ≡ (p, set_color w true s)
    unfolding black_black_right
    black_black_right-up p u v e eu ev f g = rw (eu, ev, f, g, e) refl

    pub black_black_right-close :
        (p v : Ptr) (c : Bool)
        → s.parent x ≡ p
        → s.left w ≡ v
        → s.red v ≡ true
        → s.red p ≡ c
        → black_black_right fuel x w s ≡ ((close_right p w v c s).root, close_right p w v c s)
    unfolding black_black_right
    black_black_right-close p v c e ev g f = ground (arith, e, ev, g, f)

    pub black_black_right-inner :
        (p u v v' : Ptr) (c : Bool)
        → s.right w ≡ u
        → s.left w ≡ v
        → s.red u ≡ true
        → s.red v ≡ false
        → (inner_right w u s).parent x ≡ p
        → (inner_right w u s).left p ≡ u
        → (inner_right w u s).left u ≡ v'
        → (inner_right w u s).red p ≡ c
        → black_black_right fuel x w s ≡ (
          (close_right p u v' c (inner_right w u s)).root,
          close_right p u v' c (inner_right w u s),
        )
    unfolding black_black_right
    black_black_right-inner p u v v' c eu ev f g up ep er ec =
        rw (eu, ev, f, g, up, ep, er, ec) refl

  module _ (x p w : Ptr) (s : RbTree V S) (up : s.parent x ≡ p) (here : s.left p ≡ w)
      (other : x ≢ w) where
    pub step_right-black :
        s.red w ≡ false → black_black_step fuel x s ≡ black_black_right fuel x w s
    unfolding black_black_step
    step_right-black e = ground arith

    pub step_right-red :
        (w' : Ptr)
        → s.red w ≡ true
        → (outer_right p w s).parent x ≡ p
        → (outer_right p w s).left p ≡ w'
        → black_black_step fuel x s ≡ black_black_right fuel x w' (outer_right p w s)
    unfolding black_black_step
    step_right-red w' e f g = ground arith

module _ {V S : Type 0} (climb fuel : ℕ) (x : Ptr) (s : RbTree V S) where
  pub black_black_loop-root : x ≡ s.root → black_black_loop climb (suc fuel) x s ≡ some (x, s)
  unfolding black_black_loop
  black_black_loop-root e = ground arith

  pub black_black_loop-red : s.red x ≡ true → black_black_loop climb (suc fuel) x s ≡ some (x, s)
  unfolding black_black_loop
  black_black_loop-red e = ground arith

  pub black_black_loop-black :
      x ≢ s.root
      → s.red x ≡ false
      → black_black_loop climb (suc fuel) x s
        ≡ black_black_loop climb fuel (black_black_step climb x s).0 (black_black_step climb x s).1
  unfolding black_black_loop
  black_black_loop-black n e = ground arith
