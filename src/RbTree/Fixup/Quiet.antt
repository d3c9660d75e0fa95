-- ===== src/RbTree/Fixup/Quiet.antt =====
-- One round of `_mulle__rbtree_red_red_fixup` (src/mulle--rbtree.c) on the shape.
use mulle_rbtree.Base.{
  ℕ, zero, suc, ◌<◌, Bool, true, false, ◌≡◌, ◌≢◌, refl, ◌∙◌, ap, some, List, arith,
}
use mulle_rbtree.Storage.{Ptr}
use mulle_rbtree.RbTree.{RbTree}
use mulle_rbtree.RbTree.Rest.{SameRest, SameRest-trans, left_rotate-SameRest, right_rotate-SameRest}
use mulle_rbtree.RbTree.Recolor.{set_color-At}
use mulle_rbtree.RbTree.Rotate.LeftTurn.{left_rotate-At}
use mulle_rbtree.RbTree.Rotate.RightTurn.{right_rotate-At}
use mulle_rbtree.RbTree.Fixup.{recolor, red_red_step, red_red_loop, red_red_left, red_red_right}
use mulle_rbtree.RbTree.Fixup.Tests.{
  red_red_loop-black, red_red_loop-red, recolor_lem, red_red_right_lem, red_red_left_lem,
}
use mulle_rbtree.Shape.{Shape, node, Context, in_left, in_right, root_of, is_red, inorder, plug}
use mulle_rbtree.Shape.Balance.{
  Balanced, Calm, CalmAbove, around, inorder-plug, Balanced-plug, Calm-plug,
}
use mulle_rbtree.Shape.Zipper.{At, IsTree, At-plug, up_left, up_right, down_left, down_right}
use mulle_rbtree.RbTree.Fixup.Strained.{Strained}

module _ {V S : Type 0} where
  -- what the loop leaves: the root may still be red
  pub record Quiet (s : RbTree V S) (xs : List Ptr) (s' : RbTree V S) : Type 0 where
    pub shape : Shape
    pub tree : IsTree s' shape
    pub order : inorder shape ≡ xs
    pub balanced : Balanced shape
    pub calm : Calm shape
    pub rest : SameRest s s'

  -- the loop ends: nothing is wrong
  pub Quiet-plug :
      {s s' : RbTree V S} (k : Context) (t : Shape) {xs : List Ptr}
      → At s' k t
      → Strained k t
      → CalmAbove (is_red t) k
      → around k t ≡ xs
      → SameRest s s'
      → Quiet s xs s'
  Quiet-plug k t h w c e r = record {
    shape = plug k t;
    tree = At-plug _ k t h;
    order = inorder-plug k t ∙ e;
    balanced = Balanced-plug k t w.balanced w.level;
    calm = Calm-plug k t w.calm c;
    rest = r;
  }

  -- case 3, `p` the left child of `g` and `x` of `p`
  pub red_red_right-At :
      {s : RbTree V S} {k : Context} {c : Bool} {xa xb r u : Shape} {x p g : Ptr} (fuel : ℕ)
      → At s (in_left true p r (in_left c g u k)) (node xa true x xb)
      → At (red_red_right fuel x s) k (node (node xa true x xb) false p (node r true g u))
  red_red_right-At {s} {c} {r} {u} {x} {p} {g} fuel h =
      rw (red_red_right_lem fuel x p g (root_of u) s h.focus.1 h.path.1)
        (right_rotate-At fuel (set_color-At true (up_left (set_color-At false (up_left h)))))

  -- case 1, `p` the left child of `g`, `x` the left child of `p`
  pub recolor_left_outer-At :
      {s : RbTree V S} {k : Context} {c : Bool} {xa xb r ul ur : Shape} {x p g y : Ptr}
      → At s (in_left true p r (in_left c g (node ul true y ur) k)) (node xa true x xb)
      → At (recolor x y s) k (node (node (node xa true x xb) false p r) true g (node ul false y ur))
  recolor_left_outer-At {s} {x} {p} {g} {y} h = rw (recolor_lem 0 x p g y s h.focus.1 h.path.1) (
      up_right (
        set_color-At false
          (down_right (set_color-At true (up_left (set_color-At false (up_left h)))))))

  -- case 1, `p` the left child of `g`, `x` the right child of `p`
  pub recolor_left_inner-At :
      {s : RbTree V S} {k : Context} {c : Bool} {xa xb r ul ur : Shape} {x p g y : Ptr}
      → At s (in_right r true p (in_left c g (node ul true y ur) k)) (node xa true x xb)
      → At (recolor x y s) k (node (node r false p (node xa true x xb)) true g (node ul false y ur))
  recolor_left_inner-At {s} {x} {p} {g} {y} h = rw (recolor_lem 0 x p g y s h.focus.1 h.path.1) (
      up_right (
        set_color-At false
          (down_right (set_color-At true (up_left (set_color-At false (up_right h)))))))

  -- case 3, `p` the right child of `g` and `x` of `p`
  pub red_red_left-At :
      {s : RbTree V S} {k : Context} {c : Bool} {xa xb r u : Shape} {x p g : Ptr} (fuel : ℕ)
      → At s (in_right r true p (in_right u c g k)) (node xb true x xa)
      → At (red_red_left fuel x s) k (node (node u true g r) false p (node xb true x xa))
  red_red_left-At {s} {c} {r} {u} {x} {p} {g} fuel h =
      rw (red_red_left_lem fuel x p g (root_of u) s h.focus.1 h.path.1)
        (left_rotate-At fuel (set_color-At true (up_right (set_color-At false (up_right h)))))

  -- case 1, `p` the right child of `g`, `x` the right child of `p`
  pub recolor_right_outer-At :
      {s : RbTree V S} {k : Context} {c : Bool} {xa xb r ul ur : Shape} {x p g y : Ptr}
      → At s (in_right r true p (in_right (node ur true y ul) c g k)) (node xb true x xa)
      → At (recolor x y s) k (node (node ur false y ul) true g (node r false p (node xb true x xa)))
  recolor_right_outer-At {s} {x} {p} {g} {y} h = rw (recolor_lem 0 x p g y s h.focus.1 h.path.1) (
      up_left (
        set_color-At false
          (down_left (set_color-At true (up_right (set_color-At false (up_right h)))))))

  -- case 1, `p` the right child of `g`, `x` the left child of `p`
  pub recolor_right_inner-At :
      {s : RbTree V S} {k : Context} {c : Bool} {xa xb r ul ur : Shape} {x p g y : Ptr}
      → At s (in_left true p r (in_right (node ur true y ul) c g k)) (node xb true x xa)
      → At (recolor x y s) k (node (node ur false y ul) true g (node (node xb true x xa) false p r))
  recolor_right_inner-At {s} {x} {p} {g} {y} h = rw (recolor_lem 0 x p g y s h.focus.1 h.path.1) (
      up_left (
        set_color-At false
          (down_left (set_color-At true (up_right (set_color-At false (up_left h)))))))

  pub SameRest-recolor : (x y : Ptr) (s : RbTree V S) → SameRest s (recolor x y s)
  unfolding recolor
  SameRest-recolor x y s = record { payload = refl; nodes = refl; options = refl }

  pub SameRest-red_red_right :
      (fuel : ℕ) (x : Ptr) (s : RbTree V S) → SameRest s (red_red_right fuel x s)
  unfolding red_red_right
  SameRest-red_red_right fuel x s =
      SameRest-trans (record { payload = refl; nodes = refl; options = refl })
        (right_rotate-SameRest fuel _ _)

  pub SameRest-red_red_left :
      (fuel : ℕ) (x : Ptr) (s : RbTree V S) → SameRest s (red_red_left fuel x s)
  unfolding red_red_left
  SameRest-red_red_left fuel x s =
      SameRest-trans (record { payload = refl; nodes = refl; options = refl })
        (left_rotate-SameRest fuel _ _)

  -- one more round
  pub next_round :
      (climb fuel : ℕ) (s : RbTree V S) (q x : Ptr) (o : Ptr × RbTree V S)
      → x ≢ s.root
      → s.parent x ≡ q
      → s.red q ≡ true
      → red_red_step climb x s ≡ o
      → red_red_loop climb (suc fuel) x s ≡ red_red_loop climb fuel o.0 o.1
  next_round climb fuel s q x o n up red e =
      red_red_loop-red climb fuel x s q n up red ∙ ap (λ z. red_red_loop climb fuel z.0 z.1) e

  -- below a black node the loop ends
  pub last_round :
      (climb fuel : ℕ) (s : RbTree V S) (q x : Ptr)
      → 0 < fuel
      → s.parent x ≡ q
      → s.red q ≡ false
      → red_red_loop climb fuel x s ≡ some s
  last_round climb zero s q x f up e = absurd (omega arith)
  last_round climb (suc fuel) s q x f up e = red_red_loop-black climb fuel x s q up e
