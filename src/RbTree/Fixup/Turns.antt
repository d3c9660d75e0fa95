-- ===== src/RbTree/Fixup/Turns.antt =====
-- The cases of a red uncle and of a rotation in `_mulle__rbtree_red_red_fixup`
-- (src/mulle--rbtree.c).
use mulle_rbtree.Base.{ℕ, suc, ◌<◌, Bool, true, false, ◌≡◌, sym, ◌∙◌, ap, List, arith}
use mulle_rbtree.Storage.{Ptr}
use mulle_rbtree.RbTree.{RbTree}
use mulle_rbtree.RbTree.Rest.{
  Returns, returns, SameRest, SameRest-trans, left_rotate-SameRest, right_rotate-SameRest,
}
use mulle_rbtree.RbTree.Rotate.{left_rotate_node, right_rotate_node}
use mulle_rbtree.RbTree.Rotate.LeftTurn.{left_rotate-At}
use mulle_rbtree.RbTree.Rotate.RightTurn.{right_rotate-At}
use mulle_rbtree.RbTree.Fixup.{red_red_loop, red_red_left, red_red_right}
use mulle_rbtree.RbTree.Fixup.Tests.{
  red-root_of, ne-root, step_left-outer, step_left-inner, step_right-outer, step_right-inner,
}
use mulle_rbtree.Shape.{Shape, node, Context, in_left, in_right, root_of, is_red}
use mulle_rbtree.Shape.Balance.{around, list_laws}
use mulle_rbtree.Shape.Zipper.{
  At, up_left, up_right, down_left, down_right, ne-sibling_left, ne-sibling_right,
}
use mulle_rbtree.RbTree.Fixup.Strained.{
  Strained, Strained-turn_left_outer, Strained-turn_left_inner, Strained-turn_right_outer,
  Strained-turn_right_inner,
}
use mulle_rbtree.RbTree.Fixup.Quiet.{
  Quiet, Quiet-plug, red_red_right-At, red_red_left-At, SameRest-red_red_right,
  SameRest-red_red_left, next_round, last_round,
}

module _ {V S : Type 0} where
  module _ {s₀ s : RbTree V S} {k : Context} {c : Bool} {xa xb r u : Shape} {x p g : Ptr}
      {xs : List Ptr} (climb fuel : ℕ) (some_fuel : 0 < fuel)
      (h : At s (in_left true p r (in_left c g u k)) (node xa true x xb))
      (w : Strained (in_left true p r (in_left c g u k)) (node xa true x xb))
      (black : is_red u ≡ false)
      (order : around (in_left true p r (in_left c g u k)) (node xa true x xb) ≡ xs)
      (same : SameRest s₀ s) where
    pub turn_left_outer : Returns (Quiet s₀ xs) (red_red_loop climb (suc fuel) x s)
    turn_left_outer =
        let h1 = red_red_right-At climb h in
        let w1 = Strained-turn_left_outer w black in
        rw
          (
            next_round climb fuel s p x (g, red_red_right climb x s)
                (ne-root s xa xb true x _ h (λ z. absurd (omega (arith, z)))) h.focus.1 h.path.4
                (step_left-outer climb x p g (root_of u) s h.focus.1 h.path.1 h.path.6.2 h.path.6.3
                  (red-root_of s g u h.nil_node h.path.6.5 ∙ black)
                  (λ z. ne-sibling_left h (z ∙ h.path.3))),
            last_round climb fuel (red_red_right climb x s) p g some_fuel h1.focus.6.1 h1.focus.4,
          )
          (returns (
            Quiet-plug k (node (node xa true x xb) false p (node r true g u)) h1 w1 w1.above
              (rw (← order) (simp list_laws))
              (SameRest-trans same (SameRest-red_red_right climb x s))))

  module _ {s₀ s : RbTree V S} {k : Context} {c : Bool} {xa xb r u : Shape} {x p g : Ptr}
      {xs : List Ptr} (climb fuel : ℕ) (some_fuel : 0 < fuel)
      (h : At s (in_right r true p (in_left c g u k)) (node xa true x xb))
      (w : Strained (in_right r true p (in_left c g u k)) (node xa true x xb))
      (black : is_red u ≡ false)
      (order : around (in_right r true p (in_left c g u k)) (node xa true x xb) ≡ xs)
      (same : SameRest s₀ s) where
    pub turn_left_inner : Returns (Quiet s₀ xs) (red_red_loop climb (suc fuel) x s)
    turn_left_inner =
        let s₁ = left_rotate_node climb p s in
        let h₁ = down_left (left_rotate-At climb (up_right h)) in
        let h1 = red_red_right-At climb h₁ in
        let w1 = Strained-turn_left_inner w black in
        rw
          (
            next_round climb fuel s p x (g, red_red_right climb p s₁)
                (ne-root s xa xb true x _ h (λ z. absurd (omega (arith, z)))) h.focus.1 h.path.4
                (step_left-inner climb x p g (root_of u) s h.focus.1 h.path.1 h.path.6.2 h.path.6.3
                    (red-root_of s g u h.nil_node h.path.6.5 ∙ black) (sym h.path.3)
                  ∙ ap (λ z. (z, red_red_right climb p s₁)) (ap s₁.parent h₁.focus.1 ∙ h₁.path.1)),
            last_round climb fuel (red_red_right climb p s₁) x g some_fuel h1.focus.6.1 h1.focus.4,
          )
          (returns (
            Quiet-plug k (node (node r true p xa) false x (node xb true g u)) h1 w1 w1.above
              (rw (← order) (simp list_laws))
              (SameRest-trans same (
                SameRest-trans (left_rotate-SameRest climb p s)
                  (SameRest-red_red_right climb p s₁)))))

  module _ {s₀ s : RbTree V S} {k : Context} {c : Bool} {xa xb r u : Shape} {x p g : Ptr}
      {xs : List Ptr} (climb fuel : ℕ) (some_fuel : 0 < fuel)
      (h : At s (in_right r true p (in_right u c g k)) (node xb true x xa))
      (w : Strained (in_right r true p (in_right u c g k)) (node xb true x xa))
      (black : is_red u ≡ false)
      (order : around (in_right r true p (in_right u c g k)) (node xb true x xa) ≡ xs)
      (same : SameRest s₀ s) where
    pub turn_right_outer : Returns (Quiet s₀ xs) (red_red_loop climb (suc fuel) x s)
    turn_right_outer =
        let h1 = red_red_left-At climb h in
        let w1 = Strained-turn_right_outer w black in
        rw
          (
            next_round climb fuel s p x (g, red_red_left climb x s)
                (ne-root s xb xa true x _ h (λ z. absurd (omega (arith, z)))) h.focus.1 h.path.4
                (step_right-outer climb x p g (root_of u) s h.focus.1 h.path.1 h.path.6.3 h.path.6.2
                  (ne-sibling_right (up_right h)) (red-root_of s g u h.nil_node h.path.6.5 ∙ black)
                  (λ z. ne-sibling_right h (z ∙ h.path.2))),
            last_round climb fuel (red_red_left climb x s) p g some_fuel h1.focus.5.1 h1.focus.4,
          )
          (returns (
            Quiet-plug k (node (node u true g r) false p (node xb true x xa)) h1 w1 w1.above
              (rw (← order) (simp list_laws))
              (SameRest-trans same (SameRest-red_red_left climb x s))))

  module _ {s₀ s : RbTree V S} {k : Context} {c : Bool} {xa xb r u : Shape} {x p g : Ptr}
      {xs : List Ptr} (climb fuel : ℕ) (some_fuel : 0 < fuel)
      (h : At s (in_left true p r (in_right u c g k)) (node xb true x xa))
      (w : Strained (in_left true p r (in_right u c g k)) (node xb true x xa))
      (black : is_red u ≡ false)
      (order : around (in_left true p r (in_right u c g k)) (node xb true x xa) ≡ xs)
      (same : SameRest s₀ s) where
    pub turn_right_inner : Returns (Quiet s₀ xs) (red_red_loop climb (suc fuel) x s)
    turn_right_inner =
        let s₁ = right_rotate_node climb p s in
        let h₁ = down_right (right_rotate-At climb (up_left h)) in
        let h1 = red_red_left-At climb h₁ in
        let w1 = Strained-turn_right_inner w black in
        rw
          (
            next_round climb fuel s p x (g, red_red_left climb p s₁)
                (ne-root s xb xa true x _ h (λ z. absurd (omega (arith, z)))) h.focus.1 h.path.4
                (step_right-inner climb x p g (root_of u) s h.focus.1 h.path.1 h.path.6.3 h.path.6.2
                    (ne-sibling_right (up_left h)) (red-root_of s g u h.nil_node h.path.6.5 ∙ black)
                    (sym h.path.2)
                  ∙ ap (λ z. (z, red_red_left climb p s₁)) (ap s₁.parent h₁.focus.1 ∙ h₁.path.1)),
            last_round climb fuel (red_red_left climb p s₁) x g some_fuel h1.focus.5.1 h1.focus.4,
          )
          (returns (
            Quiet-plug k (node (node u true g xb) false x (node xa true p r)) h1 w1 w1.above
              (rw (← order) (simp list_laws))
              (SameRest-trans same (
                SameRest-trans (right_rotate-SameRest climb p s)
                  (SameRest-red_red_left climb p s₁)))))
