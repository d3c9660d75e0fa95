-- ===== src/RbTree/Fixup/Steps.antt =====
-- A round of `_mulle__rbtree_black_black_fixup` (src/mulle--rbtree.c) on either side.
use mulle_rbtree.Base.{ℕ, suc, ◌<◌, Bool, true, false, ◌≡◌, refl, List, arith}
use mulle_rbtree.Storage.{Ptr}
use mulle_rbtree.RbTree.{RbTree}
use mulle_rbtree.RbTree.Rest.{SameRest, SameRest-trans}
use mulle_rbtree.RbTree.Fixup.{black_black_left, black_black_right, black_black_step}
use mulle_rbtree.RbTree.Fixup.Short.{Short, rounds, Short-turn_left, Short-turn_right}
use mulle_rbtree.RbTree.Fixup.Siblings.{
  outer_left, step_left-black, step_left-red, outer_right, step_right-black, step_right-red,
}
use mulle_rbtree.RbTree.Fixup.Pulls.{
  Hangs, Hangs-parent, Hangs-move, outer_left-At, outer_left-nil, SameRest-outer_left,
  outer_right-At, outer_right-nil, SameRest-outer_right,
}
use mulle_rbtree.Shape.{Shape, leaf, node, Context, in_left, in_right, root_of, is_red, depth}
use mulle_rbtree.Shape.Balance.{around, list_laws}
use mulle_rbtree.Shape.Zipper.{At}
use mulle_rbtree.RbTree.Fixup.Rounds.{
  ne-sibling, After, left-up, left-close, left-inner, right-up, right-close, right-inner,
}

module _ {V S : Type 0} {s₀ s : RbTree V S} {k : Context} {c : Bool} {p w : Ptr} {t : Shape}
    {xs : List Ptr} (fuel n : ℕ) (black : is_red t ≡ false) where
  left-After :
      (wl wr : Shape) (h : At s (in_left c p (node wl false w wr) k) t)
      → Hangs s (in_left c p (node wl false w wr) k) t
      → Short (in_left c p (node wl false w wr) k) t
      → around (in_left c p (node wl false w wr) k) t ≡ xs
      → SameRest s₀ s
      → rounds k (node t c p (node wl true w wr)) < n
      → After s₀ xs n (black_black_left fuel (root_of t) w s)
  left-After leaf leaf h g short order same f =
      left-up fuel n black leaf leaf h g short refl refl order same f
  left-After leaf (node vl false v vr) h g short order same f =
      left-up fuel n black leaf (node vl false v vr) h g short refl refl order same f
  left-After (node ul false u ur) leaf h g short order same f =
      left-up fuel n black (node ul false u ur) leaf h g short refl refl order same f
  left-After (node ul false u ur) (node vl false v vr) h g short order same f =
      left-up fuel n black (node ul false u ur) (node vl false v vr) h g short refl refl order same
        f
  left-After (node ul true u ur) leaf h g short order same f =
      left-inner fuel n black ul ur leaf u h g short refl order same
  left-After (node ul true u ur) (node vl false v vr) h g short order same f =
      left-inner fuel n black ul ur (node vl false v vr) u h g short refl order same
  left-After wl (node vl true v vr) h g short order same f =
      left-close fuel n black wl vl vr v h g short order same

module _ {V S : Type 0} {s₀ s : RbTree V S} {k : Context} {c : Bool} {p : Ptr} {t : Shape}
    {xs : List Ptr} (fuel : ℕ) (black : is_red t ≡ false) where
  pub left-step_black :
      (wl wr : Shape) (w : Ptr) (h : At s (in_left c p (node wl false w wr) k) t)
      → Hangs s (in_left c p (node wl false w wr) k) t
      → Short (in_left c p (node wl false w wr) k) t
      → around (in_left c p (node wl false w wr) k) t ≡ xs
      → SameRest s₀ s
      → After s₀ xs (suc (depth k)) (black_black_step fuel (root_of t) s)
  left-step_black wl wr w h g short order same =
      rw
        (step_left-black fuel (root_of t) p w s (Hangs-parent s _ t h g) h.path.2 h.path.3
          h.path.5.4)
        (left-After fuel (suc (depth k)) black wl wr h g short order same (ground arith))

  pub left-step_red :
      (wl wr : Shape) (w : Ptr) (h : At s (in_left c p (node wl true w wr) k) t)
      → Hangs s (in_left c p (node wl true w wr) k) t
      → Short (in_left c p (node wl true w wr) k) t
      → around (in_left c p (node wl true w wr) k) t ≡ xs
      → SameRest s₀ s
      → After s₀ xs (suc (depth k)) (black_black_step fuel (root_of t) s)
  left-step_red leaf wr w h g short order same = absurd (ground (arith, short))
  left-step_red (node ul true u ur) wr w h g short order same = absurd (ground (arith, short))
  left-step_red (node ul false u ur) wr w h g short order same =
      let s₁ = outer_left fuel p w s in
      let h₁ = outer_left-At fuel h in
      let g₁ =
        Hangs-move s s₁ (in_left c p (node (node ul false u ur) true w wr) k)
          (in_left true p (node ul false u ur) (in_left false w wr k)) t g (outer_left-nil fuel h)
          refl in
      rw
        (step_left-red fuel (root_of t) p w s (Hangs-parent s _ t h g) h.path.2 h.path.3 u
          h.path.5.4 (Hangs-parent s₁ _ t h₁ g₁) h₁.path.3)
        (left-After fuel (suc (depth k)) black ul ur h₁ g₁ (Short-turn_left short)
          (rw (← order) (simp list_laws)) (SameRest-trans same (SameRest-outer_left fuel h))
          (omega arith))

module _ {V S : Type 0} {s₀ s : RbTree V S} {k : Context} {c : Bool} {p w : Ptr} {t : Shape}
    {xs : List Ptr} (fuel n : ℕ) (black : is_red t ≡ false) where
  right-After :
      (wl wr : Shape) (h : At s (in_right (node wr false w wl) c p k) t)
      → Hangs s (in_right (node wr false w wl) c p k) t
      → Short (in_right (node wr false w wl) c p k) t
      → around (in_right (node wr false w wl) c p k) t ≡ xs
      → SameRest s₀ s
      → rounds k (node (node wr true w wl) c p t) < n
      → After s₀ xs n (black_black_right fuel (root_of t) w s)
  right-After leaf leaf h g short order same f =
      right-up fuel n black leaf leaf h g short refl refl order same f
  right-After leaf (node vl false v vr) h g short order same f =
      right-up fuel n black leaf (node vl false v vr) h g short refl refl order same f
  right-After (node ul false u ur) leaf h g short order same f =
      right-up fuel n black (node ul false u ur) leaf h g short refl refl order same f
  right-After (node ul false u ur) (node vl false v vr) h g short order same f =
      right-up fuel n black (node ul false u ur) (node vl false v vr) h g short refl refl order same
        f
  right-After (node ur true u ul) leaf h g short order same f =
      right-inner fuel n black ul ur leaf u h g short refl order same
  right-After (node ur true u ul) (node vl false v vr) h g short order same f =
      right-inner fuel n black ul ur (node vl false v vr) u h g short refl order same
  right-After wl (node vr true v vl) h g short order same f =
      right-close fuel n black wl vl vr v h g short order same

module _ {V S : Type 0} {s₀ s : RbTree V S} {k : Context} {c : Bool} {p : Ptr} {t : Shape}
    {xs : List Ptr} (fuel : ℕ) (black : is_red t ≡ false) where
  pub right-step_black :
      (wl wr : Shape) (w : Ptr) (h : At s (in_right (node wr false w wl) c p k) t)
      → Hangs s (in_right (node wr false w wl) c p k) t
      → Short (in_right (node wr false w wl) c p k) t
      → around (in_right (node wr false w wl) c p k) t ≡ xs
      → SameRest s₀ s
      → After s₀ xs (suc (depth k)) (black_black_step fuel (root_of t) s)
  right-step_black wl wr w h g short order same =
      rw
        (step_right-black fuel (root_of t) p w s (Hangs-parent s _ t h g) h.path.2
          (ne-sibling t wr wl false w h) h.path.5.4)
        (right-After fuel (suc (depth k)) black wl wr h g short order same (ground arith))

  pub right-step_red :
      (wl wr : Shape) (w : Ptr) (h : At s (in_right (node wr true w wl) c p k) t)
      → Hangs s (in_right (node wr true w wl) c p k) t
      → Short (in_right (node wr true w wl) c p k) t
      → around (in_right (node wr true w wl) c p k) t ≡ xs
      → SameRest s₀ s
      → After s₀ xs (suc (depth k)) (black_black_step fuel (root_of t) s)
  right-step_red leaf wr w h g short order same = absurd (ground (arith, short))
  right-step_red (node ur true u ul) wr w h g short order same = absurd (ground (arith, short))
  right-step_red (node ur false u ul) wr w h g short order same =
      let s₁ = outer_right fuel p w s in
      let h₁ = outer_right-At fuel h in
      let g₁ =
        Hangs-move s s₁ (in_right (node wr true w (node ur false u ul)) c p k)
          (in_right (node ur false u ul) true p (in_right wr false w k)) t g
          (outer_right-nil fuel h) refl in
      rw
        (step_right-red fuel (root_of t) p w s (Hangs-parent s _ t h g) h.path.2
          (ne-sibling t wr (node ur false u ul) true w h) u h.path.5.4 (Hangs-parent s₁ _ t h₁ g₁)
          h₁.path.2)
        (right-After fuel (suc (depth k)) black ul ur h₁ g₁ (Short-turn_right short)
          (rw (← order) (simp list_laws)) (SameRest-trans same (SameRest-outer_right fuel h))
          (omega arith))
