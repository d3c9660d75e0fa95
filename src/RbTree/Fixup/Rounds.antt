-- ===== src/RbTree/Fixup/Rounds.antt =====
-- The cases of a round of `_mulle__rbtree_black_black_fixup` (src/mulle--rbtree.c) with a black sibling.
use mulle_rbtree.Base.{ℕ, ◌<◌, Bool, true, false, ◌≡◌, ◌≢◌, refl, sym, ◌∙◌, List, arith}
use mulle_rbtree.Storage.{Ptr}
use mulle_rbtree.RbTree.{RbTree}
use mulle_rbtree.RbTree.Rest.{SameRest, SameRest-trans}
use mulle_rbtree.RbTree.Recolor.{set_color-At}
use mulle_rbtree.RbTree.Fixup.{black_black_left, black_black_right}
use mulle_rbtree.RbTree.Fixup.Tests.{red-root_of}
use mulle_rbtree.RbTree.Fixup.Quiet.{Quiet, Quiet-plug}
use mulle_rbtree.RbTree.Fixup.Short.{
  Short, rounds, Short-up_left, Strained-close_left, Short-inner_left, Short-up_right,
  Strained-close_right, Short-inner_right,
}
use mulle_rbtree.RbTree.Fixup.Siblings.{
  inner_left, black_black_left-up, black_black_left-close, black_black_left-inner, inner_right,
  black_black_right-up, black_black_right-close, black_black_right-inner,
}
use mulle_rbtree.RbTree.Fixup.Pulls.{
  Hangs, Hangs-parent, Hangs-move, close_left-At, SameRest-close_left, inner_left-At,
  inner_left-nil, SameRest-inner_left, close_right-At, SameRest-close_right, inner_right-At,
  inner_right-nil, SameRest-inner_right,
}
use mulle_rbtree.Shape.{Shape, leaf, node, Context, in_left, in_right, root_of, is_red}
use mulle_rbtree.Shape.Balance.{around, list_laws}
use mulle_rbtree.Shape.Zipper.{At, up_left, up_right, down_left, down_right, ne-sibling_right}

-- the focus is not the root of its sibling
pub ne-sibling :
    {V S : Type 0} {s : RbTree V S} {k : Context} {c : Bool} {p : Ptr} (t wl wr : Shape) (d : Bool)
    (w : Ptr)
    → At s (in_right (node wl d w wr) c p k) t
    → root_of t ≢ w
ne-sibling leaf wl wr d w h e = h.path.5.0 (sym e)
ne-sibling (node l e a r) wl wr d w h q = ne-sibling_right h q

module _ {V S : Type 0} where
  -- what a round leaves: a tree to which nothing is missing, with its root, or a short subtree
  pub data After (s₀ : RbTree V S) (xs : List Ptr) (n : ℕ) (o : Ptr × RbTree V S) : Type 0 where
    finished : Quiet s₀ xs o.1 → o.0 ≡ o.1.root → After s₀ xs n o
    onward :
        (k : Context) (t : Shape)
        → At o.1 k t
        → Hangs o.1 k t
        → Short k t
        → o.0 ≡ root_of t
        → around k t ≡ xs
        → SameRest s₀ o.1
        → rounds k t < n
        → After s₀ xs n o

module _ {V S : Type 0} {s₀ s : RbTree V S} {k : Context} {c : Bool} {p w : Ptr} {t : Shape}
    {xs : List Ptr} (fuel n : ℕ) (black : is_red t ≡ false) where
  pub left-up :
      (wl wr : Shape) (h : At s (in_left c p (node wl false w wr) k) t)
      → Hangs s (in_left c p (node wl false w wr) k) t
      → Short (in_left c p (node wl false w wr) k) t
      → is_red wl ≡ false
      → is_red wr ≡ false
      → around (in_left c p (node wl false w wr) k) t ≡ xs
      → SameRest s₀ s
      → rounds k (node t c p (node wl true w wr)) < n
      → After s₀ xs n (black_black_left fuel (root_of t) w s)
  left-up wl wr h g short el er order same f =
      rw
        (black_black_left-up fuel (root_of t) w s p (root_of wl) (root_of wr)
          (Hangs-parent s (in_left c p (node wl false w wr) k) t h g) h.path.5.2 h.path.5.3
          (red-root_of s w wl h.nil_node h.path.5.5 ∙ el)
          (red-root_of s w wr h.nil_node h.path.5.6 ∙ er))
        (onward k (node t c p (node wl true w wr))
          (up_right (set_color-At true (down_right (up_left h)))) tt
          (Short-up_left short black el er) refl (rw (← order) (simp list_laws))
          (SameRest-trans same (record { payload = refl; nodes = refl; options = refl })) f)

  pub left-close :
      (wl vl vr : Shape) (v : Ptr)
      (h : At s (in_left c p (node wl false w (node vl true v vr)) k) t)
      → Hangs s (in_left c p (node wl false w (node vl true v vr)) k) t
      → Short (in_left c p (node wl false w (node vl true v vr)) k) t
      → around (in_left c p (node wl false w (node vl true v vr)) k) t ≡ xs
      → SameRest s₀ s
      → After s₀ xs n (black_black_left fuel (root_of t) w s)
  left-close wl vl vr v h g short order same =
      rw
        (black_black_left-close fuel (root_of t) w s p v c (Hangs-parent s _ t h g) h.path.5.3
          h.path.5.6.4 h.path.4)
        (finished
          (Quiet-plug k _ (close_left-At fuel h) (Strained-close_left short black)
            (ground (arith, short)) (rw (← order) (simp list_laws))
            (SameRest-trans same (SameRest-close_left fuel h)))
          refl)

  pub left-inner :
      (ul ur wr : Shape) (u : Ptr)
      (h : At s (in_left c p (node (node ul true u ur) false w wr) k) t)
      → Hangs s (in_left c p (node (node ul true u ur) false w wr) k) t
      → Short (in_left c p (node (node ul true u ur) false w wr) k) t
      → is_red wr ≡ false
      → around (in_left c p (node (node ul true u ur) false w wr) k) t ≡ xs
      → SameRest s₀ s
      → After s₀ xs n (black_black_left fuel (root_of t) w s)
  left-inner ul ur wr u h g short er order same =
      let s₁ = inner_left fuel w u s in
      let h₁ = inner_left-At fuel h in
      let g₁ =
        Hangs-move s s₁ (in_left c p (node (node ul true u ur) false w wr) k)
          (in_left c p (node ul false u (node ur true w wr)) k) t g (inner_left-nil fuel h) refl in
      rw
        (black_black_left-inner fuel (root_of t) w s p u (root_of wr) w c h.path.5.2 h.path.5.3
          h.path.5.5.4 (red-root_of s w wr h.nil_node h.path.5.6 ∙ er) (Hangs-parent s₁ _ t h₁ g₁)
          h₁.path.3 h₁.path.5.3 h₁.path.4)
        (finished
          (Quiet-plug k _ (close_left-At fuel h₁)
            (Strained-close_left (Short-inner_left short er) black) (ground (arith, short))
            (rw (← order) (simp list_laws))
            (SameRest-trans same
              (SameRest-trans (SameRest-inner_left fuel h) (SameRest-close_left fuel h₁))))
          refl)

module _ {V S : Type 0} {s₀ s : RbTree V S} {k : Context} {c : Bool} {p w : Ptr} {t : Shape}
    {xs : List Ptr} (fuel n : ℕ) (black : is_red t ≡ false) where
  pub right-up :
      (wl wr : Shape) (h : At s (in_right (node wr false w wl) c p k) t)
      → Hangs s (in_right (node wr false w wl) c p k) t
      → Short (in_right (node wr false w wl) c p k) t
      → is_red wl ≡ false
      → is_red wr ≡ false
      → around (in_right (node wr false w wl) c p k) t ≡ xs
      → SameRest s₀ s
      → rounds k (node (node wr true w wl) c p t) < n
      → After s₀ xs n (black_black_right fuel (root_of t) w s)
  right-up wl wr h g short el er order same f =
      rw
        (black_black_right-up fuel (root_of t) w s p (root_of wl) (root_of wr)
          (Hangs-parent s (in_right (node wr false w wl) c p k) t h g) h.path.5.3 h.path.5.2
          (red-root_of s w wl h.nil_node h.path.5.6 ∙ el)
          (red-root_of s w wr h.nil_node h.path.5.5 ∙ er))
        (onward k (node (node wr true w wl) c p t)
          (up_left (set_color-At true (down_left (up_right h)))) tt
          (Short-up_right short black el er) refl (rw (← order) (simp list_laws))
          (SameRest-trans same (record { payload = refl; nodes = refl; options = refl })) f)

  pub right-close :
      (wl vl vr : Shape) (v : Ptr)
      (h : At s (in_right (node (node vr true v vl) false w wl) c p k) t)
      → Hangs s (in_right (node (node vr true v vl) false w wl) c p k) t
      → Short (in_right (node (node vr true v vl) false w wl) c p k) t
      → around (in_right (node (node vr true v vl) false w wl) c p k) t ≡ xs
      → SameRest s₀ s
      → After s₀ xs n (black_black_right fuel (root_of t) w s)
  right-close wl vl vr v h g short order same =
      rw
        (black_black_right-close fuel (root_of t) w s p v c (Hangs-parent s _ t h g) h.path.5.2
          h.path.5.5.4 h.path.4)
        (finished
          (Quiet-plug k _ (close_right-At fuel h) (Strained-close_right short black)
            (ground (arith, short)) (rw (← order) (simp list_laws))
            (SameRest-trans same (SameRest-close_right fuel h)))
          refl)

  pub right-inner :
      (ul ur wr : Shape) (u : Ptr)
      (h : At s (in_right (node wr false w (node ur true u ul)) c p k) t)
      → Hangs s (in_right (node wr false w (node ur true u ul)) c p k) t
      → Short (in_right (node wr false w (node ur true u ul)) c p k) t
      → is_red wr ≡ false
      → around (in_right (node wr false w (node ur true u ul)) c p k) t ≡ xs
      → SameRest s₀ s
      → After s₀ xs n (black_black_right fuel (root_of t) w s)
  right-inner ul ur wr u h g short er order same =
      let s₁ = inner_right fuel w u s in
      let h₁ = inner_right-At fuel h in
      let g₁ =
        Hangs-move s s₁ (in_right (node wr false w (node ur true u ul)) c p k)
          (in_right (node (node wr true w ur) false u ul) c p k) t g (inner_right-nil fuel h)
          refl in
      rw
        (black_black_right-inner fuel (root_of t) w s p u (root_of wr) w c h.path.5.3 h.path.5.2
          h.path.5.6.4 (red-root_of s w wr h.nil_node h.path.5.5 ∙ er) (Hangs-parent s₁ _ t h₁ g₁)
          h₁.path.2 h₁.path.5.2 h₁.path.4)
        (finished
          (Quiet-plug k _ (close_right-At fuel h₁)
            (Strained-close_right (Short-inner_right short er) black) (ground (arith, short))
            (rw (← order) (simp list_laws))
            (SameRest-trans same
              (SameRest-trans (SameRest-inner_right fuel h) (SameRest-close_right fuel h₁))))
          refl)
