-- ===== src/RbTree/Fixup/Pulls.antt =====
-- The rotations and colours of `_mulle__rbtree_black_black_fixup` (src/mulle--rbtree.c) on the shape.
use mulle_rbtree.Base.{ℕ, Bool, true, false, ◌≡◌, refl, ◌∙◌}
use mulle_rbtree.Storage.{Ptr, nil}
use mulle_rbtree.RbTree.{RbTree, set_color}
use mulle_rbtree.RbTree.Rest.{SameRest, SameRest-trans, left_rotate-SameRest, right_rotate-SameRest}
use mulle_rbtree.RbTree.Recolor.{set_color-At}
use mulle_rbtree.RbTree.Rotate.LeftTurn.{left_rotate-At, left_rotate-nil}
use mulle_rbtree.RbTree.Rotate.RightTurn.{right_rotate-At, right_rotate-nil}
use mulle_rbtree.RbTree.Fixup.Siblings.{
  close_left, close_right, inner_left, inner_right, outer_left, outer_right,
}
use mulle_rbtree.Shape.{Shape, leaf, node, Context, in_left, in_right, root_of, parent_of}
use mulle_rbtree.Shape.Zipper.{At, up_left, up_right, down_left, down_right}

module _ {V S : Type 0} where
  -- The parent of the focus is the one that the context says. Where the focus is a leaf this is the
  -- parent of the nil node, which the removal sets.
  abbrev pub Hangs : RbTree V S → Context → Shape → Type 0
  Hangs s k leaf = s.parent nil ≡ parent_of k
  Hangs s k (node l c a r) = Unit {0}

  pub Hangs-parent :
      (s : RbTree V S) (k : Context) (t : Shape)
      → At s k t
      → Hangs s k t
      → s.parent (root_of t) ≡ parent_of k
  Hangs-parent s k leaf h g = g
  Hangs-parent s k (node l c a r) h g = h.focus.1

  pub Hangs-move :
      (s s' : RbTree V S) (k k' : Context) (t : Shape)
      → Hangs s k t
      → s'.parent nil ≡ s.parent nil
      → parent_of k ≡ parent_of k'
      → Hangs s' k' t
  Hangs-move s s' k k' leaf h e g = e ∙ h ∙ g
  Hangs-move s s' k k' (node l c a r) h e g = tt

  recolored : (a : Ptr) (c : Bool) (s : RbTree V S) → SameRest s (set_color a c s)
  recolored a c s = record { payload = refl; nodes = refl; options = refl }

module _ {V S : Type 0} {s : RbTree V S} {k : Context} {c : Bool} {p w v : Ptr} {t wl vl vr : Shape}
    (fuel : ℕ) (h : At s (in_left c p (node wl false w (node vl true v vr)) k) t) where
  close_left-ready :
      At
        (set_color v false (set_color p false (set_color w c s)))
        k
        (node t false p (node wl c w (node vl false v vr)))
  close_left-ready = up_right (
      up_right (
        set_color-At false (
          down_right (
            down_right (set_color-At false (up_right (set_color-At c (down_right (up_left h)))))))))

  pub close_left-At :
      At (close_left fuel p w v c s) k (node (node t false p wl) c w (node vl false v vr))
  close_left-At = left_rotate-At fuel close_left-ready

  pub SameRest-close_left : SameRest s (close_left fuel p w v c s)
  SameRest-close_left =
      SameRest-trans (record { payload = refl; nodes = refl; options = refl })
        (left_rotate-SameRest fuel p (set_color v false (set_color p false (set_color w c s))))

module _ {V S : Type 0} {s : RbTree V S} {k : Context} {c : Bool} {p w u : Ptr} {t ul ur wr : Shape}
    (fuel : ℕ) (h : At s (in_left c p (node (node ul true u ur) false w wr) k) t) where
  inner_left-ready :
      At
        (set_color w true (set_color u false s))
        (in_right t c p k)
        (node (node ul false u ur) true w wr)
  inner_left-ready =
      set_color-At true (up_left (set_color-At false (down_left (down_right (up_left h)))))

  pub inner_left-At :
      At (inner_left fuel w u s) (in_left c p (node ul false u (node ur true w wr)) k) t
  inner_left-At = down_left (up_right (right_rotate-At fuel inner_left-ready))

  pub inner_left-nil : (inner_left fuel w u s).parent nil ≡ s.parent nil
  inner_left-nil = right_rotate-nil fuel inner_left-ready

  pub SameRest-inner_left : SameRest s (inner_left fuel w u s)
  SameRest-inner_left =
      SameRest-trans (record { payload = refl; nodes = refl; options = refl })
        (right_rotate-SameRest fuel w (set_color w true (set_color u false s)))

module _ {V S : Type 0} {s : RbTree V S} {k : Context} {c : Bool} {p w : Ptr} {t wl wr : Shape}
    (fuel : ℕ) (h : At s (in_left c p (node wl true w wr) k) t) where
  outer_left-ready :
      At (set_color p true (set_color w false s)) k (node t true p (node wl false w wr))
  outer_left-ready = set_color-At true (up_right (set_color-At false (down_right (up_left h))))

  pub outer_left-At : At (outer_left fuel p w s) (in_left true p wl (in_left false w wr k)) t
  outer_left-At = down_left (down_left (left_rotate-At fuel outer_left-ready))

  pub outer_left-nil : (outer_left fuel p w s).parent nil ≡ s.parent nil
  outer_left-nil = left_rotate-nil fuel outer_left-ready

  pub SameRest-outer_left : SameRest s (outer_left fuel p w s)
  SameRest-outer_left =
      SameRest-trans (record { payload = refl; nodes = refl; options = refl })
        (left_rotate-SameRest fuel p (set_color p true (set_color w false s)))

module _ {V S : Type 0} {s : RbTree V S} {k : Context} {c : Bool} {p w v : Ptr} {t wl vl vr : Shape}
    (fuel : ℕ) (h : At s (in_right (node (node vr true v vl) false w wl) c p k) t) where
  close_right-ready :
      At
        (set_color v false (set_color p false (set_color w c s)))
        k
        (node (node (node vr false v vl) c w wl) false p t)
  close_right-ready = up_left (
      up_left (
        set_color-At false (
          down_left
            (down_left (set_color-At false (up_left (set_color-At c (down_left (up_right h)))))))))

  pub close_right-At :
      At (close_right fuel p w v c s) k (node (node vr false v vl) c w (node wl false p t))
  close_right-At = right_rotate-At fuel close_right-ready

  pub SameRest-close_right : SameRest s (close_right fuel p w v c s)
  SameRest-close_right =
      SameRest-trans (record { payload = refl; nodes = refl; options = refl })
        (right_rotate-SameRest fuel p (set_color v false (set_color p false (set_color w c s))))

module _ {V S : Type 0} {s : RbTree V S} {k : Context} {c : Bool} {p w u : Ptr} {t ul ur wr : Shape}
    (fuel : ℕ) (h : At s (in_right (node wr false w (node ur true u ul)) c p k) t) where
  inner_right-ready :
      At
        (set_color w true (set_color u false s))
        (in_left c p t k)
        (node wr true w (node ur false u ul))
  inner_right-ready =
      set_color-At true (up_right (set_color-At false (down_right (down_left (up_right h)))))

  pub inner_right-At :
      At (inner_right fuel w u s) (in_right (node (node wr true w ur) false u ul) c p k) t
  inner_right-At = down_right (up_left (left_rotate-At fuel inner_right-ready))

  pub inner_right-nil : (inner_right fuel w u s).parent nil ≡ s.parent nil
  inner_right-nil = left_rotate-nil fuel inner_right-ready

  pub SameRest-inner_right : SameRest s (inner_right fuel w u s)
  SameRest-inner_right =
      SameRest-trans (record { payload = refl; nodes = refl; options = refl })
        (left_rotate-SameRest fuel w (set_color w true (set_color u false s)))

module _ {V S : Type 0} {s : RbTree V S} {k : Context} {c : Bool} {p w : Ptr} {t wl wr : Shape}
    (fuel : ℕ) (h : At s (in_right (node wr true w wl) c p k) t) where
  outer_right-ready :
      At (set_color p true (set_color w false s)) k (node (node wr false w wl) true p t)
  outer_right-ready = set_color-At true (up_left (set_color-At false (down_left (up_right h))))

  pub outer_right-At : At (outer_right fuel p w s) (in_right wl true p (in_right wr false w k)) t
  outer_right-At = down_right (down_right (right_rotate-At fuel outer_right-ready))

  pub outer_right-nil : (outer_right fuel p w s).parent nil ≡ s.parent nil
  outer_right-nil = right_rotate-nil fuel outer_right-ready

  pub SameRest-outer_right : SameRest s (outer_right fuel p w s)
  SameRest-outer_right =
      SameRest-trans (record { payload = refl; nodes = refl; options = refl })
        (right_rotate-SameRest fuel p (set_color p true (set_color w false s)))
