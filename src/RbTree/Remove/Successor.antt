-- ===== src/RbTree/Remove/Successor.antt =====
-- A node with two children goes: its successor takes its place (`_mulle__rbtree_remove_node` in
-- src/mulle--rbtree.c).
use mulle_rbtree.Base.{ℕ, ◌+◌, Bool, ◌≡◌, ◌≢◌, inl, inr, refl, sym, ◌∙◌, ap, arith}
use mulle_rbtree.Storage.{Ptr, nil}
use mulle_rbtree.RbTree.{RbTree, set_node_marked}
use mulle_rbtree.RbTree.Marks.{set_node_marked-SameLinks}
use mulle_rbtree.RbTree.Rest.{SameRest-trans}
use mulle_rbtree.RbTree.Remove.{splice_out, unlink, substitute, mark_removed}
use mulle_rbtree.RbTree.Remove.Marked.{
  SameLinks-trans, SameLinks-SameRest, when-SameLinks, mark_removed-SameLinks,
}
use mulle_rbtree.RbTree.Remove.Unlink.{
  Sole-right, Sole-SameLinks, unlink-At, unlink-Hangs, unlink-SameRest, unlink-right,
}
use mulle_rbtree.RbTree.Remove.Passages.{Children, substitute-SameRest}
use mulle_rbtree.RbTree.Remove.Substitute.{substitute-At, substitute-nil_below, substitute-nil_off}
use mulle_rbtree.RbTree.Remove.SpliceOut.{
  Spliced, Spliced-SameLinks, splice_out_other, only_child-right,
}
use mulle_rbtree.RbTree.Fixup.Pulls.{Hangs}
use mulle_rbtree.Shape.{
  Shape, leaf, node, Context, top, in_left, in_right, root_of, parent_of, plug, count, count_above,
}
use mulle_rbtree.Shape.Rep.{Rep}
use mulle_rbtree.Shape.Refocus.{count-plug, count-root_of, one_if_self, one_if-eq}
use mulle_rbtree.Shape.Append.{append, append-At, plug-At, count_above-append}
use mulle_rbtree.Shape.Zipper.{At, up_right, down_right}

-- the node on top of a way is the same, whatever stands below
root_of-plug :
    (m : Context) (t u : Shape) → root_of t ≡ root_of u → root_of (plug m t) ≡ root_of (plug m u)
root_of-plug top t u e = e
root_of-plug (in_left c a r m) t u e = root_of-plug m (node t c a r) (node u c a r) refl
root_of-plug (in_right l c a m) t u e = root_of-plug m (node l c a t) (node l c a u) refl

module _ {V S : Type 0} where
  Children-inner :
      (s : RbTree V S) (inner : Context) (t : Shape) (d : Bool) (y : Ptr)
      → y ≢ nil
      → count y (plug inner t) ≡ 0
      → s.right y ≡ root_of t
      → Children s y (root_of t) (root_of (plug inner (node leaf d y t))) (root_of (plug inner t))
  Children-inner s top t d y n new e = inr (refl, refl, e)
  Children-inner s (in_left c a r m) t d y n new e =
      let same = root_of-plug m (node (node leaf d y t) c a r) (node t c a r) refl in
      inl (λ q. count-root_of (plug m (node t c a r)) y n (q ∙ same) new, same)
  Children-inner s (in_right l c a m) t d y n new e =
      let same = root_of-plug m (node l c a (node leaf d y t)) (node l c a t) refl in
      inl (λ q. count-root_of (plug m (node l c a t)) y n (q ∙ same) new, same)

  root-ne-nil :
      (s : RbTree V S) (q : Ptr) (t : Shape) (b : Ptr) → Rep s q t → count b t ≢ 0 → root_of t ≢ nil
  root-ne-nil s q leaf b h m e = m refl
  root-ne-nil s q (node l c a r) b h m e = h.0 e

  -- the parent of the nil node, where the successor had no child
  Hangs-inner :
      (s s' : RbTree V S) (inner k k' : Context) (t u : Shape) (y : Ptr)
      → root_of (plug inner u) ≢ nil
      → Hangs s (append inner k) t
      → parent_of k' ≡ y
      → (root_of (plug inner t) ≡ nil → s'.parent nil ≡ y)
      → (root_of (plug inner t) ≢ nil → s'.parent nil ≡ s.parent nil)
      → Hangs s' (append inner k') t
  Hangs-inner s s' inner k k' (node l c a r) u y n h e below off = tt
  Hangs-inner s s' top k k' leaf u y n h e below off = below refl ∙ sym e
  Hangs-inner s s' (in_left c a r m) k k' leaf u y n h e below off =
      off (λ q. n (root_of-plug m (node u c a r) (node leaf c a r) refl ∙ q)) ∙ h
  Hangs-inner s s' (in_right l c a m) k k' leaf u y n h e below off =
      off (λ q. n (root_of-plug m (node l c a u) (node l c a leaf) refl ∙ q)) ∙ h

module _ {V S : Type 0} (s : RbTree V S) (k inner : Context) (l t : Shape) (c d : Bool) (p y : Ptr)
    (h : At s (append inner (in_right l c p k)) (node leaf d y t)) where
  successor-new : count y (node l c p (plug inner t)) + count_above y k ≡ 0
  successor-new = omega (
    arith,
    count-plug y inner t,
    h.distinct y,
    one_if_self y,
    count_above-append y inner (in_right l c p k),
  )

  successor-other : y ≢ p
  successor-other e = omega (arith, successor-new, one_if-eq y p e)

  whole-At : At s k (node l c p (plug inner (node leaf d y t)))
  whole-At = up_right (append-At s inner (in_right l c p k) (node leaf d y t) h)

  -- Where the node has a left child, the successor takes its place, and the right subtree of the
  -- successor comes up to the place of the successor.
  pub splice_out-Successor :
      (fuel : ℕ)
      → root_of l ≢ nil
      → Spliced s (append inner (in_right l c y k)) t (splice_out fuel p y s)
  splice_out-Successor fuel two =
      let x = root_of t in
      let o = root_of (plug inner (node leaf d y t)) in
      let s₁ = set_node_marked y s in
      let s₂ = set_node_marked x s₁ in
      let e₁ = set_node_marked-SameLinks y s in
      let e₂ = SameLinks-trans e₁ (set_node_marked-SameLinks x s₁) in
      let sole =
        Sole-SameLinks s s₂ _ y t e₂ (Sole-right s (append inner (in_right l c p k)) d y t h) in
      let s₃ = unlink y x s₂ in
      let at₃ = unlink-At s₂ _ y t sole in
      let up₃ : At s₃ k (node l c p (plug inner t)) =
        up_right (append-At s₃ inner (in_right l c p k) t at₃) in
      let ch =
        Children-inner s₃ inner t d y h.focus.0 (omega (arith, successor-new))
          (unlink-right s₂ _ y t sole ∙ ap (λ f. f y) e₂.right ∙ h.focus.3) in
      let s₄ = substitute p y x (root_of l) o s₃ in
      let at₄ = substitute-At s₃ k l (plug inner t) c p y x o up₃ h.focus.0 successor-new ch in
      let up = whole-At in
      let some_root =
        root-ne-nil s p (plug inner (node leaf d y t)) y up.focus.6
          (omega (arith, count-plug y inner (node leaf d y t), one_if_self y)) in
      rw
        (
          splice_out_other fuel p y x s successor-other (
              only_child-right y x s₁ (ap (λ f. f y) e₁.left ∙ h.focus.2)
                (ap (λ f. f y) e₁.right ∙ h.focus.3)),
          up.focus.2,
          up.focus.3,
        )
        (Spliced-SameLinks s s₄ _ (append inner (in_right l c y k)) t x
          (record {
            focus = refl;
            at = plug-At s₄ inner (in_right l c y k) t (down_right at₄);
            hangs =
                Hangs-inner s₃ s₄ inner (in_right l c p k) (in_right l c y k) t (node leaf d y t) y
                  some_root (unlink-Hangs s₂ _ y t sole) refl
                  (substitute-nil_below up₃ h.focus.0 successor-new ch)
                  (substitute-nil_off up₃ h.focus.0 successor-new ch two);
            rest = SameRest-trans (SameLinks-SameRest e₂) (
                SameRest-trans (unlink-SameRest y x s₂)
                  (substitute-SameRest p y x (root_of l) o s₃));
          })
          (when-SameLinks _ (mark_removed fuel p y x (s₁.parent y)) _
            (mark_removed-SameLinks fuel p y x (s₁.parent y) _)))
