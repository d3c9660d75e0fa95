-- ===== src/RbTree/Remove/SpliceOut.antt =====
-- The passages of `_mulle__rbtree_remove_node` (src/mulle--rbtree.c) before the fixup, as a whole.
use mulle_rbtree.Base.{ℕ, true, false, ◌≡◌, ◌≢◌, refl, arith, ◌==◌}
use mulle_rbtree.Storage.{Ptr, nil}
use mulle_rbtree.RbTree.{RbTree, set_node_marked, has_option, use_dirty}
use mulle_rbtree.RbTree.Marks.{SameLinks, set_node_marked-SameLinks}
use mulle_rbtree.RbTree.Recolor.{At-SameLinks}
use mulle_rbtree.RbTree.Rest.{SameRest, SameRest-trans}
use mulle_rbtree.RbTree.Remove.{when, mark_removed, splice_out, only_child, unlink, substitute}
use mulle_rbtree.RbTree.Remove.Marked.{
  SameLinks-SameRest, Hangs-SameLinks, when-SameLinks, mark_removed-SameLinks,
}
use mulle_rbtree.RbTree.Remove.Unlink.{
  Sole, Sole-SameLinks, unlink-At, unlink-Hangs, unlink-SameRest,
}
use mulle_rbtree.RbTree.Fixup.Pulls.{Hangs}
use mulle_rbtree.Shape.{Shape, Context, root_of}
use mulle_rbtree.Shape.Zipper.{At}

self : (a : Ptr) → (a == a) ≡ true
self a = ground arith

other : (a b : Ptr) → a ≢ b → (a == b) ≡ false
other a b n = ground arith

module _ {V S : Type 0} where
  -- the subtree `t` has come up, below `k`
  pub record Spliced (s : RbTree V S) (k : Context) (t : Shape) (o : Ptr × RbTree V S)
      : Type 0 where
    pub focus : o.0 ≡ root_of t
    pub at : At o.1 k t
    pub hangs : Hangs o.1 k t
    pub rest : SameRest s o.1

  pub Spliced-SameLinks :
      (s s' s'' : RbTree V S) (k : Context) (t : Shape) (x : Ptr)
      → Spliced s k t (x, s')
      → SameLinks s' s''
      → Spliced s k t (x, s'')
  Spliced-SameLinks s s' s'' k t x h e = record {
    focus = h.focus;
    at = At-SameLinks s' s'' k t e h.at;
    hangs = Hangs-SameLinks s' s'' k t e h.hangs;
    rest = SameRest-trans h.rest (SameLinks-SameRest e);
  }

  splice_out_self :
      (fuel : ℕ) (p x : Ptr) (s : RbTree V S)
      → only_child p s ≡ x
      → splice_out fuel p p s ≡ (
        x,
        when
            (has_option use_dirty (unlink p x (set_node_marked x s)))
            (mark_removed fuel p p x nil)
            (unlink p x (set_node_marked x s)),
      )
  unfolding splice_out
  splice_out_self fuel p x s e = rw (splice_out, self p, e) refl

  pub splice_out_other :
      (fuel : ℕ) (p y x : Ptr) (s : RbTree V S)
      → y ≢ p
      → only_child y (set_node_marked y s) ≡ x
      → splice_out fuel p y s ≡ (
          let s₁ = set_node_marked y s in
          let s₃ = substitute p y x (s.left p) (s.right p) (unlink y x (set_node_marked x s₁)) in
          (x, when (has_option use_dirty s₃) (mark_removed fuel p y x (s₁.parent y)) s₃))
  unfolding splice_out
  splice_out_other fuel p y x s n e = rw (splice_out, other y p n, e) refl

  pub only_child-right :
      (y x : Ptr) (s : RbTree V S) → s.left y ≡ nil → s.right y ≡ x → only_child y s ≡ x
  unfolding only_child
  only_child-right y x s el er = ground arith

  pub only_child-left :
      (y x : Ptr) (s : RbTree V S) → s.right y ≡ nil → s.left y ≡ x → only_child y s ≡ x
  unfolding only_child
  only_child-left y x s er el = ground arith

  pub marked-SameRest : (p : Ptr) (s : RbTree V S) → SameRest s (set_node_marked p s)
  marked-SameRest p s = SameLinks-SameRest (set_node_marked-SameLinks p s)

  -- A node with one subtree or none goes, and the subtree takes its place.
  pub splice_out-Sole :
      (fuel : ℕ) (s : RbTree V S) (k : Context) (p : Ptr) (t : Shape)
      → Sole s k p t
      → only_child p s ≡ root_of t
      → Spliced s k t (splice_out fuel p p s)
  splice_out-Sole fuel s k p t h e =
      let x = root_of t in
      let s₁ = set_node_marked x s in
      let sole = Sole-SameLinks s s₁ k p t (set_node_marked-SameLinks x s) h in
      rw (splice_out_self fuel p x s e) (
        Spliced-SameLinks s (unlink p x s₁) _ k t x
          (record {
            focus = refl;
            at = unlink-At s₁ k p t sole;
            hangs = unlink-Hangs s₁ k p t sole;
            rest = SameRest-trans (marked-SameRest x s) (unlink-SameRest p x s₁);
          })
          (when-SameLinks _ (mark_removed fuel p p x nil) _
            (mark_removed-SameLinks fuel p p x nil _)))
