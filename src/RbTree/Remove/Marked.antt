-- ===== src/RbTree/Remove/Marked.antt =====
-- The flags that the removal sets (`_mulle__rbtree_remove_node` in src/mulle--rbtree.c) are no part of
-- the links.
use mulle_rbtree.Base.{ℕ, Bool, true, false, not, ◌&&◌, ◌∙◌, ap, arith, ◌==◌}
use mulle_rbtree.Storage.{Ptr, nil}
use mulle_rbtree.RbTree.{RbTree, mark_node_as_dirty}
use mulle_rbtree.RbTree.Marks.{SameLinks, mark_node_as_dirty-SameLinks}
use mulle_rbtree.RbTree.Rest.{SameRest}
use mulle_rbtree.RbTree.Remove.{when, mark_removed}
use mulle_rbtree.RbTree.Fixup.Pulls.{Hangs}
use mulle_rbtree.Shape.{Shape, leaf, node, Context}

module _ {V S : Type 0} where
  pub SameLinks-trans : {s t u : RbTree V S} → SameLinks s t → SameLinks t u → SameLinks s u
  SameLinks-trans h g = ground arith

  pub SameLinks-SameRest : {s t : RbTree V S} → SameLinks s t → SameRest s t
  SameLinks-SameRest h = record { payload = h.payload; nodes = h.nodes; options = h.options }

  pub Hangs-SameLinks :
      (s s' : RbTree V S) (k : Context) (t : Shape) → SameLinks s s' → Hangs s k t → Hangs s' k t
  Hangs-SameLinks s s' k leaf e h = ap (λ f. f 0) e.parent ∙ h
  Hangs-SameLinks s s' k (node l c a r) e h = tt

  pub when-SameLinks :
      (b : Bool) (f : RbTree V S → RbTree V S) (s : RbTree V S)
      → SameLinks s (f s)
      → SameLinks s (when b f s)
  when-SameLinks true f s h = h
  when-SameLinks false f s h = ground arith

  when_dirty-SameLinks :
      (b : Bool) (fuel : ℕ) (p : Ptr) (s : RbTree V S)
      → SameLinks s (when b (mark_node_as_dirty fuel p) s)
  when_dirty-SameLinks b fuel p s =
      when-SameLinks b (mark_node_as_dirty fuel p) s (mark_node_as_dirty-SameLinks fuel p s)

  pub mark_removed-SameLinks :
      (fuel : ℕ) (a y x q : Ptr) (s : RbTree V S) → SameLinks s (mark_removed fuel a y x q s)
  unfolding mark_removed
  mark_removed-SameLinks fuel a y x q s =
      SameLinks-trans (when_dirty-SameLinks (not (s.parent a == nil)) fuel (s.parent a) s) (
        SameLinks-trans (when_dirty-SameLinks (not (y == a) && not (y == nil)) fuel y _) (
          SameLinks-trans
            (when_dirty-SameLinks (not (y == a) && (x == nil) && not (q == nil)) fuel q _)
            (when_dirty-SameLinks (not (x == nil)) fuel x _)))
