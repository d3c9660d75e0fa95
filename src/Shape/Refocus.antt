-- ===== src/Shape/Refocus.antt =====
-- A subtree below a new parent, and a context above a new subtree.
use mulle_rbtree.Base.{◌+◌, ◌∙◌, Bool, ◌≤◌, ◌≡◌, ◌≢◌, arith, ◌==◌, if◌then◌else◌}
use mulle_rbtree.Storage.{Ptr, nil}
use mulle_rbtree.RbTree.{RbTree}
use mulle_rbtree.Shape.{
  Shape, leaf, node, Context, top, in_left, in_right, root_of, parent_of, count, count_above,
  one_if, plug,
}
use mulle_rbtree.Shape.Rep.{Rep, RepAbove, SameNode, Rep-frame, RepAbove-frame}

-- the root of a shape is one of its addresses
pub count-root_of : (t : Shape) (b : Ptr) → b ≢ nil → b ≡ root_of t → count b t ≢ 0
count-root_of leaf b n e = ground arith
count-root_of (node l c a r) b n e = ground arith

pub count_above-parent_of :
    (k : Context) (b : Ptr) → b ≢ nil → b ≡ parent_of k → count_above b k ≢ 0
count_above-parent_of top b n e = ground arith
count_above-parent_of (in_left c a r k) b n e = ground arith
count_above-parent_of (in_right l c a k) b n e = ground arith

-- the nodes of a whole tree are those of a part and those around it
pub count-plug :
    (b : Ptr) (k : Context) (t : Shape) → count b (plug k t) ≡ count b t + count_above b k
count-plug b top t = omega arith
count-plug b (in_left c a r k) t = count-plug b k (node t c a r) ∙ omega arith
count-plug b (in_right l c a k) t = count-plug b k (node l c a t) ∙ omega arith

pub one_if_self : (a : Ptr) → one_if (a == a) ≡ 1
one_if_self a = ground arith

pub one_if-eq : (a b : Ptr) → a ≡ b → one_if (a == b) ≡ 1
one_if-eq a b e = ground arith

-- a node occurs in neither of its subtrees
pub ne-left :
    (l r : Shape) (c : Bool) (a b : Ptr) → count a (node l c a r) ≤ 1 → count b l ≢ 0 → b ≢ a
ne-left l r c a b once m e = absurd (m (rw e (ground arith)))

pub ne-right :
    (l r : Shape) (c : Bool) (a b : Ptr) → count a (node l c a r) ≤ 1 → count b r ≢ 0 → b ≢ a
ne-right l r c a b once m e = absurd (m (rw e (ground arith)))

module _ {V S : Type 0} (s s' : RbTree V S) where
  -- all but the parent of the root is the same
  abbrev pub SameBelow : (q : Ptr) → Shape → Ptr → Type 0
  SameBelow q t b =
      (s'.parent b ≡ (if b == root_of t then q else s.parent b))
      × (s'.left b ≡ s.left b)
      × (s'.right b ≡ s.right b)
      × (s'.red b ≡ s.red b)

  SameBelow-off :
      (q : Ptr) (t : Shape) (b : Ptr) → b ≢ root_of t → SameBelow q t b → SameNode s s' b
  SameBelow-off q t b n h = ground arith

  pub Rep-reparent :
      (q q' : Ptr) (t : Shape)
      → Rep s q t
      → ((b : Ptr) → count b t ≤ 1)
      → ((b : Ptr) → count b t ≢ 0 → SameBelow q' t b)
      → Rep s' q' t
  Rep-reparent q q' leaf h once same = tt
  Rep-reparent q q' (node l c a r) h once same =
      let here = same a (ground arith) in
      let one = once a in
      (
        h.0,
        ground arith,
        ground arith,
        ground arith,
        ground arith,
        Rep-frame s s' a l h.5 (λ b m.
            SameBelow-off q' (node l c a r) b (ne-left l r c a b one m) (same b (omega arith))),
        Rep-frame s s' a r h.6 (λ b m.
            SameBelow-off q' (node l c a r) b (ne-right l r c a b one m) (same b (omega arith))),
      )

  -- All but the link to the focus is the same: it led to `x`, and leads to `x'`.
  abbrev pub SameAbove : (x x' : Ptr) → Context → Ptr → Type 0
  SameAbove x x' k b =
      (s'.parent b ≡ s.parent b)
      × (s'.left b ≡ (
          if x == s.right (parent_of k)
          then s.left b
          else if b == parent_of k
          then x'
          else s.left b))
      × (s'.right b ≡ (
          if x == s.right (parent_of k)
          then (if b == parent_of k then x' else s.right b)
          else s.right b))
      × (s'.red b ≡ s.red b)

  SameAbove-off :
      (x x' : Ptr) (k : Context) (b : Ptr) → b ≢ parent_of k → SameAbove x x' k b → SameNode s s' b
  SameAbove-off x x' k b n h = ground arith

  pub RepAbove-refocus :
      (x x' : Ptr) (k : Context)
      → RepAbove s x k
      → x ≢ nil
      → count_above x k ≡ 0
      → ((b : Ptr) → count_above b k ≤ 1)
      → s'.root ≡ (if parent_of k == nil then x' else s.root)
      → ((b : Ptr) → count_above b k ≢ 0 → SameAbove x x' k b)
      → RepAbove s' x' k
  RepAbove-refocus x x' top h n out once root same = root
  RepAbove-refocus x x' (in_left c a r k) h n out once root same =
      let here = same a (ground arith) in
      let apart : x ≢ root_of r = λ e. count-root_of r x n e (omega arith) in
      (
        h.0,
        ground arith,
        ground arith,
        ground arith,
        ground arith,
        Rep-frame s s' a r h.5 (λ b m.
            SameAbove-off x x' (in_left c a r k) b
              (λ e. m (rw e (omega (arith, once a, one_if_self a)))) (same b (omega arith))),
        RepAbove-frame s s' a k h.6 (ground arith) (λ b m.
            SameAbove-off x x' (in_left c a r k) b
              (λ e. m (rw e (omega (arith, once a, one_if_self a)))) (same b (omega arith))),
      )
  RepAbove-refocus x x' (in_right l c a k) h n out once root same =
      let here = same a (ground arith) in
      (
        h.0,
        ground arith,
        ground arith,
        ground arith,
        ground arith,
        Rep-frame s s' a l h.5 (λ b m.
            SameAbove-off x x' (in_right l c a k) b
              (λ e. m (rw e (omega (arith, once a, one_if_self a)))) (same b (omega arith))),
        RepAbove-frame s s' a k h.6 (ground arith) (λ b m.
            SameAbove-off x x' (in_right l c a k) b
              (λ e. m (rw e (omega (arith, once a, one_if_self a)))) (same b (omega arith))),
      )
