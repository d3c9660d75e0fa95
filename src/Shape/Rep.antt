-- ===== src/Shape/Rep.antt =====
-- When the links of a store stand for a shape, and which writes leave that so.
use mulle_rbtree.Base.{◌≡◌, ◌≢◌, arith, ◌∙◌}
use mulle_rbtree.Storage.{Ptr, nil}
use mulle_rbtree.RbTree.{RbTree}
use mulle_rbtree.Shape.{
  Shape, leaf, node, Context, top, in_left, in_right, root_of, parent_of, count, count_above,
}

module _ {V S : Type 0} where
  -- the nodes of the shape, below the parent `q`
  abbrev pub Rep : RbTree V S → Ptr → Shape → Type 0
  Rep s q leaf = Unit {0}
  Rep s q (node l c a r) =
      (a ≢ nil)
      × (s.parent a ≡ q)
      × (s.left a ≡ root_of l)
      × (s.right a ≡ root_of r)
      × (s.red a ≡ c)
      × Rep s a l
      × Rep s a r

  -- the nodes of the context, the focus at `x`
  abbrev pub RepAbove : RbTree V S → Ptr → Context → Type 0
  RepAbove s x top = s.root ≡ x
  RepAbove s x (in_left c a r k) =
      (a ≢ nil)
      × (s.parent a ≡ parent_of k)
      × (s.left a ≡ x)
      × (s.right a ≡ root_of r)
      × (s.red a ≡ c)
      × Rep s a r
      × RepAbove s a k
  RepAbove s x (in_right l c a k) =
      (a ≢ nil)
      × (s.parent a ≡ parent_of k)
      × (s.left a ≡ root_of l)
      × (s.right a ≡ x)
      × (s.red a ≡ c)
      × Rep s a l
      × RepAbove s a k

  -- the links and the colour of a node are the same in both stores
  abbrev pub SameNode : RbTree V S → RbTree V S → Ptr → Type 0
  SameNode s s' b =
      (s'.parent b ≡ s.parent b)
      × (s'.left b ≡ s.left b)
      × (s'.right b ≡ s.right b)
      × (s'.red b ≡ s.red b)

  pub Rep-frame :
      (s s' : RbTree V S) (q : Ptr) (t : Shape)
      → Rep s q t
      → ((b : Ptr) → count b t ≢ 0 → SameNode s s' b)
      → Rep s' q t
  Rep-frame s s' q leaf h same = tt
  Rep-frame s s' q (node l c a r) h same =
      let here = same a (ground arith) in
      (
        h.0,
        ground arith,
        ground arith,
        ground arith,
        ground arith,
        Rep-frame s s' a l h.5 (λ b m. same b (omega arith)),
        Rep-frame s s' a r h.6 (λ b m. same b (omega arith)),
      )

  pub RepAbove-frame :
      (s s' : RbTree V S) (x : Ptr) (k : Context)
      → RepAbove s x k
      → s'.root ≡ s.root
      → ((b : Ptr) → count_above b k ≢ 0 → SameNode s s' b)
      → RepAbove s' x k
  RepAbove-frame s s' x top h root same = root ∙ h
  RepAbove-frame s s' x (in_left c a r k) h root same =
      let here = same a (ground arith) in
      (
        h.0,
        ground arith,
        ground arith,
        ground arith,
        ground arith,
        Rep-frame s s' a r h.5 (λ b m. same b (omega arith)),
        RepAbove-frame s s' a k h.6 root (λ b m. same b (omega arith)),
      )
  RepAbove-frame s s' x (in_right l c a k) h root same =
      let here = same a (ground arith) in
      (
        h.0,
        ground arith,
        ground arith,
        ground arith,
        ground arith,
        Rep-frame s s' a l h.5 (λ b m. same b (omega arith)),
        RepAbove-frame s s' a k h.6 root (λ b m. same b (omega arith)),
      )

  -- the nil node is no node of a shape
  pub count-nil : (s : RbTree V S) (q : Ptr) (t : Shape) → Rep s q t → count nil t ≡ 0
  count-nil s q leaf h = omega arith
  count-nil s q (node l c a r) h = ground (arith, count-nil s a l h.5, count-nil s a r h.6)

  pub count_above-nil :
      (s : RbTree V S) (x : Ptr) (k : Context) → RepAbove s x k → count_above nil k ≡ 0
  count_above-nil s x top h = omega arith
  count_above-nil s x (in_left c a r k) h =
      ground (arith, count-nil s a r h.5, count_above-nil s a k h.6)
  count_above-nil s x (in_right l c a k) h =
      ground (arith, count-nil s a l h.5, count_above-nil s a k h.6)

  pub Rep-ne-nil :
      (s : RbTree V S) (q : Ptr) (t : Shape) (b : Ptr) → Rep s q t → count b t ≢ 0 → b ≢ nil
  Rep-ne-nil s q t b h m e = m (rw e (count-nil s q t h))

  pub RepAbove-ne-nil :
      (s : RbTree V S) (x : Ptr) (k : Context) (b : Ptr)
      → RepAbove s x k
      → count_above b k ≢ 0
      → b ≢ nil
  RepAbove-ne-nil s x k b h m e = m (rw e (count_above-nil s x k h))
