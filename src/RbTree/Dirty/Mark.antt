-- ===== src/RbTree/Dirty/Mark.antt =====
-- `_mulle__rbtree_mark_node_as_dirty` (src/mulle--rbtree.c) on the shape.
use mulle_rbtree.Base.{
  ℕ, zero, suc, ◌≤◌, ◌<◌, Bool, true, ◌≡◌, ◌≢◌, refl, sym, ◌∙◌, ap, subst, List, arith,
}
use mulle_rbtree.Storage.{Ptr, nil}
use mulle_rbtree.RbTree.{RbTree, update, set_dirty, mark_node_as_dirty, is_dirty}
use mulle_rbtree.RbTree.Marks.{mark_node_as_dirty-SameLinks}
use mulle_rbtree.RbTree.Dirty.Settled.{Settled, stained, Settled-frame, Settled-children}
use mulle_rbtree.RbTree.Navigate.Steps.{Position, size-plug}
use mulle_rbtree.Shape.{
  Shape, node, Context, top, in_left, in_right, count, count_above, plug, depth, size,
}
use mulle_rbtree.Shape.Refocus.{count-plug, one_if_self, one_if-eq}
use mulle_rbtree.Shape.Zipper.{At, up_left, up_right}
use mulle_rbtree.RbTree.Recolor.{At-SameLinks}

module _ {V S : Type 0} where
  -- the subtrees that hang beside the way up
  abbrev pub Beside : RbTree V S → Context → Type 0
  Beside s top = Unit {0}
  Beside s (in_left c a r k) = Settled s r × Beside s k
  Beside s (in_right l c a k) = Settled s l × Beside s k

  Settled-unplug :
      (s : RbTree V S) (k : Context) (t : Shape) → Settled s (plug k t) → Beside s k × Settled s t
  Settled-unplug s top t h = (tt, h)
  Settled-unplug s (in_left c a r k) t h =
      let up = Settled-unplug s k (node t c a r) h in
      let parts = Settled-children s t r c a up.1 in ((parts.1, up.0), parts.0)
  Settled-unplug s (in_right l c a k) t h =
      let up = Settled-unplug s k (node l c a t) h in
      let parts = Settled-children s l t c a up.1 in ((parts.0, up.0), parts.1)

  Beside-frame :
      (s s' : RbTree V S) (k : Context)
      → ((b : Ptr) → count_above b k ≢ 0 → s'.dirty b ≡ s.dirty b)
      → Beside s k
      → Beside s' k
  Beside-frame s s' top e h = tt
  Beside-frame s s' (in_left c a r k) e h = (
    Settled-frame s s' r (λ b m. e b (omega arith)) h.0,
    Beside-frame s s' k (λ b m. e b (omega arith)) h.1,
  )
  Beside-frame s s' (in_right l c a k) e h = (
    Settled-frame s s' l (λ b m. e b (omega arith)) h.0,
    Beside-frame s s' k (λ b m. e b (omega arith)) h.1,
  )

  -- dirty nodes at the top, among them `p` and the root
  pub record Marked (s : RbTree V S) (t : Shape) (p : Ptr) (s' : RbTree V S) : Type 0 where
    pub settled : Settled s' t
    pub here : s'.dirty p ≡ true
    pub root : is_dirty s' ≡ true
    pub elsewhere : (b : Ptr) → count b t ≡ 0 → s'.dirty b ≡ s.dirty b

  marked_here : (a : Ptr) (s : RbTree V S) → (set_dirty a s).dirty a ≡ true
  unfolding update
  marked_here a s = ground arith

  marked_off : (a b : Ptr) (s : RbTree V S) → b ≢ a → (set_dirty a s).dirty b ≡ s.dirty b
  unfolding update
  marked_off a b s n = ground arith

  mark-step :
      (fuel : ℕ) (a q : Ptr) (s : RbTree V S)
      → a ≢ nil
      → s.parent a ≡ q
      → mark_node_as_dirty (suc fuel) a s ≡ mark_node_as_dirty fuel q (set_dirty a s)
  unfolding mark_node_as_dirty
  mark-step fuel a q s n e = ground arith

  mark-nil : (fuel : ℕ) (s : RbTree V S) → mark_node_as_dirty fuel nil s ≡ s
  unfolding mark_node_as_dirty
  mark-nil zero s = refl
  mark-nil (suc fuel) s = refl

  record Climbed (s : RbTree V S) (t : Shape) (a : Ptr) (s' : RbTree V S) : Type 0 where
    settled : Settled s' t
    here : s'.dirty a ≡ true
    stays : (b : Ptr) → s.dirty b ≡ true → s'.dirty b ≡ true
    root : s'.dirty s.root ≡ true
    elsewhere : (b : Ptr) → count b t ≡ 0 → s'.dirty b ≡ s.dirty b

  marked_stays : (a b : Ptr) (s : RbTree V S) → s.dirty b ≡ true → (set_dirty a s).dirty b ≡ true
  unfolding update
  marked_stays a b s e = ground arith

  -- the mark of `a` is no mark in a part without it
  Settled-off :
      (a : Ptr) (s : RbTree V S) (t : Shape)
      → count a t ≡ 0
      → Settled s t
      → Settled (set_dirty a s) t
  Settled-off a s t z =
      Settled-frame s (set_dirty a s) t
        (λ b m. marked_off a b s (λ e. m (ap (λ q. count q t) e ∙ z)))

  Settled-top :
      (s : RbTree V S) (l r : Shape) (c : Bool) (a : Ptr)
      → count a (node l c a r) ≤ 1
      → Settled s l
      → Settled s r
      → Settled (set_dirty a s) (node l c a r)
  Settled-top s l r c a once hl hr =
      stained (marked_here a s) (Settled-off a s l (omega (arith, once, one_if_self a)) hl)
        (Settled-off a s r (omega (arith, once, one_if_self a)) hr)

  after_mark :
      (s s' : RbTree V S) (t : Shape) (a p : Ptr)
      → count a t ≢ 0
      → Climbed (set_dirty a s) t p s'
      → Climbed s t a s'
  after_mark s s' t a p m h = record {
    settled = h.settled;
    here = h.stays a (marked_here a s);
    stays = λ b e. h.stays b (marked_stays a b s e);
    root = h.root;
    elsewhere =
        λ b z. h.elsewhere b z ∙ marked_off a b s (λ e. m (ap (λ q. count q t) (sym e) ∙ z));
  }

  mark-At : (a : Ptr) (s : RbTree V S) (k : Context) (t : Shape) → At s k t → At (set_dirty a s) k t
  mark-At a s k t = At-SameLinks s (set_dirty a s) k t (ground arith)

  mark-Climbed :
      (fuel : ℕ) (k : Context) (l r : Shape) (c : Bool) (a : Ptr) (s : RbTree V S)
      → At s k (node l c a r)
      → Settled s l
      → Settled s r
      → Beside s k
      → depth k < fuel
      → Climbed s (plug k (node l c a r)) a (mark_node_as_dirty fuel a s)
  mark-Climbed zero k l r c a s h hl hr b f = absurd (omega arith)
  mark-Climbed (suc fuel) top l r c a s h hl hr b f =
      rw (mark-step fuel a nil s h.focus.0 h.focus.1, mark-nil fuel (set_dirty a s))
        (record {
          settled = Settled-top s l r c a (omega (arith, h.distinct a)) hl hr;
          here = marked_here a s;
          stays = λ b e. marked_stays a b s e;
          root = ap (set_dirty a s).dirty h.path ∙ marked_here a s;
          elsewhere = λ b z. marked_off a b s (λ e. absurd (omega (arith, z, one_if-eq b a e)));
        })
  mark-Climbed (suc fuel) (in_left d p u k) l r c a s h hl hr b f =
      rw (mark-step fuel a p s h.focus.0 h.focus.1) (
        after_mark s _ (plug k (node (node l c a r) d p u)) a p
          (λ z. omega (arith, z, count-plug a k (node (node l c a r) d p u), one_if_self a))
          (mark-Climbed fuel k (node l c a r) u d p (set_dirty a s)
            (up_left (mark-At a s (in_left d p u k) (node l c a r) h))
            (Settled-top s l r c a (omega (arith, h.distinct a)) hl hr)
            (Settled-off a s u (omega (arith, h.distinct a, one_if_self a)) b.0)
            (Beside-frame s (set_dirty a s) k
              (λ q m. marked_off a q s (λ e. m (rw e (omega (arith, h.distinct a, one_if_self a)))))
              b.1)
            (omega arith)))
  mark-Climbed (suc fuel) (in_right u d p k) l r c a s h hl hr b f =
      rw (mark-step fuel a p s h.focus.0 h.focus.1) (
        after_mark s _ (plug k (node u d p (node l c a r))) a p
          (λ z. omega (arith, z, count-plug a k (node u d p (node l c a r)), one_if_self a))
          (mark-Climbed fuel k u (node l c a r) d p (set_dirty a s)
            (up_right (mark-At a s (in_right u d p k) (node l c a r) h))
            (Settled-off a s u (omega (arith, h.distinct a, one_if_self a)) b.0)
            (Settled-top s l r c a (omega (arith, h.distinct a)) hl hr)
            (Beside-frame s (set_dirty a s) k
              (λ q m. marked_off a q s (λ e. m (rw e (omega (arith, h.distinct a, one_if_self a)))))
              b.1)
            (omega arith)))

  is_dirty_lem : (s : RbTree V S) → is_dirty s ≡ s.dirty s.root
  unfolding is_dirty
  is_dirty_lem s = refl

  -- Marking a node of a tree as dirty, with more fuel than the tree has nodes, keeps dirty nodes
  -- below dirty nodes only, marks the node and the root, and leaves all nodes outside the tree as
  -- they are.
  pub mark_node_as_dirty-Settled :
      (fuel : ℕ) (s : RbTree V S) (t : Shape) (p : Ptr) (ys zs : List Ptr)
      → Position s t p ys zs
      → Settled s t
      → size t < fuel
      → Marked s t p (mark_node_as_dirty fuel p s)
  mark_node_as_dirty-Settled fuel s t p ys zs h d f =
      let whole = node h.lower h.color p h.upper in
      let parts = Settled-unplug s h.context whole (subst (Settled s) (sym h.whole) d) in
      let children = Settled-children s h.lower h.upper h.color p parts.1 in
      let w =
        subst (λ t. Climbed s t p (mark_node_as_dirty fuel p s)) h.whole
          (mark-Climbed fuel h.context h.lower h.upper h.color p s h.at children.0 children.1
            parts.0 (omega (arith, f, size-plug h.context whole, ap size h.whole))) in
      record {
        settled = w.settled;
        here = w.here;
        root =
            is_dirty_lem (mark_node_as_dirty fuel p s)
            ∙ ap (mark_node_as_dirty fuel p s).dirty (mark_node_as_dirty-SameLinks fuel p s).root
            ∙ w.root;
        elsewhere = w.elsewhere;
      }
