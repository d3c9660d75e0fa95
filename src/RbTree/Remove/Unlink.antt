-- ===== src/RbTree/Remove/Unlink.antt =====
-- The node `y` leaves its place to its only child `x` (`_mulle__rbtree_remove_node` in
-- src/mulle--rbtree.c).
use mulle_rbtree.Base.{◌+◌, ◌≤◌, Bool, ◌≡◌, ◌≢◌, sym, ◌∙◌, ap, arith, ◌==◌, if◌then◌else◌}
use mulle_rbtree.Storage.{Ptr, nil}
use mulle_rbtree.RbTree.{RbTree, update, set_node_marked}
use mulle_rbtree.RbTree.Rest.{SameRest}
use mulle_rbtree.RbTree.Marks.{SameLinks}
use mulle_rbtree.RbTree.Remove.{unlink}
use mulle_rbtree.RbTree.Fixup.Pulls.{Hangs}
use mulle_rbtree.Shape.{
  Shape, leaf, node, Context, top, in_left, in_right, root_of, parent_of, count, count_above,
  one_if,
}
use mulle_rbtree.Shape.Rep.{Rep, RepAbove, Rep-frame, RepAbove-frame, Rep-ne-nil, RepAbove-ne-nil}
use mulle_rbtree.Shape.Refocus.{
  SameBelow, Rep-reparent, RepAbove-refocus, count-root_of, count_above-parent_of, one_if_self,
}
use mulle_rbtree.Shape.Zipper.{At, IsNil}

module _ {V S : Type 0} where
  -- `x` takes the place of `y` below `q`
  record Unlinked (s : RbTree V S) (y x q : Ptr) (s' : RbTree V S) : Type 0 where
    root : s'.root ≡ (if q == nil then x else s.root)
    parent : (b : Ptr) → s'.parent b ≡ (if b == x then q else s.parent b)
    left :
        (b : Ptr)
        → s'.left b ≡ (
            if q == nil
            then s.left b
            else if y == s.left q
            then (if b == q then x else s.left b)
            else s.left b)
    right :
        (b : Ptr)
        → s'.right b ≡ (
            if q == nil
            then s.right b
            else if y == s.left q
            then s.right b
            else (if b == q then x else s.right b))
    red : (b : Ptr) → s'.red b ≡ s.red b

  unlink-Unlinked :
      (y x q : Ptr) (s : RbTree V S) → s.parent y ≡ q → x ≢ y → Unlinked s y x q (unlink y x s)
  unfolding unlink update set_node_marked
  unlink-Unlinked y x q s e n = record {
    root = ground arith;
    parent = λ b. ground arith;
    left = λ b. ground arith;
    right = λ b. ground arith;
    red = λ b. ground arith;
  }

  pub unlink-SameRest : (y x : Ptr) (s : RbTree V S) → SameRest s (unlink y x s)
  unfolding unlink set_node_marked
  unlink-SameRest y x s = ground arith

  RepAbove-Unlinked :
      (s s' : RbTree V S) (y x : Ptr) (k : Context)
      → RepAbove s y k
      → y ≢ nil
      → count_above y k ≡ 0
      → ((b : Ptr) → count_above b k ≤ 1)
      → ((b : Ptr) → count_above b k ≢ 0 → b ≢ x)
      → Unlinked s y x (parent_of k) s'
      → RepAbove s' x k
  RepAbove-Unlinked s s' y x top h n out once off u = u.root
  RepAbove-Unlinked s s' y x (in_left c a r k) h n out once off u =
      let apart : y ≢ root_of r = λ e. count-root_of r y n e (omega arith) in
      RepAbove-refocus s s' y x (in_left c a r k) h n out once u.root (λ b m.
        let o = off b m in
        (ground (arith, u.parent b), ground (arith, u.left b), ground (arith, u.right b), u.red b))
  RepAbove-Unlinked s s' y x (in_right l c a k) h n out once off u =
      let apart : y ≢ root_of l = λ e. count-root_of l y n e (omega arith) in
      RepAbove-refocus s s' y x (in_right l c a k) h n out once u.root (λ b m.
        let o = off b m in
        (ground (arith, u.parent b), ground (arith, u.left b), ground (arith, u.right b), u.red b))

  -- what the unlinking needs of `y` and of its only subtree
  pub record Sole (s : RbTree V S) (k : Context) (y : Ptr) (t : Shape) : Type 0 where
    pub ne_nil : y ≢ nil
    pub parent : s.parent y ≡ parent_of k
    pub focus : Rep s y t
    pub path : RepAbove s y k
    pub distinct : (b : Ptr) → one_if (b == y) + count b t + count_above b k ≤ 1
    pub nil_node : IsNil s

  pub Sole-right :
      (s : RbTree V S) (k : Context) (c : Bool) (y : Ptr) (t : Shape)
      → At s k (node leaf c y t)
      → Sole s k y t
  Sole-right s k c y t h = record {
    ne_nil = h.focus.0;
    parent = h.focus.1;
    focus = h.focus.6;
    path = h.path;
    distinct = λ b. omega (arith, h.distinct b);
    nil_node = h.nil_node;
  }

  pub Sole-left :
      (s : RbTree V S) (k : Context) (c : Bool) (y : Ptr) (t : Shape)
      → At s k (node t c y leaf)
      → Sole s k y t
  Sole-left s k c y t h = record {
    ne_nil = h.focus.0;
    parent = h.focus.1;
    focus = h.focus.5;
    path = h.path;
    distinct = λ b. omega (arith, h.distinct b);
    nil_node = h.nil_node;
  }

  root-apart : (s : RbTree V S) (k : Context) (y : Ptr) (t : Shape) → Sole s k y t → root_of t ≢ y
  root-apart s k y t h e =
      count-root_of t y h.ne_nil (sym e) (omega (arith, h.distinct y, one_if_self y))

  root-above :
      (s : RbTree V S) (k : Context) (y : Ptr) (t : Shape)
      → Sole s k y t
      → (b : Ptr) → count_above b k ≢ 0
      → b ≢ root_of t
  root-above s k y t h b m e =
      count-root_of t b (RepAbove-ne-nil s y k b h.path m) e (omega (arith, h.distinct b))

  Unlinked-left :
      (s s' : RbTree V S) (y x q b : Ptr) → b ≢ q → Unlinked s y x q s' → s'.left b ≡ s.left b
  Unlinked-left s s' y x q b n u = ground (arith, u.left b)

  Unlinked-right :
      (s s' : RbTree V S) (y x q b : Ptr) → b ≢ q → Unlinked s y x q s' → s'.right b ≡ s.right b
  Unlinked-right s s' y x q b n u = ground (arith, u.right b)

  Unlinked-below :
      (s s' : RbTree V S) (k : Context) (y : Ptr) (t : Shape) (b : Ptr)
      → Sole s k y t
      → count b t ≢ 0
      → Unlinked s y (root_of t) (parent_of k) s'
      → SameBelow s s' (parent_of k) t b
  Unlinked-below s s' k y t b h m u =
      let off : b ≢ parent_of k = λ e.
        count_above-parent_of k b (Rep-ne-nil s y t b h.focus m) e (omega (arith, h.distinct b)) in
      (
        u.parent b,
        Unlinked-left s s' y (root_of t) (parent_of k) b off u,
        Unlinked-right s s' y (root_of t) (parent_of k) b off u,
        u.red b,
      )

  -- The subtree stands where `y` stood.
  pub unlink-At :
      (s : RbTree V S) (k : Context) (y : Ptr) (t : Shape)
      → Sole s k y t
      → At (unlink y (root_of t) s) k t
  unlink-At s k y t h =
      let s' = unlink y (root_of t) s in
      let u = unlink-Unlinked y (root_of t) (parent_of k) s h.parent (root-apart s k y t h) in
      let self = one_if_self y in
      record {
        focus =
            Rep-reparent s s' y (parent_of k) t h.focus (λ b. omega (arith, h.distinct b))
              (λ b m. Unlinked-below s s' k y t b h m u);
        path =
            RepAbove-Unlinked s s' y (root_of t) k h.path h.ne_nil
              (omega (arith, h.distinct y, self)) (λ b. omega (arith, h.distinct b))
              (root-above s k y t h) u;
        distinct = λ b. omega (arith, h.distinct b);
        nil_node = record {
          black = ground (arith, u.red nil, h.nil_node);
          left = ground (arith, u.left nil, h.nil_node);
          right = ground (arith, u.right nil, h.nil_node);
        };
      }

  pub unlink-Hangs :
      (s : RbTree V S) (k : Context) (y : Ptr) (t : Shape)
      → Sole s k y t
      → Hangs (unlink y (root_of t) s) k t
  unlink-Hangs s k y leaf h =
      let u = unlink-Unlinked y nil (parent_of k) s h.parent (root-apart s k y leaf h) in
      ground (arith, u.parent nil)
  unlink-Hangs s k y (node l c a r) h = tt

  -- the links down from `y` itself stay
  pub unlink-right :
      (s : RbTree V S) (k : Context) (y : Ptr) (t : Shape)
      → Sole s k y t
      → (unlink y (root_of t) s).right y ≡ s.right y
  unlink-right s k y t h =
      let u = unlink-Unlinked y (root_of t) (parent_of k) s h.parent (root-apart s k y t h) in
      Unlinked-right s _ y (root_of t) (parent_of k) y
        (λ e. count_above-parent_of k y h.ne_nil e (omega (arith, h.distinct y, one_if_self y))) u

  pub Sole-SameLinks :
      (s s' : RbTree V S) (k : Context) (y : Ptr) (t : Shape)
      → SameLinks s s'
      → Sole s k y t
      → Sole s' k y t
  Sole-SameLinks s s' k y t e h = record {
    ne_nil = h.ne_nil;
    parent = ap (λ f. f y) e.parent ∙ h.parent;
    focus = Rep-frame s s' y t h.focus (λ b m. ground (arith, e));
    path = RepAbove-frame s s' y k h.path e.root (λ b m. ground (arith, e));
    distinct = h.distinct;
    nil_node = ground (arith, e, h.nil_node);
  }
