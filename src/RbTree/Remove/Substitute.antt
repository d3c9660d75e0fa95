-- ===== src/RbTree/Remove/Substitute.antt =====
-- The successor stands in the place of the removed node (`_mulle__rbtree_remove_node` in
-- src/mulle--rbtree.c).
use mulle_rbtree.Base.{◌+◌, ◌≤◌, Bool, ◌≡◌, ◌≢◌, sym, ◌∙◌, arith, ◌==◌, if◌then◌else◌}
use mulle_rbtree.Storage.{Ptr, nil}
use mulle_rbtree.RbTree.{RbTree}
use mulle_rbtree.RbTree.Remove.{substitute}
use mulle_rbtree.Shape.{
  Shape, node, Context, top, in_left, in_right, root_of, parent_of, count, count_above, one_if,
}
use mulle_rbtree.Shape.Rep.{Rep, RepAbove, Rep-ne-nil, RepAbove-ne-nil}
use mulle_rbtree.Shape.Refocus.{
  Rep-reparent, RepAbove-refocus, count-root_of, count_above-parent_of, one_if_self,
}
use mulle_rbtree.Shape.Zipper.{At, IsNil}
use mulle_rbtree.RbTree.Remove.Passages.{at_self, Substituted, Children, substitute-Substituted}

renamed-distinct :
    (p y b m n o : Ptr)
    → one_if (b == p) + m + n + o ≤ 1
    → (b ≡ y → m + n + o ≡ 0)
    → one_if (b == y) + m + n + o ≤ 1
renamed-distinct p y b m n o h e = ground arith

module _ {V S : Type 0} where
  RepAbove-Substituted :
      (s s' : RbTree V S) (p y l r : Ptr) (k : Context)
      → RepAbove s p k
      → p ≢ nil
      → count_above p k ≡ 0
      → ((b : Ptr) → count_above b k ≤ 1)
      → ((b : Ptr) → count_above b k ≢ 0 → (b ≢ y) × (b ≢ l) × (b ≢ r))
      → Substituted s p y l r (parent_of k) s'
      → RepAbove s' y k
  RepAbove-Substituted s s' p y l r top h n out once off u = u.root
  RepAbove-Substituted s s' p y l r (in_left c a m k) h n out once off u =
      let apart : p ≢ root_of m = λ e. count-root_of m p n e (omega arith) in
      RepAbove-refocus s s' p y (in_left c a m k) h n out once u.root (λ b m.
        let o = off b m in
        (
          ground (arith, u.parent b),
          ground (arith, u.left b),
          ground (arith, u.right b),
          ground (arith, u.red b),
        ))
  RepAbove-Substituted s s' p y l r (in_right m c a k) h n out once off u =
      let apart : p ≢ root_of m = λ e. count-root_of m p n e (omega arith) in
      RepAbove-refocus s s' p y (in_right m c a k) h n out once u.root (λ b m.
        let o = off b m in
        (
          ground (arith, u.parent b),
          ground (arith, u.left b),
          ground (arith, u.right b),
          ground (arith, u.red b),
        ))

  -- links of a node that is neither `y` nor above the place
  Substituted-left :
      {s s' : RbTree V S} {p y l r q : Ptr} (b : Ptr)
      → b ≢ y
      → b ≢ q
      → Substituted s p y l r q s'
      → s'.left b ≡ s.left b
  Substituted-left b n m u = ground (arith, u.left b)

  Substituted-right :
      {s s' : RbTree V S} {p y l r q : Ptr} (b : Ptr)
      → b ≢ y
      → b ≢ q
      → Substituted s p y l r q s'
      → s'.right b ≡ s.right b
  Substituted-right b n m u = ground (arith, u.right b)

  Substituted-parent :
      {s s' : RbTree V S} {p y l r q : Ptr}
      → l ≢ y
      → r ≢ y
      → Substituted s p y l r q s'
      → s'.parent y ≡ q
  Substituted-parent {y} nl nr u = ground (arith, u.parent y)

  Substituted-below :
      {s s' : RbTree V S} {p y l r q : Ptr} (b : Ptr)
      → b ≢ y
      → b ≢ r
      → Substituted s p y l r q s'
      → s'.parent b ≡ (if b == l then y else s.parent b)
  Substituted-below b n m u = ground (arith, u.parent b)

  Substituted-beside :
      {s s' : RbTree V S} {p y l r q : Ptr} (b : Ptr)
      → b ≢ y
      → b ≢ l
      → Substituted s p y l r q s'
      → s'.parent b ≡ (if b == r then y else s.parent b)
  Substituted-beside b n m u = ground (arith, u.parent b)

  Substituted-red :
      {s s' : RbTree V S} {p y l r q : Ptr} (b : Ptr)
      → b ≢ y
      → Substituted s p y l r q s'
      → s'.red b ≡ s.red b
  Substituted-red b n u = ground (arith, u.red b)

  module _ {s s' : RbTree V S} {k : Context} {l r : Shape} {c : Bool} {p y : Ptr}
      (h : At s k (node l c p r)) (n : y ≢ nil) (new : count y (node l c p r) + count_above y k ≡ 0)
      (u : Substituted s p y (root_of l) (root_of r) (parent_of k) s') where
    substituted-lower : Rep s' y l
    substituted-lower =
        Rep-reparent s s' p y l h.focus.5 (λ b. omega (arith, h.distinct b))
          (λ b m.
            let some_node = Rep-ne-nil s p l b h.focus.5 m in
            let ny : b ≢ y = λ e. m (rw e (omega (arith, new))) in
            let nq : b ≢ parent_of k =
              λ e. count_above-parent_of k b some_node e (omega (arith, h.distinct b)) in
            let nr : b ≢ root_of r =
              λ e. count-root_of r b some_node e (omega (arith, h.distinct b)) in
            (
              Substituted-below b ny nr u,
              Substituted-left b ny nq u,
              Substituted-right b ny nq u,
              Substituted-red b ny u,
            ))

    substituted-upper : Rep s' y r
    substituted-upper =
        Rep-reparent s s' p y r h.focus.6 (λ b. omega (arith, h.distinct b))
          (λ b m.
            let some_node = Rep-ne-nil s p r b h.focus.6 m in
            let ny : b ≢ y = λ e. m (rw e (omega (arith, new))) in
            let nq : b ≢ parent_of k =
              λ e. count_above-parent_of k b some_node e (omega (arith, h.distinct b)) in
            let nl : b ≢ root_of l =
              λ e. count-root_of l b some_node e (omega (arith, h.distinct b)) in
            (
              Substituted-beside b ny nl u,
              Substituted-left b ny nq u,
              Substituted-right b ny nq u,
              Substituted-red b ny u,
            ))

    substituted-path : RepAbove s' y k
    substituted-path =
        RepAbove-Substituted s s' p y (root_of l) (root_of r) k h.path h.focus.0
          (omega (arith, h.distinct p, one_if_self p)) (λ b. omega (arith, h.distinct b))
          (λ b m.
            let some_node = RepAbove-ne-nil s p k b h.path m in
            (
              λ e. m (rw e (omega (arith, new))),
              λ e. count-root_of l b some_node e (omega (arith, h.distinct b)),
              λ e. count-root_of r b some_node e (omega (arith, h.distinct b)),
            ))
          u

    Substituted-IsNil : IsNil s'
    Substituted-IsNil = record {
      black = Substituted-red nil (λ e. n (sym e)) u ∙ h.nil_node.black;
      left = ground (arith, u.left nil, n, h.nil_node.left);
      right = ground (arith, u.right nil, n, h.nil_node.right);
    }

  -- `y` stands where the removed node stood.
  pub substitute-At :
      (s : RbTree V S) (k : Context) (l r : Shape) (c : Bool) (p y x o : Ptr)
      → At s k (node l c p r)
      → y ≢ nil
      → count y (node l c p r) + count_above y k ≡ 0
      → Children s y x o (root_of r)
      → At (substitute p y x (root_of l) o s) k (node l c y r)
  substitute-At s k l r c p y x o h n new ch =
      let nq : y ≢ parent_of k = λ e. count_above-parent_of k y n e (omega (arith, new)) in
      let nl : root_of l ≢ y = λ e. count-root_of l y n (sym e) (omega (arith, new)) in
      let nr : root_of r ≢ y = λ e. count-root_of r y n (sym e) (omega (arith, new)) in
      let u =
        substitute-Substituted p y x (root_of l) o (root_of r) (parent_of k) s h.focus.1 nq nr ch in
      record {
        focus = (
          n,
          Substituted-parent nl nr u,
          u.left y ∙ at_self y _ _,
          u.right y ∙ at_self y _ _,
          u.red y ∙ at_self y (s.red p) (s.red y) ∙ h.focus.4,
          substituted-lower h n new u,
          substituted-upper h n new u,
        );
        path = substituted-path h n new u;
        distinct = λ b.
            renamed-distinct p y b (count b l) (count b r) (count_above b k) (h.distinct b)
              (λ e. rw e (omega (arith, new)));
        nil_node = Substituted-IsNil h n new u;
      }

  module _ {s : RbTree V S} {k : Context} {l r : Shape} {c : Bool} {p y x o : Ptr}
      (h : At s k (node l c p r)) (n : y ≢ nil) (new : count y (node l c p r) + count_above y k ≡ 0)
      (ch : Children s y x o (root_of r)) where
    substitute-parent :
        (b : Ptr)
        → (substitute p y x (root_of l) o s).parent b ≡ (
            if b == root_of l
            then y
            else if b == root_of r
            then y
            else if b == y
            then parent_of k
            else s.parent b)
    substitute-parent b =
        let nq : y ≢ parent_of k = λ e. count_above-parent_of k y n e (omega (arith, new)) in
        let nr : root_of r ≢ y = λ e. count-root_of r y n (sym e) (omega (arith, new)) in
        (substitute-Substituted p y x (root_of l) o (root_of r) (parent_of k) s h.focus.1 nq nr
            ch).parent
          b

    -- an empty right subtree hangs below `y`
    pub substitute-nil_below : root_of r ≡ nil → (substitute p y x (root_of l) o s).parent nil ≡ y
    substitute-nil_below e = ground (arith, substitute-parent nil)

    -- below other nodes nothing changes
    pub substitute-nil_off :
        root_of l ≢ nil
        → root_of r ≢ nil
        → (substitute p y x (root_of l) o s).parent nil ≡ s.parent nil
    substitute-nil_off el er = ground (arith, substitute-parent nil)
