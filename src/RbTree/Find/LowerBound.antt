-- ===== src/RbTree/Find/LowerBound.antt =====
-- The search `_mulle__rbtree_find_node_equal_or_greater` (src/mulle--rbtree.c,
-- src/mulle--rbtree.h) in a sorted tree.
use mathlib.Core.List.{append-nil}
use mulle_rbtree.Base.{
  ℕ, zero, suc, ◌+◌, ◌<◌, Bool, true, false, ◌≡◌, ◌≢◌, refl, sym, ◌∙◌, ap, subst, inl, inr, some,
  List, ◌++◌, Ordering, Bool-cases, arith,
}
use mulle_rbtree.Storage.{Ptr, nil}
use mulle_rbtree.Order.{All, IsComparison, Sorted, Low, High, sign}
use mulle_rbtree.RbTree.Value.{values, get_extra-values, get_payload-values}
use mulle_rbtree.RbTree.{RbTree, get_payload, get_extra, has_option, use_extra}
use mulle_rbtree.RbTree.Rest.{Returns, returns, Returns-mono}
use mulle_rbtree.RbTree.Find.{equal_or_greater_loop, find_node_equal_or_greater}
use mulle_rbtree.RbTree.Find.Exact.{Bounds, Bounds-left, Bounds-right, Bounds-top}
use mulle_rbtree.RbTree.Navigate.{climb_right}
use mulle_rbtree.RbTree.Navigate.Steps.{Position, Ahead, finish, climb_right-Ahead}
use mulle_rbtree.Shape.{
  Shape, leaf, node, Context, top, in_left, in_right, root_of, inorder, before, after, plug, size,
  depth,
}
use mulle_rbtree.Shape.Balance.{inorder-plug, list_laws}
use mulle_rbtree.Shape.Zipper.{At, IsTree, down_left, down_right}

module _ {V S : Type 0} (comp : V → V → Ordering) (law : IsComparison comp) (key : V)
    (s : RbTree V S) where
  -- a node with an equal key, the first node with a greater one, or nil if all are lower
  pub data AtLeast (t : Shape) (p : Ptr) : Type 0 where
    equal :
        {ys zs : List Ptr}
        → Position s t p ys zs
        → comp key (values s p) ≡ Ordering.eq
        → AtLeast t p
    greater :
        {ys zs : List Ptr}
        → Position s t p ys zs
        → comp key (values s p) ≡ Ordering.lt
        → All (Low comp (values s) false key) ys
        → AtLeast t p
    beyond : p ≡ nil → All (Low comp (values s) false key) (inorder t) → AtLeast t p

  module _ (read : Ptr → RbTree V S → V) (reads : (p : Ptr) → read p s ≡ values s p) where
    loop-nil :
        (climb fuel : ℕ) → equal_or_greater_loop comp read key climb (suc fuel) nil s ≡ some nil
    unfolding equal_or_greater_loop
    loop-nil climb fuel = refl

    module _ (climb fuel : ℕ) (a : Ptr) (n : a ≢ nil) where
      loop-eq :
          comp key (values s a) ≡ Ordering.eq
          → equal_or_greater_loop comp read key climb (suc fuel) a s ≡ some a
      unfolding equal_or_greater_loop
      loop-eq e = ground (arith, reads a)

      loop-lt_stop :
          comp key (values s a) ≡ Ordering.lt
          → s.left a ≡ nil
          → equal_or_greater_loop comp read key climb (suc fuel) a s ≡ some a
      unfolding equal_or_greater_loop
      loop-lt_stop e l = ground (arith, reads a)

      loop-lt :
          (b : Ptr)
          → comp key (values s a) ≡ Ordering.lt
          → s.left a ≡ b
          → b ≢ nil
          → equal_or_greater_loop comp read key climb (suc fuel) a s
            ≡ equal_or_greater_loop comp read key climb fuel b s
      unfolding equal_or_greater_loop
      loop-lt b e l m = ground (arith, reads a)

      loop-gt_stop :
          comp key (values s a) ≡ Ordering.gt
          → s.right a ≡ nil
          → equal_or_greater_loop comp read key climb (suc fuel) a s ≡ climb_right climb a s
      unfolding equal_or_greater_loop
      loop-gt_stop e l = ground (arith, reads a)

      loop-gt :
          (b : Ptr)
          → comp key (values s a) ≡ Ordering.gt
          → s.right a ≡ b
          → b ≢ nil
          → equal_or_greater_loop comp read key climb (suc fuel) a s
            ≡ equal_or_greater_loop comp read key climb fuel b s
      unfolding equal_or_greater_loop
      loop-gt b e l m = ground (arith, reads a)

    -- after the climb: the next node is the first greater one
    climbed :
        (t : Shape) (us : List Ptr) (ys : List Ptr) (p : Ptr)
        → ys ++ us ≡ inorder t
        → All (Low comp (values s) false key) ys
        → All (High comp (values s) key) us
        → Ahead s t ys us p
        → AtLeast t p
    climbed t us ys p e low high (finish u n) = beyond n (
        subst (All (Low comp (values s) false key))
          (sym (append-nil ys) ∙ ap (λ us. ys ++ us) (sym u) ∙ e) low)
    climbed t us ys p e low high (Ahead.arrive zs u h) = greater h (rw u at high).0 low

    -- what the loop does from a node on, with this much fuel
    abbrev Searches : (climb fuel : ℕ) → Context → Shape → Type 0
    Searches climb fuel k t =
        root_of t ≢ nil
        → At s k t
        → Bounds comp law key s false k t
        → size t < fuel
        → size t + depth k < climb
        → Returns (AtLeast (plug k t))
            (equal_or_greater_loop comp read key climb fuel (root_of t) s)

    stand :
        (k : Context) (l r : Shape) (c : Bool) (a : Ptr)
        → At s k (node l c a r)
        → Position s (plug k (node l c a r)) a (before k ++ inorder l) (inorder r ++ after k)
    stand k l r c a h = record {
      context = k;
      lower = l;
      color = c;
      upper = r;
      at = h;
      whole = refl;
      behind = refl;
      ahead = refl;
    }

    below_left :
        (climb fuel : ℕ) (k : Context) (l r : Shape) (c : Bool) (a : Ptr)
        → comp key (values s a) ≡ Ordering.lt
        → Searches climb fuel (in_left c a r k) l
        → Searches climb (suc fuel) k (node l c a r)
    below_left climb fuel k leaf r c a e ih n h b f g =
        rw (loop-lt_stop climb fuel a h.focus.0 e h.focus.2)
          (returns (greater (stand k leaf r c a h) e (rw append-nil b.low)))
    below_left climb fuel k (node ll d x lr) r c a e ih n h b f g =
        let lower = down_left h in
        rw (loop-lt climb fuel a h.focus.0 x e h.focus.2 lower.focus.0) (
          ih lower.focus.0 lower (Bounds-left comp law key s false k (node ll d x lr) r c a b e)
            (omega arith) (omega arith))

    below_right :
        (climb fuel : ℕ) (k : Context) (l r : Shape) (c : Bool) (a : Ptr)
        → comp key (values s a) ≡ Ordering.gt
        → Searches climb fuel (in_right l c a k) r
        → Searches climb (suc fuel) k (node l c a r)
    below_right climb fuel k l leaf c a e ih n h b f g =
        rw (loop-gt_stop climb fuel a h.focus.0 e h.focus.3) (
          Returns-mono (climb_right-Ahead climb s k l c a leaf h (omega arith)) (λ p ahead.
            climbed (plug k (node l c a leaf)) (after k) (before k ++ inorder (node l c a leaf)) p
              (sym (inorder-plug k (node l c a leaf)))
              (subst (All (Low comp (values s) false key)) (simp list_laws)
                (Bounds-right comp law key s false k l leaf c a b e).low)
              b.high ahead))
    below_right climb fuel k l (node rl d x rr) c a e ih n h b f g =
        let upper = down_right h in
        rw (loop-gt climb fuel a h.focus.0 x e h.focus.3 upper.focus.0) (
          ih upper.focus.0 upper (Bounds-right comp law key s false k l (node rl d x rr) c a b e)
            (omega arith) (omega arith))

    loop-AtLeast : (climb fuel : ℕ) (k : Context) (t : Shape) → Searches climb fuel k t
    loop-AtLeast climb zero k t n h b f g = absurd (omega arith)
    loop-AtLeast climb (suc fuel) k leaf n h b f g = absurd (n refl)
    loop-AtLeast climb (suc fuel) k (node l c a r) n h b f g = elim (sign (comp key (values s a))) [
      | inl e ↦ rw (loop-eq climb fuel a h.focus.0 e) (returns (equal (stand k l r c a h) e))
      | inr (inl e) ↦
          below_left climb fuel k l r c a e (loop-AtLeast climb fuel (in_left c a r k) l) n h b f g
      | inr (inr e) ↦
          below_right climb fuel k l r c a e (loop-AtLeast climb fuel (in_right l c a k) r) n h b f
            g
    ]

    loop-root :
        (fuel : ℕ) (t : Shape)
        → IsTree s t
        → Sorted comp (values s) (inorder t)
        → size t < fuel
        → Returns (AtLeast t) (equal_or_greater_loop comp read key fuel fuel (root_of t) s)
    loop-root zero t h sorted f = absurd (omega arith)
    loop-root (suc fuel) leaf h sorted f = rw (loop-nil (suc fuel) fuel) (returns (beyond refl tt))
    loop-root (suc fuel) (node l c a r) h sorted f =
        loop-AtLeast (suc fuel) (suc fuel) top (node l c a r) h.focus.0 h
          (Bounds-top comp law key s false (node l c a r) sorted) f (omega arith)

  equal_or_greater-extra :
      (fuel : ℕ)
      → has_option use_extra s ≡ true
      → find_node_equal_or_greater comp fuel key s
        ≡ equal_or_greater_loop comp get_extra key fuel fuel s.root s
  unfolding find_node_equal_or_greater
  equal_or_greater-extra fuel e = rw e

  equal_or_greater-payload :
      (fuel : ℕ)
      → has_option use_extra s ≡ false
      → find_node_equal_or_greater comp fuel key s
        ≡ equal_or_greater_loop comp get_payload key fuel fuel s.root s
  unfolding find_node_equal_or_greater
  equal_or_greater-payload fuel e = rw e

  -- In a sorted tree, with more fuel than nodes, the search for an equal or greater key returns a
  -- node with an equal key, or else the first node with a greater key, all nodes before it being
  -- lower, or nil if all nodes are lower.
  pub find_node_equal_or_greater-AtLeast :
      (fuel : ℕ) (t : Shape)
      → IsTree s t
      → Sorted comp (values s) (inorder t)
      → size t < fuel
      → Returns (AtLeast t) (find_node_equal_or_greater comp fuel key s)
  find_node_equal_or_greater-AtLeast fuel t h sorted f =
      elim (Bool-cases (has_option use_extra s)) [
        | inl e ↦ rw (equal_or_greater-extra fuel e) (
            subst
              (λ q. Returns (AtLeast t) (equal_or_greater_loop comp get_extra key fuel fuel q s))
              (sym h.path) (loop-root get_extra (λ p. get_extra-values s p e) fuel t h sorted f))
        | inr e ↦ rw (equal_or_greater-payload fuel e) (
            subst
              (λ q. Returns (AtLeast t) (equal_or_greater_loop comp get_payload key fuel fuel q s))
              (sym h.path)
              (loop-root get_payload (λ p. get_payload-values s p e) fuel t h sorted f))
      ]
