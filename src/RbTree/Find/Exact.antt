-- ===== src/RbTree/Find/Exact.antt =====
-- The search `_mulle__rbtree_find_node` (src/mulle--rbtree.c, src/mulle--rbtree.h) in a sorted
-- tree.
use mathlib.Core.List.{append-nil}
use mulle_rbtree.Base.{
  ℕ, zero, suc, ◌+◌, ◌-◌, ◌*◌, ◌≤◌, ◌<◌, Bool, true, false, ◌≡◌, ◌≢◌, refl, sym, subst, inl, inr,
  some, List, [], ◌∷◌, ◌++◌, Ordering, Bool-cases, arith,
}
use mulle_rbtree.Storage.{Ptr, nil}
use mulle_rbtree.Order.{
  All, All-append, All-imp, IsComparison, Le, Sorted, Low, High, Low-le, High-le, Sorted-split,
  sign,
}
use mulle_rbtree.RbTree.Value.{values, get_extra-values, get_payload-values}
use mulle_rbtree.RbTree.{RbTree, get_payload, get_extra, has_option, use_extra}
use mulle_rbtree.RbTree.Rest.{Returns, returns}
use mulle_rbtree.RbTree.Find.{find_loop, find_node}
use mulle_rbtree.RbTree.Navigate.Steps.{Position}
use mulle_rbtree.Shape.{
  Shape, leaf, node, Context, top, in_left, in_right, root_of, inorder, before, after, plug, size,
}
use mulle_rbtree.Shape.Balance.{IsRedBlack, inorder-plug}
use mulle_rbtree.Shape.Depth.{
  Within, pow2, Within-size, Within-mono, exponent_positive, Within-IsRedBlack,
}
use mulle_rbtree.Shape.Zipper.{At, IsTree, down_left, down_right}

shorter : (fuel : ℕ) (t : Shape) → Within t (suc fuel - 1 - 1) → Within t (fuel - 1)
shorter fuel t w = let e : suc fuel - 1 - 1 ≡ fuel - 1 = omega arith in subst (Within t) e w

module _ {V S : Type 0} (comp : V → V → Ordering) (law : IsComparison comp) (key : V)
    (s : RbTree V S) where
  -- a node of the tree with an equal key, or nil if no node of the tree has one
  pub data Found (t : Shape) (p : Ptr) : Type 0 where
    hit :
        {ys zs : List Ptr} → Position s t p ys zs → comp key (values s p) ≡ Ordering.eq → Found t p
    miss : p ≡ nil → All (λ q. comp key (values s q) ≢ Ordering.eq) (inorder t) → Found t p

  -- the nodes on either side of the focus
  pub record Bounds (d : Bool) (k : Context) (t : Shape) : Type 0 where
    pub sorted : Sorted comp (values s) (inorder t)
    pub low : All (Low comp (values s) d key) (before k)
    pub high : All (High comp (values s) key) (after k)

  module _ (d : Bool) (k : Context) (l r : Shape) (c : Bool) (a : Ptr)
      (h : Bounds d k (node l c a r)) where
    pub Bounds-left : High comp (values s) key a → Bounds d (in_left c a r k) l
    Bounds-left e =
        let parts = Sorted-split comp (values s) (inorder l) (inorder r) a h.sorted in
        record {
          sorted = parts.2;
          low = h.low;
          high =
              All-append (High comp (values s) key) (a ∷ inorder r) (after k)
                (
                  e,
                  All-imp (Le comp (values s) a) (High comp (values s) key) (inorder r)
                      (λ y le. High-le comp (values s) law key a y e le) parts.1,
                )
                h.high;
        }

    pub Bounds-right : Low comp (values s) d key a → Bounds d (in_right l c a k) r
    Bounds-right e =
        let parts = Sorted-split comp (values s) (inorder l) (inorder r) a h.sorted in
        record {
          sorted = parts.3;
          low =
              All-append (Low comp (values s) d key) (before k ++ inorder l) (a ∷ [])
                (All-append (Low comp (values s) d key) (before k) (inorder l) h.low (
                  All-imp (λ x. Le comp (values s) x a) (Low comp (values s) d key) (inorder l)
                    (λ x le. Low-le comp (values s) law d key x a e le) parts.0))
                (e, tt);
          high = h.high;
        }

  pub Bounds-top : (d : Bool) (t : Shape) → Sorted comp (values s) (inorder t) → Bounds d top t
  Bounds-top d t h = record { sorted = h; low = tt; high = tt }

  module _ (read : Ptr → RbTree V S → V) (reads : (p : Ptr) → read p s ≡ values s p) where
    find_loop-eq :
        (fuel : ℕ) (a : Ptr)
        → a ≢ nil
        → comp key (values s a) ≡ Ordering.eq
        → find_loop comp read key (suc fuel) a s ≡ some a
    unfolding find_loop
    find_loop-eq fuel a n e = ground (arith, reads a)

    find_loop-lt :
        (fuel : ℕ) (a : Ptr)
        → a ≢ nil
        → comp key (values s a) ≡ Ordering.lt
        → find_loop comp read key (suc fuel) a s ≡ find_loop comp read key fuel (s.left a) s
    unfolding find_loop
    find_loop-lt fuel a n e = ground (arith, reads a)

    find_loop-gt :
        (fuel : ℕ) (a : Ptr)
        → a ≢ nil
        → comp key (values s a) ≡ Ordering.gt
        → find_loop comp read key (suc fuel) a s ≡ find_loop comp read key fuel (s.right a) s
    unfolding find_loop
    find_loop-gt fuel a n e = ground (arith, reads a)

    find_loop-nil : (fuel : ℕ) → find_loop comp read key (suc fuel) nil s ≡ some nil
    unfolding find_loop
    find_loop-nil fuel = refl

    find_loop-Found :
        (fuel : ℕ) (k : Context) (t : Shape)
        → At s k t
        → Bounds false k t
        → 1 ≤ fuel
        → Within t (fuel - 1)
        → Returns (Found (plug k t)) (find_loop comp read key fuel (root_of t) s)
    find_loop-Found zero k t h b f w = absurd (omega arith)
    find_loop-Found (suc fuel) k leaf h b f w = rw (find_loop-nil fuel) (
        returns (
          miss refl (
            rw (inorder-plug k leaf, append-nil)
              (All-append (λ q. comp key (values s q) ≢ Ordering.eq) (before k) (after k)
                (All-imp (Low comp (values s) false key) _ (before k) (λ x e. ground (arith, e))
                  b.low)
                (All-imp (High comp (values s) key) _ (after k) (λ x e. ground (arith, e))
                  b.high)))))
    find_loop-Found (suc fuel) k (node l c a r) h b f w = elim (sign (comp key (values s a))) [
      | inl e ↦ rw (find_loop-eq fuel a h.focus.0 e) (
          returns (
            hit
              (record {
                context = k;
                lower = l;
                color = c;
                upper = r;
                at = h;
                whole = refl;
                behind = refl;
                ahead = refl;
              })
              e))
      | inr (inl e) ↦
          rw (find_loop-lt fuel a h.focus.0 e, h.focus.2)
            (find_loop-Found fuel (in_left c a r k) l (down_left h)
              (Bounds-left false k l r c a b e) (omega (arith, w.0)) (shorter fuel l w.1))
      | inr (inr e) ↦
          rw (find_loop-gt fuel a h.focus.0 e, h.focus.3)
            (find_loop-Found fuel (in_right l c a k) r (down_right h)
              (Bounds-right false k l r c a b e) (omega (arith, w.0)) (shorter fuel r w.2))
    ]

  find_loop-root :
      (read : Ptr → RbTree V S → V)
      → ((p : Ptr) → read p s ≡ values s p)
      → (fuel : ℕ) (t : Shape) → IsTree s t
      → Sorted comp (values s) (inorder t)
      → 1 ≤ fuel
      → Within t (fuel - 1)
      → Returns (Found t) (find_loop comp read key fuel s.root s)
  find_loop-root read reads fuel t h sorted f w =
      subst (λ q. Returns (Found t) (find_loop comp read key fuel q s)) (sym h.path)
        (find_loop-Found read reads fuel top t h (Bounds-top false t sorted) f w)

  find_node-extra :
      (fuel : ℕ)
      → has_option use_extra s ≡ true
      → find_node comp fuel key s ≡ find_loop comp get_extra key fuel s.root s
  unfolding find_node
  find_node-extra fuel e = rw e

  find_node-payload :
      (fuel : ℕ)
      → has_option use_extra s ≡ false
      → find_node comp fuel key s ≡ find_loop comp get_payload key fuel s.root s
  unfolding find_node
  find_node-payload fuel e = rw e

  -- the search by payload or by extra bytes, as the options say
  find_node-Within :
      (fuel : ℕ) (t : Shape)
      → IsTree s t
      → Sorted comp (values s) (inorder t)
      → 1 ≤ fuel
      → Within t (fuel - 1)
      → Returns (Found t) (find_node comp fuel key s)
  find_node-Within fuel t h sorted f w = elim (Bool-cases (has_option use_extra s)) [
    | inl e ↦
        rw (find_node-extra fuel e)
          (find_loop-root get_extra (λ p. get_extra-values s p e) fuel t h sorted f w)
    | inr e ↦
        rw (find_node-payload fuel e)
          (find_loop-root get_payload (λ p. get_payload-values s p e) fuel t h sorted f w)
  ]

  -- In a tree that is sorted by payload or by extra bytes, as its options say, with more fuel than
  -- nodes, the search returns a node of the tree whose value, so read, is equal to the key, or nil
  -- if no node of the tree has one.
  pub find_node-Found :
      (fuel : ℕ) (t : Shape)
      → IsTree s t
      → Sorted comp (values s) (inorder t)
      → size t < fuel
      → Returns (Found t) (find_node comp fuel key s)
  find_node-Found fuel t h sorted f =
      find_node-Within fuel t h sorted (omega arith) (Within-size t (fuel - 1) (omega arith))

  -- In a sorted red-black tree of n nodes with n + 1 < 2^m, fuel 2 * m is enough for the search,
  -- which looks at one node for each step of its fuel: it returns a node of the tree with an equal
  -- key, or nil if no node of the tree has one.
  pub find_node-Found_log :
      (fuel n : ℕ) (t : Shape)
      → IsTree s t
      → IsRedBlack t
      → Sorted comp (values s) (inorder t)
      → size t + 1 < pow2 n
      → 2 * n ≤ fuel
      → Returns (Found t) (find_node comp fuel key s)
  find_node-Found_log fuel n t h rb sorted small f =
      find_node-Within fuel t h sorted (omega (arith, f, exponent_positive t n small))
        (Within-mono t (2 * n - 1) (fuel - 1) (omega arith) (Within-IsRedBlack t n rb small))
