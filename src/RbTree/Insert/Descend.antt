-- ===== src/RbTree/Insert/Descend.antt =====
-- The descent of `_mulle__rbtree_insert_node` (src/mulle--rbtree.c) to the place of a new node.
use mulle_rbtree.Base.{
  ℕ, zero, suc, ◌<◌, Bool, true, false, ◌≡◌, ◌≢◌, refl, sym, subst, inl, inr, some, List, Ordering,
  Bool-cases, arith,
}
use mulle_rbtree.Storage.{Ptr, nil}
use mulle_rbtree.Order.{IsComparison, Low, sign}
use mulle_rbtree.RbTree.{RbTree, has_option, allow_duplicates}
use mulle_rbtree.RbTree.Value.{values}
use mulle_rbtree.RbTree.Rest.{Returns, returns}
use mulle_rbtree.RbTree.Find.Exact.{Bounds, Bounds-left, Bounds-right}
use mulle_rbtree.RbTree.Navigate.Steps.{Position}
use mulle_rbtree.RbTree.Insert.{Descent, duplicate, place, descend}
use mulle_rbtree.RbTree.Insert.Rebalance.{Fits}
use mulle_rbtree.Shape.{
  Shape, leaf, node, Context, in_left, in_right, parent_of, root_of, plug, size,
}
use mulle_rbtree.Shape.Zipper.{At, down_left, down_right}

module _ {V S : Type 0} (comp : V → V → Ordering) (law : IsComparison comp) (key : V)
    (s : RbTree V S) (t : Shape) (d : Bool) (dup : has_option allow_duplicates s ≡ d) where
  -- What the descent finds: an equal node, where such nodes may not be inserted, or a free place
  -- between the lower nodes and the higher ones.
  pub data Spot : Descent → Type 0 where
    taken :
        {b : Ptr} {ys zs : List Ptr}
        → d ≡ false
        → Position s t b ys zs
        → comp key (values s b) ≡ Ordering.eq
        → Spot duplicate
    free :
        (k : Context) {p : Ptr} {c : Ordering}
        → At s k leaf
        → plug k leaf ≡ t
        → parent_of k ≡ p
        → Fits k c
        → Bounds comp law key s d k leaf
        → Spot (place p c)

  descend-nil :
      (fuel : ℕ) (x : Ptr) (c : Ordering) → descend comp key (suc fuel) x nil c s ≡ some (place x c)
  unfolding descend
  descend-nil fuel x c = refl

  descend-lt :
      (fuel : ℕ) (x y : Ptr) (c : Ordering)
      → y ≢ nil
      → comp key (values s y) ≡ Ordering.lt
      → descend comp key (suc fuel) x y c s ≡ descend comp key fuel y (s.left y) Ordering.lt s
  unfolding descend
  descend-lt fuel x y c n e = ground (arith)

  descend-gt :
      (fuel : ℕ) (x y : Ptr) (c : Ordering)
      → y ≢ nil
      → comp key (values s y) ≡ Ordering.gt
      → descend comp key (suc fuel) x y c s ≡ descend comp key fuel y (s.right y) Ordering.gt s
  unfolding descend
  descend-gt fuel x y c n e = ground (arith)

  descend-equal :
      (fuel : ℕ) (x y : Ptr) (c : Ordering)
      → y ≢ nil
      → comp key (values s y) ≡ Ordering.eq
      → d ≡ true
      → descend comp key (suc fuel) x y c s ≡ descend comp key fuel y (s.right y) Ordering.eq s
  unfolding descend
  descend-equal fuel x y c n e g = ground (arith, dup)

  descend-duplicate :
      (fuel : ℕ) (x y : Ptr) (c : Ordering)
      → y ≢ nil
      → comp key (values s y) ≡ Ordering.eq
      → d ≡ false
      → descend comp key (suc fuel) x y c s ≡ some duplicate
  unfolding descend
  descend-duplicate fuel x y c n e g = ground (arith, dup)

  Low-gt : (q : Ptr) → comp key (values s q) ≡ Ordering.gt → Low comp (values s) d key q
  Low-gt q e = elim (Bool-cases d) [ inl g ↦ rw g (λ h. ground (arith, e, h)) | inr g ↦ rw g e ]

  pub descend-Spot :
      (fuel : ℕ) (k : Context) (u : Shape) (c : Ordering)
      → At s k u
      → plug k u ≡ t
      → Fits k c
      → Bounds comp law key s d k u
      → size u < fuel
      → Returns Spot (descend comp key fuel (parent_of k) (root_of u) c s)
  descend-Spot zero k u c h w fits b f = absurd (omega arith)
  descend-Spot (suc fuel) k leaf c h w fits b f =
      rw (descend-nil fuel (parent_of k) c) (returns (free k h w refl fits b))
  descend-Spot (suc fuel) k (node l x a r) c h w fits b f = elim (sign (comp key (values s a))) [
    | inl e ↦ elim (Bool-cases d) [
      | inl g ↦
          rw (descend-equal fuel (parent_of k) a c h.focus.0 e g, h.focus.3)
            (descend-Spot fuel (in_right l x a k) r Ordering.eq (down_right h) w
              (λ q. absurd (ground (arith, q)))
              (Bounds-right comp law key s d k l r x a b
                (subst (λ v. Low comp (values s) v key a) (sym g) (λ q. ground (arith, e, q))))
              (omega arith))
      | inr g ↦ rw (descend-duplicate fuel (parent_of k) a c h.focus.0 e g) (
          returns (
            taken g
              (record {
                context = k;
                lower = l;
                color = x;
                upper = r;
                at = h;
                whole = w;
                behind = refl;
                ahead = refl;
              })
              e))
    ]
    | inr (inl e) ↦
        rw (descend-lt fuel (parent_of k) a c h.focus.0 e, h.focus.2)
          (descend-Spot fuel (in_left x a r k) l Ordering.lt (down_left h) w refl
            (Bounds-left comp law key s d k l r x a b e) (omega arith))
    | inr (inr e) ↦
        rw (descend-gt fuel (parent_of k) a c h.focus.0 e, h.focus.3)
          (descend-Spot fuel (in_right l x a k) r Ordering.gt (down_right h) w
            (λ q. absurd (ground (arith, q)))
            (Bounds-right comp law key s d k l r x a b (Low-gt a e)) (omega arith))
  ]
