-- ===== src/RbTree/Fixup/Short.antt =====
-- The red-black conditions around a subtree that lacks one black node on each of its paths
-- (`_mulle__rbtree_black_black_fixup` in src/mulle--rbtree.c).
use mulle_rbtree.Base.{ℕ, ◌+◌, ◌<◌, Bool, true, false, ◌≡◌, refl, subst, arith, if◌then◌else◌}
use mulle_rbtree.Storage.{Ptr}
use mulle_rbtree.Shape.{Shape, leaf, node, Context, top, in_left, in_right, is_red, depth}
use mulle_rbtree.Shape.Balance.{
  height, Balanced, Calm, BalancedAbove, CalmAbove, BlackRoot, CalmAbove-black, BlackRoot-left,
  BlackRoot-right,
}
use mulle_rbtree.RbTree.Fixup.Strained.{Strained}

abbrev pub blacken : Shape → Shape
blacken leaf = leaf
blacken (node l c a r) = node l false a r

-- the focus is one black node short; a red root of the focus is to become black
pub record Short (k : Context) (t : Shape) : Type 0 where
  pub calm : Calm (blacken t)
  pub above : CalmAbove false k
  pub balanced : Balanced t
  pub level : BalancedAbove (height t + 1) k
  pub black_root : BlackRoot k

-- how many rounds the loop still makes, at most
abbrev pub rounds : Context → Shape → ℕ
rounds k t = if is_red t then 0 else depth k

pub rounds-depth : (k : Context) (t : Shape) (fuel : ℕ) → depth k < fuel → rounds k t < fuel
rounds-depth k t fuel f = ground arith

pub Calm-black : (t : Shape) → is_red t ≡ false → Calm (blacken t) → Calm t
Calm-black leaf e h = tt
Calm-black (node l c a r) e h = ground arith

BlackRoot-top_left :
    (a : Ptr) (r : Shape) (k : Context) → BlackRoot k → BlackRoot (in_left false a r k)
BlackRoot-top_left a r top h = refl
BlackRoot-top_left a r (in_left c b s k) h = h
BlackRoot-top_left a r (in_right s c b k) h = h

BlackRoot-top_right :
    (a : Ptr) (l : Shape) (k : Context) → BlackRoot k → BlackRoot (in_right l false a k)
BlackRoot-top_right a l top h = refl
BlackRoot-top_right a l (in_left c b s k) h = h
BlackRoot-top_right a l (in_right s c b k) h = h

-- the sibling does not matter
BlackRoot-beside_left :
    (c : Bool) (a : Ptr) (r s : Shape) (k : Context)
    → BlackRoot (in_left c a r k)
    → BlackRoot (in_left c a s k)
BlackRoot-beside_left c a r s top h = h
BlackRoot-beside_left c a r s (in_left d b u k) h = h
BlackRoot-beside_left c a r s (in_right u d b k) h = h

BlackRoot-beside_right :
    (c : Bool) (a : Ptr) (r s : Shape) (k : Context)
    → BlackRoot (in_right r c a k)
    → BlackRoot (in_right s c a k)
BlackRoot-beside_right c a r s top h = h
BlackRoot-beside_right c a r s (in_left d b u k) h = h
BlackRoot-beside_right c a r s (in_right u d b k) h = h

-- a red focus makes up for the missing node
pub Strained-red :
    {l r : Shape} {a : Ptr} {k : Context}
    → Short k (node l true a r)
    → Strained k (node l false a r)
Strained-red {l} {r} {a} {k} w = record {
  calm = w.calm;
  above = w.above;
  balanced = w.balanced;
  level = subst (λ n. BalancedAbove n k) (ground (arith, w)) w.level;
  black_root = w.black_root;
}

-- nothing is missing in a whole tree
pub Strained-whole : (t : Shape) → Short top t → Strained top (blacken t)
Strained-whole leaf w = record { calm = tt; above = tt; balanced = tt; level = tt; black_root = tt }
Strained-whole (node l c a r) w = record {
  calm = w.calm;
  above = tt;
  balanced = w.balanced;
  level = tt;
  black_root = tt;
}

module _ {t wl wr : Shape} {c : Bool} {p w : Ptr} {k : Context} where
  -- the sibling is red, and comes up
  pub Short-turn_left :
      Short (in_left c p (node wl true w wr) k) t
      → Short (in_left true p wl (in_left false w wr k)) t
  Short-turn_left h =
      let black : c ≡ false = ground (arith, h) in
      record {
        calm = h.calm;
        above = ground (arith, h, black);
        balanced = h.balanced;
        level = (
          ground (arith, h),
          ground (arith, h),
          (
            ground (arith, h),
            ground (arith, h),
            subst (λ n. BalancedAbove n k) (ground (arith, h, black)) h.level.2,
          ),
        );
        black_root =
            BlackRoot-top_left w wr k (BlackRoot-left c p (node wl true w wr) k h.black_root);
      }

  -- the sibling and its children are black: it becomes red, and the parent is short
  pub Short-up_left :
      Short (in_left c p (node wl false w wr) k) t
      → is_red t ≡ false
      → is_red wl ≡ false
      → is_red wr ≡ false
      → Short k (node t c p (node wl true w wr))
  Short-up_left h e el er =
      let calm = Calm-black t e h.calm in
      record {
        calm = ground (arith, h, calm, el, er);
        above = CalmAbove-black c k (ground (arith, h));
        balanced = ground (arith, h);
        level = subst (λ n. BalancedAbove n k) (ground (arith, h)) h.level.2;
        black_root = BlackRoot-left c p (node wl false w wr) k h.black_root;
      }

module _ {t wl vl vr : Shape} {c : Bool} {p w v : Ptr} {k : Context} where
  -- the outer child of the sibling is red: nothing is missing after the rotation
  pub Strained-close_left :
      Short (in_left c p (node wl false w (node vl true v vr)) k) t
      → is_red t ≡ false
      → Strained k (node (node t false p wl) c w (node vl false v vr))
  Strained-close_left h e =
      let calm = Calm-black t e h.calm in
      record {
        calm = ground (arith, h, calm);
        above = CalmAbove-black c k (ground (arith, h));
        balanced = ground (arith, h);
        level = subst (λ n. BalancedAbove n k) (ground (arith, h)) h.level.2;
        black_root = BlackRoot-left c p (node wl false w (node vl true v vr)) k h.black_root;
      }

module _ {t ul ur wr : Shape} {c : Bool} {p w u : Ptr} {k : Context} where
  -- the inner child of the sibling is red: it takes the place of the sibling
  pub Short-inner_left :
      Short (in_left c p (node (node ul true u ur) false w wr) k) t
      → is_red wr ≡ false
      → Short (in_left c p (node ul false u (node ur true w wr)) k) t
  Short-inner_left h e = record {
    calm = h.calm;
    above = ground (arith, h);
    balanced = h.balanced;
    level = (ground (arith, h), ground (arith, h), h.level.2);
    black_root =
        BlackRoot-beside_left c p (node (node ul true u ur) false w wr)
          (node ul false u (node ur true w wr)) k h.black_root;
  }

module _ {t wl wr : Shape} {c : Bool} {p w : Ptr} {k : Context} where
  -- the sibling is red, and comes up
  pub Short-turn_right :
      Short (in_right (node wr true w wl) c p k) t
      → Short (in_right wl true p (in_right wr false w k)) t
  Short-turn_right h =
      let black : c ≡ false = ground (arith, h) in
      record {
        calm = h.calm;
        above = ground (arith, h, black);
        balanced = h.balanced;
        level = (
          ground (arith, h),
          ground (arith, h),
          (
            ground (arith, h),
            ground (arith, h),
            subst (λ n. BalancedAbove n k) (ground (arith, h, black)) h.level.2,
          ),
        );
        black_root =
            BlackRoot-top_right w wr k (BlackRoot-right c p (node wr true w wl) k h.black_root);
      }

  -- the sibling and its children are black: it becomes red, and the parent is short
  pub Short-up_right :
      Short (in_right (node wr false w wl) c p k) t
      → is_red t ≡ false
      → is_red wl ≡ false
      → is_red wr ≡ false
      → Short k (node (node wr true w wl) c p t)
  Short-up_right h e el er =
      let calm = Calm-black t e h.calm in
      record {
        calm = ground (arith, h, calm, el, er);
        above = CalmAbove-black c k (ground (arith, h));
        balanced = ground (arith, h);
        level = subst (λ n. BalancedAbove n k) (ground (arith, h)) h.level.2;
        black_root = BlackRoot-right c p (node wr false w wl) k h.black_root;
      }

module _ {t wl vl vr : Shape} {c : Bool} {p w v : Ptr} {k : Context} where
  -- the outer child of the sibling is red: nothing is missing after the rotation
  pub Strained-close_right :
      Short (in_right (node (node vr true v vl) false w wl) c p k) t
      → is_red t ≡ false
      → Strained k (node (node vr false v vl) c w (node wl false p t))
  Strained-close_right h e =
      let calm = Calm-black t e h.calm in
      record {
        calm = ground (arith, h, calm);
        above = CalmAbove-black c k (ground (arith, h));
        balanced = ground (arith, h);
        level = subst (λ n. BalancedAbove n k) (ground (arith, h)) h.level.2;
        black_root = BlackRoot-right c p (node (node vr true v vl) false w wl) k h.black_root;
      }

module _ {t ul ur wr : Shape} {c : Bool} {p w u : Ptr} {k : Context} where
  -- the inner child of the sibling is red: it takes the place of the sibling
  pub Short-inner_right :
      Short (in_right (node wr false w (node ur true u ul)) c p k) t
      → is_red wr ≡ false
      → Short (in_right (node (node wr true w ur) false u ul) c p k) t
  Short-inner_right h e = record {
    calm = h.calm;
    above = ground (arith, h);
    balanced = h.balanced;
    level = (
      ground (arith, h),
      ground (arith, h),
      subst (λ n. BalancedAbove n k) (ground (arith, h)) h.level.2,
    );
    black_root =
        BlackRoot-beside_right c p (node wr false w (node ur true u ul))
          (node (node wr true w ur) false u ul) k h.black_root;
  }
