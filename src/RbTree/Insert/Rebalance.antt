-- ===== src/RbTree/Insert/Rebalance.antt =====
-- The tree after an insertion, and `_mulle__rbtree_red_red_fixup` (src/mulle--rbtree.c) as a
-- whole.
use mulle_rbtree.Base.{
  ℕ, ◌+◌, ◌≤◌, ◌<◌, true, false, ◌≡◌, ◌≢◌, refl, ◌∙◌, Option, none, some, List, Ordering, arith,
}
use mulle_rbtree.Storage.{Ptr}
use mulle_rbtree.RbTree.{RbTree, set_color}
use mulle_rbtree.RbTree.Rest.{Returns, returns, SameRest}
use mulle_rbtree.RbTree.Fixup.{red_red_fixup}
use mulle_rbtree.RbTree.Fixup.Quiet.{Quiet}
use mulle_rbtree.RbTree.Fixup.Strained.{Strained}
use mulle_rbtree.RbTree.Fixup.RedRed.{red_red_loop-Quiet}
use mulle_rbtree.Shape.{
  Shape, leaf, node, Context, top, in_left, in_right, count, plug, depth, is_red,
}
use mulle_rbtree.Shape.Balance.{
  IsRedBlack, around, CalmAbove, inorder-plug, Calm-plug, Balanced-plug,
}
use mulle_rbtree.Shape.Unplug.{Balanced-unplug, Calm-unplug, BlackRoot-unplug}
use mulle_rbtree.Shape.Zipper.{At, At-plug}
use mulle_rbtree.RbTree.Fixup.Blacken.{Rebalanced, blacken-Rebalanced}

-- the side of the parent on which the context has its focus
abbrev pub Fits : Context → Ordering → Type 0
Fits top d = Unit {0}
Fits (in_left c a r k) d = d ≡ Ordering.lt
Fits (in_right l c a k) d = d ≢ Ordering.lt

abbrev pub single : Ptr → Shape
single a = node leaf true a leaf

pub single-distinct : (a b n : Ptr) → 0 + n ≤ 1 → (b ≡ a → n ≡ 0) → count b (single a) + n ≤ 1
single-distinct a b n h e = ground arith

pub Strained-single : (k : Context) (a : Ptr) → IsRedBlack (plug k leaf) → Strained k (single a)
Strained-single k a rb = record {
  calm = (refl, refl, tt, tt);
  above = (Calm-unplug k leaf rb.calm).1;
  balanced = (refl, tt, tt);
  level = (Balanced-unplug k leaf rb.balanced).1;
  black_root = BlackRoot-unplug k leaf rb.black_root;
}

module _ {V S : Type 0} where
  finish_fixup :
      {s : RbTree V S} {xs : List Ptr} {o : Option (RbTree V S)}
      → Returns (Quiet s xs) o
      → Returns
          (Rebalanced s xs)
          (elim o [ none ↦ none | some s' ↦ some (set_color s'.root false s') ])
  finish_fixup {s} {xs} (returns {a = s'} q) =
      returns (blacken-Rebalanced s s' xs q.shape q.tree q.order q.balanced q.calm q.rest)

  -- The fixup after an insertion, at a red node whose red parent is the only fault of the tree,
  -- ends with more fuel than the node has ancestors, and makes a red-black tree of the same nodes
  -- in the same order.
  pub red_red_fixup-Rebalanced :
      (fuel : ℕ) (k : Context) (l r : Shape) (s : RbTree V S) (x : Ptr) (xs : List Ptr)
      → At s k (node l true x r)
      → Strained k (node l true x r)
      → around k (node l true x r) ≡ xs
      → depth k < fuel
      → Returns (Rebalanced s xs) (red_red_fixup fuel x s)
  unfolding red_red_fixup
  red_red_fixup-Rebalanced fuel k l r s x xs h w e f = finish_fixup (
      red_red_loop-Quiet fuel fuel k l r s s x h w f xs e
        (record { payload = refl; nodes = refl; options = refl }))

  -- the black parent case: nothing is wrong
  pub Rebalanced-plug :
      (s s' : RbTree V S) (k : Context) (a : Ptr) (xs : List Ptr)
      → At s' k (single a)
      → Strained k (single a)
      → CalmAbove true k
      → is_red (plug k (single a)) ≡ false
      → around k (single a) ≡ xs
      → SameRest s s'
      → Rebalanced s xs s'
  Rebalanced-plug s s' k a xs h w c b e r = record {
    shape = plug k (single a);
    tree = At-plug s' k (single a) h;
    order = inorder-plug k (single a) ∙ e;
    red_black = record {
      black_root = b;
      calm = Calm-plug k (single a) w.calm c;
      balanced = Balanced-plug k (single a) w.balanced w.level;
    };
    rest = r;
  }
