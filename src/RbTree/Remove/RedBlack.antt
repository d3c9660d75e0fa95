-- ===== src/RbTree/Remove/RedBlack.antt =====
-- The red-black conditions where a node is taken out (`_mulle__rbtree_remove_node` in
-- src/mulle--rbtree.c).
use mulle_rbtree.Base.{◌+◌, Bool, true, false, ◌≡◌, refl, ◌∙◌, subst, arith}
use mulle_rbtree.Storage.{Ptr}
use mulle_rbtree.Shape.{Shape, leaf, node, Context, top, in_left, in_right, is_red, plug}
use mulle_rbtree.Shape.Balance.{
  IsRedBlack, Calm, BalancedAbove, BlackRoot, CalmAbove-black, Balanced-plug, Calm-plug,
}
use mulle_rbtree.Shape.Unplug.{
  Balanced-unplug, Calm-unplug, BlackRoot-unplug, BlackRoot-flip, is_red-plug,
}
use mulle_rbtree.RbTree.Fixup.Short.{Short, blacken}

Calm-blacken : (t : Shape) → Calm t → Calm (blacken t)
Calm-blacken leaf h = tt
Calm-blacken (node l c a r) h = ground arith

-- A black node with one subtree goes: the subtree is one black node short.
pub Short-right :
    (k : Context) (y : Ptr) (t : Shape) → IsRedBlack (plug k (node leaf false y t)) → Short k t
Short-right k y t h =
    let b = Balanced-unplug k (node leaf false y t) h.balanced in
    let c = Calm-unplug k (node leaf false y t) h.calm in
    record {
      calm = Calm-blacken t c.0.3;
      above = c.1;
      balanced = b.0.2;
      level = subst (λ n. BalancedAbove (n + 1) k) b.0.0 b.1;
      black_root = BlackRoot-unplug k (node leaf false y t) h.black_root;
    }

pub Short-left :
    (k : Context) (y : Ptr) (t : Shape) → IsRedBlack (plug k (node t false y leaf)) → Short k t
Short-left k y t h =
    let b = Balanced-unplug k (node t false y leaf) h.balanced in
    let c = Calm-unplug k (node t false y leaf) h.calm in
    record {
      calm = Calm-blacken t c.0.2;
      above = c.1;
      balanced = b.0.1;
      level = b.1;
      black_root = BlackRoot-unplug k (node t false y leaf) h.black_root;
    }

BlackRoot-plug :
    (k : Context) (t : Shape) → is_red t ≡ false → BlackRoot k → is_red (plug k t) ≡ false
BlackRoot-plug top t e h = e
BlackRoot-plug (in_left c a r k) t e h = is_red-plug k t r c a h
BlackRoot-plug (in_right l c a k) t e h = is_red-plug k l t c a (BlackRoot-flip k l t c a h)

-- A red node with one subtree goes: nothing is wrong.
pub red_gone-right :
    (k : Context) (y : Ptr) (t : Shape)
    → IsRedBlack (plug k (node leaf true y t))
    → IsRedBlack (plug k t)
red_gone-right k y t h =
    let b = Balanced-unplug k (node leaf true y t) h.balanced in
    let c = Calm-unplug k (node leaf true y t) h.calm in
    let black : is_red t ≡ false = c.0.1 in
    record {
      black_root = BlackRoot-plug k t black (BlackRoot-unplug k (node leaf true y t) h.black_root);
      calm = Calm-plug k t c.0.3 (rw black (CalmAbove-black true k c.1));
      balanced = Balanced-plug k t b.0.2 (subst (λ n. BalancedAbove n k) (ground (arith, b)) b.1);
    }

pub red_gone-left :
    (k : Context) (y : Ptr) (t : Shape)
    → IsRedBlack (plug k (node t true y leaf))
    → IsRedBlack (plug k t)
red_gone-left k y t h =
    let b = Balanced-unplug k (node t true y leaf) h.balanced in
    let c = Calm-unplug k (node t true y leaf) h.calm in
    let black : is_red t ≡ false = c.0.0 in
    record {
      black_root = BlackRoot-plug k t black (BlackRoot-unplug k (node t true y leaf) h.black_root);
      calm = Calm-plug k t c.0.2 (rw black (CalmAbove-black true k c.1));
      balanced = Balanced-plug k t b.0.1 (subst (λ n. BalancedAbove n k) (ground (arith, b)) b.1);
    }

is_red-same :
    (k : Context) (t u : Shape) → is_red t ≡ is_red u → is_red (plug k t) ≡ is_red (plug k u)
is_red-same top t u e = e
is_red-same (in_left c a r k) t u e = is_red-same k (node t c a r) (node u c a r) refl
is_red-same (in_right l c a k) t u e = is_red-same k (node l c a t) (node l c a u) refl

-- the address does not matter
pub IsRedBlack-rename :
    (k : Context) (l r : Shape) (c : Bool) (p y : Ptr)
    → IsRedBlack (plug k (node l c p r))
    → IsRedBlack (plug k (node l c y r))
IsRedBlack-rename k l r c p y h =
    let b = Balanced-unplug k (node l c p r) h.balanced in
    let d = Calm-unplug k (node l c p r) h.calm in
    record {
      black_root = is_red-same k (node l c y r) (node l c p r) refl ∙ h.black_root;
      calm = Calm-plug k (node l c y r) d.0 d.1;
      balanced = Balanced-plug k (node l c y r) b.0 b.1;
    }
