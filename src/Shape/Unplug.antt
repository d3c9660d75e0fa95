-- ===== src/Shape/Unplug.antt =====
-- What a red-black tree says of a subtree and of its context.
use mulle_rbtree.Base.{Bool, false, ◌≡◌}
use mulle_rbtree.Storage.{Ptr}
use mulle_rbtree.Shape.{Shape, node, Context, top, in_left, in_right, is_red, plug}
use mulle_rbtree.Shape.Balance.{height, Balanced, BalancedAbove, Calm, CalmAbove, BlackRoot}

pub Balanced-unplug :
    (k : Context) (t : Shape) → Balanced (plug k t) → Balanced t × BalancedAbove (height t) k
Balanced-unplug top t h = (h, tt)
Balanced-unplug (in_left c a r k) t h =
    let up = Balanced-unplug k (node t c a r) h in (up.0.1, (up.0.0, up.0.2, up.1))
Balanced-unplug (in_right l c a k) t h =
    let up = Balanced-unplug k (node l c a t) h in (up.0.2, (up.0.0, up.0.1, up.1))

pub Calm-unplug : (k : Context) (t : Shape) → Calm (plug k t) → Calm t × CalmAbove (is_red t) k
Calm-unplug top t h = (h, tt)
Calm-unplug (in_left c a r k) t h =
    let up = Calm-unplug k (node t c a r) h in (up.0.2, (up.0.0, up.0.1, up.0.3, up.1))
Calm-unplug (in_right l c a k) t h =
    let up = Calm-unplug k (node l c a t) h in (up.0.3, (up.0.1, up.0.0, up.0.2, up.1))

pub BlackRoot-unplug : (k : Context) (t : Shape) → is_red (plug k t) ≡ false → BlackRoot k
BlackRoot-unplug top t h = tt
BlackRoot-unplug (in_left c a r top) t h = h
BlackRoot-unplug (in_left c a r (in_left d b s k)) t h =
    BlackRoot-unplug (in_left d b s k) (node t c a r) h
BlackRoot-unplug (in_left c a r (in_right s d b k)) t h =
    BlackRoot-unplug (in_right s d b k) (node t c a r) h
BlackRoot-unplug (in_right l c a top) t h = h
BlackRoot-unplug (in_right l c a (in_left d b s k)) t h =
    BlackRoot-unplug (in_left d b s k) (node l c a t) h
BlackRoot-unplug (in_right l c a (in_right s d b k)) t h =
    BlackRoot-unplug (in_right s d b k) (node l c a t) h

pub BlackRoot-flip :
    (k : Context) (s t : Shape) (d : Bool) (b : Ptr)
    → BlackRoot (in_right s d b k)
    → BlackRoot (in_left d b t k)
BlackRoot-flip top s t d b h = h
BlackRoot-flip (in_left c a r k) s t d b h = h
BlackRoot-flip (in_right l c a k) s t d b h = h

-- the colour of the root does not depend on what stands below the first node
pub is_red-plug :
    (k : Context) (l r : Shape) (c : Bool) (a : Ptr)
    → BlackRoot (in_left c a r k)
    → is_red (plug k (node l c a r)) ≡ false
is_red-plug top l r c a h = h
is_red-plug (in_left d b s k) l r c a h = is_red-plug k (node l c a r) s d b h
is_red-plug (in_right s d b k) l r c a h =
    is_red-plug k s (node l c a r) d b (BlackRoot-flip k s (node l c a r) d b h)
