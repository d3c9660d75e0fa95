-- ===== src/Shape/Balance.antt =====
-- The red-black conditions, on a shape and on a context.
use mathlib.Core.List.{append_assoc, append-nil}
use mulle_rbtree.Base.{ℕ, ◌+◌, Bool, false, not, ◌&&◌, ◌≡◌, List, ◌++◌, arith}
use mulle_rbtree.Storage.{Ptr}
use mulle_rbtree.Shape.{
  Shape, leaf, node, Context, top, in_left, in_right, is_red, one_if, inorder, before, after, plug,
}

-- black nodes on the leftmost path
abbrev pub height : Shape → ℕ
height leaf = 0
height (node l c a r) = height l + one_if (not c)

-- the same number of black nodes on every path
abbrev pub Balanced : Shape → Type 0
Balanced leaf = Unit {0}
Balanced (node l c a r) = (height l ≡ height r) × Balanced l × Balanced r

-- no red node with a red child
abbrev pub Calm : Shape → Type 0
Calm leaf = Unit {0}
Calm (node l c a r) = ((c && is_red l) ≡ false) × ((c && is_red r) ≡ false) × Calm l × Calm r

-- the context of a focus of black height `n`
abbrev pub BalancedAbove : ℕ → Context → Type 0
BalancedAbove n top = Unit {0}
BalancedAbove n (in_left c a r k) =
    (n ≡ height r) × Balanced r × BalancedAbove (n + one_if (not c)) k
BalancedAbove n (in_right l c a k) =
    (height l ≡ n) × Balanced l × BalancedAbove (height l + one_if (not c)) k

-- the context of a focus that is red or black
abbrev pub CalmAbove : Bool → Context → Type 0
CalmAbove x top = Unit {0}
CalmAbove x (in_left c a r k) =
    ((c && x) ≡ false) × ((c && is_red r) ≡ false) × Calm r × CalmAbove c k
CalmAbove x (in_right l c a k) =
    ((c && x) ≡ false) × ((c && is_red l) ≡ false) × Calm l × CalmAbove c k

-- the root of the whole tree is not red, if it is above the focus
abbrev pub BlackRoot : Context → Type 0
BlackRoot top = Unit {0}
BlackRoot (in_left c a r top) = c ≡ false
BlackRoot (in_left c a r k) = BlackRoot k
BlackRoot (in_right l c a top) = c ≡ false
BlackRoot (in_right l c a k) = BlackRoot k

-- a red-black tree
pub record IsRedBlack (t : Shape) : Type 0 where
  pub black_root : is_red t ≡ false
  pub calm : Calm t
  pub balanced : Balanced t

-- all addresses in order
abbrev pub around : Context → Shape → List Ptr
around k t = before k ++ inorder t ++ after k

pub ruleset list_laws = (append_assoc, append-nil)

pub inorder-plug : (k : Context) (t : Shape) → inorder (plug k t) ≡ around k t
inorder-plug top t = simp list_laws
inorder-plug (in_left c a r k) t = simp (inorder-plug k (node t c a r), list_laws)
inorder-plug (in_right l c a k) t = simp (inorder-plug k (node l c a t), list_laws)

pub Balanced-plug :
    (k : Context) (t : Shape) → Balanced t → BalancedAbove (height t) k → Balanced (plug k t)
Balanced-plug top t b h = b
Balanced-plug (in_left c a r k) t b h = Balanced-plug k (node t c a r) (h.0, b, h.1) h.2
Balanced-plug (in_right l c a k) t b h = Balanced-plug k (node l c a t) (h.0, h.1, b) h.2

pub Calm-plug : (k : Context) (t : Shape) → Calm t → CalmAbove (is_red t) k → Calm (plug k t)
Calm-plug top t b h = b
Calm-plug (in_left c a r k) t b h = Calm-plug k (node t c a r) (h.0, h.1, b, h.2) h.3
Calm-plug (in_right l c a k) t b h = Calm-plug k (node l c a t) (h.1, h.0, h.2, b) h.3

-- a black focus may stand anywhere
pub CalmAbove-black : (x : Bool) (k : Context) → CalmAbove x k → CalmAbove false k
CalmAbove-black x top h = tt
CalmAbove-black x (in_left c a r k) h = ground arith
CalmAbove-black x (in_right l c a k) h = ground arith

pub BlackRoot-left :
    (c : Bool) (a : Ptr) (r : Shape) (k : Context) → BlackRoot (in_left c a r k) → BlackRoot k
BlackRoot-left c a r top h = tt
BlackRoot-left c a r (in_left d b s k) h = h
BlackRoot-left c a r (in_right l d b k) h = h

pub BlackRoot-right :
    (c : Bool) (a : Ptr) (l : Shape) (k : Context) → BlackRoot (in_right l c a k) → BlackRoot k
BlackRoot-right c a l top h = tt
BlackRoot-right c a l (in_left d b s k) h = h
BlackRoot-right c a l (in_right s d b k) h = h
