-- ===== src/Shape.antt =====
-- What the links of a tree stand for: a binary tree of addresses, each with its colour, and such a
-- tree with one subtree taken out.
pub mod Rep
pub mod Refocus
pub mod Zipper
pub mod Balance
pub mod Unplug
pub mod Depth
pub mod Append
pub mod Length
pub mod Locate
use mulle_rbtree.Base.{ℕ, zero, suc, ◌+◌, Bool, true, false, List, [], ◌∷◌, ◌++◌, ◌==◌}
use mulle_rbtree.Storage.{Ptr, nil}

-- `node l red a r`
pub data Shape : Type 0 where
  leaf : Shape
  node : Shape → Bool → Ptr → Shape → Shape

-- The way from a subtree up to the root: the subtree is the left child of `a`, beside `r`, or the
-- right child of `a`, beside `l`.
pub data Context : Type 0 where
  top : Context
  in_left : Bool → Ptr → Shape → Context → Context
  in_right : Shape → Bool → Ptr → Context → Context

abbrev pub root_of : Shape → Ptr
root_of leaf = nil
root_of (node l c a r) = a

-- the nil node is black
abbrev pub is_red : Shape → Bool
is_red leaf = false
is_red (node l c a r) = c

abbrev pub parent_of : Context → Ptr
parent_of top = nil
parent_of (in_left c a r k) = a
parent_of (in_right l c a k) = a

abbrev pub one_if : Bool → ℕ
one_if true = 1
one_if false = 0

-- how often an address occurs
abbrev pub count : Ptr → Shape → ℕ
count b leaf = 0
count b (node l c a r) = one_if (b == a) + count b l + count b r

abbrev pub count_above : Ptr → Context → ℕ
count_above b top = 0
count_above b (in_left c a r k) = one_if (b == a) + count b r + count_above b k
count_above b (in_right l c a k) = one_if (b == a) + count b l + count_above b k

abbrev pub inorder : Shape → List Ptr
inorder leaf = []
inorder (node l c a r) = inorder l ++ a ∷ inorder r

-- the addresses to the left of the focus, and those to its right
abbrev pub before : Context → List Ptr
before top = []
before (in_left c a r k) = before k
before (in_right l c a k) = before k ++ inorder l ++ a ∷ []

abbrev pub after : Context → List Ptr
after top = []
after (in_left c a r k) = (a ∷ inorder r) ++ after k
after (in_right l c a k) = after k

abbrev pub depth : Context → ℕ
depth top = 0
depth (in_left c a r k) = suc (depth k)
depth (in_right l c a k) = suc (depth k)

abbrev pub size : Shape → ℕ
size leaf = 0
size (node l c a r) = suc (size l + size r)

abbrev pub plug : Context → Shape → Shape
plug top t = t
plug (in_left c a r k) t = plug k (node t c a r)
plug (in_right l c a k) t = plug k (node l c a t)
