-- ===== src/Shape/Append.antt =====
-- A way up that is continued by another one: the way from a node inside a subtree.
use mulle_rbtree.Base.{◌+◌, ◌≡◌, refl, arith}
use mulle_rbtree.Storage.{Ptr}
use mulle_rbtree.RbTree.{RbTree}
use mulle_rbtree.Shape.{Shape, Context, top, in_left, in_right, count_above, plug, depth}
use mulle_rbtree.Shape.Zipper.{At, up_left, up_right, down_left, down_right}

abbrev pub append : Context → Context → Context
append top k = k
append (in_left c a r m) k = in_left c a r (append m k)
append (in_right l c a m) k = in_right l c a (append m k)

pub plug-append : (m k : Context) (t : Shape) → plug (append m k) t ≡ plug k (plug m t)
plug-append top k t = refl
plug-append (in_left c a r m) k t = plug-append m k _
plug-append (in_right l c a m) k t = plug-append m k _

pub depth-append : (m k : Context) → depth (append m k) ≡ depth m + depth k
depth-append top k = omega arith
depth-append (in_left c a r m) k = omega (arith, depth-append m k)
depth-append (in_right l c a m) k = omega (arith, depth-append m k)

pub count_above-append :
    (b : Ptr) (m k : Context) → count_above b (append m k) ≡ count_above b m + count_above b k
count_above-append b top k = omega arith
count_above-append b (in_left c a r m) k = omega (arith, count_above-append b m k)
count_above-append b (in_right l c a m) k = omega (arith, count_above-append b m k)

module _ {V S : Type 0} where
  -- up to the root of the subtree, and down again
  pub append-At :
      (s : RbTree V S) (m k : Context) (t : Shape) → At s (append m k) t → At s k (plug m t)
  append-At s top k t h = h
  append-At s (in_left c a r m) k t h = append-At s m k _ (up_left h)
  append-At s (in_right l c a m) k t h = append-At s m k _ (up_right h)

  pub plug-At :
      (s : RbTree V S) (m k : Context) (t : Shape) → At s k (plug m t) → At s (append m k) t
  plug-At s top k t h = h
  plug-At s (in_left c a r m) k t h = down_left (plug-At s m k _ h)
  plug-At s (in_right l c a m) k t h = down_right (plug-At s m k _ h)
