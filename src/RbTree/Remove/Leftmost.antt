-- ===== src/RbTree/Remove/Leftmost.antt =====
-- The successor of a node with two children: the first node of its right subtree
-- (`mulle__rbtree_next_node` in src/mulle--rbtree.h).
use mulle_rbtree.Base.{ℕ, zero, suc, ◌<◌, Bool, ◌≡◌, ◌≢◌, refl, ◌∙◌, ap, [], ◌∷◌, ◌++◌, arith}
use mulle_rbtree.Storage.{Ptr, nil}
use mulle_rbtree.RbTree.{RbTree}
use mulle_rbtree.RbTree.Rest.{Returns, returns, Returns-mono}
use mulle_rbtree.RbTree.Navigate.{find_leftmost_node, next_node}
use mulle_rbtree.RbTree.Navigate.Ends.{find_leftmost_node-stop, find_leftmost_node-go}
use mulle_rbtree.RbTree.Navigate.Steps.{next_node-down}
use mulle_rbtree.Shape.{
  Shape, leaf, node, Context, top, in_left, in_right, before, plug, size, inorder,
}
use mulle_rbtree.Shape.Append.{append, plug-append}
use mulle_rbtree.Shape.Zipper.{At, down_left, down_right}

-- `b` is the first node of the subtree `t`; `inner` leads up from it to the root of `t`
pub record First (t : Shape) (b : Ptr) : Type 0 where
  pub inner : Context
  pub color : Bool
  pub upper : Shape
  pub whole : plug inner (node leaf color b upper) ≡ t
  pub nothing_before : before inner ≡ []

before-append :
    (m : Context) (c : Bool) (a : Ptr) (r : Shape)
    → before (append m (in_left c a r top)) ≡ before m
before-append top c a r = refl
before-append (in_left d b u m) c a r = before-append m c a r
before-append (in_right u d b m) c a r =
    ap (λ ys. ys ++ inorder u ++ b ∷ []) (before-append m c a r)

First-in : (l r : Shape) (c : Bool) (a b : Ptr) → First l b → First (node l c a r) b
First-in l r c a b f = record {
  inner = append f.inner (in_left c a r top);
  color = f.color;
  upper = f.upper;
  whole =
      plug-append f.inner (in_left c a r top) (node leaf f.color b f.upper)
      ∙ ap (λ l. node l c a r) f.whole;
  nothing_before = before-append f.inner c a r ∙ f.nothing_before;
}

module _ {V S : Type 0} where
  find_leftmost_node-First :
      (fuel : ℕ) (s : RbTree V S) (k : Context) (l : Shape) (c : Bool) (a : Ptr) (r : Shape)
      → At s k (node l c a r)
      → size l < fuel
      → Returns (First (node l c a r)) (find_leftmost_node fuel a s)
  find_leftmost_node-First zero s k l c a r h f = absurd (omega arith)
  find_leftmost_node-First (suc fuel) s k leaf c a r h f =
      rw (find_leftmost_node-stop fuel a s h.focus.2) (
        returns (record { inner = top; color = c; upper = r; whole = refl; nothing_before = refl }))
  find_leftmost_node-First (suc fuel) s k (node l d b m) c a r h f =
      let lower = down_left h in
      rw (find_leftmost_node-go fuel a b s h.focus.2 lower.focus.0) (
        Returns-mono (find_leftmost_node-First fuel s (in_left c a r k) l d b m lower (omega arith))
          (λ q e. First-in (node l d b m) r c a q e))

  -- The next node of a node with a right child is the first one of the right subtree.
  pub next_node-First :
      (fuel : ℕ) (s : RbTree V S) (k : Context) (l : Shape) (c : Bool) (a : Ptr) (r : Shape)
      → At s k (node l c a r)
      → s.right a ≢ nil
      → size r < fuel
      → Returns (First r) (next_node fuel a s)
  next_node-First fuel s k l c a leaf h n f = absurd (n h.focus.3)
  next_node-First fuel s k l c a (node rl d b rr) h n f =
      let below = down_right h in
      rw (next_node-down fuel a b s h.focus.3 below.focus.0)
        (find_leftmost_node-First fuel s (in_right l c a k) rl d b rr below (omega arith))
