-- ===== src/RbTree/Navigate/Ends.antt =====
-- The first and the last node of a subtree (src/mulle--rbtree.h).
use mulle_rbtree.Base.{ℕ, zero, suc, ◌<◌, Bool, ◌≡◌, ◌≢◌, refl, ◌∙◌, some, [], ◌∷◌, ◌++◌, arith}
use mulle_rbtree.Storage.{Ptr, nil}
use mulle_rbtree.RbTree.{RbTree}
use mulle_rbtree.RbTree.Rest.{Returns, returns, Returns-mono}
use mulle_rbtree.RbTree.Navigate.{find_leftmost_node, find_rightmost_node}
use mulle_rbtree.Shape.{
  Shape, leaf, node, Context, in_left, in_right, inorder, before, after, plug, size,
}
use mulle_rbtree.Shape.Balance.{list_laws}
use mulle_rbtree.Shape.Zipper.{At, down_left, down_right}

module _ {V S : Type 0} where
  -- `b` is the first node of the subtree `t`, and has no left child
  pub record LeftEnd (s : RbTree V S) (k : Context) (t : Shape) (b : Ptr) : Type 0 where
    pub context : Context
    pub color : Bool
    pub upper : Shape
    pub at : At s context (node leaf color b upper)
    pub whole : plug context (node leaf color b upper) ≡ plug k t
    pub behind : before context ≡ before k
    pub ahead : b ∷ (inorder upper ++ after context) ≡ inorder t ++ after k

  -- `b` is the last node of the subtree `t`, and has no right child
  pub record RightEnd (s : RbTree V S) (k : Context) (t : Shape) (b : Ptr) : Type 0 where
    pub context : Context
    pub color : Bool
    pub lower : Shape
    pub at : At s context (node lower color b leaf)
    pub whole : plug context (node lower color b leaf) ≡ plug k t
    pub behind : before context ++ (inorder lower ++ b ∷ []) ≡ before k ++ inorder t
    pub ahead : after context ≡ after k

module _ {V S : Type 0} where
  pub find_leftmost_node-stop :
      (fuel : ℕ) (a : Ptr) (s : RbTree V S)
      → s.left a ≡ nil
      → find_leftmost_node (suc fuel) a s ≡ some a
  unfolding find_leftmost_node
  find_leftmost_node-stop fuel a s e = ground arith

  pub find_leftmost_node-go :
      (fuel : ℕ) (a b : Ptr) (s : RbTree V S)
      → s.left a ≡ b
      → b ≢ nil
      → find_leftmost_node (suc fuel) a s ≡ find_leftmost_node fuel b s
  unfolding find_leftmost_node
  find_leftmost_node-go fuel a b s e n = ground arith

  -- From the root of a subtree, with more fuel than its left part has nodes, the leftmost node is
  -- the first of the subtree and has no left child.
  pub find_leftmost_node-LeftEnd :
      (fuel : ℕ) (s : RbTree V S) (k : Context) (l : Shape) (c : Bool) (a : Ptr) (r : Shape)
      → At s k (node l c a r)
      → size l < fuel
      → Returns (LeftEnd s k (node l c a r)) (find_leftmost_node fuel a s)
  find_leftmost_node-LeftEnd zero s k l c a r h f = absurd (omega arith)
  find_leftmost_node-LeftEnd (suc fuel) s k leaf c a r h f =
      rw (find_leftmost_node-stop fuel a s h.focus.2) (
        returns (record {
          context = k;
          color = c;
          upper = r;
          at = h;
          whole = refl;
          behind = refl;
          ahead = refl;
        }))
  find_leftmost_node-LeftEnd (suc fuel) s k (node l d b m) c a r h f =
      let lower = down_left h in
      rw (find_leftmost_node-go fuel a b s h.focus.2 lower.focus.0) (
        Returns-mono
          (find_leftmost_node-LeftEnd fuel s (in_left c a r k) l d b m lower (omega arith))
          (λ q e. record {
            context = e.context;
            color = e.color;
            upper = e.upper;
            at = e.at;
            whole = e.whole;
            behind = e.behind;
            ahead = e.ahead ∙ (simp list_laws);
          }))

module _ {V S : Type 0} where
  pub find_rightmost_node-stop :
      (fuel : ℕ) (a : Ptr) (s : RbTree V S)
      → s.right a ≡ nil
      → find_rightmost_node (suc fuel) a s ≡ some a
  unfolding find_rightmost_node
  find_rightmost_node-stop fuel a s e = ground arith

  find_rightmost_node-go :
      (fuel : ℕ) (a b : Ptr) (s : RbTree V S)
      → s.right a ≡ b
      → b ≢ nil
      → find_rightmost_node (suc fuel) a s ≡ find_rightmost_node fuel b s
  unfolding find_rightmost_node
  find_rightmost_node-go fuel a b s e n = ground arith

  -- From the root of a subtree, with more fuel than its right part has nodes, the rightmost node
  -- is the last of the subtree and has no right child.
  pub find_rightmost_node-RightEnd :
      (fuel : ℕ) (s : RbTree V S) (k : Context) (l : Shape) (c : Bool) (a : Ptr) (r : Shape)
      → At s k (node r c a l)
      → size l < fuel
      → Returns (RightEnd s k (node r c a l)) (find_rightmost_node fuel a s)
  find_rightmost_node-RightEnd zero s k l c a r h f = absurd (omega arith)
  find_rightmost_node-RightEnd (suc fuel) s k leaf c a r h f =
      rw (find_rightmost_node-stop fuel a s h.focus.3) (
        returns (record {
          context = k;
          color = c;
          lower = r;
          at = h;
          whole = refl;
          behind = refl;
          ahead = refl;
        }))
  find_rightmost_node-RightEnd (suc fuel) s k (node m d b l) c a r h f =
      let lower = down_right h in
      rw (find_rightmost_node-go fuel a b s h.focus.3 lower.focus.0) (
        Returns-mono
          (find_rightmost_node-RightEnd fuel s (in_right r c a k) l d b m lower (omega arith))
          (λ q e. record {
            context = e.context;
            color = e.color;
            lower = e.lower;
            at = e.at;
            whole = e.whole;
            behind = e.behind ∙ (simp list_laws);
            ahead = e.ahead;
          }))
