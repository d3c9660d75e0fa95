-- ===== src/RbTree/Navigate/Back.antt =====
-- The previous node of a tree (src/mulle--rbtree.h).
use mathlib.Core.List.{append-nil}
use mulle_rbtree.Base.{
  ℕ, zero, suc, ◌+◌, ◌<◌, Bool, ◌≡◌, ◌≢◌, refl, sym, ◌∙◌, ap, subst, some, List, [], ◌∷◌, ◌++◌,
  arith,
}
use mulle_rbtree.Storage.{Ptr, nil}
use mulle_rbtree.RbTree.{RbTree}
use mulle_rbtree.RbTree.Rest.{Returns, returns, Returns-mono}
use mulle_rbtree.RbTree.Navigate.{climb_left, previous_node, find_rightmost_node}
use mulle_rbtree.RbTree.Navigate.Ends.{find_rightmost_node-RightEnd}
use mulle_rbtree.RbTree.Navigate.Ends.{find_rightmost_node-stop}
use mulle_rbtree.RbTree.Navigate.Steps.{start}
use mulle_rbtree.Shape.Zipper.{IsTree}
use mulle_rbtree.Shape.{
  Shape, leaf, node, Context, top, in_left, in_right, inorder, before, after, plug, size, depth,
}
use mulle_rbtree.Shape.Balance.{list_laws}
use mulle_rbtree.Shape.Zipper.{At, down_left, up_left, up_right, ne-sibling_right}
use mulle_rbtree.RbTree.Navigate.Steps.{size-plug, Position, arrive, Behind, start}

module _ {V S : Type 0} where
  Behind-along :
      {s : RbTree V S} {t t' : Shape} {ys ys' us us' : List Ptr} {p : Ptr}
      → Behind s t ys us p
      → t ≡ t'
      → ys ≡ ys'
      → us ≡ us'
      → Behind s t' ys' us' p
  Behind-along {s} {t'} {ys} {ys'} {us} {p} h a b c =
      subst (λ us. Behind s t' ys' us p) c
        (subst (λ ys. Behind s t' ys us p) b (subst (λ t. Behind s t ys us p) a h))

  climb_left-stop :
      (fuel : ℕ) (x q : Ptr) (s : RbTree V S)
      → s.parent x ≡ q
      → (q ≢ nil → x ≢ s.left q)
      → climb_left (suc fuel) x s ≡ some q
  unfolding climb_left
  climb_left-stop fuel x q s e n = ground arith

  climb_left-go :
      (fuel : ℕ) (x q : Ptr) (s : RbTree V S)
      → s.parent x ≡ q
      → q ≢ nil
      → x ≡ s.left q
      → climb_left (suc fuel) x s ≡ climb_left fuel q s
  unfolding climb_left
  climb_left-go fuel x q s e n same = ground arith

  pub climb_left-Behind :
      (fuel : ℕ) (s : RbTree V S) (k : Context) (l : Shape) (c : Bool) (a : Ptr) (r : Shape)
      → At s k (node l c a r)
      → depth k < fuel
      → Returns
          (Behind s (plug k (node l c a r)) (before k) (inorder (node l c a r) ++ after k))
          (climb_left fuel a s)
  climb_left-Behind zero s k l c a r h f = absurd (omega arith)
  climb_left-Behind (suc fuel) s top l c a r h f =
      rw (climb_left-stop fuel a nil s h.focus.1 (λ n. absurd (n refl))) (returns (start refl refl))
  climb_left-Behind (suc fuel) s (in_right m d b k) l c a r h f =
      rw (climb_left-stop fuel a b s h.focus.1 (λ n e. ne-sibling_right h (e ∙ h.path.2))) (
        returns (
          arrive (before k ++ inorder m) (simp list_laws) (record {
            context = k;
            lower = m;
            color = d;
            upper = (node l c a r);
            at = up_right h;
            whole = refl;
            behind = refl;
            ahead = refl;
          })))
  climb_left-Behind (suc fuel) s (in_left d b m k) l c a r h f =
      rw (climb_left-go fuel a b s h.focus.1 h.path.0 (sym h.path.2)) (
        Returns-mono (climb_left-Behind fuel s k (node l c a r) d b m (up_left h) (omega arith))
          (λ q e. Behind-along e refl refl (simp list_laws)))

  previous_node-down :
      (fuel : ℕ) (a b : Ptr) (s : RbTree V S)
      → s.left a ≡ b
      → b ≢ nil
      → previous_node fuel a s ≡ find_rightmost_node fuel b s
  unfolding previous_node
  previous_node-down fuel a b s e n = ground arith

  previous_node-up :
      (fuel : ℕ) (a : Ptr) (s : RbTree V S)
      → s.left a ≡ nil
      → previous_node fuel a s ≡ climb_left fuel a s
  unfolding previous_node
  previous_node-up fuel a s e = ground arith

  previous_node-At :
      (fuel : ℕ) (s : RbTree V S) (k : Context) (l : Shape) (c : Bool) (a : Ptr) (r : Shape)
      → At s k (node l c a r)
      → size l + depth k < fuel
      → Returns
          (Behind s (plug k (node l c a r)) (before k ++ inorder l) ((a ∷ inorder r) ++ after k))
          (previous_node fuel a s)
  previous_node-At fuel s k leaf c a r h f = rw (previous_node-up fuel a s h.focus.2) (
      Returns-mono (climb_left-Behind fuel s k leaf c a r h (omega arith))
        (λ q e. Behind-along e refl (sym (append-nil _)) refl))
  previous_node-At fuel s k (node ll d b lr) c a r h f =
      let below = down_left h in
      rw (previous_node-down fuel a b s h.focus.2 below.focus.0) (
        Returns-mono
          (find_rightmost_node-RightEnd fuel s (in_left c a r k) lr d b ll below (omega arith))
          (λ q e.
            arrive (before e.context ++ inorder e.lower) (sym e.behind ∙ (simp list_laws)) (record {
              context = e.context;
              lower = e.lower;
              color = e.color;
              upper = leaf;
              at = e.at;
              whole = e.whole;
              behind = refl;
              ahead = e.ahead;
            })))

  -- From a node of a tree, with more fuel than nodes, the previous node is the one before it in
  -- order, or nil before the first one.
  pub previous_node-Behind :
      (fuel : ℕ) (s : RbTree V S) (t : Shape) (p : Ptr) (ys zs : List Ptr)
      → Position s t p ys zs
      → size t < fuel
      → Returns (Behind s t ys (p ∷ zs)) (previous_node fuel p s)
  previous_node-Behind fuel s t p ys zs h f =
      let fits = size-plug h.context (node h.lower h.color p h.upper) in
      let e = ap size h.whole in
      Returns-mono (previous_node-At fuel s h.context h.lower h.color p h.upper h.at (omega arith))
        (λ q a. Behind-along a h.whole h.behind (ap (λ zs. p ∷ zs) h.ahead))

module _ {V S : Type 0} where
  pub last-Behind :
      (fuel : ℕ) (s : RbTree V S) (t : Shape)
      → IsTree s t
      → size t < fuel
      → Returns (Behind s t (inorder t) []) (find_rightmost_node fuel s.root s)
  last-Behind zero s t h f = absurd (omega arith)
  last-Behind (suc fuel) s leaf h f =
      subst (λ q. Returns (Behind s leaf (inorder leaf) []) (find_rightmost_node (suc fuel) q s))
        (sym h.path)
        (rw (find_rightmost_node-stop fuel nil s h.nil_node.right) (returns (start refl refl)))
  last-Behind (suc fuel) s (node l c a r) h f =
      subst
        (λ q.
          Returns (Behind s (node l c a r) (inorder (node l c a r)) [])
            (find_rightmost_node (suc fuel) q s))
        (sym h.path)
        (Returns-mono (find_rightmost_node-RightEnd (suc fuel) s top r c a l h (omega arith))
          (λ q e.
            Behind.arrive (before e.context ++ inorder e.lower) (sym e.behind ∙ (simp list_laws))
              (record {
                context = e.context;
                lower = e.lower;
                color = e.color;
                upper = leaf;
                at = e.at;
                whole = e.whole;
                behind = refl;
                ahead = e.ahead;
              })))
