-- ===== src/RbTree/Navigate/Steps.antt =====
-- The next node of a tree (src/mulle--rbtree.h).
use mathlib.Core.List.{append-nil}
use mulle_rbtree.Base.{
  ℕ, zero, suc, ◌+◌, ◌<◌, ◌≤◌, Bool, ◌≡◌, ◌≢◌, refl, sym, ◌∙◌, ap, subst, some, List, [], ◌∷◌, ◌++◌,
  arith,
}
use mulle_rbtree.Storage.{Ptr, nil}
use mulle_rbtree.RbTree.{RbTree}
use mulle_rbtree.RbTree.Rest.{Returns, returns, Returns-mono}
use mulle_rbtree.RbTree.Navigate.{climb_right, next_node, find_leftmost_node}
use mulle_rbtree.RbTree.Navigate.Ends.{find_leftmost_node-LeftEnd}
use mulle_rbtree.RbTree.Navigate.Ends.{find_leftmost_node-stop}
use mulle_rbtree.Shape.Zipper.{IsTree}
use mulle_rbtree.Shape.{
  Shape, leaf, node, Context, top, in_left, in_right, inorder, before, after, plug, size, depth,
}
use mulle_rbtree.Shape.Balance.{list_laws}
use mulle_rbtree.Shape.Zipper.{At, down_right, up_left, up_right, ne-sibling_left}

-- a part is no larger than the whole
pub size-plug : (k : Context) (t : Shape) → size t + depth k ≤ size (plug k t)
size-plug top t = omega arith
size-plug (in_left c a r k) t = omega (arith, size-plug k (node t c a r))
size-plug (in_right l c a k) t = omega (arith, size-plug k (node l c a t))

module _ {V S : Type 0} where
  -- `p` is a node of the tree `t`, between the nodes `ys` and the nodes `zs`
  pub record Position (s : RbTree V S) (t : Shape) (p : Ptr) (ys zs : List Ptr) : Type 0 where
    pub context : Context
    pub lower : Shape
    pub color : Bool
    pub upper : Shape
    pub at : At s context (node lower color p upper)
    pub whole : plug context (node lower color p upper) ≡ t
    pub behind : before context ++ inorder lower ≡ ys
    pub ahead : inorder upper ++ after context ≡ zs

  -- `p` is the first of the nodes `us` that follow `ys`, or nil if there is none
  pub data Ahead (s : RbTree V S) (t : Shape) (ys us : List Ptr) (p : Ptr) : Type 0 where
    finish : us ≡ [] → p ≡ nil → Ahead s t ys us p
    arrive : (zs : List Ptr) → us ≡ p ∷ zs → Position s t p ys zs → Ahead s t ys us p

  -- `p` is the last of the nodes `us` that precede `zs`, or nil if there is none
  pub data Behind (s : RbTree V S) (t : Shape) (us zs : List Ptr) (p : Ptr) : Type 0 where
    start : us ≡ [] → p ≡ nil → Behind s t us zs p
    arrive : (ys : List Ptr) → us ≡ ys ++ p ∷ [] → Position s t p ys zs → Behind s t us zs p

module _ {V S : Type 0} where
  Ahead-along :
      {s : RbTree V S} {t t' : Shape} {ys ys' us us' : List Ptr} {p : Ptr}
      → Ahead s t ys us p
      → t ≡ t'
      → ys ≡ ys'
      → us ≡ us'
      → Ahead s t' ys' us' p
  Ahead-along {s} {t'} {ys} {ys'} {us} {p} h a b c =
      subst (λ us. Ahead s t' ys' us p) c
        (subst (λ ys. Ahead s t' ys us p) b (subst (λ t. Ahead s t ys us p) a h))

  climb_right-stop :
      (fuel : ℕ) (x q : Ptr) (s : RbTree V S)
      → s.parent x ≡ q
      → (q ≢ nil → x ≢ s.right q)
      → climb_right (suc fuel) x s ≡ some q
  unfolding climb_right
  climb_right-stop fuel x q s e n = ground arith

  climb_right-go :
      (fuel : ℕ) (x q : Ptr) (s : RbTree V S)
      → s.parent x ≡ q
      → q ≢ nil
      → x ≡ s.right q
      → climb_right (suc fuel) x s ≡ climb_right fuel q s
  unfolding climb_right
  climb_right-go fuel x q s e n same = ground arith

  pub climb_right-Ahead :
      (fuel : ℕ) (s : RbTree V S) (k : Context) (l : Shape) (c : Bool) (a : Ptr) (r : Shape)
      → At s k (node l c a r)
      → depth k < fuel
      → Returns
          (Ahead s (plug k (node l c a r)) (before k ++ inorder (node l c a r)) (after k))
          (climb_right fuel a s)
  climb_right-Ahead zero s k l c a r h f = absurd (omega arith)
  climb_right-Ahead (suc fuel) s top l c a r h f =
      rw (climb_right-stop fuel a nil s h.focus.1 (λ n. absurd (n refl)))
        (returns (finish refl refl))
  climb_right-Ahead (suc fuel) s (in_left d b m k) l c a r h f =
      rw (climb_right-stop fuel a b s h.focus.1 (λ n e. ne-sibling_left h (e ∙ h.path.3))) (
        returns (
          arrive (inorder m ++ after k) refl (record {
            context = k;
            lower = (node l c a r);
            color = d;
            upper = m;
            at = up_left h;
            whole = refl;
            behind = refl;
            ahead = refl;
          })))
  climb_right-Ahead (suc fuel) s (in_right m d b k) l c a r h f =
      rw (climb_right-go fuel a b s h.focus.1 h.path.0 (sym h.path.3)) (
        Returns-mono (climb_right-Ahead fuel s k m d b (node l c a r) (up_right h) (omega arith))
          (λ q e. Ahead-along e refl (simp list_laws) refl))

  pub next_node-down :
      (fuel : ℕ) (a b : Ptr) (s : RbTree V S)
      → s.right a ≡ b
      → b ≢ nil
      → next_node fuel a s ≡ find_leftmost_node fuel b s
  unfolding next_node
  next_node-down fuel a b s e n = ground arith

  next_node-up :
      (fuel : ℕ) (a : Ptr) (s : RbTree V S)
      → s.right a ≡ nil
      → next_node fuel a s ≡ climb_right fuel a s
  unfolding next_node
  next_node-up fuel a s e = ground arith

  next_node-At :
      (fuel : ℕ) (s : RbTree V S) (k : Context) (l : Shape) (c : Bool) (a : Ptr) (r : Shape)
      → At s k (node l c a r)
      → size r + depth k < fuel
      → Returns
          (Ahead s (plug k (node l c a r)) (before k ++ inorder l ++ a ∷ []) (inorder r ++ after k))
          (next_node fuel a s)
  next_node-At fuel s k l c a leaf h f = rw (next_node-up fuel a s h.focus.3) (
      Returns-mono (climb_right-Ahead fuel s k l c a leaf h (omega arith))
        (λ q e. Ahead-along e refl (simp list_laws) refl))
  next_node-At fuel s k l c a (node rl d b rr) h f =
      let below = down_right h in
      rw (next_node-down fuel a b s h.focus.3 below.focus.0) (
        Returns-mono
          (find_leftmost_node-LeftEnd fuel s (in_right l c a k) rl d b rr below (omega arith))
          (λ q e. arrive (inorder e.upper ++ after e.context) (sym e.ahead) (record {
            context = e.context;
            lower = leaf;
            color = e.color;
            upper = e.upper;
            at = e.at;
            whole = e.whole;
            behind = append-nil _ ∙ e.behind;
            ahead = refl;
          })))

  -- From a node of a tree, with more fuel than nodes, the next node is the one that follows it in
  -- order, or nil after the last one.
  pub next_node-Ahead :
      (fuel : ℕ) (s : RbTree V S) (t : Shape) (p : Ptr) (ys zs : List Ptr)
      → Position s t p ys zs
      → size t < fuel
      → Returns (Ahead s t (ys ++ p ∷ []) zs) (next_node fuel p s)
  next_node-Ahead fuel s t p ys zs h f =
      let fits = size-plug h.context (node h.lower h.color p h.upper) in
      let e = ap size h.whole in
      Returns-mono (next_node-At fuel s h.context h.lower h.color p h.upper h.at (omega arith))
        (λ q a. Ahead-along a h.whole (ap (λ ys. ys ++ p ∷ []) h.behind) h.ahead)

module _ {V S : Type 0} where
  pub first-Ahead :
      (fuel : ℕ) (s : RbTree V S) (t : Shape)
      → IsTree s t
      → size t < fuel
      → Returns (Ahead s t [] (inorder t)) (find_leftmost_node fuel s.root s)
  first-Ahead zero s t h f = absurd (omega arith)
  first-Ahead (suc fuel) s leaf h f =
      subst (λ q. Returns (Ahead s leaf [] (inorder leaf)) (find_leftmost_node (suc fuel) q s))
        (sym h.path)
        (rw (find_leftmost_node-stop fuel nil s h.nil_node.left) (returns (finish refl refl)))
  first-Ahead (suc fuel) s (node l c a r) h f =
      subst
        (λ q.
          Returns (Ahead s (node l c a r) [] (inorder (node l c a r)))
            (find_leftmost_node (suc fuel) q s))
        (sym h.path)
        (Returns-mono (find_leftmost_node-LeftEnd (suc fuel) s top l c a r h (omega arith)) (λ q e.
          Ahead.arrive (inorder e.upper ++ after e.context) (sym (e.ahead ∙ append-nil _)) (record {
            context = e.context;
            lower = leaf;
            color = e.color;
            upper = e.upper;
            at = e.at;
            whole = e.whole;
            behind = append-nil _ ∙ e.behind;
            ahead = refl;
          })))
