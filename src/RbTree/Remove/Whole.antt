-- ===== src/RbTree/Remove/Whole.antt =====
-- `_mulle__rbtree_remove_node` (src/mulle--rbtree.c) as a whole, at any node of a red-black tree.
use mulle_rbtree.Base.{
  ℕ, ◌+◌, ◌<◌, Bool, not, ◌≡◌, ◌≢◌, refl, sym, ◌∙◌, ap, subst, some, List, [], ◌++◌, inl, inr, ◌⊎◌,
  arith,
}
use mulle_rbtree.Storage.{Ptr, nil, Storage}
use mulle_rbtree.RbTree.{RbTree, set_node_marked}
use mulle_rbtree.RbTree.Marks.{SameLinks, set_node_marked-SameLinks}
use mulle_rbtree.RbTree.Recolor.{At-SameLinks}
use mulle_rbtree.RbTree.Rest.{Returns, Returns-mono, Returns-some}
use mulle_rbtree.RbTree.Navigate.{next_node}
use mulle_rbtree.RbTree.Navigate.Steps.{Position, size-plug}
use mulle_rbtree.RbTree.Remove.{remove_node, splice_node, splice_out}
use mulle_rbtree.RbTree.Remove.Marked.{SameLinks-trans}
use mulle_rbtree.RbTree.Remove.RedBlack.{IsRedBlack-rename}
use mulle_rbtree.RbTree.Remove.Unlink.{Sole-right, Sole-left}
use mulle_rbtree.RbTree.Remove.Leftmost.{First, next_node-First}
use mulle_rbtree.RbTree.Remove.SpliceOut.{splice_out-Sole, only_child-right, only_child-left}
use mulle_rbtree.RbTree.Remove.Successor.{splice_out-Successor}
use mulle_rbtree.Shape.{
  Shape, leaf, node, Context, in_right, root_of, plug, inorder, before, after, depth, size,
}
use mulle_rbtree.Shape.Append.{append, plug-append, depth-append, plug-At}
use mulle_rbtree.Shape.Balance.{IsRedBlack, around, inorder-plug, list_laws}
use mulle_rbtree.Shape.Zipper.{At, down_left, down_right}
use mulle_rbtree.RbTree.Remove.Finish.{Removed, finish, finish-right, finish-left}

splice_node-missing :
    {V S : Type 0} (fuel : ℕ) (p : Ptr) (s : RbTree V S)
    → (s.left p ≡ nil) ⊎ (s.right p ≡ nil)
    → splice_node fuel p s ≡ some p
unfolding splice_node
splice_node-missing fuel p s (inl e) = ground arith
splice_node-missing fuel p s (inr e) = ground arith

splice_node-full :
    {V S : Type 0} (fuel : ℕ) (p : Ptr) (s : RbTree V S)
    → s.left p ≢ nil
    → s.right p ≢ nil
    → splice_node fuel p s ≡ next_node fuel p s
unfolding splice_node
splice_node-full fuel p s l r = ground arith

-- the successor before and after
successor-order :
    (k inner : Context) (l t : Shape) (c d : Bool) (y : Ptr)
    → before inner ≡ []
    → around (append inner (in_right l c y k)) t
      ≡ (before k ++ inorder l) ++ (inorder (plug inner (node leaf d y t)) ++ after k)
successor-order k inner l t c d y first =
    let up = plug-append inner (in_right l c y k) t in
    sym (inorder-plug (append inner (in_right l c y k)) t)
    ∙ ap inorder up
    ∙ inorder-plug k (node l c y (plug inner t))
    ∙ simp (inorder-plug inner t, inorder-plug inner (node leaf d y t), first, list_laws)

module _ {V S : Type 0} (storage : Storage V S) where
  -- the flags of the removed node and its children
  abbrev marked_all : Ptr → RbTree V S → RbTree V S
  marked_all p s =
      let s₁ = set_node_marked p s in set_node_marked (s.right p) (set_node_marked (s.left p) s₁)

  marked_all-SameLinks : (p : Ptr) (s : RbTree V S) → SameLinks s (marked_all p s)
  marked_all-SameLinks p s = SameLinks-trans (set_node_marked-SameLinks p s) (
      SameLinks-trans (set_node_marked-SameLinks (s.left p) _)
        (set_node_marked-SameLinks (s.right p) _))

  remove_node-finish :
      (fuel : ℕ) (p y : Ptr) (s : RbTree V S)
      → splice_node fuel p (marked_all p s) ≡ some y
      → remove_node storage fuel p s
        ≡ finish storage fuel p
            (not ((marked_all p s).red y))
            (splice_out fuel p y (marked_all p s))
  unfolding remove_node
  remove_node-finish fuel p y s e = rw (remove_node, e) refl

  -- from the marked tree to the tree before
  pub unmarked :
      {p : Ptr} {s s₁ : RbTree V S} {xs : List Ptr}
      → SameLinks s s₁
      → (s' : RbTree V S) → Removed storage p s₁ xs s'
      → Removed storage p s xs s'
  unmarked {p} e s' r = record {
    shape = r.shape;
    tree = r.tree;
    order = r.order;
    red_black = r.red_black;
    payload = r.payload ∙ e.payload;
    options = r.options ∙ e.options;
    nodes = r.nodes ∙ ap (storage.free p) e.nodes;
  }

  remove_node-Successor :
      (fuel : ℕ) (s : RbTree V S) (k : Context) (l r : Shape) (c : Bool) (p y : Ptr)
      → At s k (node l c p r)
      → IsRedBlack (plug k (node l c p r))
      → size r + depth k + 1 < fuel
      → root_of l ≢ nil
      → First r y
      → Returns
          (Removed storage p s ((before k ++ inorder l) ++ (inorder r ++ after k)))
          (finish storage fuel p (not (s.red y)) (splice_out fuel p y s))
  remove_node-Successor fuel s k l r c p y h rb f two g =
      let lower = node leaf g.color y g.upper in
      let h' = subst (λ r. At s k (node l c p r)) (sym g.whole) h in
      let rb' = subst (λ r. IsRedBlack (plug k (node l c p r))) (sym g.whole) rb in
      let k' = append g.inner (in_right l c y k) in
      let at = plug-At s g.inner (in_right l c p k) lower (down_right h') in
      let spliced = splice_out-Successor s k g.inner l g.upper c g.color p y at fuel two in
      let order =
        successor-order k g.inner l g.upper c g.color y g.nothing_before
        ∙ ap (λ r. (before k ++ inorder l) ++ (inorder r ++ after k)) g.whole in
      let red_black =
        subst IsRedBlack (sym (plug-append g.inner (in_right l c y k) lower))
          (IsRedBlack-rename k l (plug g.inner lower) c p y rb') in
      rw at.focus.4 (
        finish-right storage fuel p y g.color s k' g.upper _ _ spliced red_black order (
          omega (
            arith,
            f,
            depth-append g.inner (in_right l c y k),
            size-plug g.inner lower,
            ap size g.whole,
          )))

  remove_node-At :
      (fuel : ℕ) (s : RbTree V S) (k : Context) (l : Shape) (c : Bool) (p : Ptr) (r : Shape)
      → At s k (node l c p r)
      → IsRedBlack (plug k (node l c p r))
      → size r + depth k + 1 < fuel
      → Returns
          (Removed storage p s ((before k ++ inorder l) ++ (inorder r ++ after k)))
          (remove_node storage fuel p s)
  remove_node-At fuel s k leaf c p r h rb f =
      let s₁ = marked_all p s in
      let e = marked_all-SameLinks p s in
      let h₁ = At-SameLinks s s₁ k (node leaf c p r) e h in
      rw
        (remove_node-finish fuel p p s (splice_node-missing fuel p s₁ (inl h₁.focus.2)), h₁.focus.4)
        (Returns-mono
          (finish-right storage fuel p p c s₁ k r _ _
            (splice_out-Sole fuel s₁ k p r (Sole-right s₁ k c p r h₁)
              (only_child-right p _ s₁ h₁.focus.2 h₁.focus.3))
            rb (simp list_laws) (omega (arith, f)))
          (unmarked e))
  remove_node-At fuel s k l c p leaf h rb f =
      let s₁ = marked_all p s in
      let e = marked_all-SameLinks p s in
      let h₁ = At-SameLinks s s₁ k (node l c p leaf) e h in
      rw
        (remove_node-finish fuel p p s (splice_node-missing fuel p s₁ (inr h₁.focus.3)), h₁.focus.4)
        (Returns-mono
          (finish-left storage fuel p p c s₁ k l _ _
            (splice_out-Sole fuel s₁ k p l (Sole-left s₁ k c p l h₁)
              (only_child-left p _ s₁ h₁.focus.3 h₁.focus.2))
            rb (simp list_laws) (omega (arith, f)))
          (unmarked e))
  remove_node-At fuel s k (node ll lc la lr) c p (node rl rc ra rr) h rb f =
      let l = node ll lc la lr in
      let r = node rl rc ra rr in
      let s₁ = marked_all p s in
      let e = marked_all-SameLinks p s in
      let h₁ = At-SameLinks s s₁ k (node l c p r) e h in
      let no_left : s₁.left p ≢ nil = λ q. (down_left h₁).focus.0 (sym h₁.focus.2 ∙ q) in
      let no_right : s₁.right p ≢ nil = λ q. (down_right h₁).focus.0 (sym h₁.focus.3 ∙ q) in
      let (y, ey, g) = Returns-some (next_node-First fuel s₁ k l c p r h₁ no_right (omega arith)) in
      rw (remove_node-finish fuel p y s (splice_node-full fuel p s₁ no_left no_right ∙ ey)) (
        Returns-mono (remove_node-Successor fuel s₁ k l r c p y h₁ rb f (down_left h₁).focus.0 g)
          (unmarked e))

  -- A node of a red-black tree removed, with more fuel than the tree has nodes: the removal ends,
  -- the other nodes stand in a red-black tree in the order they had, the payloads and the options
  -- are as before, and the node pool got the node back.
  pub remove_node-Removed :
      (fuel : ℕ) (s : RbTree V S) (t : Shape) (p : Ptr) (ys zs : List Ptr)
      → Position s t p ys zs
      → IsRedBlack t
      → size t < fuel
      → Returns (Removed storage p s (ys ++ zs)) (remove_node storage fuel p s)
  remove_node-Removed fuel s t p ys zs h rb f =
      let whole = node h.lower h.color p h.upper in
      Returns-mono
        (remove_node-At fuel s h.context h.lower h.color p h.upper h.at
          (subst IsRedBlack (sym h.whole) rb)
          (omega (arith, f, size-plug h.context whole, ap size h.whole)))
        (λ s' r.
          subst (λ xs. Removed storage p s xs s')
            (ap (λ ys. ys ++ (inorder h.upper ++ after h.context)) h.behind
              ∙ ap (λ zs. ys ++ zs) h.ahead)
            r)
