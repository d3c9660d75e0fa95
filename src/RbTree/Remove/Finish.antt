-- ===== src/RbTree/Remove/Finish.antt =====
-- The last passages of `_mulle__rbtree_remove_node` (src/mulle--rbtree.c): the node goes back to
-- the pool, and the fixup runs if a black node is missing.
use mulle_rbtree.Base.{
  ℕ, ◌<◌, Bool, true, false, not, ◌≡◌, refl, ◌∙◌, ap, Option, some, List, if◌then◌else◌,
}
use mulle_rbtree.Storage.{Ptr, Storage}
use mulle_rbtree.RbTree.{RbTree, free_node}
use mulle_rbtree.RbTree.Rest.{Returns, returns, Returns-mono, SameRest}
use mulle_rbtree.RbTree.Fixup.{black_black_fixup}
use mulle_rbtree.RbTree.Fixup.Short.{Short, rounds, rounds-depth}
use mulle_rbtree.RbTree.Fixup.Blacken.{Rebalanced}
use mulle_rbtree.RbTree.Fixup.Pulls.{Hangs}
use mulle_rbtree.RbTree.Fixup.BlackBlack.{black_black_fixup-Rebalanced}
use mulle_rbtree.RbTree.Remove.RedBlack.{Short-right, Short-left, red_gone-right, red_gone-left}
use mulle_rbtree.RbTree.Remove.SpliceOut.{Spliced}
use mulle_rbtree.Shape.{Shape, leaf, node, Context, root_of, parent_of, plug, inorder, depth}
use mulle_rbtree.Shape.Rep.{Rep-frame, RepAbove-frame}
use mulle_rbtree.Shape.Balance.{IsRedBlack, around, inorder-plug}
use mulle_rbtree.Shape.Zipper.{At, IsTree, At-plug}

module _ {V S : Type 0} (storage : Storage V S) where
  -- a red-black tree of the nodes `xs`, in this order; the node pool got `p` back
  pub record Removed (p : Ptr) (s : RbTree V S) (xs : List Ptr) (s' : RbTree V S) : Type 0 where
    pub shape : Shape
    pub tree : IsTree s' shape
    pub order : inorder shape ≡ xs
    pub red_black : IsRedBlack shape
    pub payload : s'.payload ≡ s.payload
    pub options : s'.options ≡ s.options
    pub nodes : s'.nodes ≡ storage.free p s.nodes

  pub free_node-At :
      (p : Ptr) (s : RbTree V S) (k : Context) (t : Shape)
      → At s k t
      → At (free_node storage p s) k t
  unfolding free_node
  free_node-At p s k t h = record {
    focus =
        Rep-frame s (free_node storage p s) (parent_of k) t h.focus
          (λ b m. (refl, refl, refl, refl));
    path =
        RepAbove-frame s (free_node storage p s) (root_of t) k h.path refl
          (λ b m. (refl, refl, refl, refl));
    distinct = h.distinct;
    nil_node = record {
      black = h.nil_node.black;
      left = h.nil_node.left;
      right = h.nil_node.right;
    };
  }

  free_node-Hangs :
      (p : Ptr) (s : RbTree V S) (k : Context) (t : Shape)
      → Hangs s k t
      → Hangs (free_node storage p s) k t
  unfolding free_node
  free_node-Hangs p s k leaf h = h
  free_node-Hangs p s k (node l c a r) h = tt

  -- the last passages, after `splice_out`
  abbrev pub finish : ℕ → Ptr → Bool → Ptr × RbTree V S → Option (RbTree V S)
  finish fuel p fixup o =
      let s = free_node storage p o.1 in if fixup then black_black_fixup fuel o.0 s else some s

  Removed-through :
      {p : Ptr} {s s₁ s' : RbTree V S} {xs : List Ptr}
      → SameRest s s₁
      → Rebalanced (free_node storage p s₁) xs s'
      → Removed p s xs s'
  unfolding free_node
  Removed-through {p} h r = record {
    shape = r.shape;
    tree = r.tree;
    order = r.order;
    red_black = r.red_black;
    payload = r.rest.payload ∙ h.payload;
    options = r.rest.options ∙ h.options;
    nodes = r.rest.nodes ∙ ap (storage.free p) h.nodes;
  }

  finish-fixup :
      (fuel : ℕ) (p : Ptr) (s : RbTree V S) (k : Context) (t : Shape) (xs : List Ptr)
      (o : Ptr × RbTree V S)
      → Spliced s k t o
      → Short k t
      → around k t ≡ xs
      → depth k < fuel
      → Returns (Removed p s xs) (finish fuel p true o)
  finish-fixup fuel p s k t xs o h short order f =
      let s' = free_node storage p o.1 in
      let below : rounds k t < fuel = rounds-depth k t fuel f in
      rw h.focus (
        Returns-mono
          (black_black_fixup-Rebalanced fuel k t s' xs (free_node-At p o.1 k t h.at)
            (free_node-Hangs p o.1 k t h.hangs) short order below)
          (λ t r. Removed-through h.rest r))

  finish-plain :
      (fuel : ℕ) (p : Ptr) (s : RbTree V S) (k : Context) (t : Shape) (xs : List Ptr)
      (o : Ptr × RbTree V S)
      → Spliced s k t o
      → IsRedBlack (plug k t)
      → around k t ≡ xs
      → Returns (Removed p s xs) (finish fuel p false o)
  unfolding free_node
  finish-plain fuel p s k t xs o h rb order = returns (record {
    shape = plug k t;
    tree = At-plug _ k t (free_node-At p o.1 k t h.at);
    order = inorder-plug k t ∙ order;
    red_black = rb;
    payload = h.rest.payload;
    options = h.rest.options;
    nodes = ap (storage.free p) h.rest.nodes;
  })

  pub finish-right :
      (fuel : ℕ) (p y : Ptr) (d : Bool) (s : RbTree V S) (k : Context) (t : Shape) (xs : List Ptr)
      (o : Ptr × RbTree V S)
      → Spliced s k t o
      → IsRedBlack (plug k (node leaf d y t))
      → around k t ≡ xs
      → depth k < fuel
      → Returns (Removed p s xs) (finish fuel p (not d) o)
  finish-right fuel p y true s k t xs o h rb order f =
      finish-plain fuel p s k t xs o h (red_gone-right k y t rb) order
  finish-right fuel p y false s k t xs o h rb order f =
      finish-fixup fuel p s k t xs o h (Short-right k y t rb) order f

  pub finish-left :
      (fuel : ℕ) (p y : Ptr) (d : Bool) (s : RbTree V S) (k : Context) (t : Shape) (xs : List Ptr)
      (o : Ptr × RbTree V S)
      → Spliced s k t o
      → IsRedBlack (plug k (node t d y leaf))
      → around k t ≡ xs
      → depth k < fuel
      → Returns (Removed p s xs) (finish fuel p (not d) o)
  finish-left fuel p y true s k t xs o h rb order f =
      finish-plain fuel p s k t xs o h (red_gone-left k y t rb) order
  finish-left fuel p y false s k t xs o h rb order f =
      finish-fixup fuel p s k t xs o h (Short-left k y t rb) order f
