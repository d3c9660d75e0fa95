-- ===== src/Shape/Locate.antt =====
-- The place of a node of a tree, found by its place in the order of the nodes.
use mathlib.Core.List.{cons≢nil, append-nil}
use mulle_rbtree.Base.{true, ◌≡◌, refl, sym, ◌∙◌, ap, subst, List, [], ◌∷◌, ◌++◌}
use mulle_rbtree.Sides.{lower, here, upper, side}
use mulle_rbtree.Storage.{Ptr}
use mulle_rbtree.RbTree.{RbTree}
use mulle_rbtree.RbTree.Navigate.Steps.{Position}
use mulle_rbtree.Shape.{
  Shape, leaf, node, Context, top, in_left, in_right, inorder, before, after, plug,
}
use mulle_rbtree.Shape.Balance.{list_laws}
use mulle_rbtree.Shape.Zipper.{At, IsTree, down_left, down_right}

low_law :
    (ws : List Ptr) (r : Shape) (b : Ptr) (k : Context)
    → ws ++ b ∷ (inorder r ++ after k) ≡ (ws ++ b ∷ inorder r) ++ after k
low_law ws r b k = simp list_laws

up_law :
    (ws : List Ptr) (l : Shape) (b : Ptr) (k : Context)
    → before (in_right l true b k) ++ ws ≡ before k ++ (inorder l ++ b ∷ ws)
up_law ws l b k = simp list_laws

module _ {V S : Type 0} where
  Position-along :
      {s : RbTree V S} {t : Shape} {p : Ptr} {ys ys' zs zs' : List Ptr}
      → ys ≡ ys'
      → zs ≡ zs'
      → Position s t p ys zs
      → Position s t p ys' zs'
  Position-along a b h = record {
    context = h.context;
    lower = h.lower;
    color = h.color;
    upper = h.upper;
    at = h.at;
    whole = h.whole;
    behind = h.behind ∙ a;
    ahead = h.ahead ∙ b;
  }

  located :
      (s : RbTree V S) (k : Context) (t : Shape) (a : Ptr) (ys zs : List Ptr)
      → At s k t
      → inorder t ≡ ys ++ a ∷ zs
      → Position s (plug k t) a (before k ++ ys) (zs ++ after k)
  located s k leaf a [] zs h e = absurd (cons≢nil (sym e))
  located s k leaf a (y ∷ ys) zs h e = absurd (cons≢nil (sym e))
  located s k (node l c b r) a ys zs h e = elim (side (inorder l) (inorder r) b a ys zs e) [
    | lower ws f g ↦
        Position-along refl (low_law ws r b k ∙ ap (λ q. q ++ after k) (sym g))
          (located s (in_left c b r k) l a ys ws (down_left h) f)
    | here q f g ↦ record {
      context = k;
      lower = l;
      color = c;
      upper = r;
      at = subst (λ q. At s k (node l c q r)) q h;
      whole = ap (λ p. plug k (node l c p r)) (sym q);
      behind = ap (λ ys. before k ++ ys) f;
      ahead = ap (λ zs. zs ++ after k) g;
    }
    | upper ws f g ↦
        Position-along (up_law ws l b k ∙ ap (λ q. before k ++ q) (sym g)) refl
          (located s (in_right l c b k) r a ws zs (down_right h) f)
  ]

  -- a node stands where the order of the tree says
  pub Position-inorder_lem :
      (s : RbTree V S) (t : Shape) (a : Ptr) (ys zs : List Ptr)
      → IsTree s t
      → inorder t ≡ ys ++ a ∷ zs
      → Position s t a ys zs
  Position-inorder_lem s t a ys zs h e =
      Position-along refl (append-nil zs) (located s top t a ys zs h e)
