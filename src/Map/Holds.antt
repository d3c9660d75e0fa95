-- ===== src/Map/Holds.antt =====
-- The contents that a tree of values (src/mulle-rbtree.h) holds.
use mulle_rbtree.Base.{◌&&◌, subst, ap, sym, ◌∙◌, Bool, ◌≡◌, ◌≢◌, refl, List, [], ◌∷◌, ◌++◌, map}
use mulle_rbtree.RbTree.Marks.{SameLinks}
use mulle_rbtree.RbTree.Recolor.{At-SameLinks}
use mulle_rbtree.Map.Freed.{has_option-options}
use mulle_rbtree.Map.Reports.{Tells}
use mulle_rbtree.Shape.{top}
use mulle_rbtree.Storage.{Ptr, Storage, IsPool}
use mulle_rbtree.Order.{All, IsComparison, Sorted}
use mulle_rbtree.RbTree.Value.{values, stored-same, stored, values-payload}
use mulle_rbtree.RbTree.{RbTree, has_option, use_dirty, allow_duplicates}
use mulle_rbtree.RbTree.Navigate.Steps.{Position}
use mulle_rbtree.Map.{Callbacks}
use mulle_rbtree.Map.Absent.{Position-inorder}
use mulle_rbtree.Map.Model.{Request, Response, Step, reports}
use mulle_rbtree.Shape.{Shape, count, inorder}
use mulle_rbtree.Shape.Balance.{IsRedBlack}
use mulle_rbtree.Shape.Zipper.{IsTree}

pub map-append :
    {V : Type 0} (f : Ptr → V) (xs ys : List Ptr) → map f (xs ++ ys) ≡ map f xs ++ map f ys
map-append f [] ys = refl
map-append f (x ∷ xs) ys = ap (λ q. f x ∷ q) (map-append f xs ys)

-- what holds of the values of all nodes holds of the values
pub All-map :
    {V : Type 0} (P : V → Type 0) (f : Ptr → V) (xs : List Ptr)
    → All (λ p. P (f p)) xs
    → All P (map f xs)
All-map P f [] h = tt
All-map P f (x ∷ xs) h = (h.0, All-map P f xs h.1)

module _ {V S : Type 0} where
  pub Position-values :
      (s : RbTree V S) (t : Shape) (p : Ptr) (ys zs : List Ptr) (xs : List V)
      → Position s t p ys zs
      → map (values s) (inorder t) ≡ xs
      → xs ≡ map (values s) ys ++ values s p ∷ map (values s) zs
  Position-values s t p ys zs xs h e =
      sym e
      ∙ ap (map (values s)) (Position-inorder s t p ys zs h)
      ∙ map-append (values s) ys (p ∷ zs)

module _ {V S W : Type 0} (storage : Storage V S) (pool : IsPool storage)
    (callbacks : Callbacks V W) (law : IsComparison callbacks.comparison) (kept : V → V) where
  -- The tree is sorted and red-black and has these values; its nodes are out of the pool; it keeps
  -- of a value what `kept` says, allows duplicates if `d`, and has dirty flags if `r`.
  pub record Holds (d r : Bool) (s : RbTree V S) (xs : List V) : Type 0 where
    pub shape : Shape
    pub tree : IsTree s shape
    pub red_black : IsRedBlack shape
    pub sorted : Sorted callbacks.comparison (values s) (inorder shape)
    pub listed : map (values s) (inorder shape) ≡ xs
    pub owned : (b : Ptr) → count b shape ≢ 0 → pool.live s.nodes b
    pub dirty_flags : has_option use_dirty s ≡ r
    pub keeps : (v : V) → stored storage s v ≡ kept v
    pub duplicates : has_option allow_duplicates s ≡ d

  -- the tree and the state before a report, after a step
  pub record Performed (d r : Bool) (xs : List V) (w : W) (q : Request V)
      (o : Response V × RbTree V S × W) : Type 0 where
    pub contents : List V
    pub holds : Holds d r o.1 contents
    pub step : Step callbacks kept d xs w q o.0 contents o.2

  -- the tree and the state after a call: a step, and a report where there is one
  pub record Answered (d r : Bool) (xs : List V) (w : W) (q : Request V)
      (o : Response V × RbTree V S × W) : Type 0 where
    pub contents : List V
    pub holds : Holds d r o.1 contents
    pub unreported : W
    pub step : Step callbacks kept d xs w q o.0 contents unreported
    pub tells : Tells callbacks (reports callbacks q o.0 && r) unreported o.2

  Holds-SameLinks :
      (d r : Bool) (s s' : RbTree V S) (xs : List V)
      → SameLinks s s'
      → Holds d r s xs
      → Holds d r s' xs
  Holds-SameLinks d r s s' xs e h = record {
    shape = h.shape;
    tree = At-SameLinks s s' top h.shape e h.tree;
    red_black = h.red_black;
    sorted =
        subst (λ m. Sorted callbacks.comparison m (inorder h.shape))
          (sym (values-payload s s' e.payload e.options)) h.sorted;
    listed = ap (λ m. map m (inorder h.shape)) (values-payload s s' e.payload e.options) ∙ h.listed;
    owned = λ b m. subst (λ n. pool.live n b) (sym e.nodes) (h.owned b m);
    keeps = λ v. stored-same storage s s' v e.options (ap storage.element_size e.nodes) ∙ h.keeps v;
    dirty_flags = has_option-options use_dirty s' s e.options ∙ h.dirty_flags;
    duplicates = has_option-options allow_duplicates s' s e.options ∙ h.duplicates;
  }

  pub Performed-Answered :
      (d r : Bool) (xs : List V) (w : W) (q : Request V) (a : Response V) (s s' : RbTree V S)
      (w₁ w₂ : W)
      → Performed d r xs w q (a, s, w₁)
      → SameLinks s s'
      → Tells callbacks (reports callbacks q a && r) w₁ w₂
      → Answered d r xs w q (a, s', w₂)
  Performed-Answered d r xs w q a s s' w₁ w₂ h e tells = record {
    contents = h.contents;
    holds = Holds-SameLinks d r s s' h.contents e h.holds;
    unreported = w₁;
    step = h.step;
    tells = tells;
  }
