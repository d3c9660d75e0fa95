-- ===== src/Map/Adds.antt =====
-- `mulle_rbtree_add` (src/mulle-rbtree.h) is a step on the contents.
use mulle_rbtree.Base.{
  ◌==◌, ◌+◌, zero-cases, inl, inr, ℕ, ◌<◌, Bool, true, false, ◌≡◌, ◌≢◌, refl, sym, ◌∙◌, ap, subst,
  some, List, [], ◌∷◌, ◌++◌, map, Ordering, arith,
}
use mulle_rbtree.Storage.{Ptr, Storage, IsPool}
use mulle_rbtree.Order.{All, IsComparison, Sorted, Low, High}
use mulle_rbtree.RbTree.Value.{values, stored-same, stored}
use mulle_rbtree.RbTree.{RbTree, has_option, use_dirty, allow_duplicates}
use mulle_rbtree.RbTree.Rest.{Returns, returns, Returns-some}
use mulle_rbtree.Map.{Callbacks, add}
use mulle_rbtree.Map.AddTold.{add-Told}
use mulle_rbtree.Map.Unreported.{Added, refused, added}
use mulle_rbtree.Map.Freed.{has_option-options}
use mulle_rbtree.Map.Model.{add_value, code, accept, reject, respond}
use mulle_rbtree.Shape.{Shape, one_if, count, inorder, size}
use mulle_rbtree.Map.Fresh.{Sorted-frame, occurs, occurs-inorder, occurs-append}
use mulle_rbtree.Shape.Refocus.{one_if-eq}
use mulle_rbtree.Map.Holds.{
  Performed, Performed-Answered, map-append, All-map, Holds, Answered, Position-values,
}

one_if-ne : (a b : Ptr) → one_if (a == b) ≢ 0 → a ≡ b
one_if-ne a b n = ground arith

Low-map :
    {V : Type 0} (comp : V → V → Ordering) (key : V) (f : Ptr → V) (d : Bool) (xs : List Ptr)
    → All (Low comp f d key) xs
    → All (Low comp (λ v. v) d key) (map f xs)
Low-map comp key f true xs h = All-map (λ v. comp key v ≢ Ordering.lt) f xs h
Low-map comp key f false xs h = All-map (λ v. comp key v ≡ Ordering.gt) f xs h

module _ {V S W : Type 0} (storage : Storage V S) (pool : IsPool storage)
    (callbacks : Callbacks V W) (law : IsComparison callbacks.comparison) (kept : V → V) where
  respond-add_lem :
      (fuel : ℕ) (v : V) (s : RbTree V S) (w : W) (o : ℕ × RbTree V S × W)
      → add storage callbacks fuel v (s, w) ≡ some o
      → respond storage callbacks fuel (add_value v) (s, w) ≡ some (code o.0, o.1, o.2)
  unfolding respond
  respond-add_lem fuel v s w o e = rw e refl

  -- the values of other nodes are as before
  map-frame :
      (f g : Ptr → V) (p : Ptr) (xs : List Ptr)
      → occurs p xs ≡ 0
      → ((b : Ptr) → b ≢ p → g b ≡ f b)
      → map g xs ≡ map f xs
  map-frame f g p [] n e = refl
  map-frame f g p (x ∷ xs) n e =
      let apart : x ≢ p = λ q. absurd (omega (arith, n, one_if-eq p x (sym q))) in
      let rest = map-frame f g p xs (omega (arith, n)) e in
      ap (λ u. u ∷ map g xs) (e x apart) ∙ ap (λ us. f x ∷ us) rest

  fresh-count :
      (d r : Bool) (s : RbTree V S) (xs : List V)
      (h : Holds storage pool callbacks law kept d r s xs)
      → count (storage.malloc s.nodes).0 h.shape ≡ 0
  fresh-count d r s xs h = elim (zero-cases (count (storage.malloc s.nodes).0 h.shape)) [
    | inl e ↦ e
    | inr n ↦ absurd (pool.malloc_fresh s.nodes (h.owned (storage.malloc s.nodes).0 n))
  ]

  live-added :
      (s : RbTree V S) (t t' : Shape) (ys zs : List Ptr)
      → ys ++ zs ≡ inorder t
      → inorder t' ≡ ys ++ (storage.malloc s.nodes).0 ∷ zs
      → ((b : Ptr) → count b t ≢ 0 → pool.live s.nodes b)
      → (b : Ptr) → count b t' ≢ 0
      → pool.live (storage.malloc s.nodes).1 b
  live-added s t t' ys zs split order owned b m =
      let p = (storage.malloc s.nodes).0 in
      let total : count b t' ≡ occurs b ys + (one_if (b == p) + occurs b zs) =
        sym (occurs-inorder b t') ∙ ap (occurs b) order ∙ occurs-append b ys (p ∷ zs) in
      let old : count b t ≡ occurs b ys + occurs b zs =
        sym (occurs-inorder b t) ∙ ap (occurs b) (sym split) ∙ occurs-append b ys zs in
      elim (zero-cases (count b t)) [
        | inl e ↦
            subst (pool.live (storage.malloc s.nodes).1)
              (sym (one_if-ne b p (λ q. m (omega (arith, total, old, e, q)))))
              (pool.malloc_live s.nodes)
        | inr n ↦ pool.malloc_keeps s.nodes b (owned b n)
      ]

  Added-Performed :
      (d r : Bool) (v : V) (s : RbTree V S) (w : W) (xs : List V)
      (h : Holds storage pool callbacks law kept d r s xs) (o : ℕ × RbTree V S × W)
      → Added storage callbacks law s h.shape
          (storage.malloc s.nodes).0
          (callbacks.retain v w).0
          (stored storage
            (record s { nodes = (storage.malloc s.nodes).1 })
            (callbacks.retain v w).0)
          (callbacks.retain v w).1
          o
      → Performed storage pool callbacks law kept d r xs w (add_value v) (code o.0, o.1, o.2)
  Added-Performed d r v s w xs h o
        (refused {b} {ys} {zs} g at q tree others options nodes c state) =
      let p = (storage.malloc s.nodes).0 in
      let same_kept : stored storage (record s { nodes = (storage.malloc s.nodes).1 })
            (callbacks.retain v w).0
          ≡ kept (callbacks.retain v w).0 =
        stored-same storage s (record s { nodes = (storage.malloc s.nodes).1 })
          (callbacks.retain v w).0 refl (pool.malloc_size s.nodes)
        ∙ h.keeps (callbacks.retain v w).0 in
      let fresh = fresh-count d r s xs h in
      let same =
        map-frame (values s) (values o.1) p (inorder h.shape) (occurs-inorder p h.shape ∙ fresh)
          others in
      record {
        contents = xs;
        holds = record {
          shape = h.shape;
          tree = tree;
          red_black = h.red_black;
          sorted =
              Sorted-frame callbacks.comparison (values s) (values o.1) (inorder h.shape)
                (λ b m.
                  others b
                    (λ e. m (occurs-inorder b h.shape ∙ ap (λ q. count q h.shape) e ∙ fresh)))
                h.sorted;
          listed = same ∙ h.listed;
          owned = λ b m.
              subst (λ n. pool.live n b) (sym nodes)
                (pool.free_keeps _ p b (λ e. m (ap (λ q. count q h.shape) e ∙ fresh))
                  (pool.malloc_keeps s.nodes b (h.owned b m)));
          keeps = λ u.
              stored-same storage s o.1 u options
                (ap storage.element_size nodes ∙ pool.free_size _ p ∙ pool.malloc_size s.nodes)
              ∙ h.keeps u;
          dirty_flags = has_option-options use_dirty o.1 s options ∙ h.dirty_flags;
          duplicates = has_option-options allow_duplicates o.1 s options ∙ h.duplicates;
        };
        step =
            rw (c, state)
              (reject v (values o.1 b) (map (values o.1) ys) (map (values o.1) zs)
                (sym h.duplicates ∙ g) (Position-values o.1 h.shape b ys zs xs at (same ∙ h.listed))
                (ap (λ u. callbacks.comparison u (values o.1 b)) (sym same_kept) ∙ q));
      }
  Added-Performed d r v s w xs h o
        (added t' ys zs split tree order rb sorted low high own others options nodes c state) =
      let p = (storage.malloc s.nodes).0 in
      let same_kept : stored storage (record s { nodes = (storage.malloc s.nodes).1 })
            (callbacks.retain v w).0
          ≡ kept (callbacks.retain v w).0 =
        stored-same storage s (record s { nodes = (storage.malloc s.nodes).1 })
          (callbacks.retain v w).0 refl (pool.malloc_size s.nodes)
        ∙ h.keeps (callbacks.retain v w).0 in
      let f = values s in
      let g = values o.1 in
      let none_there : occurs p ys + occurs p zs ≡ 0 =
        sym (occurs-append p ys zs)
        ∙ ap (occurs p) split
        ∙ occurs-inorder p h.shape
        ∙ fresh-count d r s xs h in
      let same_ys = map-frame f g p ys (omega (arith, none_there)) others in
      let same_zs = map-frame f g p zs (omega (arith, none_there)) others in
      record {
        contents = map g ys ++ kept (callbacks.retain v w).0 ∷ map g zs;
        holds = record {
          shape = t';
          tree = tree;
          red_black = rb;
          sorted = subst (Sorted callbacks.comparison g) (sym order) sorted;
          listed =
              ap (map g) order
              ∙ map-append g ys (p ∷ zs)
              ∙ ap (λ u. map g ys ++ u ∷ map g zs) (own ∙ same_kept);
          owned = λ b m.
              subst (λ n. pool.live n b) (sym nodes)
                (live-added s h.shape t' ys zs split order h.owned b m);
          keeps = λ u.
              stored-same storage s o.1 u options
                (ap storage.element_size nodes ∙ pool.malloc_size s.nodes)
              ∙ h.keeps u;
          dirty_flags = has_option-options use_dirty o.1 s options ∙ h.dirty_flags;
          duplicates = has_option-options allow_duplicates o.1 s options ∙ h.duplicates;
        };
        step =
            rw (c, state)
              (accept v (map g ys) (map g zs)
                (sym h.listed
                  ∙ ap (map f) (sym split)
                  ∙ map-append f ys zs
                  ∙ ap (λ us. us ++ map f zs) (sym same_ys)
                  ∙ ap (λ us. map g ys ++ us) (sym same_zs))
                (Low-map callbacks.comparison (kept (callbacks.retain v w).0) g d ys (
                  subst (λ d. All (Low callbacks.comparison g d (kept (callbacks.retain v w).0)) ys)
                    h.duplicates
                    (subst
                      (λ u. All (Low callbacks.comparison g (has_option allow_duplicates s) u) ys)
                      same_kept low)))
                (All-map (High callbacks.comparison (λ u. u) (kept (callbacks.retain v w).0)) g zs
                  (subst (λ u. All (High callbacks.comparison g u) zs) same_kept high)));
      }

  pub respond-add :
      (fuel : ℕ) (d r : Bool) (v : V) (s : RbTree V S) (w : W) (xs : List V)
      → (h : Holds storage pool callbacks law kept d r s xs) → size h.shape + 1 < fuel
      → Returns
          (Answered storage pool callbacks law kept d r xs w (add_value v))
          (respond storage callbacks fuel (add_value v) (s, w))
  respond-add fuel d r v s w xs h f =
      let (o, e, t) = Returns-some (
        add-Told storage callbacks law fuel v s w h.shape r h.tree h.red_black h.sorted f
          h.dirty_flags (pool.malloc_ne_nil s.nodes) (fresh-count d r s xs h)) in
      rw (respond-add_lem fuel v s w o e, t.code)
        (returns (
          Performed-Answered storage pool callbacks law kept d r xs w (add_value v)
            (code t.before.0) t.before.1 o.1 t.before.2 o.2
            (Added-Performed d r v s w xs h t.before t.holds) t.links t.tells))
