-- ===== src/RbTree/Dirty/Walk.antt =====
-- `_mulle__rbtree_walk_dirty` (src/mulle--rbtree.c) on the shape.
use mulle_rbtree.Base.{
  ℕ, zero, suc, ◌≤◌, ◌<◌, Bool, true, false, not, ◌≡◌, ◌≢◌, refl, sym, ◌∙◌, ap, Option, some, ◌==◌,
  if◌then◌else◌, inl, inr, Bool-cases, arith,
}
use mulle_rbtree.Storage.{Ptr, nil}
use mulle_rbtree.RbTree.{RbTree, update, clear_dirty, get_node_value}
use mulle_rbtree.RbTree.Marks.{SameLinks}
use mulle_rbtree.RbTree.Rest.{Returns, returns, Returns-some}
use mulle_rbtree.RbTree.Dirty.{walk_dirty_from, walk_dirty}
use mulle_rbtree.Shape.{Shape, leaf, node, root_of, count, size}
use mulle_rbtree.Shape.Rep.{Rep, Rep-frame}
use mulle_rbtree.Shape.Refocus.{one_if_self, one_if-eq}
use mulle_rbtree.Shape.Zipper.{IsTree}
use mulle_rbtree.RbTree.Dirty.Settled.{
  Settled-Clean, Settled-children, Clean, Settled, Clean-frame, Settled-frame,
  get_node_value-SameLinks,
}

module _ {V S U : Type 0} (callback : Option V → Option V → Option V → U → U) where
  -- the reports on the dirty nodes, those on the children first
  abbrev pub report : RbTree V S → Shape → U → U
  report s leaf u = u
  report s (node l c a r) u =
      if s.dirty a
      then callback (get_node_value a s) (get_node_value (root_of l) s)
          (get_node_value (root_of r) s) (report s r (report s l u))
      else u

  pub record Walked (s : RbTree V S) (t : Shape) (u : U) (o : RbTree V S × U) : Type 0 where
    pub links : SameLinks s o.0
    pub clean : Clean o.0 t
    pub elsewhere : (b : Ptr) → count b t ≡ 0 → o.0.dirty b ≡ s.dirty b
    pub reported : o.1 ≡ report s t u

  report-frame :
      (s s' : RbTree V S) (t : Shape) (u : U)
      → SameLinks s s'
      → ((b : Ptr) → count b t ≢ 0 → s'.dirty b ≡ s.dirty b)
      → report s' t u ≡ report s t u
  report-frame s s' leaf u e d = refl
  report-frame s s' (node l c a r) u e d =
      rw
        (
          d a (omega (arith, one_if_self a)),
          get_node_value-SameLinks a s s' e,
          get_node_value-SameLinks (root_of l) s s' e,
          get_node_value-SameLinks (root_of r) s s' e,
          report-frame s s' l u e (λ b m. d b (omega arith)),
          report-frame s s' r (report s l u) e (λ b m. d b (omega arith)),
        )
        refl

  unwalked :
      (s : RbTree V S) (t : Shape) (u : U) → Clean s t → report s t u ≡ u → Walked s t u (s, u)
  unwalked s t u h e = record {
    links = ground arith;
    clean = h;
    elsewhere = λ b m. refl;
    reported = sym e;
  }

  pub walk_dirty_from-clean :
      (fuel : ℕ) (a : Ptr) (s : RbTree V S) (u : U)
      → s.dirty a ≡ false
      → walk_dirty_from callback (suc fuel) a (s, u) ≡ some (s, u)
  unfolding walk_dirty_from
  walk_dirty_from-clean fuel a s u e = rw e refl

  -- a child that is not nil
  abbrev pub child : ℕ → Ptr → RbTree V S × U → Option (RbTree V S × U)
  child fuel p o = if not (p == nil) then walk_dirty_from callback fuel p o else some o

  pub walk_dirty_from-dirty :
      (fuel : ℕ) (a x y : Ptr) (s s₁ s₂ : RbTree V S) (u u₁ u₂ : U)
      → s.dirty a ≡ true
      → s.left a ≡ x
      → child fuel x (s, u) ≡ some (s₁, u₁)
      → s₁.right a ≡ y
      → child fuel y (s₁, u₁) ≡ some (s₂, u₂)
      → s₂.left a ≡ x
      → s₂.right a ≡ y
      → walk_dirty_from callback (suc fuel) a (s, u)
        ≡ some (
          clear_dirty a s₂,
          callback (get_node_value a s₂) (get_node_value x s₂) (get_node_value y s₂) u₂,
        )
  unfolding walk_dirty_from
  walk_dirty_from-dirty fuel a x y s s₁ s₂ u u₁ u₂ e l f r g l₂ r₂ = rw (e, l, f, r, g, l₂, r₂) refl

  SameLinks-trans : {s t u : RbTree V S} → SameLinks s t → SameLinks t u → SameLinks s u
  SameLinks-trans h g = ground arith

  pub cleaned_links :
      (a : Ptr) (s s' : RbTree V S) → SameLinks s s' → SameLinks s (clear_dirty a s')
  cleaned_links a s s' e = ground arith

  cleaned : (a : Ptr) (s : RbTree V S) → (clear_dirty a s).dirty a ≡ false
  unfolding update
  cleaned a s = ground arith

  cleaned-off : (a b : Ptr) (s : RbTree V S) → b ≢ a → (clear_dirty a s).dirty b ≡ s.dirty b
  unfolding update
  cleaned-off a b s n = ground arith

  -- after both children
  finish :
      (s s₁ s₂ : RbTree V S) (l r : Shape) (c : Bool) (a : Ptr) (u u₁ u₂ : U)
      → ((b : Ptr) → count b (node l c a r) ≤ 1)
      → s.dirty a ≡ true
      → Walked s l u (s₁, u₁)
      → Walked s₁ r u₁ (s₂, u₂)
      → Walked s (node l c a r) u (
        clear_dirty a s₂,
        callback
            (get_node_value a s₂)
            (get_node_value (root_of l) s₂)
            (get_node_value (root_of r) s₂)
            u₂,
      )
  finish s s₁ s₂ l r c a u u₁ u₂ once e lower upper =
      let links = SameLinks-trans lower.links upper.links in
      record {
        links = cleaned_links a s s₂ links;
        clean = (
          cleaned a s₂,
          Clean-frame s₁ (clear_dirty a s₂) l
              (λ b m.
                cleaned-off a b s₂ (λ q. m (rw q (omega (arith, once a, one_if_self a))))
                ∙ upper.elsewhere b (omega (arith, once b)))
              lower.clean,
          Clean-frame s₂ (clear_dirty a s₂) r
              (λ b m. cleaned-off a b s₂ (λ q. m (rw q (omega (arith, once a, one_if_self a)))))
              upper.clean,
        );
        elsewhere = λ b m.
            cleaned-off a b s₂ (λ q. absurd (omega (arith, m, one_if-eq b a q)))
            ∙ upper.elsewhere b (omega (arith, m))
            ∙ lower.elsewhere b (omega (arith, m));
        reported =
            rw
              (
                e,
                get_node_value-SameLinks a s s₂ links,
                get_node_value-SameLinks (root_of l) s s₂ links,
                get_node_value-SameLinks (root_of r) s s₂ links,
                upper.reported,
                lower.reported,
                report-frame s s₁ r (report s l u) lower.links
                    (λ b m. lower.elsewhere b (omega (arith, once b))),
              )
              refl;
      }

  pub child-node :
      (fuel : ℕ) (a : Ptr) (o : RbTree V S × U)
      → a ≢ nil
      → child fuel a o ≡ walk_dirty_from callback fuel a o
  child-node fuel a o n = ground arith

  child-Walked :
      (fuel : ℕ) (s : RbTree V S) (q : Ptr) (t : Shape) (u : U)
      → Rep s q t
      → ((b : Ptr) → count b t ≤ 1)
      → Settled s t
      → size t < fuel
      → Returns (Walked s t u) (child fuel (root_of t) (s, u))
  child-Walked fuel s q leaf u h once d f = returns (unwalked s leaf u tt refl)
  child-Walked zero s q (node l c a r) u h once d f = absurd (omega arith)
  child-Walked (suc fuel) s q (node l c a r) u h once d f = elim (Bool-cases (s.dirty a)) [
    | inr e ↦
        rw (child-node (suc fuel) a (s, u) h.0, walk_dirty_from-clean fuel a s u e)
          (returns (unwalked s (node l c a r) u (Settled-Clean s l r c a d e) (ground (arith, e))))
    | inl e ↦
        let parts = Settled-children s l r c a d in
        let (o₁, f₁, w₁) =
          Returns-some
            (child-Walked fuel s a l u h.5 (λ b. omega (arith, once b)) parts.0 (omega arith)) in
        let (o₂, f₂, w₂) = Returns-some (
          child-Walked fuel o₁.0 a r o₁.1
            (Rep-frame s o₁.0 a r h.6 (λ b m. ground (arith, w₁.links)))
            (λ b. omega (arith, once b))
            (Settled-frame s o₁.0 r (λ b m. w₁.elsewhere b (omega (arith, once b))) parts.1)
            (omega arith)) in
        rw
          (
            child-node (suc fuel) a (s, u) h.0,
            walk_dirty_from-dirty fuel a (root_of l) (root_of r) s o₁.0 o₂.0 u o₁.1 o₂.1 e h.2 f₁
                (ap (λ g. g a) w₁.links.right ∙ h.3) f₂
                (ap (λ g. g a) w₂.links.left ∙ ap (λ g. g a) w₁.links.left ∙ h.2)
                (ap (λ g. g a) w₂.links.right ∙ ap (λ g. g a) w₁.links.right ∙ h.3),
          )
          (returns (finish s o₁.0 o₂.0 l r c a u o₁.1 o₂.1 once e w₁ w₂))
  ]

  pub walk_dirty-root :
      (fuel : ℕ) (a : Ptr) (s : RbTree V S) (u : U)
      → s.root ≡ a
      → walk_dirty callback fuel (s, u) ≡ walk_dirty_from callback fuel a (s, u)
  unfolding walk_dirty
  walk_dirty-root fuel a s u e = rw e refl

  -- The walk over a tree whose dirty nodes stand below dirty nodes only, and whose nil node is
  -- clean, comes to its end with more fuel than nodes. It reports each dirty node once, after its
  -- children, with the values of the node and of its children, and leaves the tree clean; the
  -- links, the colours, the payloads and all other flags of dirt are as before.
  pub walk_dirty-Walked :
      (fuel : ℕ) (s : RbTree V S) (t : Shape) (u : U)
      → IsTree s t
      → Settled s t
      → s.dirty nil ≡ false
      → size t < fuel
      → Returns (Walked s t u) (walk_dirty callback fuel (s, u))
  walk_dirty-Walked zero s t u h d n f = absurd (omega arith)
  walk_dirty-Walked (suc fuel) s leaf u h d n f =
      rw (walk_dirty-root (suc fuel) nil s u h.path, walk_dirty_from-clean fuel nil s u n)
        (returns (unwalked s leaf u tt refl))
  walk_dirty-Walked (suc fuel) s (node l c a r) u h d n f =
      rw (walk_dirty-root (suc fuel) a s u h.path, sym (child-node (suc fuel) a (s, u) h.focus.0))
        (child-Walked (suc fuel) s nil (node l c a r) u h.focus (λ b. omega (arith, h.distinct b)) d
          f)
