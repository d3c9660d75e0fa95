-- ===== src/RbTree/Dirty/Settled.antt =====
-- Trees whose dirty nodes stand at the top, as the marking leaves them (src/mulle--rbtree.c).
use mulle_rbtree.Base.{Bool, true, false, ◌≡◌, ◌≢◌, refl, ◌∙◌, arith}
use mulle_rbtree.Storage.{Ptr}
use mulle_rbtree.RbTree.{RbTree, has_option, get_payload, get_extra, node_value, get_node_value}
use mulle_rbtree.RbTree.Marks.{SameLinks}
use mulle_rbtree.Shape.{Shape, leaf, node, count}
use mulle_rbtree.Shape.Refocus.{one_if_self}

module _ {V S : Type 0} where
  abbrev pub Clean : RbTree V S → Shape → Type 0
  Clean s leaf = Unit {0}
  Clean s (node l c a r) = (s.dirty a ≡ false) × Clean s l × Clean s r

  -- Dirty nodes stand below dirty nodes only: a part is all clean, or it has a dirty node on top.
  pub data Settled (s : RbTree V S) : Shape → Type 0 where
    clean : {t : Shape} → Clean s t → Settled s t
    stained :
        {l r : Shape} {c : Bool} {a : Ptr}
        → s.dirty a ≡ true
        → Settled s l
        → Settled s r
        → Settled s (node l c a r)

  pub Clean-frame :
      (s s' : RbTree V S) (t : Shape)
      → ((b : Ptr) → count b t ≢ 0 → s'.dirty b ≡ s.dirty b)
      → Clean s t
      → Clean s' t
  Clean-frame s s' leaf e h = tt
  Clean-frame s s' (node l c a r) e h = (
    e a (omega (arith, one_if_self a)) ∙ h.0,
    Clean-frame s s' l (λ b m. e b (omega arith)) h.1,
    Clean-frame s s' r (λ b m. e b (omega arith)) h.2,
  )

  pub Settled-frame :
      (s s' : RbTree V S) (t : Shape)
      → ((b : Ptr) → count b t ≢ 0 → s'.dirty b ≡ s.dirty b)
      → Settled s t
      → Settled s' t
  Settled-frame s s' t e (clean h) = clean (Clean-frame s s' t e h)
  Settled-frame s s' (node l c a r) e (stained d hl hr) =
      stained (e a (omega (arith, one_if_self a)) ∙ d)
        (Settled-frame s s' l (λ b m. e b (omega arith)) hl)
        (Settled-frame s s' r (λ b m. e b (omega arith)) hr)

  pub get_node_value-SameLinks :
      (p : Ptr) (s s' : RbTree V S) → SameLinks s s' → get_node_value p s' ≡ get_node_value p s
  unfolding get_node_value node_value get_payload get_extra has_option
  get_node_value-SameLinks p s s' e = rw (e.payload, e.options) refl

  pub Settled-Clean :
      (s : RbTree V S) (l r : Shape) (c : Bool) (a : Ptr)
      → Settled s (node l c a r)
      → s.dirty a ≡ false
      → Clean s (node l c a r)
  Settled-Clean s l r c a (clean h) e = h
  Settled-Clean s l r c a (stained d hl hr) e = absurd (ground (arith, d, e))

  pub Settled-children :
      (s : RbTree V S) (l r : Shape) (c : Bool) (a : Ptr)
      → Settled s (node l c a r)
      → Settled s l × Settled s r
  Settled-children s l r c a (clean h) = (clean h.1, clean h.2)
  Settled-children s l r c a (stained d hl hr) = (hl, hr)
