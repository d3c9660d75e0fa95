-- ===== src/Map/Reports.antt =====
-- What the walk over the dirty nodes adds to an operation of src/mulle-rbtree.c.
use mulle_rbtree.Base.{some, ℕ, ◌<◌, Bool, true, false, ◌≡◌, refl, arith}
use mulle_rbtree.RbTree.{RbTree}
use mulle_rbtree.RbTree.Marks.{SameLinks}
use mulle_rbtree.RbTree.Rest.{Returns-some}
use mulle_rbtree.RbTree.Dirty.{walk_dirty}
use mulle_rbtree.RbTree.Dirty.Report.{Notified, Reported, walk_dirty-Reported}
use mulle_rbtree.Map.{Callbacks, walk_dirty_values}
use mulle_rbtree.Shape.{Shape, size}
use mulle_rbtree.Shape.Zipper.{IsTree}

module _ {V W : Type 0} (callbacks : Callbacks V W) where
  -- With reports the dirty callback ran some number of times, without them nothing happened.
  abbrev pub Tells : Bool → W → W → Type 0
  Tells true w w' = Notified callbacks.dirty w w'
  Tells false w w' = w' ≡ w

module _ {V S W : Type 0} (callbacks : Callbacks V W) (fuel : ℕ) where
  -- The walk over the dirty nodes leads from one tree and state to the other, or there is no walk.
  abbrev pub Walks : Bool → RbTree V S × W → RbTree V S × W → Type 0
  Walks true p o = walk_dirty callbacks.dirty fuel p ≡ some o
  Walks false p o = o ≡ p

  -- `P` held before the walk over the dirty nodes, which changed no link. `R` says after which results
  -- there is a walk.
  pub record Told (R : ℕ → Bool) (P : ℕ × RbTree V S × W → Type 0) (o : ℕ × RbTree V S × W)
      : Type 0 where
    pub before : ℕ × RbTree V S × W
    pub holds : P before
    pub code : o.0 ≡ before.0
    pub walks : Walks (R before.0) (before.1, before.2) (o.1, o.2)
    pub links : SameLinks before.1 o.1
    pub tells : Tells callbacks (R before.0) before.2 o.2

  pub quiet :
      (P : ℕ × RbTree V S × W → Type 0) (o : ℕ × RbTree V S × W) → P o → Told (λ _. false) P o
  quiet P o h = record {
    before = o;
    holds = h;
    code = refl;
    walks = refl;
    links = ground arith;
    tells = refl;
  }

  pub walk_dirty_values-Reported :
      (s : RbTree V S) (t : Shape) (w : W)
      → IsTree s t
      → size t < fuel
      → (o : RbTree V S × W) × (walk_dirty_values callbacks fuel (s, w) ≡ some o)
        × (walk_dirty callbacks.dirty fuel (s, w) ≡ some o)
        × Reported callbacks.dirty s w o
  unfolding walk_dirty_values
  walk_dirty_values-Reported s t w h f =
      let (o, e, r) = Returns-some (walk_dirty-Reported callbacks.dirty fuel s t w h f) in
      (o, e, e, r)
