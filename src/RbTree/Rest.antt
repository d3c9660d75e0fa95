-- ===== src/RbTree/Rest.antt =====
-- What the balancing never writes: the payloads, the node pool and the options.
use mulle_rbtree.Base.{ℕ, Option, some, ◌≡◌, refl, arith, ◌>>=◌}
use mulle_rbtree.Storage.{Ptr}
use mulle_rbtree.RbTree.{RbTree, set_parent, set_left, set_right, set_node_marked}
use mulle_rbtree.RbTree.Rotate.{
  left_rotate_node, right_rotate_node, left_rotate_onto, right_rotate_onto, node_set_left,
  node_set_right, node_reparent,
}
use mulle_rbtree.RbTree.Marks.{
  set_node_marked-SameLinks, mark_rotated-SameLinks, node_set_left-payload, node_set_left-nodes,
  node_set_left-options, node_set_right-payload, node_set_right-nodes, node_set_right-options,
}
use mulle_rbtree.RbTree.Reparent.{node_reparent-payload, node_reparent-nodes, node_reparent-options}

-- a loop came to its end, with such a result
pub data Returns {A : Type 0} (P : A → Type 0) : Option A → Type 0 where
  returns : {a : A} → P a → Returns P (some a)

module _ {V S : Type 0} where
  pub record SameRest (s s' : RbTree V S) : Type 0 where
    pub payload : s'.payload ≡ s.payload
    pub nodes : s'.nodes ≡ s.nodes
    pub options : s'.options ≡ s.options

  pub SameRest-refl : (s : RbTree V S) → SameRest s s
  SameRest-refl s = ground arith

  pub SameRest-trans : {s t u : RbTree V S} → SameRest s t → SameRest t u → SameRest s u
  SameRest-trans h g = ground arith

module _ {V S : Type 0} where
  marked-SameRest : (q : Ptr) (s : RbTree V S) → SameRest s (set_node_marked q s)
  marked-SameRest q s = ground (arith, set_node_marked-SameLinks q s)

module _ {V S : Type 0} (fuel : ℕ) (p : Ptr) where
  left_rotate_onto-SameRest :
      (t m : Ptr) (s : RbTree V S) → SameRest s (left_rotate_onto fuel p t m s)
  unfolding left_rotate_onto
  left_rotate_onto-SameRest t m s =
      let s₁ = node_set_right p m s in
      let s₂ = set_node_marked (s₁.left t) s₁ in
      let s₃ = node_reparent p t s₂ in
      ground (
        arith,
        mark_rotated-SameLinks fuel p (set_parent p t (set_left t p s₃)),
        node_reparent-payload p t _ _ s₂ refl refl,
        node_reparent-nodes p t _ _ s₂ refl refl,
        node_reparent-options p t _ _ s₂ refl refl,
        set_node_marked-SameLinks (s₁.left t) s₁,
        node_set_right-payload p m s,
        node_set_right-nodes p m s,
        node_set_right-options p m s,
      )

  right_rotate_onto-SameRest :
      (t m : Ptr) (s : RbTree V S) → SameRest s (right_rotate_onto fuel p t m s)
  unfolding right_rotate_onto
  right_rotate_onto-SameRest t m s =
      let s₁ = node_set_left p m s in
      let s₂ = set_node_marked (s₁.right t) s₁ in
      let s₃ = node_reparent p t s₂ in
      ground (
        arith,
        mark_rotated-SameLinks fuel p (set_parent p t (set_right t p s₃)),
        node_reparent-payload p t _ _ s₂ refl refl,
        node_reparent-nodes p t _ _ s₂ refl refl,
        node_reparent-options p t _ _ s₂ refl refl,
        set_node_marked-SameLinks (s₁.right t) s₁,
        node_set_left-payload p m s,
        node_set_left-nodes p m s,
        node_set_left-options p m s,
      )

  pub left_rotate-SameRest : (s : RbTree V S) → SameRest s (left_rotate_node fuel p s)
  unfolding left_rotate_node
  left_rotate-SameRest s =
      SameRest-trans (marked-SameRest p s)
        (SameRest-trans (marked-SameRest _ (set_node_marked p s)) (left_rotate_onto-SameRest _ _ _))

  pub right_rotate-SameRest : (s : RbTree V S) → SameRest s (right_rotate_node fuel p s)
  unfolding right_rotate_node
  right_rotate-SameRest s =
      SameRest-trans (marked-SameRest p s) (
        SameRest-trans (marked-SameRest _ (set_node_marked p s)) (right_rotate_onto-SameRest _ _ _))

pub Returns-mono :
    {A : Type 0} {P Q : A → Type 0} {o : Option A}
    → Returns P o
    → ((a : A) → P a → Q a)
    → Returns Q o
Returns-mono (returns p) f = returns (f _ p)

pub Returns-bind :
    {A B : Type 0} {P : A → Type 0} {Q : B → Type 0} {o : Option A} {f : A → Option B}
    → Returns P o
    → ((a : A) → P a → Returns Q (f a))
    → Returns Q (o >>= f)
Returns-bind (returns p) next = next _ p

pub Returns-some :
    {A : Type 0} {P : A → Type 0} {o : Option A} → Returns P o → (a : A) × (o ≡ some a) × P a
Returns-some (returns {a} p) = (a, refl, p)
