-- ===== src/RbTree/Remove/Passages.antt =====
-- What each passage does that puts the successor in the place of the removed node
-- (`_mulle__rbtree_remove_node` in src/mulle--rbtree.c).
use mulle_rbtree.Base.{◌≡◌, ◌≢◌, ◌⊎◌, inl, inr, refl, sym, ◌∙◌, arith, ◌==◌, if◌then◌else◌}
use mulle_rbtree.Storage.{Ptr, nil}
use mulle_rbtree.RbTree.{RbTree, update, set_node_marked, set_color}
use mulle_rbtree.RbTree.Rest.{SameRest, SameRest-trans}
use mulle_rbtree.RbTree.Remove.{substitute, adopt_children, take_place, reparent_children}

pub at_self : {A : Type 0} (a : Ptr) (u v : A) → (if a == a then u else v) ≡ u
at_self a u v = ground arith

module _ {V S : Type 0} where
  -- `y` has the place of `p` below `q`, above `l` and `r`
  pub record Substituted (s : RbTree V S) (p y l r q : Ptr) (s' : RbTree V S) : Type 0 where
    pub root : s'.root ≡ (if q == nil then y else s.root)
    pub parent :
        (b : Ptr)
        → s'.parent b
          ≡ (if b == l then y else if b == r then y else if b == y then q else s.parent b)
    pub left :
        (b : Ptr)
        → s'.left b ≡ (
            if b == y
            then l
            else if q == nil
            then s.left b
            else if s.left q == p
            then (if b == q then y else s.left b)
            else s.left b)
    pub right :
        (b : Ptr)
        → s'.right b ≡ (
            if b == y
            then r
            else if q == nil
            then s.right b
            else if s.left q == p
            then s.right b
            else (if b == q then y else s.right b))
    pub red : (b : Ptr) → s'.red b ≡ (if b == y then s.red p else s.red b)

  -- the children that `y` gets: those of the removed node, or only its left one where `y` was its
  -- right child itself
  abbrev pub Children : RbTree V S → (y x orig_right r : Ptr) → Type 0
  Children s y x orig_right r =
      ((y ≢ orig_right) × (orig_right ≡ r)) ⊎ ((y ≡ orig_right) × (x ≡ r) × (s.right y ≡ r))

  -- The parent of `r` is open: it is set last.
  record Adopted (s : RbTree V S) (p y l r : Ptr) (s' : RbTree V S) : Type 0 where
    root : s'.root ≡ s.root
    parent : (b : Ptr) → b ≢ r → s'.parent b ≡ (if b == y then s.parent p else s.parent b)
    pub left : (b : Ptr) → s'.left b ≡ (if b == y then l else s.left b)
    pub right : (b : Ptr) → s'.right b ≡ (if b == y then r else s.right b)
    red : (b : Ptr) → s'.red b ≡ s.red b

  adopt_children-Adopted :
      (p y x l o r : Ptr) (s : RbTree V S)
      → Children s y x o r
      → Adopted s p y l r (adopt_children p y x l o s)
  unfolding adopt_children update set_node_marked
  adopt_children-Adopted p y x l o r s (inl (off, e)) = record {
    root = ground arith;
    parent = λ b n. ground arith;
    left = λ b. ground arith;
    right = λ b. ground arith;
    red = λ b. ground arith;
  }
  adopt_children-Adopted p y x l o r s (inr (here, e, f)) = record {
    root = ground arith;
    parent = λ b n. ground arith;
    left = λ b. ground arith;
    right = λ b. ground arith;
    red = λ b. ground arith;
  }

  record Placed (s : RbTree V S) (p y q : Ptr) (s' : RbTree V S) : Type 0 where
    root : s'.root ≡ (if q == nil then y else s.root)
    parent : (b : Ptr) → s'.parent b ≡ s.parent b
    pub left :
        (b : Ptr)
        → s'.left b ≡ (
            if q == nil
            then s.left b
            else if s.left q == p
            then (if b == q then y else s.left b)
            else s.left b)
    pub right :
        (b : Ptr)
        → s'.right b ≡ (
            if q == nil
            then s.right b
            else if s.left q == p
            then s.right b
            else (if b == q then y else s.right b))
    red : (b : Ptr) → s'.red b ≡ s.red b

  take_place-Placed :
      (p y q : Ptr) (s : RbTree V S) → s.parent y ≡ q → Placed s p y q (take_place p y s)
  unfolding take_place update set_node_marked
  take_place-Placed p y q s e = record {
    root = ground arith;
    parent = λ b. ground arith;
    left = λ b. ground arith;
    right = λ b. ground arith;
    red = λ b. ground arith;
  }

  Placed-left : {s s' : RbTree V S} {p y q : Ptr} → y ≢ q → Placed s p y q s' → s'.left y ≡ s.left y
  Placed-left {y} n t = ground (arith, t.left y)

  Placed-right :
      {s s' : RbTree V S} {p y q : Ptr} → y ≢ q → Placed s p y q s' → s'.right y ≡ s.right y
  Placed-right {y} n t = ground (arith, t.right y)

  record Reparented (s : RbTree V S) (y l r : Ptr) (s' : RbTree V S) : Type 0 where
    root : s'.root ≡ s.root
    parent : (b : Ptr) → s'.parent b ≡ (if b == l then y else if b == r then y else s.parent b)
    pub left : (b : Ptr) → s'.left b ≡ s.left b
    pub right : (b : Ptr) → s'.right b ≡ s.right b
    red : (b : Ptr) → s'.red b ≡ s.red b

  reparent_children-Reparented :
      (y l r : Ptr) (s : RbTree V S)
      → s.left y ≡ l
      → s.right y ≡ r
      → Reparented s y l r (reparent_children y s)
  unfolding reparent_children update set_node_marked
  reparent_children-Reparented y l r s el er = record {
    root = ground arith;
    parent = λ b. ground arith;
    left = λ b. ground arith;
    right = λ b. ground arith;
    red = λ b. ground arith;
  }

  adopt_children-SameRest :
      (p y x l o : Ptr) (s : RbTree V S) → SameRest s (adopt_children p y x l o s)
  unfolding adopt_children set_node_marked
  adopt_children-SameRest p y x l o s = ground arith

  take_place-SameRest : (p y : Ptr) (s : RbTree V S) → SameRest s (take_place p y s)
  unfolding take_place set_node_marked
  take_place-SameRest p y s = ground arith

  reparent_children-SameRest : (y : Ptr) (s : RbTree V S) → SameRest s (reparent_children y s)
  unfolding reparent_children set_node_marked
  reparent_children-SameRest y s = ground arith

  pub substitute-SameRest : (p y x l o : Ptr) (s : RbTree V S) → SameRest s (substitute p y x l o s)
  unfolding substitute
  substitute-SameRest p y x l o s =
      let s₁ = adopt_children p y x l o s in
      let s₂ = set_color y (s₁.red p) s₁ in
      SameRest-trans (adopt_children-SameRest p y x l o s) (
        SameRest-trans (record { payload = refl; nodes = refl; options = refl })
          (SameRest-trans (take_place-SameRest p y s₂)
            (reparent_children-SameRest y (take_place p y s₂))))

  passages-Substituted :
      (p y l r q : Ptr) (s s₁ s₃ s₄ : RbTree V S)
      → s.parent p ≡ q
      → y ≢ q
      → Adopted s p y l r s₁
      → Placed (set_color y (s₁.red p) s₁) p y q s₃
      → Reparented s₃ y l r s₄
      → Substituted s p y l r q s₄
  unfolding update
  passages-Substituted p y l r q s s₁ s₃ s₄ e n a t c = record {
    root = ground (arith, c.root, t.root, a.root);
    parent = λ b. ground (arith, c.parent b, t.parent b, a.parent b);
    left = λ b. ground (arith, c.left b, t.left b, a.left b, a.left q);
    right = λ b. ground (arith, c.right b, t.right b, a.right b, a.left q);
    red = λ b. ground (arith, c.red b, t.red b, a.red b, a.red p);
  }

  pub substitute-Substituted :
      (p y x l o r q : Ptr) (s : RbTree V S)
      → s.parent p ≡ q
      → y ≢ q
      → r ≢ y
      → Children s y x o r
      → Substituted s p y l r q (substitute p y x l o s)
  unfolding substitute update
  substitute-Substituted p y x l o r q s e nq nr h =
      let s₁ = adopt_children p y x l o s in
      let s₂ = set_color y (s₁.red p) s₁ in
      let s₃ = take_place p y s₂ in
      let a = adopt_children-Adopted p y x l o r s h in
      let t =
        take_place-Placed p y q s₂
          (a.parent y (λ z. nr (sym z)) ∙ at_self y (s.parent p) (s.parent y) ∙ e) in
      let c =
        reparent_children-Reparented y l r s₃ (Placed-left nq t ∙ a.left y ∙ at_self y l (s.left y))
          (Placed-right nq t ∙ a.right y ∙ at_self y r (s.right y)) in
      passages-Substituted p y l r q s s₁ s₃ (reparent_children y s₃) e nq a t c
