-- ===== src/RbTree/Fixup.antt =====
-- The two rebalancing loops of src/mulle--rbtree.c. A loop takes fuel and returns `none` when it
-- runs out; each function below its loop is one branch of the body.
pub mod Tests
pub mod Strained
pub mod Quiet
pub mod Turns
pub mod RedRed
pub mod Blacken
pub mod BlackBlack
pub mod Short
pub mod Siblings
pub mod Pulls
pub mod Rounds
pub mod Steps
use mulle_rbtree.Base.{
  ℕ, zero, suc, Bool, true, false, not, ◌&&◌, Option, none, some, ◌==◌, if◌then◌else◌,
}
use mulle_rbtree.Storage.{Ptr}
use mulle_rbtree.RbTree.{RbTree, set_color}
use mulle_rbtree.RbTree.Rotate.{left_rotate_node, right_rotate_node}

module _ {V S : Type 0} where
  abbrev pub get_grandparent : Ptr → RbTree V S → Ptr
  get_grandparent x s = s.parent (s.parent x)

  -- Case 1 of both sides: the uncle `y` is red.
  unfoldable pub recolor : Ptr → Ptr → RbTree V S → RbTree V S
  recolor x y s =
      let s₁ = set_color (s.parent x) false s in
      let s₂ = set_color (get_grandparent x s₁) true s₁ in set_color y false s₂

  -- Case 3, `x` a left child: the parent becomes black, the grandparent red, and is rotated.
  unfoldable pub red_red_right : ℕ → Ptr → RbTree V S → RbTree V S
  red_red_right fuel x s =
      let s₁ = set_color (s.parent x) false s in
      let s₂ = set_color (get_grandparent x s₁) true s₁ in
      right_rotate_node fuel (get_grandparent x s₂) s₂

  unfoldable pub red_red_left : ℕ → Ptr → RbTree V S → RbTree V S
  red_red_left fuel x s =
      let s₁ = set_color (s.parent x) false s in
      let s₂ = set_color (get_grandparent x s₁) true s₁ in
      left_rotate_node fuel (get_grandparent x s₂) s₂

  -- The body of the loop: the `x` and the tree that it leaves.
  unfoldable pub red_red_step : ℕ → Ptr → RbTree V S → Ptr × RbTree V S
  red_red_step fuel x s =
      if s.parent x == s.left (get_grandparent x s)
      then (let y = s.right (get_grandparent x s) in
          if s.red y
          then (get_grandparent x s, recolor x y s)
          else (if x == s.right (s.parent x)
              then (let x' = s.parent x in
                  let s' = left_rotate_node fuel x' s in
                  (get_grandparent x' s', red_red_right fuel x' s'))
              else (get_grandparent x s, red_red_right fuel x s)))
      else (let y = s.left (get_grandparent x s) in
          if s.red y
          then (get_grandparent x s, recolor x y s)
          else (if x == s.left (s.parent x)
              then (let x' = s.parent x in
                  let s' = right_rotate_node fuel x' s in
                  (get_grandparent x' s', red_red_left fuel x' s'))
              else (get_grandparent x s, red_red_left fuel x s)))

  unfoldable pub red_red_loop : ℕ → ℕ → Ptr → RbTree V S → Option (RbTree V S)
  red_red_loop climb zero x s = none
  red_red_loop climb (suc fuel) x s =
      let next = red_red_step climb x s in
      let rest = red_red_loop climb fuel next.0 next.1 in
      if not (x == s.root) && s.red (s.parent x) then rest else some s

  unfoldable pub red_red_fixup : ℕ → Ptr → RbTree V S → Option (RbTree V S)
  red_red_fixup fuel x s = elim (red_red_loop fuel fuel x s) [
    | none ↦ none
    | some s' ↦ some (set_color s'.root false s')
  ]

  -- `x` is a left child; `w` is its sibling, not red.
  unfoldable pub black_black_left : ℕ → Ptr → Ptr → RbTree V S → Ptr × RbTree V S
  black_black_left fuel x w s =
      if not (s.red (s.left w)) && not (s.red (s.right w))
      then (s.parent x, set_color w true s)
      else (let s₁ =
            if not (s.red (s.right w))
            then right_rotate_node fuel w (set_color w true (set_color (s.left w) false s))
            else s in
          let w' = if not (s.red (s.right w)) then s₁.right (s₁.parent x) else w in
          let s₂ = set_color w' (s₁.red (s₁.parent x)) s₁ in
          let s₃ = set_color (s₂.parent x) false s₂ in
          let s₄ = set_color (s₃.right w') false s₃ in
          let s₅ = left_rotate_node fuel (s₄.parent x) s₄ in (s₅.root, s₅))

  unfoldable pub black_black_right : ℕ → Ptr → Ptr → RbTree V S → Ptr × RbTree V S
  black_black_right fuel x w s =
      if not (s.red (s.right w)) && not (s.red (s.left w))
      then (s.parent x, set_color w true s)
      else (let s₁ =
            if not (s.red (s.left w))
            then left_rotate_node fuel w (set_color w true (set_color (s.right w) false s))
            else s in
          let w' = if not (s.red (s.left w)) then s₁.left (s₁.parent x) else w in
          let s₂ = set_color w' (s₁.red (s₁.parent x)) s₁ in
          let s₃ = set_color (s₂.parent x) false s₂ in
          let s₄ = set_color (s₃.left w') false s₃ in
          let s₅ = right_rotate_node fuel (s₄.parent x) s₄ in (s₅.root, s₅))

  unfoldable pub black_black_step : ℕ → Ptr → RbTree V S → Ptr × RbTree V S
  black_black_step fuel x s =
      if x == s.left (s.parent x)
      then (let w = s.right (s.parent x) in
          if s.red w
          then (let s₁ = set_color (s.parent x) true (set_color w false s) in
              let s₂ = left_rotate_node fuel (s₁.parent x) s₁ in
              black_black_left fuel x (s₂.right (s₂.parent x)) s₂)
          else black_black_left fuel x w s)
      else (let w = s.left (s.parent x) in
          if s.red w
          then (let s₁ = set_color (s.parent x) true (set_color w false s) in
              let s₂ = right_rotate_node fuel (s₁.parent x) s₁ in
              black_black_right fuel x (s₂.left (s₂.parent x)) s₂)
          else black_black_right fuel x w s)

  unfoldable pub black_black_loop : ℕ → ℕ → Ptr → RbTree V S → Option (Ptr × RbTree V S)
  black_black_loop climb zero x s = none
  black_black_loop climb (suc fuel) x s =
      let next = black_black_step climb x s in
      let rest = black_black_loop climb fuel next.0 next.1 in
      if not (x == s.root) && not (s.red x) then rest else some (x, s)

  unfoldable pub black_black_fixup : ℕ → Ptr → RbTree V S → Option (RbTree V S)
  black_black_fixup fuel x s = elim (black_black_loop fuel fuel x s) [
    | none ↦ none
    | some (x', s') ↦ let s₁ = set_color x' false s' in some (set_color s₁.root false s₁)
  ]
