-- ===== src/Map/Session.antt =====
-- A caller of a tree of values (src/mulle-rbtree.h): any sequence of calls runs to its end, and is a
-- sequence of steps on the contents.
use mulle_rbtree.Base.{
  not, bit_and, ◌==◌, Bool, ℕ, ◌+◌, ◌<◌, ◌≤◌, ◌≡◌, refl, sym, ◌∙◌, ap, some, List, [], ◌∷◌, length,
  arith,
}
use mulle_rbtree.Storage.{Storage, IsPool}
use mulle_rbtree.Order.{IsComparison}
use mulle_rbtree.RbTree.Value.{values, stored}
use mulle_rbtree.RbTree.{Config, has_option, use_dirty, allow_duplicates, RbTree}
use mulle_rbtree.RbTree.Rest.{Returns, returns, Returns-some}
use mulle_rbtree.Map.{init_tree, Callbacks}
use mulle_rbtree.Map.Model.{
  Request, add_value, remove_value, find_value, find_value_at_least, Response, Step, accept, reject,
  take, miss, hit, lack, equal_one, next_one, past_all, Steps, stop, step, respond, session,
}
use mulle_rbtree.RbTree.Init.{init_with_config-empty, init_with_config-options}
use mulle_rbtree.Map.Holds.{Holds, Answered}
use mulle_rbtree.Map.Adds.{respond-add}
use mulle_rbtree.Map.Deletes.{respond-remove}
use mulle_rbtree.Map.Reads.{respond-find, respond-at_least}
use mulle_rbtree.Shape.{leaf, inorder, size}
use mulle_rbtree.Shape.Length.{length-append, length-map, length-inorder}

-- whether the option is in the word
abbrev pub wants : ℕ → ℕ → Bool
wants option options = not (bit_and options option == 0)

module _ {V W : Type 0} (callbacks : Callbacks V W) (kept : V → V) where
  -- a call adds at most one value
  Step-length :
      {d : Bool} {xs : List V} {w : W} {q : Request V} {a : Response V} {ys : List V} {w' : W}
      → Step callbacks kept d xs w q a ys w'
      → length ys ≤ length xs + 1
  Step-length (accept v ys zs e low high) =
      omega (arith, ap length e, length-append ys zs, length-append ys (_ ∷ zs))
  Step-length (reject v u ys zs n e q) = omega arith
  Step-length (take key u ys zs e q) =
      omega (arith, ap length e, length-append ys zs, length-append ys (u ∷ zs))
  Step-length (miss key h) = omega arith
  Step-length (hit key u ys zs e q) = omega arith
  Step-length (lack key h) = omega arith
  Step-length (equal_one key u ys zs e q) = omega arith
  Step-length (next_one key u ys zs e h q) = omega arith
  Step-length (past_all key h) = omega arith

module _ {V S W : Type 0} (storage : Storage V S) (pool : IsPool storage)
    (callbacks : Callbacks V W) (law : IsComparison callbacks.comparison) (kept : V → V) where
  size-length :
      (d r : Bool) (s : RbTree V S) (xs : List V)
      (h : Holds storage pool callbacks law kept d r s xs)
      → size h.shape ≡ length xs
  size-length d r s xs h =
      sym (length-inorder h.shape)
      ∙ sym (length-map (values s) (inorder h.shape))
      ∙ ap length h.listed

  respond-Answered :
      (fuel : ℕ) (d r : Bool) (q : Request V) (s : RbTree V S) (w : W) (xs : List V)
      → Holds storage pool callbacks law kept d r s xs
      → length xs + 1 < fuel
      → Returns
          (Answered storage pool callbacks law kept d r xs w q)
          (respond storage callbacks fuel q (s, w))
  respond-Answered fuel d r (add_value v) s w xs h f =
      respond-add storage pool callbacks law kept fuel d r v s w xs h
        (omega (arith, f, size-length d r s xs h))
  respond-Answered fuel d r (remove_value v) s w xs h f =
      respond-remove storage pool callbacks law kept fuel d r v s w xs h
        (omega (arith, f, size-length d r s xs h))
  respond-Answered fuel d r (find_value v) s w xs h f =
      respond-find storage pool callbacks law kept fuel d r v s w xs h
        (omega (arith, f, size-length d r s xs h))
  respond-Answered fuel d r (find_value_at_least v) s w xs h f =
      respond-at_least storage pool callbacks law kept fuel d r v s w xs h
        (omega (arith, f, size-length d r s xs h))

  -- after the calls
  pub record Played (d r : Bool) (xs : List V) (w : W) (qs : List (Request V))
      (o : List (Response V) × RbTree V S × W) : Type 0 where
    pub contents : List V
    pub holds : Holds storage pool callbacks law kept d r o.1 contents
    pub steps : Steps callbacks kept d r xs w qs o.0 contents o.2

  session_lem :
      (fuel : ℕ) (q : Request V) (qs : List (Request V)) (s : RbTree V S) (w : W)
      (o : Response V × RbTree V S × W) (p : List (Response V) × RbTree V S × W)
      → respond storage callbacks fuel q (s, w) ≡ some o
      → session storage callbacks fuel qs (o.1, o.2) ≡ some p
      → session storage callbacks fuel (q ∷ qs) (s, w) ≡ some (o.0 ∷ p.0, p.1, p.2)
  unfolding session
  session_lem fuel q qs s w o p e g = rw (e, g) refl

  -- Any sequence of calls that add, remove or find values, or find equal or greater ones, on a
  -- tree that holds a list of values, with a pool that keeps its promises and with more fuel than
  -- values and calls together: the calls come to their end, their results are those of a sequence
  -- of steps on the list, where a new entry is what a node keeps of the value (the value itself,
  -- or its bytes as far as there is room for extra bytes), the tree holds the list after these
  -- steps, and the state of the callbacks is that of the steps, where a tree with dirty flags may
  -- run its dirty callback after each call that adds or removes.
  pub session-Played :
      (fuel : ℕ) (d r : Bool) (qs : List (Request V)) (s : RbTree V S) (w : W) (xs : List V)
      → Holds storage pool callbacks law kept d r s xs
      → length xs + length qs < fuel
      → Returns (Played d r xs w qs) (session storage callbacks fuel qs (s, w))
  unfolding session
  session-Played fuel d r [] s w xs h f =
      returns (record { contents = xs; holds = h; steps = stop })
  session-Played fuel d r (q ∷ qs) s w xs h f =
      let (o, e, a) = Returns-some (respond-Answered fuel d r q s w xs h (omega (arith, f))) in
      let (p, g, t) = Returns-some (
        session-Played fuel d r qs o.1 o.2 a.contents a.holds
          (omega (arith, f, Step-length callbacks kept a.step))) in
      rw (session_lem fuel q qs s w o p e g) (
        returns
          (record { contents = t.contents; holds = t.holds; steps = step a.step a.tells t.steps }))

  init_tree-Holds :
      (null_value : V) (config : Config)
      → ((v : V) → stored storage (init_tree storage callbacks null_value config) v ≡ kept v)
      → Holds storage pool callbacks law kept
          (wants allow_duplicates config.options)
          (wants use_dirty config.options)
          (init_tree storage callbacks null_value config)
          []
  unfolding init_tree has_option
  init_tree-Holds null_value config keeps = record {
    shape = leaf;
    tree = init_with_config-empty storage null_value config;
    red_black = record { black_root = refl; calm = tt; balanced = tt };
    sorted = tt;
    listed = refl;
    owned = λ b m. absurd (m refl);
    keeps = keeps;
    dirty_flags = ap (λ n. wants use_dirty n) (init_with_config-options storage null_value config);
    duplicates =
        ap (λ n. wants allow_duplicates n) (init_with_config-options storage null_value config);
  }

  -- Any sequence of calls on a new tree of any configuration, with a pool that keeps its promises:
  -- fuel that exceeds the number of the calls is enough for all of them to come to their end, and
  -- their results are those of steps on a list that is empty at first, where a new entry is what a
  -- node of the new tree keeps of the value.
  pub session-init :
      (fuel : ℕ) (null_value : V) (config : Config) (qs : List (Request V)) (w : W)
      → ((v : V) → stored storage (init_tree storage callbacks null_value config) v ≡ kept v)
      → length qs < fuel
      → Returns
          (Played (wants allow_duplicates config.options) (wants use_dirty config.options) [] w qs)
          (session storage callbacks fuel qs (init_tree storage callbacks null_value config, w))
  session-init fuel null_value config qs w keeps f =
      session-Played fuel (wants allow_duplicates config.options) (wants use_dirty config.options)
        qs (init_tree storage callbacks null_value config) w []
        (init_tree-Holds null_value config keeps) (omega (arith, f))
