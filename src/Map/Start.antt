-- ===== src/Map/Start.antt =====
-- `_mulle_rbtree_init_with_config` and `_mulle_rbtree_init` (src/mulle-rbtree.c): the defaults of the
-- callbacks.
use mulle_rbtree.Base.{
  ℕ, ◌<◌, Bool, true, false, ◌≡◌, refl, ◌∙◌, Option, none, some, List, [], ◌&&◌, Ordering, length,
}
use mulle_rbtree.Storage.{Storage, IsPool}
use mulle_rbtree.Order.{IsComparison}
use mulle_rbtree.RbTree.Value.{stored}
use mulle_rbtree.RbTree.{RbTree, Config, allow_duplicates}
use mulle_rbtree.RbTree.Rest.{Returns, Returns-mono}
use mulle_rbtree.RbTree.Dirty.Report.{Notified, unchanged, call}
use mulle_rbtree.Map.{Callbacks, init_tree}
use mulle_rbtree.Map.Reports.{Tells}
use mulle_rbtree.Map.Model.{Request, Response, Steps, stop, step, reports, session}
use mulle_rbtree.Map.Session.{session-init, wants}

-- `struct mulle_container_valuecallback`
pub record ValueCallback (V W : Type 0) : Type 0 where
  pub retain : V → W → V × W
  pub release : V → W → W
  pub releases : Bool

-- `none` is a field that is `NULL`
pub record ValuesConfig (V W : Type 0) : Type 0 where
  pub base : Config
  pub comparison : V → V → Ordering
  pub dirty : Option (Option V → Option V → Option V → W → W)
  pub callback : Option (ValueCallback V W)

abbrev pub nop_dirty : {V W : Type 0} → Option V → Option V → Option V → W → W
nop_dirty a b c w = w

module _ {V W : Type 0} (callbacks : Callbacks V W) (kept : V → V)
    (idle : (a l r : Option V) (w : W) → callbacks.dirty a l r w ≡ w) where
  Notified-idle : {u v : W} → Notified callbacks.dirty u v → v ≡ u
  Notified-idle unchanged = refl
  Notified-idle (call {v} a l r h) = idle a l r v ∙ Notified-idle h

  Tells-idle : (r : Bool) (w w' : W) → Tells callbacks r w w' → w' ≡ w
  Tells-idle true w w' t = Notified-idle t
  Tells-idle false w w' t = t

  Tells-silent : (x : Bool) (w w' : W) → w' ≡ w → Tells callbacks (x && false) w w'
  Tells-silent true w w' e = e
  Tells-silent false w w' e = e

  -- a dirty callback that does nothing might as well not be called
  Steps-idle :
      {d r : Bool} {xs ys : List V} {w w' : W} {qs : List (Request V)} {answers : List (Response V)}
      → Steps callbacks kept d r xs w qs answers ys w'
      → Steps callbacks kept d false xs w qs answers ys w'
  Steps-idle stop = stop
  Steps-idle {r} (step {q} {a} {w₁} {w₂} h t rest) =
      step h
        (Tells-silent (reports callbacks q a) w₁ w₂
          (Tells-idle (reports callbacks q a && r) w₁ w₂ t))
        (Steps-idle rest)

module _ {V W : Type 0} (standard : ValueCallback V W) where
  -- `standard` is `mulle_container_valuecallback_nonowned_cstring` of mulle-container
  unfoldable pub init_callbacks : ValuesConfig V W → Callbacks V W
  init_callbacks config =
      let chosen : ValueCallback V W = elim config.callback [
        | none ↦ standard
        | some callback ↦ callback
      ] in
      record {
        comparison = config.comparison;
        retain = chosen.retain;
        release = chosen.release;
        releases = chosen.releases;
        dirty = elim config.dirty [ none ↦ nop_dirty | some dirty ↦ dirty ];
      }

  module _ {S : Type 0} (storage : Storage V S) where
    unfoldable pub init_values : V → ValuesConfig V W → Callbacks V W × RbTree V S
    unfolding init_callbacks init_tree
    init_values null_value config =
        let callbacks = init_callbacks config in
        (callbacks, init_tree storage callbacks null_value config.base)

    -- the other fields of the configuration are 0
    unfoldable pub init_with_comparison :
        V → (V → V → Ordering) → Option (ValueCallback V W) → Callbacks V W × RbTree V S
    unfolding init_values
    init_with_comparison null_value comparison callback = init_values null_value (record {
      base = record { node_extra = 0; options = 0; capacity = 0 };
      comparison = comparison;
      dirty = none;
      callback = callback;
    })

    module _ (pool : IsPool storage) (config : ValuesConfig V W)
        (law : IsComparison config.comparison) (kept : V → V) where
      -- steps without any report, from the empty list
      pub record Quietly (qs : List (Request V)) (w : W) (o : List (Response V) × RbTree V S × W)
          : Type 0 where
        pub contents : List V
        pub steps :
            Steps
              (init_callbacks config)
              kept
              (wants allow_duplicates config.base.options)
              false
              []
              w
              qs
              o.0
              contents
              o.2

      -- Any sequence of calls on a new tree that was set up without a dirty callback, whatever its
      -- options, with a pool that keeps its promises and with more fuel than calls: the calls come
      -- to their end, and their results and the state of the callbacks are those of steps on a
      -- list that is empty at first, where a new entry is what a node of the new tree keeps of the
      -- value, as if there were no dirty flags.
      pub session-Quietly :
          (fuel : ℕ) (null_value : V) (qs : List (Request V)) (w : W)
          → ((v : V) → stored storage (init_values null_value config).1 v ≡ kept v)
          → config.dirty ≡ none
          → length qs < fuel
          → Returns (Quietly qs w) (
              session storage
                (init_values null_value config).0
                fuel
                qs
                ((init_values null_value config).1, w))
      unfolding init_values init_callbacks
      session-Quietly fuel null_value qs w keeps e f =
          Returns-mono
            (session-init storage pool (init_callbacks config) law kept fuel null_value config.base
              qs w keeps f)
            (λ o p. record {
              contents = p.contents;
              steps = Steps-idle (init_callbacks config) kept (λ a l r w. rw e refl) p.steps;
            })
