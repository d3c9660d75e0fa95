-- ===== src/RbTree/Fixup/Strained.antt =====
-- The red-black conditions around a red node that may have a red parent (src/mulle--rbtree.c).
use mulle_rbtree.Base.{Bool, true, false, ◌≡◌, subst, arith}
use mulle_rbtree.Storage.{Ptr}
use mulle_rbtree.Shape.{Shape, node, Context, in_left, in_right, is_red}
use mulle_rbtree.Shape.Balance.{
  height, Balanced, Calm, BalancedAbove, CalmAbove, BlackRoot, CalmAbove-black, BlackRoot-left,
  BlackRoot-right,
}

-- the focus is red, and what is wrong is at most that its parent is red too
pub record Strained (k : Context) (t : Shape) : Type 0 where
  pub calm : Calm t
  pub above : CalmAbove false k
  pub balanced : Balanced t
  pub level : BalancedAbove (height t) k
  pub black_root : BlackRoot k

module _ {c : Bool} {x p g y : Ptr} {xa xb r ul ur : Shape} {k : Context} where
  pub Strained-up_left_outer :
      Strained (in_left true p r (in_left c g (node ul true y ur) k)) (node xa true x xb)
      → Strained k (node (node (node xa true x xb) false p r) true g (node ul false y ur))
  Strained-up_left_outer w = record {
    calm = ground (arith, w);
    above = CalmAbove-black c k (ground (arith, w));
    balanced = ground (arith, w);
    level = subst (λ n. BalancedAbove n k) (ground (arith, w)) w.level.2.2;
    black_root =
        BlackRoot-left c g (node ul true y ur) k
          (BlackRoot-left true p r (in_left c g (node ul true y ur) k) w.black_root);
  }

module _ {c : Bool} {x p g : Ptr} {xa xb r u : Shape} {k : Context} where
  pub Strained-turn_left_outer :
      Strained (in_left true p r (in_left c g u k)) (node xa true x xb)
      → is_red u ≡ false
      → Strained k (node (node xa true x xb) false p (node r true g u))
  Strained-turn_left_outer w e = record {
    calm = ground (arith, w);
    above = CalmAbove-black c k (ground (arith, w));
    balanced = ground (arith, w);
    level = subst (λ n. BalancedAbove n k) (ground (arith, w)) w.level.2.2;
    black_root = BlackRoot-left c g u k (BlackRoot-left true p r (in_left c g u k) w.black_root);
  }

module _ {c : Bool} {x p g y : Ptr} {xa xb r ul ur : Shape} {k : Context} where
  pub Strained-up_left_inner :
      Strained (in_right r true p (in_left c g (node ul true y ur) k)) (node xa true x xb)
      → Strained k (node (node r false p (node xa true x xb)) true g (node ul false y ur))
  Strained-up_left_inner w = record {
    calm = ground (arith, w);
    above = CalmAbove-black c k (ground (arith, w));
    balanced = ground (arith, w);
    level = subst (λ n. BalancedAbove n k) (ground (arith, w)) w.level.2.2;
    black_root =
        BlackRoot-left c g (node ul true y ur) k
          (BlackRoot-right true p r (in_left c g (node ul true y ur) k) w.black_root);
  }

module _ {c : Bool} {x p g : Ptr} {xa xb r u : Shape} {k : Context} where
  pub Strained-turn_left_inner :
      Strained (in_right r true p (in_left c g u k)) (node xa true x xb)
      → is_red u ≡ false
      → Strained k (node (node r true p xa) false x (node xb true g u))
  Strained-turn_left_inner w e = record {
    calm = ground (arith, w);
    above = CalmAbove-black c k (ground (arith, w));
    balanced = ground (arith, w);
    level = subst (λ n. BalancedAbove n k) (ground (arith, w)) w.level.2.2;
    black_root = BlackRoot-left c g u k (BlackRoot-right true p r (in_left c g u k) w.black_root);
  }

module _ {c : Bool} {x p g y : Ptr} {xa xb r ul ur : Shape} {k : Context} where
  pub Strained-up_right_outer :
      Strained (in_right r true p (in_right (node ur true y ul) c g k)) (node xb true x xa)
      → Strained k (node (node ur false y ul) true g (node r false p (node xb true x xa)))
  Strained-up_right_outer w = record {
    calm = ground (arith, w);
    above = CalmAbove-black c k (ground (arith, w));
    balanced = ground (arith, w);
    level = subst (λ n. BalancedAbove n k) (ground (arith, w)) w.level.2.2;
    black_root =
        BlackRoot-right c g (node ur true y ul) k
          (BlackRoot-right true p r (in_right (node ur true y ul) c g k) w.black_root);
  }

module _ {c : Bool} {x p g : Ptr} {xa xb r u : Shape} {k : Context} where
  pub Strained-turn_right_outer :
      Strained (in_right r true p (in_right u c g k)) (node xb true x xa)
      → is_red u ≡ false
      → Strained k (node (node u true g r) false p (node xb true x xa))
  Strained-turn_right_outer w e = record {
    calm = ground (arith, w);
    above = CalmAbove-black c k (ground (arith, w));
    balanced = ground (arith, w);
    level = subst (λ n. BalancedAbove n k) (ground (arith, w)) w.level.2.2;
    black_root = BlackRoot-right c g u k (BlackRoot-right true p r (in_right u c g k) w.black_root);
  }

module _ {c : Bool} {x p g y : Ptr} {xa xb r ul ur : Shape} {k : Context} where
  pub Strained-up_right_inner :
      Strained (in_left true p r (in_right (node ur true y ul) c g k)) (node xb true x xa)
      → Strained k (node (node ur false y ul) true g (node (node xb true x xa) false p r))
  Strained-up_right_inner w = record {
    calm = ground (arith, w);
    above = CalmAbove-black c k (ground (arith, w));
    balanced = ground (arith, w);
    level = subst (λ n. BalancedAbove n k) (ground (arith, w)) w.level.2.2;
    black_root =
        BlackRoot-right c g (node ur true y ul) k
          (BlackRoot-left true p r (in_right (node ur true y ul) c g k) w.black_root);
  }

module _ {c : Bool} {x p g : Ptr} {xa xb r u : Shape} {k : Context} where
  pub Strained-turn_right_inner :
      Strained (in_left true p r (in_right u c g k)) (node xb true x xa)
      → is_red u ≡ false
      → Strained k (node (node u true g xb) false x (node xa true p r))
  Strained-turn_right_inner w e = record {
    calm = ground (arith, w);
    above = CalmAbove-black c k (ground (arith, w));
    balanced = ground (arith, w);
    level = subst (λ n. BalancedAbove n k) (ground (arith, w)) w.level.2.2;
    black_root = BlackRoot-right c g u k (BlackRoot-left true p r (in_right u c g k) w.black_root);
  }
