-- ===== src/PirType/Effective.antt =====
-- rir/src/compiler/pir/type.cpp, `fromContext`: the type has what the context promises, and nothing
-- else is taken from it.
use rir.Prelude.{ℕ, ◌≡◌, Bool, true, not, ◌&&◌, ◌||◌}
use rir.Context.{Context, is_fact}
use rir.Context.Fact.{eager, not_obj, simple_int, simple_real}
use rir.PirType.{PirType, is_super}
use rir.PirType.TypeFlag.{lazy, maybe_object}
use rir.PirType.Flags.{has, wrapped}
use rir.PirType.Named.{forced}
use rir.PirType.Narrow.{promised_real, promised_int}

module _ (c : Context) (arg nargs : ℕ) (after_force : Bool) where
  -- What a narrowed type has of what the context promises, where the value is known to be forced or
  -- not lazy.
  pub record Effective (y : PirType) : Type 0 where
    pub value : (not (is_fact eager c arg || after_force) || not (has y lazy)) ≡ true
    pub forced : (not after_force || not (wrapped y)) ≡ true
    pub plain :
        (not ((is_fact eager c arg || after_force) && is_fact not_obj c arg)
          || not (has y maybe_object))
        ≡ true
    pub real :
        (not ((is_fact eager c arg || after_force) && is_fact simple_real c arg)
          || is_super promised_real y)
        ≡ true
    pub int :
        (not ((is_fact eager c arg || after_force) && is_fact simple_int c arg)
          || is_super promised_int y)
        ≡ true
