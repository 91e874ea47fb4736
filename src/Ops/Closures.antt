-- ===== src/Ops/Closures.antt =====
-- Comparing a function with nil, when the function is a closure.
use temporal_determinizer.Prelude.{ℕ, ◌≡◌, refl, Bool, true, false, none}
use temporal_determinizer.Types.{GoType, Types}
use temporal_determinizer.Value.{Value, Values, ok}
use temporal_determinizer.Equality.{Machine}
use temporal_determinizer.Ops.{eqnil}

-- A closure is never nil, and yet for every function type the comparison of nil with a closure gives
-- true, where that of the closure with nil gives false.
pub eqnil-closure :
    (m : Machine) (c : ℕ → Value) (f : ℕ) (ps rs : Types) (v : Bool) (code : ℕ) (env : Values)
    → (eqnil m c f (GoType.signature ps rs v) (Value.function none) (Value.closure code env)
        ≡ ok true)
      × (eqnil m c f (GoType.signature ps rs v) (Value.closure code env) (Value.function none)
          ≡ ok false)
unfolding eqnil
eqnil-closure m c f ps rs v code env = (refl, refl)
