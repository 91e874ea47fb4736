-- ===== src/Assert.antt =====
-- Type assertions: typeAssert and checkInterface of interpreter/internal/interp/ops.go. The method
-- sets of types, which types.MissingMethod looks up, are a parameter.
pub mod Forms
use temporal_determinizer.Prelude.{
  ℕ, Bool, true, false, List, [], ◌∷◌, Option, none, some, ◌==◌, ◌||◌, if◌then◌else◌,
}
use temporal_determinizer.Types.{GoType, underlying}
use temporal_determinizer.Types.Identity.{identical}
use temporal_determinizer.Value.{
  Value, Values, Result, ok, panics, fail, interface_is_nil, interface_is_not, missing_method,
}
use temporal_determinizer.Heap.{M, pure, raise, ◌>>=◌}
use temporal_determinizer.Memory.{zero}

unfoldable pub has_method : ℕ → List ℕ → Bool
has_method n [] = false
has_method n (m ∷ ms) = n == m || has_method n ms

-- the first method of the interface that is not in the method set
unfoldable pub check_interface : List ℕ → List ℕ → Option ℕ
unfolding has_method
check_interface set [] = none
check_interface set (n ∷ ms) =
    let rest = check_interface set ms in if has_method n set then rest else some n

-- a value with whether the assertion holds
abbrev pub with_ok : Value → Bool → Value
with_ok v b = Value.tuple (Values.cons v (Values.cons (Value.boolean b) Values.nil))

-- the result of an assertion, or what its error leads to
abbrev pub finish : Bool → GoType → Result Value → M Value
finish comma_ok asserted (ok w) = pure (if comma_ok then with_ok w true else w)
finish comma_ok asserted (panics e) =
    if comma_ok then (zero asserted >>= λ z. pure (with_ok z false)) else raise e

module _ (methods : GoType → List ℕ) where
  -- the extracted value, or the error
  unfoldable pub extract : GoType → Option GoType → Value → Result Value
  unfolding underlying identical check_interface
  extract asserted none v = fail interface_is_nil
  extract asserted (some t) v = elim (underlying asserted) [
    | GoType.interface ms ↦ elim (check_interface (methods t) ms) [
      | none ↦ ok (Value.iface (some t) v)
      | some n ↦ fail missing_method
    ]
    | _ ↦ if identical t asserted then ok v else fail interface_is_not
  ]

  -- whether the instruction is of the comma-ok form, the asserted type, and the interface value
  unfoldable pub type_assert : Bool → GoType → Option GoType → Value → M Value
  unfolding extract
  type_assert comma_ok asserted t v = finish comma_ok asserted (extract asserted t v)
