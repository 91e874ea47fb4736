-- ===== src/Tests/Variables.antt =====
-- Two variables of a struct type with two int fields.
use temporal_determinizer.Prelude.{
  inl, inr, ℕ, ◌≡◌, refl, arith, true, false, Option, none, some, [], ◌∷◌, get_elem?,
}
use temporal_determinizer.Word.{IntKind}
use temporal_determinizer.Types.{BasicKind, GoType, Fields, end, field}
use temporal_determinizer.Value.{Value, nil_value, ok}
use temporal_determinizer.Heap.{Heap, returns, ◌>>=◌}
use temporal_determinizer.Memory.{zero, load, store}
use temporal_determinizer.Memory.Done.{Done}
use temporal_determinizer.Memory.Layout.{view, Laid}
use temporal_determinizer.Memory.Trees.{IsStorable}
use temporal_determinizer.Memory.Zero.{IsZero, zero-IsZero}
use temporal_determinizer.Memory.Assign.{
  assign, IsVariable, IsAssigned, assign-IsAssigned, load-unaliased,
}
use temporal_determinizer.Equality.{equals}
use temporal_determinizer.Equality.Embedded.{equals-embedded}
use temporal_determinizer.Equality.Shape.{IsShaped}
use temporal_determinizer.Hash.{hash}
use temporal_determinizer.Hash.Consistent.{equals-hash}
use temporal_determinizer.Tests.Machines.{machine, floats-AgreesOnEqual}

abbrev pub int_type : GoType
int_type = GoType.basic (BasicKind.integer IntKind.int)

abbrev pair_fields : Fields
pair_fields = field 0 false int_type (field 1 false int_type end)

abbrev pub pair_type : GoType
pair_type = GoType.struct pair_fields

abbrev pub number : ℕ → Value
number a = Value.integer IntKind.int a

-- one variable at 0, the next at 3, at 6 a third one, and at 9 a global, behind its elements
abbrev held : Option Value → Value
held none = nil_value
held (some v) = v

abbrev memory : ℕ → Value
memory a = held (
    get_elem?
      (Value.structure 1 2
        ∷ number 10
        ∷ number 20
        ∷ Value.structure 4 2
        ∷ number 30
        ∷ number 40
        ∷ Value.structure 7 2
        ∷ number 10
        ∷ number 20
        ∷ Value.structure 7 2
        ∷ [])
      a)

abbrev pub two_pairs : Heap
two_pairs = record { next = 10; cell = memory }

pub first_Laid : Laid pair_type memory (Value.structure 1 2) 1 3
unfolding Laid
first_Laid = (refl, (3, refl, (3, refl, refl)))

second_Laid : Laid pair_type memory (Value.structure 4 2) 4 6
unfolding Laid
second_Laid = (refl, (6, refl, (6, refl, refl)))

second_IsVariable : IsVariable pair_type two_pairs 3 4 6
second_IsVariable = record {
  own = inl (omega arith);
  inside = omega arith;
  allocated = omega arith;
  laid = second_Laid;
}

global_IsVariable : IsVariable pair_type two_pairs 9 7 9
unfolding Laid
global_IsVariable = record {
  own = inr (omega arith);
  inside = omega arith;
  allocated = omega arith;
  laid = (refl, (9, refl, (9, refl, refl)));
}

pub pair_IsStorable : IsStorable pair_type
unfolding IsStorable
pair_IsStorable = (tt, (tt, tt))

zero-IsZero_example : Done (zero pair_type) two_pairs (IsZero pair_type two_pairs)
zero-IsZero_example = zero-IsZero pair_type pair_IsStorable two_pairs

assign-IsAssigned_example :
    Done (assign pair_type 9 3) two_pairs (λ _. IsAssigned pair_type 9 3 7 9 two_pairs)
assign-IsAssigned_example =
    assign-IsAssigned pair_type two_pairs 9 7 9 3 4 6 global_IsVariable second_IsVariable

-- the second variable is loaded, then the first is stored through it
load-unaliased_example :
    (v : Value) × (h' : Heap) × ((load pair_type 3 >>= λ x.
    store pair_type 3 (Value.structure 1 2) >>= λ _ g. returns x g)
        two_pairs
      ≡ returns v h')
    × (view pair_type h'.cell v ≡ view pair_type memory (memory 3))
    × (view pair_type h'.cell (h'.cell 3) ≡ view pair_type memory (Value.structure 1 2))
load-unaliased_example =
    load-unaliased pair_type two_pairs 3 4 6 (Value.structure 1 2) 1 3 second_IsVariable first_Laid
      (omega arith) (inr (omega arith), inr (omega arith))

first_IsShaped : IsShaped memory 0 pair_type (Value.structure 1 2)
unfolding IsShaped
first_IsShaped = (tt, (tt, tt))

third_IsShaped : IsShaped memory 0 pair_type (Value.structure 7 2)
unfolding IsShaped
third_IsShaped = (tt, (tt, tt))

-- the third variable holds what the first does
pairs_equal :
    equals machine memory 0 pair_type (Value.structure 1 2) (Value.structure 7 2) ≡ ok true
unfolding equals
pairs_equal = refl

equals-hash_example :
    hash machine memory 0 pair_type (Value.structure 1 2)
    ≡ hash machine memory 0 pair_type (Value.structure 7 2)
equals-hash_example =
    equals-hash machine memory floats-AgreesOnEqual 0 pair_type (Value.structure 1 2)
      (Value.structure 7 2) first_IsShaped third_IsShaped pairs_equal

equals-embedded_example :
    equals machine memory 0
      (GoType.struct (field 0 true int_type end))
      (Value.structure 1 1)
      (Value.structure 2 1)
    ≡ ok true
equals-embedded_example = equals-embedded machine memory 0 (field 0 true int_type end) 1 1 2 1 tt
