-- ===== src/Tests/Assertions.antt =====
-- An int and a struct of two of them, asserted to be such a struct.
use temporal_determinizer.Prelude.{[], some, ◌⊎◌}
use temporal_determinizer.Assert.Forms.{Holds, Fails, type_assert-cases}
use temporal_determinizer.Tests.Variables.{pair_type, int_type, number, two_pairs, pair_IsStorable}

type_assert-cases_example :
    Holds (λ t. []) pair_type (some int_type) (number 7) two_pairs
    ⊎ Fails (λ t. []) pair_type (some int_type) (number 7) two_pairs
type_assert-cases_example =
    type_assert-cases (λ t. []) pair_type (some int_type) (number 7) two_pairs pair_IsStorable
