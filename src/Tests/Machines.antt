-- ===== src/Tests/Machines.antt =====
-- A machine to run the examples on: floats compare by their patterns and convert to themselves.
use temporal_determinizer.Prelude.{◌==◌, ltb, leb, ==_iff}
use temporal_determinizer.Float.{Floats, AgreesOnEqual}
use temporal_determinizer.Value.{nil_value, ok}
use temporal_determinizer.Heap.{Heap}
use temporal_determinizer.Equality.{Machine}

abbrev pub floats : Floats
floats = record {
  arith = λ o k a b. a;
  negate = λ k a. a;
  equal = λ k a b. a == b;
  less = λ k a b. ltb a b;
  less_equal = λ k a b. leb a b;
  convert = λ k j a. a;
  of_int = λ s k a. a;
  to_int = λ k j a. a;
  complex_re = λ o k a a' b b'. a;
  complex_im = λ o k a a' b b'. a';
}

pub floats-AgreesOnEqual : AgreesOnEqual floats
floats-AgreesOnEqual = record { to_int-equal = λ f k a b h. (==_iff a b).0 h }

abbrev pub machine : Machine
machine = record {
  floats = floats;
  hash_type = λ t. ok 7;
  cell_address = λ a. a;
  chan_address = λ a. a;
}

-- memory in which nothing is allocated
abbrev pub empty : Heap
empty = record { next = 0; cell = λ a. nil_value }
