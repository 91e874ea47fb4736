-- ===== src/Value.antt =====
-- The boxed values of interpreter/internal/interp/value.go, one constructor for each dynamic type,
-- and the ways in which the interpreter panics.
-- The elements of structures, arrays and slices stand in cells of the heap, as Go's slices share
-- their backing arrays: such a value is the address of its first cell with a length.
use temporal_determinizer.Prelude.{ℕ, Bool, List, Option, ◌≡◌, refl}
use temporal_determinizer.Word.{IntKind}
use temporal_determinizer.Types.{GoType, FloatKind, ComplexKind}

-- the header of a slice that is not nil
pub record Header : Type 0 where
  pub base : ℕ
  pub len : ℕ
  pub cap : ℕ

-- the built-in functions that callBuiltin knows, and any other name
pub data Builtin : Type 0 where
  append copy close delete print println len cap real imag complex panic recover : Builtin
  wrapnilchk unknown : Builtin

-- Floats are bit patterns; a reference is none where it is nil.
mutual
  pub data Value : Type 0 where
    nil_value : Value
    boolean : Bool → Value
    integer : IntKind → ℕ → Value
    float : FloatKind → ℕ → Value
    complex : ComplexKind → ℕ → ℕ → Value
    string : List ℕ → Value
    builtin_map : Option ℕ → Value
    hash_map : Option ℕ → Value
    chan : Option ℕ → Value
    slice : Option Header → Value
    iface : Option GoType → Value → Value
    structure : ℕ → ℕ → Value
    array : ℕ → ℕ → Value
    pointer : Option ℕ → Value
    unsafe_pointer : Option ℕ → Value
    function : Option ℕ → Value
    builtin : Builtin → Value
    closure : ℕ → Values → Value
    tuple : Values → Value
    iter : ℕ → Value
    bad : Value
    rtype : Option GoType → Value

  pub data Values : Type 0 where
    nil : Values
    cons : Value → Values → Values

-- what the Go runtime raises inside the interpreter
pub data RuntimeError : Type 0 where
  index_out_of_range slice_out_of_range divide_by_zero nil_dereference : RuntimeError
  type_assertion nil_map_write close_of_nil close_of_closed uncomparable : RuntimeError
  size_out_of_range panic_nil : RuntimeError

-- the strings with which the interpreter itself panics, each named for its call of panic
pub data Message : Type 0 where
  comparing_uncomparable unhashable invalid_binary_op invalid_unary_op illegal_dynamic_type :
      Message
  cannot_convert_to_int cannot_convert_to_uint64 cannot_widen unsupported_conversion : Message
  untyped_destination should_be_change_interface should_be_make_interface : Message
  untyped_nil_zero unexpected_zero invalid_map_key slice_unexpected lookup_unexpected : Message
  interface_is_nil interface_is_not missing_method array_longer_than_slice : Message
  illegal_map illegal_operand unknown_builtin nil_receiver const_value : Message
  call_of_nil cannot_call no_code method_on_nil no_value unexpected_recover : Message
  index_addr_unexpected cannot_range no_such_method no_global : Message
  no_runtime_package no_workflow_package : Message
  type_not_found type_unsupported kind_unrecognized has_receiver refused_by_reflect : Message
  not_assignable : Message
  unexpected_type non_basic_type not_unsigned no_length not_a_map no_pointer not_indexed : Message
  no_element not_a_float not_an_int not_nilable no_reflect_value no_type_map : Message

-- the dynamic types of the values that panics carry; `exhausted` is no panic of the program: a
-- recursion of the model met its bound
pub data Panic : Type 0 where
  target : Value → Panic
  exit : ℕ → Panic
  runtime : RuntimeError → Panic
  message : Message → Panic
  exhausted : Panic

-- a computation that reads and writes no state
pub data Result {ℓ} (A : Type ℓ) : Type ℓ where
  ok : A → Result A
  panics : Panic → Result A

abbrev pub fail {ℓ} : {A : Type ℓ} → Message → Result A
fail m = panics (message m)

abbrev pub fault {ℓ} : {A : Type ℓ} → RuntimeError → Result A
fault e = panics (runtime e)

infixl 5 ◌>>=◌ ◌>>◌
abbrev pub ◌>>=◌ {ℓ₁ ℓ₂} : {X : Type ℓ₁} {Y : Type ℓ₂} → Result X → (X → Result Y) → Result Y
◌>>=◌ (ok x) k = k x
◌>>=◌ (panics p) k = panics p

abbrev pub ◌>>◌ {ℓ₁ ℓ₂} : {X : Type ℓ₁} {Y : Type ℓ₂} → Result X → Result Y → Result Y
first >> second = first >>= λ _. second

-- the run ends normally, in a value that satisfies `P`
abbrev pub Returns {ℓ κ} : {A : Type ℓ} → Result A → (A → Type κ) → Type (ℓ ⊔ κ)
Returns {A} r P = (a : A) × (r ≡ ok a) × P a

-- a bind that ends normally ran its two parts to their ends
pub >>=-eq-ok {ℓ₁ ℓ₂} :
    {X : Type ℓ₁} {Y : Type ℓ₂} (run : Result X) (k : X → Result Y) {y : Y}
    → run >>= k ≡ ok y
    → (x : X) × (run ≡ ok x) × (k x ≡ ok y)
>>=-eq-ok (ok x) k e = (x, refl, e)
>>=-eq-ok (panics p) k e = cc
