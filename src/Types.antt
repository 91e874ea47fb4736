-- ===== src/Types.antt =====
-- The type descriptors of go/types that the interpreter reads. A named type carries its underlying
-- type: a recursive declaration stands here unrolled as far as the values at hand reach.
-- Field and method names, and the identities of named types, are numbers.
pub mod Identity
use temporal_determinizer.Prelude.{ℕ, Bool, List}
use temporal_determinizer.Word.{IntKind}

pub data FloatKind : Type 0 where
  float32 float64 : FloatKind

pub data ComplexKind : Type 0 where
  complex64 complex128 : ComplexKind

-- types.BasicKind; byte and rune are uint8 and int32
pub data BasicKind : Type 0 where
  boolean string unsafe_pointer : BasicKind
  integer : IntKind → BasicKind
  float : FloatKind → BasicKind
  complex : ComplexKind → BasicKind
  untyped_bool untyped_int untyped_rune untyped_float untyped_complex : BasicKind
  untyped_string untyped_nil : BasicKind

pub data ChanDir : Type 0 where
  send_recv send_only recv_only : ChanDir

mutual
  pub data GoType : Type 0 where
    basic : BasicKind → GoType
    pointer : GoType → GoType
    array : ℕ → GoType → GoType
    slice : GoType → GoType
    struct : Fields → GoType
    map : GoType → GoType → GoType
    chan : ChanDir → GoType → GoType
    interface : List ℕ → GoType
    signature : Types → Types → Bool → GoType
    tuple : Types → GoType
    named : ℕ → GoType → GoType

  -- the fields of a struct: name, whether it is embedded, type
  pub data Fields : Type 0 where
    end : Fields
    field : ℕ → Bool → GoType → Fields → Fields

  pub data Types : Type 0 where
    nil : Types
    cons : GoType → Types → Types

-- t.Underlying()
unfoldable pub underlying : GoType → GoType
underlying (GoType.named n u) = underlying u
underlying t = t

-- a pointer's element type; any other type is returned as it is
unfoldable pub deref : GoType → GoType
unfolding underlying
deref t = elim (underlying t) [ GoType.pointer e ↦ e | _ ↦ t ]
