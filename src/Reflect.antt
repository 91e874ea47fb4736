-- ===== src/Reflect.antt =====
-- The emulation of package reflect in interpreter/internal/interp/reflect.go: the values that stand for
-- reflect.Value and reflect.Type, and the methods of rtype. What go/types says of a type beyond its
-- structure is a parameter.
pub mod Kinds
pub mod Values
pub mod Access
pub mod Init
pub mod Box
pub mod RoundTrip
pub mod Nil
pub mod New
pub mod Index
pub mod Dispatch
use temporal_determinizer.Prelude.{
  ℕ, zero, suc, ◌*◌, ◌%◌, ◌^◌, Bool, List, [], ◌∷◌, Option, none, some, length,
}
use temporal_determinizer.Word.{IntKind}
use temporal_determinizer.Types.{GoType, Fields, Types, end, field, nil, cons, underlying}
use temporal_determinizer.Value.{
  Value, Header, nil_value, Result, ok, fail, fault, index_out_of_range, type_assertion,
  nil_dereference, non_basic_type, unexpected_type,
}
use temporal_determinizer.Heap
use temporal_determinizer.Heap.{M, alloc, write}
use temporal_determinizer.Memory
use temporal_determinizer.Memory.{as_structure}
use temporal_determinizer.Equality.{assert_rtype, assert_integer, assert_iface}
use temporal_determinizer.Elements.{read_element}
use temporal_determinizer.Slices.{write_all}
use temporal_determinizer.Store.{S, pure, ◌>>=◌, pure_of, on_heap}
use temporal_determinizer.Program.{Host, Program}
use temporal_determinizer.Builtins.{arg}
use temporal_determinizer.Reflect.Kinds.{reflect_kind, kind_number}

-- sizes.Sizeof, Type.String, and of a field its name, the path of its package and its tag
pub record Descriptions : Type 0 where
  pub size : GoType → ℕ
  pub text : GoType → List ℕ
  pub field_name : ℕ → List ℕ
  pub field_path : Fields → ℕ → List ℕ
  pub field_tag : Fields → ℕ → List ℕ

-- structure{...}, in fresh cells
unfoldable pub new_structure : List Value → M Value
unfolding write_all
new_structure vs h =
    Heap.◌>>=◌ (alloc (length vs))
      (λ a. Heap.◌>>=◌ (write_all a vs) (λ _. Heap.pure (Value.structure a (length vs)))) h

unfoldable pub make_reflect_value : Option GoType → Value → M Value
unfolding new_structure
make_reflect_value t v = new_structure (Value.rtype t ∷ v ∷ [])

-- v.(structure)[i]
abbrev pub part_of : ℕ → Value → S Value
part_of i v = pure_of (as_structure v) >>= λ s. on_heap (read_element s i)

unfoldable pub rv2t : Value → S (Option GoType)
rv2t v = part_of 0 v >>= λ x. pure_of (assert_rtype x)

unfoldable pub rv2v : Value → S Value
rv2v v = part_of 1 v

-- a method of a nil types.Type
abbrev pub known : Option GoType → Result GoType
known none = fault nil_dereference
known (some t) = ok t

-- args[i].(rtype).t, args[i].(int) and args[i].(iface)
abbrev pub type_arg : List Value → ℕ → S (Option GoType)
type_arg args i = pure_of (arg args i) >>= λ v. pure_of (assert_rtype v)

abbrev pub known_arg : List Value → S GoType
known_arg args = type_arg args 0 >>= λ t. pure_of (known t)

abbrev pub int_arg : List Value → ℕ → S ℕ
int_arg args i = pure_of (arg args i) >>= λ v. pure_of (assert_integer IntKind.int v)

abbrev pub iface_arg : List Value → S (Option GoType × Value)
iface_arg args = pure_of (arg args 0) >>= λ v. pure_of (assert_iface v)

-- args[0].(iface).v.(rtype).t
abbrev pub boxed_type_arg : List Value → S (Option GoType)
boxed_type_arg args = iface_arg args >>= λ (t, v). pure_of (assert_rtype v)

abbrev pub int : ℕ → Value
int n = Value.integer IntKind.int n

-- assertions of a types.Type, after Underlying or without it
abbrev pub as_struct_type : GoType → Result Fields
as_struct_type (GoType.struct fs) = ok fs
as_struct_type _ = fault type_assertion

abbrev pub as_signature : Option GoType → Result (Types × Types)
as_signature (some (GoType.signature ps rs v)) = ok (ps, rs)
as_signature _ = fault type_assertion

-- the types with a method Elem
unfoldable pub elem_of : GoType → Result GoType
elem_of (GoType.array n e) = ok e
elem_of (GoType.chan d e) = ok e
elem_of (GoType.map k e) = ok e
elem_of (GoType.pointer e) = ok e
elem_of (GoType.slice e) = ok e
elem_of _ = fault type_assertion

abbrev type_at : Types → ℕ → Result GoType
type_at nil i = fault index_out_of_range
type_at (cons t ts) zero = ok t
type_at (cons t ts) (suc i) = type_at ts i

-- At of a tuple, which is nil if it has no variable
abbrev pub at : Types → ℕ → Result GoType
at nil i = fault nil_dereference
at ts i = type_at ts i

abbrev pub len : Types → ℕ
len nil = 0
len (cons t ts) = suc (len ts)

-- Field of a struct type: the name, whether it is embedded, and the type
unfoldable pub field_at : Fields → ℕ → Result (ℕ × Bool × GoType)
field_at end i = fault index_out_of_range
field_at (field n b t r) zero = ok (n, b, t)
field_at (field n b t r) (suc i) = field_at r i

module _ (prog : Program) where
  abbrev pub make_reflect_type : Option GoType → Value
  make_reflect_type t = Value.iface (some prog.rtype_type) (Value.rtype t)

  unfoldable pub rtype_elem : List Value → S Value
  unfolding underlying elem_of
  rtype_elem args = do
    t ← known_arg args
    e ← pure_of (elem_of (underlying t))
    pure (make_reflect_type (some e))

  unfoldable pub rtype_in : List Value → S Value
  rtype_in args = do
    i ← int_arg args 1
    t ← type_arg args 0
    (ps, rs) ← pure_of (as_signature t)
    p ← pure_of (at ps i)
    pure (make_reflect_type (some p))

  unfoldable pub rtype_out : List Value → S Value
  rtype_out args = do
    i ← int_arg args 1
    t ← type_arg args 0
    (ps, rs) ← pure_of (as_signature t)
    r ← pure_of (at rs i)
    pure (make_reflect_type (some r))

  -- the offset and the indices are not given
  unfoldable pub rtype_field : Descriptions → List Value → S Value
  unfolding underlying field_at new_structure
  rtype_field d args = do
    t ← known_arg args
    fs ← pure_of (as_struct_type (underlying t))
    i ← int_arg args 1
    (n, b, ft) ← pure_of (field_at fs i)
    empty ← on_heap (alloc 0)
    on_heap (
        new_structure (
          Value.string (d.field_name n)
          ∷ Value.string (d.field_path fs i)
          ∷ make_reflect_type (some ft)
          ∷ Value.string (d.field_tag fs i)
          ∷ int 0
          ∷ Value.slice (some (record { base = empty; len = 0; cap = 0 }))
          ∷ Value.boolean b
          ∷ []))

  unfoldable pub slice_of : List Value → S Value
  slice_of args = do
    t ← boxed_type_arg args
    e ← pure_of (known t)
    pure (make_reflect_type (some (GoType.slice e)))

  unfoldable pub type_of : List Value → S Value
  type_of args = do (t, v) ← iface_arg args; pure (make_reflect_type t)

unfoldable pub rtype_bits : Descriptions → List Value → S Value
unfolding underlying
rtype_bits d args = do
  t ← known_arg args
  elim (underlying t) [
    | GoType.basic k ↦ pure (int (d.size (GoType.basic k) * 8 % 2 ^ 64))
    | _ ↦ pure_of (fail non_basic_type)
  ]

-- a kind of no type is the panic for an unexpected one
abbrev pub kind_of : Option GoType → S Value
kind_of none = pure_of (fail unexpected_type)
kind_of (some t) =
    pure_of (reflect_kind t) >>= λ k. pure (Value.integer IntKind.uint (kind_number k))

unfoldable pub rtype_kind : List Value → S Value
unfolding reflect_kind kind_number
rtype_kind args = do t ← type_arg args 0; kind_of t

unfoldable pub rtype_num_field : List Value → S Value
unfolding underlying
rtype_num_field args = do
  t ← known_arg args
  fs ← pure_of (as_struct_type (underlying t))
  pure (int (Memory.count fs))

unfoldable pub rtype_num_in : List Value → S Value
rtype_num_in args = do t ← type_arg args 0; (ps, rs) ← pure_of (as_signature t); pure (int (len ps))

unfoldable pub rtype_num_out : List Value → S Value
rtype_num_out args = do
  t ← type_arg args 0
  (ps, rs) ← pure_of (as_signature t)
  pure (int (len rs))

unfoldable pub rtype_num_method : Host → List Value → S Value
rtype_num_method host args = do t ← known_arg args; pure (int (length (host.methods t)))

unfoldable pub rtype_size : Descriptions → List Value → S Value
rtype_size d args = do t ← known_arg args; pure (Value.integer IntKind.uintptr (d.size t % 2 ^ 64))

unfoldable pub rtype_string : Descriptions → List Value → S Value
rtype_string d args = do t ← known_arg args; pure (Value.string (d.text t))
