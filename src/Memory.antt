-- ===== src/Memory.antt =====
-- Variables: zero of ops.go, load and store of value.go, usesBuiltinMap.
-- Structures and arrays are copied element by element, along the static type.
pub mod Layout
pub mod Done
pub mod Trees
pub mod Elems
pub mod Zero
pub mod Load
pub mod Store
pub mod Assign
use temporal_determinizer.Prelude.{ℕ, zero as z, suc, Bool, true, false, none, List}
use temporal_determinizer.Word.{IntKind}
use temporal_determinizer.Types.{
  FloatKind, ComplexKind, BasicKind, GoType, Fields, Types, end, field, nil, cons,
}
use temporal_determinizer.Value.{
  Value, Values, Result, ok, fail, fault, runtime, index_out_of_range, type_assertion,
  untyped_nil_zero, unexpected_zero, invalid_map_key,
}
use temporal_determinizer.Heap.{M, pure, raise, ◌>>=◌, ◌>>◌, lift, read, write, alloc, address}

-- len of the fields
abbrev pub count : Fields → ℕ
count end = 0
count (field n e t r) = suc (count r)

unfoldable pub uses_builtin_map : GoType → Result Bool
uses_builtin_map (GoType.basic k) = ok true
uses_builtin_map (GoType.chan d e) = ok true
uses_builtin_map (GoType.pointer e) = ok true
uses_builtin_map (GoType.named n u) = uses_builtin_map u
uses_builtin_map (GoType.interface ms) = ok false
uses_builtin_map (GoType.array n e) = ok false
uses_builtin_map (GoType.struct fs) = ok false
uses_builtin_map _ = fail invalid_map_key

-- the basic types; an untyped one stands for its default
unfoldable pub zero_basic : BasicKind → Result Value
zero_basic BasicKind.untyped_nil = fail untyped_nil_zero
zero_basic BasicKind.boolean = ok (Value.boolean false)
zero_basic BasicKind.untyped_bool = ok (Value.boolean false)
zero_basic (BasicKind.integer k) = ok (Value.integer k 0)
zero_basic BasicKind.untyped_int = ok (Value.integer IntKind.int 0)
zero_basic BasicKind.untyped_rune = ok (Value.integer IntKind.int32 0)
zero_basic (BasicKind.float k) = ok (Value.float k 0)
zero_basic BasicKind.untyped_float = ok (Value.float FloatKind.float64 0)
zero_basic (BasicKind.complex k) = ok (Value.complex k 0 0)
zero_basic BasicKind.untyped_complex = ok (Value.complex ComplexKind.complex128 0 0)
zero_basic BasicKind.string = ok (Value.string List.[])
zero_basic BasicKind.untyped_string = ok (Value.string List.[])
zero_basic BasicKind.unsafe_pointer = ok (Value.unsafe_pointer none)

-- for i := range a { a[i] = e } over n cells from a
unfoldable pub fill : M Value → ℕ → ℕ → M (Unit {0})
fill e z a = pure tt
fill e (suc n) a = do v ← e; write a v; fill e n (suc a)

unfoldable mutual
  unfolding fill

  pub zero : GoType → M Value
  zero (GoType.basic k) = lift (zero_basic k)
  zero (GoType.pointer e) = pure (Value.pointer none)
  zero (GoType.array n e) = do a ← alloc n; fill (zero e) n a; pure (Value.array a n)
  zero (GoType.named n u) = zero u
  zero (GoType.interface ms) = pure (Value.iface none Value.nil_value)
  zero (GoType.slice e) = pure (Value.slice none)
  zero (GoType.struct fs) = do
    a ← alloc (count fs)
    zero_fields fs a
    pure (Value.structure a (count fs))
  zero (GoType.tuple (cons t nil)) = zero t
  zero (GoType.tuple ts) = do vs ← zero_types ts; pure (Value.tuple vs)
  zero (GoType.chan d e) = pure (Value.chan none)
  zero (GoType.map k e) = do
    native ← lift (uses_builtin_map k)
    pure (elim native [ true ↦ Value.builtin_map none | false ↦ Value.hash_map none ])
  zero (GoType.signature ps rs v) = pure (Value.function none)

  zero_fields : Fields → ℕ → M (Unit {0})
  zero_fields end a = pure tt
  zero_fields (field n e t r) a = do v ← zero t; write a v; zero_fields r (suc a)

  zero_types : Types → M Values
  zero_types nil = pure Values.nil
  zero_types (cons t ts) = do v ← zero t; vs ← zero_types ts; pure (Values.cons v vs)

-- v.(structure) and v.(array), as first cell and length
abbrev pub as_structure : Value → Result (ℕ × ℕ)
as_structure (Value.structure b n) = ok (b, n)
as_structure _ = fault type_assertion

abbrev pub as_array : Value → Result (ℕ × ℕ)
as_array (Value.array b n) = ok (b, n)
as_array _ = fault type_assertion

-- for i := range a { a[i] = load(elem, &v[i]) } over n cells from src
load_elems : (ℕ → M Value) → ℕ → ℕ → ℕ → M (Unit {0})
load_elems e z src dst = pure tt
load_elems e (suc n) src dst = do v ← e src; write dst v; load_elems e n (suc src) (suc dst)

unfoldable mutual
  unfolding load_elems

  pub load : GoType → ℕ → M Value
  load (GoType.named n u) a = load u a
  load (GoType.struct fs) a = do
    v ← read a
    (src, n) ← lift (as_structure v)
    dst ← alloc n
    load_fields fs n src dst
    pure (Value.structure dst n)
  load (GoType.array k e) a = do
    v ← read a
    (src, n) ← lift (as_array v)
    dst ← alloc n
    load_elems (load e) n src dst
    pure (Value.array dst n)
  load _ a = read a

  -- n is the length of the copied structure, which the type may not match
  load_fields : Fields → ℕ → ℕ → ℕ → M (Unit {0})
  load_fields fs z src dst = pure tt
  load_fields end (suc n) src dst = raise (runtime index_out_of_range)
  load_fields (field m e t r) (suc n) src dst = do
    v ← load t src
    write dst v
    load_fields r n (suc src) (suc dst)

-- over the n cells from lhs; the right side has m
store_elems : (ℕ → Value → M (Unit {0})) → ℕ → ℕ → ℕ → ℕ → M (Unit {0})
store_elems e z lhs rhs m = pure tt
store_elems e (suc n) lhs rhs z = raise (runtime index_out_of_range)
store_elems e (suc n) lhs rhs (suc m) = do
  v ← read rhs
  e lhs v
  store_elems e n (suc lhs) (suc rhs) m

unfoldable mutual
  unfolding store_elems

  pub store : GoType → ℕ → Value → M (Unit {0})
  store (GoType.named n u) a v = store u a v
  store (GoType.struct fs) a v = do
    old ← read a
    (lhs, n) ← lift (as_structure old)
    (rhs, m) ← lift (as_structure v)
    store_fields fs n lhs rhs m
  store (GoType.array k e) a v = do
    old ← read a
    (lhs, n) ← lift (as_array old)
    (rhs, m) ← lift (as_array v)
    store_elems (store e) n lhs rhs m
  store _ a v = write a v

  store_fields : Fields → ℕ → ℕ → ℕ → ℕ → M (Unit {0})
  store_fields fs z lhs rhs m = pure tt
  store_fields end (suc n) lhs rhs m = raise (runtime index_out_of_range)
  store_fields (field k e t r) (suc n) lhs rhs z = raise (runtime index_out_of_range)
  store_fields (field k e t r) (suc n) lhs rhs (suc m) = do
    v ← read rhs
    store t lhs v
    store_fields r n (suc lhs) (suc rhs) m
