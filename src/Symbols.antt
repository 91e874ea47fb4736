-- ===== src/Symbols.antt =====
-- interpreter/internal/dynreflect/symreflect/package.go: findReflectType and basicZero, from a type of
-- go/types to the reflect.Type that stands for it, and the names that loadFuncs splits.
-- The table of the types of the running binary, which is read with unsafe, is a parameter: it has a
-- number for the package and the name of a named type, if the binary knows the type.
pub mod Back
pub mod Tables
pub mod Funcs
pub mod Kinds
use temporal_determinizer.Prelude.{
  ℕ, Bool, true, List, [], ◌∷◌, ◌++◌, Option, none, some, ◌==◌, if◌then◌else◌,
}
use temporal_determinizer.Word.{IntKind}
use temporal_determinizer.Types.{
  FloatKind, ComplexKind, BasicKind, ChanDir, GoType, Types, nil, cons, underlying,
}
use temporal_determinizer.Value.{
  Result, ok, fail, ◌>>=◌, type_not_found, type_unsupported, kind_unrecognized, has_receiver,
  refused_by_reflect,
}

-- the kinds of the values that basicZero returns
pub data Kind : Type 0 where
  bool string unsafe_pointer : Kind
  integer : IntKind → Kind
  float : FloatKind → Kind
  complex : ComplexKind → Kind

-- what the constructors of package reflect make, and the types of the table
mutual
  pub data Rtype : Type 0 where
    of_kind : Kind → Rtype
    array_of : ℕ → Rtype → Rtype
    chan_of : ChanDir → Rtype → Rtype
    map_of : Rtype → Rtype → Rtype
    ptr_to : Rtype → Rtype
    slice_of : Rtype → Rtype
    func_of : Rtypes → Rtypes → Bool → Rtype
    loaded : ℕ → Rtype

  pub data Rtypes : Type 0 where
    none_left : Rtypes
    more : Rtype → Rtypes → Rtypes

-- reflect.TypeOf(basicZero(t))
unfoldable pub basic_zero : BasicKind → Result Kind
basic_zero BasicKind.boolean = ok bool
basic_zero BasicKind.untyped_bool = ok bool
basic_zero (BasicKind.integer k) = ok (integer k)
basic_zero BasicKind.untyped_rune = ok (integer IntKind.int32)
basic_zero BasicKind.untyped_int = ok (integer IntKind.int64)
basic_zero (BasicKind.float k) = ok (float k)
basic_zero BasicKind.untyped_float = ok (float FloatKind.float64)
basic_zero (BasicKind.complex k) = ok (complex k)
basic_zero BasicKind.untyped_complex = ok (complex ComplexKind.complex128)
basic_zero BasicKind.string = ok string
basic_zero BasicKind.untyped_string = ok string
basic_zero BasicKind.unsafe_pointer = ok unsafe_pointer
basic_zero BasicKind.untyped_nil = fail kind_unrecognized

-- ret := all[pkgName][name], which must be there
abbrev pub found : Option ℕ → Result Rtype
found (some r) = ok (loaded r)
found none = fail type_not_found

-- a named type: a struct or an interface is looked up, any other is taken for its underlying type
abbrev pub named_type : Option ℕ → GoType → Result Rtype → Result Rtype
named_type r (GoType.struct fs) rest = found r
named_type r (GoType.interface ms) rest = found r
named_type r u rest = rest

-- `makes` says which types the constructors of package reflect make: they panic on others, as ChanOf on
-- large elements and MapOf on keys that cannot be compared
module _ (makes : Rtype → Bool) where
  abbrev pub made : Rtype → Result Rtype
  made r = if makes r then ok r else fail refused_by_reflect

module _ (makes : Rtype → Bool) (all : ℕ → Option ℕ) where
  unfoldable mutual
    unfolding underlying basic_zero

    pub find_reflect_type : GoType → Result Rtype
    find_reflect_type (GoType.array n e) = do r ← find_reflect_type e; made makes (array_of n r)
    find_reflect_type (GoType.basic k) = do z ← basic_zero k; ok (of_kind z)
    find_reflect_type (GoType.chan d e) = do r ← find_reflect_type e; made makes (chan_of d r)
    find_reflect_type (GoType.map k e) = do
      r ← find_reflect_type k
      s ← find_reflect_type e
      made makes (map_of r s)
    find_reflect_type (GoType.named n u) =
        let rest = find_reflect_type u in named_type (all n) (underlying u) rest
    find_reflect_type (GoType.pointer e) = do r ← find_reflect_type e; made makes (ptr_to r)
    find_reflect_type (GoType.signature ps rs v) = do
      in_ ← find_reflect_types ps
      out ← find_reflect_types rs
      made makes (func_of in_ out v)
    find_reflect_type (GoType.slice e) = do r ← find_reflect_type e; made makes (slice_of r)
    find_reflect_type (GoType.struct fs) = fail type_unsupported
    find_reflect_type (GoType.interface ms) = fail type_unsupported
    find_reflect_type (GoType.tuple ts) = fail type_unsupported

    pub find_reflect_types : Types → Result Rtypes
    find_reflect_types nil = ok none_left
    find_reflect_types (cons t ts) = do
      r ← find_reflect_type t
      rs ← find_reflect_types ts
      ok (more r rs)

  -- a type that may be the signature of a method, with a receiver; no type within a type is one
  unfoldable pub find_method_type : Bool → GoType → Result Rtype
  unfolding find_reflect_type
  find_method_type true (GoType.signature ps rs v) = fail has_receiver
  find_method_type recv t = find_reflect_type t

-- strings.LastIndex and strings.Index of a byte: what stands before it and after it
unfoldable pub cut_last : ℕ → List ℕ → Option (List ℕ × List ℕ)
cut_last c [] = none
cut_last c (a ∷ s) =
    let rest = cut_last c s in
    elim rest [ some r ↦ some (a ∷ r.0, r.1) | none ↦ if a == c then some ([], s) else none ]

unfoldable pub cut_first : ℕ → List ℕ → Option (List ℕ × List ℕ)
cut_first c [] = none
cut_first c (a ∷ s) =
    let rest = cut_first c s in
    if a == c then some ([], s) else elim rest [ some r ↦ some (a ∷ r.0, r.1) | none ↦ none ]

-- the package and the name of a function, split at the first dot after the last slash, or else at
-- that slash; none if the function is passed over
unfoldable pub split_func_name : List ℕ → Option (List ℕ × List ℕ)
unfolding cut_last cut_first
split_func_name s = elim (cut_last 47 s) [
  | none ↦ cut_first 46 s
  | some (dir, t) ↦ elim (cut_first 46 t) [
    | none ↦ some (dir, t)
    | some (base, name) ↦ some (dir ++ (47 ∷ base), name)
  ]
]
