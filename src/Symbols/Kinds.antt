-- ===== src/Symbols/Kinds.antt =====
-- findReflectType of interpreter/internal/dynreflect/symreflect/package.go beside reflectKind of
-- interpreter/internal/interp/reflect.go.
use temporal_determinizer.Prelude.{ℕ, Bool, ◌≡◌, refl, ◌∙◌, arith, Option, none, some}
use temporal_determinizer.Types.{GoType, underlying}
use temporal_determinizer.Value.{Result, ok}
use temporal_determinizer.Symbols.{
  Kind, Rtype, of_kind, array_of, chan_of, map_of, ptr_to, slice_of, func_of, loaded, named_type,
  find_reflect_type,
}
use temporal_determinizer.Reflect.Kinds.{ReflectKind, reflect_kind}

abbrev kind_of_basic : Kind → ReflectKind
kind_of_basic Kind.bool = ReflectKind.bool
kind_of_basic Kind.string = ReflectKind.string
kind_of_basic Kind.unsafe_pointer = ReflectKind.unsafe_pointer
kind_of_basic (Kind.integer k) = ReflectKind.integer k
kind_of_basic (Kind.float k) = ReflectKind.float k
kind_of_basic (Kind.complex k) = ReflectKind.complex k

-- the kind of a type of package reflect; none for one of the table, a struct or an interface
abbrev pub kind_of : Rtype → Option ReflectKind
kind_of (of_kind k) = some (kind_of_basic k)
kind_of (array_of n r) = some ReflectKind.array
kind_of (chan_of d r) = some ReflectKind.chan
kind_of (map_of r s) = some ReflectKind.map
kind_of (ptr_to r) = some ReflectKind.ptr
kind_of (slice_of r) = some ReflectKind.slice
kind_of (func_of ps rs v) = some ReflectKind.func
kind_of (loaded n) = none

abbrev pub unless_loaded : ReflectKind → Option ReflectKind
unless_loaded ReflectKind.struct = none
unless_loaded ReflectKind.interface = none
unless_loaded k = some k

reflect_kind-underlying : (t : GoType) → reflect_kind (underlying t) ≡ reflect_kind t
unfolding underlying reflect_kind
reflect_kind-underlying (GoType.named n u) = reflect_kind-underlying u
reflect_kind-underlying _ = refl

named_kind :
    (o : Option ℕ) (w : GoType) (rest : Result Rtype) {r : Rtype} {k : ReflectKind}
    → reflect_kind w ≡ ok k
    → named_type o w rest ≡ ok r
    → (rest ≡ ok r → kind_of r ≡ unless_loaded k)
    → kind_of r ≡ unless_loaded k
unfolding reflect_kind
named_kind none (GoType.struct fs) rest e f h = cc
named_kind (some n) (GoType.struct fs) rest e f h = ground arith
named_kind none (GoType.interface ms) rest e f h = cc
named_kind (some n) (GoType.interface ms) rest e f h = ground arith
named_kind o _ rest e f h = h f

-- If findReflectType has a type for t and reflectKind a kind, the type has that kind, or it is one of
-- the binary's table and the kind is that of structs or of interfaces.
pub find_reflect_type-kind :
    (makes : Rtype → Bool) (all : ℕ → Option ℕ) (t : GoType) (r : Rtype) (k : ReflectKind)
    → find_reflect_type makes all t ≡ ok r
    → reflect_kind t ≡ ok k
    → kind_of r ≡ unless_loaded k
unfolding find_reflect_type reflect_kind
find_reflect_type-kind makes all (GoType.named n u) r k e f =
    named_kind (all n) (underlying u) (find_reflect_type makes all u)
      (reflect_kind-underlying u ∙ f) e (λ g. find_reflect_type-kind makes all u r k g f)
find_reflect_type-kind makes all (GoType.basic b) r k e f = ground arith
find_reflect_type-kind makes all _ r k e f = ground arith
