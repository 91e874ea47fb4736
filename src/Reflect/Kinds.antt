-- ===== src/Reflect/Kinds.antt =====
-- reflectKind of interpreter/internal/interp/reflect.go. The kinds are those of package reflect.
use temporal_determinizer.Prelude.{ℕ}
use temporal_determinizer.Word.{IntKind}
use temporal_determinizer.Types.{FloatKind, ComplexKind, BasicKind, GoType}
use temporal_determinizer.Value.{Result, ok, fail, unexpected_type}

pub data ReflectKind : Type 0 where
  bool string unsafe_pointer : ReflectKind
  integer : IntKind → ReflectKind
  float : FloatKind → ReflectKind
  complex : ComplexKind → ReflectKind
  array chan func interface map ptr slice struct : ReflectKind

unfoldable pub basic_kind : BasicKind → Result ReflectKind
basic_kind BasicKind.boolean = ok ReflectKind.bool
basic_kind (BasicKind.integer k) = ok (ReflectKind.integer k)
basic_kind (BasicKind.float k) = ok (ReflectKind.float k)
basic_kind (BasicKind.complex k) = ok (ReflectKind.complex k)
basic_kind BasicKind.string = ok ReflectKind.string
basic_kind BasicKind.unsafe_pointer = ok ReflectKind.unsafe_pointer
basic_kind _ = fail unexpected_type

unfoldable pub reflect_kind : GoType → Result ReflectKind
unfolding basic_kind
reflect_kind (GoType.named n u) = reflect_kind u
reflect_kind (GoType.basic k) = basic_kind k
reflect_kind (GoType.array n e) = ok ReflectKind.array
reflect_kind (GoType.chan d e) = ok ReflectKind.chan
reflect_kind (GoType.signature ps rs v) = ok ReflectKind.func
reflect_kind (GoType.interface ms) = ok ReflectKind.interface
reflect_kind (GoType.map k e) = ok ReflectKind.map
reflect_kind (GoType.pointer e) = ok ReflectKind.ptr
reflect_kind (GoType.slice e) = ok ReflectKind.slice
reflect_kind (GoType.struct fs) = ok ReflectKind.struct
reflect_kind (GoType.tuple ts) = fail unexpected_type

abbrev int_number : IntKind → ℕ
int_number IntKind.int = 2
int_number IntKind.int8 = 3
int_number IntKind.int16 = 4
int_number IntKind.int32 = 5
int_number IntKind.int64 = 6
int_number IntKind.uint = 7
int_number IntKind.uint8 = 8
int_number IntKind.uint16 = 9
int_number IntKind.uint32 = 10
int_number IntKind.uint64 = 11
int_number IntKind.uintptr = 12

-- the constants of package reflect
unfoldable pub kind_number : ReflectKind → ℕ
kind_number ReflectKind.bool = 1
kind_number (ReflectKind.integer k) = int_number k
kind_number (ReflectKind.float FloatKind.float32) = 13
kind_number (ReflectKind.float FloatKind.float64) = 14
kind_number (ReflectKind.complex ComplexKind.complex64) = 15
kind_number (ReflectKind.complex ComplexKind.complex128) = 16
kind_number ReflectKind.array = 17
kind_number ReflectKind.chan = 18
kind_number ReflectKind.func = 19
kind_number ReflectKind.interface = 20
kind_number ReflectKind.map = 21
kind_number ReflectKind.ptr = 22
kind_number ReflectKind.slice = 23
kind_number ReflectKind.string = 24
kind_number ReflectKind.struct = 25
kind_number ReflectKind.unsafe_pointer = 26
