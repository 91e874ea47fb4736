-- ===== src/Elements.antt =====
-- FieldAddr, IndexAddr, Field, Index and MakeSlice of visitInstr in
-- interpreter/internal/interp/interp.go: addresses of elements, elements, and fresh slices.
pub mod Make
use temporal_determinizer.Prelude.{ℕ, ◌+◌, ◌^◌, Option, none, some, ltb, if◌then◌else◌}
use temporal_determinizer.Types.{GoType}
use temporal_determinizer.Value.{
  Value, Header, Result, ok, fault, message, index_out_of_range, size_out_of_range,
  index_addr_unexpected,
}
use temporal_determinizer.Heap.{M, raise, pure, ◌>>=◌, lift, read, alloc, address}
use temporal_determinizer.Memory.{zero, fill, as_structure, as_array}
use temporal_determinizer.Equality.{assert_pointer}
use temporal_determinizer.Ops.{as_int}
use temporal_determinizer.Slices.{reslice}

-- the cell of an element, and its content
abbrev pub element : ℕ × ℕ → ℕ → Result ℕ
element (b, n) i = if ltb i n then ok (b + i) else fault index_out_of_range

abbrev pub read_element : ℕ × ℕ → ℕ → M Value
read_element x i = lift (element x i) >>= read

unfoldable pub field_addr : Value → ℕ → M Value
field_addr x i = lift (assert_pointer x) >>= λ p. address p >>= λ a. read a >>= λ v.
    lift (as_structure v) >>= λ s. lift (element s i) >>= λ c. pure (Value.pointer (some c))

abbrev pub header_cells : Option Header → ℕ × ℕ
header_cells none = (0, 0)
header_cells (some h) = (h.base, h.len)

unfoldable pub index_addr : Value → Value → M Value
unfolding as_int
index_addr (Value.slice h) idx = lift (as_int idx) >>= λ i.
    lift (element (header_cells h) i) >>= λ c. pure (Value.pointer (some c))
index_addr (Value.pointer p) idx = address p >>= λ a. read a >>= λ v. lift (as_array v) >>= λ x.
    lift (as_int idx) >>= λ i. lift (element x i) >>= λ c. pure (Value.pointer (some c))
index_addr _ idx = raise (message index_addr_unexpected)

-- a size that is not negative
abbrev pub checked : ℕ → Result ℕ
checked n = if ltb n (2 ^ 63) then ok n else fault size_out_of_range

-- make([]T, n, k): a size must not be negative
unfoldable pub make_slice : GoType → Value → Value → M Value
unfolding as_int reslice fill
make_slice e n k = lift (as_int k) >>= λ cap. lift (checked cap) >>= λ c. alloc c >>= λ a.
    fill (zero e) c a >>= λ _.
    lift (as_int n) >>= λ len. lift (reslice (some (record { base = a; len = c; cap = c })) 0 len c)
