-- ===== src/Slices.antt =====
-- Slices: slice, sliceToArrayPointer and the append and copy of callBuiltin in
-- interpreter/internal/interp/ops.go. A slice is a header over cells of the heap, so two slices may
-- share cells. The capacity that append gives a grown slice is a parameter, as Go leaves it open.
pub mod Cells
pub mod Append
pub mod Copy
pub mod Reslice
use temporal_determinizer.Prelude.{
  ℕ, zero, suc, ◌+◌, ◌-◌, ◌^◌, Bool, true, false, ◌&&◌, List, [], ◌∷◌, ◌++◌, map, Option, none,
  some, ltb, leb, ◌==◌, if◌then◌else◌, length,
}
use temporal_determinizer.Word.{IntKind}
use temporal_determinizer.Types.{GoType, BasicKind, underlying}
use temporal_determinizer.Value.{
  Value, Header, Result, ok, panics, fail, fault, slice_out_of_range, type_assertion,
  slice_unexpected, unsupported_conversion, message, array_longer_than_slice,
}
use temporal_determinizer.Heap.{
  M, Heap, returns, pure, raise, ◌>>=◌, ◌>>◌, lift, read, write, alloc, address,
}
use temporal_determinizer.Memory.{as_array, zero as zero_value}
use temporal_determinizer.Ops.{as_int}

-- an absent bound is nil
abbrev pub bound : Value → ℕ → Result ℕ
bound Value.nil_value d = ok d
bound v d = as_int v

-- 0 <= l <= h <= m <= cap, for 64-bit patterns
abbrev pub ordered : ℕ → ℕ → ℕ → ℕ → Bool
ordered l h m cap = leb l h && leb h m && leb m cap && ltb m (2 ^ 63)

-- x[l:h:m]
unfoldable pub reslice : Option Header → ℕ → ℕ → ℕ → Result Value
reslice none l h m = if ordered l h m 0 then ok (Value.slice none) else fault slice_out_of_range
reslice (some x) l h m =
    if ordered l h m x.cap
    then ok (Value.slice (some (record { base = x.base + l; len = h - l; cap = m - l })))
    else fault slice_out_of_range

unfoldable pub drop : List ℕ → ℕ → List ℕ
drop s zero = s
drop [] (suc n) = []
drop (a ∷ s) (suc n) = drop s n

unfoldable pub take : List ℕ → ℕ → List ℕ
take s zero = []
take [] (suc n) = []
take (a ∷ s) (suc n) = a ∷ take s n

-- s[l:h] of a string
unfoldable pub substring : List ℕ → ℕ → ℕ → Result Value
unfolding drop take
substring s l h =
    if ordered l h h (length s)
    then ok (Value.string (take (drop s l) (h - l)))
    else fault slice_out_of_range

abbrev pub header_len : Option Header → ℕ
header_len none = 0
header_len (some x) = x.len

abbrev pub header_cap : Option Header → ℕ
header_cap none = 0
header_cap (some x) = x.cap

-- the bounds are read before the operand's type is looked at a second time
abbrev pub slice_bounds : Value → Value → Value → ℕ → ℕ → (ℕ → ℕ → ℕ → M Value) → M Value
slice_bounds lo hi max len cap rest = do
  l ← lift (bound lo 0)
  h ← lift (bound hi len)
  m ← lift (bound max cap)
  rest l h m

unfoldable pub slice : Value → Value → Value → Value → M Value
unfolding reslice substring as_int
slice (Value.string s) lo hi max =
    slice_bounds lo hi max (length s) 0 λ l h m. lift (substring s l h)
slice (Value.slice x) lo hi max =
    slice_bounds lo hi max (header_len x) (header_cap x) λ l h m. lift (reslice x l h m)
slice (Value.pointer p) lo hi max = do
  a ← address p
  v ← read a
  (b, n) ← lift (as_array v)
  slice_bounds lo hi max n n
      λ l h m. lift (reslice (some (record { base = b; len = n; cap = n })) l h m)
slice x lo hi max = slice_bounds lo hi max 0 0 λ l h m. lift (fail slice_unexpected)

-- the n values from p, and writing values from p on
unfoldable pub contents : (ℕ → Value) → ℕ → ℕ → List Value
contents c p zero = []
contents c p (suc n) = c p ∷ contents c (suc p) n

unfoldable pub write_all : ℕ → List Value → M (Unit {0})
write_all p [] = pure tt
write_all p (v ∷ vs) = do write p v; write_all (suc p) vs

abbrev pub header_of : Option Header → Header
header_of none = record { base = 0; len = 0; cap = 0 }
header_of (some x) = x

abbrev pub header_contents : (ℕ → Value) → Header → List Value
header_contents c x = contents c x.base x.len

-- the elements of a slice, all read before any is written
abbrev pub elements : Header → M (List Value)
elements x h = returns (header_contents h.cell x) h

abbrev pub byte : ℕ → Value
byte a = Value.integer IntKind.uint8 a

abbrev pub min : ℕ → ℕ → ℕ
min a b = if leb a b then a else b

-- copy of Go: as many elements as both slices have
unfoldable pub copy_slice : Option Header → Option Header → M Value
unfolding contents write_all
copy_slice d s = do
  let n = min (header_len d) (header_len s)
  vs ← λ h. returns (contents h.cell (header_of s).base n) h
  write_all (header_of d).base vs
  pure (Value.integer IntKind.int n)

abbrev pub as_slice : Value → Result (Option Header)
as_slice (Value.slice x) = ok x
as_slice _ = fault type_assertion

module _ (grow : ℕ → ℕ → ℕ) where
  -- append of Go: in place if the capacity is enough, else in fresh cells
  unfoldable pub extend : Option Header → List Value → M (Option Header)
  unfolding write_all contents
  extend x [] = pure x
  extend x (v ∷ vs) =
      let y = header_of x in
      let n = y.len + length (v ∷ vs) in
      let k = grow y.cap n in
      if leb n y.cap
      then (write_all (y.base + y.len) (v ∷ vs) >>= λ _.
          pure (some (record { base = y.base; len = n; cap = y.cap })))
      else (elements y >>= λ old. alloc k >>= λ a. write_all a (old ++ (v ∷ vs)) >>= λ _.
          pure (some (record { base = a; len = n; cap = k })))

  -- for _, v := range vs { x = append(x, v) }
  unfoldable pub append_each : Option Header → List Value → M (Option Header)
  unfolding extend
  append_each x [] = pure x
  append_each x (v ∷ vs) = extend x (v ∷ []) >>= λ y. append_each y vs

  -- for i := 0; i < len(s); i++ { arg0 = append(arg0, s[i]) }
  unfoldable pub extend_bytes : Option Header → List ℕ → M (Option Header)
  unfolding append_each
  extend_bytes x s = append_each x (map byte s)

  -- a []byte of the bytes of a string
  unfoldable pub bytes_of : List ℕ → M (Option Header)
  unfolding append_each
  bytes_of s = append_each none (map byte s)

  unfoldable pub builtin_copy : Value → Value → M Value
  unfolding copy_slice bytes_of
  builtin_copy d (Value.string s) = do x ← bytes_of s; e ← lift (as_slice d); copy_slice e x
  builtin_copy d v = do e ← lift (as_slice d); x ← lift (as_slice v); copy_slice e x

  unfoldable pub builtin_append : Value → Option Value → M Value
  unfolding extend extend_bytes
  builtin_append v none = pure v
  builtin_append v (some (Value.string s)) = do
    x ← lift (as_slice v)
    y ← extend_bytes x s
    pure (Value.slice y)
  builtin_append v (some w) = do
    x ← lift (as_slice v)
    z ← lift (as_slice w)
    vs ← elements (header_of z)
    y ← extend x vs
    pure (Value.slice y)

-- a pointer to an array that shares the cells of the slice
unfoldable pub slice_to_array_pointer : GoType → GoType → Value → M Value
unfolding underlying
slice_to_array_pointer dst src v = elim (underlying src) [
  | GoType.slice t ↦ elim (underlying dst) [
    | GoType.pointer (GoType.array n e) ↦ lift (as_slice v) >>= λ x.
        if ltb (header_len x) n then raise (message array_longer_than_slice) else elim x [
          | none ↦ pure (Value.pointer none)
          | some y ↦
              alloc 1 >>= λ a. write a (Value.array y.base n) >>= λ _. pure (Value.pointer (some a))
        ]
    | _ ↦ raise (message unsupported_conversion)
  ]
  | _ ↦ raise (message unsupported_conversion)
]
