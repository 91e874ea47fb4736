-- ===== src/Elements/Make.antt =====
-- MakeSlice of visitInstr in interpreter/internal/interp/interp.go.
use temporal_determinizer.Prelude.{ℕ, ◌^◌, ◌≤◌, ◌<◌, ◌≡◌, refl, arith, some, lt→ltb}
use temporal_determinizer.Word
use temporal_determinizer.Word.{IntKind}
use temporal_determinizer.Types.{GoType}
use temporal_determinizer.Value.{Value, ok}
use temporal_determinizer.Heap.{Heap, alloc}
use temporal_determinizer.Memory.{zero, fill}
use temporal_determinizer.Memory.Done.{Done, >>=-returns}
use temporal_determinizer.Memory.Trees.{IsStorable}
use temporal_determinizer.Memory.Elems.{with_room}
use temporal_determinizer.Memory.Zero.{IsZero, fill-IsZero}
use temporal_determinizer.Slices.{reslice}
use temporal_determinizer.Elements.{make_slice}

abbrev int : ℕ → Value
int n = Value.integer IntKind.int n

int-convert : (n : ℕ) → n < 2 ^ 63 → Word.convert IntKind.int IntKind.int n ≡ n
unfolding Word.convert
int-convert n h = ground arith

reslice-whole :
    (a n k : ℕ)
    → n ≤ k
    → k < 2 ^ 63
    → reslice (some (record { base = a; len = k; cap = k })) 0 n k
      ≡ ok (Value.slice (some (record { base = a; len = n; cap = k })))
unfolding reslice
reslice-whole a n k h l = ground arith

-- make([]T, n, k) with 0 <= n <= k gives a slice of length n and capacity k over k fresh cells, which
-- show k zero values of the type of a variable; the old cells keep their contents.
pub make_slice-IsZero :
    (t : GoType)
    → IsStorable t
    → (n k : ℕ) → n ≤ k
    → k < 2 ^ 63
    → (h : Heap)
    → Done (make_slice t (int n) (int k)) h λ v h'.
      (v ≡ Value.slice (some (record { base = h.next; len = n; cap = k })))
      × IsZero (GoType.array k t) h (Value.array h.next k) h'
unfolding make_slice alloc
make_slice-IsZero t s n k p q h =
    let (u, h', e, z) = fill-IsZero t s k h in
    (
      _,
      h',
      rw (int-convert k q, lt→ltb k (2 ^ 63) q)
          (>>=-returns (fill (zero t) k h.next) _ (with_room h k) e
            (rw (int-convert n (omega (arith, p, q)), reslice-whole h.next n k p q) refl)),
      (refl, z),
    )
