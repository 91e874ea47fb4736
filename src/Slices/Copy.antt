-- ===== src/Slices/Copy.antt =====
-- What copy leaves in the target and in the cells of others.
use temporal_determinizer.Prelude.{
  ℕ, ◌+◌, ◌≤◌, ◌<◌, ◌≡◌, refl, sym, ◌∙◌, ◌++◌, length, arith, ◌⊎◌, inl, inr, Option, none, some,
  ◌-◌,
}
use mathlib.Core.Path.{ap₂}
use temporal_determinizer.Word.{IntKind}
use temporal_determinizer.Value.{Value, Header}
use temporal_determinizer.Heap.{Heap}
use temporal_determinizer.Memory.Done.{Done}
use temporal_determinizer.Slices.{
  contents, header_of, header_contents, min, header_len, copy_slice, builtin_copy,
}
use temporal_determinizer.Slices.Cells.{
  wrote, written, written-before, written-after, contents-congr, contents-written, contents-sum,
  length-contents, contents_same,
}

-- `d` holds the first elements of `s`, as they were, and then its own; only its cells have changed
pub record IsCopied (d s : Header) (n : ℕ) (h h' : Heap) : Type 0 where
  pub next : h'.next ≡ h.next
  pub holds :
      header_contents h'.cell d
      ≡ contents h.cell s.base n ++ contents h.cell (d.base + n) (d.len - n)
  pub keeps : (q : ℕ) → (q < d.base) ⊎ (d.base + n ≤ q) → h'.cell q ≡ h.cell q

min_le : (d : Option Header) (k : ℕ) → min (header_len d) k ≤ (header_of d).len
min_le none k = ground arith
min_le (some x) k = ground arith

copied :
    (d s : Header) (n : ℕ) (h : Heap)
    → n ≤ d.len
    → IsCopied d s n h (record h { cell = written h.cell d.base (contents h.cell s.base n) })
copied d s n h le =
    let vs = contents h.cell s.base n in
    let c = written h.cell d.base vs in
    let k = length-contents h.cell s.base n in
    record {
      next = refl;
      holds =
          contents_same c {m = d.len} {n = n + (d.len - n)} refl (omega (arith, le))
          ∙ contents-sum c d.base n (d.len - n)
          ∙ ap₂ ◌++◌
              (contents_same c {m = n} {n = length vs} refl (sym k)
                ∙ contents-written h.cell d.base vs)
              (contents-congr c h.cell (d.base + n) (d.len - n)
                (λ q a b. written-after h.cell d.base vs q (omega (arith, k))));
      keeps = λ q b. elim b [
        | inl i ↦ written-before h.cell d.base vs q i
        | inr i ↦ written-after h.cell d.base vs q (omega (arith, k))
      ];
    }

copy_slice-IsCopied :
    (d s : Option Header) (h : Heap)
    → Done (copy_slice d s) h (λ v h'.
      (v ≡ Value.integer IntKind.int (min (header_len d) (header_len s)))
      × IsCopied (header_of d) (header_of s) (min (header_len d) (header_len s)) h h')
unfolding copy_slice
copy_slice-IsCopied d s h =
    let n = min (header_len d) (header_len s) in
    let vs = contents h.cell (header_of s).base n in
    let p = (header_of d).base in
    (
      Value.integer IntKind.int n,
      record h { cell = written h.cell p vs },
      wrote p vs (Value.integer IntKind.int n) h,
      (refl, copied (header_of d) (header_of s) n h (min_le d (header_len s))),
    )

-- The case of copy in callBuiltin, between two slices: it ends normally with the smaller length, and the
-- target then starts with that many elements of the source, as they were before, also where the two
-- share cells; every other cell is kept.
pub builtin_copy-IsCopied :
    (grow : ℕ → ℕ → ℕ) (d s : Option Header) (h : Heap)
    → Done (builtin_copy grow (Value.slice d) (Value.slice s)) h (λ v h'.
      (v ≡ Value.integer IntKind.int (min (header_len d) (header_len s)))
      × IsCopied (header_of d) (header_of s) (min (header_len d) (header_len s)) h h')
unfolding builtin_copy
builtin_copy-IsCopied grow d s h = copy_slice-IsCopied d s h
