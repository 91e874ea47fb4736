-- ===== src/Conv/Numbers.antt =====
-- conv of interpreter/internal/interp/ops.go between integer types, which goes by way of the widest types.
use temporal_determinizer.Prelude.{ℕ, ◌<◌, ◌≡◌, refl, ap, ◌∙◌}
use temporal_determinizer.Word.{IntKind, int, modulus, widest, convert}
use temporal_determinizer.Word.Conversion.{convert-widen}
use temporal_determinizer.Types.{BasicKind, GoType, underlying}
use temporal_determinizer.Float.{Floats}
use temporal_determinizer.Value.{Value, ok}
use temporal_determinizer.Heap.{Heap, returns, lift}
use temporal_determinizer.Convert.{narrow}
use temporal_determinizer.Conv.{conv}

narrow-widest :
    (fl : Floats) (src dst : IntKind) (b : ℕ)
    → narrow fl (BasicKind.integer dst) (Value.integer (widest src) b)
      ≡ ok (Value.integer dst (convert dst (widest src) b))
unfolding narrow
narrow-widest fl int dst b = refl
narrow-widest fl _ dst b = refl

-- Between any two types, named or not, whose underlying types are integer types, conv is Go's direct
-- conversion, which keeps the low bits of the sign-extended pattern, though it goes by way of int64
-- or uint64. The memory stays as it is.
pub conv-convert :
    (grow : ℕ → ℕ → ℕ) (fl : Floats) (dst src : GoType) (j k : IntKind) (a : ℕ) (h : Heap)
    → underlying dst ≡ GoType.basic (BasicKind.integer j)
    → underlying src ≡ GoType.basic (BasicKind.integer k)
    → a < modulus k
    → conv grow fl dst src (Value.integer k a) h ≡ returns (Value.integer j (convert j k a)) h
unfolding conv
conv-convert grow fl dst src j k a h e f low =
    rw (conv, e, f)
      (ap (λ r. lift r h)
        (narrow-widest fl k j _ ∙ ap (λ z. ok (Value.integer j z)) (convert-widen k j a low)))
