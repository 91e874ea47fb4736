-- ===== src/Word/Conversion.antt =====
use temporal_determinizer.Prelude.{ℕ, ◌<◌, ◌≤◌, ◌≡◌, arith}
use temporal_determinizer.Word.{IntKind, int, width, modulus, convert, widest}

pub convert-convert :
    (src dst : IntKind) (a : ℕ)
    → a < modulus src
    → width src ≤ width dst
    → convert src dst (convert dst src a) ≡ a
unfolding convert
convert-convert int int a ha w = ground arith
convert-convert _ _ a ha w = ground arith

-- a conversion by way of the widest type of the category
pub convert-widen :
    (src dst : IntKind) (a : ℕ)
    → a < modulus src
    → convert dst (widest src) (convert (widest src) src a) ≡ convert dst src a
unfolding convert
convert-widen int dst a ha = ground arith
convert-widen _ dst a ha = ground arith
