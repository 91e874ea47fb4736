-- ===== src/Float.antt =====
-- Floating-point arithmetic is the host's: an interface, over bit patterns.
use temporal_determinizer.Prelude.{ℕ, Bool, true, ◌≡◌}
use temporal_determinizer.Word.{IntKind}
use temporal_determinizer.Types.{FloatKind, ComplexKind}

pub data Arithmetic : Type 0 where
  plus minus times divide : Arithmetic

pub record Floats : Type 0 where
  pub arith : Arithmetic → FloatKind → ℕ → ℕ → ℕ
  pub negate : FloatKind → ℕ → ℕ
  pub equal : FloatKind → ℕ → ℕ → Bool
  pub less : FloatKind → ℕ → ℕ → Bool
  pub less_equal : FloatKind → ℕ → ℕ → Bool
  -- conversions: between the float types, from a 64-bit pattern, signed or not, and to an integer
  pub convert : FloatKind → FloatKind → ℕ → ℕ
  pub of_int : Bool → FloatKind → ℕ → ℕ
  pub to_int : FloatKind → IntKind → ℕ → ℕ
  -- the real and the imaginary part of the result of complex arithmetic
  pub complex_re : Arithmetic → ComplexKind → ℕ → ℕ → ℕ → ℕ → ℕ
  pub complex_im : Arithmetic → ComplexKind → ℕ → ℕ → ℕ → ℕ → ℕ

-- floats that compare equal, such as 0 and -0, convert to the same integer
pub record AgreesOnEqual (fl : Floats) : Type 0 where
  pub to_int-equal :
      (f : FloatKind) (k : IntKind) (a b : ℕ)
      → fl.equal f a b ≡ true
      → fl.to_int f k a ≡ fl.to_int f k b
