-- ===== src/Ops/Laws.antt =====
-- The laws of the language's integer operators, as the interpreter computes them.
use temporal_determinizer.Prelude.{ℕ, ◌<◌, ◌≡◌, ◌≢◌, Bool, true, not, ◌==◌, arith}
use temporal_determinizer.Prelude.Int.{ℤ}
use temporal_determinizer.Word
use temporal_determinizer.Word.{IntKind, modulus, signed_value}
use temporal_determinizer.Word.Division.{quo-rem}
use temporal_determinizer.Word.Signed.{IsSum, Fits, add_signed}
use temporal_determinizer.Token.{Token}
use temporal_determinizer.Types.{BasicKind, GoType}
use temporal_determinizer.Types.Identity.{int_index}
use temporal_determinizer.Value.{Value, Result, ok, fault, divide_by_zero, ◌>>=◌}
use temporal_determinizer.Equality.{Machine}
use temporal_determinizer.Ops.{binop}

index_self : (k : IntKind) → (int_index k == int_index k) ≡ true
index_self k = ground arith

-- the type of an integer operand
abbrev pub type_of : IntKind → GoType
type_of k = GoType.basic (BasicKind.integer k)

module _ (m : Machine) (c : ℕ → Value) (f : ℕ) (k : IntKind) where
  -- an operator between two integers of the type
  abbrev pub operator : Token → ℕ → ℕ → Result Value
  operator o a b = binop m c f o (type_of k) (Value.integer k a) (Value.integer k b)

  -- every operator's result, for operands of one type
  pub values :
      (a b : ℕ)
      → (operator Token.add a b ≡ ok (Value.integer k (Word.add k a b)))
        × (operator Token.mul a b ≡ ok (Value.integer k (Word.mul k a b)))
        × (operator Token.lss a b ≡ ok (Value.boolean (Word.less k a b)))
        × (operator Token.leq a b ≡ ok (Value.boolean (not (Word.less k b a))))
        × (operator Token.gtr a b ≡ ok (Value.boolean (Word.less k b a)))
        × (operator Token.geq a b ≡ ok (Value.boolean (not (Word.less k a b))))
  unfolding binop
  values a b = (
    rw (index_self k),
    rw (index_self k),
    rw (index_self k),
    rw (index_self k),
    rw (index_self k),
    rw (index_self k),
  )

  quo_value : (a b : ℕ) → b ≢ 0 → operator Token.quo a b ≡ ok (Value.integer k (Word.quo k a b))
  unfolding binop
  quo_value a b h = rw (index_self k) (ground arith)

  rem_value : (a b : ℕ) → b ≢ 0 → operator Token.rem a b ≡ ok (Value.integer k (Word.rem k a b))
  unfolding binop
  rem_value a b h = rw (index_self k) (ground arith)

  -- Of two integers of one type with a divisor that is not 0, the quotient times the divisor plus the
  -- remainder is the dividend, each step computed by binop.
  pub binop-quo-rem :
      (a b : ℕ)
      → a < modulus k
      → b < modulus k
      → b ≢ 0
      → (do
        q ← operator Token.quo a b
        r ← operator Token.rem a b
        p ← binop m c f Token.mul (type_of k) q (Value.integer k b)
        binop m c f Token.add (type_of k) p r)
        ≡ ok (Value.integer k a)
  binop-quo-rem a b ha hb nz = rw (
    quo_value a b nz,
    ◌>>=◌,
    rem_value a b nz,
    (values (Word.quo k a b) b).1,
    (values (Word.mul k (Word.quo k a b) b) (Word.rem k a b)).0,
    quo-rem k a b ha hb,
  )

  -- A division or remainder by 0 panics with the runtime's error, in every integer type.
  pub binop-zero_divisor :
      (a : ℕ)
      → (operator Token.quo a 0 ≡ fault divide_by_zero)
        × (operator Token.rem a 0 ≡ fault divide_by_zero)
  unfolding binop
  binop-zero_divisor a = (rw (index_self k), rw (index_self k))

  -- If the sum of the integers that two patterns stand for fits the type, binop computes it.
  pub binop-add_exact :
      (a b : ℕ) (z : ℤ)
      → a < modulus k
      → b < modulus k
      → IsSum (signed_value k a) (signed_value k b) z
      → Fits k z
      → (r : ℕ) × (operator Token.add a b ≡ ok (Value.integer k r)) × (signed_value k r ≡ z)
  binop-add_exact a b z ha hb s h = (Word.add k a b, (values a b).0, add_signed k a b ha hb z s h)

  -- the answers of the six comparisons
  abbrev pub Answers : ℕ → ℕ → Bool → Bool → Bool → Type 0
  Answers a b lt eq gt =
      (operator Token.lss a b ≡ ok (Value.boolean lt))
      × (operator Token.eql a b ≡ ok (Value.boolean eq))
      × (operator Token.gtr a b ≡ ok (Value.boolean gt))
      × (operator Token.leq a b ≡ ok (Value.boolean (not gt)))
      × (operator Token.neq a b ≡ ok (Value.boolean (not eq)))
      × (operator Token.geq a b ≡ ok (Value.boolean (not lt)))
