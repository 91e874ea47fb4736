-- ===== src/Unary/Laws.antt =====
-- The unary operators on integers, and the dereference.
use temporal_determinizer.Prelude.{ℕ, ◌<◌, ◌≤◌, ◌≡◌, refl, arith, none, some}
use temporal_determinizer.Word
use temporal_determinizer.Word.{IntKind, modulus, int}
use temporal_determinizer.Token.{Token}
use temporal_determinizer.Types.{GoType, deref, underlying}
use temporal_determinizer.Value.{Value, nil_dereference, runtime}
use temporal_determinizer.Heap.{Heap, M, returns, raises, ◌>>=◌, lift, address}
use temporal_determinizer.Equality.{Machine}
use temporal_determinizer.Memory.Done.{Done}
use temporal_determinizer.Memory.Layout.{Laid}
use temporal_determinizer.Memory.Load.{IsCopy, load-IsCopy}
use temporal_determinizer.Ops.{binop}
use temporal_determinizer.Ops.Laws.{type_of, values}
use temporal_determinizer.Unary.{unop}

module _ (m : Machine) (receive : M Value) where
  add-complement :
      (k : IntKind) (a : ℕ) → a < modulus k → Word.add k (Word.complement k a) 1 ≡ Word.neg k a
  unfolding Word.add Word.complement Word.neg
  add-complement int a h = omega arith
  add-complement _ a h = omega arith

  neg-neg : (k : IntKind) (a : ℕ) → a < modulus k → Word.neg k (Word.neg k a) ≡ a
  unfolding Word.neg
  neg-neg int a h = ground arith
  neg-neg _ a h = ground arith

  -- In every integer type -x is ^x + 1, the complement and the sum computed by unop and binop, and
  -- the negation of -x is x.
  pub unop-neg :
      (k : IntKind) (a : ℕ) (c : ℕ → Value) (f : ℕ) (h : Heap)
      → a < modulus k
      → ((do
        x ← unop m.floats receive Token.xor (type_of k) (Value.integer k a)
        lift (binop m c f Token.add (type_of k) x (Value.integer k 1)))
            h
          ≡ unop m.floats receive Token.sub (type_of k) (Value.integer k a) h)
        × ((do
          x ← unop m.floats receive Token.sub (type_of k) (Value.integer k a)
          unop m.floats receive Token.sub (type_of k) x)
              h
            ≡ returns (Value.integer k a) h)
  unfolding unop
  unop-neg k a c f h r = (
    rw ((values m c f k (Word.complement k a) 1).0, add-complement k a r),
    rw (neg-neg k a r) refl,
  )

  -- For a variable that is laid out in allocated memory, *p is a copy of it in fresh cells if p points
  -- to it, and the runtime's panic if p is nil.
  pub unop_load-IsCopy :
      (t : GoType) (h : Heap) (a lo hi : ℕ)
      → a < h.next
      → hi ≤ h.next
      → Laid t h.cell (h.cell a) lo hi
      → (unop m.floats receive Token.mul (GoType.pointer t) (Value.pointer none) h
          ≡ raises (runtime nil_dereference) h)
        × Done
            (unop m.floats receive Token.mul (GoType.pointer t) (Value.pointer (some a)))
            h
            (IsCopy t a h)
  unfolding unop deref underlying address
  unop_load-IsCopy t h a lo hi p q l = (refl, load-IsCopy t h a lo hi p q l)
