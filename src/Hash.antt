-- ===== src/Hash.antt =====
-- The hash that goes with Go's == on boxed values: hashString, hash and the hash methods of value.go.
-- An int is a 64-bit pattern; sums wrap around.
pub mod Consistent
pub mod Nil
use temporal_determinizer.Prelude.{
  ℕ, zero, suc, ◌+◌, ◌-◌, ◌*◌, ◌%◌, ◌^◌, bit_xor, true, false, List, [], ◌∷◌, Option, none, some,
  if◌then◌else◌,
}
use temporal_determinizer.Word
use temporal_determinizer.Word.{int}
use temporal_determinizer.Types.{GoType, Fields, end, field}
use temporal_determinizer.Value.{
  Value, Result, ok, panics, fail, fault, ◌>>=◌, exhausted, type_assertion, index_out_of_range,
  unhashable,
}
use temporal_determinizer.Equality.{Machine, part}

-- one round of the FNV loop, on a uint32
fnv : ℕ → List ℕ → ℕ
fnv h [] = h
fnv h (b ∷ s) = fnv ((bit_xor h b * 16777619) % 2 ^ 32) s

unfoldable pub hash_string : List ℕ → ℕ
unfolding fnv
hash_string s = fnv 0 s

abbrev pub Hasher : Type 0
Hasher = Value → Result ℕ

module _ (m : Machine) (c : ℕ → Value) where
  abbrev pub address_hash : (ℕ → ℕ) → Option ℕ → ℕ
  address_hash f none = 0
  address_hash f (some a) = f a % 2 ^ 64

  -- the contents of an interface: a nil interface holds nil, which has no hash
  abbrev pub contents_hash : (GoType → Hasher) → Option GoType → Hasher
  contents_hash rec none v = fail unhashable
  contents_hash rec (some t) v = rec t v

  unfoldable pub hash_leaf : (GoType → Hasher) → Hasher
  hash_leaf rec (Value.boolean b) = ok (if b then 1 else 0)
  hash_leaf rec (Value.integer k a) = ok (Word.convert int k a)
  hash_leaf rec (Value.float k a) = ok (m.floats.to_int k int a)
  hash_leaf rec (Value.complex k a b) = ok (m.floats.to_int (part k) int a)
  hash_leaf rec (Value.string s) = ok (hash_string s)
  hash_leaf rec (Value.pointer p) = ok (address_hash m.cell_address p)
  hash_leaf rec (Value.chan p) = ok (address_hash m.chan_address p)
  hash_leaf rec (Value.structure b n) = fault type_assertion
  hash_leaf rec (Value.array b n) = fault type_assertion
  hash_leaf rec (Value.iface t v) = do
    a ← m.hash_type t
    b ← contents_hash rec t v
    ok ((a * 8581 + b) % 2 ^ 64)
  hash_leaf rec (Value.rtype t) = m.hash_type t
  hash_leaf rec _ = fail unhashable

  -- for _, xi := range x { h += hash(xi) }
  unfoldable pub hash_elems : Hasher → ℕ → ℕ → ℕ → Result ℕ
  hash_elems e h zero p = ok h
  hash_elems e h (suc n) p = do a ← e (c p); hash_elems e (Word.add int h a) n (suc p)

  unfoldable mutual
    unfolding hash_leaf hash_elems

    pub hash_at : (GoType → Hasher) → GoType → Hasher
    hash_at rec (GoType.named n u) x = hash_at rec u x
    hash_at rec (GoType.struct fs) (Value.structure b n) = hash_fields rec fs 0 n b
    hash_at rec (GoType.array i e) (Value.array b n) = hash_elems (hash_at rec e) 0 n b
    hash_at rec _ x = hash_leaf rec x

    -- embedded fields are passed over
    pub hash_fields : (GoType → Hasher) → Fields → ℕ → ℕ → ℕ → Result ℕ
    hash_fields rec end h n p = ok h
    hash_fields rec (field i true t r) h n p = hash_fields rec r h (n - 1) (suc p)
    hash_fields rec (field i false t r) h zero p = fault index_out_of_range
    hash_fields rec (field i false t r) h (suc n) p = do
      a ← hash_at rec t (c p)
      hash_fields rec r (Word.add int h a) n (suc p)

  unfoldable pub hash : ℕ → GoType → Hasher
  unfolding hash_at
  hash zero = hash_at (λ t x. panics exhausted)
  hash (suc f) = hash_at (hash f)
