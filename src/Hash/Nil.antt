-- ===== src/Hash/Nil.antt =====
-- The nil interface as a key of a map: hash has no case for the nil that it holds.
use temporal_determinizer.Prelude.{ℕ, zero, suc, ◌≡◌, refl, true, none, List}
use temporal_determinizer.Types.{GoType}
use temporal_determinizer.Value.{
  Value, nil_value, Result, ok, panics, Panic, message, fail, unhashable, ◌>>=◌,
}
use temporal_determinizer.Equality.{Machine, equals}
use temporal_determinizer.Hash.{hash}

abbrev nil_key : Value
nil_key = Value.iface none nil_value

fails : (r : Result ℕ) → (e : Panic) × ((r >>= λ a. fail {A = ℕ} unhashable) ≡ panics e)
fails (ok a) = (message unhashable, refl)
fails (panics e) = (e, refl)

-- At every interface type the nil interface is equal to itself, and its hash is a panic.
pub hash_nil :
    (m : Machine) (c : ℕ → Value) (f : ℕ) (ms : List ℕ)
    → (equals m c f (GoType.interface ms) nil_key nil_key ≡ ok true)
      × ((e : Panic) × (hash m c f (GoType.interface ms) nil_key ≡ panics e))
unfolding equals hash
hash_nil m c zero ms = (refl, fails (m.hash_type none))
hash_nil m c (suc f) ms = (refl, fails (m.hash_type none))
