-- ===== src/Equality/Shape.antt =====
-- Values as well-typed programs have them: an array has the length that its type states, also inside
-- structures, arrays and interfaces.
use temporal_determinizer.Prelude.{ℕ, zero, suc, ◌≡◌, true, false, some}
use temporal_determinizer.Types.{GoType, Fields, end, field}
use temporal_determinizer.Value.{Value}

abbrev Predicate : Type 1
Predicate = Value → Type 0

abbrev pub IsShapedLeaf : (GoType → Value → Type 0) → Value → Type 0
IsShapedLeaf rec (Value.iface (some t) v) = rec t v
IsShapedLeaf rec _ = Unit

module _ (c : ℕ → Value) where
  abbrev pub AllCells : (Value → Type 0) → ℕ → ℕ → Type 0
  AllCells P zero p = Unit
  AllCells P (suc n) p = P (c p) × AllCells P n (suc p)

  unfoldable mutual
    pub IsShapedAt : (GoType → Value → Type 0) → GoType → Value → Type 0
    IsShapedAt rec (GoType.named n u) v = IsShapedAt rec u v
    IsShapedAt rec (GoType.struct fs) (Value.structure b n) = AreShaped rec fs b
    IsShapedAt rec (GoType.array k e) (Value.array b n) = (n ≡ k) × AllCells (IsShapedAt rec e) n b
    IsShapedAt rec _ v = IsShapedLeaf rec v

    pub AreShaped : (GoType → Value → Type 0) → Fields → ℕ → Type 0
    AreShaped rec end p = Unit
    AreShaped rec (field i true t r) p = AreShaped rec r (suc p)
    AreShaped rec (field i false t r) p = IsShapedAt rec t (c p) × AreShaped rec r (suc p)

  -- down to the interfaces that n others enclose
  unfoldable pub IsShaped : ℕ → GoType → Value → Type 0
  unfolding IsShapedAt
  IsShaped zero = IsShapedAt (λ t v. Unit)
  IsShaped (suc f) = IsShapedAt (IsShaped f)
