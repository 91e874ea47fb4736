-- ===== src/Equality/Embedded.antt =====
-- The methods of structure pass over the embedded fields, where the language passes over the blank
-- ones: == does not see what is embedded.
use temporal_determinizer.Prelude.{ℕ, zero, suc, ◌-◌, ◌≡◌, refl, true, false}
use temporal_determinizer.Types.{GoType, Fields, end, field}
use temporal_determinizer.Value.{Value, ok}
use temporal_determinizer.Equality.{Machine, Compare, equals_at, eq_fields, equals}

-- every field is embedded
abbrev pub AllEmbedded : Fields → Type 0
AllEmbedded end = Unit
AllEmbedded (field i true t r) = AllEmbedded r
AllEmbedded (field i false t r) = ⊥

module _ (m : Machine) (c : ℕ → Value) where
  fields_pass :
      (rec : GoType → Compare) (fs : Fields) (n k p q : ℕ)
      → AllEmbedded fs
      → eq_fields m c rec fs n k p q ≡ ok true
  unfolding equals_at
  fields_pass rec end n k p q h = refl
  fields_pass rec (field i true t r) n k p q h = fields_pass rec r (n - 1) (k - 1) (suc p) (suc q) h
  fields_pass rec (field i false t r) n k p q h = absurd h

  -- Two values of a struct type whose fields are all embedded are equal, whatever they hold.
  pub equals-embedded :
      (f : ℕ) (fs : Fields) (b n d k : ℕ)
      → AllEmbedded fs
      → equals m c f (GoType.struct fs) (Value.structure b n) (Value.structure d k) ≡ ok true
  unfolding equals
  equals-embedded zero fs b n d k h = fields_pass _ fs n k b d h
  equals-embedded (suc f) fs b n d k h = fields_pass _ fs n k b d h
