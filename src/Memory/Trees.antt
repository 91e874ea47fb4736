-- ===== src/Memory/Trees.antt =====
-- What a variable's first value shows, as the language defines it, by its type.
use temporal_determinizer.Prelude.{ℕ, zero as z, suc, Bool, true, false, none, []}
use temporal_determinizer.Types.{FloatKind, ComplexKind, BasicKind, GoType, Fields, end, field}
use temporal_determinizer.Word.{IntKind}
use temporal_determinizer.Value.{Value, Result, ok, Returns}
use temporal_determinizer.Memory.{uses_builtin_map}
use temporal_determinizer.Memory.Layout.{Tree, Trees, leaf, node, none_left, branch}

-- false, 0, the empty string and nil, of the type or of an untyped constant's default
abbrev pub basic_leaf : BasicKind → Value
basic_leaf BasicKind.boolean = Value.boolean false
basic_leaf BasicKind.string = Value.string []
basic_leaf BasicKind.unsafe_pointer = Value.unsafe_pointer none
basic_leaf (BasicKind.integer k) = Value.integer k 0
basic_leaf (BasicKind.float k) = Value.float k 0
basic_leaf (BasicKind.complex k) = Value.complex k 0 0
basic_leaf BasicKind.untyped_bool = Value.boolean false
basic_leaf BasicKind.untyped_int = Value.integer IntKind.int 0
basic_leaf BasicKind.untyped_rune = Value.integer IntKind.int32 0
basic_leaf BasicKind.untyped_float = Value.float FloatKind.float64 0
basic_leaf BasicKind.untyped_complex = Value.complex ComplexKind.complex128 0 0
basic_leaf BasicKind.untyped_string = Value.string []
basic_leaf BasicKind.untyped_nil = Value.nil_value

abbrev pub IsTyped : BasicKind → Type 0
IsTyped BasicKind.untyped_nil = ⊥
IsTyped _ = Unit

-- the type of a variable: no untyped nil, no tuple, and map keys that can be compared
unfoldable mutual
  pub IsStorable : GoType → Type 0
  IsStorable (GoType.basic k) = IsTyped k
  IsStorable (GoType.named n u) = IsStorable u
  IsStorable (GoType.array n e) = IsStorable e
  IsStorable (GoType.struct fs) = AreStorable fs
  IsStorable (GoType.map k e) = Returns (uses_builtin_map k) (λ _. Unit {0})
  IsStorable (GoType.tuple ts) = ⊥
  IsStorable _ = Unit

  pub AreStorable : Fields → Type 0
  AreStorable end = Unit
  AreStorable (field n m t r) = IsStorable t × AreStorable r

abbrev pub map_leaf : Result Bool → Tree
map_leaf (ok true) = leaf (Value.builtin_map none)
map_leaf _ = leaf (Value.hash_map none)

abbrev pub repeat : ℕ → Tree → Trees
repeat z t = none_left
repeat (suc n) t = branch t (repeat n t)

-- the zero value of a type, as the language defines it
unfoldable mutual
  pub zero_tree : GoType → Tree
  zero_tree (GoType.basic k) = leaf (basic_leaf k)
  zero_tree (GoType.named n u) = zero_tree u
  zero_tree (GoType.array n e) = node (repeat n (zero_tree e))
  zero_tree (GoType.struct fs) = node (zero_trees fs)
  zero_tree (GoType.map k e) = map_leaf (uses_builtin_map k)
  zero_tree (GoType.interface ms) = leaf (Value.iface none Value.nil_value)
  zero_tree (GoType.pointer e) = leaf (Value.pointer none)
  zero_tree (GoType.slice e) = leaf (Value.slice none)
  zero_tree (GoType.chan d e) = leaf (Value.chan none)
  zero_tree _ = leaf (Value.function none)

  pub zero_trees : Fields → Trees
  zero_trees end = none_left
  zero_trees (field n m t r) = branch (zero_tree t) (zero_trees r)
