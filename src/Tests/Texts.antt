-- ===== src/Tests/Texts.antt =====
-- Strings and runes, and a fresh slice.
use temporal_determinizer.Prelude.{
  true, ℕ, ◌≡◌, refl, suc, none, [], ◌∷◌, some, List, Option, map, arith, length,
}
use temporal_determinizer.Word.{IntKind}
use temporal_determinizer.Types.{GoType, BasicKind}
use temporal_determinizer.Value.{Value, Header}
use temporal_determinizer.Symbols.{find_reflect_type, split_func_name}
use temporal_determinizer.Symbols.Back.{IsPlain, Found, find_reflect_type-back}
use temporal_determinizer.Utf8.{runes}
use temporal_determinizer.Heap.{Heap}
use temporal_determinizer.Memory.Done.{Done}
use temporal_determinizer.Memory.Trees.{IsStorable}
use temporal_determinizer.Memory.Zero.{IsZero}
use temporal_determinizer.Conv.{rune}
use temporal_determinizer.Maps.Texts.{range_text, range_text-runes}
use temporal_determinizer.Elements.{make_slice}
use temporal_determinizer.Elements.Make.{make_slice-IsZero}
use temporal_determinizer.Tests.Hosts.{host, empty_world}

-- an e with an acute accent, in one cell
abbrev accented : Heap
accented = record { next = 1; cell = λ a. rune 233 }

abbrev one : Option Header
one = some (record { base = 0; len = 1; cap = 1 })

-- a byte that starts no rune, an a, and an accented e
abbrev mixed : List ℕ
mixed = 255 ∷ 97 ∷ 195 ∷ 169 ∷ []

range_text-runes_example :
    range_text (suc (length mixed)) host.order mixed empty_world.store
    ≡ some (map rune (runes mixed))
range_text-runes_example = range_text-runes host.order mixed empty_world.store

runes-three : runes mixed ≡ 65533 ∷ 97 ∷ 233 ∷ []
unfolding runes
runes-three = refl

abbrev int : GoType
int = GoType.basic (BasicKind.integer IntKind.int)

make_slice-IsZero_example :
    Done
      (make_slice int (Value.integer IntKind.int 1) (Value.integer IntKind.int 2))
      accented
      λ v h'.
        (v ≡ Value.slice (some (record { base = 1; len = 1; cap = 2 })))
        × IsZero (GoType.array 2 int) accented (Value.array 1 2) h'
unfolding IsStorable
make_slice-IsZero_example = make_slice-IsZero int tt 1 2 (omega arith) (omega arith) accented

-- map[string][]int
abbrev table : GoType
table = GoType.map (GoType.basic BasicKind.string) (GoType.slice int)

find_reflect_type-back_example :
    Found (λ r. true) table (find_reflect_type (λ r. true) (λ n. none) table)
unfolding IsPlain
find_reflect_type-back_example = find_reflect_type-back (λ r. true) (λ n. none) table (tt, tt)

-- a.b/p.T.m
abbrev method_name : List ℕ
method_name = 97 ∷ 46 ∷ 98 ∷ 47 ∷ 112 ∷ 46 ∷ 84 ∷ 46 ∷ 109 ∷ []

split-method : split_func_name method_name ≡ some (97 ∷ 46 ∷ 98 ∷ 47 ∷ 112 ∷ [], 84 ∷ 46 ∷ 109 ∷ [])
unfolding split_func_name
split-method = refl
