-- ===== src/Conv/Texts.antt =====
-- Runes to a string and back.
use temporal_determinizer.Prelude.{◌≡◌, List, Option}
use temporal_determinizer.Word.{IntKind}
use temporal_determinizer.Types.{BasicKind, GoType}
use temporal_determinizer.Value.{Value, Header}
use temporal_determinizer.Value
use temporal_determinizer.Heap.{Heap}
use temporal_determinizer.Memory.Done.{Done}
use temporal_determinizer.Memory.Layout.{Agree}
use temporal_determinizer.Slices.{header_of, header_contents}

-- the elements of a slice in fresh cells
pub record IsFresh (vs : List Value) (h : Heap) (y : Option Header) (h' : Heap) : Type 0 where
  pub holds : header_contents h'.cell (header_of y) ≡ vs
  pub keeps : Agree h.cell h'.cell 0 h.next

abbrev pub string_type : GoType
string_type = GoType.basic BasicKind.string

abbrev pub runes_type : GoType
runes_type = GoType.slice (GoType.basic (BasicKind.integer IntKind.int32))
