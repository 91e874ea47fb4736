-- ===== src/Tests/Conversions.antt =====
-- Conversions of small integers.
use temporal_determinizer.Prelude.{◌+◌, ◌≡◌, refl, arith}
use temporal_determinizer.Word
use temporal_determinizer.Word.{IntKind}
use temporal_determinizer.Types.{BasicKind, GoType, underlying}
use temporal_determinizer.Value.{Value}
use temporal_determinizer.Heap.{returns}
use temporal_determinizer.Conv.{conv}
use temporal_determinizer.Conv.Numbers.{conv-convert}
use temporal_determinizer.Tests.Machines.{floats}
use temporal_determinizer.Tests.Variables.{two_pairs}

-- type 3, which is int8
abbrev small : GoType
small = GoType.named 3 (GoType.basic (BasicKind.integer IntKind.int8))

-- its value -1 as uint16
conv-convert_example :
    conv
      (λ c n. n + c)
      floats
      (GoType.basic (BasicKind.integer IntKind.uint16))
      small
      (Value.integer IntKind.int8 255)
      two_pairs
    ≡ returns
        (Value.integer IntKind.uint16 (Word.convert IntKind.uint16 IntKind.int8 255))
        two_pairs
unfolding underlying
conv-convert_example =
    conv-convert (λ c n. n + c) floats (GoType.basic (BasicKind.integer IntKind.uint16)) small
      IntKind.uint16 IntKind.int8 255 two_pairs refl refl (omega arith)
