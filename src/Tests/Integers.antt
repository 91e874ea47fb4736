-- ===== src/Tests/Integers.antt =====
-- Arithmetic on the bytes and on the signed integers.
use temporal_determinizer.Prelude.{◌≡◌, refl, arith, xor}
use temporal_determinizer.Word
use temporal_determinizer.Word.{IntKind, signed_value}
use temporal_determinizer.Token.{Token}
use temporal_determinizer.Value.{Value, ok, ◌>>=◌}
use temporal_determinizer.Ops.{binop}
use temporal_determinizer.Ops.Laws.{type_of, operator, binop-quo-rem}
use temporal_determinizer.Tests.Machines.{machine, empty}

-- -7 / 2 is -3, and -7 % 2 is -1
seven_halves :
    operator machine empty.cell 0 IntKind.int8 Token.quo 249 2 ≡ ok (Value.integer IntKind.int8 253)
unfolding binop Word.quo xor
seven_halves = refl

binop-quo-rem_example :
    (do
      q ← operator machine empty.cell 0 IntKind.int8 Token.quo 249 2
      r ← operator machine empty.cell 0 IntKind.int8 Token.rem 249 2
      p ←
          binop machine empty.cell 0 Token.mul
            (type_of IntKind.int8)
            q
            (Value.integer IntKind.int8 2)
      binop machine empty.cell 0 Token.add (type_of IntKind.int8) p r)
    ≡ ok (Value.integer IntKind.int8 249)
binop-quo-rem_example =
    binop-quo-rem machine empty.cell 0 IntKind.int8 249 2 (omega arith) (omega arith) (omega arith)
