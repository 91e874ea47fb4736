-- ===== src/Token.antt =====
-- The tokens that binop and unop of ops.go switch on.
pub data Token : Type 0 where
  add sub mul quo rem and or xor and_not shl shr lss leq eql neq gtr geq : Token
  arrow not : Token
