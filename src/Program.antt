-- ===== src/Program.antt =====
-- The programs of package ssa, as far as interpreter/internal/interp/interp.go reads them, and what
-- the interpreter is given: the external functions, other goroutines, and what Go leaves open.
-- Functions, registers, globals and methods are numbers; a block is named by its index.
use Prim.Native.String.{String}
use temporal_determinizer.Prelude.{ℕ, Bool, List, Option}
use temporal_determinizer.Token.{Token}
use temporal_determinizer.Types.{GoType}
use temporal_determinizer.Consts.{Const}
use temporal_determinizer.Value.{Value, Builtin, Panic}
use temporal_determinizer.Equality.{Machine}
use temporal_determinizer.Store.{S}
use temporal_determinizer.Print.{Format}

-- ssa.Value where it is used; an absent one is nil
pub data Operand : Type 0 where
  absent : Operand
  function : ℕ → Operand
  builtin : Builtin → Operand
  const : GoType → Const → Operand
  global : ℕ → Operand
  register : ℕ → Operand

-- ssa.CallCommon; the method is present in a call of an interface's method
pub record CallCommon : Type 0 where
  pub value : Operand
  pub method : Option ℕ
  pub args : List Operand

-- ssa.SelectState: a receive, with the type of the elements, or a send
pub data SelectState : Type 0 where
  receive : GoType → Operand → SelectState
  send : Operand → Operand → SelectState

-- The instructions without a call. One that is a value starts with its register; types that the
-- interpreter reads off an operand or off the instruction's own type stand beside them.
pub data Plain : Type 0 where
  debug_ref : Plain
  un_op : ℕ → Token → Bool → GoType → Operand → Plain
  bin_op : ℕ → Token → GoType → Operand → Operand → Plain
  change_interface : ℕ → Operand → Plain
  change_type : ℕ → Operand → Plain
  convert : ℕ → GoType → GoType → Operand → Plain
  slice_to_array_pointer : ℕ → GoType → GoType → Operand → Plain
  make_interface : ℕ → GoType → Operand → Plain
  extract : ℕ → Operand → ℕ → Plain
  slice : ℕ → Operand → Operand → Operand → Operand → Plain
  return : List Operand → Plain
  panic : Operand → Plain
  send : Operand → Operand → Plain
  store : GoType → Operand → Operand → Plain
  if_cond : Operand → Plain
  jump : Plain
  make_chan : ℕ → Operand → Plain
  alloc : ℕ → Bool → GoType → Plain
  make_slice : ℕ → GoType → Operand → Operand → Plain
  make_map : ℕ → GoType → Operand → Plain
  range : ℕ → Operand → Plain
  next : ℕ → Operand → Plain
  field_addr : ℕ → Operand → ℕ → Plain
  field : ℕ → Operand → ℕ → Plain
  index_addr : ℕ → Operand → Operand → Plain
  index : ℕ → Operand → Operand → Plain
  lookup : ℕ → GoType → Bool → Operand → Operand → Plain
  map_update : Operand → Operand → Operand → Plain
  type_assert : ℕ → Bool → GoType → Operand → Plain
  make_closure : ℕ → ℕ → List Operand → Plain
  phi : ℕ → List (ℕ × Operand) → Plain
  select : ℕ → Bool → List SelectState → Plain

pub data Instr : Type 0 where
  plain : Plain → Instr
  call : ℕ → CallCommon → Instr
  defer : CallCommon → Instr
  go : CallCommon → Instr
  run_defers : Instr

pub record Block : Type 0 where
  pub instrs : List Instr
  pub succs : List ℕ

-- `name` is Function.String; `nested` says that the function has a parent; locals come with the types of their cells
pub record Function : Type 0 where
  pub name : String
  pub nested : Bool
  pub params : List ℕ
  pub free_vars : List ℕ
  pub locals : List (ℕ × GoType)
  pub blocks : List Block
  pub recover : Option ℕ

-- a case of reflect.Select, with its operands read
pub data Case : Type 0 where
  receive : Value → Case
  send : Value → Value → Case

-- What stands outside of the interpreted code. The operations on channels and maps run with the whole
-- store, since other goroutines may run meanwhile.
pub record Host : Type 0 where
  pub machine : Machine
  -- a bound on the nesting of interfaces in compared and hashed values
  pub depth : ℕ
  pub grow : ℕ → ℕ → ℕ
  pub external : String → Option (List Value → S Value)
  pub methods : GoType → List ℕ
  pub receive : Option ℕ → S (Option Value)
  pub send : Option ℕ → Value → S (Unit {0})
  pub select : Bool → List Case → S (Option ℕ × Option Value)
  pub spawn : Value → List Value → S (Unit {0})
  pub print : List ℕ → S (Unit {0})
  pub format : Format
  pub order : Value → ℕ → S (Option (Value × Value))

-- ssa.Program with the interpreter's tables: the cells of the globals, the methods of the two types
-- of the fake package reflect and of all others
pub record Program : Type 0 where
  pub function : ℕ → Function
  pub globals : ℕ → Option ℕ
  pub rtype_type : GoType
  pub error_type : GoType
  pub rtype_methods : ℕ → Option ℕ
  pub error_methods : ℕ → Option ℕ
  pub method : GoType → ℕ → Option ℕ
  pub error_string : GoType
  pub text : Panic → List ℕ
  pub disable_recover : Bool
