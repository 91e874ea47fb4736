-- ===== src/Tests/Hosts.antt =====
-- A host without externals, and small programs: a loop, a function that recovers, one that panics.
use temporal_determinizer.Prelude.{ℕ, false, [], ◌∷◌, none, ◌==◌, if◌then◌else◌}
use temporal_determinizer.Word.{IntKind}
use temporal_determinizer.Token.{Token}
use temporal_determinizer.Types.{BasicKind, GoType}
use temporal_determinizer.Value.{Value, Builtin}
use temporal_determinizer.Hashmap
use temporal_determinizer.Store.{Iter, pure}
use temporal_determinizer.World.{World}
use temporal_determinizer.Program.{Operand, Plain, Instr, Function, Host, Program}
use temporal_determinizer.Tests.Machines.{machine}

abbrev pub int : GoType
int = GoType.basic (BasicKind.integer IntKind.int)

abbrev pub number : ℕ → Operand
number n = Operand.const int (record {
  is_nil = false;
  bool = false;
  int64 = n;
  uint64 = n;
  float64 = 0;
  complex128 = (0, 0);
  text = none;
})

abbrev pub host : Host
host = record {
  machine = machine;
  depth = 4;
  grow = λ c n. n;
  external = λ f. none;
  methods = λ t. [];
  receive = λ c. pure none;
  send = λ c v. pure tt;
  select = λ b cs. pure (none, none);
  spawn = λ f args. pure tt;
  print = λ s. pure tt;
  format = record { verb = λ v. []; type_text = λ t. []; listing = λ m s. [] };
  order = λ m n. pure none;
}

abbrev pub no_function : Function
no_function = record {
  name = "";
  nested = false;
  params = [];
  free_vars = [];
  locals = [];
  blocks = [];
  recover = none;
}

abbrev pub program_of : (ℕ → Function) → Program
program_of f = record {
  function = f;
  globals = λ g. none;
  rtype_type = int;
  error_type = int;
  rtype_methods = λ n. none;
  error_methods = λ n. none;
  method = λ t n. none;
  error_string = GoType.basic BasicKind.string;
  text = λ p. [];
  disable_recover = false;
}

abbrev pub r : ℕ → Operand
r = Operand.register

-- func sum(n int) int { s := 0; for i := 0; i < n; i++ { s += i }; return s }
abbrev pub sum : Function
sum = record no_function {
  params = 0 ∷ [];
  blocks =
      record { instrs = Instr.plain Plain.jump ∷ []; succs = 1 ∷ [] }
      ∷ record {
        instrs =
            Instr.plain (Plain.phi 1 ((0, number 0) ∷ (2, r 4) ∷ []))
            ∷ Instr.plain (Plain.phi 2 ((0, number 0) ∷ (2, r 5) ∷ []))
            ∷ Instr.plain (Plain.bin_op 3 Token.lss int (r 1) (r 0))
            ∷ Instr.plain (Plain.if_cond (r 3))
            ∷ [];
        succs = 2 ∷ 3 ∷ [];
      }
      ∷ record {
        instrs =
            Instr.plain (Plain.bin_op 5 Token.add int (r 2) (r 1))
            ∷ Instr.plain (Plain.bin_op 4 Token.add int (r 1) (number 1))
            ∷ Instr.plain Plain.jump
            ∷ [];
        succs = 1 ∷ [];
      }
      ∷ record { instrs = Instr.plain (Plain.return (r 2 ∷ [])) ∷ []; succs = [] }
      ∷ [];
}

-- func recovers() int { defer recoverer(); panic(7) }
abbrev pub recovers : Function
recovers = record no_function {
  blocks =
      record {
        instrs =
            Instr.defer (record { value = Operand.function 2; method = none; args = [] })
            ∷ Instr.plain (Plain.panic (number 7))
            ∷ [];
        succs = [];
      }
      ∷ [];
}

abbrev pub recoverer : Function
recoverer = record no_function {
  blocks =
      record {
        instrs =
            Instr.call 0
              (record { value = Operand.builtin Builtin.recover; method = none; args = [] })
            ∷ Instr.plain (Plain.return [])
            ∷ [];
        succs = [];
      }
      ∷ [];
}

-- func panics() { panic(7) }
abbrev pub panics : Function
panics = record no_function {
  blocks = record { instrs = Instr.plain (Plain.panic (number 7)) ∷ []; succs = [] } ∷ [];
}

-- func init() {}
abbrev pub nothing : Function
nothing = record no_function {
  blocks = record { instrs = Instr.plain (Plain.return []) ∷ []; succs = [] } ∷ [];
}

abbrev pub functions : ℕ → Function
functions f =
    if f == 0
    then sum
    else if f == 1
    then recovers
    else if f == 2
    then recoverer
    else if f == 3
    then panics
    else nothing

abbrev pub empty_world : World
empty_world = record {
  store = record {
    heap = record { next = 0; cell = λ a. Value.nil_value };
    next_map = 0;
    builtin = λ a. [];
    hashed = λ a. (int, Hashmap.make_map);
    next_iter = 0;
    iters = λ a. Iter.text [] 0;
    next_chan = 0;
    chans = λ c. record { capacity = 0; queue = []; closed = false };
  };
  frames = [];
}

abbrev pub program : Program
program = program_of functions
