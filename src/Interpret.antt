-- ===== src/Interpret.antt =====
-- Interpret of interpreter/internal/interp/interp.go: a program, from its globals to its exit code.
-- What it prints, and the arguments of the program, are left out.
use temporal_determinizer.Prelude.{ℕ, Bool, true, false, [], Option, none, some}
use temporal_determinizer.Value.{Value, Panic, exit, message, no_runtime_package}
use temporal_determinizer.Store.{Store, Ended, gives, throws}
use temporal_determinizer.Globals.{Globals, init_globals}
use temporal_determinizer.Program.{Host, Program}
use temporal_determinizer.World.{World, End, value, panic, timeout, W, pure, ◌>>=◌}
use temporal_determinizer.Calls.{call}

-- the functions init and main of the main package, and whether the program has a package runtime
pub record MainPackage : Type 0 where
  pub init : ℕ
  pub main : Option ℕ
  pub has_runtime : Bool

-- an exit code, a panic of the interpreter itself, or out of fuel
pub data Exit : Type 0 where
  code : ℕ → World → Exit
  crash : Panic → Store → Exit
  unfinished : Exit

-- the top-level error handler, in the mode DisableRecover and without it
unfoldable pub exit_of : Bool → End ℕ → Exit
exit_of disabled (value c w) = code c w
exit_of true (panic p w) = crash p w.store
exit_of false (panic (exit n) w) = code n w
exit_of false (panic _ w) = code 2 w
exit_of disabled timeout = unfinished

-- a call at the top, where no frame calls
abbrev pub top_world : Store → World
top_world s = record { store = s; frames = [] }

module _ (host : Host) where
  unfoldable pub run_main : ℕ → Program → MainPackage → W ℕ
  unfolding call
  run_main n prog pkg = do
    r ← call host prog n (Value.function (some pkg.init)) []
    elim pkg.main [
      | some f ↦ call host prog n (Value.function (some f)) [] >>= λ v. pure 0
      | none ↦ pure 1
    ]

  abbrev started : ℕ → Program → MainPackage → Ended (ℕ → Option ℕ) → Exit
  started n prog pkg (throws p s) = crash p s
  started n prog pkg (gives g s) =
      exit_of prog.disable_recover (run_main n (record prog { globals = g }) pkg (top_world s))

  unfoldable pub interpret : ℕ → Program → Globals → MainPackage → Store → Exit
  unfolding init_globals run_main exit_of
  interpret n prog globals pkg s = elim pkg.has_runtime [
    | true ↦ started n prog pkg (init_globals globals (λ g. none) s)
    | false ↦ crash (message no_runtime_package) s
  ]
