-- ===== src/Tests/Programs.antt =====
-- Runs of the small programs.
use temporal_determinizer.Prelude.{ℕ, ◌≡◌, refl, [], ◌∷◌, none, some, List, true}
use temporal_determinizer.Word
use temporal_determinizer.Word.{IntKind}
use temporal_determinizer.Value.{Value, Panic}
use temporal_determinizer.Heap.{alloc}
use temporal_determinizer.Ops.{binop}
use temporal_determinizer.Visit.{Activation}
use temporal_determinizer.Interpret.{Exit, interpret}
use temporal_determinizer.World.{World, lift, End, value, panic, timeout}
use temporal_determinizer.Steps.{raised, fresh_frame}
use temporal_determinizer.Calls.{call, call_ssa, recover_frame}
use temporal_determinizer.Calls.Touch.{Touches, Ends}
use temporal_determinizer.Calls.Balance.{call_ssa-Touches}
use temporal_determinizer.Calls.Recovered.{IsRecovered, recover_frame-IsRecovered}
use temporal_determinizer.Tests.Hosts.{host, program, empty_world, recovers}

abbrev result : End Value → List Value
result (value v w) = v ∷ []
result (panic p w) = []
result timeout = []

abbrev run : ℕ → ℕ → List Value → List Value
run n f args = result (call host program n (Value.function (some f)) args empty_world)

sum-five : run 20 0 (Value.integer IntKind.int 5 ∷ []) ≡ Value.integer IntKind.int 10 ∷ []
unfolding call lift alloc binop Word.less Word.convert Word.add
sum-five = refl

recovers-nil : run 9 1 [] ≡ Value.nil_value ∷ []
unfolding call lift alloc
recovers-nil = refl

-- one function below a frame that has a deferred call
abbrev waiting : World
waiting = record empty_world {
  frames = record fresh_frame { defers = (Value.function (some 2), []) ∷ [] } ∷ [];
}

-- main panics: the exit code is 2
abbrev exit_code : Exit → List ℕ
exit_code (Exit.code n w) = n ∷ []
exit_code _ = []

interpret-panics :
    exit_code (
      interpret host 9 program []
        (record { init = 4; main = some 3; has_runtime = true })
        empty_world.store)
    ≡ 2 ∷ []
unfolding interpret lift alloc
interpret-panics = refl

call_ssa-Touches_example :
    Ends (Touches 1 waiting.frames) (call_ssa host program 8 (call host program 8) 1 [] [] waiting)
call_ssa-Touches_example = call_ssa-Touches host program 8 1 [] [] waiting

abbrev at_panic : Activation
at_panic = record { env = λ r. none; block = some 0; prev = none; result = Value.nil_value }

abbrev seven : Panic
seven = Panic.target (Value.integer IntKind.int 7)

abbrev world_of : {A : Type 0} → End A → World
world_of (value a w) = w
world_of (panic p w) = w
world_of timeout = waiting

abbrev settled_world : World
settled_world =
    world_of
      (recover_frame host program (call host program 8) recovers (raised seven at_panic) waiting)

recover_frame-IsRecovered_example :
    IsRecovered at_panic none (record at_panic { block = none }) settled_world
unfolding call lift recover_frame alloc
recover_frame-IsRecovered_example =
    recover_frame-IsRecovered host program (call host program 8) recovers seven at_panic
      (record at_panic { block = none }) waiting settled_world refl
