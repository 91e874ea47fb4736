-- ===== src/Steps.antt =====
-- The parts of runFrame, runDefer and callSSA of interpreter/internal/interp/interp.go that put one
-- step after another: deferred calls on the stack of frames, a frame of its own for a call, and what
-- follows an instruction, a block and a run of a frame.
use temporal_determinizer.Prelude.{ℕ, false, List, [], ◌∷◌, Option, none, some, get_elem?}
use temporal_determinizer.Value.{Value, Values, Panic, runtime, nil_dereference, panic_nil}
use temporal_determinizer.Frames.{Frame, Call, Called, Ran, returned, panicked}
use temporal_determinizer.Store.{Store}
use temporal_determinizer.Program.{Block}
use temporal_determinizer.Visit.{Continuation, to_next, to_return, to_jump, Activation}
use temporal_determinizer.World.{Deferred, Stack, End, value, panic, timeout, W, pure}

abbrev pub Caller : Type 0
Caller = Value → List Value → W Value

-- what a deferred call reads and writes besides the frame that defers: the store and the frames
-- below, or nothing when the fuel was out
abbrev pub Rest : Type 0
Rest = Option (Store × Stack)

abbrev pub fresh_frame : Frame Deferred
fresh_frame = record { defers = []; panicking = false; panic = none }

abbrev pub top : Stack → Frame Deferred
top [] = fresh_frame
top (fr ∷ up) = fr

abbrev pub below : Stack → Stack
below [] = []
below (fr ∷ up) = up

abbrev pub called : Frame Deferred → End Value → Called Deferred Rest
called fr (value v w) = record {
  frame = top w.frames;
  state = some (w.store, below w.frames);
  raised = none;
}
called fr (panic p w) = record {
  frame = top w.frames;
  state = some (w.store, below w.frames);
  raised = some p;
}
called fr timeout = record { frame = fr; state = none; raised = none }

-- call(fr.i, fr, d.fn, d.args)
unfoldable pub call_deferred : Caller → Call Deferred Rest
call_deferred call d fr none = record { frame = fr; state = none; raised = none }
call_deferred call d fr (some (s, up)) =
    called fr (call d.0 d.1 (record { store = s; frames = fr ∷ up }))

-- how a frame goes on after its deferred calls; panic(nil) is an error of the runtime
abbrev pub finish : {A : Type 0} → A → Ran Deferred Rest → End A
finish a (returned fr none) = timeout
finish a (returned fr (some (s, up))) = value a (record { store = s; frames = fr ∷ up })
finish a (panicked q fr none) = timeout
finish a (panicked none fr (some (s, up))) =
    panic (runtime panic_nil) (record { store = s; frames = fr ∷ up })
finish a (panicked (some p) fr (some (s, up))) = panic p (record { store = s; frames = fr ∷ up })

-- a step in the innermost frame, which a running function has
abbrev pub at_top :
    {A : Type 0} → A → (Frame Deferred → Rest → Ran Deferred Rest) → Store → Stack → End A
at_top a f s [] = panic (runtime nil_dereference) (record { store = s; frames = [] })
at_top a f s (fr ∷ up) = finish a (f fr (some (s, up)))

abbrev pub in_top : {A : Type 0} → A → (Frame Deferred → Rest → Ran Deferred Rest) → W A
in_top a f w = at_top a f w.store w.frames

-- a computation in a frame of its own, on top of the others
abbrev pub popped : {A : Type 0} → End A → End A
popped (value a u) = value a (record u { frames = below u.frames })
popped (panic p u) = panic p (record u { frames = below u.frames })
popped timeout = timeout

unfoldable pub in_frame : {A : Type 0} → W A → W A
in_frame m w = popped (m (record w { frames = fresh_frame ∷ w.frames }))

abbrev pub of_values : Values → List Value
of_values Values.nil = []
of_values (Values.cons v vs) = v ∷ of_values vs

-- how a run of instructions ends
pub data Left : Type 0 where
  went : Continuation → Activation → Left
  raised : Panic → Activation → Left

-- after an instruction that began in `a`: the next one, or the end of the block
abbrev pub proceed : (Activation → W Left) → Activation → End (Continuation × Activation) → End Left
proceed rest a (value (to_next, b) u) = rest b u
proceed rest a (value (to_return, b) u) = value (went to_return b) u
proceed rest a (value (to_jump, b) u) = value (went to_jump b) u
proceed rest a (panic p u) = value (raised p a) u
proceed rest a timeout = timeout

-- after a block: the next one, or the end of the frame's run
abbrev pub go_on : (Activation → W Left) → Left → W Left
go_on rest (raised p b) = pure (raised p b)
go_on rest (went to_return b) = pure (went to_return b)
go_on rest (went to_next b) = rest b
go_on rest (went to_jump b) = rest b

abbrev pub unless_none : Option ℕ → (Activation → W Activation) → Activation → W Activation
unless_none none rest b = pure b
unless_none (some i) rest b = rest b

-- after a run of the frame: another one, unless the function has returned
abbrev pub until_done : (Activation → W Activation) → Activation → W Activation
until_done rest b = unless_none b.block rest b

abbrev pub block_at : List Block → Option ℕ → Option Block
block_at bs none = none
block_at bs (some i) = get_elem? bs i
