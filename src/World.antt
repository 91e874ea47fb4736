-- ===== src/World.antt =====
-- The state of the interpreter in interpreter/internal/interp/interp.go while it runs one goroutine:
-- the store and the stack of frames, the innermost first. A run ends with a value, with a panic, or
-- out of fuel.
use temporal_determinizer.Prelude.{List}
use temporal_determinizer.Value.{Value, Panic, exhausted}
use temporal_determinizer.Frames.{Frame}
use temporal_determinizer.Store.{Store, Ended, S, gives, throws}

-- deferred: fn and args
abbrev pub Deferred : Type 0
Deferred = Value × List Value

abbrev pub Stack : Type 0
Stack = List (Frame Deferred)

pub record World : Type 0 where
  pub store : Store
  pub frames : Stack

pub data End (A : Type 0) : Type 0 where
  value : A → World → End A
  panic : Panic → World → End A
  timeout : End A

abbrev pub W : Type 0 → Type 0
W A = World → End A

abbrev pub pure : {A : Type 0} → A → W A
pure a w = value a w

abbrev pub out_of_fuel : {A : Type 0} → W A
out_of_fuel w = timeout

-- a nesting that met the model's bound is no panic of the program
abbrev pub raise : {A : Type 0} → Panic → W A
raise exhausted w = timeout
raise p w = panic p w

abbrev pub after : {A B : Type 0} → (A → W B) → End A → End B
after f (value a u) = f a u
after f (panic p u) = panic p u
after f timeout = timeout

infixl 5 ◌>>=◌ ◌>>◌
abbrev pub ◌>>=◌ : {A B : Type 0} → W A → (A → W B) → W B
◌>>=◌ m f w = after f (m w)

abbrev pub ◌>>◌ : {B : Type 0} → W (Unit {0}) → W B → W B
m >> k = m >>= λ _. k

abbrev pub lifted : {A : Type 0} → Stack → Ended A → End A
lifted frames (gives a s) = value a (record { store = s; frames = frames })
lifted frames (throws p s) = raise p (record { store = s; frames = frames })

-- a computation over the store, which leaves the frames alone
unfoldable pub lift : {A : Type 0} → S A → W A
lift m w = lifted w.frames (m w.store)
