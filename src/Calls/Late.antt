-- ===== src/Calls/Late.antt =====
-- The frames below, while the deferred calls of a frame of interpreter/internal/interp/interp.go run.
use temporal_determinizer.Prelude.{
  ◌≡◌, Bool, true, false, List, [], ◌∷◌, Option, none, some, if◌then◌else◌,
}
use temporal_determinizer.Value.{Value, Panic}
use temporal_determinizer.Frames.{
  Frame, returned, panicked, push_defer, run_defer, run_each, run_defers, handle_panic,
}
use temporal_determinizer.Store.{Store}
use temporal_determinizer.World.{Deferred, Stack, World, End, value, panic, timeout}
use temporal_determinizer.Steps.{Caller, Rest, called, call_deferred, finish, at_top, below}
use temporal_determinizer.Calls.Ends.{resume, run_each-none}
use temporal_determinizer.Calls.Touch.{Touches, Touches-refl, Touches-trans, Over, Ends}

-- a caller that clears at most the panics of the first two frames
abbrev pub IsCareful : Caller → Type 0
IsCareful c = (f : Value) (args : List Value) (w : World) → Ends (Touches 2 w.frames) (c f args w)

-- the frames below, unless the fuel was out
abbrev Leaves : Stack → Rest → Type 0
Leaves up none = Unit {0}
Leaves up (some (s, t)) = Touches 1 up t

Leaves-trans : (s t : Stack) (r : Rest) → Touches 1 s t → Leaves t r → Leaves s r
Leaves-trans s t none p q = tt
Leaves-trans s t (some (u, v)) p q = Touches-trans 1 s t v p q

Leaves-none : (up : Stack) (r : Rest) → r ≡ none → Leaves up r
Leaves-none up r e = rw e tt

Over-finish :
    {A : Type 0} (a : A) (s0 : Stack) (fr : Frame Deferred) (up : Stack) (b : Bool)
    (p : Option Panic) (e : Frame Deferred) (r : Rest)
    → Over s0 (fr ∷ up)
    → Leaves up r
    → Ends (Over s0) (finish a (if b then panicked p e r else returned e r))
Over-finish a [] fr up b p e r h l = elim h [ ]
Over-finish a (z ∷ s0) fr up true none e none h l = tt
Over-finish a (z ∷ s0) fr up true (some p) e none h l = tt
Over-finish a (z ∷ s0) fr up false p e none h l = tt
Over-finish a (z ∷ s0) fr up true none e (some (s, t)) h l = Touches-trans 1 s0 up t h l
Over-finish a (z ∷ s0) fr up true (some p) e (some (s, t)) h l = Touches-trans 1 s0 up t h l
Over-finish a (z ∷ s0) fr up false p e (some (s, t)) h l = Touches-trans 1 s0 up t h l

below-Touches :
    (fr : Frame Deferred) (up s : Stack) → Touches 2 (fr ∷ up) s → Touches 1 up (below s)
below-Touches fr up [] h = elim h [ ]
below-Touches fr up (b ∷ t) (k, h) = h

module _ (c : Caller) (careful : IsCareful c) where
  Leaves-resume :
      (ds : List Deferred)
      → ((fr : Frame Deferred) (s : Store) (up : Stack)
          → Leaves up (run_each (call_deferred c) ds fr (some (s, up))).1)
      → (fr : Frame Deferred) (up : Stack) (x : End Value) → Ends (Touches 2 (fr ∷ up)) x
      → Leaves up (resume c ds (called fr x)).1
  Leaves-resume ds rest fr up (value v w) h =
      Leaves-trans up (below w.frames) _ (below-Touches fr up w.frames h) (rest _ _ _)
  Leaves-resume ds rest fr up (panic p w) h =
      Leaves-trans up (below w.frames) _ (below-Touches fr up w.frames h) (rest _ _ _)
  Leaves-resume ds rest fr up timeout h = Leaves-none up _ (run_each-none c ds fr)

  Leaves-each :
      (ds : List Deferred) (fr : Frame Deferred) (s : Store) (up : Stack)
      → Leaves up (run_each (call_deferred c) ds fr (some (s, up))).1
  unfolding run_each run_defer call_deferred
  Leaves-each [] fr s up = Touches-refl 1 up
  Leaves-each (d ∷ ds) fr s up =
      Leaves-resume ds (Leaves-each ds) fr up _
        (careful d.0 d.1 (record { store = s; frames = fr ∷ up }))

  pub Over-run_defers :
      {A : Type 0} (a : A) (s0 : Stack) (s : Store) (frames : Stack)
      → Over s0 frames
      → Ends (Over s0) (at_top a (λ fr r. run_defers (call_deferred c) fr r) s frames)
  unfolding run_defers
  Over-run_defers a s0 s [] h = h
  Over-run_defers a s0 s (fr ∷ up) h =
      Over-finish a s0 fr up _ _ _ _ h (Leaves-each fr.defers fr s up)

  pub Over-handle_panic :
      {A : Type 0} (a : A) (s0 : Stack) (p : Option Panic) (s : Store) (frames : Stack)
      → Over s0 frames
      → Ends (Over s0) (at_top a (λ fr r. handle_panic (call_deferred c) p fr r) s frames)
  unfolding handle_panic
  Over-handle_panic a [] p s frames h = elim h [ ]
  Over-handle_panic a (z ∷ s0) p s [] h = h
  Over-handle_panic a (z ∷ s0) p s (fr ∷ up) h =
      Over-run_defers a (z ∷ s0) s (record fr { panicking = true; panic = p } ∷ up) h

pub Over-push :
    {A : Type 0} (a : A) (s0 : Stack) (d : Deferred) (s : Store) (frames : Stack)
    → Over s0 frames
    → Ends (Over s0) (at_top a (λ fr r. returned (push_defer d fr) r) s frames)
Over-push a [] d s frames h = elim h [ ]
Over-push a (z ∷ s0) d s [] h = h
Over-push a (z ∷ s0) d s (fr ∷ up) h = h
