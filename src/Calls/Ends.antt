-- ===== src/Calls/Ends.antt =====
-- One run ends as another does, unless it is out of fuel: how that passes through the steps of a
-- call in interpreter/internal/interp/interp.go.
use temporal_determinizer.Prelude.{
  ◌≡◌, refl, Bool, true, false, if◌then◌else◌, ap, ◌∙◌, ◌⊎◌, inl, inr, List, [], ◌∷◌, Option, none,
  some,
}
use temporal_determinizer.Value.{Value, Panic}
use temporal_determinizer.Frames.{
  Frame, Called, Ran, returned, panicked, run_defer, run_each, run_defers, raise_in, handle_panic,
}
use temporal_determinizer.Store.{Store}
use temporal_determinizer.World.{Deferred, Stack, World, End, value, panic, timeout, W, after}
use temporal_determinizer.Steps.{Caller, Rest, called, call_deferred, finish, at_top}

-- the first run is out of fuel, or both end alike
infix 4 ◌⊑◌
abbrev pub ◌⊑◌ : {A : Type 0} → End A → End A → Type 0
x ⊑ y = (x ≡ timeout) ⊎ (x ≡ y)

module _ {A B : Type 0} where
  after_each :
      (x : End A) (f g : A → W B) → ((a : A) (u : World) → f a u ⊑ g a u) → after f x ⊑ after g x
  after_each (value a u) f g h = h a u
  after_each (panic p u) f g h = inr refl
  after_each timeout f g h = inr refl

  -- a step on an end, if the steps agree on one end and pass on that the fuel is out
  pub below-trans :
      (f g : End A → End B) (x y : End A) → f timeout ≡ timeout → x ⊑ y → f y ⊑ g y → f x ⊑ g y
  below-trans f g x y e (inl h) k = inl (ap f h ∙ e)
  below-trans f g x y e (inr h) (inl k) = inl (ap f h ∙ k)
  below-trans f g x y e (inr h) (inr k) = inr (ap f h ∙ k)

  pub after-below :
      (x y : End A) (f g : A → W B)
      → x ⊑ y
      → ((a : A) (u : World) → f a u ⊑ g a u)
      → after f x ⊑ after g y
  after-below x y f g e h = below-trans (after f) (after g) x y refl e (after_each y f g h)

-- the state of the deferred calls after which the fuel is out, or both alike
abbrev Below : Frame Deferred × Rest → Frame Deferred × Rest → Type 0
Below x y = (x.1 ≡ none) ⊎ (x ≡ y)

-- a caller that ends as another one does, unless it is out of fuel
abbrev pub Grows : Caller → Caller → Type 0
Grows c d = (f : Value) (args : List Value) (w : World) → c f args w ⊑ d f args w

-- the deferred calls that are left, after one that ended so
abbrev pub resume : Caller → List Deferred → Called Deferred Rest → Frame Deferred × Rest
resume e ds r = run_each (call_deferred e) ds (raise_in r.frame r.raised) r.state

pub run_each-none :
    (c : Caller) (ds : List Deferred) (fr : Frame Deferred)
    → (run_each (call_deferred c) ds fr none).1 ≡ none
unfolding run_each call_deferred
run_each-none c [] fr = refl
run_each-none c (x ∷ ds) fr = run_each-none c ds fr

module _ (c d : Caller) (grows : Grows c d) where
  Below-resume :
      (ds : List Deferred)
      → ((fr : Frame Deferred) (s : Rest)
          → Below (run_each (call_deferred c) ds fr s) (run_each (call_deferred d) ds fr s))
      → (fr : Frame Deferred) (x y : End Value) → x ⊑ y
      → Below (resume c ds (called fr x)) (resume d ds (called fr y))
  Below-resume ds rest fr x y (inl e) =
      inl (ap (λ z. (resume c ds (called fr z)).1) e ∙ run_each-none c ds fr)
  Below-resume ds rest fr x y (inr e) =
      let r = called fr y in
      elim (rest (raise_in r.frame r.raised) r.state) [
        | inl k ↦ inl (ap (λ z. (resume c ds (called fr z)).1) e ∙ k)
        | inr k ↦ inr (ap (λ z. resume c ds (called fr z)) e ∙ k)
      ]

  Below-each :
      (ds : List Deferred) (fr : Frame Deferred) (s : Rest)
      → Below (run_each (call_deferred c) ds fr s) (run_each (call_deferred d) ds fr s)
  unfolding run_each call_deferred run_defer
  Below-each [] fr s = inr refl
  Below-each (x ∷ ds) fr none = inl (run_each-none c ds fr)
  Below-each (x ∷ ds) fr (some (s, up)) =
      Below-resume ds (Below-each ds) fr _ _
        (grows x.0 x.1 (record { store = s; frames = fr ∷ up }))

  -- how run_defers ends
  finish_if :
      {A : Type 0} (a : A) (b : Bool) (p : Option Panic) (fr : Frame Deferred)
      → finish a (if b then panicked p fr none else returned fr none) ≡ timeout
  finish_if a true none fr = refl
  finish_if a true (some p) fr = refl
  finish_if a false p fr = refl

  abbrev settled : Frame Deferred × Rest → Ran Deferred Rest
  settled r =
      let end = record r.0 { defers = [] } in
      if r.0.panicking then panicked r.0.panic end r.1 else returned end r.1

  finish-none :
      {A : Type 0} (a : A) (r : Frame Deferred × Rest) → r.1 ≡ none → finish a (settled r) ≡ timeout
  finish-none a (fr, s) e = rw e (finish_if a fr.panicking fr.panic _)

  pub run_defers-below :
      {A : Type 0} (a : A) (fr : Frame Deferred) (s : Rest)
      → finish a (run_defers (call_deferred c) fr s) ⊑ finish a (run_defers (call_deferred d) fr s)
  unfolding run_defers
  run_defers-below a fr s = elim (Below-each fr.defers fr s) [
    | inl e ↦ inl (finish-none a (run_each (call_deferred c) fr.defers fr s) e)
    | inr e ↦ inr (ap (λ z. finish a (settled z)) e)
  ]

  pub at_top-below :
      {A : Type 0} (a : A) (s : Store) (frames : Stack)
      → at_top a (λ fr r. run_defers (call_deferred c) fr r) s frames
        ⊑ at_top a (λ fr r. run_defers (call_deferred d) fr r) s frames
  at_top-below a s [] = inr refl
  at_top-below a s (fr ∷ up) = run_defers-below a fr (some (s, up))

  pub handle_panic-below :
      {A : Type 0} (a : A) (p : Option Panic) (s : Store) (frames : Stack)
      → at_top a (λ fr r. handle_panic (call_deferred c) p fr r) s frames
        ⊑ at_top a (λ fr r. handle_panic (call_deferred d) p fr r) s frames
  unfolding handle_panic
  handle_panic-below a p s [] = inr refl
  handle_panic-below a p s (fr ∷ up) =
      run_defers-below a (record fr { panicking = true; panic = p }) (some (s, up))
