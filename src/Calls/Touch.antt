-- ===== src/Calls/Touch.antt =====
-- What a run may do to the frames below it in interpreter/internal/interp/interp.go: a recover clears
-- the panic of a frame, all else stays.
use temporal_determinizer.Prelude.{
  ℕ, zero, suc, ◌≡◌, refl, sym, ◌∙◌, ◌⊎◌, inl, inr, Bool, true, false, not, ◌&&◌, List, [], ◌∷◌,
  none, Bool-cases, arith,
}
use temporal_determinizer.Types.{GoType}
use temporal_determinizer.Value.{Panic}
use temporal_determinizer.Frames.{Frame, do_recover}
use temporal_determinizer.Store.{Ended, S, gives, throws}
use temporal_determinizer.World.{
  Deferred, Stack, World, End, value, panic, timeout, W, after, lifted, lift, raise,
}

-- a frame that keeps its deferred calls, and its panic unless that was cleared
abbrev pub Kept : Frame Deferred → Frame Deferred → Type 0
Kept a b =
    (b.defers ≡ a.defers)
    × (((b.panicking ≡ a.panicking) × (b.panic ≡ a.panic))
        ⊎ ((a.panicking ≡ true) × (b.panicking ≡ false) × (b.panic ≡ none)))

-- stacks of one height, alike but for the panics of the first n frames
abbrev pub Touches : ℕ → Stack → Stack → Type 0
Touches zero s t = s ≡ t
Touches (suc n) [] [] = Unit {0}
Touches (suc n) [] (b ∷ t) = ⊥
Touches (suc n) (a ∷ s) [] = ⊥
Touches (suc n) (a ∷ s) (b ∷ t) = Kept a b × Touches n s t

Kept-refl : (a : Frame Deferred) → Kept a a
Kept-refl a = (refl, inl (refl, refl))

Kept-trans : (a b c : Frame Deferred) → Kept a b → Kept b c → Kept a c
Kept-trans a b c (d, inl (p, q)) (e, inl (p', q')) = (e ∙ d, inl (p' ∙ p, q' ∙ q))
Kept-trans a b c (d, inl (p, q)) (e, inr (x, y, z)) = (e ∙ d, inr (sym p ∙ x, y, z))
Kept-trans a b c (d, inr (x, y, z)) (e, inl (p, q)) = (e ∙ d, inr (x, p ∙ y, q ∙ z))
Kept-trans a b c (d, inr (x, y, z)) (e, inr (x', y', z')) = (e ∙ d, inr (x, y', z'))

pub Touches-refl : (n : ℕ) (s : Stack) → Touches n s s
Touches-refl zero s = refl
Touches-refl (suc n) [] = tt
Touches-refl (suc n) (a ∷ s) = (Kept-refl a, Touches-refl n s)

pub Touches-trans : (n : ℕ) (s t u : Stack) → Touches n s t → Touches n t u → Touches n s u
Touches-trans zero s t u p q = p ∙ q
Touches-trans (suc n) [] [] [] p q = tt
Touches-trans (suc n) [] [] (c ∷ u) p q = elim q [ ]
Touches-trans (suc n) [] (b ∷ t) u p q = elim p [ ]
Touches-trans (suc n) (a ∷ s) [] u p q = elim p [ ]
Touches-trans (suc n) (a ∷ s) (b ∷ t) [] p q = elim q [ ]
Touches-trans (suc n) (a ∷ s) (b ∷ t) (c ∷ u) (p, k) (q, l) =
    (Kept-trans a b c p q, Touches-trans n s t u k l)

-- the frame of the run itself may change; of those below, the panic of the first
abbrev pub Over : Stack → Stack → Type 0
Over [] t = ⊥
Over (a ∷ s) [] = ⊥
Over (a ∷ s) (b ∷ t) = Touches 1 s t

pub Over-trans : (s t u : Stack) → Over s t → Touches 2 t u → Over s u
Over-trans [] t u p q = elim p [ ]
Over-trans (a ∷ s) [] u p q = elim p [ ]
Over-trans (a ∷ s) (b ∷ t) [] p q = elim q [ ]
Over-trans (a ∷ s) (b ∷ t) (c ∷ u) p (k, q) = Touches-trans 1 s t u p q

-- however a run ends, its stack satisfies P
abbrev pub Ends : {A : Type 0} → (Stack → Type 0) → End A → Type 0
Ends P (value a u) = P u.frames
Ends P (panic p u) = P u.frames
Ends P timeout = Unit {0}

pub Ends-map :
    {A : Type 0} (P Q : Stack → Type 0) (x : End A)
    → ((s : Stack) → P s → Q s)
    → Ends P x
    → Ends Q x
Ends-map P Q (value a u) f h = f u.frames h
Ends-map P Q (panic p u) f h = f u.frames h
Ends-map P Q timeout f h = tt

pub Ends-after :
    {A B : Type 0} (P : Stack → Type 0) (x : End A) (f : A → W B)
    → Ends P x
    → ((a : A) (u : World) → P u.frames → Ends P (f a u))
    → Ends P (after f x)
Ends-after P (value a u) f h k = k a u h
Ends-after P (panic p u) f h k = h
Ends-after P timeout f h k = tt

pub Ends-raise :
    (A : Type 0) (P : Stack → Type 0) (p : Panic) (w : World)
    → P w.frames
    → Ends {A = A} P (raise p w)
Ends-raise A P (Panic.target v) w h = h
Ends-raise A P (Panic.exit n) w h = h
Ends-raise A P (Panic.runtime e) w h = h
Ends-raise A P (Panic.message m) w h = h
Ends-raise A P Panic.exhausted w h = tt

Ends-lifted :
    {A : Type 0} (P : Stack → Type 0) (s : Stack) (x : Ended A) → P s → Ends P (lifted s x)
Ends-lifted P s (gives a t) h = h
Ends-lifted P s (throws p t) h = Ends-raise _ P p _ h

pub Ends-lift :
    {A : Type 0} (P : Stack → Type 0) (m : S A) (w : World) → P w.frames → Ends P (lift m w)
unfolding lift
Ends-lift P m w h = Ends-lifted P w.frames (m w.store) h

last_holds : (a b c : Bool) → (a && b && c) ≡ true → c ≡ true
last_holds a b c e = ground arith

module _ (error_string : GoType) (text : Panic → List ℕ) where
  -- recover clears the panic of the second frame, or changes nothing
  pub do_recover-Touches :
      (disabled : Bool) (s : Stack) → Touches 2 s (do_recover error_string text disabled s).1
  unfolding do_recover
  do_recover-Touches disabled [] = tt
  do_recover-Touches disabled (a ∷ []) = (Kept-refl a, tt)
  do_recover-Touches disabled (a ∷ b ∷ s) =
      elim (Bool-cases (not disabled && not a.panicking && b.panicking)) [
        | inl e ↦ rw e (
          Kept-refl a,
          (
            (refl, inr (last_holds (not disabled) (not a.panicking) b.panicking e, refl, refl)),
            refl,
          ),
        )
        | inr e ↦ rw e (Touches-refl 2 (a ∷ b ∷ s))
      ]
