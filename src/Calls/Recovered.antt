-- ===== src/Calls/Recovered.antt =====
-- A frame that goes on after a panic: the deferred function of runFrame in
-- interpreter/internal/interp/interp.go.
use temporal_determinizer.Prelude.{ℕ, ◌≡◌, refl, Bool, true, false, [], ◌∷◌, Option, none, some}
use temporal_determinizer.Value.{Panic}
use temporal_determinizer.Frames.{Ran, returned, panicked, handle_panic}
use temporal_determinizer.Frames.Order.{IsSettled, handle_panic-IsSettled}
use temporal_determinizer.Store.{Store}
use temporal_determinizer.Program.{Function, Host, Program}
use temporal_determinizer.Visit.{Activation}
use temporal_determinizer.World.{Deferred, Stack, World, value, raise}
use temporal_determinizer.Steps.{Caller, Rest, top, call_deferred, finish, at_top, raised}
use temporal_determinizer.Calls.{recover_at, recover_frame}

-- the frame goes on at a block with its registers and its result, no call is deferred any more, and
-- it does not panic
pub record IsRecovered (a : Activation) (next : Option ℕ) (b : Activation) (u : World)
    : Type 0 where
  pub goes_on : b ≡ record a { block = next }
  pub no_defers : (top u.frames).defers ≡ []
  pub calm : (top u.frames).panicking ≡ false

not_value : {A : Type 0} (p : Panic) (w : World) (a : A) (u : World) → raise p w ≡ value a u → ⊥
not_value (Panic.target v) w a u h = cc
not_value (Panic.exit n) w a u h = cc
not_value (Panic.runtime e) w a u h = cc
not_value (Panic.message m) w a u h = cc
not_value Panic.exhausted w a u h = cc

value_injective : {A : Type 0} {a b : A} {u v : World} → value a u ≡ value b v → (a ≡ b) × (u ≡ v)
value_injective h = (cc, cc)

IsRecovered-finish :
    (a : Activation) (next : Option ℕ) (r : Ran Deferred Rest) (b : Activation) (u : World)
    → IsSettled r
    → finish (record a { block = next }) r ≡ value b u
    → IsRecovered a next b u
IsRecovered-finish a next (returned fr (some (s, up))) b u (d, k) h =
    let (e, f) = value_injective h in
    record { goes_on = rw⁻¹ e refl; no_defers = rw⁻¹ f d; calm = rw⁻¹ f k }
IsRecovered-finish a next (returned fr none) b u d h = cc
IsRecovered-finish a next (panicked none fr (some (s, up))) b u d h = cc
IsRecovered-finish a next (panicked (some p) fr (some (s, up))) b u d h = cc
IsRecovered-finish a next (panicked none fr none) b u d h = cc
IsRecovered-finish a next (panicked (some p) fr none) b u d h = cc

module _ (host : Host) (prog : Program) (c : Caller) where
  IsRecovered-top :
      (a : Activation) (next : Option ℕ) (p : Option Panic) (s : Store) (frames : Stack)
      (b : Activation) (u : World)
      → at_top (record a { block = next }) (λ fr r. handle_panic (call_deferred c) p fr r) s frames
        ≡ value b u
      → IsRecovered a next b u
  IsRecovered-top a next p s [] b u h = cc
  IsRecovered-top a next p s (fr ∷ up) b u h =
      IsRecovered-finish a next _ b u (handle_panic-IsSettled (call_deferred c) p fr (some (s, up)))
        h

  IsRecovered-at :
      (disabled : Bool) (i next : Option ℕ) (p : Panic) (a : Activation) (w : World)
      (b : Activation) (u : World)
      → recover_at host prog c disabled i next p a w ≡ value b u
      → IsRecovered a next b u
  unfolding recover_at
  IsRecovered-at disabled none next p a w b u h = absurd (not_value p w b u h)
  IsRecovered-at true (some i) next p a w b u h = absurd (not_value p w b u h)
  IsRecovered-at false (some i) next p a w b u h =
      IsRecovered-top a next (some p) w.store w.frames b u h

  -- A function that panics and whose deferred calls recover: its frame goes on at the function's
  -- block for that, if it has one, and else has returned; in both cases with the registers and the
  -- result that it had when the panic began, so that a function without such a block returns what was
  -- stored as its result, the nil of the interpreter before any return. The frame has no deferred
  -- calls left and does not panic.
  pub recover_frame-IsRecovered :
      (fn : Function) (p : Panic) (a b : Activation) (w u : World)
      → recover_frame host prog c fn (raised p a) w ≡ value b u
      → IsRecovered a fn.recover b u
  unfolding recover_frame
  recover_frame-IsRecovered fn p a b w u h =
      IsRecovered-at prog.disable_recover a.block fn.recover p a w b u h
