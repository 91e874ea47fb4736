-- ===== src/Tests/Frames.antt =====
-- A frame that defers two calls, the second of which panics.
use temporal_determinizer.Prelude.{
  refl, ℕ, ◌≡◌, true, false, [], ◌∷◌, none, some, ◌==◌, if◌then◌else◌,
}
use temporal_determinizer.Value.{Value, Panic, target, exit}
use temporal_determinizer.Frames.{push_defer, Frame, Call, panicked, run_defers, handle_panic}
use temporal_determinizer.Frames.Order.{
  pushed, reverse_onto, logged, log, run_defers-order, NeverRecovers, Origin,
  handle_panic-IsPassedOn,
}

-- call 2 panics, the others end normally
abbrev second_panics : Call ℕ (Unit {0})
second_panics d fr s = record {
  frame = fr;
  state = s;
  raised = if d == 2 then some (target (Value.boolean true)) else none;
}

abbrev idle : Frame ℕ
idle = record { defers = []; panicking = false; panic = none }

abbrev failing : Frame ℕ
failing = record { defers = 1 ∷ []; panicking = true; panic = some (exit 1) }

run_defers-order_example :
    log (run_defers (logged second_panics) (pushed (1 ∷ 2 ∷ 3 ∷ []) idle) (tt, []))
    ≡ reverse_onto (1 ∷ 2 ∷ 3 ∷ []) []
run_defers-order_example = run_defers-order second_panics (1 ∷ 2 ∷ 3 ∷ []) idle tt

second_NeverRecovers : NeverRecovers second_panics
second_NeverRecovers d fr s = (refl, refl)

handle_panic-IsPassedOn_example :
    (q : Panic) × (end : Frame ℕ) × (t : Unit {0}) × (handle_panic second_panics
        (some (exit 1))
        (pushed (1 ∷ 2 ∷ []) idle)
        tt
      ≡ panicked (some q) end t)
    × (end.defers ≡ [])
    × Origin second_panics (2 ∷ 1 ∷ []) (exit 1) q
unfolding push_defer
handle_panic-IsPassedOn_example =
    handle_panic-IsPassedOn second_panics (exit 1) (pushed (1 ∷ 2 ∷ []) idle) tt
      second_NeverRecovers
