-- ===== src/Frames/Recover.antt =====
-- What a call of recover does.
use temporal_determinizer.Prelude.{
  ℕ, ◌≡◌, refl, Bool, true, false, not, ◌&&◌, List, [], ◌∷◌, Option, none, some, arith, Bool-cases,
  inl, inr,
}
use temporal_determinizer.Types.{GoType}
use temporal_determinizer.Value.{
  Value, Panic, target, exit, message, unexpected_recover, Result, ok, panics,
}
use temporal_determinizer.Frames.{
  Frame, Call, returned, panicked, handle_panic, do_recover, nil_interface,
}

abbrev pub raised_by : Result Value → Option Panic
raised_by (ok v) = none
raised_by (panics p) = some p

module _ {D : Type 0} (error_string : GoType) (text : Panic → List ℕ) where
  calm :
      (disabled : Bool) (caller parent : Frame D) (rest : List (Frame D))
      → parent.panicking ≡ false
      → do_recover error_string text disabled (caller ∷ parent ∷ rest)
        ≡ (ok nil_interface, caller ∷ parent ∷ rest)
  unfolding do_recover
  calm disabled caller parent rest h = ground arith

  -- A second recover right after the first, in the same frame, returns the nil interface and changes
  -- no frame.
  pub do_recover_twice :
      (disabled : Bool) (caller parent : Frame D) (rest : List (Frame D))
      → let after = (do_recover error_string text disabled (caller ∷ parent ∷ rest)).1 in
        do_recover error_string text disabled after ≡ (ok nil_interface, after)
  unfolding do_recover
  do_recover_twice disabled caller parent rest =
      elim (Bool-cases (not disabled && not caller.panicking && parent.panicking)) [
        | inl e ↦
            rw e
              (calm disabled caller (record parent { panicking = false; panic = none }) rest refl)
        | inr e ↦ rw e (rw e refl)
      ]

  abbrev fresh_frame : Frame D
  fresh_frame = record { defers = []; panicking = false; panic = none }

  -- the second frame of a stack
  abbrev second : List (Frame D) → Frame D → Frame D
  second (a ∷ b ∷ r) fr = b
  second _ fr = fr

  -- The deferred functions that call recover and nothing else, each in a frame of its own that does
  -- not panic; the state is what the last of them got.
  abbrev pub recovering : List (Frame D) → Call D (Result Value)
  recovering above d fr s =
      let r = do_recover error_string text false (fresh_frame ∷ fr ∷ above) in
      record { frame = second r.1 fr; state = r.0; raised = raised_by r.0 }

  -- A panic of the program with the value v, in a frame with one deferred function that calls
  -- recover: handling it returns, with the panic cleared, and the recover got v.
  pub handle_panic-recovers :
      (d : D) (v : Value) (b : Bool) (q : Option Panic) (above : List (Frame D)) (s : Result Value)
      → handle_panic
          (recovering above)
          (some (target v))
          (record { defers = d ∷ []; panicking = b; panic = q })
          s
        ≡ returned (record { defers = []; panicking = false; panic = none }) (ok v)
  unfolding handle_panic do_recover
  handle_panic-recovers d v b q above s = refl

  -- When os.Exit ends the program below a frame with one deferred function that calls recover, the
  -- frame ends in another panic, whatever the exit code was: the exit is lost.
  pub handle_panic-exit :
      (d : D) (n : ℕ) (b : Bool) (q : Option Panic) (above : List (Frame D)) (s : Result Value)
      → handle_panic
          (recovering above)
          (some (exit n))
          (record { defers = d ∷ []; panicking = b; panic = q })
          s
        ≡ panicked
            (some (message unexpected_recover))
            (record { defers = []; panicking = true; panic = some (message unexpected_recover) })
            (panics (message unexpected_recover))
  unfolding handle_panic do_recover
  handle_panic-exit d n b q above s = refl
