-- ===== src/Frames/Order.antt =====
-- Which deferred calls run, in which order, and how running them ends.
use temporal_determinizer.Prelude.{
  ◌≡◌, refl, sym, ap, ◌∙◌, Bool, true, false, List, [], ◌∷◌, ◌++◌, Option, if◌then◌else◌, ◌⊎◌, inl,
  inr, some, Option-cases,
}
use temporal_determinizer.Value.{Panic}
use temporal_determinizer.Frames.{
  Frame, Call, Ran, returned, panicked, push_defer, raise_in, run_defer, run_each, run_defers,
  handle_panic,
}

module _ {D : Type 0} where
  -- the frame after Defer instructions, the first of the list run first
  abbrev pub pushed : List D → Frame D → Frame D
  pushed [] fr = fr
  pushed (d ∷ ds) fr = pushed ds (push_defer d fr)

  abbrev pub reverse_onto : List D → List D → List D
  reverse_onto [] acc = acc
  reverse_onto (d ∷ ds) acc = reverse_onto ds (d ∷ acc)

  append_one : (l : List D) (d : D) (ds : List D) → (l ++ (d ∷ [])) ++ ds ≡ l ++ (d ∷ ds)
  append_one [] d ds = refl
  append_one (x ∷ l) d ds = ap (λ r. x ∷ r) (append_one l d ds)

  append_nil : (l : List D) → l ++ [] ≡ l
  append_nil [] = refl
  append_nil (x ∷ l) = ap (λ r. x ∷ r) (append_nil l)

  pushed-defers : (ds : List D) (fr : Frame D) → (pushed ds fr).defers ≡ reverse_onto ds fr.defers
  unfolding push_defer
  pushed-defers [] fr = refl
  pushed-defers (d ∷ ds) fr = pushed-defers ds (push_defer d fr)

  abbrev pub IsIn : D → List D → Type 0
  IsIn d [] = ⊥
  IsIn d (e ∷ es) = (d ≡ e) ⊎ IsIn d es

module _ {D S : Type 0} where
  -- the call, writing down which deferred function it runs
  abbrev pub logged : Call D S → Call D (S × List D)
  logged call d fr s =
      let r = call d fr s.0 in
      record { frame = r.frame; state = (r.state, s.1 ++ (d ∷ [])); raised = r.raised }

  -- what was written down when the run ended
  abbrev pub log : Ran D (S × List D) → List D
  log (returned fr s) = s.1
  log (panicked p fr s) = s.1

  log_each :
      (call : Call D S) (ds : List D) (fr : Frame D) (s : S) (l : List D)
      → (run_each (logged call) ds fr (s, l)).1.1 ≡ l ++ ds
  unfolding run_each
  log_each call [] fr s l = sym (append_nil l)
  log_each call (d ∷ ds) fr s l = log_each call ds _ _ (l ++ (d ∷ [])) ∙ append_one l d ds

  log_if :
      (b : Bool) (p : Option Panic) (fr : Frame D) (s : S × List D)
      → log (if b then panicked p fr s else returned fr s) ≡ s.1
  log_if true p fr s = refl
  log_if false p fr s = refl

  -- Whatever the deferred calls do, also if they panic or recover: every call that was deferred runs
  -- exactly once, the one deferred last first.
  pub run_defers-order :
      (call : Call D S) (ds : List D) (fr : Frame D) (s : S)
      → log (run_defers (logged call) (pushed ds fr) (s, [])) ≡ reverse_onto ds fr.defers
  unfolding run_defers
  run_defers-order call ds fr s =
      log_if _ _ _ _ ∙ log_each call (pushed ds fr).defers (pushed ds fr) s [] ∙ pushed-defers ds fr

  -- a frame that may go on, or one whose panic is handed to its caller
  abbrev pub IsSettled : Ran D S → Type 0
  IsSettled (returned fr s) = (fr.defers ≡ []) × (fr.panicking ≡ false)
  IsSettled (panicked p fr s) = (fr.defers ≡ []) × (fr.panicking ≡ true) × (fr.panic ≡ p)

  IsSettled-if :
      (b : Bool) (p : Option Panic) (fr : Frame D) (s : S)
      → fr.defers ≡ []
      → fr.panicking ≡ b
      → fr.panic ≡ p
      → IsSettled (if b then panicked p fr s else returned fr s)
  IsSettled-if true p fr s e f g = (e, f, g)
  IsSettled-if false p fr s e f g = (e, f)

  -- after a panic was handled
  pub handle_panic-IsSettled :
      (call : Call D S) (p : Option Panic) (fr : Frame D) (s : S)
      → IsSettled (handle_panic call p fr s)
  unfolding handle_panic
  handle_panic-IsSettled call p fr s = IsSettled-if _ _ _ _ refl refl refl

  -- no deferred call recovers: each leaves the panic of the frame that defers it as it was
  abbrev pub NeverRecovers : Call D S → Type 0
  NeverRecovers call =
      (d : D) (fr : Frame D) (s : S)
      → ((call d fr s).frame.panicking ≡ fr.panicking) × ((call d fr s).frame.panic ≡ fr.panic)

  -- q is the panic p, or one that a call of the list ended in
  abbrev pub Origin : Call D S → List D → Panic → Panic → Type 0
  Origin call ds p q =
      (q ≡ p) ⊎ ((d : D) × IsIn d ds × (fr : Frame D) × (s : S) × ((call d fr s).raised ≡ some q))

  later :
      (call : Call D S) (d : D) (ds : List D) (p q : Panic)
      → Origin call ds p q
      → Origin call (d ∷ ds) p q
  later call d ds p q (inl e) = inl e
  later call d ds p q (inr (x, i, fr, s, e)) = inr (x, inr i, fr, s, e)

  after_raise :
      (call : Call D S) (d : D) (ds : List D) (fr : Frame D) (s : S) (p r q : Panic)
      → (call d fr s).raised ≡ some r
      → Origin call ds r q
      → Origin call (d ∷ ds) p q
  after_raise call d ds fr s p r q e (inl h) = inr (d, inl refl, fr, s, e ∙ ap some (sym h))
  after_raise call d ds fr s p r q e (inr (x, i, fr', s', k)) = inr (x, inr i, fr', s', k)

  passed_each :
      (call : Call D S)
      → NeverRecovers call
      → (ds : List D) (fr : Frame D) (s : S) (p : Panic) → fr.panicking ≡ true
      → fr.panic ≡ some p
      → (q : Panic) × ((run_each call ds fr s).0.panicking ≡ true)
        × ((run_each call ds fr s).0.panic ≡ some q)
        × Origin call ds p q
  unfolding run_each
  passed_each call never [] fr s p e h = (p, e, h, inl refl)
  passed_each call never (d ∷ ds) fr s p e h =
      let (same, kept) = never d fr s in
      elim (Option-cases (call d fr s).raised) [
        | inl n ↦
            let (q, i, j, o) =
              passed_each call never ds (call d fr s).frame (call d fr s).state p (same ∙ e)
                (kept ∙ h) in
            (q, rw (run_each, run_defer, n) i, rw (run_each, run_defer, n) j, later call d ds p q o)
        | inr (r, n) ↦
            let (q, i, j, o) =
              passed_each call never ds (raise_in (call d fr s).frame (some r)) (call d fr s).state
                r refl refl in
            (
              q,
              rw (run_each, run_defer, n) i,
              rw (run_each, run_defer, n) j,
              after_raise call d ds fr s p r q n o,
            )
      ]

  -- If no deferred call recovers, a panic is passed on: after it was handled, the frame ends in a panic,
  -- without deferred calls, and that panic is the one that was handled or one that a deferred call of
  -- the frame ended in.
  pub handle_panic-IsPassedOn :
      (call : Call D S) (p : Panic) (fr : Frame D) (s : S)
      → NeverRecovers call
      → (q : Panic) × (end : Frame D) × (t : S) × (handle_panic call (some p) fr s
          ≡ panicked (some q) end t)
        × (end.defers ≡ [])
        × Origin call fr.defers p q
  unfolding handle_panic
  handle_panic-IsPassedOn call p fr s never =
      let (q, e, h, o) =
        passed_each call never fr.defers (record fr { panicking = true; panic = some p }) s p refl
          refl in
      let r = run_each call fr.defers (record fr { panicking = true; panic = some p }) s in
      (q, record r.0 { defers = [] }, r.1, rw (handle_panic, run_defers, e, h) refl, refl, o)
