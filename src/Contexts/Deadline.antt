-- ===== src/Contexts/Deadline.antt =====
-- The deadline of a combined context is the earlier one of the two.
use temporal_determinizer.Prelude.{ℕ, ◌≡◌, refl, Bool, true, false, ◌&&◌, ◌||◌, leb, arith}
use temporal_determinizer.Contexts.{Limit, earliest, Sdk, CombinedContext, deadline}

-- there is a deadline, and it has passed at the time t
abbrev pub expired : Limit → ℕ → Bool
expired (d, b) t = b && leb d t

expired-earliest :
    (l₁ l₂ : Limit) (t : ℕ) → expired (earliest l₁ l₂) t ≡ (expired l₁ t || expired l₂ t)
expired-earliest (d₁, false) l t = refl
expired-earliest (d₁, true) (d₂, false) t = ground arith
expired-earliest (d₁, true) (d₂, true) t = ground arith

-- At every time the combined context's deadline has passed exactly if the deadline of one of its two
-- contexts has; a context without a deadline never passes it.
pub expired-deadline :
    {K V W : Type 0} (sdk : Sdk K V W) (c : CombinedContext K V W) (t : ℕ)
    → expired (deadline sdk c) t
      ≡ (expired (sdk.deadline c.workflow_context) t || expired c.go_context.deadline t)
unfolding deadline
expired-deadline sdk c t =
    expired-earliest (sdk.deadline c.workflow_context) c.go_context.deadline t
