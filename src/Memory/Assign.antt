-- ===== src/Memory/Assign.antt =====
-- The assignment *p = *q, as the interpreter runs it: a load, then a store of what was loaded.
use temporal_determinizer.Prelude.{ℕ, ◌≤◌, ◌<◌, ◌≡◌, ◌≢◌, ◌⊎◌, inl, inr, refl, arith, ◌∙◌, sym}
use mathlib.Core.Path.{subst}
use temporal_determinizer.Types.{GoType}
use temporal_determinizer.Value.{Value}
use temporal_determinizer.Heap.{Heap, M, returns, ◌>>=◌}
use temporal_determinizer.Memory.{load, store}
use temporal_determinizer.Memory.Done.{Done, >>=-returns}
use temporal_determinizer.Memory.Layout.{view, Laid, Laid-le, Laid-Frame, Agree-narrow}
use temporal_determinizer.Memory.Load.{load-IsCopy}
use temporal_determinizer.Memory.Store.{Outside, Apart, store-IsStored, kept}

abbrev pub assign : GoType → ℕ → ℕ → M (Unit {0})
assign t a b = load t b >>= store t a

-- a variable at a, whose elements lie in allocated cells from lo to hi, before its own or after it
pub record IsVariable (t : GoType) (h : Heap) (a lo hi : ℕ) : Type 0 where
  pub own : Outside a lo hi
  pub inside : a < h.next
  pub allocated : hi ≤ h.next
  pub laid : Laid t h.cell (h.cell a) lo hi

-- the variable at a now holds what the one at b held
pub record IsAssigned (t : GoType) (a b lo hi : ℕ) (h h' : Heap) : Type 0 where
  pub grows : h.next ≤ h'.next
  pub keeps : (p : ℕ) → p < h.next → p ≢ a → (p < lo) ⊎ (hi ≤ p) → h'.cell p ≡ h.cell p
  pub laid : Laid t h'.cell (h'.cell a) lo hi
  pub same : view t h'.cell (h'.cell a) ≡ view t h.cell (h.cell b)

-- For two variables of one type the assignment ends normally, also where they overlap or are one.
-- The first then shows the tree that the second showed before, in its own cells, and every other
-- allocated cell is as it was.
pub assign-IsAssigned :
    (t : GoType) (h : Heap) (a lo hi b lo' hi' : ℕ)
    → IsVariable t h a lo hi
    → IsVariable t h b lo' hi'
    → Done (assign t a b) h (λ _. IsAssigned t a b lo hi h)
assign-IsAssigned t h a lo hi b lo' hi' x y =
    let (v, h₁, e, c) = load-IsCopy t h b lo' hi' y.inside y.allocated y.laid in
    let g = Laid-le t h.cell (h.cell a) lo hi x.laid in
    let (l, _) =
      Laid-Frame t h.cell h₁.cell (h.cell a) lo hi
        (Agree-narrow lo hi c.keeps (omega arith) x.allocated) x.laid in
    let old = c.keeps a (omega arith) x.inside in
    let (u, h₂, e', s) =
      store-IsStored t h₁ a v lo hi h.next h₁.next x.own (inl x.allocated, inl x.inside)
        (subst (λ z. Laid t h₁.cell z lo hi) old l) c.laid in
    (
      u,
      h₂,
      >>=-returns (load t b) (store t a) h e e',
      record {
        grows = omega (arith, c.grows, s.next);
        keeps = λ p i j k. s.keeps p j k ∙ sym (c.keeps p (omega arith) i);
        laid = s.laid;
        same = s.same ∙ c.same;
      },
    )

-- What was loaded from a variable shows the same tree after a later store through the variable, and
-- the variable shows that of the stored value, whose allocated cells are none of the variable's.
pub load-unaliased :
    (t : GoType) (h : Heap) (a lo hi : ℕ) (w : Value) (lo' hi' : ℕ)
    → IsVariable t h a lo hi
    → Laid t h.cell w lo' hi'
    → hi' ≤ h.next
    → Apart a lo hi lo' hi'
    → (v : Value) × (h' : Heap) × ((load t a >>= λ x. store t a w >>= λ _ g. returns x g) h
        ≡ returns v h')
      × (view t h'.cell v ≡ view t h.cell (h.cell a))
      × (view t h'.cell (h'.cell a) ≡ view t h.cell w)
load-unaliased t h a lo hi w lo' hi' x lw allocated apart =
    let (v, h₁, e, c) = load-IsCopy t h a lo hi x.inside x.allocated x.laid in
    let g = Laid-le t h.cell (h.cell a) lo hi x.laid in
    let g' = Laid-le t h.cell w lo' hi' lw in
    let (l, _) =
      Laid-Frame t h.cell h₁.cell (h.cell a) lo hi
        (Agree-narrow lo hi c.keeps (omega arith) x.allocated) x.laid in
    let (k, kw) =
      Laid-Frame t h.cell h₁.cell w lo' hi' (Agree-narrow lo' hi' c.keeps (omega arith) allocated)
        lw in
    let old = c.keeps a (omega arith) x.inside in
    let (u, h₂, e', s) =
      store-IsStored t h₁ a w lo hi lo' hi' x.own apart (subst (λ z. Laid t h₁.cell z lo hi) old l)
        k in
    let (_, q) =
      Laid-Frame t h₁.cell h₂.cell v h.next h₁.next
        (kept s h.next h₁.next (inl x.inside) (inr x.allocated)) c.laid in
    (
      v,
      h₂,
      >>=-returns (load t a) (λ z. store t a w >>= λ _ g. returns z g) h e
          (>>=-returns (store t a w) (λ _ g. returns v g) h₁ e' refl),
      (sym q ∙ c.same),
      (s.same ∙ sym kw),
    )
