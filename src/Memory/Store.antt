-- ===== src/Memory/Store.antt =====
-- A store writes the scalars of a value through a variable, and leaves the variable's layout, and
-- every cell outside it, as they were.
use temporal_determinizer.Prelude.{
  ℕ, zero, suc, ◌+◌, ◌≤◌, ◌<◌, ◌≡◌, ◌≢◌, ◌⊎◌, refl, ap, arith, ◌∙◌, sym,
}
use mathlib.Core.Path.{ap₂, subst}
use temporal_determinizer.Types.{GoType, Fields, end, field}
use temporal_determinizer.Value.{Value}
use temporal_determinizer.Heap.{Heap, update, read, write}
use temporal_determinizer.Memory.{count, store, store_fields, store_elems}
use temporal_determinizer.Memory.Done.{Done, >>=-returns}
use temporal_determinizer.Memory.Elems.{ElemsLaid, elems_view}
use temporal_determinizer.Memory.Layout.{
  Trees, branch, node, Cells, view, view_fields, Laid, LaidFields, Agree, Laid-le, Laid-Frame,
  LaidFields-le, LaidFields-frame, LaidElems-le, LaidElems-Frame,
}

-- `a` holds what `v` held, with the layout that it had
pub record IsStored (t : GoType) (a : ℕ) (v : Value) (lo hi : ℕ) (h h' : Heap) : Type 0 where
  pub next : h'.next ≡ h.next
  pub keeps : (p : ℕ) → p ≢ a → (p < lo) ⊎ (hi ≤ p) → h'.cell p ≡ h.cell p
  pub laid : Laid t h'.cell (h'.cell a) lo hi
  pub same : view t h'.cell (h'.cell a) ≡ view t h.cell v

-- the cell a lies before those from lo to hi, or after them
abbrev pub Outside : ℕ → ℕ → ℕ → Type 0
Outside a lo hi = (a < lo) ⊎ (hi ≤ a)

-- the cells of the stored value, from lo' to hi', are none of the variable's
abbrev pub Apart : ℕ → ℕ → ℕ → ℕ → ℕ → Type 0
Apart a lo hi lo' hi' = ((hi ≤ lo') ⊎ (hi' ≤ lo)) × Outside a lo' hi'

abbrev Stores : GoType → Type 0
Stores t =
    (h : Heap) (a : ℕ) (v : Value) (lo hi lo' hi' : ℕ)
    → Outside a lo hi
    → Apart a lo hi lo' hi'
    → Laid t h.cell (h.cell a) lo hi
    → Laid t h.cell v lo' hi'
    → Done (store t a v) h (λ _. IsStored t a v lo hi h)

-- the loops over the n cells from lhs, whose elements lie from m to hi
record Fills (L : Cells → ℕ → ℕ → ℕ → Type 0) (w : Cells → ℕ → Trees) (n lhs rhs m hi : ℕ)
    (h h' : Heap) : Type 0 where
  next : h'.next ≡ h.next
  keeps : (p : ℕ) → (p < lhs) ⊎ (lhs + n ≤ p) → (p < m) ⊎ (hi ≤ p) → h'.cell p ≡ h.cell p
  laid : L h'.cell lhs m hi
  same : w h'.cell lhs ≡ w h.cell rhs

module _ (t : GoType) (L : Cells → ℕ → ℕ → ℕ → Type 0) (w : Cells → ℕ → Trees)
    (n lhs rhs m k hi : ℕ) {h h₁ h₃ : Heap} (first : IsStored t lhs (h.cell rhs) m k h h₁)
    (rest : Fills L w n (suc lhs) (suc rhs) k hi h₁ h₃) (room : lhs + suc n ≤ m) (inner : m ≤ k)
    (outer : k ≤ hi) (source : w h₁.cell (suc rhs) ≡ w h.cell (suc rhs)) where
  first_kept : h₃.cell lhs ≡ h₁.cell lhs
  first_kept = ground (arith, rest.keeps lhs)

  apart : Agree h₁.cell h₃.cell m k
  apart p lo up = ground (arith, rest.keeps p)

  Fills-cons :
      Fills
        (λ c p lo up. (i : ℕ) × Laid t c (c p) lo i × L c (suc p) i up)
        (λ c p. branch (view t c (c p)) (w c (suc p)))
        (suc n)
        lhs
        rhs
        m
        hi
        h
        h₃
  Fills-cons =
      let (l, q) = Laid-Frame t h₁.cell h₃.cell (h₁.cell lhs) m k apart first.laid in
      record {
        next = rest.next ∙ first.next;
        keeps = λ p a b. ground (arith, first.keeps p, rest.keeps p);
        laid = (k, subst (λ x. Laid t h₃.cell x m k) (sym first_kept) l, rest.laid);
        same =
            ap₂ branch (ap (view t h₃.cell) first_kept ∙ sym q ∙ first.same) (rest.same ∙ source);
      }
  -- cells that the first store does not reach

pub kept :
    {t : GoType} {a : ℕ} {v : Value} {lo hi : ℕ} {h h' : Heap} (first : IsStored t a v lo hi h h')
    (x y : ℕ)
    → (a < x) ⊎ (y ≤ a)
    → (y ≤ lo) ⊎ (hi ≤ x)
    → Agree h.cell h'.cell x y
kept {a} first x y u w p b c = ground (arith, first.keeps p)

Stores_elems :
    (t : GoType)
    → Stores t
    → (n lhs rhs m hi m' hi' : ℕ) (h : Heap) → lhs + n ≤ m
    → rhs + n ≤ m'
    → (hi ≤ rhs) ⊎ (hi' ≤ lhs)
    → ElemsLaid t n h.cell lhs m hi
    → ElemsLaid t n h.cell rhs m' hi'
    → Done
        (store_elems (store t) n lhs rhs n)
        h
        (λ _ h'. Fills (ElemsLaid t n) (elems_view t n) n lhs rhs m hi h h')
unfolding store_elems read
Stores_elems t ih zero lhs rhs m hi m' hi' h p q r l l' =
    (tt, h, refl, record { next = refl; keeps = λ _ _ _. refl; laid = l; same = refl })
Stores_elems t ih (suc n) lhs rhs m hi m' hi' h p q r (k, l, ls) (k', l', ls') =
    let g = LaidElems-le (Laid t h.cell) h.cell (Laid-le t h.cell) n (suc lhs) k hi ls in
    let g' = LaidElems-le (Laid t h.cell) h.cell (Laid-le t h.cell) n (suc rhs) k' hi' ls' in
    let i = Laid-le t h.cell _ m k l in
    let i' = Laid-le t h.cell _ m' k' l' in
    let (u, h₁, e, first) =
      ih h lhs (h.cell rhs) m k m' k' (omega arith) (omega arith, omega arith) l l' in
    let (dest, _) =
      LaidElems-Frame (Laid t) (view t) (Laid-le t) (Laid-Frame t) h.cell h₁.cell n (suc lhs) k hi
        (kept first (suc lhs) (suc lhs + n) (omega arith) (omega arith))
        (kept first k hi (omega arith) (omega arith)) ls in
    let (src, s) =
      LaidElems-Frame (Laid t) (view t) (Laid-le t) (Laid-Frame t) h.cell h₁.cell n (suc rhs) k' hi'
        (kept first (suc rhs) (suc rhs + n) (omega arith) (omega arith))
        (kept first k' hi' (omega arith) (omega arith)) ls' in
    let (_, h₃, e', rest) =
      Stores_elems t ih n (suc lhs) (suc rhs) k hi k' hi' h₁ (omega arith) (omega arith)
        (omega arith) dest src in
    (
      tt,
      h₃,
      >>=-returns (store t lhs (h.cell rhs)) _ h e e',
      Fills-cons t (ElemsLaid t n) (elems_view t n) n lhs rhs m k hi first rest p i g (sym s),
    )

mutual
  unfolding store Laid view read write

  Stores_type : (t : GoType) → Stores t
  Stores_type (GoType.named n u) h a v lo hi lo' hi' p q l l' =
      let (x, h₁, e, c) = Stores_type u h a v lo hi lo' hi' p q l l' in
      (x, h₁, e, record { next = c.next; keeps = c.keeps; laid = c.laid; same = c.same })
  Stores_type (GoType.struct fs) h a v lo hi lo' hi' p (q, o) (e, l) (e', l') =
      let n = count fs in
      let g = LaidFields-le fs h.cell lo (lo + n) hi l in
      let g' = LaidFields-le fs h.cell lo' (lo' + n) hi' l' in
      let (u, h₃, r, c) =
        Stores_fields fs lo lo' (lo + n) hi (lo' + n) hi' h (omega arith) (omega arith)
          (omega arith) l l' in
      let old = c.keeps a (omega arith) (omega arith) ∙ e in
      (
        u,
        h₃,
        rw (e, e') r,
        record {
          next = c.next;
          keeps = λ x y z. c.keeps x (omega arith) (omega arith);
          laid = (old, c.laid);
          same = rw (old, e') (ap node c.same);
        },
      )
  Stores_type (GoType.array k t) h a v lo hi lo' hi' p (q, o) (e, l) (e', l') =
      let g = LaidElems-le (Laid t h.cell) h.cell (Laid-le t h.cell) k lo (lo + k) hi l in
      let g' = LaidElems-le (Laid t h.cell) h.cell (Laid-le t h.cell) k lo' (lo' + k) hi' l' in
      let (u, h₃, r, c) =
        Stores_elems t (Stores_type t) k lo lo' (lo + k) hi (lo' + k) hi' h (omega arith)
          (omega arith) (omega arith) l l' in
      let old = c.keeps a (omega arith) (omega arith) ∙ e in
      (
        u,
        h₃,
        rw (e, e') r,
        record {
          next = c.next;
          keeps = λ x y z. c.keeps x (omega arith) (omega arith);
          laid = (old, c.laid);
          same = rw (old, e') (ap node c.same);
        },
      )
  Stores_type _ h a v lo hi lo' hi' p q l l' = (
    tt,
    record h { cell = update h.cell a v },
    refl,
    record { next = refl; keeps = λ x y z. ground arith; laid = l; same = ground arith },
  )

  Stores_fields :
      (fs : Fields) (lhs rhs m hi m' hi' : ℕ) (h : Heap)
      → lhs + count fs ≤ m
      → rhs + count fs ≤ m'
      → (hi ≤ rhs) ⊎ (hi' ≤ lhs)
      → LaidFields fs h.cell lhs m hi
      → LaidFields fs h.cell rhs m' hi'
      → Done
          (store_fields fs (count fs) lhs rhs (count fs))
          h
          (λ _ h'. Fills (LaidFields fs) (view_fields fs) (count fs) lhs rhs m hi h h')
  Stores_fields end lhs rhs m hi m' hi' h p q r l l' =
      (tt, h, refl, record { next = refl; keeps = λ _ _ _. refl; laid = l; same = refl })
  Stores_fields (field x y t fs) lhs rhs m hi m' hi' h p q r (k, l, ls) (k', l', ls') =
      let n = count fs in
      let g = LaidFields-le fs h.cell (suc lhs) k hi ls in
      let g' = LaidFields-le fs h.cell (suc rhs) k' hi' ls' in
      let i = Laid-le t h.cell _ m k l in
      let i' = Laid-le t h.cell _ m' k' l' in
      let (u, h₁, e, first) =
        Stores_type t h lhs (h.cell rhs) m k m' k' (omega arith) (omega arith, omega arith) l l' in
      let (dest, _) =
        LaidFields-frame fs h.cell h₁.cell (suc lhs) k hi
          (kept first (suc lhs) (suc lhs + n) (omega arith) (omega arith))
          (kept first k hi (omega arith) (omega arith)) ls in
      let (src, s) =
        LaidFields-frame fs h.cell h₁.cell (suc rhs) k' hi'
          (kept first (suc rhs) (suc rhs + n) (omega arith) (omega arith))
          (kept first k' hi' (omega arith) (omega arith)) ls' in
      let (_, h₃, e', rest) =
        Stores_fields fs (suc lhs) (suc rhs) k hi k' hi' h₁ (omega arith) (omega arith)
          (omega arith) dest src in
      (
        tt,
        h₃,
        >>=-returns (store t lhs (h.cell rhs)) _ h e e',
        Fills-cons t (LaidFields fs) (view_fields fs) n lhs rhs m k hi first rest p i g (sym s),
      )

-- Storing a value that lies apart from the variable ends normally. The variable then shows the tree
-- of the value, is laid out in the same cells, and no other cell has changed.
pub store-IsStored :
    (t : GoType) (h : Heap) (a : ℕ) (v : Value) (lo hi lo' hi' : ℕ)
    → Outside a lo hi
    → Apart a lo hi lo' hi'
    → Laid t h.cell (h.cell a) lo hi
    → Laid t h.cell v lo' hi'
    → Done (store t a v) h (λ _. IsStored t a v lo hi h)
store-IsStored t = Stores_type t
