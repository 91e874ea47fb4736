-- ===== src/Memory/Load.antt =====
-- A load makes a copy of the value in fresh memory: a later store through the variable does not
-- reach it.
use temporal_determinizer.Prelude.{ℕ, zero, suc, ◌+◌, ◌≤◌, ◌<◌, ◌≡◌, refl, ap, arith, ◌∙◌, sym}
use mathlib.Core.Path.{ap₂, subst}
use temporal_determinizer.Types.{GoType, Fields, end, field}
use temporal_determinizer.Value.{Value}
use temporal_determinizer.Heap.{Heap, update, read, write, alloc}
use temporal_determinizer.Memory.{count, load, load_fields, load_elems}
use temporal_determinizer.Memory.Done.{Done, >>=-returns}
use temporal_determinizer.Memory.Elems.{ElemsLaid, elems_view, wrote, with_room, room_agrees}
use temporal_determinizer.Memory.Layout.{
  Trees, branch, node, Cells, view, view_fields, Laid, LaidFields, Agree, Laid-le, Laid-Frame,
  LaidFields-le, LaidFields-frame, LaidElems-le, LaidElems-Frame,
}

-- `v` is a fresh copy of what stands at `a`
pub record IsCopy (t : GoType) (a : ℕ) (h : Heap) (v : Value) (h' : Heap) : Type 0 where
  pub grows : h.next ≤ h'.next
  pub keeps : Agree h.cell h'.cell 0 h.next
  pub laid : Laid t h'.cell v h.next h'.next
  pub same : view t h'.cell v ≡ view t h.cell (h.cell a)

abbrev Loads : GoType → Type 0
Loads t =
    (h : Heap) (a lo hi : ℕ)
    → a < h.next
    → hi ≤ h.next
    → Laid t h.cell (h.cell a) lo hi
    → Done (load t a) h (IsCopy t a h)

-- the loops over n elements, from the cells at src into those at dst
record Copies (L : Cells → ℕ → ℕ → ℕ → Type 0) (w : Cells → ℕ → Trees) (n src dst : ℕ) (h h' : Heap)
    : Type 0 where
  grows : h.next ≤ h'.next
  under : Agree h.cell h'.cell 0 dst
  over : Agree h.cell h'.cell (dst + n) h.next
  laid : L h'.cell dst h.next h'.next
  same : w h'.cell dst ≡ w h.cell src

module _ (t : GoType) (L : Cells → ℕ → ℕ → ℕ → Type 0) (w : Cells → ℕ → Trees) (n src dst : ℕ)
    {h h₁ h₃ : Heap} {v : Value} (first : IsCopy t src h v h₁)
    (rest : Copies L w n (suc src) (suc dst) (wrote h₁ dst v) h₃) (room : dst + suc n ≤ h.next)
    (source : w (update h₁.cell dst v) (suc src) ≡ w h.cell (suc src)) where
  copied_first : h₃.cell dst ≡ v
  copied_first = ground (arith, rest.under dst)

  copied_apart : Agree h₁.cell h₃.cell h.next h₁.next
  copied_apart p lo hi = ground (arith, first.grows, rest.over p)

  Copies-cons :
      Copies
        (λ c p lo hi. (k : ℕ) × Laid t c (c p) lo k × L c (suc p) k hi)
        (λ c p. branch (view t c (c p)) (w c (suc p)))
        (suc n)
        src
        dst
        h
        h₃
  Copies-cons =
      let (l, q) = Laid-Frame t h₁.cell h₃.cell v h.next h₁.next copied_apart first.laid in
      record {
        grows = omega (arith, first.grows, rest.grows);
        under = λ p lo hi. ground (arith, first.keeps p, rest.under p);
        over = λ p lo hi. ground (arith, first.grows, first.keeps p, rest.over p);
        laid =
            (h₁.next, subst (λ x. Laid t h₃.cell x h.next h₁.next) (sym copied_first) l, rest.laid);
        same =
            ap₂ branch (ap (view t h₃.cell) copied_first ∙ sym q ∙ first.same) (rest.same ∙ source);
      }

-- what stands below dst is still there after the first element was copied
module _ (t : GoType) {h h₁ : Heap} {v : Value} {src dst : ℕ} (first : IsCopy t src h v h₁)
    (room : dst < h.next) where
  kept : (lo hi : ℕ) → hi ≤ dst → Agree h.cell (update h₁.cell dst v) lo hi
  kept lo hi k p a b = ground (arith, first.keeps p)

Loads_elems :
    (t : GoType)
    → Loads t
    → (n src dst lo hi : ℕ) (h : Heap) → src + n ≤ dst
    → hi ≤ dst
    → dst + n ≤ h.next
    → ElemsLaid t n h.cell src lo hi
    → Done
        (load_elems (load t) n src dst)
        h
        (λ _ h'. Copies (ElemsLaid t n) (elems_view t n) n src dst h h')
unfolding load_elems write
Loads_elems t ih zero src dst lo hi h p q r l = (
  tt,
  h,
  refl,
  record {
    grows = omega arith;
    under = λ _ _ _. refl;
    over = λ _ _ _. refl;
    laid = refl;
    same = refl;
  },
)
Loads_elems t ih (suc n) src dst lo hi h p q r (m, l, ls) =
    let g = LaidElems-le (Laid t h.cell) h.cell (Laid-le t h.cell) n (suc src) m hi ls in
    let (v, h₁, e, first) = ih h src lo m (omega arith) (omega arith) l in
    let h₂ = wrote h₁ dst v in
    let (ls', source) =
      LaidElems-Frame (Laid t) (view t) (Laid-le t) (Laid-Frame t) h.cell h₂.cell n (suc src) m hi
        (kept t first (omega arith) (suc src) (suc src + n) (omega arith))
        (kept t first (omega arith) m hi q) ls in
    let (u, h₃, e', rest) =
      Loads_elems t ih n (suc src) (suc dst) m hi h₂ (omega arith) (omega arith)
        (omega (arith, first.grows)) ls' in
    (
      u,
      h₃,
      >>=-returns (load t src) _ h e e',
      Copies-cons t (ElemsLaid t n) (elems_view t n) n src dst first rest r (sym source),
    )

mutual
  unfolding load Laid view read write alloc

  Loads_type : (t : GoType) → Loads t
  Loads_type (GoType.named n u) h a lo hi p q l =
      let (v, h₁, e, c) = Loads_type u h a lo hi p q l in
      (v, h₁, e, record { grows = c.grows; keeps = c.keeps; laid = c.laid; same = c.same })
  Loads_type (GoType.struct fs) h a lo hi p q (e, l) =
      let n = count fs in
      let g = LaidFields-le fs h.cell lo (lo + n) hi l in
      let h₁ = with_room h n in
      let (l', s) =
        LaidFields-frame fs h.cell h₁.cell lo (lo + n) hi (room_agrees h lo (lo + n) (omega arith))
          (room_agrees h (lo + n) hi q) l in
      let (u, h₃, r, c) =
        Loads_fields fs lo h.next (lo + n) hi h₁ (omega arith) q (omega arith) l' in
      (
        Value.structure h.next n,
        h₃,
        rw e (>>=-returns (load_fields fs n lo h.next) _ h₁ r refl),
        record {
          grows = omega (arith, c.grows);
          keeps = λ x y z. room_agrees h 0 h.next (omega arith) x y z ∙ c.under x y z;
          laid = (refl, c.laid);
          same = rw e (ap node (c.same ∙ sym s));
        },
      )
  Loads_type (GoType.array k t) h a lo hi p q (e, l) =
      let g = LaidElems-le (Laid t h.cell) h.cell (Laid-le t h.cell) k lo (lo + k) hi l in
      let h₁ = with_room h k in
      let (l', s) =
        LaidElems-Frame (Laid t) (view t) (Laid-le t) (Laid-Frame t) h.cell h₁.cell k lo (lo + k) hi
          (room_agrees h lo (lo + k) (omega arith)) (room_agrees h (lo + k) hi q) l in
      let (u, h₃, r, c) =
        Loads_elems t (Loads_type t) k lo h.next (lo + k) hi h₁ (omega arith) q (omega arith) l' in
      (
        Value.array h.next k,
        h₃,
        rw e (>>=-returns (load_elems (load t) k lo h.next) _ h₁ r refl),
        record {
          grows = omega (arith, c.grows);
          keeps = λ x y z. room_agrees h 0 h.next (omega arith) x y z ∙ c.under x y z;
          laid = (refl, c.laid);
          same = rw e (ap node (c.same ∙ sym s));
        },
      )
  Loads_type _ h a lo hi p q l = (
    h.cell a,
    h,
    refl,
    record { grows = omega arith; keeps = λ _ _ _. refl; laid = refl; same = refl },
  )

  Loads_fields :
      (fs : Fields) (src dst lo hi : ℕ) (h : Heap)
      → src + count fs ≤ dst
      → hi ≤ dst
      → dst + count fs ≤ h.next
      → LaidFields fs h.cell src lo hi
      → Done
          (load_fields fs (count fs) src dst)
          h
          (λ _ h'. Copies (LaidFields fs) (view_fields fs) (count fs) src dst h h')
  Loads_fields end src dst lo hi h p q r l = (
    tt,
    h,
    refl,
    record {
      grows = omega arith;
      under = λ _ _ _. refl;
      over = λ _ _ _. refl;
      laid = refl;
      same = refl;
    },
  )
  Loads_fields (field i j t fs) src dst lo hi h p q r (m, l, ls) =
      let n = count fs in
      let g = LaidFields-le fs h.cell (suc src) m hi ls in
      let (v, h₁, e, first) = Loads_type t h src lo m (omega arith) (omega arith) l in
      let h₂ = wrote h₁ dst v in
      let (ls', source) =
        LaidFields-frame fs h.cell h₂.cell (suc src) m hi
          (kept t first (omega arith) (suc src) (suc src + n) (omega arith))
          (kept t first (omega arith) m hi q) ls in
      let (u, h₃, e', rest) =
        Loads_fields fs (suc src) (suc dst) m hi h₂ (omega arith) (omega arith)
          (omega (arith, first.grows)) ls' in
      (
        u,
        h₃,
        >>=-returns (load t src) _ h e e',
        Copies-cons t (LaidFields fs) (view_fields fs) n src dst first rest r (sym source),
      )

-- Loading a value that is laid out in allocated memory ends normally. What it returns is laid out in
-- cells that were not allocated before, shows the same tree, and the old cells keep their contents.
pub load-IsCopy :
    (t : GoType) (h : Heap) (a lo hi : ℕ)
    → a < h.next
    → hi ≤ h.next
    → Laid t h.cell (h.cell a) lo hi
    → Done (load t a) h (IsCopy t a h)
load-IsCopy t = Loads_type t
