-- ===== src/Memory/Zero.antt =====
-- A variable's first value: zero of ops.go lays it out in fresh memory.
use temporal_determinizer.Prelude.{
  ℕ, zero as z, suc, ◌+◌, ◌≤◌, ◌≡◌, refl, ap, arith, ◌∙◌, sym, true, false, none,
}
use mathlib.Core.Path.{ap₂, subst}
use temporal_determinizer.Types.{BasicKind, GoType, Fields, end, field}
use temporal_determinizer.Value.{ok, Value}
use temporal_determinizer.Heap.{lift, Heap, write, alloc}
use temporal_determinizer.Memory.{zero_basic, count, zero, zero_fields, fill}
use temporal_determinizer.Memory.Done.{Done, >>=-returns}
use temporal_determinizer.Memory.Trees.{
  basic_leaf, IsTyped, IsStorable, AreStorable, repeat, zero_tree, zero_trees,
}
use temporal_determinizer.Memory.Elems.{ElemsLaid, elems_view, wrote, with_room, room_agrees}
use temporal_determinizer.Memory.Layout.{
  Trees, node, branch, Cells, view, view_fields, Laid, LaidFields, Agree, Laid-Frame,
}

-- `v` is a fresh zero value
pub record IsZero (t : GoType) (h : Heap) (v : Value) (h' : Heap) : Type 0 where
  pub grows : h.next ≤ h'.next
  pub keeps : Agree h.cell h'.cell 0 h.next
  pub laid : Laid t h'.cell v h.next h'.next
  pub same : view t h'.cell v ≡ zero_tree t

abbrev Zeros : GoType → Type 0
Zeros t = (h : Heap) → Done (zero t) h (IsZero t h)

-- the loops over the n cells from a
record Clears (L : Cells → ℕ → ℕ → ℕ → Type 0) (w : Cells → ℕ → Trees) (zeros : Trees) (n a : ℕ)
    (h h' : Heap) : Type 0 where
  grows : h.next ≤ h'.next
  under : Agree h.cell h'.cell 0 a
  over : Agree h.cell h'.cell (a + n) h.next
  laid : L h'.cell a h.next h'.next
  same : w h'.cell a ≡ zeros

module _ (t : GoType) (L : Cells → ℕ → ℕ → ℕ → Type 0) (w : Cells → ℕ → Trees) (zeros : Trees)
    (n a : ℕ) {h h₁ h₃ : Heap} {v : Value} (first : IsZero t h v h₁)
    (rest : Clears L w zeros n (suc a) (wrote h₁ a v) h₃) (room : a + suc n ≤ h.next) where
  first_kept : h₃.cell a ≡ v
  first_kept = ground (arith, rest.under a)

  apart : Agree h₁.cell h₃.cell h.next h₁.next
  apart p lo hi = ground (arith, first.grows, rest.over p)

  Clears-cons :
      Clears
        (λ c p lo hi. (k : ℕ) × Laid t c (c p) lo k × L c (suc p) k hi)
        (λ c p. branch (view t c (c p)) (w c (suc p)))
        (branch (zero_tree t) zeros)
        (suc n)
        a
        h
        h₃
  Clears-cons =
      let (l, q) = Laid-Frame t h₁.cell h₃.cell v h.next h₁.next apart first.laid in
      record {
        grows = omega (arith, first.grows, rest.grows);
        under = λ p lo hi. ground (arith, first.keeps p, rest.under p);
        over = λ p lo hi. ground (arith, first.grows, first.keeps p, rest.over p);
        laid =
            (h₁.next, subst (λ x. Laid t h₃.cell x h.next h₁.next) (sym first_kept) l, rest.laid);
        same = ap₂ branch (ap (view t h₃.cell) first_kept ∙ sym q ∙ first.same) rest.same;
      }

Zeros_elems :
    (t : GoType)
    → Zeros t
    → (n a : ℕ) (h : Heap) → a + n ≤ h.next
    → Done
        (fill (zero t) n a)
        h
        (λ _ h'. Clears (ElemsLaid t n) (elems_view t n) (repeat n (zero_tree t)) n a h h')
unfolding fill write
Zeros_elems t ih z a h p = (
  tt,
  h,
  refl,
  record {
    grows = omega arith;
    under = λ _ _ _. refl;
    over = λ _ _ _. refl;
    laid = refl;
    same = refl;
  },
)
Zeros_elems t ih (suc n) a h p =
    let (v, h₁, e, first) = ih h in
    let (u, h₃, e', rest) =
      Zeros_elems t ih n (suc a) (wrote h₁ a v) (omega (arith, first.grows)) in
    (
      u,
      h₃,
      >>=-returns (zero t) _ h e e',
      Clears-cons t (ElemsLaid t n) (elems_view t n) (repeat n (zero_tree t)) n a first rest p,
    )

IsZero-scalar :
    (t : GoType) (h : Heap) (v : Value)
    → Laid t h.cell v h.next h.next
    → view t h.cell v ≡ zero_tree t
    → IsZero t h v h
IsZero-scalar t h v l e = record { grows = omega arith; keeps = λ _ _ _. refl; laid = l; same = e }

zero_basic-leaf : (k : BasicKind) → IsTyped k → zero_basic k ≡ ok (basic_leaf k)
unfolding zero_basic
zero_basic-leaf BasicKind.untyped_nil s = absurd s
zero_basic-leaf _ s = refl

mutual
  unfolding zero IsStorable zero_tree Laid view alloc write

  Zeros_type : (t : GoType) → IsStorable t → Zeros t
  Zeros_type (GoType.basic k) s h = (
    basic_leaf k,
    h,
    ap (λ r. lift r h) (zero_basic-leaf k s),
    IsZero-scalar (GoType.basic k) h (basic_leaf k) refl refl,
  )
  Zeros_type (GoType.named n u) s h =
      let (v, h₁, e, c) = Zeros_type u s h in
      (v, h₁, e, record { grows = c.grows; keeps = c.keeps; laid = c.laid; same = c.same })
  Zeros_type (GoType.array k t) s h =
      let h₁ = with_room h k in
      let (u, h₃, r, c) = Zeros_elems t (Zeros_type t s) k h.next h₁ (omega arith) in
      (
        Value.array h.next k,
        h₃,
        >>=-returns (fill (zero t) k h.next) _ h₁ r refl,
        record {
          grows = omega (arith, c.grows);
          keeps = λ x y z. room_agrees h 0 h.next (omega arith) x y z ∙ c.under x y z;
          laid = (refl, c.laid);
          same = ap node c.same;
        },
      )
  Zeros_type (GoType.struct fs) s h =
      let n = count fs in
      let h₁ = with_room h n in
      let (u, h₃, r, c) = Zeros_fields fs s h.next h₁ (omega arith) in
      (
        Value.structure h.next n,
        h₃,
        >>=-returns (zero_fields fs h.next) _ h₁ r refl,
        record {
          grows = omega (arith, c.grows);
          keeps = λ x y z. room_agrees h 0 h.next (omega arith) x y z ∙ c.under x y z;
          laid = (refl, c.laid);
          same = ap node c.same;
        },
      )
  Zeros_type (GoType.map k e) (true, b, _) h =
      let v = Value.builtin_map none in
      (v, h, rw b refl, IsZero-scalar (GoType.map k e) h v refl (rw b refl))
  Zeros_type (GoType.map k e) (false, b, _) h =
      let v = Value.hash_map none in
      (v, h, rw b refl, IsZero-scalar (GoType.map k e) h v refl (rw b refl))
  Zeros_type (GoType.tuple ts) s h = absurd s
  Zeros_type (GoType.pointer e) s h = (_, h, refl, IsZero-scalar (GoType.pointer e) h _ refl refl)
  Zeros_type (GoType.interface ms) s h =
      (_, h, refl, IsZero-scalar (GoType.interface ms) h _ refl refl)
  Zeros_type (GoType.slice e) s h = (_, h, refl, IsZero-scalar (GoType.slice e) h _ refl refl)
  Zeros_type (GoType.chan d e) s h = (_, h, refl, IsZero-scalar (GoType.chan d e) h _ refl refl)
  Zeros_type (GoType.signature ps rs v) s h =
      (_, h, refl, IsZero-scalar (GoType.signature ps rs v) h _ refl refl)

  Zeros_fields :
      (fs : Fields)
      → AreStorable fs
      → (a : ℕ) (h : Heap) → a + count fs ≤ h.next
      → Done
          (zero_fields fs a)
          h
          (λ _ h'. Clears (LaidFields fs) (view_fields fs) (zero_trees fs) (count fs) a h h')
  Zeros_fields end s a h p = (
    tt,
    h,
    refl,
    record {
      grows = omega arith;
      under = λ _ _ _. refl;
      over = λ _ _ _. refl;
      laid = refl;
      same = refl;
    },
  )
  Zeros_fields (field i j t fs) (s, ss) a h p =
      let n = count fs in
      let (v, h₁, e, first) = Zeros_type t s h in
      let (u, h₃, e', rest) =
        Zeros_fields fs ss (suc a) (wrote h₁ a v) (omega (arith, first.grows)) in
      (
        u,
        h₃,
        >>=-returns (zero t) _ h e e',
        Clears-cons t (LaidFields fs) (view_fields fs) (zero_trees fs) n a first rest p,
      )

-- The zero value of the type of a variable is made without a panic, whatever the memory holds. It is
-- laid out in cells that were not allocated before, shows the tree of zeros that the type has (for a
-- map, nil in the representation that usesBuiltinMap chooses), and the old cells keep their contents.
pub zero-IsZero : (t : GoType) → IsStorable t → (h : Heap) → Done (zero t) h (IsZero t h)
zero-IsZero t s = Zeros_type t s

-- the loop that fills fresh cells with zeros makes what the zero value of an array shows
pub fill-IsZero :
    (t : GoType)
    → IsStorable t
    → (k : ℕ) (h : Heap)
    → Done
        (fill (zero t) k h.next)
        (with_room h k)
        (λ _. IsZero (GoType.array k t) h (Value.array h.next k))
unfolding zero_tree Laid view
fill-IsZero t s k h =
    let (u, h₃, r, c) = Zeros_elems t (Zeros_type t s) k h.next (with_room h k) (omega arith) in
    (
      u,
      h₃,
      r,
      record {
        grows = omega (arith, c.grows);
        keeps = λ x y z. room_agrees h 0 h.next (omega arith) x y z ∙ c.under x y z;
        laid = (refl, c.laid);
        same = ap node c.same;
      },
    )
