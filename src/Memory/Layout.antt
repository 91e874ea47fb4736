-- ===== src/Memory/Layout.antt =====
-- How a value of a type lies in memory: the cells of an aggregate, then those of its elements, in
-- order. `view` forgets the addresses: the tree of the scalars that the value is made of.
use temporal_determinizer.Prelude.{ℕ, zero, suc, ◌+◌, ◌≤◌, ◌<◌, ◌≡◌, refl, ap, arith, ◌∙◌}
use mathlib.Core.Path.{ap₂, subst}
use temporal_determinizer.Types.{GoType, Fields, end, field}
use temporal_determinizer.Value.{Value}
use temporal_determinizer.Memory.{count}

mutual
  pub data Tree : Type 0 where
    leaf : Value → Tree
    node : Trees → Tree

  pub data Trees : Type 0 where
    none_left : Trees
    branch : Tree → Trees → Trees

abbrev pub Cells : Type 0
Cells = ℕ → Value

abbrev pub view_elems : (Value → Tree) → Cells → ℕ → ℕ → Trees
view_elems e c zero p = none_left
view_elems e c (suc n) p = branch (e (c p)) (view_elems e c n (suc p))

abbrev pub view_structure : (ℕ → Trees) → Value → Tree
view_structure fields (Value.structure b n) = node (fields b)
view_structure fields v = leaf v

abbrev pub view_array : (ℕ → Trees) → Value → Tree
view_array elems (Value.array b n) = node (elems b)
view_array elems v = leaf v

unfoldable mutual
  pub view : GoType → Cells → Value → Tree
  view (GoType.named n u) c v = view u c v
  view (GoType.struct fs) c v = view_structure (view_fields fs c) v
  view (GoType.array k e) c v = view_array (view_elems (view e c) c k) v
  view _ c v = leaf v

  pub view_fields : Fields → Cells → ℕ → Trees
  view_fields end c p = none_left
  view_fields (field n m t r) c p = branch (view t c (c p)) (view_fields r c (suc p))

-- the elements of the n cells from p lie in the cells from lo to hi
abbrev pub LaidElems : (Value → ℕ → ℕ → Type 0) → Cells → ℕ → ℕ → ℕ → ℕ → Type 0
LaidElems E c zero p lo hi = lo ≡ hi
LaidElems E c (suc n) p lo hi = (m : ℕ) × E (c p) lo m × LaidElems E c n (suc p) m hi

-- a value of the type, whose own cells are those from lo to hi
unfoldable mutual
  pub Laid : GoType → Cells → Value → ℕ → ℕ → Type 0
  Laid (GoType.named n u) c v lo hi = Laid u c v lo hi
  Laid (GoType.struct fs) c v lo hi =
      (v ≡ Value.structure lo (count fs)) × LaidFields fs c lo (lo + count fs) hi
  Laid (GoType.array k e) c v lo hi =
      (v ≡ Value.array lo k) × LaidElems (Laid e c) c k lo (lo + k) hi
  Laid _ c v lo hi = lo ≡ hi

  pub LaidFields : Fields → Cells → ℕ → ℕ → ℕ → Type 0
  LaidFields end c p lo hi = lo ≡ hi
  LaidFields (field n m t r) c p lo hi = (k : ℕ) × Laid t c (c p) lo k × LaidFields r c (suc p) k hi

-- the two memories are the same from lo to hi
abbrev pub Agree : Cells → Cells → ℕ → ℕ → Type 0
Agree c d lo hi = (p : ℕ) → lo ≤ p → p < hi → c p ≡ d p

pub Agree-narrow :
    {c d : Cells} {lo hi : ℕ} (a b : ℕ) → Agree c d lo hi → lo ≤ a → b ≤ hi → Agree c d a b
Agree-narrow a b g h k p u v = g p (omega arith) (omega arith)

pub LaidElems-le :
    (E : Value → ℕ → ℕ → Type 0) (c : Cells)
    → ((v : Value) (a b : ℕ) → E v a b → a ≤ b)
    → (n p lo hi : ℕ) → LaidElems E c n p lo hi
    → lo ≤ hi
LaidElems-le E c e zero p lo hi l = omega arith
LaidElems-le E c e (suc n) p lo hi (m, l, r) =
    omega (arith, e _ _ _ l, LaidElems-le E c e n (suc p) m hi r)

mutual
  unfolding Laid

  pub Laid-le : (t : GoType) (c : Cells) (v : Value) (lo hi : ℕ) → Laid t c v lo hi → lo ≤ hi
  Laid-le (GoType.named n u) c v lo hi l = Laid-le u c v lo hi l
  Laid-le (GoType.struct fs) c v lo hi (e, l) =
      omega (arith, LaidFields-le fs c lo (lo + count fs) hi l)
  Laid-le (GoType.array k t) c v lo hi (e, l) =
      omega (arith, LaidElems-le (Laid t c) c (Laid-le t c) k lo (lo + k) hi l)
  Laid-le _ c v lo hi l = omega arith

  pub LaidFields-le : (fs : Fields) (c : Cells) (p lo hi : ℕ) → LaidFields fs c p lo hi → lo ≤ hi
  LaidFields-le end c p lo hi l = omega arith
  LaidFields-le (field n m t r) c p lo hi (k, l, ls) =
      omega (arith, Laid-le t c _ lo k l, LaidFields-le r c (suc p) k hi ls)

-- only the cells of a value matter for its layout and its view
abbrev pub Frame : (Cells → Value → ℕ → ℕ → Type 0) → (Cells → Value → Tree) → Type 0
Frame E w =
    (c d : Cells) (v : Value) (lo hi : ℕ)
    → Agree c d lo hi
    → E c v lo hi
    → (E d v lo hi × (w c v ≡ w d v))

pub LaidElems-Frame :
    (E : Cells → Value → ℕ → ℕ → Type 0) (w : Cells → Value → Tree)
    → ((c : Cells) (v : Value) (a b : ℕ) → E c v a b → a ≤ b)
    → Frame E w
    → (c d : Cells) (n p lo hi : ℕ) → Agree c d p (p + n)
    → Agree c d lo hi
    → LaidElems (E c) c n p lo hi
    → (LaidElems (E d) d n p lo hi × (view_elems (w c) c n p ≡ view_elems (w d) d n p))
LaidElems-Frame E w le fr c d zero p lo hi g k l = (l, refl)
LaidElems-Frame E w le fr c d (suc n) p lo hi g k (m, l, r) =
    let h = LaidElems-le (E c) c (le c) n (suc p) m hi r in
    let h' = le c _ _ _ l in
    let e = g p (omega arith) (omega arith) in
    let (l', q) = fr c d (c p) lo m (Agree-narrow lo m k (omega arith) h) l in
    let (r', qs) =
      LaidElems-Frame E w le fr c d n (suc p) m hi
        (Agree-narrow (suc p) (suc p + n) g (omega arith) (omega arith))
        (Agree-narrow m hi k h' (omega arith)) r in
    ((m, subst (λ v. E d v lo m) e l', r'), ap₂ branch (q ∙ ap (w d) e) qs)

mutual
  unfolding Laid view

  pub Laid-Frame : (t : GoType) → Frame (Laid t) (view t)
  Laid-Frame (GoType.named n u) c d v lo hi g l = Laid-Frame u c d v lo hi g l
  Laid-Frame (GoType.struct fs) c d v lo hi g (e, l) =
      let h = LaidFields-le fs c lo (lo + count fs) hi l in
      let (l', q) =
        LaidFields-frame fs c d lo (lo + count fs) hi
          (Agree-narrow lo (lo + count fs) g (omega arith) h)
          (Agree-narrow (lo + count fs) hi g (omega arith) (omega arith)) l in
      ((e, l'), rw e (ap node q))
  Laid-Frame (GoType.array k t) c d v lo hi g (e, l) =
      let h = LaidElems-le (Laid t c) c (Laid-le t c) k lo (lo + k) hi l in
      let (l', q) =
        LaidElems-Frame (Laid t) (view t) (Laid-le t) (Laid-Frame t) c d k lo (lo + k) hi
          (Agree-narrow lo (lo + k) g (omega arith) h)
          (Agree-narrow (lo + k) hi g (omega arith) (omega arith)) l in
      ((e, l'), rw e (ap node q))
  Laid-Frame _ c d v lo hi g l = (l, refl)

  pub LaidFields-frame :
      (fs : Fields) (c d : Cells) (p lo hi : ℕ)
      → Agree c d p (p + count fs)
      → Agree c d lo hi
      → LaidFields fs c p lo hi
      → (LaidFields fs d p lo hi × (view_fields fs c p ≡ view_fields fs d p))
  LaidFields-frame end c d p lo hi g k l = (l, refl)
  LaidFields-frame (field n m t r) c d p lo hi g k (i, l, ls) =
      let h = LaidFields-le r c (suc p) i hi ls in
      let h' = Laid-le t c _ lo i l in
      let e = g p (omega arith) (omega arith) in
      let (l', q) = Laid-Frame t c d (c p) lo i (Agree-narrow lo i k (omega arith) h) l in
      let (ls', qs) =
        LaidFields-frame r c d (suc p) i hi
          (Agree-narrow (suc p) (suc p + count r) g (omega arith) (omega arith))
          (Agree-narrow i hi k h' (omega arith)) ls in
      ((i, subst (λ v. Laid t d v lo i) e l', ls'), ap₂ branch (q ∙ ap (view t d) e) qs)
