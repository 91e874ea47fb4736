-- ===== src/Slices/Append.antt =====
-- What append leaves in the slice that it returns, and in the cells of others.
use temporal_determinizer.Prelude.{
  ℕ, ◌+◌, ◌≤◌, ◌<◌, ◌≡◌, refl, sym, ap, ◌∙◌, Bool, true, false, List, [], ◌∷◌, ◌++◌, length, arith,
  ◌⊎◌, inl, inr, if◌then◌else◌, Option, some, leb, Bool-cases, length-append, map,
}
use temporal_determinizer.Value.{Value, Header}
use temporal_determinizer.Heap.{Heap, M, returns, below, pure, alloc, ◌>>=◌}
use temporal_determinizer.Memory.Done.{Done, >>=-returns}
use temporal_determinizer.Slices.{
  contents, write_all, extend, header_of, header_contents, elements, builtin_append, append_each,
  extend_bytes, byte,
}
use temporal_determinizer.Slices.Cells.{
  wrote, written, written-before, written-after, contents-congr, contents-written, contents-sum,
  length-contents,
}

append_assoc : {A : Type 0} (xs ys zs : List A) → (xs ++ ys) ++ zs ≡ xs ++ (ys ++ zs)
append_assoc [] ys zs = refl
append_assoc (x ∷ xs) ys zs = ap (λ r. x ∷ r) (append_assoc xs ys zs)

append_nil : {A : Type 0} (xs : List A) → xs ++ [] ≡ xs
append_nil [] = refl
append_nil (x ∷ xs) = ap (λ r. x ∷ r) (append_nil xs)

-- a slice whose cells are allocated
pub record IsSlice (h : Heap) (x : Header) : Type 0 where
  pub within : x.len ≤ x.cap
  pub allocated : x.base + x.cap ≤ h.next

-- `y` holds the elements of `x` and then `vs`; only unused cells of `x` have changed
pub record IsExtended (x : Header) (vs : List Value) (h : Heap) (y : Header) (h' : Heap)
    : Type 0 where
  pub valid : IsSlice h' y
  pub holds : header_contents h'.cell y ≡ header_contents h.cell x ++ vs
  pub grows : h.next ≤ h'.next
  pub place : ((y.base ≡ x.base) × (y.cap ≡ x.cap) × (x.len ≤ y.len)) ⊎ (h.next ≤ y.base)
  pub keeps :
      (q : ℕ) → q < h.next → (q < x.base + x.len) ⊎ (x.base + x.cap ≤ q) → h'.cell q ≡ h.cell q

chosen : {A : Type 0} (b : Bool) (f g : M A) (h : Heap) → b ≡ true → (if b then f else g) h ≡ f h
chosen b f g h e = rw e refl

passed : {A : Type 0} (b : Bool) (f g : M A) (h : Heap) → b ≡ false → (if b then f else g) h ≡ g h
passed b f g h e = rw e refl

module _ (x : Header) (vs : List Value) (h : Heap) (ok : IsSlice h x) where
  in_place :
      x.len + length vs ≤ x.cap
      → IsExtended x vs h
          (record { base = x.base; len = x.len + length vs; cap = x.cap })
          (record h { cell = written h.cell (x.base + x.len) vs })
  in_place r = record {
    valid = record { within = r; allocated = ok.allocated };
    holds =
        contents-sum _ x.base x.len (length vs)
        ∙ ap (λ z. z ++ contents (written h.cell (x.base + x.len) vs) (x.base + x.len) (length vs))
            (contents-congr _ h.cell x.base x.len
              (λ q a b. written-before h.cell (x.base + x.len) vs q b))
        ∙ ap (λ z. header_contents h.cell x ++ z) (contents-written h.cell (x.base + x.len) vs);
    grows = omega arith;
    place = inl (refl, refl, omega arith);
    keeps = λ q a b. elim b [
      | inl c ↦ written-before h.cell (x.base + x.len) vs q c
      | inr c ↦ written-after h.cell (x.base + x.len) vs q (omega arith)
    ];
  }

  module _ (k : ℕ) (room : x.len + length vs ≤ k) where
    abbrev all : List Value
    all = header_contents h.cell x ++ vs

    length_all : length all ≡ x.len + length vs
    length_all =
        omega
          (arith, length-append (header_contents h.cell x) vs, length-contents h.cell x.base x.len)

    abbrev grown_heap : Heap
    grown_heap = record { next = h.next + k; cell = written (below h.next h.cell) h.next all }

    abbrev fresh : Header
    fresh = record { base = h.next; len = x.len + length vs; cap = k }

    in_fresh : IsExtended x vs h fresh grown_heap
    in_fresh = record {
      valid = record { within = room; allocated = omega arith };
      holds =
          ap (contents grown_heap.cell h.next) (sym length_all)
          ∙ contents-written (below h.next h.cell) h.next all;
      grows = omega arith;
      place = inr (omega arith);
      keeps = λ q a b. written-before (below h.next h.cell) h.next all q a ∙ ground arith;
    }

    abbrev header_at : ℕ → Option Header
    header_at a = some (record { base = a; len = x.len + length vs; cap = k })

    fresh_run :
        (elements x >>= λ old. alloc k >>= λ a. write_all a (old ++ vs) >>= λ _. pure (header_at a))
          h
        ≡ returns (some fresh) grown_heap
    unfolding alloc
    fresh_run = wrote h.next all _ (record { next = h.next + k; cell = below h.next h.cell })

module _ (grow : ℕ → ℕ → ℕ) (enough : (c n : ℕ) → n ≤ grow c n) where
  extend-IsExtended :
      (x : Option Header) (vs : List Value) (h : Heap)
      → IsSlice h (header_of x)
      → Done (extend grow x vs) h (λ y h'. IsExtended (header_of x) vs h (header_of y) h')
  unfolding extend
  extend-IsExtended x [] h ok = (
    x,
    h,
    refl,
    record {
      valid = ok;
      holds = sym (append_nil _);
      grows = omega arith;
      place = inl (refl, refl, omega arith);
      keeps = λ q a b. refl;
    },
  )
  extend-IsExtended x (v ∷ vs) h ok =
      let y = header_of x in
      let n = y.len + length (v ∷ vs) in
      elim (Bool-cases (leb n y.cap)) [
        | inl e ↦ (
          _,
          _,
          chosen (leb n y.cap) _ _ h e ∙ wrote (y.base + y.len) (v ∷ vs) _ h,
          in_place y (v ∷ vs) h ok (ground arith),
        )
        | inr e ↦ (
          _,
          _,
          passed (leb n y.cap) _ _ h e ∙ fresh_run y (v ∷ vs) h ok (grow y.cap n) (enough y.cap n),
          in_fresh y (v ∷ vs) h ok (grow y.cap n) (enough y.cap n),
        )
      ]

  IsExtended-trans :
      {x y z : Header} {vs ws : List Value} {h h' h'' : Heap}
      → IsExtended x vs h y h'
      → IsExtended y ws h' z h''
      → IsExtended x (vs ++ ws) h z h''
  IsExtended-trans {x} {y} {z} {vs} {ws} {h} {h'} {h''} p q = record {
    valid = q.valid;
    holds = q.holds ∙ ap (λ r. r ++ ws) p.holds ∙ append_assoc (header_contents h.cell x) vs ws;
    grows = omega (arith, p.grows, q.grows);
    place = ground (arith, p.place, q.place, p.grows);
    keeps = λ i a b.
        q.keeps i (omega (arith, p.grows)) (ground (arith, p.place, b, p.grows)) ∙ p.keeps i a b;
  }

  pub append_each-IsExtended :
      (x : Option Header) (vs : List Value) (h : Heap)
      → IsSlice h (header_of x)
      → Done (append_each grow x vs) h (λ y h'. IsExtended (header_of x) vs h (header_of y) h')
  unfolding append_each
  append_each-IsExtended x [] h ok = (
    x,
    h,
    refl,
    record {
      valid = ok;
      holds = sym (append_nil _);
      grows = omega arith;
      place = inl (refl, refl, omega arith);
      keeps = λ q a b. refl;
    },
  )
  append_each-IsExtended x (v ∷ vs) h ok =
      let (y, h₁, e, p) = extend-IsExtended x (v ∷ []) h ok in
      let (z, h₂, e', q) = append_each-IsExtended y vs h₁ p.valid in
      (
        z,
        h₂,
        >>=-returns (extend grow x (v ∷ [])) (λ y. append_each grow y vs) h e e',
        IsExtended-trans p q,
      )

  -- Appending the elements of one slice to another ends normally in a slice of allocated cells that
  -- holds the elements of both, as they were before, also where the two share cells. The cells that
  -- were allocated before, but for the unused capacity of the first slice, are kept.
  pub append-IsExtended :
      (x z : Option Header) (h : Heap)
      → IsSlice h (header_of x)
      → Done (builtin_append grow (Value.slice x) (some (Value.slice z))) h (λ v h'.
        (y : Option Header) × (v ≡ Value.slice y)
        × IsExtended (header_of x) (header_contents h.cell (header_of z)) h (header_of y) h')
  unfolding builtin_append
  append-IsExtended x z h ok =
      let (y, h', e, p) = extend-IsExtended x (header_contents h.cell (header_of z)) h ok in
      (
        Value.slice y,
        h',
        >>=-returns (extend grow x (header_contents h.cell (header_of z)))
            (λ y. pure (Value.slice y)) h e refl,
        (y, refl, p),
      )

  -- Appending a string ends normally in a slice that holds the elements of the first and then the
  -- bytes of the string.
  pub append_string-IsExtended :
      (x : Option Header) (s : List ℕ) (h : Heap)
      → IsSlice h (header_of x)
      → Done (builtin_append grow (Value.slice x) (some (Value.string s))) h (λ v h'.
        (y : Option Header) × (v ≡ Value.slice y)
        × IsExtended (header_of x) (map byte s) h (header_of y) h')
  unfolding builtin_append extend_bytes
  append_string-IsExtended x s h ok =
      let (y, h', e, p) = append_each-IsExtended x (map byte s) h ok in
      (
        Value.slice y,
        h',
        >>=-returns (extend_bytes grow x s) (λ y. pure (Value.slice y)) h e refl,
        (y, refl, p),
      )
