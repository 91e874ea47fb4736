-- ===== src/Assert/Forms.antt =====
-- The two forms of a type assertion, and when they hold.
use temporal_determinizer.Prelude.{
  ℕ, ◌≡◌, ◌≢◌, refl, ap, ◌∙◌, sym, List, [], ◌∷◌, Option, none, some, ◌⊎◌, inl, inr, Bool, true,
  false, Bool-cases, Option-cases, ◌==◌, arith, if◌then◌else◌,
}
use mathlib.Core.Bool.{false≢true}
use temporal_determinizer.Types.{GoType, underlying}
use temporal_determinizer.Types.Identity.{identical}
use temporal_determinizer.Value.{
  Value, Result, ok, panics, Panic, message, fail, missing_method, interface_is_nil,
  interface_is_not,
}
use temporal_determinizer.Heap.{Heap, M, returns, raises, pure}
use temporal_determinizer.Memory.{zero}
use temporal_determinizer.Memory.Done.{Done, >>=-returns}
use temporal_determinizer.Memory.Trees.{IsStorable}
use temporal_determinizer.Memory.Zero.{IsZero, zero-IsZero}
use temporal_determinizer.Assert.{
  has_method, check_interface, with_ok, finish, extract, type_assert,
}

none-some : {A : Type 0} {a : A} → none ≡ some a → ⊥
none-some h = cc

-- all methods of the second list are in the first
abbrev pub IsIn : ℕ → List ℕ → Type 0
IsIn n [] = ⊥
IsIn n (m ∷ ms) = (n ≡ m) ⊎ IsIn n ms

abbrev pub HasAll : List ℕ → List ℕ → Type 0
HasAll set [] = Unit
HasAll set (n ∷ ms) = IsIn n set × HasAll set ms

has_method-IsIn : (n : ℕ) (set : List ℕ) → has_method n set ≡ true → IsIn n set
unfolding has_method
has_method-IsIn n [] h = cc
has_method-IsIn n (m ∷ ms) h = elim (Bool-cases (n == m)) [
  | inl e ↦ inl (ground (arith, e))
  | inr e ↦ inr (has_method-IsIn n ms (ground (arith, e, h)))
]

IsIn-has_method : (n : ℕ) (set : List ℕ) → IsIn n set → has_method n set ≡ true
unfolding has_method
IsIn-has_method n [] h = absurd h
IsIn-has_method n (m ∷ ms) (inl e) = ground (arith, e)
IsIn-has_method n (m ∷ ms) (inr h) = let r = IsIn-has_method n ms h in ground (arith, r)

check_interface-none : (set ms : List ℕ) → check_interface set ms ≡ none → HasAll set ms
unfolding check_interface
check_interface-none set [] h = tt
check_interface-none set (n ∷ ms) h = elim (Bool-cases (has_method n set)) [
  | inl e ↦ (has_method-IsIn n set e, check_interface-none set ms (rw (check_interface, e) at h))
  | inr e ↦ absurd (ground (arith, e, h))
]

HasAll-check_interface : (set ms : List ℕ) → HasAll set ms → check_interface set ms ≡ none
unfolding check_interface
HasAll-check_interface set [] h = refl
HasAll-check_interface set (n ∷ ms) (i, h) =
    rw (IsIn-has_method n set i) (HasAll-check_interface set ms h)

-- For a dynamic type d: it has all methods of the interface, and the value stays boxed, or it is the
-- asserted type, which is no interface, and the value is unboxed.
abbrev pub ExtractsAs : (GoType → List ℕ) → GoType → GoType → Value → Value → Type 0
ExtractsAs methods asserted d v w =
    ((ms : List ℕ) × (underlying asserted ≡ GoType.interface ms)
      × HasAll (methods d) ms
      × (w ≡ Value.iface (some d) v))
    ⊎ (((ms : List ℕ) → underlying asserted ≢ GoType.interface ms)
        × (identical d asserted ≡ true)
        × (w ≡ v))

-- the assertion holds, with the value w
abbrev pub Extracts : (GoType → List ℕ) → GoType → Option GoType → Value → Value → Type 0
Extracts methods asserted t v w = (d : GoType) × (t ≡ some d) × ExtractsAs methods asserted d v w

module _ (methods : GoType → List ℕ) (asserted : GoType) where
  abbrev Decided : Option GoType → Value → Result Value → Type 0
  Decided t v r =
      ((w : Value) × (r ≡ ok w) × Extracts methods asserted t v w)
      ⊎ ((p : Panic) × (r ≡ panics p) × ((w : Value) → Extracts methods asserted t v w → ⊥))

  Decided-interface :
      (d : GoType) (v : Value) (ms : List ℕ)
      → underlying asserted ≡ GoType.interface ms
      → Decided (some d) v (extract methods asserted (some d) v)
  unfolding extract
  Decided-interface d v ms e = elim (Option-cases (check_interface (methods d) ms)) [
    | inl n ↦ inl (
      Value.iface (some d) v,
      rw (extract, e, n) refl,
      (d, refl, inl (ms, e, check_interface-none (methods d) ms n, refl)),
    )
    | inr (m, n) ↦ inr (
      message missing_method,
      rw (extract, e, n) refl,
      λ w (d', f, x). elim x [
        | inl (ns, g, has, k) ↦
            let same : (ms ≡ ns) = cc (e, g) in
            let dyn : (d ≡ d') = cc f in
            none-some {a = m}
              (sym (HasAll-check_interface (methods d') ns has) ∙ rw (sym same, sym dyn) n)
        | inr (c, i, k) ↦ c ms e
      ],
    )
  ]

  Decided-concrete :
      (d : GoType) (v : Value) (u : GoType)
      → underlying asserted ≡ u
      → ((ms : List ℕ) → u ≢ GoType.interface ms)
      → extract methods asserted (some d) v
        ≡ (if identical d asserted then ok v else fail interface_is_not)
      → Decided (some d) v (extract methods asserted (some d) v)
  Decided-concrete d v u e not_one run =
      let pick : Bool → Result Value = λ b. if b then ok v else fail interface_is_not in
      elim (Bool-cases (identical d asserted)) [
        | inl i ↦
            inl (v, run ∙ ap pick i, (d, refl, inr ((λ ms g. not_one ms (sym e ∙ g)), i, refl)))
        | inr i ↦ inr (
          message interface_is_not,
          run ∙ ap pick i,
          λ w (d', f, x). elim x [
            | inl (ns, g, has, k) ↦ not_one ns (sym e ∙ g)
            | inr (c, j, k) ↦ let dyn : (d ≡ d') = cc f in false≢true (sym i ∙ rw dyn j)
          ],
        )
      ]

  Decided-type :
      (d : GoType) (v : Value) (u : GoType)
      → underlying asserted ≡ u
      → Decided (some d) v (extract methods asserted (some d) v)
  unfolding extract identical
  Decided-type d v (GoType.interface ms) e = Decided-interface d v ms e
  Decided-type d v u e = Decided-concrete d v u e (λ ms g. cc) (rw (extract, e) refl)

  decided : (t : Option GoType) (v : Value) → Decided t v (extract methods asserted t v)
  unfolding extract
  decided none v = inr (message interface_is_nil, refl, λ w (d, f, x). none-some f)
  decided (some d) v = Decided-type d v (underlying asserted) refl

module _ (methods : GoType → List ℕ) (asserted : GoType) (t : Option GoType) (v : Value)
    (h : Heap) where
  abbrev pub assertion : M Value
  assertion = type_assert methods false asserted t v

  abbrev pub comma_ok : M Value
  comma_ok = type_assert methods true asserted t v

  -- both give one value, which the rules of the language extract, and leave the memory as it is
  abbrev pub Holds : Type 0
  Holds =
      (w : Value) × Extracts methods asserted t v w
      × (assertion h ≡ returns w h)
      × (comma_ok h ≡ returns (with_ok w true) h)

  -- no value is to be extracted; one panics, the other gives the zero value of the asserted type and
  -- false
  abbrev pub Fails : Type 0
  Fails =
      ((w : Value) → Extracts methods asserted t v w → ⊥)
      × ((e : Panic) × (assertion h ≡ raises e h))
      × Done comma_ok h (λ r h'. (z : Value) × (r ≡ with_ok z false) × IsZero asserted h z h')

  -- Where the dynamic type has all methods of an asserted interface type, or is identical to another
  -- asserted type, both forms of the assertion give the value, boxed with its dynamic type or unboxed,
  -- and the comma-ok form true with it. For every other interface value, also the nil one, the plain
  -- form panics, and the comma-ok form gives the zero value of the asserted type, in fresh cells, and
  -- false. The asserted type is one of a variable.
  pub type_assert-cases : IsStorable asserted → Holds ⊎ Fails
  unfolding type_assert
  type_assert-cases s = elim (decided methods asserted t v) [
    | inl (w, e, x) ↦
        inl (w, x, ap (λ r. finish false asserted r h) e, ap (λ r. finish true asserted r h) e)
    | inr (p, e, x) ↦
        let (z, h', run, c) = zero-IsZero asserted s h in
        inr (
          x,
          (p, ap (λ r. finish false asserted r h) e),
          (
            with_ok z false,
            h',
            ap (λ r. finish true asserted r h) e
                ∙ >>=-returns (zero asserted) (λ z. pure (with_ok z false)) h run refl,
            (z, refl, c),
          ),
        )
  ]
