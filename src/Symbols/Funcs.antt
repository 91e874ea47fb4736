-- ===== src/Symbols/Funcs.antt =====
-- The table of functions that loadFuncs of
-- interpreter/internal/dynreflect/symreflect/package.go fills.
use temporal_determinizer.Prelude.{
  ℕ, suc, ◌<◌, ◌^◌, true, ◌≡◌, refl, sym, ◌∙◌, ap, inl, inr, Bool-cases, List, [], ◌∷◌, ◌++◌,
  Option, none, some, arith, ltb, lt→ltb, ◌&&◌, if◌then◌else◌,
}
use mathlib.Core.List.{append_assoc, append-nil}
use temporal_determinizer.Types.Identity.{ids_eq, ids_eq→eq, ids_eq_self}
use temporal_determinizer.Value.{Result, ok}
use temporal_determinizer.Symbols.{split_func_name}
use temporal_determinizer.Symbols.Tables.{
  Text, get, set, Func, Packages, Package, ModuleData, set_func, load_func, load_offsets,
  load_funcs,
}

module _ {ℓ} {V : Type ℓ} where
  pub get-set :
      (k j : Text) (v : V) (m : List (Text × V))
      → get j (set k v m) ≡ (if ids_eq k j then some v else get j m)
  unfolding get set
  get-set k j v [] = refl
  get-set k j v ((i, w) ∷ m) = elim (Bool-cases (ids_eq i k)) [
    | inl e ↦ rw e (rw (ids_eq→eq i k e) (ground arith))
    | inr e ↦ rw e (ground (arith, get-set k j v m, ids_eq→eq i j, ids_eq→eq k j, ids_eq_self j))
  ]

-- what the table says of a function: none if the package is not there
abbrev pub func_in : Text → Option Package → Option Func
func_in name none = none
func_in name (some k) = get name k.funcs

abbrev pub found_func : Packages → Text → Text → Option Func
found_func p path name = func_in name (get path p)

-- the functions of the binary, with the names that they split into
abbrev pub funcs_of : ℕ → ModuleData → List ℕ → List (Option (Text × Text) × Func)
funcs_of i m [] = []
funcs_of i m (off ∷ os) =
    if ltb off m.length
    then (split_func_name (m.name off), (i, off)) ∷ funcs_of i m os
    else funcs_of i m os

abbrev pub binary_funcs : ℕ → List ModuleData → List (Option (Text × Text) × Func)
binary_funcs i [] = []
binary_funcs i (m ∷ ms) = funcs_of i m m.offsets ++ binary_funcs (suc i) ms

-- the last one with the names, if there is one
abbrev pub last_func : Text → Text → List (Option (Text × Text) × Func) → Option Func → Option Func
last_func path name [] f = f
last_func path name ((none, g) ∷ es) f = last_func path name es f
last_func path name ((some (q, n), g) ∷ es) f =
    last_func path name es (if ids_eq q path && ids_eq n name then some g else f)

-- the last of the functions, in a package that is there
abbrev pub expected :
    Text → Text → List (Option (Text × Text) × Func) → Option Package → Option Func
expected path name es none = none
expected path name es (some k) = last_func path name es (get name k.funcs)

module _ (path name : Text) (es : List (Option (Text × Text) × Func)) where
  expected-skip :
      (g : Func) (here : Option Package)
      → expected path name es here ≡ expected path name ((none, g) ∷ es) here
  expected-skip g none = refl
  expected-skip g (some k) = refl

  expected-absent :
      (q n : Text) (g : Func) (here : Option Package)
      → (ids_eq q path ≡ true → here ≡ none)
      → expected path name es here ≡ expected path name ((some (q, n), g) ∷ es) here
  expected-absent q n g none h = refl
  expected-absent q n g (some k) h = elim (Bool-cases (ids_eq q path)) [
    | inl e ↦ cc (h e)
    | inr e ↦ rw e refl
  ]

  expected-set :
      (q n : Text) (g : Func) (k : Package) (here : Option Package)
      → (ids_eq q path ≡ true → here ≡ some k)
      → expected path name es
          (if ids_eq q path then some (record k { funcs = set n g k.funcs }) else here)
        ≡ expected path name ((some (q, n), g) ∷ es) here
  expected-set q n g k none h = elim (Bool-cases (ids_eq q path)) [
    | inl e ↦ cc (h e)
    | inr e ↦ rw e refl
  ]
  expected-set q n g k (some j) h = elim (Bool-cases (ids_eq q path)) [
    | inl e ↦
        let same : (j ≡ k) = cc (h e) in
        rw (e, same) (ap (last_func path name es) (get-set n name g k.funcs))
    | inr e ↦ rw e refl
  ]

  set_func-split :
      (q n : Text) (g : Func) (p : Packages) (old : Option Package)
      → get q p ≡ old
      → expected path name es (get path (set_func (some (q, n)) g p))
        ≡ expected path name ((some (q, n), g) ∷ es) (get path p)
  unfolding set_func
  set_func-split q n g p none e =
      rw (e, set_func)
        (expected-absent q n g (get path p) (λ h. ap (λ z. get z p) (sym (ids_eq→eq q path h)) ∙ e))
  set_func-split q n g p (some k) e =
      rw (e, set_func)
        (rw (get-set q path (record k { funcs = set n g k.funcs }) p) (
          expected-set q n g k (get path p)
            (λ h. ap (λ z. get z p) (sym (ids_eq→eq q path h)) ∙ e)))

  set_func-expected :
      (o : Option (Text × Text)) (g : Func) (p : Packages)
      → expected path name es (get path (set_func o g p))
        ≡ expected path name ((o, g) ∷ es) (get path p)
  unfolding set_func
  set_func-expected none g p = expected-skip g (get path p)
  set_func-expected (some (q, n)) g p = set_func-split q n g p (get q p) refl

-- offsets that are no negative ints
abbrev pub AreInts : List ℕ → Type 0
AreInts [] = Unit
AreInts (off ∷ os) = (off < 2 ^ 63) × AreInts os

abbrev pub HaveInts : List ModuleData → Type 0
HaveInts [] = Unit
HaveInts (m ∷ ms) = AreInts m.offsets × HaveInts ms

-- the run ends normally, in packages that know what `p` does and the last of some functions
abbrev Adds : Result Packages → Packages → List (Option (Text × Text) × Func) → Type 0
Adds run p fs =
    (q : Packages) × (run ≡ ok q)
    × ((path name : Text) (es : List (Option (Text × Text) × Func))
        → expected path name es (get path q) ≡ expected path name (fs ++ es) (get path p))

load_offsets-Adds :
    (i : ℕ) (m : ModuleData) (os : List ℕ) (p : Packages)
    → AreInts os
    → Adds (load_offsets i m os p) p (funcs_of i m os)
unfolding load_offsets load_func
load_offsets-Adds i m [] p r = (p, refl, λ path name es. refl)
load_offsets-Adds i m (off ∷ os) p (low, r) = elim (Bool-cases (ltb off m.length)) [
  | inl e ↦
      let o = split_func_name (m.name off) in
      let (q, run, adds) = load_offsets-Adds i m os (set_func o (i, off) p) r in
      (
        q,
        rw e run,
        λ path name es.
            adds path name es
            ∙ (set_func-expected path name (funcs_of i m os ++ es) o (i, off) p ∙ rw e refl),
      )
  | inr e ↦
      let (q, run, adds) = load_offsets-Adds i m os p r in
      (q, rw (e, lt→ltb off (2 ^ 63) low) run, λ path name es. adds path name es ∙ rw e refl)
]

load_funcs-Adds :
    (i : ℕ) (ms : List ModuleData) (p : Packages)
    → HaveInts ms
    → Adds (load_funcs i ms p) p (binary_funcs i ms)
unfolding load_funcs
load_funcs-Adds i [] p r = (p, refl, λ path name es. refl)
load_funcs-Adds i (m ∷ ms) p (low, r) =
    let (q, run, adds) = load_offsets-Adds i m m.offsets p low in
    let (q', run', adds') = load_funcs-Adds (suc i) ms q r in
    (
      q',
      rw run run',
      λ path name es.
          adds' path name es
          ∙ (adds path name (binary_funcs (suc i) ms ++ es)
              ∙ ap (λ fs. expected path name fs (get path p))
                  (sym (append_assoc (funcs_of i m m.offsets) (binary_funcs (suc i) ms) es))),
    )

expected-nil : (path name : Text) (k : Option Package) → expected path name [] k ≡ func_in name k
expected-nil path name none = refl
expected-nil path name (some k) = refl

-- If no offset is a negative int, loadFuncs ends normally. A package that was there then has at a name
-- the last function of the binary whose name splits into its path and that name, or what it had if
-- there is no such function; one that was not there is not added.
pub load_funcs-last :
    (ms : List ModuleData) (p : Packages)
    → HaveInts ms
    → (q : Packages) × (load_funcs 0 ms p ≡ ok q)
      × ((path name : Text)
          → found_func q path name ≡ expected path name (binary_funcs 0 ms) (get path p))
load_funcs-last ms p r =
    let (q, run, adds) = load_funcs-Adds 0 ms p r in
    (
      q,
      run,
      λ path name.
          sym (expected-nil path name (get path q))
          ∙ (adds path name []
              ∙ ap (λ fs. expected path name fs (get path p)) (append-nil (binary_funcs 0 ms))),
    )
