-- ===== src/Build.antt =====
-- interpreter/build.go: from the options of a registration to the function that the worker runs.
-- Names are byte strings. A reflect.Type is a function type or none; the type of a parameter or result
-- is one of those that the code compares with, or any other, with whether it implements error.
-- Loading packages is a parameter.
pub mod Names
pub mod Checks
use temporal_determinizer.Prelude.{
  ℕ, ◌≡◌, refl, Bool, true, false, List, [], ◌∷◌, Option, none, some, ◌==◌, ltb, if◌then◌else◌,
  ◌&&◌, ◌||◌, ◌-◌, length, get_elem?, ◌++◌,
}
use temporal_determinizer.Types.Identity.{ids_eq}

-- the type of a parameter or a result
pub data PartType : Type 0 where
  context workflow_context error : PartType
  other : ℕ → Bool → PartType

pub data ReflectType : Type 0 where
  func : List PartType → List PartType → Bool → ReflectType
  no_func : ℕ → ReflectType

-- the errors of validateAndConvertFuncType, of Prebuild and of BuildFunc
pub data TypeError : Type 0 where
  not_func first_parameter result_count last_result : TypeError

pub data BuildError : Type 0 where
  load_failed packages_have_errors no_workflow_function methods_unsupported : BuildError
  prebuilt_and_config package_missing function_missing : BuildError
  invalid_type : TypeError → BuildError

-- an error returned, a panic, or a result
pub data Built (A : Type 0) : Type 0 where
  refused : BuildError → Built A
  crashed : Built A
  built : A → Built A

infixl 5 ◌>>=◌
abbrev pub ◌>>=◌ : {A B : Type 0} → Built A → (A → Built B) → Built B
refused e >>= f = refused e
crashed >>= f = crashed
built a >>= f = f a

-- t == contextType, and t.Implements(errorType)
abbrev pub is_context : PartType → Bool
is_context context = true
is_context _ = false

abbrev pub implements_error : PartType → Bool
implements_error error = true
implements_error (other n b) = b
implements_error _ = false

-- the last result
abbrev pub last_implements : List PartType → Bool
last_implements [] = false
last_implements (t ∷ []) = implements_error t
last_implements (t ∷ u ∷ r) = last_implements (u ∷ r)

unfoldable pub validate : ReflectType → Built ReflectType
validate (func [] outs v) = refused (invalid_type first_parameter)
validate (func (p ∷ ps) outs v) =
    if is_context p
    then (if ltb (length outs) 1 || ltb 2 (length outs)
        then refused (invalid_type result_count)
        else if last_implements outs
        then built (func (workflow_context ∷ ps) outs v)
        else refused (invalid_type last_result))
    else refused (invalid_type first_parameter)
validate _ = refused (invalid_type not_func)

pub record Package : Type 0 where
  pub path : List ℕ
  pub funcs : List (List ℕ)

abbrev pub Program : Type 0
Program = List Package

-- golang.org/x/tools/go/packages and ssautil: a nil config, LoadAllSyntax added to its mode, Load,
-- the errors of a loaded package, and AllPackages with Build
pub record Loader (C P : Type 0) : Type 0 where
  pub empty_config : C
  pub all_syntax : C → C
  pub load : C → List ℕ → Option (List P)
  pub errors : P → List (List ℕ)
  pub all_packages : List P → Program

-- a Go function: its type and its full name
pub record WorkflowFunc : Type 0 where
  pub type : ReflectType
  pub full_name : List ℕ

pub record BuildOptions (C : Type 0) : Type 0 where
  pub prebuilt : Option Program
  pub packages_config : Option C
  pub workflow_func : Option WorkflowFunc
  pub ref_pkg : List ℕ
  pub ref_name : List ℕ
  pub ref_type : Option ReflectType

abbrev pub BuildOption : Type 0 → Type 0
BuildOption C = BuildOptions C → BuildOptions C

abbrev pub no_options : {C : Type 0} → BuildOptions C
no_options = record {
  prebuilt = none;
  packages_config = none;
  workflow_func = none;
  ref_pkg = [];
  ref_name = [];
  ref_type = none;
}

abbrev pub with_prebuilt : {C : Type 0} → Program → BuildOption C
with_prebuilt p b = record b { prebuilt = some p }

abbrev pub with_packages_config : {C : Type 0} → C → BuildOption C
with_packages_config c b = record b { packages_config = some c }

abbrev pub with_workflow_func : {C : Type 0} → WorkflowFunc → BuildOption C
with_workflow_func f b = record b { workflow_func = some f }

abbrev pub with_workflow_func_ref : {C : Type 0} → List ℕ → List ℕ → ReflectType → BuildOption C
with_workflow_func_ref p n t b = record b { ref_pkg = p; ref_name = n; ref_type = some t }

-- for _, opt := range opts { opt(&buildOpts) }
unfoldable pub apply_options : {C : Type 0} → List (BuildOption C) → BuildOptions C → BuildOptions C
apply_options [] b = b
apply_options (o ∷ os) b = apply_options os (o b)

-- strings.LastIndex of a dot: what stands before it and after it
unfoldable pub split_last : List ℕ → Option (List ℕ × List ℕ)
split_last [] = none
split_last (a ∷ s) =
    let rest = split_last s in
    elim rest [ some r ↦ some (a ∷ r.0, r.1) | none ↦ if a == 46 then some ([], s) else none ]

-- strings.HasSuffix
unfoldable pub has_suffix : List ℕ → List ℕ → Bool
has_suffix t [] = ids_eq t []
has_suffix t (a ∷ s) = ids_eq t (a ∷ s) || has_suffix t s

-- "-fm", with which the names of method values end
abbrev pub method_suffix : List ℕ
method_suffix = 45 ∷ 102 ∷ 109 ∷ []

-- package, name and type of the workflow function; the package is derived if none is given
unfoldable pub reference :
    {C : Type 0} → BuildOptions C → Built (List ℕ × List ℕ × Option ReflectType)
unfolding split_last has_suffix
reference b =
    if ids_eq b.ref_pkg []
    then elim b.workflow_func [
      | none ↦ refused no_workflow_function
      | some f ↦
          if has_suffix method_suffix f.full_name
          then refused methods_unsupported
          else elim (split_last f.full_name) [
            | none ↦ crashed
            | some r ↦ built (r.0, r.1, some f.type)
          ]
    ]
    else built (b.ref_pkg, b.ref_name, b.ref_type)

unfoldable pub find_package : List ℕ → Program → Option Package
find_package n [] = none
find_package n (p ∷ ps) = let rest = find_package n ps in if ids_eq p.path n then some p else rest

unfoldable pub has_func : List ℕ → List (List ℕ) → Bool
has_func n [] = false
has_func n (f ∷ fs) = ids_eq f n || has_func n fs

module _ {C P : Type 0} (loader : Loader C P) where
  unfoldable pub any_errors : List P → Bool
  any_errors [] = false
  any_errors (p ∷ ps) = ltb 0 (length (loader.errors p)) || any_errors ps

  unfoldable pub prebuild : C → List ℕ → Built Program
  unfolding any_errors
  prebuild c n = elim (loader.load (loader.all_syntax c) n) [
    | none ↦ refused load_failed
    | some ps ↦
        if any_errors ps then refused packages_have_errors else built (loader.all_packages ps)
  ]

  unfoldable pub program : BuildOptions C → List ℕ → Built Program
  unfolding prebuild
  program b n = elim b.prebuilt [
    | none ↦ elim b.packages_config [
      | none ↦ prebuild loader.empty_config n
      | some c ↦ prebuild c n
    ]
    | some p ↦ elim b.packages_config [ none ↦ built p | some c ↦ refused prebuilt_and_config ]
  ]

  -- the package, if it has the function
  unfoldable pub locate : Program → List ℕ → List ℕ → Built Package
  unfolding find_package has_func
  locate prog p n = elim (find_package p prog) [
    | none ↦ refused package_missing
    | some k ↦ if has_func n k.funcs then built k else refused function_missing
  ]

  abbrev pub checked : Option ReflectType → Built ReflectType
  checked none = crashed
  checked (some t) = validate t

  -- the type of the dynamic function, and the package and the name that it interprets
  unfoldable pub build_func : List (BuildOption C) → Built (ReflectType × Package × List ℕ)
  unfolding apply_options reference program locate validate
  build_func opts = do
    let b = apply_options opts no_options
    (p, n, t) ← reference b
    prog ← program b p
    k ← locate prog p n
    u ← checked t
    built (u, k, n)

  -- RegisterWorkflow; `register` is the worker's registry, which gets the function and its name
  unfoldable pub register_workflow :
      {G : Type 0}
      → (G → ReflectType × Package × List ℕ → List ℕ → G)
      → G
      → WorkflowFunc
      → List (BuildOption C)
      → Built G
  unfolding build_func
  register_workflow register g f opts = do
    (u, k, n) ← build_func (with_workflow_func f ∷ opts)
    built (register g (u, k, n) n)
