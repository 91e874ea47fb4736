-- ===== src/Symbols/Tables.antt =====
-- LoadPackages, loadFuncs, loadTopLevelTypes and allTopLevelTypes of
-- interpreter/internal/dynreflect/symreflect/package.go. What they read of the Go runtime's tables with
-- unsafe, and how package packages loads patterns, are parameters. Texts are lists of bytes.
use temporal_determinizer.Prelude.{
  ℕ, suc, Bool, true, List, [], ◌∷◌, ◌++◌, Option, none, some, ltb, ◌^◌, if◌then◌else◌, ◌⊎◌, inl,
  inr,
}
use temporal_determinizer.Types.{GoType}
use temporal_determinizer.Types.Identity.{ids_eq}
use temporal_determinizer.Value.{
  Panic, Result, ok, panics, fault, ◌>>=◌, runtime, index_out_of_range, nil_map_write,
}
use temporal_determinizer.Symbols.{Rtype, find_reflect_type, find_method_type, split_func_name}

abbrev pub Text : Type 0
Text = List ℕ

-- a map by texts, with at most one entry for each
module _ {ℓ} {V : Type ℓ} where
  unfoldable pub get : Text → List (Text × V) → Option V
  get k [] = none
  get k ((j, v) ∷ m) = if ids_eq j k then some v else get k m

  unfoldable pub set : Text → V → List (Text × V) → List (Text × V)
  set k v [] = (k, v) ∷ []
  set k v ((j, w) ∷ m) = if ids_eq j k then (j, v) ∷ m else (j, w) ∷ set k v m

-- a *runtime.Func: the module and the offset at which it stands
abbrev pub Func : Type 0
Func = ℕ × ℕ

-- a *types.Package: its path, and the names of its scope with their types
pub record PackageInfo : Type 0 where
  pub path : Text
  pub scope : List (Text × GoType)

pub record Package : Type 0 where
  pub info : PackageInfo
  pub top_level_types : List (Text × Rtype)
  pub funcs : List (Text × Func)

abbrev pub Packages : Type 0
Packages = List (Text × Package)

-- a runtime.moduledata: the length of its pclntable, the offsets in its ftab, and the name at each
pub record ModuleData : Type 0 where
  pub length : ℕ
  pub offsets : List ℕ
  pub name : ℕ → Text

-- pkg.Funcs[name] = fn, if the package is there
unfoldable pub set_func : Option (Text × Text) → Func → Packages → Packages
set_func none fn p = p
set_func (some (path, name)) fn p = elim (get path p) [
  | none ↦ p
  | some k ↦ set path (record k { funcs = set name fn k.funcs }) p
]

-- one entry of the table of functions. An offset counts as an int: one that is negative so is not
-- passed over as one out of range.
unfoldable pub load_func : ℕ → ModuleData → ℕ → Packages → Result Packages
unfolding set_func split_func_name
load_func i m off p =
    if ltb off m.length
    then ok (set_func (split_func_name (m.name off)) (i, off) p)
    else if ltb off (2 ^ 63)
    then ok p
    else fault index_out_of_range

unfoldable pub load_offsets : ℕ → ModuleData → List ℕ → Packages → Result Packages
unfolding load_func
load_offsets i m [] p = ok p
load_offsets i m (off ∷ os) p = load_func i m off p >>= load_offsets i m os

unfoldable pub load_funcs : ℕ → List ModuleData → Packages → Result Packages
unfolding load_offsets
load_funcs i [] p = ok p
load_funcs i (m ∷ ms) p = load_offsets i m m.offsets p >>= load_funcs (suc i) ms

-- the table of allTopLevelTypes: by package and name, a number for the type
abbrev pub TypeTable : Type 0
TypeTable = List (Text × List (Text × ℕ))

abbrev or_empty {ℓ} : {A : Type ℓ} → Option (List A) → List A
or_empty none = []
or_empty (some l) = l

-- all[pkgName][name], for the named type of a number
unfoldable pub find_type : (ℕ → Text × Text) → TypeTable → ℕ → Option ℕ
unfolding get
find_type obj t n = let (path, name) = obj n in get name (or_empty (get path t))

-- one type of the binary: whether it is a pointer, and of its element the package, the name and a
-- number
pub record Link : Type 0 where
  pub is_pointer : Bool
  pub path : Text
  pub name : Text
  pub number : ℕ

unfoldable pub add_link : Link → TypeTable → TypeTable
unfolding get set
add_link l t =
    if l.is_pointer then set l.path (set l.name l.number (or_empty (get l.path t))) t else t

unfoldable pub add_links : List Link → TypeTable → TypeTable
unfolding add_link
add_links [] t = t
add_links (l ∷ ls) t = add_links ls (add_link l t)

-- allTopLevelTypesMap["time"]["ticker"] = reflect.TypeOf(time.Ticker{})
abbrev pub time : Text
time = 116 ∷ 105 ∷ 109 ∷ 101 ∷ []

abbrev pub ticker : Text
ticker = 116 ∷ 105 ∷ 99 ∷ 107 ∷ 101 ∷ 114 ∷ []

-- the table, and a panic if the package is not in it
unfoldable pub add_ticker : ℕ → TypeTable → TypeTable × Option Panic
unfolding get set
add_ticker n t = elim (get time t) [
  | none ↦ (t, some (runtime nil_map_write))
  | some ts ↦ (set time (set ticker n ts) t, none)
]

-- allTopLevelTypesOnce and allTopLevelTypesMap. The Once is done even if its function panicked.
pub record TypesOnce : Type 0 where
  pub done : Bool
  pub table : TypeTable

abbrev or_panic {ℓ} : {A : Type ℓ} → A → Option Panic → Result A
or_panic a none = ok a
or_panic a (some p) = panics p

unfoldable pub all_top_level_types : List Link → ℕ → TypesOnce → TypesOnce × Result TypeTable
unfolding add_links add_ticker
all_top_level_types ls n st =
    let r = add_ticker n (add_links ls []) in
    if st.done then (st, ok st.table) else (record { done = true; table = r.0 }, or_panic r.0 r.1)

-- pkg.TopLevelTypes[name] = findReflectType(...) for the names of a scope
unfoldable pub load_scope :
    (Rtype → Bool)
    → (ℕ → Option ℕ)
    → List (Text × GoType)
    → List (Text × Rtype)
    → Result (List (Text × Rtype))
unfolding set find_reflect_type
load_scope makes all [] ts = ok ts
load_scope makes all ((n, t) ∷ ns) ts = do
  r ← find_reflect_type makes all t
  load_scope makes all ns (set n r ts)

unfoldable pub load_types : (Rtype → Bool) → (ℕ → Option ℕ) → Packages → Result Packages
unfolding load_scope
load_types makes all [] = ok []
load_types makes all ((path, k) ∷ p) = do
  ts ← load_scope makes all k.info.scope k.top_level_types
  rest ← load_types makes all p
  ok ((path, record k { top_level_types = ts }) ∷ rest)

unfoldable pub load_top_level_types :
    (Rtype → Bool)
    → (ℕ → Text × Text)
    → List Link
    → ℕ
    → TypesOnce
    → Packages
    → TypesOnce × Result Packages
unfolding all_top_level_types find_type load_types
load_top_level_types makes obj ls n st p =
    let r = all_top_level_types ls n st in (r.0, r.1 >>= λ t. load_types makes (find_type obj t) p)

-- reflect.Type of a type of go/types; `recv` says that it is a signature with a receiver
unfoldable pub reflect_type :
    (Rtype → Bool)
    → (ℕ → Text × Text)
    → List Link
    → ℕ
    → TypesOnce
    → Bool
    → GoType
    → TypesOnce × Result Rtype
unfolding all_top_level_types find_type find_method_type
reflect_type makes obj ls n st recv t =
    let r = all_top_level_types ls n st in
    (r.0, r.1 >>= λ table. find_method_type makes (find_type obj table) recv t)

-- the packages by their paths, a later one in place of an earlier
unfoldable pub prepare : List PackageInfo → Packages → Packages
unfolding set
prepare [] p = p
prepare (k ∷ ks) p =
    prepare ks (set k.path (record { info = k; top_level_types = []; funcs = [] }) p)

-- the packages given, and those that packages.Load finds for patterns, if there are any
abbrev appended {ℓ} :
    {E : Type ℓ}
    → List Text
    → (List Text → E ⊎ List PackageInfo)
    → List PackageInfo
    → E ⊎ List PackageInfo
appended [] load ks = inr ks
appended (q ∷ qs) load ks = elim (load (q ∷ qs)) [ inl e ↦ inl e | inr more ↦ inr (ks ++ more) ]

-- what the running binary has
pub record Binary : Type 0 where
  pub modules : List ModuleData
  pub links : List Link
  pub ticker : ℕ
  pub obj : ℕ → Text × Text
  pub makes : Rtype → Bool

-- the error of packages.Load, or the packages with their functions and types
unfoldable pub load_packages {ℓ} :
    {E : Type ℓ}
    → Binary
    → (List Text → E ⊎ List PackageInfo)
    → List Text
    → List PackageInfo
    → TypesOnce
    → TypesOnce × Result (E ⊎ Packages)
unfolding prepare load_funcs load_top_level_types
load_packages b load patterns ks st = elim (appended patterns load ks) [
  | inl e ↦ (st, ok (inl e))
  | inr all ↦ elim (load_funcs 0 b.modules (prepare all [])) [
    | panics e ↦ (st, panics e)
    | ok p ↦
        let r = load_top_level_types b.makes b.obj b.links b.ticker st p in
        (r.0, r.1 >>= λ q. ok (inr q))
  ]
]
