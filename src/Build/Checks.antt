-- ===== src/Build/Checks.antt =====
-- What a build checks before it hands out a function.
use temporal_determinizer.Prelude.{
  ℕ, ◌≡◌, refl, Bool, true, false, List, [], ◌∷◌, Option, none, some, ◌⊎◌, inl, inr, ◌↔◌, arith,
  Bool-cases, Option-cases, ◌||◌, sym, ap, ◌∙◌, get_elem?, suc, if◌then◌else◌, ltb, length,
}
use mathlib.Core.Path.{subst}
use temporal_determinizer.Types.Identity.{ids_eq, ids_eq→eq}
use temporal_determinizer.Build.{
  PartType, ReflectType, no_func, context, workflow_context, error, other, func, Built, built,
  refused, crashed, implements_error, validate, Package, Program, Loader, BuildOptions, BuildOption,
  find_package, has_func, locate, build_func, reference, apply_options, no_options, program,
  checked, ◌>>=◌, function_missing, BuildError, function_missing,
}

-- an error, or a result and an error
abbrev pub EndsInError : List PartType → Type 0
EndsInError outs =
    ((e : PartType) × (outs ≡ e ∷ []) × (implements_error e ≡ true))
    ⊎ ((a : PartType) × (e : PartType) × (outs ≡ a ∷ e ∷ []) × (implements_error e ≡ true))

-- `u` is the type of the workflow function `t`, with a workflow.Context as its first parameter
pub record IsConverted (t u : ReflectType) : Type 0 where
  pub params : List PartType
  pub results : List PartType
  pub variadic : Bool
  pub from : t ≡ func (context ∷ params) results variadic
  pub into : u ≡ func (workflow_context ∷ params) results variadic
  pub ends : EndsInError results

built_injective : {A : Type 0} {a b : A} → built a ≡ built b → a ≡ b
built_injective h = cc

validate-accepts : (t u : ReflectType) → IsConverted t u → validate t ≡ built u
unfolding validate
validate-accepts t u c = elim c.ends [
  | inl (e, h, k) ↦ rw (c.from, c.into, h, k) refl
  | inr (a, e, h, k) ↦ rw (c.from, c.into, h, k) refl
]

not_refused : {A : Type 0} {e : BuildError} {a : A} → refused e ≡ built a → ⊥
not_refused h = cc

-- what the last test lets through
last_test :
    {A : Type 0} (b : Bool) (r : A) (e : BuildError) (u : A)
    → (if b then built r else refused e) ≡ built u
    → (b ≡ true) × (u ≡ r)
last_test true r e u h = (refl, sym (built_injective h))
last_test false r e u h = absurd (not_refused h)

too_many : (n : ℕ) → (ltb (suc (suc (suc n))) 1 || ltb 2 (suc (suc (suc n)))) ≡ true
too_many n = ground arith

some_injective : {A : Type 0} {a b : A} → some a ≡ some b → a ≡ b
some_injective h = cc

validate-inv : (t u : ReflectType) → validate t ≡ built u → IsConverted t u
unfolding validate
validate-inv (func (context ∷ ps) [] v) u h = cc
validate-inv (func (context ∷ ps) (e ∷ []) v) u h =
    let (k, g) = last_test (implements_error e) _ _ u h in
    record {
      params = ps;
      results = e ∷ [];
      variadic = v;
      from = refl;
      into = g;
      ends = inl (e, refl, k);
    }
validate-inv (func (context ∷ ps) (a ∷ e ∷ []) v) u h =
    let (k, g) = last_test (implements_error e) _ _ u h in
    record {
      params = ps;
      results = a ∷ e ∷ [];
      variadic = v;
      from = refl;
      into = g;
      ends = inr (a, e, refl, k);
    }
validate-inv (func (context ∷ ps) (a ∷ b ∷ c ∷ r) v) u h =
    absurd (not_refused (rw (validate, too_many (length r)) at h))
validate-inv (func (workflow_context ∷ ps) outs v) u h = cc
validate-inv (func (error ∷ ps) outs v) u h = cc
validate-inv (func (other n b ∷ ps) outs v) u h = cc
validate-inv (func [] outs v) u h = cc
validate-inv (no_func n) u h = cc

-- A type passes the validation, as another type, exactly if it is that of a function from a
-- context.Context and more parameters to an error or a result and an error, and the other type is
-- the same with a workflow.Context as its first parameter.
pub validate_iff : (t u : ReflectType) → (validate t ≡ built u) ↔ IsConverted t u
validate_iff t u = (validate-inv t u, validate-accepts t u)

pub >>=-built :
    {A B : Type 0} (r : Built A) (f : A → Built B) {b : B}
    → (r >>= f) ≡ built b
    → (a : A) × (r ≡ built a) × (f a ≡ built b)
>>=-built (refused e) f h = cc
>>=-built crashed f h = cc
>>=-built (built a) f h = (a, refl, h)

abbrev pub IsAmong : Package → Program → Type 0
IsAmong k ps = (i : ℕ) × (get_elem? ps i ≡ some k)

find_package-path :
    (n : List ℕ) (ps : Program) (k : Package)
    → find_package n ps ≡ some k
    → (k.path ≡ n) × IsAmong k ps
unfolding find_package
find_package-path n [] k h = cc
find_package-path n (p ∷ ps) k h = elim (Bool-cases (ids_eq p.path n)) [
  | inl e ↦
      let g = some_injective (rw (find_package, e) at h) in
      (ap (λ q. q.path) (sym g) ∙ ids_eq→eq p.path n e, (0, rw g refl))
  | inr e ↦
      let (q, (i, m)) = find_package-path n ps k (rw (find_package, e) at h) in (q, (suc i, m))
]

-- a package of the program with the path and the function
pub record IsLocated (prog : Program) (p n : List ℕ) (k : Package) : Type 0 where
  pub path : k.path ≡ p
  pub member : IsAmong k prog
  pub has : has_func n k.funcs ≡ true

locate-IsLocated :
    {C P : Type 0} (loader : Loader C P) (prog : Program) (p n : List ℕ) (k : Package)
    → locate loader prog p n ≡ built k
    → IsLocated prog p n k
unfolding locate
locate-IsLocated loader prog p n k h = elim (Option-cases (find_package p prog)) [
  | inl e ↦ absurd (not_refused (rw (locate, e) at h))
  | inr (j, e) ↦
      let (t, g) = last_test (has_func n j.funcs) j function_missing k (rw (locate, e) at h) in
      let (q, m) = find_package-path p prog j e in
      record {
        path = ap (λ z. z.path) g ∙ q;
        member = (m.0, m.1 ∙ ap some (sym g));
        has = ap (λ z. has_func n z.funcs) g ∙ t;
      }
]

module _ {C P : Type 0} (loader : Loader C P) where
  -- what a build found: the reference, the program, the package with the function, and its type
  pub record IsBuilt (b : BuildOptions C) (u : ReflectType) (k : Package) (n : List ℕ)
      : Type 0 where
    pub path : List ℕ
    pub type : ReflectType
    pub prog : Program
    pub referred : reference b ≡ built (path, n, some type)
    pub loaded : program loader b path ≡ built prog
    pub located : IsLocated prog path n k
    pub converted : IsConverted type u

  checked-inv :
      (t : Option ReflectType) (u : ReflectType)
      → checked loader t ≡ built u
      → (s : ReflectType) × (t ≡ some s) × (validate s ≡ built u)
  checked-inv none u h = cc
  checked-inv (some s) u h = (s, refl, h)

  -- If a build returns a function, then its name and type are those that the options refer to, the
  -- type was valid and is converted, and the package is one of the loaded program, with the path of
  -- the reference, that has a function of that name.
  pub build_func-IsBuilt :
      (opts : List (BuildOption C)) (u : ReflectType) (k : Package) (n : List ℕ)
      → build_func loader opts ≡ built (u, k, n)
      → IsBuilt (apply_options opts no_options) u k n
  unfolding build_func
  build_func-IsBuilt opts u k n h =
      let b = apply_options opts no_options in
      let ((p, m, t), r, h₁) = >>=-built (reference b) _ h in
      let (prog, l, h₂) = >>=-built (program loader b p) _ h₁ in
      let (j, c, h₃) = >>=-built (locate loader prog p m) _ h₂ in
      let (v, d, h₄) = >>=-built (checked loader t) _ h₃ in
      let (s, i, c') = checked-inv t v d in
      subst (λ z. IsBuilt b z.0 z.1 z.2) (built_injective h₄)
        (record {
          path = p;
          type = s;
          prog = prog;
          referred = r ∙ ap (λ z. built (p, m, z)) i;
          loaded = l;
          located = locate-IsLocated loader prog p m j c;
          converted = validate-inv s v c';
        })
