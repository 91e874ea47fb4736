-- ===== src/Tests/Builds.antt =====
-- A build of the function p.f in a program that is already there.
use temporal_determinizer.Prelude.{◌≡◌, refl, false, List, [], ◌∷◌, none, ◌↔◌}
use temporal_determinizer.Build.{
  ReflectType, func, context, workflow_context, error, Package, Loader, BuildOption, built,
  with_prebuilt, with_workflow_func, apply_options, no_options, build_func, validate,
}
use temporal_determinizer.Build.Checks.{IsBuilt, IsConverted, validate_iff, build_func-IsBuilt}

abbrev no_loader : Loader (Unit {0}) (Unit {0})
no_loader = record {
  empty_config = tt;
  all_syntax = λ c. c;
  load = λ c n. none;
  errors = λ p. [];
  all_packages = λ ps. [];
}

abbrev before : ReflectType
before = func (context ∷ []) (error ∷ []) false

abbrev after : ReflectType
after = func (workflow_context ∷ []) (error ∷ []) false

abbrev small : Package
small = record { path = 112 ∷ []; funcs = (102 ∷ []) ∷ [] }

abbrev options : List (BuildOption (Unit {0}))
options =
    with_prebuilt (small ∷ [])
    ∷ with_workflow_func (record { type = before; full_name = 112 ∷ 46 ∷ 102 ∷ [] })
    ∷ []

validate_iff_example : (validate before ≡ built after) ↔ IsConverted before after
validate_iff_example = validate_iff before after

build_succeeds : build_func no_loader options ≡ built (after, small, 102 ∷ [])
unfolding build_func
build_succeeds = refl

build_func-IsBuilt_example :
    IsBuilt no_loader (apply_options options no_options) after small (102 ∷ [])
build_func-IsBuilt_example =
    build_func-IsBuilt no_loader options after small (102 ∷ []) build_succeeds
