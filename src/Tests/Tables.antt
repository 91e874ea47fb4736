-- ===== src/Tests/Tables.antt =====
-- The table of functions of symreflect.
use temporal_determinizer.Prelude.{◌≡◌, refl, some, [], ◌∷◌, arith, List}
use temporal_determinizer.Value.{ok}
use temporal_determinizer.Symbols.{split_func_name}
use temporal_determinizer.Symbols.Tables.{Text, Package, Packages, ModuleData, get, load_funcs}
use temporal_determinizer.Symbols.Funcs.{found_func, binary_funcs, expected, load_funcs-last}

-- a package p, and a module with two functions p.f at 1 and 4, and one out of range
abbrev one_package : Package
one_package = record {
  info = record { path = 112 ∷ []; scope = [] };
  top_level_types = [];
  funcs = [];
}

abbrev packages : Packages
packages = (112 ∷ [], one_package) ∷ []

abbrev modules : List ModuleData
modules = record { length = 5; offsets = 1 ∷ 4 ∷ 9 ∷ []; name = λ off. 112 ∷ 46 ∷ 102 ∷ [] } ∷ []

load_funcs-last_example :
    (q : Packages) × (load_funcs 0 modules packages ≡ ok q)
    × ((path name : Text)
        → found_func q path name ≡ expected path name (binary_funcs 0 modules) (get path packages))
load_funcs-last_example = load_funcs-last modules packages (omega arith)

expected-last :
    expected (112 ∷ []) (102 ∷ []) (binary_funcs 0 modules) (some one_package) ≡ some (0, 4)
unfolding split_func_name get
expected-last = refl
