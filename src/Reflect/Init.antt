-- ===== src/Reflect/Init.antt =====
-- newMethod and initReflect of interpreter/internal/interp/reflect.go: the methods of the emulated package
-- reflect are functions without a body, so that calls of them are calls of externals, found by the
-- name of the function. `id` gives the number that stands for the name of a method.
-- New functions get the numbers from one on that no function of the program has.
use Prim.Native.String.{String, ◌++◌ as text_append}
use temporal_determinizer.Prelude.{ℕ, suc, false, List, [], ◌∷◌, Option, none, some}
use temporal_determinizer.Store.{put}
use temporal_determinizer.Program.{Function, Program}

-- Function.String of a method, by the type of its receiver
abbrev pub method_name : String → String → String
method_name recv name = text_append "(" (text_append recv (text_append ")." name))

-- a function without a body; of its receiver only the name is read, as a part of that of the function
unfoldable pub new_method : String → String → Function
new_method recv name = record {
  name = method_name recv name;
  nested = false;
  params = [];
  free_vars = [];
  locals = [];
  blocks = [];
  recover = none;
}

-- the names of the methods of rtype
unfoldable pub rtype_names : List String
rtype_names =
    "Bits" ∷ "Elem" ∷ "Field" ∷ "In" ∷ "Kind" ∷ "NumField" ∷ "NumIn" ∷ "NumMethod" ∷ "NumOut"
    ∷ "Out" ∷ "Size" ∷ "String" ∷ []

-- i.prog.MethodValue(mset.At(j)).Blocks = nil, for the methods of reflect.Value
unfoldable pub delete_bodies : List ℕ → Program → Program
delete_bodies [] prog = prog
delete_bodies (f ∷ fs) prog =
    delete_bodies fs
      (record prog { function = put prog.function f (record (prog.function f) { blocks = [] }) })

-- the methods of rtype; the first gets the number f
unfoldable pub add_rtype_methods : (String → ℕ) → ℕ → List String → Program → Program
unfolding new_method
add_rtype_methods id f [] prog = prog
add_rtype_methods id f (m ∷ ms) prog = add_rtype_methods id (suc f) ms (record prog {
  function = put prog.function f (new_method "reflect.rtype" m);
  rtype_methods = put prog.rtype_methods (id m) (some f);
})

abbrev pub methods_of : Option (List ℕ) → List ℕ
methods_of none = []
methods_of (some fs) = fs

-- the first new function, and the methods of reflect.Value if the program imports reflect
unfoldable pub init_reflect : (String → ℕ) → ℕ → Option (List ℕ) → Program → Program
unfolding delete_bodies add_rtype_methods new_method rtype_names
init_reflect id f value_methods prog =
    let p = delete_bodies (methods_of value_methods) prog in
    add_rtype_methods id (suc f) rtype_names (record p {
      function = put p.function f (new_method "reflect.error" "Error");
      error_methods = put (λ n. none) (id "Error") (some f);
      rtype_methods = λ n. none;
    })
