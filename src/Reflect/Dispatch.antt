-- ===== src/Reflect/Dispatch.antt =====
-- A call of a method of reflect.Type after initReflect of interpreter/internal/interp/reflect.go, by
-- prepareCall and callSSA of interp.go.
use Prim.Native.String.{String}
use mathlib.Core.Path.{subst}
use temporal_determinizer.Prelude.{
  ℕ, suc, ◌+◌, ◌<◌, ◌≢◌, ◌≡◌, refl, ◌∙◌, arith, List, [], ◌∷◌, ◌++◌, Option, none, some, length,
}
use temporal_determinizer.Types.{GoType}
use temporal_determinizer.Types.Identity.{identical_self}
use temporal_determinizer.Value.{Value, exhausted}
use temporal_determinizer.Store.{S, Store, gives, throws, Ended, put}
use temporal_determinizer.Program.{Host, Program}
use temporal_determinizer.World
use temporal_determinizer.World.{World, lift}
use temporal_determinizer.Steps.{in_frame, fresh_frame, popped}
use temporal_determinizer.Prepare.{lookup_method, resolve}
use temporal_determinizer.Calls.{call, call_value, call_ssa, choose}
use temporal_determinizer.Reflect.Init.{
  new_method, add_rtype_methods, delete_bodies, methods_of, method_name, init_reflect,
}

-- none of the names has the number `m`
abbrev pub Lacks : (String → ℕ) → ℕ → List String → Type 0
Lacks id m [] = Unit
Lacks id m (n ∷ ns) = (id n ≢ m) × Lacks id m ns

put_other : {A : Type 0} (f : ℕ → A) (a b : ℕ) (v : A) → a ≢ b → put f a v b ≡ f b
put_other f a b v h = ground arith

put_self : {A : Type 0} (f : ℕ → A) (a : ℕ) (v : A) → put f a v a ≡ v
put_self f a v = ground arith

-- the functions below the new ones, and a method that has none of the names, stay
add_rtype_methods-function :
    (id : String → ℕ) (f : ℕ) (ms : List String) (prog : Program) (g : ℕ)
    → g < f
    → (add_rtype_methods id f ms prog).function g ≡ prog.function g
unfolding add_rtype_methods
add_rtype_methods-function id f [] prog g h = refl
add_rtype_methods-function id f (m ∷ ms) prog g h =
    add_rtype_methods-function id (suc f) ms _ g (omega arith)
    ∙ put_other prog.function f g (new_method "reflect.rtype" m) (omega arith)

add_rtype_methods-Lacks :
    (id : String → ℕ) (f : ℕ) (ms : List String) (prog : Program) (m : ℕ)
    → Lacks id m ms
    → (add_rtype_methods id f ms prog).rtype_methods m ≡ prog.rtype_methods m
unfolding add_rtype_methods
add_rtype_methods-Lacks id f [] prog m h = refl
add_rtype_methods-Lacks id f (n ∷ ms) prog m (d, h) =
    add_rtype_methods-Lacks id (suc f) ms _ m h ∙ put_other prog.rtype_methods (id n) m (some f) d

add_rtype_methods-rtype_type :
    (id : String → ℕ) (f : ℕ) (ms : List String) (prog : Program)
    → (add_rtype_methods id f ms prog).rtype_type ≡ prog.rtype_type
unfolding add_rtype_methods
add_rtype_methods-rtype_type id f [] prog = refl
add_rtype_methods-rtype_type id f (n ∷ ms) prog = add_rtype_methods-rtype_type id (suc f) ms _

delete_bodies-rtype_type :
    (fs : List ℕ) (prog : Program) → (delete_bodies fs prog).rtype_type ≡ prog.rtype_type
unfolding delete_bodies
delete_bodies-rtype_type [] prog = refl
delete_bodies-rtype_type (f ∷ fs) prog = delete_bodies-rtype_type fs _

-- the method behind some others is the function behind theirs, without a body
add_rtype_methods-has :
    (id : String → ℕ) (f : ℕ) (before : List String) (m : String) (after : List String)
    (prog : Program)
    → Lacks id (id m) after
    → (i : ℕ) → i ≡ f + length before
    → ((add_rtype_methods id f (before ++ m ∷ after) prog).rtype_methods (id m) ≡ some i)
      × ((add_rtype_methods id f (before ++ m ∷ after) prog).function i
          ≡ new_method "reflect.rtype" m)
unfolding add_rtype_methods
add_rtype_methods-has id f [] m after prog h i e =
    let same : (i ≡ f) = omega arith in
    rw same (
      add_rtype_methods-Lacks id (suc f) after _ (id m) h
          ∙ put_self prog.rtype_methods (id m) (some f),
      add_rtype_methods-function id (suc f) after _ f (omega arith)
          ∙ put_self prog.function f (new_method "reflect.rtype" m),
    )
add_rtype_methods-has id f (n ∷ before) m after prog h i e =
    add_rtype_methods-has id (suc f) before m after _ h i (omega arith)

-- a computation over the store runs in a frame of its own as without it
lifted-popped :
    {A : Type 0} (w : World) (r : Ended A)
    → popped (World.lifted (fresh_frame ∷ w.frames) r) ≡ World.lifted w.frames r
lifted-popped w (gives a s) = refl
lifted-popped w (throws exhausted s) = refl
lifted-popped w (throws p s) = refl

in_frame-lift : {A : Type 0} (m : S A) (w : World) → in_frame (lift m) w ≡ lift m w
unfolding in_frame lift
in_frame-lift m w = lifted-popped w (m w.store)

resolve-rtype :
    (p : Program) (m g : ℕ) (d : GoType)
    → p.rtype_type ≡ d
    → p.rtype_methods m ≡ some g
    → (t : Option GoType) (s : Store)
    → resolve p (some m) (Value.iface (some d) (Value.rtype t)) s
      ≡ gives (Value.function (some g), Value.rtype t ∷ []) s
unfolding resolve lookup_method
resolve-rtype p m g d k e t s =
    let found : (lookup_method p d m ≡ some g) = rw (k, lookup_method) (rw (identical_self d) e) in
    ground (arith, found)

call-external :
    (host : Host) (p : Program) (g : ℕ) (m : String) (e : List Value → S Value)
    → p.function g ≡ new_method "reflect.rtype" m
    → host.external (method_name "reflect.rtype" m) ≡ some e
    → (n : ℕ) (args : List Value) (w : World)
    → call host p (suc n) (Value.function (some g)) args w ≡ lift (e args) w
unfolding call call_value call_ssa new_method
call-external host p g m e body known n args w =
    rw (body, call_ssa) (rw (known, choose) (in_frame-lift (e args) w))

-- After initReflect, a method m of reflect.Type, of the twelve that are named here, is found for every
-- value of reflect.Type, with the type for its receiver, if no method behind it has the number of its
-- name. A call of it is a call of the external function with the name (reflect.rtype).m, and leaves
-- the frames alone.
pub init_reflect-call :
    (host : Host) (prog : Program) (id : String → ℕ) (f : ℕ) (before : List String) (m : String)
    (after : List String)
    → before ++ m ∷ after
      ≡ "Bits" ∷ "Elem" ∷ "Field" ∷ "In" ∷ "Kind" ∷ "NumField" ∷ "NumIn" ∷ "NumMethod" ∷ "NumOut"
        ∷ "Out" ∷ "Size" ∷ "String" ∷ []
    → Lacks id (id m) after
    → (value_methods : Option (List ℕ)) (e : List Value → S Value)
    → host.external (method_name "reflect.rtype" m) ≡ some e
    → (t : Option GoType) (s : Store) (n : ℕ) (args : List Value) (w : World)
    → (resolve
          (init_reflect id f value_methods prog)
          (some (id m))
          (Value.iface (some prog.rtype_type) (Value.rtype t))
          s
        ≡ gives (Value.function (some (suc f + length before)), Value.rtype t ∷ []) s)
      × (call host
            (init_reflect id f value_methods prog)
            (suc n)
            (Value.function (some (suc f + length before)))
            args
            w
          ≡ lift (e args) w)
unfolding init_reflect
init_reflect-call host prog id f before m after names h value_methods e known t s n args w =
    let p = delete_bodies (methods_of value_methods) prog in
    let q = record p {
      function = put p.function f (new_method "reflect.error" "Error");
      error_methods = put (λ k. none) (id "Error") (some f);
      rtype_methods = λ k. none;
    } in
    let (name, body) =
      add_rtype_methods-has id (suc f) before m after q h (suc f + length before) refl in
    let kind : ((add_rtype_methods id (suc f) (before ++ m ∷ after) q).rtype_type
        ≡ prog.rtype_type) =
      add_rtype_methods-rtype_type id (suc f) (before ++ m ∷ after) q
      ∙ delete_bodies-rtype_type (methods_of value_methods) prog in
    let g = suc f + length before in
    let run : Program → Type 0 = λ r.
      (resolve r (some (id m)) (Value.iface (some prog.rtype_type) (Value.rtype t)) s
        ≡ gives (Value.function (some g), Value.rtype t ∷ []) s)
      × (call host r (suc n) (Value.function (some g)) args w ≡ lift (e args) w) in
    subst (λ ns. run (add_rtype_methods id (suc f) ns q)) names
      (
        resolve-rtype (add_rtype_methods id (suc f) (before ++ m ∷ after) q) (id m) g
            prog.rtype_type kind name t s,
        call-external host (add_rtype_methods id (suc f) (before ++ m ∷ after) q) g m e body known n
            args w,
      )
