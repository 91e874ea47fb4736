-- ===== src/Prepare.antt =====
-- Before and after a call in interpreter/internal/interp/interp.go: lookupMethod and prepareCall, and
-- the registers and locals that callSSA sets up and destroys.
use temporal_determinizer.Prelude.{
  ℕ, suc, List, [], ◌∷◌, ◌++◌, Option, none, some, length, if◌then◌else◌,
}
use temporal_determinizer.Types.{GoType}
use temporal_determinizer.Types.Identity.{identical}
use temporal_determinizer.Value.{
  Value, bad, message, runtime, index_out_of_range, method_on_nil, no_such_method,
}
use temporal_determinizer.Heap.{write, alloc}
use temporal_determinizer.Memory.{zero}
use temporal_determinizer.Store.{S, pure, throw, ◌>>=◌, ◌>>◌, pure_of, on_heap, put}
use temporal_determinizer.Program.{CallCommon, Block, Function, Host, Program}
use temporal_determinizer.Visit.{Activation, Env, as_iface, get, get_all}

unfoldable pub lookup_method : Program → GoType → ℕ → Option ℕ
unfolding identical
lookup_method prog t n =
    if identical t prog.rtype_type
    then prog.rtype_methods n
    else if identical t prog.error_type
    then prog.error_methods n
    else prog.method t n

-- the function and the receiver, which goes before the arguments
unfoldable pub resolve : Program → Option ℕ → Value → S (Value × List Value)
unfolding lookup_method
resolve prog none v = pure (v, [])
resolve prog (some n) v = do
  (t, x) ← pure_of (as_iface v)
  elim t [
    | none ↦ throw (message method_on_nil)
    | some d ↦ elim (lookup_method prog d n) [
      | none ↦ throw (message no_such_method)
      | some f ↦ pure (Value.function (some f), x ∷ [])
    ]
  ]

unfoldable pub prepare_call : Host → Program → Env → CallCommon → S (Value × List Value)
unfolding get get_all resolve
prepare_call host prog env c = do
  v ← get host prog env c.value
  (f, recv) ← resolve prog c.method v
  args ← get_all host prog env c.args
  pure (f, recv ++ args)

-- for i, p := range fn.Params { fr.env[p] = args[i] }
unfoldable pub bind : Env → List ℕ → List Value → S Env
bind env [] vs = pure env
bind env (r ∷ rs) [] = throw (runtime index_out_of_range)
bind env (r ∷ rs) (v ∷ vs) = bind (put env r (some v)) rs vs

-- fr.locals[i] = zero(deref(l.Type())), from the cell c on
unfoldable pub init_locals : Env → List (ℕ × GoType) → ℕ → S Env
init_locals env [] c = pure env
init_locals env ((r, t) ∷ ls) c = do
  v ← on_heap (zero t)
  on_heap (write c v)
  init_locals (put env r (some (Value.pointer (some c)))) ls (suc c)

-- fn.Blocks[0]
abbrev first_block : List Block → S (Option ℕ)
first_block [] = throw (runtime index_out_of_range)
first_block (b ∷ bs) = pure (some 0)

-- the activation of a call, and the first cell of its locals
unfoldable pub enter : Function → List Value → List Value → S (Activation × ℕ)
unfolding bind init_locals
enter fn args env = do
  b ← first_block fn.blocks
  c ← on_heap (alloc (length fn.locals))
  e ← init_locals (λ r. none) fn.locals c
  f ← bind e fn.params args
  g ← bind f fn.free_vars env
  pure (record { env = g; block = b; prev = none; result = Value.nil_value }, c)

-- fr.locals[i] = bad{}
unfoldable pub destroy : ℕ → List (ℕ × GoType) → S (Unit {0})
destroy c [] = pure tt
destroy c (l ∷ ls) = do on_heap (write c bad); destroy (suc c) ls
