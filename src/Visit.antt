-- ===== src/Visit.antt =====
-- frame.get and visitInstr of interpreter/internal/interp/interp.go for the instructions that make
-- no call. They read and write the frame's registers and the store, and choose the next block.
use temporal_determinizer.Prelude.{
  ℕ, zero, suc, Bool, true, false, List, [], ◌∷◌, Option, none, some, ◌==◌, if◌then◌else◌,
  get_elem?,
}
use temporal_determinizer.Token.{Token}
use temporal_determinizer.Types.{GoType}
use temporal_determinizer.Consts.{const}
use temporal_determinizer.Value.{
  Value, Values, Result, ok, fault, target, message, runtime, type_assertion, index_out_of_range,
  no_value,
}
use temporal_determinizer.Heap.{write, alloc, address}
use temporal_determinizer.Memory.{zero as zero_value, store, as_structure, as_array}
use temporal_determinizer.Elements.{field_addr, index_addr, read_element, make_slice}
use temporal_determinizer.Equality.{assert_bool, assert_pointer}
use temporal_determinizer.Ops.{as_int, binop}
use temporal_determinizer.Conv.{conv}
use temporal_determinizer.Slices.{bound, slice, slice_to_array_pointer}
use temporal_determinizer.Assert.{type_assert}
use temporal_determinizer.Store.{S, pure, throw, ◌>>=◌, pure_of, on_heap, put}
use temporal_determinizer.Maps.{make_map, lookup, map_update, range_iter, next}
use temporal_determinizer.Program.{Operand, SelectState, Plain, Case, Host, Program}
use temporal_determinizer.Channels.{as_chan, make_chan, chosen, is_some, select_values, unary}

-- continuation: kNext, kReturn, kJump
pub data Continuation : Type 0 where
  to_next to_return to_jump : Continuation

-- the part of a frame that its own instructions change; blocks by their index
pub record Activation : Type 0 where
  pub env : ℕ → Option Value
  pub block : Option ℕ
  pub prev : Option ℕ
  pub result : Value

abbrev pub to_values : List Value → Values
to_values [] = Values.nil
to_values (v ∷ vs) = Values.cons v (to_values vs)

unfoldable nth : Values → ℕ → Result Value
nth Values.nil n = fault index_out_of_range
nth (Values.cons v vs) zero = ok v
nth (Values.cons v vs) (suc n) = nth vs n

abbrev as_tuple : Value → Result Values
as_tuple (Value.tuple vs) = ok vs
as_tuple _ = fault type_assertion

abbrev pub as_iface : Value → Result (Option GoType × Value)
as_iface (Value.iface t v) = ok (t, v)
as_iface _ = fault type_assertion

module _ (host : Host) where
  -- case *ssa.BinOp
  abbrev binary : Token → GoType → Value → Value → S Value
  binary op t x y s = pure_of (binop host.machine s.heap.cell host.depth op t x y) s

abbrev pub Env : Type 0
Env = ℕ → Option Value

abbrev goes : Continuation → Activation → S (Continuation × Activation)
goes k a = pure (k, a)

-- fr.env[instr] = v
abbrev pub assigned : Activation → ℕ → Value → Activation
assigned a r v = record a { env = put a.env r (some v) }

abbrev set : Activation → ℕ → S Value → S (Continuation × Activation)
set a r m = m >>= λ v. goes to_next (assigned a r v)

-- fr.prevBlock, fr.block = fr.block, fr.block.Succs[i]
abbrev jump_to : Activation → List ℕ → ℕ → S (Continuation × Activation)
jump_to a succs i = elim (get_elem? succs i) [
  | some b ↦ goes to_jump (record a { prev = a.block; block = some b })
  | none ↦ throw (runtime index_out_of_range)
]

abbrev came_from : Option ℕ → ℕ → Bool
came_from none b = false
came_from (some c) b = c == b

module _ (host : Host) (prog : Program) where
  unfoldable pub get : Env → Operand → S Value
  unfolding const
  get env Operand.absent = pure Value.nil_value
  get env (Operand.function f) = pure (Value.function (some f))
  get env (Operand.builtin b) = pure (Value.builtin b)
  get env (Operand.const t c) = on_heap (const host.machine.floats t c)
  get env (Operand.global g) = elim (prog.globals g) [
    | some a ↦ pure (Value.pointer (some a))
    | none ↦ throw (message no_value)
  ]
  get env (Operand.register r) = elim (env r) [ some v ↦ pure v | none ↦ throw (message no_value) ]

  unfoldable pub get_all : Env → List Operand → S (List Value)
  unfolding get
  get_all env [] = pure []
  get_all env (x ∷ xs) = do v ← get env x; vs ← get_all env xs; pure (v ∷ vs)

  -- the operand of the edge that control came by, if there is one
  unfoldable pub phi : Activation → ℕ → List (ℕ × Operand) → S (Continuation × Activation)
  unfolding get
  phi a r [] = goes to_next a
  phi a r ((b, x) ∷ edges) = if came_from a.prev b then set a r (get a.env x) else phi a r edges

  -- case *ssa.Return
  unfoldable pub return : Activation → List Operand → S (Continuation × Activation)
  unfolding get get_all
  return a [] = goes to_return (record a { block = none })
  return a (x ∷ []) = do v ← get a.env x; goes to_return (record a { block = none; result = v })
  return a (x ∷ y ∷ xs) = do
    vs ← get_all a.env (x ∷ y ∷ xs)
    goes to_return (record a { block = none; result = Value.tuple (to_values vs) })

  abbrev new_cell : Activation → ℕ → Bool → S (Activation × ℕ)
  new_cell a r true = on_heap (alloc 1) >>= λ c. pure (assigned a r (Value.pointer (some c)), c)
  new_cell a r false = get a.env (Operand.register r) >>= λ v.
      pure_of (assert_pointer v) >>= λ p. on_heap (address p) >>= λ c. pure (a, c)

  abbrev get_case : Env → SelectState → S Case
  get_case env (SelectState.receive t ch) = get env ch >>= λ c. pure (Case.receive c)
  get_case env (SelectState.send ch x) = get env x >>= λ v. get env ch >>= λ c. pure (Case.send c v)

  abbrev get_cases : Env → List SelectState → S (List Case)
  get_cases env [] = pure []
  get_cases env (s ∷ ss) = get_case env s >>= λ c. get_cases env ss >>= λ cs. pure (c ∷ cs)

  -- visitInstr, in a block with these successors
  unfoldable pub visit_plain : List ℕ → Activation → Plain → S (Continuation × Activation)
  unfolding get get_all phi return unary conv slice slice_to_array_pointer type_assert make_chan
      make_map lookup map_update range_iter next field_addr index_addr make_slice select_values nth
      as_int store
  visit_plain succs a Plain.debug_ref = goes to_next a
  visit_plain succs a (Plain.un_op r op b t x) = set a r (get a.env x >>= λ v. unary host op b t v)
  visit_plain succs a (Plain.bin_op r op t x y) =
      set a r (get a.env x >>= λ v. get a.env y >>= λ w. binary host op t v w)
  visit_plain succs a (Plain.change_interface r x) = set a r (get a.env x)
  visit_plain succs a (Plain.change_type r x) = set a r (get a.env x)
  visit_plain succs a (Plain.convert r dst src x) =
      set a r (get a.env x >>= λ v. on_heap (conv host.grow host.machine.floats dst src v))
  visit_plain succs a (Plain.slice_to_array_pointer r dst src x) =
      set a r (get a.env x >>= λ v. on_heap (slice_to_array_pointer dst src v))
  visit_plain succs a (Plain.make_interface r t x) =
      set a r (get a.env x >>= λ v. pure (Value.iface (some t) v))
  visit_plain succs a (Plain.extract r x i) =
      set a r (get a.env x >>= λ v. pure_of (as_tuple v) >>= λ vs. pure_of (nth vs i))
  visit_plain succs a (Plain.slice r x lo hi max) = set a r (
      get a.env x >>= λ v.
      get a.env lo >>= λ l. get a.env hi >>= λ h. get a.env max >>= λ m. on_heap (slice v l h m))
  visit_plain succs a (Plain.return xs) = return a xs
  visit_plain succs a (Plain.panic x) = get a.env x >>= λ v. throw (target v)
  visit_plain succs a (Plain.send ch x) = get a.env ch >>= λ c.
      pure_of (as_chan c) >>= λ d. get a.env x >>= λ v. host.send d v >>= λ _. goes to_next a
  visit_plain succs a (Plain.store t addr x) = get a.env addr >>= λ p.
      pure_of (assert_pointer p) >>= λ q. get a.env x >>= λ v.
      on_heap (address q) >>= λ c. on_heap (store t c v) >>= λ _. goes to_next a
  visit_plain succs a (Plain.if_cond x) =
      get a.env x >>= λ v. pure_of (assert_bool v) >>= λ b. jump_to a succs (if b then 0 else 1)
  visit_plain succs a Plain.jump = jump_to a succs 0
  visit_plain succs a (Plain.make_chan r size) = set a r (get a.env size >>= λ v. make_chan v)
  visit_plain succs a (Plain.alloc r heap t) = new_cell a r heap >>= λ x.
      on_heap (zero_value t) >>= λ v. on_heap (write x.1 v) >>= λ _. goes to_next x.0
  visit_plain succs a (Plain.make_slice r e n k) =
      set a r (get a.env k >>= λ c. get a.env n >>= λ l. on_heap (make_slice e l c))
  visit_plain succs a (Plain.make_map r t reserve) =
      set a r (get a.env reserve >>= λ n. pure_of (bound n 0) >>= λ _. make_map t)
  visit_plain succs a (Plain.range r x) = set a r (get a.env x >>= λ v. range_iter v)
  visit_plain succs a (Plain.next r x) = set a r (get a.env x >>= λ v. next host.order v)
  visit_plain succs a (Plain.field_addr r x i) =
      set a r (get a.env x >>= λ v. on_heap (field_addr v i))
  visit_plain succs a (Plain.field r x i) =
      set a r (get a.env x >>= λ v. pure_of (as_structure v) >>= λ s. on_heap (read_element s i))
  visit_plain succs a (Plain.index_addr r x idx) =
      set a r (get a.env x >>= λ v. get a.env idx >>= λ i. on_heap (index_addr v i))
  visit_plain succs a (Plain.index r x idx) = set a r (
      get a.env x >>= λ v. pure_of (as_array v) >>= λ s.
      get a.env idx >>= λ i. pure_of (as_int i) >>= λ n. on_heap (read_element s n))
  visit_plain succs a (Plain.lookup r e b x idx) =
      set a r (get a.env x >>= λ v. get a.env idx >>= λ i. lookup host.machine host.depth e b v i)
  visit_plain succs a (Plain.map_update x k v) = get a.env x >>= λ m. get a.env k >>= λ j.
      get a.env v >>= λ w. map_update host.machine host.depth m j w >>= λ _. goes to_next a
  visit_plain succs a (Plain.type_assert r b t x) = set a r (
      get a.env x >>= λ v.
      pure_of (as_iface v) >>= λ i. on_heap (type_assert host.methods b t i.0 i.1))
  visit_plain succs a (Plain.make_closure r f xs) =
      set a r (get_all a.env xs >>= λ vs. pure (Value.closure f (to_values vs)))
  visit_plain succs a (Plain.phi r edges) = phi a r edges
  visit_plain succs a (Plain.select r blocking states) = set a r (
      get_cases a.env states >>= λ cs. host.select blocking cs >>= λ c.
      select_values c.0 c.1 0 states >>= λ vs. pure (
        Value.tuple
          (Values.cons (chosen c.0) (Values.cons (Value.boolean (is_some c.1)) (to_values vs)))))
