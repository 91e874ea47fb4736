-- ===== src/Builtins.antt =====
-- callBuiltin of interpreter/internal/interp/ops.go.
use temporal_determinizer.Prelude.{
  ℕ, zero, suc, Bool, true, false, List, [], ◌∷◌, ◌++◌, Option, none, some, length, if◌then◌else◌,
}
use temporal_determinizer.Word.{IntKind}
use temporal_determinizer.Types.{FloatKind, ComplexKind}
use temporal_determinizer.Value.{
  Value, Builtin, Result, ok, panics, fail, fault, message, runtime, target, index_out_of_range,
  close_of_nil, close_of_closed, illegal_operand, unknown_builtin, nil_receiver,
}
use temporal_determinizer.Heap.{address, read}
use temporal_determinizer.Memory.{as_array}
use temporal_determinizer.Equality.{part, assert_pointer, assert_float}
use temporal_determinizer.Hashmap
use temporal_determinizer.Slices.{header_len, header_cap, builtin_copy, builtin_append}
use temporal_determinizer.Store.{S, Store, gives, pure, throw, ◌>>=◌, pure_of, on_heap, put}
use temporal_determinizer.Maps.{map_delete}
use temporal_determinizer.Channels.{as_chan}
use temporal_determinizer.Frames.{do_recover}
use temporal_determinizer.World
use temporal_determinizer.World.{Stack, End, W, lift, value}
use temporal_determinizer.Print.{to_string}
use temporal_determinizer.Program.{Host, Program}

abbrev pub arg : List Value → ℕ → Result Value
arg [] i = fault index_out_of_range
arg (v ∷ vs) zero = ok v
arg (v ∷ vs) (suc i) = arg vs i

abbrev int : ℕ → S Value
int n = pure (Value.integer IntKind.int n)

-- len((*x).(array))
abbrev array_len : Option ℕ → S Value
array_len p =
    on_heap (address p) >>= λ a. on_heap (read a) >>= λ v. pure_of (as_array v) >>= λ x. int x.1

unfoldable pub builtin_len : Value → S Value
builtin_len (Value.string t) = int (length t)
builtin_len (Value.array b n) = int n
builtin_len (Value.pointer p) = array_len p
builtin_len (Value.slice h) = int (header_len h)
builtin_len (Value.builtin_map none) = int 0
builtin_len (Value.builtin_map (some a)) = λ s. int (length (s.builtin a)) s
builtin_len (Value.hash_map none) = int 0
builtin_len (Value.hash_map (some a)) = λ s. int (Hashmap.len (some (s.hashed a).1)) s
builtin_len (Value.chan none) = int 0
builtin_len (Value.chan (some c)) = λ s. int (length (s.chans c).queue) s
builtin_len _ = throw (message illegal_operand)

unfoldable pub builtin_cap : Value → S Value
builtin_cap (Value.array b n) = int n
builtin_cap (Value.pointer p) = array_len p
builtin_cap (Value.slice h) = int (header_cap h)
builtin_cap (Value.chan none) = int 0
builtin_cap (Value.chan (some c)) = λ s. int ((s.chans c).capacity) s
builtin_cap _ = throw (message illegal_operand)

unfoldable pub builtin_real : Value → Result Value
builtin_real (Value.complex k a b) = ok (Value.float (part k) a)
builtin_real _ = fail illegal_operand

unfoldable pub builtin_imag : Value → Result Value
builtin_imag (Value.complex k a b) = ok (Value.float (part k) b)
builtin_imag _ = fail illegal_operand

abbrev of_parts : FloatKind → ComplexKind
of_parts FloatKind.float32 = ComplexKind.complex64
of_parts FloatKind.float64 = ComplexKind.complex128

unfoldable pub builtin_complex : Value → List Value → S Value
builtin_complex (Value.float k a) args = do
  y ← pure_of (arg args 1)
  b ← pure_of (assert_float k y)
  pure (Value.complex (of_parts k) a b)
builtin_complex _ args = throw (message illegal_operand)

unfoldable pub builtin_close : Option ℕ → S Value
builtin_close none = throw (runtime close_of_nil)
builtin_close (some c) = λ s.
    if (s.chans c).closed
    then throw (runtime close_of_closed) s
    else gives Value.nil_value
        (record s { chans = put s.chans c (record (s.chans c) { closed = true }) })

unfoldable pub builtin_wrapnilchk : List Value → S Value
builtin_wrapnilchk args = do
  recv ← pure_of (arg args 0)
  p ← pure_of (assert_pointer recv)
  elim p [
    | some a ↦ pure (Value.pointer (some a))
    | none ↦
        pure_of (arg args 1) >>= λ _. pure_of (arg args 2) >>= λ _. throw (message nil_receiver)
  ]

-- the text that print and println write; `ln` says which of them
unfoldable pub printed : (Value → S (List ℕ)) → Bool → List Value → S (List ℕ)
printed text ln [] = pure (if ln then 10 ∷ [] else [])
printed text ln (v ∷ []) = do t ← text v; pure (if ln then t ++ (10 ∷ []) else t)
printed text ln (v ∷ w ∷ vs) = do
  t ← text v
  u ← printed text ln (w ∷ vs)
  pure (if ln then t ++ (32 ∷ u) else t ++ u)

abbrev pub recovering : Store → Result Value × Stack → End Value
recovering s (ok v, frames) = value v (record { store = s; frames = frames })
recovering s (panics p, frames) = World.raise p (record { store = s; frames = frames })

module _ (host : Host) where
  abbrev print : Bool → List Value → S Value
  print ln args = printed (to_string host.format host.depth) ln args >>= λ t.
      host.print t >>= λ _. pure Value.nil_value

  abbrev appended : List Value → S Value
  appended [] = throw (runtime index_out_of_range)
  appended (v ∷ []) = pure v
  appended (v ∷ w ∷ vs) = on_heap (builtin_append host.grow v (some w))

  -- recover reads the frames, all else the store
  unfoldable pub call_builtin : Program → Builtin → List Value → W Value
  unfolding builtin_len builtin_cap builtin_real builtin_imag builtin_complex builtin_close printed
      to_string builtin_wrapnilchk map_delete builtin_copy builtin_append do_recover
  call_builtin prog Builtin.append args = lift (appended args)
  call_builtin prog Builtin.copy args = lift (
      pure_of (arg args 1) >>= λ s.
      pure_of (arg args 0) >>= λ d. on_heap (builtin_copy host.grow d s))
  call_builtin prog Builtin.close args =
      lift (pure_of (arg args 0) >>= λ x. pure_of (as_chan x) >>= builtin_close)
  call_builtin prog Builtin.delete args = lift (
      pure_of (arg args 0) >>= λ m. pure_of (arg args 1) >>= λ k.
      map_delete host.machine host.depth m k >>= λ _. pure Value.nil_value)
  call_builtin prog Builtin.print args = lift (print false args)
  call_builtin prog Builtin.println args = lift (print true args)
  call_builtin prog Builtin.len args = lift (pure_of (arg args 0) >>= builtin_len)
  call_builtin prog Builtin.cap args = lift (pure_of (arg args 0) >>= builtin_cap)
  call_builtin prog Builtin.real args =
      lift (pure_of (arg args 0) >>= λ x. pure_of (builtin_real x))
  call_builtin prog Builtin.imag args =
      lift (pure_of (arg args 0) >>= λ x. pure_of (builtin_imag x))
  call_builtin prog Builtin.complex args =
      lift (pure_of (arg args 0) >>= λ x. builtin_complex x args)
  call_builtin prog Builtin.panic args = lift (pure_of (arg args 0) >>= λ x. throw (target x))
  call_builtin prog Builtin.recover args =
      λ w. recovering w.store (do_recover prog.error_string prog.text prog.disable_recover w.frames)
  call_builtin prog Builtin.wrapnilchk args = lift (builtin_wrapnilchk args)
  call_builtin prog Builtin.unknown args = lift (throw (message unknown_builtin))
