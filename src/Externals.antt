-- ===== src/Externals.antt =====
-- interpreter/internal/interp/external.go: the functions of the standard library that the interpreter
-- replaces, but for those of package reflect.
-- An argument is read when the call uses it; texts are lists of bytes.
pub mod Table
use temporal_determinizer.Prelude.{
  ℕ, suc, ◌^◌, ◌-◌, Bool, true, false, ◌&&◌, ◌||◌, List, [], ◌∷◌, ◌++◌, length, ◌==◌, if◌then◌else◌,
}
use temporal_determinizer.Word.{IntKind}
use temporal_determinizer.Types.{FloatKind}
use temporal_determinizer.Types.Identity.{ids_eq}
use temporal_determinizer.Value.{Value, nil_value, nil, cons, exit}
use temporal_determinizer.Equality.{
  Machine, assert_integer, assert_float, assert_string, assert_iface,
}
use temporal_determinizer.Slices.{header_contents, header_of, as_slice}
use temporal_determinizer.Store.{S, gives, pure, throw, ◌>>=◌, pure_of, key_eq}
use temporal_determinizer.Builtins.{arg}
use temporal_determinizer.Conv.{rune}
use temporal_determinizer.Print.{Format, to_string}
use temporal_determinizer.Utf8.{replacement, decode}

-- what the standard library computes: floats are bit patterns, an int is a word of 64 bits
pub record Library : Type 0 where
  pub abs : ℕ → ℕ
  pub exp : ℕ → ℕ
  pub log : ℕ → ℕ
  pub min : ℕ → ℕ → ℕ
  pub inf : ℕ → ℕ
  pub ldexp : ℕ → ℕ → ℕ
  pub is_nan : ℕ → Bool
  pub nan : ℕ
  pub count : List ℕ → List ℕ → ℕ
  pub index : List ℕ → List ℕ → ℕ
  pub index_byte : List ℕ → ℕ → ℕ
  pub replace : List ℕ → List ℕ → List ℕ → ℕ → List ℕ
  pub getenv : List ℕ → List ℕ
  pub max_procs : ℕ
  pub num_cpu : ℕ
  pub go_root : List ℕ
  -- what acts on the process or lets other goroutines run; goexit ends the goroutine
  pub breakpoint : S (Unit {0})
  pub gc : S (Unit {0})
  pub gosched : S (Unit {0})
  pub goexit : S (Unit {0})
  pub sleep : ℕ → S (Unit {0})

abbrev int : ℕ → Value
int n = Value.integer IntKind.int n

abbrev float64 : ℕ → Value
float64 b = Value.float FloatKind.float64 b

-- args[i] with an assertion of its type
abbrev word_arg : IntKind → List Value → ℕ → S ℕ
word_arg k args i = pure_of (arg args i) >>= λ v. pure_of (assert_integer k v)

abbrev float_arg : FloatKind → List Value → ℕ → S ℕ
float_arg k args i = pure_of (arg args i) >>= λ v. pure_of (assert_float k v)

abbrev string_arg : List Value → ℕ → S (List ℕ)
string_arg args i = pure_of (arg args i) >>= λ v. pure_of (assert_string v)

abbrev slice_arg : List Value → ℕ → S (List Value)
slice_arg args i = pure_of (arg args i) >>= λ v.
    pure_of (as_slice v) >>= λ h. λ s. gives (header_contents s.heap.cell (header_of h)) s

module _ (m : Machine) where
  -- the loop of bytes.Equal over two slices of one length
  unfoldable pub same_elements : List Value → List Value → Bool
  unfolding key_eq
  same_elements (x ∷ xs) (y ∷ ys) = key_eq m x y && same_elements xs ys
  same_elements _ _ = true

  unfoldable pub bytes_equal : List Value → S Value
  unfolding same_elements
  bytes_equal args = do
    a ← slice_arg args 0
    b ← slice_arg args 1
    pure (Value.boolean (if length a == length b then same_elements a b else false))

-- the loop of bytes.IndexByte, from the index `i`; -1 if the byte is not there
unfoldable pub byte_from : ℕ → ℕ → List Value → S Value
byte_from c i [] = pure (int (2 ^ 64 - 1))
byte_from c i (v ∷ vs) = do
  b ← pure_of (assert_integer IntKind.uint8 v)
  elim (b == c) [ true ↦ pure (int i) | false ↦ byte_from c (suc i) vs ]

unfoldable pub bytes_index_byte : List Value → S Value
unfolding byte_from
bytes_index_byte args = do
  vs ← slice_arg args 0
  c ← word_arg IntKind.uint8 args 1
  byte_from c 0 vs

unfoldable pub float64_from_bits : List Value → S Value
float64_from_bits args = do b ← word_arg IntKind.uint64 args 0; pure (float64 b)

unfoldable pub float64_bits : List Value → S Value
float64_bits args = do b ← float_arg FloatKind.float64 args 0; pure (Value.integer IntKind.uint64 b)

unfoldable pub float32_from_bits : List Value → S Value
float32_from_bits args = do
  b ← word_arg IntKind.uint32 args 0
  pure (Value.float FloatKind.float32 b)

unfoldable pub float32_bits : List Value → S Value
float32_bits args = do b ← float_arg FloatKind.float32 args 0; pure (Value.integer IntKind.uint32 b)

-- panic(exitPanic(args[0].(int)))
unfoldable pub os_exit : List Value → S Value
os_exit args = do n ← word_arg IntKind.int args 0; throw (exit n)

-- utf8.DecodeRuneInString; an empty string gives U+FFFD with the size 0
unfoldable pub first_rune : List ℕ → ℕ × ℕ
unfolding decode
first_rune [] = (replacement, 0)
first_rune (b ∷ bs) = decode b bs

unfoldable pub decode_rune_in_string : List Value → S Value
unfolding first_rune
decode_rune_in_string args = do
  t ← string_arg args 0
  pure (Value.tuple (cons (rune (first_rune t).0) (cons (int (first_rune t).1) nil)))

abbrev is_string : Value → Bool
is_string (Value.string t) = true
is_string _ = false

module _ (l : Library) where
  unfoldable pub math_abs : List Value → S Value
  math_abs args = do a ← float_arg FloatKind.float64 args 0; pure (float64 (l.abs a))

  unfoldable pub math_exp : List Value → S Value
  math_exp args = do a ← float_arg FloatKind.float64 args 0; pure (float64 (l.exp a))

  unfoldable pub math_log : List Value → S Value
  math_log args = do a ← float_arg FloatKind.float64 args 0; pure (float64 (l.log a))

  unfoldable pub math_min : List Value → S Value
  math_min args = do
    a ← float_arg FloatKind.float64 args 0
    b ← float_arg FloatKind.float64 args 1
    pure (float64 (l.min a b))

  unfoldable pub math_nan : List Value → S Value
  math_nan args = pure (float64 l.nan)

  unfoldable pub math_is_nan : List Value → S Value
  math_is_nan args = do a ← float_arg FloatKind.float64 args 0; pure (Value.boolean (l.is_nan a))

  unfoldable pub math_inf : List Value → S Value
  math_inf args = do n ← word_arg IntKind.int args 0; pure (float64 (l.inf n))

  unfoldable pub math_ldexp : List Value → S Value
  math_ldexp args = do
    a ← float_arg FloatKind.float64 args 0
    n ← word_arg IntKind.int args 1
    pure (float64 (l.ldexp a n))

  unfoldable pub strings_count : List Value → S Value
  strings_count args = do s ← string_arg args 0; t ← string_arg args 1; pure (int (l.count s t))

  unfoldable pub strings_index_byte : List Value → S Value
  strings_index_byte args = do
    s ← string_arg args 0
    c ← word_arg IntKind.uint8 args 1
    pure (int (l.index_byte s c))

  unfoldable pub strings_index : List Value → S Value
  strings_index args = do s ← string_arg args 0; t ← string_arg args 1; pure (int (l.index s t))

  -- the second argument counts as the new text, the third as the old one
  unfoldable pub strings_replace : List Value → S Value
  strings_replace args = do
    s ← string_arg args 0
    new_text ← string_arg args 1
    old_text ← string_arg args 2
    n ← word_arg IntKind.int args 3
    pure (Value.string (l.replace s old_text new_text n))

  -- "GOSSAINTERP", "GOARCH" and "GOOS" with "1", "amd64" and "linux"
  unfoldable pub os_getenv : List Value → S Value
  os_getenv args = do
    name ← string_arg args 0
    pure (
        Value.string (
          if ids_eq name (71 ∷ 79 ∷ 83 ∷ 83 ∷ 65 ∷ 73 ∷ 78 ∷ 84 ∷ 69 ∷ 82 ∷ 80 ∷ [])
          then 49 ∷ []
          else if ids_eq name (71 ∷ 79 ∷ 65 ∷ 82 ∷ 67 ∷ 72 ∷ [])
          then 97 ∷ 109 ∷ 100 ∷ 54 ∷ 52 ∷ []
          else if ids_eq name (71 ∷ 79 ∷ 79 ∷ 83 ∷ [])
          then 108 ∷ 105 ∷ 110 ∷ 117 ∷ 120 ∷ []
          else l.getenv name))

  unfoldable pub runtime_breakpoint : List Value → S Value
  runtime_breakpoint args = l.breakpoint >>= λ u. pure nil_value

  -- the argument is ignored
  unfoldable pub runtime_gomaxprocs : List Value → S Value
  runtime_gomaxprocs args = pure (int l.max_procs)

  unfoldable pub runtime_goexit : List Value → S Value
  runtime_goexit args = l.goexit >>= λ u. pure nil_value

  unfoldable pub runtime_goroot : List Value → S Value
  runtime_goroot args = pure (Value.string l.go_root)

  unfoldable pub runtime_gc : List Value → S Value
  runtime_gc args = l.gc >>= λ u. pure nil_value

  unfoldable pub runtime_gosched : List Value → S Value
  runtime_gosched args = l.gosched >>= λ u. pure nil_value

  unfoldable pub runtime_num_cpu : List Value → S Value
  runtime_num_cpu args = pure (int l.num_cpu)

  unfoldable pub time_sleep : List Value → S Value
  time_sleep args = word_arg IntKind.int64 args 0 >>= λ n. l.sleep n >>= λ u. pure nil_value

module _ (f : Format) (depth : ℕ) where
  -- the loop of fmt.Sprint: `glued` says that no blank comes before the next value
  unfoldable pub sprint_from : Bool → List Value → S (List ℕ)
  unfolding to_string
  sprint_from glued [] = pure []
  sprint_from glued (v ∷ vs) = do
    (t, x) ← pure_of (assert_iface v)
    w ← to_string f depth x
    ws ← sprint_from (is_string x) vs
    pure ((if glued || is_string x then [] else 32 ∷ []) ++ (w ++ ws))

  -- no blank is written before the first value
  unfoldable pub sprint : List Value → S Value
  unfolding sprint_from
  sprint args = do vs ← slice_arg args 0; t ← sprint_from true vs; pure (Value.string t)
