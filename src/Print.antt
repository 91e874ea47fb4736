-- ===== src/Print.antt =====
-- writeValue and toString of interpreter/internal/interp/value.go. What package fmt writes for a value
-- without elements, the text of a type, and the order of the entries of a map are parameters. Texts
-- are lists of bytes.
use temporal_determinizer.Prelude.{ℕ, zero, suc, List, [], ◌∷◌, ◌++◌, map, Option, none, some}
use temporal_determinizer.Types.{GoType}
use temporal_determinizer.Value.{
  Value, Values, Result, ok, panics, ◌>>=◌, nil, cons, exhausted, runtime, nil_dereference,
}
use temporal_determinizer.Slices.{contents, header_contents, header_of}
use temporal_determinizer.Store.{Store, S, pure_of}

-- fmt with %v, %p or <%T>, and the entries of a map as a range over it gives them
pub record Format : Type 0 where
  pub verb : Value → List ℕ
  pub type_text : Option GoType → List ℕ
  pub listing : Value → Store → List (Value × Value)

abbrev Text : Type 0
Text = Result (List ℕ)

abbrev joined : Text → List ℕ → Text → Text
joined t s u = t >>= λ a. u >>= λ b. ok (a ++ (s ++ b))

-- the texts with a separator between them
abbrev separated : List ℕ → List Text → Text
separated s [] = ok []
separated s (t ∷ []) = t
separated s (t ∷ u ∷ ts) = joined t s (separated s (u ∷ ts))

-- the texts with a separator before each
abbrev preceded : List ℕ → List Text → Text
preceded s [] = ok []
preceded s (t ∷ ts) = joined (ok []) s (separated s (t ∷ ts))

abbrev enclosed : List ℕ → List ℕ → Text → Text
enclosed a b t = t >>= λ c. ok (a ++ (c ++ b))

abbrev of_tuple : (Value → Text) → Values → List Text
of_tuple w nil = []
of_tuple w (cons v vs) = w v ∷ of_tuple w vs

-- " ", ", ", "map[", "]" and "<nil>"
abbrev space : List ℕ
space = 32 ∷ []

abbrev comma : List ℕ
comma = 44 ∷ 32 ∷ []

abbrev map_start : List ℕ
map_start = 109 ∷ 97 ∷ 112 ∷ 91 ∷ []

abbrev bracket : List ℕ
bracket = 93 ∷ []

abbrev nil_text : List ℕ
nil_text = 60 ∷ 110 ∷ 105 ∷ 108 ∷ 62 ∷ []

-- a key and its element, with a colon between
abbrev entry_text : (Value → Text) → Value × Value → Text
entry_text w e = joined (w e.0) (58 ∷ []) (w e.1)

module _ (f : Format) where
  -- `depth` bounds the nesting of values
  unfoldable pub write_value : ℕ → Store → Value → Text
  unfolding contents
  write_value zero s v = panics exhausted
  write_value (suc n) s (Value.builtin_map a) =
      enclosed map_start bracket
        (separated space (map (entry_text (write_value n s)) (f.listing (Value.builtin_map a) s)))
  write_value (suc n) s (Value.hash_map a) =
      enclosed map_start bracket
        (preceded space (map (entry_text (write_value n s)) (f.listing (Value.hash_map a) s)))
  write_value (suc n) s (Value.pointer none) = ok nil_text
  write_value (suc n) s (Value.iface t v) =
      enclosed (40 ∷ f.type_text t ++ comma) (41 ∷ []) (write_value n s v)
  write_value (suc n) s (Value.structure b k) =
      enclosed (123 ∷ []) (125 ∷ [])
        (separated space (map (write_value n s) (contents s.heap.cell b k)))
  write_value (suc n) s (Value.array b k) =
      enclosed (91 ∷ []) bracket
        (separated space (map (write_value n s) (contents s.heap.cell b k)))
  write_value (suc n) s (Value.slice h) =
      enclosed (91 ∷ []) bracket
        (separated space (map (write_value n s) (header_contents s.heap.cell (header_of h))))
  write_value (suc n) s (Value.rtype none) = panics (runtime nil_dereference)
  write_value (suc n) s (Value.rtype (some t)) = ok (f.type_text (some t))
  write_value (suc n) s (Value.tuple vs) =
      enclosed (40 ∷ []) (41 ∷ []) (separated comma (of_tuple (write_value n s) vs))
  write_value (suc n) s v = ok (f.verb v)

  unfoldable pub to_string : ℕ → Value → S (List ℕ)
  unfolding write_value
  to_string depth v s = pure_of (write_value depth s v) s
