-- ===== src/Tests/Externals.antt =====
-- Calls of external functions.
use temporal_determinizer.Prelude.{◌≡◌, refl, none, [], ◌∷◌}
use temporal_determinizer.Word.{IntKind}
use temporal_determinizer.Value.{Value, nil, cons, exit}
use temporal_determinizer.Slices.{contents}
use temporal_determinizer.Store.{Store, gives, throws}
use temporal_determinizer.Externals.{decode_rune_in_string, os_exit, bytes_index_byte}

-- the first rune of an accented e with an x behind it, and the bytes that it takes
decode_rune_in_string-accented :
    (s : Store)
    → decode_rune_in_string (Value.string (195 ∷ 169 ∷ 120 ∷ []) ∷ []) s
      ≡ gives
          (Value.tuple
            (cons (Value.integer IntKind.int32 233) (cons (Value.integer IntKind.int 2) nil)))
          s
unfolding decode_rune_in_string
decode_rune_in_string-accented s = refl

os_exit-throws : (s : Store) → os_exit (Value.integer IntKind.int 3 ∷ []) s ≡ throws (exit 3) s
unfolding os_exit
os_exit-throws s = refl

-- a byte is not in a nil slice: -1
bytes_index_byte-nil :
    (s : Store)
    → bytes_index_byte (Value.slice none ∷ Value.integer IntKind.uint8 7 ∷ []) s
      ≡ gives (Value.integer IntKind.int 18446744073709551615) s
unfolding bytes_index_byte contents
bytes_index_byte-nil s = refl
