-- ===== src/Utf8.antt =====
-- UTF-8 as package unicode/utf8 encodes and decodes it, for the conversions between strings and
-- runes of interpreter/internal/interp/ops.go and the string iterator of value.go.
-- A string is a list of bytes; an error is the rune U+FFFD with the size 1.
pub mod Laws
use temporal_determinizer.Prelude.{
  ℕ, zero, suc, ◌+◌, ◌-◌, ◌*◌, ◌/◌, ◌%◌, Bool, true, false, ◌&&◌, ◌||◌, List, [], ◌∷◌, ◌++◌, ltb,
  leb, ◌==◌, if◌then◌else◌,
}

abbrev pub replacement : ℕ
replacement = 65533

-- a code point that is no surrogate
abbrev pub is_scalar : ℕ → Bool
is_scalar r = ltb r 55296 || (leb 57344 r && ltb r 1114112)

-- utf8.EncodeRune; what is no scalar value is encoded as U+FFFD
unfoldable pub encode : ℕ → List ℕ
encode r =
    if ltb r 128
    then r ∷ []
    else if ltb r 2048
    then (192 + r / 64) ∷ (128 + r % 64) ∷ []
    else if is_scalar r
    then (if ltb r 65536
        then (224 + r / 4096) ∷ (128 + (r / 64) % 64) ∷ (128 + r % 64) ∷ []
        else (240 + r / 262144)
          ∷ (128 + (r / 4096) % 64)
          ∷ (128 + (r / 64) % 64)
          ∷ (128 + r % 64)
          ∷ [])
    else 239 ∷ 191 ∷ 189 ∷ []

abbrev pub bad : ℕ × ℕ
bad = (replacement, 1)

abbrev pub between : ℕ → ℕ → ℕ → Bool
between lo hi b = leb lo b && leb b hi

-- the sequences of two, three and four bytes, from the first byte
abbrev pub two : ℕ → List ℕ → ℕ × ℕ
two a (b ∷ s) = if between 128 191 b then ((a - 192) * 64 + (b - 128), 2) else bad
two a _ = bad

abbrev pub three : ℕ → List ℕ → ℕ × ℕ
three a (b ∷ c ∷ s) =
    if between (if a == 224 then 160 else 128) (if a == 237 then 159 else 191) b
      && between 128 191 c
    then ((a - 224) * 4096 + (b - 128) * 64 + (c - 128), 3)
    else bad
three a _ = bad

abbrev pub four : ℕ → List ℕ → ℕ × ℕ
four a (b ∷ c ∷ d ∷ s) =
    if between (if a == 240 then 144 else 128) (if a == 244 then 143 else 191) b
      && (between 128 191 c && between 128 191 d)
    then ((a - 240) * 262144 + (b - 128) * 4096 + (c - 128) * 64 + (d - 128), 4)
    else bad
four a _ = bad

-- utf8.DecodeRune of a string that starts with the byte a: the rune and its size
unfoldable pub decode : ℕ → List ℕ → ℕ × ℕ
decode a s =
    if ltb a 128
    then (a, 1)
    else if ltb a 194
    then bad
    else if ltb a 224
    then two a s
    else if ltb a 240
    then three a s
    else if ltb a 245
    then four a s
    else bad

-- []rune(s): the first `skip` bytes belong to a rune that was decoded
unfoldable pub runes_from : ℕ → List ℕ → List ℕ
unfolding decode
runes_from skip [] = []
runes_from (suc k) (a ∷ s) = runes_from k s
runes_from zero (a ∷ s) = (decode a s).0 ∷ runes_from ((decode a s).1 - 1) s

unfoldable pub runes : List ℕ → List ℕ
unfolding runes_from
runes s = runes_from zero s

-- string(rs)
unfoldable pub string_of : List ℕ → List ℕ
unfolding encode
string_of [] = []
string_of (r ∷ rs) = encode r ++ string_of rs
