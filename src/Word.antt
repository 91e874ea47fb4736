-- ===== src/Word.antt =====
-- Machine integers: the eleven integer types that interpreter/internal/interp/ops.go tells apart,
-- and Go's arithmetic on them. A value of a type is its bit pattern, a number below `modulus`;
-- `signed_value` is the integer that the pattern stands for. int, uint and uintptr have 64 bits.
pub mod Range
pub mod Signed
mod Congruence
pub mod Division
pub mod Shift
pub mod Order
pub mod Conversion
use temporal_determinizer.Prelude.{
  ℕ, ◌+◌, ◌-◌, ◌*◌, ◌/◌, ◌%◌, ◌^◌, ◌<◌, bit_and, bit_xor, Bool, true, false, xor, ◌&&◌, Option,
  none, some, ltb, leb, ◌==◌, if◌then◌else◌,
}
use temporal_determinizer.Prelude.Int.{ℤ, pos, negsuc, ltb_ℤ}

pub data IntKind : Type 0 where
  int int8 int16 int32 int64 uint uint8 uint16 uint32 uint64 uintptr : IntKind

abbrev pub width : IntKind → ℕ
width int = 64
width int8 = 8
width int16 = 16
width int32 = 32
width int64 = 64
width uint = 64
width uint8 = 8
width uint16 = 16
width uint32 = 32
width uint64 = 64
width uintptr = 64

abbrev pub is_signed : IntKind → Bool
is_signed int = true
is_signed int8 = true
is_signed int16 = true
is_signed int32 = true
is_signed int64 = true
is_signed uint = false
is_signed uint8 = false
is_signed uint16 = false
is_signed uint32 = false
is_signed uint64 = false
is_signed uintptr = false

abbrev pub modulus : IntKind → ℕ
modulus k = 2 ^ width k

abbrev pub half : IntKind → ℕ
half k = 2 ^ (width k - 1)

-- the pattern is that of a negative number
abbrev pub is_neg : IntKind → ℕ → Bool
is_neg k a = is_signed k && leb (half k) a

-- the absolute value
abbrev pub magnitude : IntKind → ℕ → ℕ
magnitude k a = if is_neg k a then modulus k - a else a

abbrev pub signed_value : IntKind → ℕ → ℤ
signed_value k a = if is_neg k a then negsuc (modulus k - a - 1) else pos a

unfoldable pub add : IntKind → ℕ → ℕ → ℕ
add k a b = (a + b) % modulus k

unfoldable pub sub : IntKind → ℕ → ℕ → ℕ
sub k a b = (a + modulus k - b) % modulus k

unfoldable pub mul : IntKind → ℕ → ℕ → ℕ
mul k a b = (a * b) % modulus k

-- -x
unfoldable pub neg : IntKind → ℕ → ℕ
neg k a = (modulus k - a) % modulus k

-- a number with its sign, reduced to the type
abbrev pub with_sign : IntKind → Bool → ℕ → ℕ
with_sign k negative n = if negative then (modulus k - n) % modulus k else n % modulus k

-- x / y rounds towards zero, for y other than zero
unfoldable pub quo : IntKind → ℕ → ℕ → ℕ
quo k a b = with_sign k (xor (is_neg k a) (is_neg k b)) (magnitude k a / magnitude k b)

-- x % y has the sign of x
unfoldable pub rem : IntKind → ℕ → ℕ → ℕ
rem k a b = with_sign k (is_neg k a) (magnitude k a % magnitude k b)

-- ^x
unfoldable pub complement : IntKind → ℕ → ℕ
complement k a = modulus k - 1 - a

-- x &^ y
unfoldable pub and_not : IntKind → ℕ → ℕ → ℕ
unfolding complement
and_not k a b = bit_and a (complement k b)

-- x << n: a count of at least the width leaves nothing
unfoldable pub shl : IntKind → ℕ → ℕ → ℕ
shl k a n = if ltb n (width k) then (a * 2 ^ n) % modulus k else 0

-- x >> n: the sign bit comes in from the left
unfoldable pub shr : IntKind → ℕ → ℕ → ℕ
shr k a n =
    if is_neg k a
    then (if ltb n (width k) then modulus k - 1 - (modulus k - 1 - a) / 2 ^ n else modulus k - 1)
    else if ltb n (width k)
    then a / 2 ^ n
    else 0

unfoldable pub less : IntKind → ℕ → ℕ → Bool
less k a b = ltb_ℤ (signed_value k a) (signed_value k b)

-- T(x): the low bits of the pattern, after sign extension to 64 bits
unfoldable pub extend64 : IntKind → ℕ → ℕ
extend64 k a = if is_neg k a then 2 ^ 64 - (modulus k - a) else a

unfoldable pub convert : IntKind → IntKind → ℕ → ℕ
unfolding extend64
convert dst src a = extend64 src a % modulus dst

-- the widest type of the same signedness
abbrev pub widest : IntKind → IntKind
widest k = if is_signed k then int64 else uint64
