-- ===== src/Utf8/Laws.antt =====
-- Decoding what was encoded.
use temporal_determinizer.Prelude.{
  ℕ, ◌+◌, ◌-◌, ◌<◌, ◌≤◌, ◌≡◌, refl, ap, ◌∙◌, true, List, [], ◌∷◌, ◌++◌, ltb, arith, if◌then◌else◌,
  Bool-cases, inl, inr, ◌==◌, ◌/◌, ◌%◌, ◌*◌,
}
use temporal_determinizer.Utf8.{
  encode, decode, runes, runes_from, string_of, is_scalar, three, four,
}

abbrev pub AllScalar : List ℕ → Type 0
AllScalar [] = Unit
AllScalar (r ∷ rs) = (is_scalar r ≡ true) × AllScalar rs

abbrev append_assoc : (xs ys zs : List ℕ) → (xs ++ ys) ++ zs ≡ xs ++ (ys ++ zs)
append_assoc [] ys zs = refl
append_assoc (x ∷ xs) ys zs = ap (λ r. x ∷ r) (append_assoc xs ys zs)

decode_one : (r : ℕ) (s : List ℕ) → r < 128 → decode r s ≡ (r, 1)
unfolding decode
decode_one r s h = ground arith

decode_two :
    (r : ℕ) (s : List ℕ) → 128 ≤ r → r < 2048 → decode (192 + r / 64) ((128 + r % 64) ∷ s) ≡ (r, 2)
unfolding decode
decode_two r s h g = ground arith

first_of_three : (a : ℕ) (s : List ℕ) → 224 ≤ a → a < 240 → decode a s ≡ three a s
unfolding decode
first_of_three a s h g = ground arith

first_of_four : (a : ℕ) (s : List ℕ) → 240 ≤ a → a < 245 → decode a s ≡ four a s
unfolding decode
first_of_four a s h g = ground arith

three_lem :
    (a b c : ℕ) (s : List ℕ)
    → (if a == 224 then 160 else 128) ≤ b
    → b ≤ (if a == 237 then 159 else 191)
    → 128 ≤ c
    → c ≤ 191
    → three a (b ∷ c ∷ s) ≡ ((a - 224) * 4096 + (b - 128) * 64 + (c - 128), 3)
three_lem a b c s h g i j = ground arith

four_lem :
    (a b c d : ℕ) (s : List ℕ)
    → (if a == 240 then 144 else 128) ≤ b
    → b ≤ (if a == 244 then 143 else 191)
    → 128 ≤ c
    → c ≤ 191
    → 128 ≤ d
    → d ≤ 191
    → four a (b ∷ c ∷ d ∷ s)
      ≡ ((a - 240) * 262144 + (b - 128) * 4096 + (c - 128) * 64 + (d - 128), 4)
four_lem a b c d s h g i j k l = ground arith

decode_three :
    (r : ℕ) (s : List ℕ)
    → 2048 ≤ r
    → r < 65536
    → is_scalar r ≡ true
    → decode (224 + r / 4096) ((128 + (r / 64) % 64) ∷ (128 + r % 64) ∷ s) ≡ (r, 3)
decode_three r s h g k =
    first_of_three (224 + r / 4096) _ (omega arith) (omega arith)
    ∙ three_lem (224 + r / 4096) (128 + (r / 64) % 64) (128 + r % 64) s (ground arith)
        (ground arith) (omega arith) (omega arith)
    ∙ ap (λ z. (z, 3)) (omega arith)

decode_four :
    (r : ℕ) (s : List ℕ)
    → 65536 ≤ r
    → r < 1114112
    → decode
        (240 + r / 262144)
        ((128 + (r / 4096) % 64) ∷ (128 + (r / 64) % 64) ∷ (128 + r % 64) ∷ s)
      ≡ (r, 4)
decode_four r s h g =
    first_of_four (240 + r / 262144) _ (omega arith) (omega arith)
    ∙ four_lem (240 + r / 262144) (128 + (r / 4096) % 64) (128 + (r / 64) % 64) (128 + r % 64) s
        (ground arith) (ground arith) (omega arith) (omega arith) (omega arith) (omega arith)
    ∙ ap (λ z. (z, 4)) (omega arith)

runes-encode :
    (r : ℕ) (s : List ℕ) → is_scalar r ≡ true → runes_from 0 (encode r ++ s) ≡ r ∷ runes_from 0 s
unfolding runes encode
runes-encode r s h = elim (Bool-cases (ltb r 128)) [
  | inl a ↦ rw (a, decode_one r s (ground arith)) refl
  | inr a ↦ elim (Bool-cases (ltb r 2048)) [
    | inl b ↦ rw (a, b, decode_two r s (ground arith) (ground arith)) refl
    | inr b ↦ elim (Bool-cases (ltb r 65536)) [
      | inl c ↦ rw (a, b, h, c, decode_three r s (ground arith) (ground arith) h) refl
      | inr c ↦ rw (a, b, h, c, decode_four r s (ground arith) (ground arith)) refl
    ]
  ]
]

-- Encoding scalar values as a string and decoding the string gives the same values.
pub runes-string_of : (rs : List ℕ) → AllScalar rs → runes (string_of rs) ≡ rs
unfolding runes string_of
runes-string_of [] h = refl
runes-string_of (r ∷ rs) (h, hs) =
    runes-encode r (string_of rs) h ∙ ap (λ z. r ∷ z) (runes-string_of rs hs)
