-- ===== src/Maps/Texts.antt =====
-- The iterator over a string, stringIter of interpreter/internal/interp/value.go, next to the
-- conversion of the string to its runes.
use temporal_determinizer.Prelude.{
  ℕ, zero, suc, ◌+◌, ◌-◌, ◌≤◌, ◌≡◌, refl, ap, ◌∙◌, sym, arith, Bool, true, false, List, [], ◌∷◌,
  length, map, ltb, Option, none, some, if◌then◌else◌,
}
use temporal_determinizer.Utf8.{between, bad, two, three, four, decode, runes, runes_from}
use temporal_determinizer.Value.{Value, Values}
use temporal_determinizer.Conv.{rune}
use temporal_determinizer.Slices.{drop}
use temporal_determinizer.Store.{Iter, Store, Ended, gives, throws, S, put}
use temporal_determinizer.Maps.{next_text, advance, next, range_iter}

abbrev Order : Type 0
Order = Value → ℕ → S (Option (Value × Value))

-- ok and the rune of what next gave
abbrev rune_of : Value → Option Value
rune_of
      (Value.tuple (Values.cons (Value.boolean true) (Values.cons i (Values.cons r Values.nil)))) =
    some r
rune_of _ = none

abbrev before : {A : Type 0} → A → Option (List A) → Option (List A)
before a none = none
before a (some as') = some (a ∷ as')

-- after next: the rune, before those that `rest` gives
abbrev collected : (Store → Option (List Value)) → Ended Value → Option (List Value)
collected rest (throws p s) = none
collected rest (gives v s) = elim (rune_of v) [ none ↦ some [] | some r ↦ before r (rest s) ]

-- the runes that next gives until it gives no more; none if the fuel is out
unfoldable pub collect : ℕ → Order → Value → Store → Option (List Value)
unfolding next
collect zero order it s = none
collect (suc n) order it s = collected (collect n order it) (next order it s)

-- for _, r := range s
unfoldable pub range_text : ℕ → Order → List ℕ → Store → Option (List Value)
unfolding range_iter collect
range_text n order t s = elim (range_iter (Value.string t) s) [
  | throws p u ↦ none
  | gives it u ↦ collect n order it u
]

put-same : {A : Type 0} (f : ℕ → A) (a : ℕ) (v : A) → put f a v a ≡ v
put-same f a v = ground arith

if_pos : (b : Bool) (x y : ℕ × ℕ) → 1 ≤ x.1 → 1 ≤ y.1 → 1 ≤ (if b then x else y).1
if_pos true x y h k = h
if_pos false x y h k = k

two_pos : (a : ℕ) (s : List ℕ) → 1 ≤ (two a s).1
two_pos a [] = omega arith
two_pos a (b ∷ s) = if_pos (between 128 191 b) _ bad (omega arith) (omega arith)

three_pos : (a : ℕ) (s : List ℕ) → 1 ≤ (three a s).1
three_pos a [] = omega arith
three_pos a (b ∷ []) = omega arith
three_pos a (b ∷ c ∷ s) = if_pos _ (_, 3) bad (omega arith) (omega arith)

four_pos : (a : ℕ) (s : List ℕ) → 1 ≤ (four a s).1
four_pos a [] = omega arith
four_pos a (b ∷ []) = omega arith
four_pos a (b ∷ c ∷ []) = omega arith
four_pos a (b ∷ c ∷ d ∷ s) = if_pos _ (_, 4) bad (omega arith) (omega arith)

size_pos : (a : ℕ) (s : List ℕ) → 1 ≤ (decode a s).1
unfolding decode
size_pos a s =
    if_pos (ltb a 128) (a, 1) _ (omega arith)
      (if_pos (ltb a 194) bad _ (omega arith) (
        if_pos (ltb a 224) (two a s) _ (two_pos a s) (
          if_pos (ltb a 240) (three a s) _ (three_pos a s)
            (if_pos (ltb a 245) (four a s) bad (four_pos a s) (omega arith)))))

runes_from-drop : (k : ℕ) (s : List ℕ) → runes_from k s ≡ runes (drop s k)
unfolding runes runes_from drop
runes_from-drop zero [] = refl
runes_from-drop zero (a ∷ s) = refl
runes_from-drop (suc k) [] = refl
runes_from-drop (suc k) (a ∷ s) = runes_from-drop k s

drop-tail : (a : ℕ) (t : List ℕ) (n : ℕ) → 1 ≤ n → drop (a ∷ t) n ≡ drop t (n - 1)
unfolding drop
drop-tail a t zero h = absurd (omega (arith, h))
drop-tail a t (suc n) h = ap (drop t) (omega arith)

length-drop : (t : List ℕ) (n : ℕ) → length (drop t n) ≤ length t
unfolding drop
length-drop [] zero = omega arith
length-drop [] (suc n) = omega arith
length-drop (a ∷ t) zero = omega arith
length-drop (a ∷ t) (suc n) = omega (arith, length-drop t n)

-- after a step at the string b ∷ t
abbrev rest_of : ℕ → List ℕ → List ℕ
rest_of b t = drop (b ∷ t) (decode b t).1

runes-cons : (b : ℕ) (t : List ℕ) → runes (b ∷ t) ≡ (decode b t).0 ∷ runes (rest_of b t)
unfolding runes runes_from
runes-cons b t =
    ap (λ l. (decode b t).0 ∷ l)
      (runes_from-drop _ t ∙ ap runes (sym (drop-tail b t (decode b t).1 (size_pos b t))))

rest_of-length : (b : ℕ) (t : List ℕ) → length (rest_of b t) ≤ length t
rest_of-length b t = rw (drop-tail b t (decode b t).1 (size_pos b t)) (length-drop t _)

runes-nil : runes [] ≡ []
unfolding runes runes_from
runes-nil = refl

-- the store with the iterator a over a rest of a string, at an offset
abbrev over : Store → ℕ → List ℕ → ℕ → Store
over s a t i = record s { iters = put s.iters a (Iter.text t i) }

collect_all :
    (n : ℕ) (order : Order) (a : ℕ) (s : Store) (t : List ℕ) (i : ℕ)
    → s.iters a ≡ Iter.text t i
    → length t ≤ n
    → collect (suc n) order (Value.iter a) s ≡ some (map rune (runes t))
unfolding collect advance next_text
collect_all n order a s [] i e h =
    ap (λ j. collected (collect n order (Value.iter a)) (advance order a j s)) e
    ∙ ap (λ l. some (map rune l)) (sym runes-nil)
collect_all zero order a s (b ∷ t) i e h = absurd (omega (arith, h))
collect_all (suc n) order a s (b ∷ t) i e h =
    ap (λ j. collected (collect (suc n) order (Value.iter a)) (advance order a j s)) e
    ∙ ap (before (rune (decode b t).0)) (
        collect_all n order a (over s a (rest_of b t) (i + (decode b t).1)) (rest_of b t)
          (i + (decode b t).1) (put-same s.iters a _) (omega (arith, h, rest_of-length b t)))
    ∙ ap (λ l. some (map rune l)) (sym (runes-cons b t))

-- Ranging over a string gives, in a finite number of steps, the runes that the conversion of the
-- string to a slice of runes gives, whatever bytes the string has.
pub range_text-runes :
    (order : Order) (t : List ℕ) (s : Store)
    → range_text (suc (length t)) order t s ≡ some (map rune (runes t))
unfolding range_text
range_text-runes order t s =
    let a = s.next_iter in
    let opened = record s { next_iter = suc a; iters = put s.iters a (Iter.text t 0) } in
    collect_all (length t) order a opened t 0 (put-same s.iters a _) (omega arith)
