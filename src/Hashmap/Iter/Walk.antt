-- ===== src/Hashmap/Iter/Walk.antt =====
-- A walk of hashmapIter of interpreter/internal/interp/value.go over a whole map.
use mathlib.Core.List.Perm
use mathlib.Core.List.{Perm, Permᴰ, append_assoc, perm_append_comm}
use mathlib.Core.Path.{ap₂}
use temporal_determinizer.Prelude.{
  ℕ, zero, suc, ◌+◌, ◌≡◌, refl, sym, ap, ◌∙◌, arith, List, [], ◌∷◌, ◌++◌, Option, none, some,
  length, length-append,
}
use temporal_determinizer.Hashmap.{Bucket, Hashmap, Hashable}
use temporal_determinizer.Hashmap.Buckets.{IsLawful}
use temporal_determinizer.Hashmap.Laws.{Table, total, IsValid}
use temporal_determinizer.Hashmap.Iter.{HashIter, all_buckets, entries, iter_of, next_entry, next}

module _ {K V : Type 0} where
  -- the entries of all buckets
  abbrev pub joined : List (Bucket K V) → List (K × V)
  joined [] = []
  joined (b ∷ bs) = b ++ joined bs

  abbrev pub entries_of : Table K V → List (K × V)
  entries_of t = joined (all_buckets t)

  -- what n calls of next give, and the iterator after them
  unfoldable pub walk : ℕ → HashIter K V → List (Option (K × V)) × HashIter K V
  walk zero it = ([], it)
  walk (suc n) it = let (o, it') = next it in let (os, end) = walk n it' in (o ∷ os, end)

  abbrev pub all_some : List (K × V) → List (Option (K × V))
  all_some [] = []
  all_some (e ∷ es) = some e ∷ all_some es

  -- the entries that an iterator has still to give
  abbrev left : HashIter K V → List (K × V)
  left it = it.cur ++ joined it.buckets

  next_entry-cons :
      (b : Bucket K V) (bs : List (Bucket K V)) (e : K × V) (es : List (K × V))
      → b ++ joined bs ≡ e ∷ es
      → ((next_entry b bs).0 ≡ some e) × (left (next_entry b bs).1 ≡ es)
  unfolding next_entry
  next_entry-cons (d ∷ b) bs e es h = ground arith
  next_entry-cons [] [] e es h = cc
  next_entry-cons [] (b ∷ bs) e es h = next_entry-cons b bs e es h

  next_entry-nil :
      (b : Bucket K V) (bs : List (Bucket K V)) → b ++ joined bs ≡ [] → (next_entry b bs).0 ≡ none
  unfolding next_entry
  next_entry-nil (d ∷ b) bs h = cc
  next_entry-nil [] [] h = refl
  next_entry-nil [] (b ∷ bs) h = next_entry-nil b bs h

  walk-left :
      (es : List (K × V)) (it : HashIter K V)
      → left it ≡ es
      → ((walk (length es) it).0 ≡ all_some es) × ((next (walk (length es) it).1).0 ≡ none)
  unfolding walk next
  walk-left [] it h = (refl, next_entry-nil it.cur it.buckets h)
  walk-left (e ∷ es) it h =
      let (first, rest) = next_entry-cons it.cur it.buckets e es h in
      let (given, over) = walk-left es (next_entry it.cur it.buckets).1 rest in (cc, over)

  length-joined : (t : Table K V) → length (entries_of t) ≡ total t
  unfolding total
  length-joined [] = refl
  length-joined ((j, b) ∷ t) = length-append b _ ∙ ap (λ n. length b + n) (length-joined t)

  total-Perm : {t u : Table K V} → Permᴰ t u → total t ≡ total u
  unfolding total
  total-Perm Permᴰ.nil = refl
  total-Perm (Permᴰ.cons e p) = ap₂ (λ x n. length x.1 + n) e (total-Perm p)
  total-Perm (Permᴰ.swap e f) =
      omega (
        arith,
        ap (λ (x : ℕ × Bucket K V). length x.1) e,
        ap (λ (x : ℕ × Bucket K V). length x.1) f,
      )
  total-Perm (Permᴰ.trans p q) = total-Perm p ∙ total-Perm q

  Perm-of_eq : {xs ys : List (K × V)} → xs ≡ ys → Perm xs ys
  Perm-of_eq {xs} {ys} e = rw e (Perm.refl ys)

  -- two buckets in either order
  append-swap : (b d es : List (K × V)) → Perm (b ++ (d ++ es)) (d ++ (b ++ es))
  append-swap b d es =
      Perm.trans (Perm-of_eq (sym (append_assoc b d es))) (
        Perm.trans (Perm.append_right es (perm_append_comm b d)) (Perm-of_eq (append_assoc d b es)))

  entries_of-Perm : {t u : Table K V} → Permᴰ t u → Perm (entries_of t) (entries_of u)
  entries_of-Perm Permᴰ.nil = Perm.refl []
  entries_of-Perm (Permᴰ.cons e p) = Perm.append (Perm-of_eq (ap (λ x. x.1) e)) (entries_of-Perm p)
  entries_of-Perm (Permᴰ.swap {l} e f) = Perm.trans (append-swap _ _ (entries_of l)) (
      Perm.append (Perm-of_eq (ap (λ x. x.1) f))
        (Perm.append (Perm-of_eq (ap (λ x. x.1) e)) (Perm.refl (entries_of l))))
  entries_of-Perm (Permᴰ.trans p q) = Perm.trans (entries_of-Perm p) (entries_of-Perm q)

  -- For a valid map and any order of its buckets, as many calls of next as the map's length give each
  -- entry of the map once, bucket by bucket, and the call after them says that there is none left.
  pub walk-entries :
      ⦃key : Hashable K⦄ (law : IsLawful key) (m : Hashmap K V)
      → IsValid law m
      → (t : Table K V) → Permᴰ t (entries (some m))
      → ((walk m.length (iter_of t)).0 ≡ all_some (entries_of t))
        × ((next (walk m.length (iter_of t)).1).0 ≡ none)
        × Perm (entries_of t) (entries_of m.table)
  unfolding iter_of entries
  walk-entries law m valid t p =
      let size : (m.length ≡ length (entries_of t)) =
        valid.counted ∙ (sym (total-Perm p) ∙ sym (length-joined t)) in
      let (given, over) = walk-left (entries_of t) (iter_of t) refl in
      (rw size given, rw size over, entries_of-Perm p)
