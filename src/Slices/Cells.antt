-- ===== src/Slices/Cells.antt =====
-- Writing a list of values into cells and reading it back.
use temporal_determinizer.Prelude.{
  ℕ, zero, suc, ◌+◌, ◌≤◌, ◌<◌, ◌≡◌, refl, ap, ◌∙◌, List, [], ◌∷◌, ◌++◌, length, arith,
}
use mathlib.Core.Path.{ap₂}
use temporal_determinizer.Value.{Value}
use temporal_determinizer.Heap.{Heap, returns, update, write, pure, ◌>>=◌}
use temporal_determinizer.Memory.Done.{>>=-returns}
use temporal_determinizer.Memory.Layout.{Agree}
use temporal_determinizer.Slices.{contents, write_all}

-- the cells after the values were written from p on
unfoldable pub written : (ℕ → Value) → ℕ → List Value → ℕ → Value
written c p [] = c
written c p (v ∷ vs) = written (update c p v) (suc p) vs

pub write_all-written :
    (p : ℕ) (vs : List Value) (h : Heap)
    → write_all p vs h ≡ returns tt (record h { cell = written h.cell p vs })
unfolding write_all written write
write_all-written p [] h = refl
write_all-written p (v ∷ vs) h =
    write_all-written (suc p) vs (record h { cell = update h.cell p v })

pub written-before :
    (c : ℕ → Value) (p : ℕ) (vs : List Value) (q : ℕ) → q < p → written c p vs q ≡ c q
unfolding written
written-before c p [] q h = refl
written-before c p (v ∷ vs) q h = ground (arith, written-before (update c p v) (suc p) vs q)

pub written-after :
    (c : ℕ → Value) (p : ℕ) (vs : List Value) (q : ℕ) → p + length vs ≤ q → written c p vs q ≡ c q
unfolding written
written-after c p [] q h = refl
written-after c p (v ∷ vs) q h = ground (arith, written-after (update c p v) (suc p) vs q)

pub contents-congr :
    (c d : ℕ → Value) (p n : ℕ) → Agree c d p (p + n) → contents c p n ≡ contents d p n
unfolding contents
contents-congr c d p zero g = refl
contents-congr c d p (suc n) g =
    ap₂ ◌∷◌ (g p (omega arith) (omega arith))
      (contents-congr c d (suc p) n (λ q a b. g q (omega arith) (omega arith)))

pub contents-written :
    (c : ℕ → Value) (p : ℕ) (vs : List Value) → contents (written c p vs) p (length vs) ≡ vs
unfolding contents written
contents-written c p [] = refl
contents-written c p (v ∷ vs) =
    ap₂ ◌∷◌ (written-before (update c p v) (suc p) vs p (omega arith) ∙ ground arith)
      (contents-written (update c p v) (suc p) vs)

pub contents_same : (c : ℕ → Value) {p q m n : ℕ} → p ≡ q → m ≡ n → contents c p m ≡ contents c q n
contents_same c e g = ap₂ (contents c) e g

pub contents-sum :
    (c : ℕ → Value) (p m n : ℕ) → contents c p (m + n) ≡ contents c p m ++ contents c (p + m) n
unfolding contents
contents-sum c p zero n = contents_same c (omega arith) (omega arith)
contents-sum c p (suc m) n =
    contents_same c {m = suc m + n} {n = suc (m + n)} refl (omega arith)
    ∙ ap (λ r. c p ∷ r)
        (contents-sum c (suc p) m n
          ∙ ap (λ r. contents c (suc p) m ++ r) (contents_same c (omega arith) refl))

pub length-contents : (c : ℕ → Value) (p n : ℕ) → length (contents c p n) ≡ n
unfolding contents
length-contents c p zero = refl
length-contents c p (suc n) = omega (arith, length-contents c (suc p) n)

-- a run that writes and then returns
pub wrote :
    {A : Type 0} (p : ℕ) (vs : List Value) (r : A) (h : Heap)
    → (write_all p vs >>= λ _. pure r) h ≡ returns r (record h { cell = written h.cell p vs })
wrote p vs r h = >>=-returns (write_all p vs) (λ _. pure r) h (write_all-written p vs h) refl
