-- ===== src/Hashmap/Linked/Write.antt =====
-- Assignments to linked entries and new ones, as they leave the other entries of a bucket.
use temporal_determinizer.Prelude.{ℕ, ◌≢◌, ◌≡◌, refl, ap, arith, List, [], ◌∷◌, Option}
use temporal_determinizer.Hashmap.Linked.{Entry, Entries, assign_value, new_entry}
use temporal_determinizer.Hashmap.Linked.Chain.{Avoids, IsChain, contents}

module _ {K V : Type 0} where
  pub assign_value-other : (c : Entries K V) (x i : ℕ) (v : V) → x ≢ i → assign_value c x v i ≡ c i
  assign_value-other c x i v h = ground arith

  pub assign_value-value : (c : Entries K V) (x : ℕ) (v : V) → (assign_value c x v x).value ≡ v
  assign_value-value c x v = ground arith

  pub assign_value-key :
      (c : Entries K V) (x i : ℕ) (v : V) → (assign_value c x v i).key ≡ (c i).key
  assign_value-key c x i v = ground arith

  pub assign_value-next :
      (c : Entries K V) (x i : ℕ) (v : V) → (assign_value c x v i).next ≡ (c i).next
  assign_value-next c x i v = ground arith

  pub new_entry-other :
      (c : Entries K V) (x i : ℕ) (e : Entry K V) → x ≢ i → new_entry c x e i ≡ c i
  new_entry-other c x i e h = ground arith

  pub new_entry-same : (c : Entries K V) (x : ℕ) (e : Entry K V) → new_entry c x e x ≡ e
  new_entry-same c x e = ground arith

  pub IsChain-linked :
      (c d : Entries K V) (x : ℕ) (p : Option ℕ) (is : List ℕ)
      → ((i : ℕ) → x ≢ i → (d i).next ≡ (c i).next)
      → Avoids x is
      → IsChain c p is
      → IsChain d p is
  IsChain-linked c d x p [] s a h = h
  IsChain-linked c d x p (i ∷ is) s (n, a) (h, t) =
      (h, rw (s i n) (IsChain-linked c d x (c i).next is s a t))

  pub contents-other :
      (c d : Entries K V) (x : ℕ) (is : List ℕ)
      → ((i : ℕ) → x ≢ i → d i ≡ c i)
      → Avoids x is
      → contents d is ≡ contents c is
  contents-other c d x [] s a = refl
  contents-other c d x (i ∷ is) s (n, a) =
      rw (s i n) (ap (λ b. ((c i).key, (c i).value) ∷ b) (contents-other c d x is s a))
