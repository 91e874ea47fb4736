-- ===== src/Hashmap/Linked/Chain.antt =====
-- The linked entries of a bucket of interpreter/internal/interp/map.go as a list, and delete on both.
use temporal_determinizer.Prelude.{
  ℕ, zero, suc, ◌<◌, ◌≢◌, ◌≡◌, refl, sym, ap, ◌∙◌, arith, List, [], ◌∷◌, Option, none, some, length,
  Bool, true, false,
}
use temporal_determinizer.Value.{Result, ok, panics}
use temporal_determinizer.Hashmap.{Bucket, Hashable, when, behind, unlink}
use temporal_determinizer.Hashmap.Linked.{Entries, relink, unlink_after}

-- no address of the list is x, and no two are one
abbrev pub Avoids : ℕ → List ℕ → Type 0
Avoids x [] = Unit
Avoids x (i ∷ is) = (x ≢ i) × Avoids x is

abbrev pub AreDistinct : List ℕ → Type 0
AreDistinct [] = Unit
AreDistinct (i ∷ is) = Avoids i is × AreDistinct is

module _ {K V : Type 0} where
  -- the entries from p on are those at the addresses
  abbrev pub IsChain : Entries K V → Option ℕ → List ℕ → Type 0
  IsChain c p [] = p ≡ none
  IsChain c p (i ∷ is) = (p ≡ some i) × IsChain c (c i).next is

  abbrev pub contents : Entries K V → List ℕ → Bucket K V
  contents c [] = []
  contents c (i ∷ is) = ((c i).key, (c i).value) ∷ contents c is

  relink-other : (c : Entries K V) (x i : ℕ) (e : Option ℕ) → x ≢ i → relink c x e i ≡ c i
  relink-other c x i e h = ground arith

  relink-next : (c : Entries K V) (x : ℕ) (e : Option ℕ) → (relink c x e x).next ≡ e
  relink-next c x e = ground arith

  relink-key : (c : Entries K V) (x i : ℕ) (e : Option ℕ) → (relink c x e i).key ≡ (c i).key
  relink-key c x i e = ground arith

  relink-value : (c : Entries K V) (x i : ℕ) (e : Option ℕ) → (relink c x e i).value ≡ (c i).value
  relink-value c x i e = ground arith

  IsChain-relink :
      (c : Entries K V) (x : ℕ) (e p : Option ℕ) (is : List ℕ)
      → Avoids x is
      → IsChain c p is
      → IsChain (relink c x e) p is
  IsChain-relink c x e p [] a h = h
  IsChain-relink c x e p (i ∷ is) (d, a) (h, t) =
      (h, rw (relink-other c x i e d) (IsChain-relink c x e (c i).next is a t))

  contents-relink :
      (c : Entries K V) (x : ℕ) (e : Option ℕ) (is : List ℕ)
      → Avoids x is
      → contents (relink c x e) is ≡ contents c is
  contents-relink c x e [] a = refl
  contents-relink c x e (i ∷ is) (d, a) =
      rw (relink-other c x i e d)
        (ap (λ b. ((c i).key, (c i).value) ∷ b) (contents-relink c x e is a))

  -- what an unlinking keeps: all keys and values, and the entries outside of the chain
  pub record Keeps (c d : Entries K V) (is : List ℕ) : Type 0 where
    pub keys : (x : ℕ) → (d x).key ≡ (c x).key
    pub values : (x : ℕ) → (d x).value ≡ (c x).value
    pub others : (x : ℕ) → Avoids x is → d x ≡ c x

  -- the entries `d` have at the addresses js, from p on, the entries of the bucket b
  pub record Represents (c d : Entries K V) (is : List ℕ) (p : Option ℕ) (b : Bucket K V)
      (js : List ℕ) : Type 0 where
    pub chain : IsChain d p js
    pub same : contents d js ≡ b
    pub distinct : AreDistinct js
    pub within : (x : ℕ) → Avoids x is → Avoids x js

module _ {K V : Type 0} ⦃key : Hashable K⦄ where
  -- the loop of delete does to the entries behind `prev` what unlink does to a bucket
  abbrev pub After :
      Entries K V
      → ℕ
      → List ℕ
      → Result (Option (Bucket K V))
      → Result (Option (Entries K V))
      → Type 0
  After c prev is (panics p) r = r ≡ panics p
  After c prev is (ok none) r = r ≡ ok none
  After c prev is (ok (some b)) r =
      (d : Entries K V) × (js : List ℕ) × (r ≡ ok (some d))
      × Keeps c d (prev ∷ is)
      × Represents c d is (d prev).next b js

  -- the entry i is the one that is unlinked
  unlinked :
      (c : Entries K V) (prev i : ℕ) (is : List ℕ)
      → Avoids prev is
      → AreDistinct is
      → IsChain c (c i).next is
      → After c prev (i ∷ is) (ok (some (contents c is))) (ok (some (relink c prev (c i).next)))
  unlinked c prev i is a d r =
      let e = (c i).next in
      (
        relink c prev e,
        is,
        refl,
        record {
          keys = λ x. relink-key c prev x e;
          values = λ x. relink-value c prev x e;
          others = λ x (n, m). relink-other c prev x e (λ h. n (sym h));
        },
        record {
          chain = rw (relink-next c prev e) (IsChain-relink c prev e e is a r);
          same = contents-relink c prev e is a;
          distinct = d;
          within = λ x (n, m). m;
        },
      )

  -- an entry behind i is unlinked
  unlinked-behind :
      (c : Entries K V) (prev i : ℕ) (is : List ℕ)
      → prev ≢ i
      → Avoids prev is
      → Avoids i is
      → (c prev).next ≡ some i
      → (rest : Result (Option (Bucket K V))) (r : Result (Option (Entries K V)))
      → After c i is rest r
      → After c prev (i ∷ is) (behind ((c i).key, (c i).value) rest) r
  unlinked-behind c prev i is x a b t (panics p) r h = h
  unlinked-behind c prev i is x a b t (ok none) r h = h
  unlinked-behind c prev i is x a b t (ok (some l)) r (d, js, e, keeps, rep) = (
    d,
    i ∷ js,
    e,
    record { keys = keeps.keys; values = keeps.values; others = λ y (n, m). keeps.others y m },
    record {
      chain = (ap (λ z. z.next) (keeps.others prev (x, a)) ∙ t, rep.chain);
      same = cc (keeps.keys i, keeps.values i, rep.same);
      distinct = (rep.within i b, rep.distinct);
      within = λ y (n, m). (n, rep.within y m);
    },
  )

  After-step :
      (q : Result Bool) (c : Entries K V) (prev i : ℕ) (is : List ℕ)
      → Avoids prev (i ∷ is)
      → AreDistinct (i ∷ is)
      → IsChain c (c i).next is
      → (c prev).next ≡ some i
      → (rest : Result (Option (Bucket K V))) (r : Result (Option (Entries K V)))
      → After c i is rest r
      → After c prev
          (i ∷ is)
          (when q (ok (some (contents c is))) (behind ((c i).key, (c i).value) rest))
          (when q (ok (some (relink c prev (c i).next))) r)
  After-step (panics p) c prev i is a d r t rest s h = refl
  After-step (ok true) c prev i is (x, a) (b, d) r t rest s h = unlinked c prev i is a d r
  After-step (ok false) c prev i is (x, a) (b, d) r t rest s h =
      unlinked-behind c prev i is x a b t rest s h

  pub unlink_after-After :
      (n : ℕ) (k : K) (c : Entries K V) (prev : ℕ) (is : List ℕ) (e : Option ℕ)
      → length is < n
      → Avoids prev is
      → AreDistinct is
      → IsChain c e is
      → (c prev).next ≡ e
      → After c prev is (unlink k (contents c is)) (unlink_after n k c prev e)
  unfolding unlink_after unlink
  unlink_after-After zero k c prev is e low a d h t = absurd (omega arith)
  unlink_after-After (suc n) k c prev [] e low a d h t = rw h refl
  unlink_after-After (suc n) k c prev (i ∷ is) e low (x, a) (b, d) (h, r) t = rw h (
      After-step (key.eq k (c i).key) c prev i is (x, a) (b, d) r (t ∙ h) (unlink k (contents c is))
        (unlink_after n k c i (c i).next)
        (unlink_after-After n k c i is (c i).next (omega arith) b d r refl))
