-- ===== src/Memory/Done.antt =====
-- Runs that end normally.
use temporal_determinizer.Prelude.{◌≡◌}
use temporal_determinizer.Heap.{Heap, M, Outcome, returns, ◌>>=◌}

-- the run ends normally, in a value and a memory that satisfy `Q`
abbrev pub Done : {A : Type 0} → M A → Heap → (A → Heap → Type 0) → Type 0
Done {A} m h Q = (a : A) × (h' : Heap) × (m h ≡ returns a h') × Q a h'

pub >>=-returns :
    {A B : Type 0} (m : M A) (f : A → M B) (h : Heap) {a : A} {h' : Heap} {r : Outcome B}
    → m h ≡ returns a h'
    → f a h' ≡ r
    → (m >>= f) h ≡ r
>>=-returns m f h e g = rw (e, ◌>>=◌) g
