-- ===== src/RecordSort/Interface.antt =====
-- What bubble_sort.c in lab2/zad1/src expects of the operations that it is given: the state holds a
-- family of records and a position.
use sysopy.Common.{ℕ, ◌+◌, ◌<◌, ◌≡◌, ◌≢◌, some}
use sysopy.Common.Family.{update}
use sysopy.RecordSort.{Operations}

-- The family with two members exchanged.
abbrev pub exchange : {R : Type 0} → (ℕ → R) → ℕ → ℕ → ℕ → R
exchange f a b = update (update f a (f b)) b (f a)

pub record Obeys {S R : Type 0} (io : Operations S R) (num : ℕ) (Holds : S → (ℕ → R) → ℕ → Type 0)
    : Type 0 where
  pub next :
      {s : S} {f : ℕ → R} {p : ℕ}
      → Holds s f p
      → p < num
      → (s' : S) × (io.get_next_record s ≡ some (f p, s')) × Holds s' f (p + 1)
  pub swap :
      {s : S} {f : ℕ → R} {p : ℕ} (a b : ℕ)
      → Holds s f p
      → a < num
      → b < num
      → a ≢ b
      → (s' : S) × (io.swap_records a b s ≡ some s') × Holds s' (exchange f a b) p
  pub rewind :
      {s : S} {f : ℕ → R} {p : ℕ}
      → Holds s f p
      → (s' : S) × (io.set_file_start s ≡ some s') × Holds s' f 0
