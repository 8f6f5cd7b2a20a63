-- ===== src/SearchThreads/Search.antt =====
-- What the threads of lab8/zad1a/src/main.c have looked at, as long as none has found the word.
use sysopy.Common.{
  ℕ, ◌<◌, ◌≡◌, ◌⊎◌, refl, sym, ◌∙◌, inl, inr, Bool-cases, true, false, List, [], ℕ_discrete,
}
use mathlib.Core.Path.{subst}
use sysopy.Common.Family.{update, update-here, update-apart, update-all}
use sysopy.SearchThreads.{
  Record, has_word, ended, Thread, Shared, System, step, Reach, start, after,
}
use sysopy.SearchThreads.Passes.{
  Among, Pending, PendingIn, PhaseFine, Fine, PhaseFine-rest, Passes, Move-Passes, Move-found,
}

-- Nothing is read but looked at: a record of the file with the word is still in the file, or a
-- thread has it before it.
record Quiet (word : List ℕ) (n : ℕ) (file : List Record) (m : Shared) (ts : ℕ → Thread)
    : Type 0 where
  cover :
      (r : Record)
      → Among r file
      → has_word word r ≡ true
      → Among r m.rest ⊎ ((j : ℕ) × (j < n) × Pending r (ts j))
  unasked : (j : ℕ) → m.requested j ≡ false
  fine : (j : ℕ) → Fine m.rest (ts j)

module _ (word : List ℕ) (n : ℕ) (file : List Record) (m : Shared) (ts : ℕ → Thread) (i : ℕ)
    (m2 : Shared) (t2 : Thread) (below : i < n) (q : Quiet word n file m ts)
    (p : Passes word m (ts i) m2 t2) where
  -- Where a record was before another thread, or this one, it still is.
  Pending-update :
      (r : Record) (j : ℕ)
      → has_word word r ≡ true
      → Pending r (ts j)
      → Pending r (update ts i t2 j)
  Pending-update r j has pending = elim (ℕ_discrete i j) [
    | yes same ↦
        rw (update-here ts i t2 same)
          (p.from_thread r has (subst (λ x. Pending r (ts x)) (sym same) pending))
    | no apart ↦ rw (update-apart ts i t2 apart) pending
  ]

  Quiet-update : Quiet word n file m2 (update ts i t2)
  Quiet-update = record {
    cover = λ r among has. elim (q.cover r among has) [
      | inl left ↦ elim (p.from_rest r left) [
        | inl still ↦ inl still
        | inr now ↦ inr (i, below, rw (update-here ts i t2 refl) now)
      ]
      | inr (j, lt, pending) ↦ inr (j, lt, Pending-update r j has pending)
    ];
    unasked = λ j. p.still_unasked j ∙ q.unasked j;
    fine =
        update-all ts i t2 (λ j t. Fine m2.rest t) p.still_fine
          λ j apart. (
            λ stops. p.still_empty ((q.fine j).0 stops),
            PhaseFine-rest m.rest m2.rest (ts j).should_loop (ts j).phase p.still_empty
                (q.fine j).1,
          );
  }

module _ (word : List ℕ) (k n : ℕ) (file : List Record) (fresh : ℕ → List Record) where
  Reach-Quiet :
      (s : System)
      → Reach word k n file fresh s
      → s.shared.found ≡ []
      → Quiet word n file s.shared s.threads
  Reach-Quiet _ start none_found = record {
    cover = λ r among has. inl among;
    unasked = λ j. refl;
    fine = λ j. (λ stops. absurd cc, tt);
  }
  Reach-Quiet _ (after {s} reach (step {m} {t} i below moved)) none_found =
      let before = Move-found word k i s.shared (s.threads i) m t moved none_found in
      let q = Reach-Quiet s reach before in
      Quiet-update word n file s.shared s.threads i m t below q
        (Move-Passes word k i s.shared (s.threads i) m t moved (q.fine i) (q.unasked i) none_found)

  -- When all of at least one thread have ended and none has found the word, no record of the file
  -- has it, whatever the buffers held before and however the threads were interleaved.
  pub Reach-searched :
      (s : System) (r : Record)
      → 0 < n
      → Reach word k n file fresh s
      → s.shared.found ≡ []
      → ((i : ℕ) → i < n → (s.threads i).phase ≡ ended)
      → Among r file
      → has_word word r ≡ false
  Reach-searched s r some_thread reach none_found all_ended among =
      let q = Reach-Quiet s reach none_found in
      let last : PhaseFine s.shared.rest (s.threads 0).should_loop ended =
        subst (PhaseFine s.shared.rest (s.threads 0).should_loop) (all_ended 0 some_thread)
          (q.fine 0).1 in
      let empty : s.shared.rest ≡ [] = (q.fine 0).0 last in
      elim (Bool-cases (has_word word r)) [
        | inr lacks ↦ lacks
        | inl has ↦ elim (q.cover r among has) [
          | inl left ↦ absurd (subst (Among r) empty left)
          | inr (j, lt, pending) ↦
              absurd (subst (PendingIn r (s.threads j).rec_buff) (all_ended j lt) pending)
        ]
      ]
