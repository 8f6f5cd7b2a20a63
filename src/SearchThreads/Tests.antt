-- ===== src/SearchThreads/Tests.antt =====
-- Runs of a thread of lab8/zad1a/src/main.c, and the witness.
use sysopy.Common.{ℕ, zero, suc, ℕ_discrete, ◌<◌, ◌≡◌, refl, inl, true, false, List, [], ◌∷◌, arith}
use sysopy.SearchThreads.{
  Record, has_word, ended, System, step, lock, read, unlock, unlock_short, hit, miss, again,
  end_thread, Reach, start, after,
}
use sysopy.SearchThreads.Search.{Reach-searched}

abbrev word : List ℕ
word = b'a' ∷ []

abbrev record_one : Record
record_one = record { rec_id = 1; text = b'b' ∷ [] }

abbrev file : List Record
file = record_one ∷ []

-- What malloc left in the one record of the buffer.
abbrev fresh : ℕ → List Record
fresh i = record { rec_id = 9; text = b'a' ∷ [] } ∷ []

one_thread : 0 < 1
one_thread = omega arith

lacks : has_word word record_one ≡ false
unfolding has_word
lacks = refl

found_word : has_word word (record { rec_id = 9; text = b'a' ∷ [] }) ≡ true
unfolding has_word
found_word = refl

-- The one thread reads the record, looks at it, reads again, which gives nothing, looks at the
-- same record again, and ends.
abbrev QuietEnd : Type 0
QuietEnd =
    (s : System) × Reach word 1 1 file fresh s
    × (s.shared.found ≡ [])
    × ((s.threads 0).phase ≡ ended)

quiet_end : QuietEnd
unfolding ℕ_discrete
quiet_end =
    let r1 = after start (step 0 one_thread (lock refl)) in
    let r2 = after r1 (step 0 one_thread read) in
    let r3 = after r2 (step 0 one_thread unlock) in
    let r4 = after r3 (step 0 one_thread (miss lacks)) in
    let r5 = after r4 (step 0 one_thread again) in
    let r6 = after r5 (step 0 one_thread (lock refl)) in
    let r7 = after r6 (step 0 one_thread read) in
    let r8 = after r7 (step 0 one_thread unlock_short) in
    let r9 = after r8 (step 0 one_thread (miss lacks)) in
    let r10 = after r9 (step 0 one_thread end_thread) in (_, r10, refl, refl)

below_one :
    (s : System) → (s.threads 0).phase ≡ ended → (i : ℕ) → i < 1 → (s.threads i).phase ≡ ended
below_one s e zero lt = e
below_one s e (suc i) lt = absurd (omega arith)

Reach-searched_example : has_word word record_one ≡ false
Reach-searched_example =
    Reach-searched word 1 1 file fresh quiet_end.0 record_one one_thread quiet_end.1 quiet_end.2
      (below_one quiet_end.0 quiet_end.3) (inl refl)

-- Of an empty file the thread reads nothing, but looks at what malloc left, and finds the word.
dirty_buffer : (s : System) × Reach word 1 1 [] fresh s × (s.shared.found ≡ (0, 9) ∷ [])
unfolding ℕ_discrete
dirty_buffer =
    let r1 = after start (step 0 one_thread (lock refl)) in
    let r2 = after r1 (step 0 one_thread read) in
    let r3 = after r2 (step 0 one_thread unlock_short) in
    let r4 = after r3 (step 0 one_thread (hit found_word)) in (_, r4, refl)
