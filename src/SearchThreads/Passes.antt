-- ===== src/SearchThreads/Passes.antt =====
-- What one access of a thread of lab8/zad1a/src/main.c does to the records that are still to be
-- looked at, as long as the word is not found.
use sysopy.Common.{
  ℕ, zero, suc, ◌≡◌, ◌⊎◌, refl, sym, ap, ◌∙◌, inl, inr, Bool, true, false, ltb, List, [], ◌∷◌,
  length, take, arith,
}
use sysopy.SearchThreads.{
  Record, has_word, Phase, locking, reading, unlocking, searching, ended, cancelled, Thread, Shared,
  drop, fill, Move, lock, read, unlock, unlock_short, hit, miss, again, end_thread, cancel,
}

abbrev pub Among : Record → List Record → Type 0
Among r [] = ⊥
Among r (x ∷ xs) = (r ≡ x) ⊎ Among r xs

-- The record is one that the thread has read and not looked at.
abbrev pub PendingIn : Record → List Record → Phase → Type 0
PendingIn r buff locking = ⊥
PendingIn r buff reading = ⊥
PendingIn r buff (unlocking short) = Among r buff
PendingIn r buff (searching todo) = Among r todo
PendingIn r buff ended = ⊥
PendingIn r buff cancelled = ⊥

abbrev pub Pending : Record → Thread → Type 0
Pending r t = PendingIn r t.rec_buff t.phase

-- A thread that has stopped, or is about to, has seen the end of the file; none is cancelled.
abbrev pub PhaseFine : List Record → Bool → Phase → Type 0
PhaseFine rest loop locking = Unit {0}
PhaseFine rest loop reading = Unit {0}
PhaseFine rest loop (unlocking true) = rest ≡ []
PhaseFine rest loop (unlocking false) = Unit {0}
PhaseFine rest loop (searching todo) = Unit {0}
PhaseFine rest loop ended = loop ≡ false
PhaseFine rest loop cancelled = ⊥

abbrev pub Fine : List Record → Thread → Type 0
Fine rest t = (t.should_loop ≡ false → rest ≡ []) × PhaseFine rest t.should_loop t.phase

pub PhaseFine-rest :
    (rest rest2 : List Record) (loop : Bool) (p : Phase)
    → (rest ≡ [] → rest2 ≡ [])
    → PhaseFine rest loop p
    → PhaseFine rest2 loop p
PhaseFine-rest rest rest2 loop locking keeps fine = tt
PhaseFine-rest rest rest2 loop reading keeps fine = tt
PhaseFine-rest rest rest2 loop (unlocking true) keeps fine = keeps fine
PhaseFine-rest rest rest2 loop (unlocking false) keeps fine = tt
PhaseFine-rest rest rest2 loop (searching todo) keeps fine = tt
PhaseFine-rest rest rest2 loop ended keeps fine = fine
PhaseFine-rest rest rest2 loop cancelled keeps fine = fine

-- What a move must do for the invariant to stay.
pub record Passes (word : List ℕ) (m : Shared) (t : Thread) (m2 : Shared) (t2 : Thread)
    : Type 0 where
  pub from_rest : (r : Record) → Among r m.rest → Among r m2.rest ⊎ Pending r t2
  pub from_thread : (r : Record) → has_word word r ≡ true → Pending r t → Pending r t2
  pub still_unasked : (j : ℕ) → m2.requested j ≡ m.requested j
  pub still_fine : Fine m2.rest t2
  pub still_empty : m.rest ≡ [] → m2.rest ≡ []

Among-split :
    (k : ℕ) (r : Record) (rs : List Record) → Among r rs → Among r (drop k rs) ⊎ Among r (take k rs)
Among-split zero r rs among = inl among
Among-split (suc k) r [] among = absurd among
Among-split (suc k) r (x ∷ rs) (inl same) = inr (inl same)
Among-split (suc k) r (x ∷ rs) (inr among) = elim (Among-split k r rs among) [
  | inl later ↦ inl later
  | inr now ↦ inr (inr now)
]

Among-fill : (r : Record) (rs buff : List Record) → Among r rs → Among r (fill rs buff)
Among-fill r [] buff among = absurd among
Among-fill r (x ∷ rs) [] (inl same) = inl same
Among-fill r (x ∷ rs) [] (inr among) = inr (Among-fill r rs [] among)
Among-fill r (x ∷ rs) (b ∷ buff) (inl same) = inl same
Among-fill r (x ∷ rs) (b ∷ buff) (inr among) = inr (Among-fill r rs buff among)

-- A read that gives less than was asked for has reached the end.
drop_short : (k : ℕ) (rs : List Record) → ltb (length (take k rs)) k ≡ true → drop k rs ≡ []
drop_short zero rs short = absurd (ground arith)
drop_short (suc k) [] short = refl
drop_short (suc k) (r ∷ rs) short = drop_short k rs (ground arith)

drop-empty : (k : ℕ) (rs : List Record) → rs ≡ [] → drop k rs ≡ []
drop-empty zero rs e = e
drop-empty (suc k) [] e = refl
drop-empty (suc k) (r ∷ rs) e = absurd cc

read-PhaseFine :
    (k : ℕ) (rs : List Record) (loop short : Bool)
    → ltb (length (take k rs)) k ≡ short
    → PhaseFine (drop k rs) loop (unlocking short)
read-PhaseFine k rs loop true e = drop_short k rs e
read-PhaseFine k rs loop false e = tt

pub Move-Passes :
    (word : List ℕ) (k i : ℕ) (m : Shared) (t : Thread) (m2 : Shared) (t2 : Thread)
    → Move word k i (m, t) (m2, t2)
    → Fine m.rest t
    → m.requested i ≡ false
    → m2.found ≡ []
    → Passes word m t m2 t2
Move-Passes word k i m _ _ _ (lock unlocked) fine unasked none_found = record {
  from_rest = λ r among. inl among;
  from_thread = λ r has pending. pending;
  still_unasked = λ j. refl;
  still_fine = fine;
  still_empty = λ e. e;
}
Move-Passes word k i m _ _ _ (read {b} {l}) fine unasked none_found = record {
  from_rest = λ r among. elim (Among-split k r m.rest among) [
    | inl later ↦ inl later
    | inr now ↦ inr (Among-fill r (take k m.rest) b now)
  ];
  from_thread = λ r has pending. absurd pending;
  still_unasked = λ j. refl;
  still_fine = (λ stops. drop-empty k m.rest (fine.0 stops), read-PhaseFine k m.rest l _ refl);
  still_empty = drop-empty k m.rest;
}
Move-Passes word k i m _ _ _ unlock fine unasked none_found = record {
  from_rest = λ r among. inl among;
  from_thread = λ r has pending. pending;
  still_unasked = λ j. refl;
  still_fine = (fine.0, tt);
  still_empty = λ e. e;
}
Move-Passes word k i m _ _ _ unlock_short fine unasked none_found = record {
  from_rest = λ r among. inl among;
  from_thread = λ r has pending. pending;
  still_unasked = λ j. refl;
  still_fine = (λ _. fine.1, tt);
  still_empty = λ e. e;
}
Move-Passes word k i m _ _ _ (hit has) fine unasked none_found = absurd cc
Move-Passes word k i m _ _ _ (miss {r = r0} lacks) fine unasked none_found = record {
  from_rest = λ r among. inl among;
  from_thread = λ r has pending. elim pending [
    | inl same ↦
        let bad : false ≡ true = sym lacks ∙ ap (has_word word) (sym same) ∙ has in absurd cc
    | inr more ↦ more
  ];
  still_unasked = λ j. refl;
  still_fine = (fine.0, tt);
  still_empty = λ e. e;
}
Move-Passes word k i m _ _ _ again fine unasked none_found = record {
  from_rest = λ r among. inl among;
  from_thread = λ r has pending. absurd pending;
  still_unasked = λ j. refl;
  still_fine = (fine.0, tt);
  still_empty = λ e. e;
}
Move-Passes word k i m _ _ _ end_thread fine unasked none_found = record {
  from_rest = λ r among. inl among;
  from_thread = λ r has pending. absurd pending;
  still_unasked = λ j. refl;
  still_fine = (fine.0, refl);
  still_empty = λ e. e;
}
Move-Passes word k i m _ _ _ (cancel asked) fine unasked none_found =
    let bad : false ≡ true = sym unasked ∙ asked in absurd cc

-- What was found stays found.
pub Move-found :
    (word : List ℕ) (k i : ℕ) (m : Shared) (t : Thread) (m2 : Shared) (t2 : Thread)
    → Move word k i (m, t) (m2, t2)
    → m2.found ≡ []
    → m.found ≡ []
Move-found word k i m _ _ _ (lock unlocked) e = e
Move-found word k i m _ _ _ read e = e
Move-found word k i m _ _ _ unlock e = e
Move-found word k i m _ _ _ unlock_short e = e
Move-found word k i m _ _ _ (hit has) e = absurd cc
Move-found word k i m _ _ _ (miss lacks) e = e
Move-found word k i m _ _ _ again e = e
Move-found word k i m _ _ _ end_thread e = e
Move-found word k i m _ _ _ (cancel asked) e = e
