-- ===== src/SearchThreads.antt =====
-- The searching threads of lab 8 (lab8/zad1a/src/main.c): threads read records from one file, some
-- at a time, and look for a word in them; the first that finds it cancels the others. A step is one
-- access to what the threads share. Passes says what a step keeps, Search holds the
-- invariant and its consequence.
pub mod Passes
pub mod Search
mod Tests
use sysopy.Common.{
  ℕ, zero, suc, ◌<◌, ◌≡◌, Bool, true, false, ◌||◌, not, ◌==◌, ltb, List, [], ◌∷◌, length, take,
}
use sysopy.Common.Strings.{contains, c_string}
use sysopy.Common.Family.{update}

-- A record of the file: its number, and the text behind it.
pub record Record : Type 0 where
  pub rec_id : ℕ
  pub text : List ℕ

-- The record's text, up to its first 0, holds the word.
pub has_word : List ℕ → Record → Bool
has_word word r = contains word (c_string r.text)

-- Where a thread is in thread_work_function; `short` says that read gave less than was asked for,
-- `todo` are the records of the buffer that it has not looked at.
pub data Phase : Type 0 where
  locking : Phase
  reading : Phase
  unlocking : (short : Bool) → Phase
  searching : (todo : List Record) → Phase
  ended : Phase
  cancelled : Phase

pub record Thread : Type 0 where
  pub phase : Phase
  pub rec_buff : List Record
  pub should_loop : Bool

-- What the threads share: what is left of the file, the mutex, who was told to stop, and what was
-- printed: thread and record.
pub record Shared : Type 0 where
  pub rest : List Record
  pub locked : Bool
  pub requested : ℕ → Bool
  pub found : List (ℕ × ℕ)

abbrev pub drop : ℕ → List Record → List Record
drop zero rs = rs
drop (suc n) [] = []
drop (suc n) (r ∷ rs) = drop n rs

-- `read` overwrites the front of the buffer.
abbrev pub fill : List Record → List Record → List Record
fill [] buff = buff
fill (r ∷ rs) [] = r ∷ fill rs []
fill (r ∷ rs) (b ∷ buff) = r ∷ fill rs buff

-- `at phase buff loop` is a thread there.
abbrev pub at_phase : Phase → List Record → Bool → Thread
at_phase phase buff loop = record { phase = phase; rec_buff = buff; should_loop = loop }

-- The next access of thread `i`, which reads `k` records at a time.
pub data Move (word : List ℕ) (k i : ℕ) : Shared × Thread → Shared × Thread → Type 0 where
  lock :
      {m : Shared} {b : List Record}
      → m.locked ≡ false
      → Move word k i
          (m, at_phase locking b true)
          (record m { locked = true }, at_phase reading b true)
  read :
      {m : Shared} {b : List Record} {l : Bool}
      → Move word k i
          (m, at_phase reading b l)
          (
            record m { rest = drop k m.rest },
            at_phase (unlocking (ltb (length (take k m.rest)) k)) (fill (take k m.rest) b) l,
          )
  unlock :
      {m : Shared} {b : List Record} {l : Bool}
      → Move word k i
          (m, at_phase (unlocking false) b l)
          (record m { locked = false }, at_phase (searching b) b l)
  unlock_short :
      {m : Shared} {b : List Record} {l : Bool}
      → Move word k i
          (m, at_phase (unlocking true) b l)
          (record m { locked = false }, at_phase (searching b) b false)
  hit :
      {m : Shared} {b : List Record} {l : Bool} {r : Record} {todo : List Record}
      → has_word word r ≡ true
      → Move word k i
          (m, at_phase (searching (r ∷ todo)) b l)
          (
            record m {
              requested = λ j. m.requested j || not (j == i);
              found = (i, r.rec_id) ∷ m.found;
            },
            at_phase (searching todo) b false,
          )
  miss :
      {m : Shared} {b : List Record} {l : Bool} {r : Record} {todo : List Record}
      → has_word word r ≡ false
      → Move word k i (m, at_phase (searching (r ∷ todo)) b l) (m, at_phase (searching todo) b l)
  again :
      {m : Shared} {b : List Record}
      → Move word k i (m, at_phase (searching []) b true) (m, at_phase locking b true)
  end_thread :
      {m : Shared} {b : List Record}
      → Move word k i (m, at_phase (searching []) b false) (m, at_phase ended b false)
  cancel :
      {m : Shared} {p : Phase} {b : List Record} {l : Bool}
      → m.requested i ≡ true
      → Move word k i (m, at_phase p b l) (m, at_phase cancelled b l)

pub record System : Type 0 where
  pub shared : Shared
  pub threads : ℕ → Thread

-- One of the `n` threads moves.
pub data Step (word : List ℕ) (k n : ℕ) : System → System → Type 0 where
  step :
      {s : System} {m : Shared} {t : Thread} (i : ℕ)
      → i < n
      → Move word k i (s.shared, s.threads i) (m, t)
      → Step word k n s (record { shared = m; threads = update s.threads i t })

-- The file is open at its start; what a buffer holds before the first read is an argument.
abbrev pub init : List Record → (ℕ → List Record) → System
init file fresh = record {
  shared = record { rest = file; locked = false; requested = λ _. false; found = [] };
  threads = λ i. at_phase locking (fresh i) true;
}

pub data Reach (word : List ℕ) (k n : ℕ) (file : List Record) (fresh : ℕ → List Record)
    : System → Type 0 where
  start : Reach word k n file fresh (init file fresh)
  after :
      {s s2 : System}
      → Reach word k n file fresh s
      → Step word k n s s2
      → Reach word k n file fresh s2
