-- ===== src/ReadersWriters.antt =====
-- Readers and writers over one library (lab9/zad2/src/rw.c): fifteen reader threads and any number
-- of writer threads, interleaved at every access to a semaphore or to the array. `sem_wait` waits
-- for a positive value, so its step is there only then. `rand()` is any number.
pub mod Counts
pub mod Steps
pub mod Safety
mod Tests
use sysopy.Common.{
  ℕ, zero, suc, ◌+◌, ◌%◌, ◌<◌, ◌≡◌, some, List, [], ◌∷◌, get_elem?, set, replicate, ◌==◌,
  if◌then◌else◌,
}
use sysopy.Common.Family.{update}

-- `NUM_READERS` and `MAX_NUM`
abbrev pub num_readers : ℕ
num_readers = 15

abbrev max_num : ℕ
max_num = 999

-- `LIBRARY_SIZE`, shut so that no array of this length is ever written out
pub library_size : ℕ
library_size = 5000

pub record Shared : Type 0 where
  pub library : List ℕ
  pub sem_writer : ℕ
  pub sem_library_empty : ℕ

-- Where a reader that looks for `num` stands: outside, in the loop of `reader_read`, or before the
-- post, with what it found.
pub data Reader : Type 0 where
  away : (num : ℕ) → Reader
  scanning : (num i num_found : ℕ) → Reader
  report : (num num_found : ℕ) → Reader

pub data ReaderMove (m : Shared) : Reader → Shared → Reader → Type 0 where
  wait_library :
      {num k : ℕ}
      → m.sem_library_empty ≡ suc k
      → ReaderMove m (away num) (record m { sem_library_empty = k }) (scanning num 0 0)
  look :
      {num i num_found v : ℕ}
      → i < library_size
      → get_elem? m.library i ≡ some v
      → ReaderMove m
          (scanning num i num_found)
          m
          (scanning num (i + 1) (if v == num then num_found + 1 else num_found))
  looked :
      {num i num_found : ℕ}
      → i ≡ library_size
      → ReaderMove m (scanning num i num_found) m (report num num_found)
  post_library :
      {num num_found : ℕ}
      → ReaderMove m
          (report num num_found)
          (record m { sem_library_empty = m.sem_library_empty + 1 })
          (away num)

-- Where a writer stands: outside, with `k` of the readers' places taken, in the loop of
-- `writer_write` with that many rounds to go, or with `k` places to give back.
pub data Writer : Type 0 where
  away : Writer
  taking : (k : ℕ) → Writer
  writing : (left : ℕ) → Writer
  giving : (k : ℕ) → Writer

pub data WriterMove (m : Shared) : Writer → Shared → Writer → Type 0 where
  wait_writer :
      {k : ℕ} → m.sem_writer ≡ suc k → WriterMove m away (record m { sem_writer = k }) (taking 0)
  take_place :
      {k j : ℕ}
      → k < num_readers
      → m.sem_library_empty ≡ suc j
      → WriterMove m (taking k) (record m { sem_library_empty = j }) (taking (k + 1))
  begin :
      {k : ℕ} (rand : ℕ) → k ≡ num_readers → WriterMove m (taking k) m (writing (1 + rand % 100))
  modify :
      {left : ℕ} (rand rand' : ℕ)
      → WriterMove m
          (writing (suc left))
          (record m { library = set m.library (rand % library_size) (rand' % (max_num + 1)) })
          (writing left)
  written : {left : ℕ} → left ≡ 0 → WriterMove m (writing left) m (giving num_readers)
  give_place :
      {k : ℕ}
      → WriterMove m
          (giving (suc k))
          (record m { sem_library_empty = m.sem_library_empty + 1 })
          (giving k)
  post_writer :
      {k : ℕ} → k ≡ 0 → WriterMove m (giving k) (record m { sem_writer = m.sem_writer + 1 }) away

pub record System : Type 0 where
  pub shared : Shared
  pub reader : ℕ → Reader
  pub writer : ℕ → Writer

-- A step of one of the readers, or of one of `n` writers.
pub data Step (n : ℕ) (s : System) : System → Type 0 where
  reads :
      (i : ℕ) {m : Shared} {p : Reader}
      → i < num_readers
      → ReaderMove s.shared (s.reader i) m p
      → Step n s (record s { shared = m; reader = update s.reader i p })
  writes :
      (i : ℕ) {m : Shared} {p : Writer}
      → i < n
      → WriterMove s.shared (s.writer i) m p
      → Step n s (record s { shared = m; writer = update s.writer i p })

-- What `main` sets up; reader `i` looks for `1 + rand i % MAX_NUM`.
abbrev pub init : (ℕ → ℕ) → System
init rand = record {
  shared = record {
    library = replicate library_size 0;
    sem_writer = 1;
    sem_library_empty = num_readers;
  };
  reader = λ i. away (rand i % max_num + 1);
  writer = λ _. away;
}

pub data Reach (n : ℕ) (rand : ℕ → ℕ) : System → Type 0 where
  start : Reach n rand (init rand)
  later : {s t : System} → Reach n rand s → Step n s t → Reach n rand t

-- `reader_read` in one go: the loop over an array that nobody changes.
pub reader_read : ℕ → List ℕ → ℕ
reader_read num [] = 0
reader_read num (x ∷ xs) = if x == num then reader_read num xs + 1 else reader_read num xs
