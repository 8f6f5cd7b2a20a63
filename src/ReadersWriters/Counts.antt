-- ===== src/ReadersWriters/Counts.antt =====
-- What the two semaphores of lab9/zad2/src/rw.c count.
use sysopy.Common.{ℕ, ◌+◌, ◌≤◌, ◌<◌, ◌≡◌, List, take, length}
use sysopy.Common.Family.{total}
use sysopy.ReadersWriters.{
  num_readers, library_size, Reader, scanning, report, Writer, taking, writing, giving, System,
  reader_read,
}

-- Places in the library that a thread has taken.
abbrev pub present : Reader → ℕ
present (Reader.away _) = 0
present _ = 1

abbrev pub places : Writer → ℕ
places Writer.away = 0
places (taking k) = k
places (writing _) = num_readers
places (giving k) = k

-- A writer past `sem_writer`.
abbrev pub admitted : Writer → ℕ
admitted Writer.away = 0
admitted _ = 1

-- A reader in its loop has counted the occurrences among the entries that it has passed.
abbrev pub Counted : List ℕ → Reader → Type 0
Counted library (Reader.away num) = Unit
Counted library (scanning num i num_found) =
    (i ≤ library_size) × (num_found ≡ reader_read num (take i library))
Counted library (report num num_found) = num_found ≡ reader_read num library

pub record Inv (n : ℕ) (s : System) : Type 0 where
  pub one : s.shared.sem_writer + total admitted n s.writer ≡ 1
  pub room :
      s.shared.sem_library_empty + total present num_readers s.reader + total places n s.writer
      ≡ num_readers
  pub size : length s.shared.library ≡ library_size
  pub counted : (i : ℕ) → i < num_readers → Counted s.shared.library (s.reader i)
  pub few : (i : ℕ) → i < n → places (s.writer i) ≤ num_readers
