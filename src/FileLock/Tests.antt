-- ===== src/FileLock/Tests.antt =====
-- Lines and locks of lab2/zad3/src/file_lock.c, and the witnesses.
use sysopy.Common.{List, ℕ, ◌≡◌, refl, inl, inr, [], ◌∷◌, ◌++◌, arith}
use sysopy.Common.Int.{pos}
use sysopy.FileLock.Text.{
  set_read_lock, print_locks, free_lock, text, unknown, outside, beyond_int, command, atoi,
  parse_stripped, parse,
}
use sysopy.FileLock.Locks.{read_lock, Lock, File, refused, acquired, try_lock}
use sysopy.FileLock.Reads.{Numeral, one, more, parse-Numeral}
use sysopy.FileLock.Blanks.{Rejected, parse-Rejected}
use sysopy.FileLock.Session.{Round, session, waits}
use sysopy.FileLock.Holds.{In, InWay, reader_free, try_lock-refused}

abbrev zeros : ℕ → ℕ
zeros _ = 0

-- Memory that held other bytes before.
abbrev sevens : ℕ → ℕ
sevens _ = 55

twelve : Numeral (49 ∷ 50 ∷ []) 12
twelve = more (49 ∷ []) 1 2 (one 1 (omega arith)) (omega arith)

parse-Numeral_example :
    parse zeros zeros ((text free_lock ++ 32 ∷ 49 ∷ 50 ∷ []) ++ 10 ∷ [])
    ≡ command free_lock (pos 12)
parse-Numeral_example =
    parse-Numeral zeros zeros free_lock (49 ∷ 50 ∷ []) 12 (λ e. cc) twelve (omega arith) refl

parse-Rejected_example : Rejected (parse zeros zeros (32 ∷ text free_lock ++ 32 ∷ 49 ∷ 10 ∷ []))
parse-Rejected_example = parse-Rejected zeros zeros 32 (text free_lock ++ 32 ∷ 49 ∷ 10 ∷ []) refl (
  λ e. cc,
  (
    λ e. cc,
    (
      λ e. cc,
      (
        λ e. cc,
        (
          λ e. cc,
          (
            λ e. cc,
            (λ e. cc, (λ e. cc, (λ e. cc, (λ e. cc, (λ e. cc, (λ e. cc, (λ e. cc, tt))))))),
          ),
        ),
      ),
    ),
  ),
)

-- 2147483648 is no int.
no_int :
    parse zeros zeros
      (text free_lock ++ 32 ∷ 50 ∷ 49 ∷ 52 ∷ 55 ∷ 52 ∷ 56 ∷ 51 ∷ 54 ∷ 52 ∷ 56 ∷ 10 ∷ [])
    ≡ beyond_int
unfolding parse parse_stripped atoi
no_int = refl

-- The byte behind the copied word is none of the source's: with another value no command is known.
dirty_block : parse sevens zeros (text free_lock ++ 32 ∷ 49 ∷ 10 ∷ []) ≡ unknown
unfolding parse parse_stripped atoi
dirty_block = refl

-- print_locks has no space, so the block has no byte.
print_locks_line : parse zeros zeros (text print_locks ++ 10 ∷ []) ≡ outside
unfolding parse parse_stripped atoi
print_locks_line = refl

-- Neither does the line "exit" end the program.
exit_line : parse zeros zeros (101 ∷ 120 ∷ 105 ∷ 116 ∷ 10 ∷ []) ≡ outside
unfolding parse parse_stripped atoi
exit_line = refl

-- Processes 1 and 2 have a lock for reading of byte 5.
abbrev shared : File
shared = record {
  content = 65 ∷ [];
  locks =
      record { pid = 1; kind = read_lock; start = 5 }
      ∷ record { pid = 2; kind = read_lock; start = 5 }
      ∷ [];
}

abbrev same_file : File → File
same_file file = file

-- Process 3 sets a lock for reading of byte 5 and then frees it, which is refused.
abbrev typed : List ℕ → Round
typed line = record {
  line = line;
  fresh = zeros;
  stale = zeros;
  key = 0;
  child = 9;
  waiting = same_file;
  others = same_file;
}

abbrev typed_lines : List Round
typed_lines =
    typed (text set_read_lock ++ b' ' ∷ b'5' ∷ 10 ∷ [])
    ∷ typed (text free_lock ++ b' ' ∷ b'5' ∷ 10 ∷ [])
    ∷ []

abbrev first_reader : Lock
first_reader = record { pid = 1; kind = read_lock; start = 5 }

session_prints :
    session 3 typed_lines shared
    ≡ waits
        (record shared { locks = record first_reader { pid = 3 } ∷ shared.locks })
        (acquired ∷ refused first_reader ∷ [])
unfolding session parse parse_stripped atoi try_lock
session_prints = refl

-- Process 1 cannot free its own lock.
try_lock-refused_example :
    (found : Lock) × (try_lock same_file free_lock 1 9 0 (pos 5) shared ≡ (refused found, shared))
    × In found shared.locks
    × InWay 1 free_lock 5 found
try_lock-refused_example =
    try_lock-refused same_file free_lock 1 9 0 5 shared (record first_reader { pid = 2 }) (λ e. cc)
      (inr (inl refl)) ((λ e. ground arith), refl, reader_free)

third_reader : (try_lock same_file set_read_lock 3 9 0 (pos 5) shared).0 ≡ acquired
unfolding try_lock
third_reader = refl
