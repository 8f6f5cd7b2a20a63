-- ===== src/FileLock/Session.antt =====
-- The loop of main of lab2/zad3/src/file_lock.c: a line is parsed, and its command is tried.
use sysopy.Common.{ℕ, List, [], ◌∷◌}
use sysopy.FileLock.Text.{
  Parsed, program_end, wrong_format, unknown, outside, beyond_int, command, parse,
}
use sysopy.FileLock.Locks.{File, Outcome, try_lock}

-- What a round of the loop meets: the line, what memory holds, the byte typed in for
-- write_character, the process that prints the locks, and what other processes do while the
-- program waits for the line and between its two calls of fcntl.
pub record Round : Type 0 where
  pub line : List ℕ
  pub fresh : ℕ → ℕ
  pub stale : ℕ → ℕ
  pub key : ℕ
  pub child : ℕ
  pub waiting : File → File
  pub others : File → File

-- The file at the end, and what was printed; the program has ended, is waiting for a line, or has
-- done what C leaves undefined: used memory outside the block of malloc, or called atoi for a number
-- that is no int.
pub data Session : Type 0 where
  has_ended : File → List Outcome → Session
  waits : File → List Outcome → Session
  undefined : File → List Outcome → Session

abbrev pub print : Outcome → Session → Session
print o (has_ended file os) = has_ended file (o ∷ os)
print o (waits file os) = waits file (o ∷ os)
print o (undefined file os) = undefined file (o ∷ os)

-- `if(cmd == NULL) continue; try_lock(cmd);`, and then the rest of the session
abbrev pub go_on : Parsed → (me : ℕ) → Round → File → (File → Session) → Session
go_on program_end me r file rest = has_ended file []
go_on outside me r file rest = undefined file []
go_on beyond_int me r file rest = undefined file []
go_on wrong_format me r file rest = rest file
go_on unknown me r file rest = rest file
go_on (command k num) me r file rest =
    let result = try_lock r.others k me r.child r.key num file in print result.0 (rest result.1)

unfoldable pub session : (me : ℕ) → List Round → File → Session
unfolding parse try_lock
session me [] file = waits file []
session me (r ∷ rounds) file =
    go_on (parse r.fresh r.stale r.line) me r (r.waiting file) (session me rounds)
