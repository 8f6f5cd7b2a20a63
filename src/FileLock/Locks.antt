-- ===== src/FileLock/Locks.antt =====
-- `try_lock` and `print_locks` of lab2/zad3/src/file_lock.c, on the locks of a file. fcntl is what
-- POSIX says of locks of one byte: a process has at most one on a byte, F_GETLK names a lock of
-- another process that is in the way, F_SETLK fails for it, or puts the lock in place of the own one.
use sysopy.Common.{
  ℕ, zero, suc, Bool, true, false, ◌&&◌, ◌==◌, not, if◌then◌else◌, Option, none, some, List, [],
  ◌∷◌, length, get_elem?,
}
use sysopy.Common.Int.{ℤ, pos, negsuc}
use sysopy.FileLock.Text.{
  CmdIndex, set_read_lock, set_write_lock, print_locks, free_lock, read_character, write_character,
}

-- F_RDLCK and F_WRLCK
pub data Kind : Type 0 where
  read_lock : Kind
  write_lock : Kind

-- The fields of `struct flock` that matter for one byte.
pub record Lock : Type 0 where
  pub pid : ℕ
  pub kind : Kind
  pub start : ℕ

pub record File : Type 0 where
  pub content : List ℕ
  pub locks : List Lock

abbrev pub excludes : Kind → Kind → Bool
excludes read_lock read_lock = false
excludes _ _ = true

-- The lock of another process that is in the way of `me`
abbrev pub in_way : ℕ → Kind → ℕ → Lock → Bool
in_way me kind start lock = not (lock.pid == me) && lock.start == start && excludes kind lock.kind

-- F_GETLK; none stands for F_UNLCK.
abbrev pub getlk : ℕ → Kind → ℕ → List Lock → Option Lock
getlk me kind start [] = none
getlk me kind start (lock ∷ locks) =
    if in_way me kind start lock then some lock else getlk me kind start locks

-- The own lock of the byte goes.
abbrev pub without : ℕ → ℕ → List Lock → List Lock
without me start [] = []
without me start (lock ∷ locks) =
    if lock.pid == me && lock.start == start
    then without me start locks
    else lock ∷ without me start locks

abbrev pub unlk : ℕ → ℕ → File → File
unlk me start file = record file { locks = without me start file.locks }

-- What the call prints, and the lock or byte it prints with it.
pub data Outcome : Type 0 where
  check_error : Outcome
  refused : Lock → Outcome
  acquired : Outcome
  not_acquired : Outcome
  released : Outcome
  byte_read : ℕ → Outcome
  read_error : Outcome
  byte_written : Outcome
  locks_printed : List Lock → Outcome

-- F_SETLK
abbrev pub setlk_if : Option Lock → Lock → File → Outcome × File
setlk_if (some _) lock file = (not_acquired, file)
setlk_if none lock file =
    (acquired, record file { locks = lock ∷ without lock.pid lock.start file.locks })

abbrev pub setlk : ℕ → Kind → ℕ → File → Outcome × File
setlk me kind start file =
    setlk_if (getlk me kind start file.locks) (record { pid = me; kind = kind; start = start }) file

-- `lseek` and `read` of one byte
abbrev read_byte : Option ℕ → Outcome
read_byte none = read_error
read_byte (some b) = byte_read b

-- `lseek` and `write` of one byte; behind the end the file is filled with 0.
abbrev pub write_at : ℕ → ℕ → List ℕ → List ℕ
write_at zero b [] = b ∷ []
write_at zero b (c ∷ cs) = b ∷ cs
write_at (suc n) b [] = 0 ∷ write_at n b []
write_at (suc n) b (c ∷ cs) = c ∷ write_at n b cs

-- The loop of print_locks over `n` bytes, run in a child process, which has no lock itself.
abbrev printed : Option Lock → List Lock → List Lock
printed none rest = rest
printed (some lock) rest = lock ∷ rest

abbrev print_from : ℕ → ℕ → ℕ → List Lock → List Lock
print_from child counter zero locks = []
print_from child counter (suc n) locks =
    printed (getlk child write_lock counter locks) (print_from child (suc counter) n locks)

-- `flock_ltype`, with which the byte is checked first; print_locks returns before the check.
abbrev pub flock_ltype : CmdIndex → Kind
flock_ltype set_read_lock = read_lock
flock_ltype set_write_lock = write_lock
flock_ltype print_locks = write_lock
flock_ltype free_lock = write_lock
flock_ltype read_character = read_lock
flock_ltype write_character = write_lock

-- The second switch; `key` is the byte typed in for write_character.
abbrev pub perform : CmdIndex → (me child key : ℕ) → ℕ → File → Outcome × File
perform set_read_lock me child key start file = setlk me read_lock start file
perform set_write_lock me child key start file = setlk me write_lock start file
perform print_locks me child key start file =
    (locks_printed (print_from child 0 (length file.content) file.locks), file)
perform free_lock me child key start file = (released, unlk me start file)
perform read_character me child key start file = (read_byte (get_elem? file.content start), file)
perform write_character me child key start file =
    (byte_written, record file { content = write_at start key file.content })

-- `others` is what other processes do to the file between the two calls of fcntl.
abbrev pub perform_if :
    Option Lock → (File → File) → CmdIndex → (me child key : ℕ) → ℕ → File → Outcome × File
perform_if (some lock) others cmd me child key start file = (refused lock, file)
perform_if none others cmd me child key start file = perform cmd me child key start (others file)

abbrev pub try_lock_at : (File → File) → CmdIndex → (me child key : ℕ) → ℤ → File → Outcome × File
try_lock_at others cmd me child key (negsuc n) file = (check_error, file)
try_lock_at others cmd me child key (pos start) file =
    perform_if (getlk me (flock_ltype cmd) start file.locks) others cmd me child key start file

unfoldable pub try_lock : (File → File) → CmdIndex → (me child key : ℕ) → ℤ → File → Outcome × File
try_lock others print_locks me child key num file = perform print_locks me child key 0 file
try_lock others cmd me child key num file = try_lock_at others cmd me child key num file
