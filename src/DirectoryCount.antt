-- ===== src/DirectoryCount.antt =====
-- The program of lab 5 that counts directories (lab5/zad1/src/main.c): one process writes a line for
-- each entry of a directory to a pipe, a second passes the lines that start with d on to another
-- pipe, and a third counts those. Counts says what
-- each process makes of whole lines, and Printed what is printed.
pub mod Counts
pub mod Printed
mod Tests
use sysopy.Common.{
  ℕ, zero, suc, ◌+◌, ◌≡◌, Bool, true, false, ◌||◌, ◌==◌, if◌then◌else◌, Option, none, some, ◌>>=◌,
  List, [], ◌∷◌, ◌++◌,
}
use sysopy.Common.Strings.{same_text}

-- The bits of `st_mode` that get_access tests.
pub record Mode : Type 0 where
  pub is_dir : Bool
  pub user_read : Bool
  pub user_write : Bool
  pub user_execute : Bool
  pub group_read : Bool
  pub group_write : Bool
  pub group_execute : Bool
  pub other_read : Bool
  pub other_write : Bool
  pub other_execute : Bool

-- An entry as readdir and lstat give it; `size` is the size in decimal, as sprintf writes it.
pub record Entry : Type 0 where
  pub d_name : List ℕ
  pub st_mode : Mode
  pub size : List ℕ

abbrev pub flag : ℕ → Bool → ℕ
flag letter set = if set then letter else b'-'

unfoldable pub get_access : Mode → List ℕ
get_access m =
    flag b'd' m.is_dir
    ∷ flag b'r' m.user_read
    ∷ flag b'w' m.user_write
    ∷ flag b'x' m.user_execute
    ∷ flag b'r' m.group_read
    ∷ flag b'w' m.group_write
    ∷ flag b'x' m.group_execute
    ∷ flag b'r' m.other_read
    ∷ flag b'w' m.other_write
    ∷ flag b'x' m.other_execute
    ∷ []

-- The line without its newline. The ten bytes of get_access have no 0 behind them, so what strcpy
-- copies of the heap is overwritten as far as the line reaches.
abbrev pub text_of : Entry → List ℕ
text_of e = get_access e.st_mode ++ b' ' ∷ e.size ++ e.d_name

abbrev pub is_dots : List ℕ → Bool
is_dots name = same_text (b'.' ∷ b'.' ∷ []) name || same_text (b'.' ∷ []) name

-- What the first process writes
abbrev pub list_entries : List Entry → List ℕ
list_entries [] = []
list_entries (e ∷ es) =
    let rest = list_entries es in if is_dots e.d_name then rest else (text_of e ++ 10 ∷ []) ++ rest

-- `fgets` into a buffer with room for `n` bytes and the 0, and what is left to read
unfoldable pub take_line : ℕ → List ℕ → List ℕ × List ℕ
take_line zero cs = ([], cs)
take_line (suc n) [] = ([], [])
take_line (suc n) (c ∷ cs) =
    let more = take_line n cs in if c == 10 then (c ∷ [], cs) else (c ∷ more.0, more.1)

abbrev pub starts_with_d : List ℕ → Bool
starts_with_d [] = false
starts_with_d (c ∷ cs) = c == b'd'

abbrev pub pass_if : Bool → List ℕ → Option (List ℕ) → Option (List ℕ)
pass_if passes line none = none
pass_if passes line (some rest) = some (if passes then line ++ rest else rest)

-- The second process; none when the fuel runs out. A buffer has 1024 bytes.
unfoldable pub grep : (fuel : ℕ) → List ℕ → Option (List ℕ)
grep zero cs = none
grep (suc fuel) [] = some []
grep (suc fuel) (c ∷ cs) =
    let line = take_line 1023 (c ∷ cs) in
    let rest = grep fuel line.1 in pass_if (starts_with_d line.0) line.0 rest

abbrev pub increase : Option ℕ → Option ℕ
increase none = none
increase (some n) = some (suc n)

-- The third process
unfoldable pub wc : (fuel : ℕ) → List ℕ → Option ℕ
wc zero cs = none
wc (suc fuel) [] = some 0
wc (suc fuel) (c ∷ cs) = let rest = wc fuel (take_line 1023 (c ∷ cs)).1 in increase rest

-- The number that is printed
unfoldable pub print_count : (fuel : ℕ) → List Entry → Option ℕ
print_count fuel es = grep fuel (list_entries es) >>= wc fuel
