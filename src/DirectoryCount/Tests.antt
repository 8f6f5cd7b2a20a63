-- ===== src/DirectoryCount/Tests.antt =====
-- Directories of a few entries through the three processes of lab5/zad1/src/main.c, and the witness.
use sysopy.Common.{ℕ, ◌≡◌, refl, true, false, some, List, [], ◌∷◌, arith}
use sysopy.DirectoryCount.{Mode, Entry, get_access, take_line, grep, wc, print_count}
use sysopy.DirectoryCount.Printed.{Directories, print_count-Directories}

abbrev directory_mode : Mode
directory_mode = record {
  is_dir = true;
  user_read = true;
  user_write = true;
  user_execute = true;
  group_read = true;
  group_write = false;
  group_execute = true;
  other_read = true;
  other_write = false;
  other_execute = true;
}

abbrev file_mode : Mode
file_mode = record {
  is_dir = false;
  user_read = true;
  user_write = true;
  user_execute = false;
  group_read = true;
  group_write = false;
  group_execute = false;
  other_read = true;
  other_write = false;
  other_execute = false;
}

abbrev entry : Mode → List ℕ → Entry
entry m name = record { d_name = name; st_mode = m; size = 52 ∷ 48 ∷ [] }

-- ".", "src" and "dir", of which the last is a file
abbrev entries : List Entry
entries =
    entry directory_mode (b'.' ∷ [])
    ∷ entry directory_mode (b's' ∷ b'r' ∷ b'c' ∷ [])
    ∷ entry file_mode (b'd' ∷ b'i' ∷ b'r' ∷ [])
    ∷ []

print_count-Directories_example : (n : ℕ) × (print_count 4 entries ≡ some n) × Directories entries n
unfolding get_access
print_count-Directories_example =
    print_count-Directories 4 entries
      ((refl, refl, omega arith, (refl, refl, omega arith, (refl, refl, omega arith, tt))))
      (omega arith)

-- A file is counted when what follows a newline in its name starts with d.
newline_in_name : print_count 4 (entry file_mode (b'a' ∷ 10 ∷ b'd' ∷ []) ∷ []) ≡ some 1
unfolding print_count grep wc take_line get_access
newline_in_name = refl
