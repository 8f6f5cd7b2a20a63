-- ===== src/TreeCrawler.antt =====
-- The directory walker of lab 2 (lab2/zad2/src/file_tree_crawler.c): it prints a tree of directories
-- and the regular files whose permissions a template allows. One buffer holds the path, which each
-- entry extends and then cuts back. Listing says what is printed and which paths lstat gets,
-- Access which files a template lets through.
pub mod Listing
pub mod Access
mod Tests
use sysopy.Common.{
  ℕ, suc, ◌-◌, Bool, true, false, ◌&&◌, ◌||◌, not, ◌==◌, if◌then◌else◌, Option, none, some, List,
  [], ◌∷◌, ◌++◌, length, take,
}
use sysopy.Common.Strings.{same_text}
use sysopy.DirectoryCount.{Mode}

-- What readdir and lstat give for a directory, entry by entry; lstat fails for one that is gone.
pub data Files : Type 0 where
  nothing : Files
  directory : (d_name : List ℕ) (inside rest : Files) → Files
  regular : (d_name : List ℕ) (st_mode : Mode) (rest : Files) → Files
  special : (d_name : List ℕ) (rest : Files) → Files
  gone : (d_name : List ℕ) (rest : Files) → Files

-- A line that is printed: the dots before it, the name, and the slash of a directory. The size and
-- the time of a file are left out.
pub record Line : Type 0 where
  pub indentation : ℕ
  pub name : List ℕ
  pub slash : Bool

-- The globals, up to the 0 of the buffer, with the lines printed for directories and files and the
-- paths that lstat was called with. The messages on failures are left out.
pub record Crawler : Type 0 where
  pub path_buffer : List ℕ
  pub indentation_lvl : ℕ
  pub printed : List Line
  pub lstats : List (List ℕ)

abbrev pub refuses : Bool → (got letter : ℕ) → Bool
refuses set got letter = set && not (got == letter)

abbrev pub none_holds : List Bool → Bool
none_holds [] = true
none_holds (true ∷ tests) = false
none_holds (false ∷ tests) = none_holds tests

-- `permit` gives the bytes of permit_word. The first test that holds returns 0.
unfoldable pub compare_access : (permit : ℕ → ℕ) → Mode → Bool
compare_access permit m = none_holds (
    refuses m.user_read (permit 0) b'r'
    ∷ refuses m.user_write (permit 1) b'w'
    ∷ refuses m.user_execute (permit 2) b'x'
    ∷ refuses m.group_read (permit 3) b'r'
    ∷ refuses m.group_write (permit 4) b'w'
    ∷ refuses m.group_execute (permit 5) b'x'
    ∷ refuses m.other_read (permit 6) b'r'
    ∷ refuses m.other_write (permit 7) b'w'
    ∷ refuses m.other_execute (permit 8) b'x'
    ∷ [])

abbrev pub skips : List ℕ → Bool
skips name = same_text name (b'.' ∷ []) || same_text name (b'.' ∷ b'.' ∷ [])

-- The path of the entry, for which lstat is called
abbrev pub lstat_entry : List ℕ → Crawler → Crawler
lstat_entry name s =
    let path = s.path_buffer ++ b'/' ∷ name in
    record s { path_buffer = path; lstats = s.lstats ++ path ∷ [] }

abbrev pub print_line : Line → Crawler → Crawler
print_line l s = record s { printed = s.printed ++ l ∷ [] }

abbrev pub indent : Crawler → Crawler
indent s = record s { indentation_lvl = suc s.indentation_lvl }

abbrev pub unindent : Crawler → Crawler
unindent s = record s { indentation_lvl = s.indentation_lvl - 1 }

-- `path_buffer[--path_len] = 0`
abbrev pub cut : (path_len : ℕ) → Crawler → Crawler
cut path_len s = record s { path_buffer = take path_len s.path_buffer }

abbrev pub print_regular : Bool → List ℕ → Crawler → Crawler
print_regular true name s =
    print_line (record { indentation = s.indentation_lvl; name = name; slash = false }) s
print_regular false name s = s

abbrev pub print_directory : List ℕ → Crawler → Crawler
print_directory name s =
    print_line (record { indentation = s.indentation_lvl; name = name; slash = true }) s

unfoldable pub traverse_recursively : (permit : ℕ → ℕ) → Files → Crawler → Crawler
traverse_recursively permit nothing s = s
traverse_recursively permit (directory name inside rest) s =
    let deeper =
      traverse_recursively permit inside (indent (print_directory name (lstat_entry name s))) in
    traverse_recursively permit rest
      (if skips name then s else cut (length s.path_buffer) (unindent deeper))
traverse_recursively permit (regular name m rest) s =
    let shown = print_regular (compare_access permit m) name (lstat_entry name s) in
    traverse_recursively permit rest (if skips name then s else cut (length s.path_buffer) shown)
traverse_recursively permit (special name rest) s =
    traverse_recursively permit rest
      (if skips name then s else cut (length s.path_buffer) (lstat_entry name s))
traverse_recursively permit (gone name rest) s =
    let others = traverse_recursively permit rest s in
    if skips name then others else lstat_entry name s

-- The template against the letters, from a position on; its end is a 0, which is neither.
abbrev pub verify_from : (letters templ : List ℕ) → Bool
verify_from [] templ = true
verify_from (l ∷ letters) [] = false
verify_from (l ∷ letters) (c ∷ templ) = (c == l || c == b'-') && verify_from letters templ

-- Whether the program goes on. For another length than 9 it only prints.
unfoldable pub verify_access_template : List ℕ → Bool
verify_access_template templ =
    verify_from (b'r' ∷ b'w' ∷ b'x' ∷ b'r' ∷ b'w' ∷ b'x' ∷ b'r' ∷ b'w' ∷ b'x' ∷ []) templ
