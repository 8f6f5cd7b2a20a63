-- ===== src/TreeCrawler/Listing.antt =====
-- What traverse_recursively of lab2/zad2/src/file_tree_crawler.c prints and looks at.
use sysopy.Common.{
  ℕ, suc, ◌-◌, ◌≡◌, refl, sym, ap, ◌∙◌, inl, inr, true, false, ◌||◌, not, if◌then◌else◌, List, [],
  ◌∷◌, ◌++◌, length, take, arith, Bool-cases,
}
use mathlib.Core.List.{append_assoc, append-nil}
use sysopy.TreeCrawler.{
  Files, nothing, directory, regular, special, gone, Line, Crawler, compare_access, skips,
  lstat_entry, print_line, indent, unindent, cut, print_directory, traverse_recursively,
}

abbrev pub below : List ℕ → List ℕ → List ℕ
below path name = path ++ b'/' ∷ name

-- The lines for a tree at a depth; nothing is printed behind an entry that is gone.
abbrev pub lines_of : (permit : ℕ → ℕ) → (depth : ℕ) → Files → List Line
lines_of permit depth nothing = []
lines_of permit depth (directory name inside rest) =
    let deeper = lines_of permit (suc depth) inside in
    let others = lines_of permit depth rest in
    if skips name
    then others
    else record { indentation = depth; name = name; slash = true } ∷ deeper ++ others
lines_of permit depth (regular name m rest) =
    let others = lines_of permit depth rest in
    if skips name || not (compare_access permit m)
    then others
    else record { indentation = depth; name = name; slash = false } ∷ others
lines_of permit depth (special name rest) = lines_of permit depth rest
lines_of permit depth (gone name rest) =
    let others = lines_of permit depth rest in if skips name then others else []

-- The paths of the entries of a tree, as far as the walk comes.
abbrev pub paths_of : (path : List ℕ) → Files → List (List ℕ)
paths_of path nothing = []
paths_of path (directory name inside rest) =
    let deeper = paths_of (below path name) inside in
    let others = paths_of path rest in
    if skips name then others else below path name ∷ deeper ++ others
paths_of path (regular name m rest) =
    let others = paths_of path rest in if skips name then others else below path name ∷ others
paths_of path (special name rest) =
    let others = paths_of path rest in if skips name then others else below path name ∷ others
paths_of path (gone name rest) =
    let others = paths_of path rest in if skips name then others else below path name ∷ []

-- The entry of the outermost directory that was gone stays in the buffer.
abbrev pub left_over : Files → List ℕ
left_over nothing = []
left_over (directory name inside rest) = left_over rest
left_over (regular name m rest) = left_over rest
left_over (special name rest) = left_over rest
left_over (gone name rest) =
    let others = left_over rest in if skips name then others else b'/' ∷ name

abbrev adds : Crawler → List Line → List (List ℕ) → Crawler
adds s xs ys = record s { printed = s.printed ++ xs; lstats = s.lstats ++ ys }

abbrev leaves : List ℕ → Crawler → Crawler
leaves over s = record s { path_buffer = s.path_buffer ++ over }

-- What the walk makes of the state.
abbrev pub after : (permit : ℕ → ℕ) → Files → Crawler → Crawler
after permit files s =
    leaves (left_over files)
      (adds s (lines_of permit s.indentation_lvl files) (paths_of s.path_buffer files))

take-append : (xs ys : List ℕ) → take (length xs) (xs ++ ys) ≡ xs
take-append [] ys = refl
take-append (x ∷ xs) ys = ap (λ t. x ∷ t) (take-append xs ys)

adds-leaves :
    (s : Crawler) (over : List ℕ) (xs xs2 : List Line) (ys ys2 : List (List ℕ))
    → leaves over (adds (adds s xs ys) xs2 ys2) ≡ leaves over (adds s (xs ++ xs2) (ys ++ ys2))
adds-leaves s over xs xs2 ys ys2 =
    rw (append_assoc s.printed xs xs2, append_assoc s.lstats ys ys2) refl

-- One entry is done and the path is cut back.
cut_back :
    (s : Crawler) (name over : List ℕ) (xs : List Line) (ys : List (List ℕ))
    → cut (length s.path_buffer) (leaves over (adds (lstat_entry name s) xs ys))
      ≡ adds s xs (below s.path_buffer name ∷ ys)
cut_back s name over xs ys =
    rw
      (
        append_assoc s.path_buffer (b'/' ∷ name) over,
        take-append s.path_buffer (b'/' ∷ name ++ over),
        append_assoc s.lstats (below s.path_buffer name ∷ []) ys,
      )
      refl

entry_done :
    (permit : ℕ → ℕ) (rest : Files) (s : Crawler) (name over : List ℕ) (xs : List Line)
    (ys : List (List ℕ))
    → ((t : Crawler) → traverse_recursively permit rest t ≡ after permit rest t)
    → traverse_recursively permit rest
        (cut (length s.path_buffer) (leaves over (adds (lstat_entry name s) xs ys)))
      ≡ leaves (left_over rest) (
          adds s
            (xs ++ lines_of permit s.indentation_lvl rest)
            ((below s.path_buffer name ∷ ys) ++ paths_of s.path_buffer rest))
entry_done permit rest s name over xs ys walk =
    ap (traverse_recursively permit rest) (cut_back s name over xs ys)
    ∙ walk (adds s xs (below s.path_buffer name ∷ ys))
    ∙ adds-leaves s (left_over rest) xs (lines_of permit s.indentation_lvl rest)
        (below s.path_buffer name ∷ ys) (paths_of s.path_buffer rest)

adds_nothing : (s : Crawler) → leaves [] (adds s [] []) ≡ s
adds_nothing s = rw (append-nil s.path_buffer, append-nil s.printed, append-nil s.lstats) refl

adds_line : (s : Crawler) (l : Line) → leaves [] (adds s (l ∷ []) []) ≡ print_line l s
adds_line s l = rw (append-nil s.path_buffer, append-nil s.lstats) refl

-- Coming back from a directory.
come_back :
    (s : Crawler) (name over : List ℕ) (xs : List Line) (ys : List (List ℕ))
    → unindent (leaves over (adds (indent (print_directory name s)) xs ys))
      ≡ leaves over
          (adds s (record { indentation = s.indentation_lvl; name = name; slash = true } ∷ xs) ys)
come_back s name over xs ys =
    let level : suc s.indentation_lvl - 1 ≡ s.indentation_lvl = omega arith in
    rw
      (
        append_assoc s.printed
            (record { indentation = s.indentation_lvl; name = name; slash = true } ∷ []) xs,
        level,
      )
      refl

-- From any state, the walk over a tree prints the lines of the tree in order, with the dots of its
-- depth, calls lstat with the path of each entry that it comes to, and leaves the level of the
-- indentation and the path as they were; only the name of an entry for which lstat fails in the
-- outermost directory stays behind the path, and the walk of a directory ends at such an entry.
pub traverse_recursively_lem :
    (permit : ℕ → ℕ) (files : Files) (s : Crawler)
    → traverse_recursively permit files s ≡ after permit files s
unfolding traverse_recursively
traverse_recursively_lem permit nothing s = sym (adds_nothing s)
traverse_recursively_lem permit (directory name inside rest) s = elim (Bool-cases (skips name)) [
  | inl dots ↦ rw dots (traverse_recursively_lem permit rest s)
  | inr entry ↦
      let path = below s.path_buffer name in
      let deeper = lines_of permit (suc s.indentation_lvl) inside in
      let entered = indent (print_directory name (lstat_entry name s)) in
      rw entry (
        ap (λ t. traverse_recursively permit rest (cut (length s.path_buffer) (unindent t)))
          (traverse_recursively_lem permit inside entered)
        ∙ ap (λ t. traverse_recursively permit rest (cut (length s.path_buffer) t))
            (come_back (lstat_entry name s) name (left_over inside) deeper (paths_of path inside))
        ∙ entry_done permit rest s name (left_over inside)
            (record { indentation = s.indentation_lvl; name = name; slash = true } ∷ deeper)
            (paths_of path inside) (traverse_recursively_lem permit rest))
]
traverse_recursively_lem permit (regular name m rest) s = elim (Bool-cases (skips name)) [
  | inl dots ↦ rw dots (traverse_recursively_lem permit rest s)
  | inr entry ↦ elim (Bool-cases (compare_access permit m)) [
    | inl allowed ↦
        let l : Line = record { indentation = s.indentation_lvl; name = name; slash = false } in
        rw (entry, allowed)
          (ap (λ t. traverse_recursively permit rest (cut (length s.path_buffer) t))
              (sym (adds_line (lstat_entry name s) l))
            ∙ entry_done permit rest s name [] (l ∷ []) [] (traverse_recursively_lem permit rest))
    | inr refused ↦
        rw (entry, refused)
          (ap (λ t. traverse_recursively permit rest (cut (length s.path_buffer) t))
              (sym (adds_nothing (lstat_entry name s)))
            ∙ entry_done permit rest s name [] [] [] (traverse_recursively_lem permit rest))
  ]
]
traverse_recursively_lem permit (special name rest) s = elim (Bool-cases (skips name)) [
  | inl dots ↦ rw dots (traverse_recursively_lem permit rest s)
  | inr entry ↦ rw entry (
      ap (λ t. traverse_recursively permit rest (cut (length s.path_buffer) t))
        (sym (adds_nothing (lstat_entry name s)))
      ∙ entry_done permit rest s name [] [] [] (traverse_recursively_lem permit rest))
]
traverse_recursively_lem permit (gone name rest) s = elim (Bool-cases (skips name)) [
  | inl dots ↦ rw dots (traverse_recursively_lem permit rest s)
  | inr entry ↦ rw (entry, append-nil s.printed) refl
]
