-- ===== src/DirectoryCount/Printed.antt =====
-- The number that lab5/zad1/src/main.c prints for the entries of a directory.
use sysopy.Common.{
  ℕ, suc, ◌≤◌, ◌<◌, ◌≡◌, ◌≢◌, ◌⊎◌, sym, refl, ap, ◌∙◌, inl, inr, Bool, true, false, ◌==◌,
  if◌then◌else◌, some, ◌>>=◌, List, [], ◌∷◌, ◌++◌, length, arith, Bool-cases,
}
use mathlib.Core.List.{append_assoc}
use sysopy.Common.Strings.{same_text}
use sysopy.DirectoryCount.{
  Mode, Entry, flag, get_access, text_of, is_dots, list_entries, starts_with_d, grep, wc,
  print_count,
}
use sysopy.DirectoryCount.Counts.{
  one_line, one_line-append, unlines, AllFit, passing, grep-lines, wc-lines, AllFit-passing,
  length-passing,
}

-- The texts of the entries that are listed.
abbrev bodies : List Entry → List (List ℕ)
bodies [] = []
bodies (e ∷ es) = let rest = bodies es in if is_dots e.d_name then rest else text_of e ∷ rest

-- Each line fits the buffer of fgets and no name has a newline in it.
abbrev pub Listable : List Entry → Type 0
Listable [] = Unit {0}
Listable (e ∷ es) =
    (one_line e.d_name ≡ true)
    × (one_line e.size ≡ true)
    × (length (text_of e) < 1023)
    × Listable es

-- How many of the entries are directories, those that are called . and .. left out.
pub data Directories : List Entry → ℕ → Type 0 where
  none_left : Directories [] 0
  dots :
      {e : Entry} {es : List Entry} {n : ℕ}
      → (e.d_name ≡ b'.' ∷ []) ⊎ (e.d_name ≡ b'.' ∷ b'.' ∷ [])
      → Directories es n
      → Directories (e ∷ es) n
  directory :
      {e : Entry} {es : List Entry} {n : ℕ}
      → e.d_name ≢ b'.' ∷ []
      → e.d_name ≢ b'.' ∷ b'.' ∷ []
      → e.st_mode.is_dir ≡ true
      → Directories es n
      → Directories (e ∷ es) (suc n)
  other :
      {e : Entry} {es : List Entry} {n : ℕ}
      → e.st_mode.is_dir ≡ false
      → Directories es n
      → Directories (e ∷ es) n

same_text_equal : (xs ys : List ℕ) → same_text xs ys ≡ true → xs ≡ ys
same_text_equal [] [] same = refl
same_text_equal [] (y ∷ ys) same = absurd cc
same_text_equal (x ∷ xs) [] same = absurd cc
same_text_equal (x ∷ xs) (y ∷ ys) same = elim (Bool-cases (x == y)) [
  | inl heads ↦
      let tails : xs ≡ ys = same_text_equal xs ys (ground arith) in
      let first : x ≡ y = ground arith in cc
  | inr apart ↦ absurd (ground arith)
]

same_text_refl : (xs : List ℕ) → same_text xs xs ≡ true
same_text_refl [] = refl
same_text_refl (x ∷ xs) = let rest : same_text xs xs ≡ true = same_text_refl xs in ground arith

same_text_apart : (xs ys : List ℕ) → same_text xs ys ≡ false → ys ≢ xs
same_text_apart xs ys apart same =
    let self : same_text xs xs ≡ true = same_text_refl xs in absurd cc

is_dots-true :
    (name : List ℕ) → is_dots name ≡ true → (name ≡ b'.' ∷ []) ⊎ (name ≡ b'.' ∷ b'.' ∷ [])
is_dots-true name dotted = elim (Bool-cases (same_text (b'.' ∷ b'.' ∷ []) name)) [
  | inl two ↦ inr (sym (same_text_equal (b'.' ∷ b'.' ∷ []) name two))
  | inr less ↦ inl (sym (same_text_equal (b'.' ∷ []) name (ground arith)))
]

flag-apart : (letter : ℕ) (set : Bool) → 10 < letter → (flag letter set == 10) ≡ false
flag-apart letter true large = ground arith
flag-apart letter false large = refl

get_access-one_line : (m : Mode) → one_line (get_access m) ≡ true
unfolding get_access
get_access-one_line m =
    rw
      (
        flag-apart b'd' m.is_dir (omega arith),
        flag-apart b'r' m.user_read (omega arith),
        flag-apart b'w' m.user_write (omega arith),
        flag-apart b'x' m.user_execute (omega arith),
        flag-apart b'r' m.group_read (omega arith),
        flag-apart b'w' m.group_write (omega arith),
        flag-apart b'x' m.group_execute (omega arith),
        flag-apart b'r' m.other_read (omega arith),
        flag-apart b'w' m.other_write (omega arith),
        flag-apart b'x' m.other_execute (omega arith),
      )
      refl

text_of-one_line :
    (e : Entry) → one_line e.d_name ≡ true → one_line e.size ≡ true → one_line (text_of e) ≡ true
unfolding get_access
text_of-one_line e name size =
    one_line-append (get_access e.st_mode) (b' ' ∷ e.size ++ e.d_name)
      (get_access-one_line e.st_mode) (one_line-append e.size e.d_name size name)

Listable-AllFit : (es : List Entry) → Listable es → AllFit (bodies es)
Listable-AllFit [] fit = tt
Listable-AllFit (e ∷ es) (name, size, short, fit) = elim (Bool-cases (is_dots e.d_name)) [
  | inl hidden ↦ rw hidden (Listable-AllFit es fit)
  | inr shown ↦ rw shown (text_of-one_line e name size, short, Listable-AllFit es fit)
]

length-bodies : (es : List Entry) → length (bodies es) ≤ length es
length-bodies [] = omega arith
length-bodies (e ∷ es) =
    let shorter : length (bodies es) ≤ length es = length-bodies es in
    elim (Bool-cases (is_dots e.d_name)) [
      | inl hidden ↦ rw hidden (omega arith)
      | inr shown ↦ rw shown (omega arith)
    ]

list_entries-unlines : (es : List Entry) → list_entries es ≡ unlines (bodies es)
list_entries-unlines [] = refl
list_entries-unlines (e ∷ es) = elim (Bool-cases (is_dots e.d_name)) [
  | inl hidden ↦ rw hidden (list_entries-unlines es)
  | inr shown ↦ rw shown (
      append_assoc (text_of e) (10 ∷ []) (list_entries es)
      ∙ ap (λ rest. text_of e ++ 10 ∷ rest) (list_entries-unlines es))
]

text_of-starts_with_d : (e : Entry) → starts_with_d (text_of e ++ 10 ∷ []) ≡ e.st_mode.is_dir
unfolding get_access
text_of-starts_with_d e = elim (Bool-cases e.st_mode.is_dir) [
  | inl is ↦ rw is refl
  | inr not_one ↦ rw not_one refl
]

passing-Directories : (es : List Entry) → Directories es (length (passing (bodies es)))
passing-Directories [] = none_left
passing-Directories (e ∷ es) = elim (Bool-cases (is_dots e.d_name)) [
  | inl hidden ↦ rw hidden (dots (is_dots-true e.d_name hidden) (passing-Directories es))
  | inr shown ↦ elim (Bool-cases e.st_mode.is_dir) [
    | inl is ↦
        rw (shown, text_of-starts_with_d e ∙ is)
          (directory (same_text_apart (b'.' ∷ []) e.d_name (ground arith))
            (same_text_apart (b'.' ∷ b'.' ∷ []) e.d_name (ground arith)) is
            (passing-Directories es))
    | inr not_one ↦
        rw (shown, text_of-starts_with_d e ∙ not_one) (other not_one (passing-Directories es))
  ]
]

-- With fuel for one read more than there are entries, the three processes end and print the number
-- of directories among the entries, . and .. left out. The lines are shorter than 1023 bytes, and
-- neither a name nor a size has a newline.
pub print_count-Directories :
    (fuel : ℕ) (es : List Entry)
    → Listable es
    → length es < fuel
    → (n : ℕ) × (print_count fuel es ≡ some n) × Directories es n
unfolding print_count
print_count-Directories fuel es fit enough =
    let few : length (bodies es) ≤ length es = length-bodies es in
    let fewer : length (passing (bodies es)) ≤ length (bodies es) = length-passing (bodies es) in
    let fits : AllFit (bodies es) = Listable-AllFit es fit in
    (
      length (passing (bodies es)),
      ap (λ written. grep fuel written >>= wc fuel) (list_entries-unlines es)
          ∙ ap (λ passed. passed >>= wc fuel) (grep-lines fuel (bodies es) fits (omega arith))
          ∙ wc-lines fuel (passing (bodies es)) (AllFit-passing (bodies es) fits) (omega arith),
      passing-Directories es,
    )
