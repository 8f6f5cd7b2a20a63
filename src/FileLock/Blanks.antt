-- ===== src/FileLock/Blanks.antt =====
-- What `parse` of lab2/zad3/src/file_lock.c does with a line that starts with a blank: it counts the
-- space after the word from the start of the line, and copies as many bytes from after the blank.
use sysopy.Common.{
  ℕ, suc, ◌+◌, ◌<◌, ◌≡◌, refl, sym, ◌∙◌, ◌⊎◌, Bool, true, false, ◌==◌, ltb, leb, if◌then◌else◌,
  Bool-cases, inl, inr, Option, some, List, [], ◌∷◌, get_elem?, arith,
}
use sysopy.Common.Int.{ℤ}
use sysopy.FileLock.Text.{
  Parsed, wrong_format, unknown, outside, is_blank, drop_last, cons_unless, strip_end, leading,
  drop, scan, copied, atoi, all_commands, recognize, parse_stripped, parse,
}
use sysopy.FileLock.Words.{
  NoZero, drop_last-NoZero, strip_end-NoZero, scan-Spaced, get_elem?-drop, get_elem?-NoZero,
  recognize-unknown,
}

abbrev pub Rejected : Parsed → Type 0
Rejected result = (result ≡ wrong_format) ⊎ ((result ≡ outside) ⊎ (result ≡ unknown))

decide :
    (n : ℕ) (result : Parsed)
    → result ≡ unknown
    → Rejected (if leb 2 n then wrong_format else if n == 0 then outside else result)
decide n result e = elim (Bool-cases (leb 2 n)) [
  | inl many ↦ rw many (inl refl)
  | inr few ↦ elim (Bool-cases (n == 0)) [
    | inl no_number ↦ rw (few, no_number) (inr (inl refl))
    | inr one ↦ rw (few, one) (inr (inr e))
  ]
]

ltb-true : (a b : ℕ) → a < b → ltb a b ≡ true
ltb-true a b lt = ground arith

module _ (fresh stale : ℕ → ℕ) (line : List ℕ) (start : ℕ) where
  copied-get_elem? :
      (s i c : ℕ)
      → i < s
      → get_elem? line (start + i) ≡ some c
      → copied fresh stale line start s i ≡ c
  copied-get_elem? s i c lt e = rw (ltb-true i s lt, e) refl

  copied-unknown :
      (s j n : ℕ) (num : Option ℤ)
      → 0 < start
      → s ≡ start + j
      → NoZero line
      → get_elem? line (start + j) ≡ some 32
      → recognize all_commands n (copied fresh stale line start s) num ≡ unknown
  copied-unknown s j n num blanks at all space =
      recognize-unknown all_commands n (copied fresh stale line start s) j num
        (copied-get_elem? s j 32 (omega arith) space)
        λ i lt z.
          let (c, is_c, ne) =
            get_elem?-NoZero line (start + i) (start + j) all space (omega arith) in
          ne (sym (copied-get_elem? s i c (omega arith) is_c) ∙ z)

-- With a blank at its start, a line has no word that is a command.
parse_stripped-Rejected :
    (fresh stale : ℕ → ℕ) (line : List ℕ)
    → 0 < leading line
    → NoZero line
    → Rejected (parse_stripped fresh stale line)
unfolding parse_stripped
parse_stripped-Rejected fresh stale line blanks all =
    let start = leading line in
    let found = scan start (drop start line) (0, 0) in
    elim (scan-Spaced start (drop start line) (0, 0)) [
      | inl same ↦ rw (parse_stripped, same) (inr (inl refl))
      | inr (j, at, space) ↦ decide found.0 _ (
          copied-unknown fresh stale line start found.1 j found.0 (atoi (drop (suc found.1) line))
            blanks at all (sym (get_elem?-drop start line j) ∙ space))
    ]

cons_unless-leading :
    (b : Bool) (c : ℕ) (cs : List ℕ)
    → is_blank c ≡ true
    → (cons_unless b c cs ≡ []) ⊎ (0 < leading (cons_unless b c cs))
cons_unless-leading true c [] blank = inl refl
cons_unless-leading true c (d ∷ cs) blank = inr (rw blank (omega arith))
cons_unless-leading false c cs blank = inr (rw blank (omega arith))

stripped-leading :
    (c : ℕ) (cs : List ℕ)
    → is_blank c ≡ true
    → let line = strip_end (drop_last (c ∷ cs)) in (line ≡ []) ⊎ (0 < leading line)
stripped-leading c [] blank = inl refl
stripped-leading c (d ∷ cs) blank =
    cons_unless-leading (is_blank c) c (strip_end (drop_last (d ∷ cs))) blank

blank-apart : (c : ℕ) → is_blank c ≡ true → (101 == c) ≡ false
blank-apart c blank = ground arith

-- A line that starts with a space or a tab is never parsed as a command, whatever follows and
-- whatever memory holds: the result is the message on its format, that on an unknown command, or
-- an access outside the block of malloc.
pub parse-Rejected :
    (fresh stale : ℕ → ℕ) (c : ℕ) (cs : List ℕ)
    → is_blank c ≡ true
    → NoZero (c ∷ cs)
    → Rejected (parse fresh stale (c ∷ cs))
unfolding parse parse_stripped
parse-Rejected fresh stale c cs blank all =
    let line = strip_end (drop_last (c ∷ cs)) in
    let filled = strip_end-NoZero (drop_last (c ∷ cs)) (drop_last-NoZero (c ∷ cs) all) in
    rw (parse, blank-apart c blank)
      (elim (stripped-leading c cs blank) [
        | inl empty ↦ rw empty (inr (inl refl))
        | inr blanks ↦ parse_stripped-Rejected fresh stale line blanks filled
      ])
