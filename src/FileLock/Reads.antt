-- ===== src/FileLock/Reads.antt =====
-- What `parse` of lab2/zad3/src/file_lock.c reads of a command with its number.
use sysopy.Common.{
  ℕ, suc, ◌+◌, ◌-◌, ◌*◌, ◌≤◌, ◌<◌, ◌≡◌, ◌≢◌, refl, ap, ◌∙◌, Bool, true, false, some, ◌&&◌, ◌==◌,
  ltb, leb, List, [], ◌∷◌, ◌++◌, length, arith,
}
use mathlib.Core.Path.{subst}
use mathlib.Core.List.{append_assoc}
use sysopy.Common.Int.{pos}
use sysopy.FileLock.Text.{
  CmdIndex, set_read_lock, set_write_lock, print_locks, free_lock, read_character, write_character,
  text, command, is_blank, drop_last, cons_unless, strip_end, leading, drop, scan, copied, digits,
  int_limit, in_int, atoi, all_commands, recognize, is_exit, parse_stripped, parse,
}

abbrev numeral_byte : ℕ → ℕ
numeral_byte d = 48 + d

-- `ds` is the decimal numeral of `n`, byte by byte.
pub data Numeral : List ℕ → ℕ → Type 0 where
  one : (d : ℕ) → d < 10 → Numeral (numeral_byte d ∷ []) d
  more :
      (ds : List ℕ) (n d : ℕ)
      → Numeral ds n
      → d < 10
      → Numeral (ds ++ numeral_byte d ∷ []) (n * 10 + d)

abbrev Digit : ℕ → Type 0
Digit c = (48 ≤ c) × (c ≤ 57)

abbrev AllDigits : List ℕ → Type 0
AllDigits [] = Unit {0}
AllDigits (c ∷ cs) = Digit c × AllDigits cs

AllDigits-append : (xs ys : List ℕ) → AllDigits xs → AllDigits ys → AllDigits (xs ++ ys)
AllDigits-append [] ys left right = right
AllDigits-append (x ∷ xs) ys left right = (left.0, AllDigits-append xs ys left.1 right)

Numeral-AllDigits : (ds : List ℕ) (n : ℕ) → Numeral ds n → AllDigits ds
Numeral-AllDigits _ _ (one d lt) = ((omega arith, omega arith), tt)
Numeral-AllDigits _ _ (more ds n d numeral lt) =
    AllDigits-append ds (numeral_byte d ∷ []) (Numeral-AllDigits ds n numeral)
      ((omega arith, omega arith), tt)

length-snoc : (xs : List ℕ) (c : ℕ) → 0 < length (xs ++ c ∷ [])
length-snoc [] c = omega arith
length-snoc (x ∷ xs) c = omega arith

Numeral-length : (ds : List ℕ) (n : ℕ) → Numeral ds n → 0 < length ds
Numeral-length _ _ (one d lt) = omega arith
Numeral-length _ _ (more ds n d numeral lt) = length-snoc ds (48 + d)

Digit-test : (c : ℕ) → Digit c → (leb 48 c && leb c 57) ≡ true
Digit-test c digit = ground arith

Digit-is_blank : (c : ℕ) → Digit c → is_blank c ≡ false
Digit-is_blank c digit = ground arith

digits-snoc :
    (acc : ℕ) (ds : List ℕ) (d : ℕ)
    → AllDigits ds
    → d < 10
    → digits acc (ds ++ numeral_byte d ∷ []) ≡ digits acc ds * 10 + d
digits-snoc acc [] d all lt = rw (Digit-test (48 + d) (omega arith, omega arith)) (omega arith)
digits-snoc acc (c ∷ ds) d all lt =
    rw (Digit-test c all.0) (digits-snoc (acc * 10 + (c - 48)) ds d all.1 lt)

digits-Numeral : (ds : List ℕ) (n : ℕ) → Numeral ds n → digits 0 ds ≡ n
digits-Numeral _ _ (one d lt) = rw (Digit-test (48 + d) (omega arith, omega arith)) (omega arith)
digits-Numeral _ _ (more ds n d numeral lt) =
    digits-snoc 0 ds d (Numeral-AllDigits ds n numeral) lt ∙ rw (digits-Numeral ds n numeral) refl

Digit-apart : (c d : ℕ) → Digit c → d < 48 → (c == d) ≡ false
Digit-apart c d digit lt = ground arith

atoi-digits : (ds : List ℕ) → AllDigits ds → 0 < length ds → atoi ds ≡ in_int (pos (digits 0 ds))
unfolding atoi
atoi-digits [] all filled = absurd (omega arith)
atoi-digits (c ∷ ds) all filled =
    rw
      (
        Digit-is_blank c all.0,
        Digit-apart c 45 all.0 (omega arith),
        Digit-apart c 43 all.0 (omega arith),
      )
      refl

drop_last-snoc : (xs : List ℕ) (c : ℕ) → drop_last (xs ++ c ∷ []) ≡ xs
drop_last-snoc [] c = refl
drop_last-snoc (x ∷ []) c = refl
drop_last-snoc (x ∷ y ∷ xs) c = ap (λ r. x ∷ r) (drop_last-snoc (y ∷ xs) c)

cons_unless-cons : (b : Bool) (c d : ℕ) (cs : List ℕ) → cons_unless b c (d ∷ cs) ≡ c ∷ d ∷ cs
cons_unless-cons true c d cs = refl
cons_unless-cons false c d cs = refl

strip_end-digits : (ds : List ℕ) → AllDigits ds → strip_end ds ≡ ds
strip_end-digits [] all = refl
strip_end-digits (c ∷ ds) all = rw (Digit-is_blank c all.0, strip_end-digits ds all.1) refl

strip_end-append : (xs ds : List ℕ) → AllDigits ds → 0 < length ds → strip_end (xs ++ ds) ≡ xs ++ ds
strip_end-append [] ds all filled = strip_end-digits ds all
strip_end-append (x ∷ []) [] all filled = absurd (omega arith)
strip_end-append (x ∷ []) (d ∷ ds) all filled =
    rw (strip_end-digits (d ∷ ds) all) (cons_unless-cons (is_blank x) x d ds)
strip_end-append (x ∷ y ∷ xs) ds all filled =
    rw (strip_end-append (y ∷ xs) ds all filled) (cons_unless-cons (is_blank x) x y (xs ++ ds))

scan-digits : (c : ℕ) (ds : List ℕ) (found : ℕ × ℕ) → AllDigits ds → scan c ds found ≡ found
scan-digits c [] found all = refl
scan-digits c (d ∷ ds) found all =
    rw (Digit-apart d 32 all.0 (omega arith)) (scan-digits (suc c) ds found all.1)

in_int-pos : (n : ℕ) → n < int_limit → in_int (pos n) ≡ some (pos n)
in_int-pos n int = let small : ltb n int_limit ≡ true = ground arith in rw small refl

-- A line with one space and no blank around is its first word and the number after it.
module _ (fresh stale : ℕ → ℕ) (word ds : List ℕ) (n : ℕ) where
  abbrev line : List ℕ
  line = word ++ 32 ∷ ds

  parse-recognize :
      is_exit (line ++ 10 ∷ []) ≡ false
      → leading line ≡ 0
      → scan 0 line (0, 0) ≡ scan (suc (length word)) ds (1, length word)
      → drop (suc (length word)) line ≡ ds
      → Numeral ds n
      → n < int_limit
      → parse fresh stale (line ++ 10 ∷ [])
        ≡ recognize all_commands 1 (copied fresh stale line 0 (length word)) (some (pos n))
  unfolding parse
  parse-recognize no_exit no_blank scanned rest numeral int =
      let all = Numeral-AllDigits ds n numeral in
      let filled = Numeral-length ds n numeral in
      let shift : (word ++ 32 ∷ []) ++ ds ≡ line = append_assoc word (32 ∷ []) ds in
      let whole : strip_end line ≡ line =
        subst (λ l. strip_end l ≡ l) shift (strip_end-append (word ++ 32 ∷ []) ds all filled) in
      let one_space : scan 0 line (0, 0) ≡ (1, length word) =
        scanned ∙ scan-digits (suc (length word)) ds (1, length word) all in
      let number : atoi ds ≡ some (pos n) =
        atoi-digits ds all filled
        ∙ ap (λ (v : ℕ). in_int (pos v)) (digits-Numeral ds n numeral)
        ∙ in_int-pos n int in
      rw
        (
          parse,
          no_exit,
          drop_last-snoc line 10,
          whole,
          parse_stripped,
          no_blank,
          one_space,
          rest,
          number,
        )
        refl

-- The line that is the text of a command other than print_locks, a space, a number in decimal and
-- a newline is parsed as that command with that number, whenever the number is an int and the byte
-- behind the copied word, which malloc leaves as it is, happens to be 0.
pub parse-Numeral :
    (fresh stale : ℕ → ℕ) (k : CmdIndex) (ds : List ℕ) (n : ℕ)
    → k ≢ print_locks
    → Numeral ds n
    → n < int_limit
    → fresh (length (text k)) ≡ 0
    → parse fresh stale ((text k ++ 32 ∷ ds) ++ 10 ∷ []) ≡ command k (pos n)
parse-Numeral fresh stale print_locks ds n other numeral int ends = absurd (other refl)
parse-Numeral fresh stale set_read_lock ds n other numeral int ends =
    parse-recognize fresh stale (text set_read_lock) ds n refl refl refl refl numeral int
    ∙ rw ends refl
parse-Numeral fresh stale set_write_lock ds n other numeral int ends =
    parse-recognize fresh stale (text set_write_lock) ds n refl refl refl refl numeral int
    ∙ rw ends refl
parse-Numeral fresh stale free_lock ds n other numeral int ends =
    parse-recognize fresh stale (text free_lock) ds n refl refl refl refl numeral int ∙ rw ends refl
parse-Numeral fresh stale read_character ds n other numeral int ends =
    parse-recognize fresh stale (text read_character) ds n refl refl refl refl numeral int
    ∙ rw ends refl
parse-Numeral fresh stale write_character ds n other numeral int ends =
    parse-recognize fresh stale (text write_character) ds n refl refl refl refl numeral int
    ∙ rw ends refl
