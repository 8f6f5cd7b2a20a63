-- ===== src/FileLock/Words.antt =====
-- Which bytes are no command of lab2/zad3/src/file_lock.c.
use sysopy.Common.{
  ℕ, zero, suc, ◌+◌, ◌<◌, ◌≡◌, ◌≢◌, refl, sym, ap, ◌∙◌, ◌⊎◌, Bool, true, false, ◌&&◌, ◌==◌, not,
  Bool-cases, inl, inr, Option, some, List, [], ◌∷◌, get_elem?, arith,
}
use mathlib.Core.Path.{subst}
use sysopy.Common.Int.{ℤ}
use sysopy.FileLock.Text.{
  CmdIndex, set_read_lock, set_write_lock, print_locks, free_lock, read_character, write_character,
  text, unknown, is_blank, drop_last, cons_unless, strip_end, drop, scan, matches, recognize,
}

-- No byte is 0, as in a C string.
abbrev pub NoZero : List ℕ → Type 0
NoZero [] = Unit {0}
NoZero (c ∷ cs) = (c ≢ 0) × NoZero cs

pub drop_last-NoZero : (cs : List ℕ) → NoZero cs → NoZero (drop_last cs)
drop_last-NoZero [] all = tt
drop_last-NoZero (c ∷ []) all = tt
drop_last-NoZero (c ∷ d ∷ cs) all = (all.0, drop_last-NoZero (d ∷ cs) all.1)

cons_unless-NoZero :
    (b : Bool) (c : ℕ) (cs : List ℕ) → c ≢ 0 → NoZero cs → NoZero (cons_unless b c cs)
cons_unless-NoZero true c [] ne all = tt
cons_unless-NoZero true c (d ∷ cs) ne all = (ne, all)
cons_unless-NoZero false c cs ne all = (ne, all)

pub strip_end-NoZero : (cs : List ℕ) → NoZero cs → NoZero (strip_end cs)
strip_end-NoZero [] all = tt
strip_end-NoZero (c ∷ cs) all =
    cons_unless-NoZero (is_blank c) c (strip_end cs) all.0 (strip_end-NoZero cs all.1)

-- The result of a scan: nothing new, or the index of a space.
abbrev Spaced : ℕ → List ℕ → ℕ × ℕ → ℕ × ℕ → Type 0
Spaced c ds found result =
    (result ≡ found) ⊎ ((j : ℕ) × (result.1 ≡ c + j) × (get_elem? ds j ≡ some 32))

eq_of-== : (a b : ℕ) → (a == b) ≡ true → a ≡ b
eq_of-== a b e = ground arith

pub scan-Spaced : (c : ℕ) (ds : List ℕ) (found : ℕ × ℕ) → Spaced c ds found (scan c ds found)
scan-Spaced c [] found = inl refl
scan-Spaced c (d ∷ ds) found = elim (Bool-cases (d == 32)) [
  | inl e ↦
      let here : d ≡ 32 = eq_of-== d 32 e in
      let step : scan c (d ∷ ds) found ≡ scan (suc c) ds (suc found.0, c) = rw e refl in
      subst (Spaced c (d ∷ ds) found) (sym step) (elim (scan-Spaced (suc c) ds (suc found.0, c)) [
        | inl same ↦ inr (0, rw same (omega arith), ap some here)
        | inr (j, at, space) ↦ inr (suc j, at ∙ omega arith, space)
      ])
  | inr e ↦
      let step : scan c (d ∷ ds) found ≡ scan (suc c) ds found = rw e refl in
      subst (Spaced c (d ∷ ds) found) (sym step) (elim (scan-Spaced (suc c) ds found) [
        | inl same ↦ inl same
        | inr (j, at, space) ↦ inr (suc j, at ∙ omega arith, space)
      ])
]

pub get_elem?-drop : (n : ℕ) (cs : List ℕ) (j : ℕ) → get_elem? (drop n cs) j ≡ get_elem? cs (n + j)
get_elem?-drop zero cs j = let e : 0 + j ≡ j = omega arith in rw e refl
get_elem?-drop (suc n) [] j = refl
get_elem?-drop (suc n) (c ∷ cs) j =
    let e : suc n + j ≡ suc (n + j) = omega arith in rw e (get_elem?-drop n cs j)

no_space : List ℕ → Bool
no_space [] = true
no_space (c ∷ cs) = not (c == 32) && no_space cs

and-true : (b c : Bool) → (b && c) ≡ true → (b ≡ true) × (c ≡ true)
and-true true c e = (refl, e)
and-true false c e = absurd cc

==_apart : (a b : ℕ) → a ≢ b → (a == b) ≡ false
==_apart a b ne = ground arith

apart_of-not : (c : ℕ) → not (c == 32) ≡ true → (32 == c) ≡ false
apart_of-not c e = elim (Bool-cases (c == 32)) [
  | inl same ↦ let bad : false ≡ true = rw same at e in absurd cc
  | inr apart ↦ ground arith
]

-- A word without a space does not match bytes with a space and no 0 before it.
matches-blocked :
    (name : List ℕ) (cmd : ℕ → ℕ) (i j : ℕ)
    → no_space name ≡ true
    → cmd (i + j) ≡ 32
    → ((k : ℕ) → k < j → cmd (i + k) ≢ 0)
    → matches name cmd i ≡ false
unfolding no_space
matches-blocked [] cmd i zero spaceless space filled =
    let e : i ≡ i + 0 = omega arith in let here : cmd i ≡ 32 = ap cmd e ∙ space in rw here refl
matches-blocked [] cmd i (suc j) spaceless space filled =
    let e : i + 0 ≡ i = omega arith in
    ==_apart (cmd i) 0 (λ z. filled 0 (omega arith) (ap cmd e ∙ z))
matches-blocked (c ∷ name) cmd i zero spaceless space filled =
    let e : i ≡ i + 0 = omega arith in
    let here : cmd i ≡ 32 = ap cmd e ∙ space in
    rw (here, apart_of-not c (and-true _ _ spaceless).0) refl
matches-blocked (c ∷ name) cmd i (suc j) spaceless space filled = elim (Bool-cases (cmd i == c)) [
  | inr e ↦ rw e refl
  | inl e ↦
      let at : suc i + j ≡ i + suc j = omega arith in
      rw e (
        matches-blocked name cmd (suc i) j (and-true _ _ spaceless).1 (ap cmd at ∙ space) λ k lt z.
          let up : i + suc k ≡ suc i + k = omega arith in
          filled (suc k) (omega arith) (ap cmd up ∙ z))
]

pub get_elem?-NoZero :
    (cs : List ℕ) (j s : ℕ)
    → NoZero cs
    → get_elem? cs s ≡ some 32
    → j < s
    → (c : ℕ) × (get_elem? cs j ≡ some c) × (c ≢ 0)
get_elem?-NoZero [] j s all space lt = absurd cc
get_elem?-NoZero (c ∷ cs) zero s all space lt = (c, refl, all.0)
get_elem?-NoZero (c ∷ cs) (suc j) zero all space lt = absurd (omega arith)
get_elem?-NoZero (c ∷ cs) (suc j) (suc s) all space lt =
    get_elem?-NoZero cs j s all.1 space (omega arith)

spaceless : (k : CmdIndex) → no_space (text k) ≡ true
unfolding no_space
spaceless set_read_lock = refl
spaceless set_write_lock = refl
spaceless print_locks = refl
spaceless free_lock = refl
spaceless read_character = refl
spaceless write_character = refl

-- Bytes with a space and no 0 before it are no command, whatever their number of spaces.
pub recognize-unknown :
    (ks : List (CmdIndex × ℕ)) (n : ℕ) (cmd : ℕ → ℕ) (j : ℕ) (num : Option ℤ)
    → cmd j ≡ 32
    → ((i : ℕ) → i < j → cmd i ≢ 0)
    → recognize ks n cmd num ≡ unknown
recognize-unknown [] n cmd j num space filled = refl
recognize-unknown (k ∷ ks) n cmd j num space filled =
    let e : 0 + j ≡ j = omega arith in
    let blocked =
      matches-blocked (text k.0) cmd 0 j (spaceless k.0) (ap cmd e ∙ space)
        (λ i lt z. let up : i ≡ 0 + i = omega arith in filled i lt (ap cmd up ∙ z)) in
    rw blocked (recognize-unknown ks n cmd j num space filled)
