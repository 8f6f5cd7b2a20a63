-- ===== src/DirectoryCount/Counts.antt =====
-- What the three processes of lab5/zad1/src/main.c print together.
use sysopy.Common.{
  ℕ, zero, suc, ◌≤◌, ◌<◌, ◌≡◌, refl, ap, ◌∙◌, inl, inr, Bool, true, false, ◌&&◌, not, ◌==◌,
  if◌then◌else◌, some, List, [], ◌∷◌, ◌++◌, length, arith, Bool-cases,
}
use mathlib.Core.List.{append_assoc}
use sysopy.DirectoryCount.{take_line, starts_with_d, pass_if, grep, increase, wc}

-- No byte is a newline.
abbrev pub one_line : List ℕ → Bool
one_line [] = true
one_line (c ∷ cs) = not (c == 10) && one_line cs

pub one_line-append :
    (xs ys : List ℕ) → one_line xs ≡ true → one_line ys ≡ true → one_line (xs ++ ys) ≡ true
one_line-append [] ys left right = right
one_line-append (x ∷ xs) ys left right = elim (Bool-cases (x == 10)) [
  | inl same ↦ absurd (ground arith)
  | inr other ↦ rw other (one_line-append xs ys (ground arith) right)
]

-- A line that fits is read whole.
take_line-line :
    (n : ℕ) (line rest : List ℕ)
    → one_line line ≡ true
    → length line < n
    → take_line n (line ++ 10 ∷ rest) ≡ (line ++ 10 ∷ [], rest)
unfolding take_line
take_line-line zero line rest clean short = absurd (omega arith)
take_line-line (suc n) [] rest clean short = refl
take_line-line (suc n) (c ∷ line) rest clean short = elim (Bool-cases (c == 10)) [
  | inl same ↦ absurd (ground arith)
  | inr other ↦ rw (other, take_line-line n line rest (ground arith) (omega arith)) refl
]

-- The lines with their newlines, one behind another.
abbrev pub unlines : List (List ℕ) → List ℕ
unlines [] = []
unlines (line ∷ lines) = line ++ 10 ∷ unlines lines

abbrev pub AllFit : List (List ℕ) → Type 0
AllFit [] = Unit {0}
AllFit (line ∷ lines) = (one_line line ≡ true) × (length line < 1023) × AllFit lines

grep-step :
    (fuel : ℕ) (line rest : List ℕ)
    → one_line line ≡ true
    → length line < 1023
    → grep (suc fuel) (line ++ 10 ∷ rest)
      ≡ pass_if (starts_with_d (line ++ 10 ∷ [])) (line ++ 10 ∷ []) (grep fuel rest)
unfolding grep
grep-step fuel [] rest clean short =
    ap (λ (got : List ℕ × List ℕ). pass_if (starts_with_d got.0) got.0 (grep fuel got.1))
      (take_line-line 1023 [] rest clean short)
grep-step fuel (c ∷ line) rest clean short =
    ap (λ (got : List ℕ × List ℕ). pass_if (starts_with_d got.0) got.0 (grep fuel got.1))
      (take_line-line 1023 (c ∷ line) rest clean short)

wc-step :
    (fuel : ℕ) (line rest : List ℕ)
    → one_line line ≡ true
    → length line < 1023
    → wc (suc fuel) (line ++ 10 ∷ rest) ≡ increase (wc fuel rest)
unfolding wc
wc-step fuel [] rest clean short =
    ap (λ (got : List ℕ × List ℕ). increase (wc fuel got.1))
      (take_line-line 1023 [] rest clean short)
wc-step fuel (c ∷ line) rest clean short =
    ap (λ (got : List ℕ × List ℕ). increase (wc fuel got.1))
      (take_line-line 1023 (c ∷ line) rest clean short)

abbrev pub passing : List (List ℕ) → List (List ℕ)
passing [] = []
passing (line ∷ lines) =
    let rest = passing lines in if starts_with_d (line ++ 10 ∷ []) then line ∷ rest else rest

pass_if-unlines :
    (passes : Bool) (line : List ℕ) (rest : List (List ℕ))
    → pass_if passes (line ++ 10 ∷ []) (some (unlines rest))
      ≡ some (unlines (if passes then line ∷ rest else rest))
pass_if-unlines true line rest = ap some (append_assoc line (10 ∷ []) (unlines rest))
pass_if-unlines false line rest = refl

grep-end : (fuel : ℕ) → grep (suc fuel) [] ≡ some []
unfolding grep
grep-end fuel = refl

pub grep-lines :
    (fuel : ℕ) (lines : List (List ℕ))
    → AllFit lines
    → length lines < fuel
    → grep fuel (unlines lines) ≡ some (unlines (passing lines))
grep-lines zero lines fit enough = absurd (omega arith)
grep-lines (suc fuel) [] fit enough = grep-end fuel
grep-lines (suc fuel) (line ∷ lines) (clean, short, fit) enough =
    grep-step fuel line (unlines lines) clean short
    ∙ ap (pass_if (starts_with_d (line ++ 10 ∷ [])) (line ++ 10 ∷ []))
        (grep-lines fuel lines fit (omega arith))
    ∙ pass_if-unlines (starts_with_d (line ++ 10 ∷ [])) line (passing lines)

wc-end : (fuel : ℕ) → wc (suc fuel) [] ≡ some 0
unfolding wc
wc-end fuel = refl

pub wc-lines :
    (fuel : ℕ) (lines : List (List ℕ))
    → AllFit lines
    → length lines < fuel
    → wc fuel (unlines lines) ≡ some (length lines)
wc-lines zero lines fit enough = absurd (omega arith)
wc-lines (suc fuel) [] fit enough = wc-end fuel
wc-lines (suc fuel) (line ∷ lines) (clean, short, fit) enough =
    wc-step fuel line (unlines lines) clean short
    ∙ ap increase (wc-lines fuel lines fit (omega arith))

pub AllFit-if :
    (b : Bool) (line : List ℕ) (rest : List (List ℕ))
    → (one_line line ≡ true) × (length line < 1023)
    → AllFit rest
    → AllFit (if b then line ∷ rest else rest)
AllFit-if true line rest fits fit = (fits.0, fits.1, fit)
AllFit-if false line rest fits fit = fit

pub AllFit-passing : (lines : List (List ℕ)) → AllFit lines → AllFit (passing lines)
AllFit-passing [] fit = tt
AllFit-passing (line ∷ lines) (clean, short, fit) =
    AllFit-if (starts_with_d (line ++ 10 ∷ [])) line (passing lines) (clean, short)
      (AllFit-passing lines fit)

pub length-passing : (lines : List (List ℕ)) → length (passing lines) ≤ length lines
length-passing [] = omega arith
length-passing (line ∷ lines) =
    let shorter : length (passing lines) ≤ length lines = length-passing lines in
    elim (Bool-cases (starts_with_d (line ++ 10 ∷ []))) [
      | inl passes ↦ rw passes (omega arith)
      | inr stays ↦ rw stays (omega arith)
    ]
