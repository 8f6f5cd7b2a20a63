-- ===== src/AddressList/Permute.antt =====
-- The lists that the sort of list_funs.c (lab1/zad1/src) makes hold the nodes of the list it got:
-- what a permutation keeps, and what the partition keeps.
use sysopy.Common.{
  ℕ, suc, ◌≤◌, ◌≡◌, ◌≢◌, refl, sym, ap, ◌∙◌, inl, inr, Bool, true, false, if◌then◌else◌, Bool-cases,
  [], ◌∷◌, ◌++◌, arith, length,
}
use mathlib.Core.List.Permᴰ
use mathlib.Core.Path.{subst}
use mathlib.Core.List.{Permᴰ, append-nil, append_assoc}
use Prim.Native.Nat.{Ordering}
use sysopy.AddressList.Memory.{Person}
use sysopy.AddressList.Functions.{is_eq, is_lt, is_gt}
use sysopy.AddressList.Order.{order}
use sysopy.AddressList.Partition.{gather, Ordering-cases}
use sysopy.AddressList.Chain.{Cells, All, Apart, Distinct, Disjoint, Disjoint-comm}

pub All-Perm : (P : ℕ × Person → Type 0) (xs ys : Cells) → Permᴰ xs ys → All P xs → All P ys
All-Perm P _ _ Permᴰ.nil all = tt
All-Perm P _ _ (Permᴰ.cons {l₁} {l₂} e p) all = (subst P e all.0, All-Perm P l₁ l₂ p all.1)
All-Perm P _ _ (Permᴰ.swap e f) all = (subst P f all.1.0, (subst P e all.0, all.1.1))
All-Perm P _ _ (Permᴰ.trans {l₁} {l₂} {l₃} p q) all = All-Perm P l₂ l₃ q (All-Perm P l₁ l₂ p all)

pub Distinct-Perm : (xs ys : Cells) → Permᴰ xs ys → Distinct xs → Distinct ys
Distinct-Perm _ _ Permᴰ.nil distinct = tt
Distinct-Perm _ _ (Permᴰ.cons {l₁} {l₂} e p) distinct = (
  subst (λ x. Apart x.0 l₂) e (All-Perm (λ z. _ ≢ z.0) l₁ l₂ p distinct.0),
  Distinct-Perm l₁ l₂ p distinct.1,
)
Distinct-Perm _ _ (Permᴰ.swap {l} e f) distinct = (
  (
    λ same. distinct.0.0 (ap (λ x. x.0) e ∙ sym same ∙ sym (ap (λ x. x.0) f)),
    subst (λ x. Apart x.0 l) f distinct.1.0,
  ),
  (subst (λ x. Apart x.0 l) e distinct.0.1, distinct.1.1),
)
Distinct-Perm _ _ (Permᴰ.trans {l₁} {l₂} {l₃} p q) distinct =
    Distinct-Perm l₂ l₃ q (Distinct-Perm l₁ l₂ p distinct)

pub length-Perm : (xs ys : Cells) → Permᴰ xs ys → length xs ≡ length ys
length-Perm _ _ Permᴰ.nil = refl
length-Perm _ _ (Permᴰ.cons {l₁} {l₂} e p) = ap suc (length-Perm l₁ l₂ p)
length-Perm _ _ (Permᴰ.swap e f) = refl
length-Perm _ _ (Permᴰ.trans {l₁} {l₂} {l₃} p q) = length-Perm l₁ l₂ p ∙ length-Perm l₂ l₃ q

-- Permutations of two lists that share no node share none.
pub Disjoint-Perm :
    (xs xs2 ys ys2 : Cells) → Permᴰ xs xs2 → Permᴰ ys ys2 → Disjoint xs ys → Disjoint xs2 ys2
Disjoint-Perm xs xs2 ys ys2 p q apart =
    let one = All-Perm (λ x. Apart x.0 ys) xs xs2 p apart in
    let two = All-Perm (λ y. Apart y.0 xs2) ys ys2 q (Disjoint-comm xs2 ys one) in
    Disjoint-comm ys2 xs2 two

-- The cells of the list that the test takes.
abbrev pub keep : (Ordering → Bool) → Person → Cells → Cells
keep test key [] = []
keep test key (x ∷ xs) =
    let rest = keep test key xs in if test (order x.1 key) then x ∷ rest else rest

pub gather-keep :
    (test : Ordering → Bool) (key : Person) (xs rest : Cells)
    → gather test key xs rest ≡ xs ++ keep test key rest
gather-keep test key xs [] = sym (append-nil xs)
gather-keep test key xs (x ∷ rest) = elim (Bool-cases (test (order x.1 key))) [
  | inl e ↦
      rw e
        (gather-keep test key (xs ++ x ∷ []) rest ∙ append_assoc xs (x ∷ []) (keep test key rest))
  | inr e ↦ rw e (gather-keep test key xs rest)
]

module _ (test : Ordering → Bool) (key : Person) where
  pub keep-All : (P : ℕ × Person → Type 0) (xs : Cells) → All P xs → All P (keep test key xs)
  keep-All P [] all = tt
  keep-All P (x ∷ xs) all = elim (Bool-cases (test (order x.1 key))) [
    | inl e ↦ rw e (all.0, keep-All P xs all.1)
    | inr e ↦ rw e (keep-All P xs all.1)
  ]

  pub keep-passes : (xs : Cells) → All (λ x. test (order x.1 key) ≡ true) (keep test key xs)
  keep-passes [] = tt
  keep-passes (x ∷ xs) = elim (Bool-cases (test (order x.1 key))) [
    | inl e ↦ rw e (e, keep-passes xs)
    | inr e ↦ rw e (keep-passes xs)
  ]

  pub length-keep : (xs : Cells) → length (keep test key xs) ≤ length xs
  length-keep [] = omega arith
  length-keep (x ∷ xs) = elim (Bool-cases (test (order x.1 key))) [
    | inl e ↦ rw e (omega (arith, length-keep xs))
    | inr e ↦ rw e (omega (arith, length-keep xs))
  ]

  pub keep-none : (xs : Cells) → All (λ x. test (order x.1 key) ≡ false) xs → keep test key xs ≡ []
  keep-none [] all = refl
  keep-none (x ∷ xs) all = rw all.0 (keep-none xs all.1)

eq_unlike : (p key : Person) → order p key ≡ Ordering.eq → is_eq (order p key) ≡ false → ⊥
eq_unlike p key o unlike = let yes : is_eq (order p key) ≡ true = rw o refl in absurd cc

-- Without an equal name, the lesser and the greater cells are all.
pub keep-Perm :
    (key : Person) (xs : Cells)
    → All (λ x. is_eq (order x.1 key) ≡ false) xs
    → Permᴰ (keep is_lt key xs ++ keep is_gt key xs) xs
keep-Perm key [] unlike = Permᴰ.nil
keep-Perm key (x ∷ xs) unlike = elim (Ordering-cases (order x.1 key)) [
  | inl o ↦ absurd (eq_unlike x.1 key o unlike.0)
  | inr (inl o) ↦ rw o (Permᴰ.cons refl (keep-Perm key xs unlike.1))
  | inr (inr o) ↦ rw o (
      Permᴰ.trans (Permᴰ.middle x (keep is_lt key xs) (keep is_gt key xs))
        (Permᴰ.cons refl (keep-Perm key xs unlike.1)))
]
