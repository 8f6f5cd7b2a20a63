-- ===== src/AddressList/Sorted.antt =====
-- What the sort of list_funs.c (lab1/zad1/src) promises of the persons: their order, and that no
-- two have one full name.
use sysopy.Common.{ℕ, ◌≡◌, inl, inr, Bool, false, Bool-cases, [], ◌∷◌, ◌++◌}
use Prim.Native.Nat.{Ordering}
use sysopy.AddressList.Memory.{Person}
use sysopy.AddressList.Functions.{is_eq}
use sysopy.AddressList.Order.{order, order_trans}
use sysopy.AddressList.Permute.{keep, keep-All}
use sysopy.AddressList.Chain.{Cells, All, All-join, All-map}

-- Each person is before all that follow; no two persons have one full name.
abbrev pub Sorted : Cells → Type 0
Sorted [] = Unit {0}
Sorted (x ∷ xs) = All (λ y. order x.1 y.1 ≡ Ordering.lt) xs × Sorted xs

abbrev pub Unlike : Cells → Type 0
Unlike [] = Unit {0}
Unlike (x ∷ xs) = All (λ y. is_eq (order y.1 x.1) ≡ false) xs × Unlike xs

pub keep-Unlike :
    (test : Ordering → Bool) (key : Person) (xs : Cells) → Unlike xs → Unlike (keep test key xs)
keep-Unlike test key [] unlike = tt
keep-Unlike test key (x ∷ xs) unlike = elim (Bool-cases (test (order x.1 key))) [
  | inl e ↦ rw e (keep-All test key _ xs unlike.0, keep-Unlike test key xs unlike.1)
  | inr e ↦ rw e (keep-Unlike test key xs unlike.1)
]

Sorted-append :
    (xs ys : Cells)
    → Sorted xs
    → Sorted ys
    → All (λ x. All (λ y. order x.1 y.1 ≡ Ordering.lt) ys) xs
    → Sorted (xs ++ ys)
Sorted-append [] ys left right below = right
Sorted-append (x ∷ xs) ys left right below = (
  All-join (λ y. order x.1 y.1 ≡ Ordering.lt) xs ys left.0 below.0,
  Sorted-append xs ys left.1 right below.1,
)

-- The lesser cells, the pivot, the greater cells.
pub Sorted-pivot :
    (p : ℕ × Person) (l m : Cells)
    → Sorted l
    → Sorted m
    → All (λ x. order x.1 p.1 ≡ Ordering.lt) l
    → All (λ y. order p.1 y.1 ≡ Ordering.lt) m
    → Sorted ((l ++ p ∷ []) ++ m)
Sorted-pivot p l m sorted_l sorted_m below above =
    let to_p =
      All-map _ (λ x. All (λ y. order x.1 y.1 ≡ Ordering.lt) (p ∷ [])) l (λ x lt. (lt, tt)) below in
    let to_m =
      All-map _ (λ x. All (λ y. order x.1 y.1 ≡ Ordering.lt) m) l
        (λ x lt.
          All-map _ (λ y. order x.1 y.1 ≡ Ordering.lt) m (λ y. order_trans x.1 p.1 y.1 lt) above)
        below in
    Sorted-append (l ++ p ∷ []) m (Sorted-append l (p ∷ []) sorted_l (tt, tt) to_p) sorted_m
      (All-join (λ x. All (λ y. order x.1 y.1 ≡ Ordering.lt) m) l (p ∷ []) to_m (above, tt))
