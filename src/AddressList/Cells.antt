-- ===== src/AddressList/Cells.antt =====
-- The four parts that perform_quick_list_sort of lab1/zad1/src/list_funs.c makes of a list, as cells.
use sysopy.Common.{ℕ, ◌≡◌, refl, true, false, none, [], ◌∷◌, ◌++◌}
use mathlib.Core.List.Permᴰ
use mathlib.Core.List.{Permᴰ, append_assoc}
use Prim.Native.Nat.{Ordering}
use sysopy.AddressList.Memory.{Person, Heap}
use sysopy.AddressList.Functions.{is_eq, is_lt, is_gt}
use sysopy.AddressList.Order.{order}
use sysopy.AddressList.Four.{Four}
use sysopy.AddressList.Partition.{gather, heads}
use sysopy.AddressList.Permute.{keep, gather-keep, keep-none, keep-Perm}
use sysopy.AddressList.Chain.{Cells, All}
use sysopy.AddressList.Sorted.{Unlike}

-- The cells of the list, in the order of the partition.
pub partition-Perm :
    (p : ℕ × Person) (rest : Cells)
    → Unlike (p ∷ rest)
    → Permᴰ (p ∷ rest) ((keep is_lt p.1 rest ++ p ∷ []) ++ keep is_gt p.1 rest)
partition-Perm p rest unlike =
    let l = keep is_lt p.1 rest in
    let m = keep is_gt p.1 rest in
    rw (append_assoc l (p ∷ []) m) (
      Permᴰ.symm (Permᴰ.trans (Permᴰ.middle p l m) (Permᴰ.cons refl (keep-Perm p.1 rest unlike.0))))

pub eq_of-is_lt : (o : Ordering) → is_lt o ≡ true → o ≡ Ordering.lt
eq_of-is_lt Ordering.lt e = refl
eq_of-is_lt Ordering.eq e = absurd cc
eq_of-is_lt Ordering.gt e = absurd cc

pub eq_of-is_gt : (o : Ordering) → is_gt o ≡ true → o ≡ Ordering.gt
eq_of-is_gt Ordering.gt e = refl
eq_of-is_gt Ordering.eq e = absurd cc
eq_of-is_gt Ordering.lt e = absurd cc

-- The parts of a list without equal names.
pub parts-Four :
    (h : Heap) (p : ℕ × Person) (rest : Cells)
    → All (λ x. is_eq (order x.1 p.1) ≡ false) rest
    → Four h
        (gather is_eq p.1 (p ∷ []) rest)
        (gather is_lt p.1 [] rest)
        (gather is_gt p.1 [] rest)
        none
        []
    → Four h (p ∷ []) (keep is_lt p.1 rest) (keep is_gt p.1 rest) none []
parts-Four h p rest unlike f =
    rw
      (
        gather-keep is_eq p.1 (p ∷ []) rest,
        gather-keep is_lt p.1 [] rest,
        gather-keep is_gt p.1 [] rest,
        keep-none is_eq p.1 rest unlike,
      )
      at f

pub parts_heads :
    (p : ℕ × Person) (rest : Cells)
    → All (λ x. is_eq (order x.1 p.1) ≡ false) rest
    → heads (gather is_eq p.1 (p ∷ []) rest) (gather is_lt p.1 [] rest) (gather is_gt p.1 [] rest)
      ≡ heads (p ∷ []) (keep is_lt p.1 rest) (keep is_gt p.1 rest)
parts_heads p rest unlike =
    rw
      (
        gather-keep is_eq p.1 (p ∷ []) rest,
        gather-keep is_lt p.1 [] rest,
        gather-keep is_gt p.1 [] rest,
      )
      refl
