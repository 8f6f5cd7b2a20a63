-- ===== src/AddressList/Tests.antt =====
-- Runs of the functions of list_funs.c (lab1/zad1/src) on small lists, and the witnesses.
use sysopy.Common.{zero, suc, ◌≡◌, refl, inl, inr, true, false, none, some, [], ◌∷◌, ◌++◌, arith}
use Prim.Native.Nat.{Ordering}
use sysopy.AddressList.Memory.{Person, Heap, done, out_of_fuel}
use sysopy.AddressList.Functions.{
  strcmp, greater, lesser, get_greater, get_lesser, add_elem, list_concat, remove_elem, delete_list,
}
use sysopy.AddressList.Sort.{perform_quick_list_sort, list_sort, find_elem_by_full_name}
use sysopy.AddressList.Order.{order}
use sysopy.AddressList.Append.{add_elem-appends, list_concat-append}
use sysopy.AddressList.Remove.{Gone, remove_elem-removes, remove_elem_absent, delete_list-Gone}
use sysopy.AddressList.Find.{
  FirstNamed, find_elem_by_full_name-FirstNamed, for_greater, for_lesser, run_query-first,
  run_query-Fails,
}
use sysopy.AddressList.Sorted.{Unlike}
use sysopy.AddressList.Quicksort.{Sorts, list_sort-Sorts}
use sysopy.AddressList.Endless.{perform_quick_list_sort_endless}
use sysopy.AddressList.Chain.{Ends, Cells, first, Chain, Distinct, Outside}

-- Ann Ost, Bea Ost and Cid Alm, by their bytes.
abbrev ann : Person
ann = record { name = 97 ∷ []; surname = 111 ∷ [] }

abbrev bea : Person
bea = record { name = 98 ∷ []; surname = 111 ∷ [] }

abbrev cid : Person
cid = record { name = 99 ∷ []; surname = 97 ∷ [] }

-- Bea and Cid are on one list, at 0 and 1; Ann at 2 is on none.
abbrev memory : Heap
memory zero = some (record { person = bea; prev = none; next = some 1 })
memory (suc zero) = some (record { person = cid; prev = some 0; next = none })
memory (suc (suc zero)) = some (record { person = ann; prev = none; next = none })
memory (suc (suc (suc _))) = none

abbrev two : Cells
two = (0, bea) ∷ (1, cid) ∷ []

two-Chain : Chain memory none two none
two-Chain = (refl, (refl, tt))

two-Distinct : Distinct two
two-Distinct = ((λ e. ground arith, tt), (tt, tt))

add_elem-appends_example :
    Ends
      (λ head g.
        let both = two ++ (2, ann) ∷ [] in
        (head ≡ first both none) × Chain g none both none × Outside both memory g)
      (add_elem 2 (some 0) (some 2) memory)
add_elem-appends_example =
    add_elem-appends memory 2 two 2 (record { person = ann; prev = none; next = none })
      (omega arith) two-Chain two-Distinct (λ e. ground arith, (λ e. ground arith, tt)) refl

list_concat-append_example :
    Ends
      (λ heads g.
        (heads.0 ≡ first (two ++ (2, ann) ∷ []) none)
        × (heads.1 ≡ first (two ++ (2, ann) ∷ []) none)
        × Chain g none (two ++ (2, ann) ∷ []) none
        × Outside (two ++ (2, ann) ∷ []) memory g)
      (list_concat 2 (some 0) (some 2) memory)
list_concat-append_example =
    list_concat-append memory 2 two ((2, ann) ∷ []) (omega arith) two-Chain (refl, tt) two-Distinct
      (tt, tt) ((λ e. ground arith, (λ e. ground arith, tt)), tt)

remove_elem-removes_example :
    Ends
      (λ head g.
        (head ≡ some 0) × Chain g none ((0, bea) ∷ []) none × (g 1 ≡ none) × Outside two memory g)
      (remove_elem 2 (some 0) (some 1) memory)
remove_elem-removes_example =
    remove_elem-removes memory 2 ((0, bea) ∷ []) (1, cid) [] (omega arith) two-Chain two-Distinct

delete_list-Gone_example :
    Ends (λ _ g. Gone g two × Outside two memory g) (delete_list 3 (some 0) memory)
delete_list-Gone_example = delete_list-Gone memory 3 none two (omega arith) two-Chain two-Distinct

find_elem_by_full_name-FirstNamed_example :
    Ends
      (λ p g. FirstNamed (99 ∷ []) (97 ∷ []) two p × (g ≡ memory))
      (find_elem_by_full_name 3 (some 0) (99 ∷ []) (97 ∷ []) memory)
find_elem_by_full_name-FirstNamed_example =
    find_elem_by_full_name-FirstNamed memory 3 two (99 ∷ []) (97 ∷ []) (omega arith) two-Chain
      (λ e. cc) (λ e. cc)

-- Both Bea and Ann have a greater surname than Cid; only the first is found.
abbrev others : Heap
others zero = some (record { person = bea; prev = none; next = some 1 })
others (suc zero) = some (record { person = ann; prev = some 0; next = none })
others (suc (suc zero)) = some (record { person = cid; prev = none; next = none })
others (suc (suc (suc _))) = none

bea_greater : greater bea cid ≡ true
unfolding greater strcmp
bea_greater = refl

run_query-first_example :
    Ends
      (λ head g.
        (head ≡ some 0) × Chain g none ((0, bea) ∷ []) none × Outside ((0, bea) ∷ []) others g)
      (get_greater 3 (some 2) (some 0) others)
run_query-first_example =
    run_query-first for_greater others 2 (record { person = cid; prev = none; next = none }) 3 []
      (0, bea) ((1, ann) ∷ []) refl (omega arith) (refl, (refl, tt)) tt bea_greater

bea_not_lesser : lesser bea cid ≡ false
unfolding lesser strcmp
bea_not_lesser = refl

ann_not_lesser : lesser ann cid ≡ false
unfolding lesser strcmp
ann_not_lesser = refl

none_lesser : get_lesser 3 (some 2) (some 0) others ≡ done none others
none_lesser =
    run_query-Fails for_lesser others 2 (record { person = cid; prev = none; next = none }) 3
      ((0, bea) ∷ (1, ann) ∷ []) refl (omega arith) (refl, (refl, tt))
      (bea_not_lesser, (ann_not_lesser, tt))

-- Ann is on no list, so nothing is removed.
remove_absent : remove_elem 3 (some 0) (some 2) memory ≡ done (some 0) memory
remove_absent =
    remove_elem_absent memory 3 two 2 (omega arith) two-Chain
      (λ e. ground arith, (λ e. ground arith, tt))

two-Unlike : Unlike two
unfolding order strcmp
two-Unlike = ((refl, tt), (tt, tt))

list_sort-Sorts_example : Ends (Sorts two memory) (list_sort 3 3 (some 0) memory)
list_sort-Sorts_example =
    list_sort-Sorts 3 3 memory two (omega arith) (omega arith) two-Chain two-Distinct two-Unlike

-- Ann twice, with Cid between.
abbrev namesakes : Cells
namesakes = (0, ann) ∷ (1, cid) ∷ (2, ann) ∷ []

abbrev twins : Heap
twins zero = some (record { person = ann; prev = none; next = some 1 })
twins (suc zero) = some (record { person = cid; prev = some 0; next = some 2 })
twins (suc (suc zero)) = some (record { person = ann; prev = some 1; next = none })
twins (suc (suc (suc _))) = none

ann_again : order ann ann ≡ Ordering.eq
unfolding order strcmp
ann_again = refl

perform_quick_list_sort_endless_example : perform_quick_list_sort 100 4 (some 0) twins ≡ out_of_fuel
perform_quick_list_sort_endless_example =
    perform_quick_list_sort_endless 100 4 twins namesakes (omega arith) (refl, (refl, (refl, tt)))
      ((λ e. ground arith, (λ e. ground arith, tt)), ((λ e. ground arith, tt), (tt, tt)))
      (inl (inr (inl ann_again)))
