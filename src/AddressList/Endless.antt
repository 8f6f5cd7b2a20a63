-- ===== src/AddressList/Endless.antt =====
-- perform_quick_list_sort of lab1/zad1/src/list_funs.c with two persons of one full name: they go to
-- one part of every partition, so some call nests for ever.
use sysopy.Common.{
  ℕ, zero, suc, ◌<◌, ◌≡◌, ◌⊎◌, refl, ap, ◌∙◌, inl, inr, Bool, true, Bool-cases, none, [], ◌∷◌, ◌++◌,
  arith, length, length-append,
}
use Prim.Native.Nat.{Ordering}
use sysopy.AddressList.Memory.{Person, Heap, out_of_fuel, follow}
use sysopy.AddressList.Functions.{is_eq, is_lt, is_gt}
use sysopy.AddressList.Sort.{perform_quick_list_sort}
use sysopy.AddressList.Order.{order, order_eq, order_same}
use sysopy.AddressList.Append.{load-done}
use sysopy.AddressList.Partition.{gather, partition_whole, Ordering-cases}
use sysopy.AddressList.Permute.{length-Perm, keep, gather-keep}
use sysopy.AddressList.Total.{Total-runs_out, sort-Keeps, gather-Perm}
use sysopy.AddressList.Chain.{
  Ends-runs_out, Cells, first, Chain, Distinct, Chain-frame, Disjoint-comm,
}

-- Someone on the list has the full name of `p`; two on the list have one full name.
abbrev SameName : Person → Cells → Type 0
SameName p [] = ⊥
SameName p (y ∷ ys) = (order y.1 p ≡ Ordering.eq) ⊎ SameName p ys

abbrev Twice : Cells → Type 0
Twice [] = ⊥
Twice (x ∷ xs) = SameName x.1 xs ⊎ Twice xs

module _ (test : Ordering → Bool) (key : Person) where
  SameName-keep :
      (p : Person) (xs : Cells)
      → test (order p key) ≡ true
      → SameName p xs
      → SameName p (keep test key xs)
  SameName-keep p [] kept same = absurd same
  SameName-keep p (x ∷ xs) kept (inl e) =
      let takes : test (order x.1 key) ≡ true = ap test (order_eq x.1 p key e) ∙ kept in
      rw takes (inl e)
  SameName-keep p (x ∷ xs) kept (inr more) = elim (Bool-cases (test (order x.1 key))) [
    | inl e ↦ rw e (inr (SameName-keep p xs kept more))
    | inr e ↦ rw e (SameName-keep p xs kept more)
  ]

  Twice-keep_tail :
      (x : ℕ × Person) (xs : Cells) → Twice (keep test key xs) → Twice (keep test key (x ∷ xs))
  Twice-keep_tail x xs twice = elim (Bool-cases (test (order x.1 key))) [
    | inl e ↦ rw e (inr twice)
    | inr e ↦ rw e twice
  ]

  Twice-keep_head :
      (x : ℕ × Person) (xs : Cells)
      → test (order x.1 key) ≡ true
      → SameName x.1 xs
      → Twice (keep test key (x ∷ xs))
  Twice-keep_head x xs takes same = rw takes (inl (SameName-keep x.1 xs takes same))

-- The two go to one part.
abbrev InPart : Person → Cells → Type 0
InPart key xs = Twice (keep is_eq key xs) ⊎ (Twice (keep is_lt key xs) ⊎ Twice (keep is_gt key xs))

Twice-InPart : (key : Person) (xs : Cells) → Twice xs → InPart key xs
Twice-InPart key [] twice = absurd twice
Twice-InPart key (x ∷ xs) (inl same) = elim (Ordering-cases (order x.1 key)) [
  | inl o ↦ inl (Twice-keep_head is_eq key x xs (ap is_eq o) same)
  | inr (inl o) ↦ inr (inl (Twice-keep_head is_lt key x xs (ap is_lt o) same))
  | inr (inr o) ↦ inr (inr (Twice-keep_head is_gt key x xs (ap is_gt o) same))
]
Twice-InPart key (x ∷ xs) (inr twice) = elim (Twice-InPart key xs twice) [
  | inl more ↦ inl (Twice-keep_tail is_eq key x xs more)
  | inr (inl more) ↦ inr (inl (Twice-keep_tail is_lt key x xs more))
  | inr (inr more) ↦ inr (inr (Twice-keep_tail is_gt key x xs more))
]

-- The parts of the whole list; the pivot is the first of the equal ones.
abbrev InGather : ℕ × Person → Cells → Type 0
InGather p rest =
    Twice (gather is_eq p.1 (p ∷ []) rest)
    ⊎ (Twice (gather is_lt p.1 [] rest) ⊎ Twice (gather is_gt p.1 [] rest))

Twice-InGather : (p : ℕ × Person) (rest : Cells) → Twice (p ∷ rest) → InGather p rest
Twice-InGather p rest (inl same) = inl (
    rw (gather-keep is_eq p.1 (p ∷ []) rest)
      (inl (SameName-keep is_eq p.1 p.1 rest (ap is_eq (order_same p.1)) same)))
Twice-InGather p rest (inr twice) = elim (Twice-InPart p.1 rest twice) [
  | inl more ↦ inl (rw (gather-keep is_eq p.1 (p ∷ []) rest) (inr more))
  | inr (inl more) ↦ inr (inl (rw (gather-keep is_lt p.1 [] rest) more))
  | inr (inr more) ↦ inr (inr (rw (gather-keep is_gt p.1 [] rest) more))
]

-- On a list that a heap holds, at different addresses, with two persons of one full name,
-- perform_quick_list_sort never ends: it runs out of fuel for every depth, with any fuel for the
-- loops above the number of nodes.
pub perform_quick_list_sort_endless :
    (depth w : ℕ) (h : Heap) (xs : Cells)
    → length xs < w
    → Chain h none xs none
    → Distinct xs
    → Twice xs
    → perform_quick_list_sort depth w (first xs none) h ≡ out_of_fuel
unfolding perform_quick_list_sort
perform_quick_list_sort_endless zero w h xs fuel chain distinct twice = refl
perform_quick_list_sort_endless (suc d) w h [] fuel chain distinct twice = absurd twice
perform_quick_list_sort_endless (suc d) w h (x ∷ []) fuel chain distinct (inl same) = absurd same
perform_quick_list_sort_endless (suc d) w h (x ∷ []) fuel chain distinct (inr twice) = absurd twice
perform_quick_list_sort_endless (suc d) w h (p ∷ q ∷ xs) fuel chain distinct twice =
    let rest = q ∷ xs in
    let e = gather is_eq p.1 (p ∷ []) rest in
    let l = gather is_lt p.1 [] rest in
    let m = gather is_gt p.1 [] rest in
    let size = length-Perm (p ∷ rest) ((l ++ e) ++ m) (gather-Perm p rest) in
    let size2 = length-append (l ++ e) m in
    let size3 = length-append l e in
    rw (load-done h p.0 _ chain.0, follow)
      (Ends-runs_out _ (partition_whole h w p rest (omega arith) chain distinct)
        λ parts g (are, f, same).
          let sort_l =
            sort-Keeps d w g l (omega (arith, size, size2, size3)) f.chain_u f.distinct_u in
          let le = Disjoint-comm e l f.tu in
          let ml = Disjoint-comm l m f.uv in
          let me = Disjoint-comm e m f.tv in
          rw are (elim (Twice-InGather p rest twice) [
            | inr (inl in_l) ↦
                rw
                  (perform_quick_list_sort_endless d w g l (omega (arith, size, size2, size3))
                    f.chain_u f.distinct_u in_l)
                  refl
            | inl in_e ↦ Total-runs_out _ sort_l λ _ g1 (_, _, _, _, same1).
                let now_e = Chain-frame none e none l same1 f.tu f.chain_t in
                rw
                  (perform_quick_list_sort_endless d w g1 e (omega (arith, size, size2, size3))
                    now_e f.distinct_t in_e)
                  refl
            | inr (inr in_m) ↦ Total-runs_out _ sort_l λ _ g1 (_, _, _, _, same1).
                let now_e = Chain-frame none e none l same1 f.tu f.chain_t in
                let sort_e =
                  sort-Keeps d w g1 e (omega (arith, size, size2, size3)) now_e f.distinct_t in
                Total-runs_out _ sort_e λ _ g2 (_, _, _, _, same2).
                  let now_m =
                    Chain-frame none m none e same2 me
                      (Chain-frame none m none l same1 ml f.chain_v) in
                  rw
                    (perform_quick_list_sort_endless d w g2 m (omega (arith, size, size2, size3))
                      now_m f.distinct_v in_m)
                    refl
          ]))
