-- ===== src/AddressList/Partition.antt =====
-- The loop of perform_quick_list_sort (lab1/zad1/src/list_funs.c): every node goes to one of three
-- lists by its order to the pivot, each in the order of the source list.
use sysopy.Common.{
  ℕ, zero, suc, ◌+◌, ◌≤◌, ◌<◌, ◌≡◌, refl, ◌∙◌, ◌⊎◌, inl, inr, Bool, if◌then◌else◌, none, some, [],
  ◌∷◌, ◌++◌, arith, length, length-append,
}
use Prim.Native.Nat.{Ordering}
use sysopy.AddressList.Memory.{Ptr, Person, Heap, follow}
use sysopy.AddressList.Functions.{is_eq, is_lt, is_gt, add_if}
use sysopy.AddressList.Sort.{Parts, no_parts, partition}
use sysopy.AddressList.Order.{order, order_same, equals-order, lesser-order, greater-order}
use sysopy.AddressList.Append.{load-done}
use sysopy.AddressList.Chain.{
  Ends, at_end, Ends-follow, Ends-weaken, Cells, first, Chain, Apart, Distinct, Apart-join,
  Disjoint-empty,
}
use sysopy.AddressList.Four.{Four, Four-swap, Four-turn, move}

-- `xs` after the cells of `rest` that the test takes.
abbrev pub gather : (Ordering → Bool) → Person → Cells → Cells → Cells
gather test key xs [] = xs
gather test key xs (x ∷ rest) =
    gather test key (if test (order x.1 key) then xs ++ x ∷ [] else xs) rest

abbrev pub heads : Cells → Cells → Cells → Parts
heads e l g = record { lesser = first l none; equal = first e none; greater = first g none }

pub Ordering-cases : (o : Ordering) → (o ≡ Ordering.eq) ⊎ ((o ≡ Ordering.lt) ⊎ (o ≡ Ordering.gt))
Ordering-cases Ordering.eq = inl refl
Ordering-cases Ordering.lt = inr (inl refl)
Ordering-cases Ordering.gt = inr (inr refl)

abbrev OutsideFour : Cells → Cells → Cells → Cells → Heap → Heap → Type 0
OutsideFour e l m rest h g = (a : ℕ) → Apart a e → Apart a l → Apart a m → Apart a rest → g a ≡ h a

-- What the loop leaves, in terms of what it started from.
abbrev Parted : Person → Heap → Cells → Cells → Cells → Cells → Parts → Heap → Type 0
Parted key h e l m rest parts g =
    let e2 = gather is_eq key e rest in
    let l2 = gather is_lt key l rest in
    let m2 = gather is_gt key m rest in
    (parts ≡ heads e2 l2 m2) × Four g e2 l2 m2 none [] × OutsideFour e l m rest h g

partition-Parted :
    (h : Heap) (w fuel k : ℕ) (key : Person) (e l m : Cells) (back : Ptr) (rest : Cells)
    → length rest < fuel
    → length e + length l + length m + length rest ≤ w
    → Four h ((k, key) ∷ e) l m back rest
    → Ends
        (Parted key h ((k, key) ∷ e) l m rest)
        (partition w fuel (some k) (first rest none) (heads ((k, key) ∷ e) l m) h)
unfolding partition add_if
partition-Parted h w zero k key e l m back rest enough fuel f = absurd (omega arith)
partition-Parted h w (suc n) k key e l m back [] enough fuel f = at_end (
  refl,
  record {
    chain_t = f.chain_t;
    chain_u = f.chain_u;
    chain_v = f.chain_v;
    chain_rest = tt;
    distinct_t = f.distinct_t;
    distinct_u = f.distinct_u;
    distinct_v = f.distinct_v;
    distinct_rest = tt;
    tu = f.tu;
    tv = f.tv;
    uv = f.uv;
    rest_t = tt;
    rest_u = tt;
    rest_v = tt;
  },
  λ a _ _ _ _. refl,
)
partition-Parted h w (suc n) k key e l m back (x ∷ rest) enough fuel f =
    rw
      (
        load-done h x.0 _ f.chain_rest.0,
        load-done h k _ f.chain_t.0,
        equals-order x.1 key,
        lesser-order x.1 key,
        greater-order x.1 key,
      )
      (elim (Ordering-cases (order x.1 key)) [
        | inl o ↦
            rw (o, follow)
              (Ends-follow (move h w ((k, key) ∷ e) l m back x rest (omega arith) f)
                λ head g (is_head, f2, same). rw is_head (
                  Ends-weaken
                    (partition-Parted g w n k key (e ++ x ∷ []) l m (some x.0) rest (omega arith)
                      (omega (arith, length-append e (x ∷ []))) f2)
                    λ parts g2 (are, f3, same2). (
                      rw o are,
                      rw o f3,
                      λ a in_e in_l in_m in_rest.
                          let off = Apart-join a ((k, key) ∷ e) (x ∷ []) in_e (in_rest.0, tt) in
                          same2 a off in_l in_m in_rest.1 ∙ same a off,
                    )))
        | inr (inl o) ↦
            rw (o, follow)
              (Ends-follow (move h w l ((k, key) ∷ e) m back x rest (omega arith) (Four-swap f))
                λ head g (is_head, f2, same). rw is_head (
                  Ends-weaken
                    (partition-Parted g w n k key e (l ++ x ∷ []) m (some x.0) rest (omega arith)
                      (omega (arith, length-append l (x ∷ []))) (Four-swap f2))
                    λ parts g2 (are, f3, same2). (
                      rw o are,
                      rw o f3,
                      λ a in_e in_l in_m in_rest.
                          let off = Apart-join a l (x ∷ []) in_l (in_rest.0, tt) in
                          same2 a in_e off in_m in_rest.1 ∙ same a off,
                    )))
        | inr (inr o) ↦
            rw (o, follow)
              (Ends-follow (move h w m ((k, key) ∷ e) l back x rest (omega arith) (Four-turn f))
                λ head g (is_head, f2, same). rw is_head (
                  Ends-weaken
                    (partition-Parted g w n k key e l (m ++ x ∷ []) (some x.0) rest (omega arith)
                      (omega (arith, length-append m (x ∷ []))) (Four-turn (Four-turn f2)))
                    λ parts g2 (are, f3, same2). (
                      rw o are,
                      rw o f3,
                      λ a in_e in_l in_m in_rest.
                          let off = Apart-join a m (x ∷ []) in_m (in_rest.0, tt) in
                          same2 a in_e in_l off in_rest.1 ∙ same a off,
                    )))
      ])

-- The whole list: its first node is the pivot and goes to the equal ones at once.
pub partition_whole :
    (h : Heap) (w : ℕ) (p : ℕ × Person) (rest : Cells)
    → suc (length rest) < w
    → Chain h none (p ∷ rest) none
    → Distinct (p ∷ rest)
    → Ends (Parted p.1 h (p ∷ []) [] [] rest) (partition w w (some p.0) (some p.0) no_parts h)
unfolding partition add_if
partition_whole h zero p rest enough chain distinct = absurd (omega arith)
partition_whole h (suc n) p rest enough chain distinct =
    rw
      (
        load-done h p.0 _ chain.0,
        load-done h p.0 _ chain.0,
        equals-order p.1 p.1,
        lesser-order p.1 p.1,
        greater-order p.1 p.1,
        order_same p.1,
        follow,
      )
      (Ends-follow
        (move h (suc n) [] [] [] none p rest (omega arith) (record {
          chain_t = tt;
          chain_u = tt;
          chain_v = tt;
          chain_rest = chain;
          distinct_t = tt;
          distinct_u = tt;
          distinct_v = tt;
          distinct_rest = distinct;
          tu = tt;
          tv = tt;
          uv = tt;
          rest_t = Disjoint-empty (p ∷ rest);
          rest_u = Disjoint-empty (p ∷ rest);
          rest_v = Disjoint-empty (p ∷ rest);
        }))
        λ head g (is_head, f, same). rw is_head (
          Ends-weaken
            (partition-Parted g (suc n) n p.0 p.1 [] [] [] (some p.0) rest (omega arith)
              (omega arith) f)
            λ parts g2 (are, f2, same2).
              (are, f2, λ a in_e in_l in_m in_rest. same2 a in_e in_l in_m in_rest ∙ same a in_e)))
