-- ===== src/AddressList/Total.antt =====
-- perform_quick_list_sort of lab1/zad1/src/list_funs.c on any list: it runs out of fuel, or it ends
-- with the same nodes linked both ways; it never uses a node that is not there.
use sysopy.Common.{
  ℕ, zero, suc, ◌+◌, ◌≤◌, ◌<◌, ◌≡◌, ◌≢◌, ◌⊎◌, refl, ◌∙◌, inl, inr, none, [], ◌∷◌, ◌++◌, arith,
  length, length-append,
}
use mathlib.Core.List.Permᴰ
use mathlib.Core.List.{Permᴰ, append_assoc}
use sysopy.AddressList.Memory.{Ptr, Person, Heap, Run, out_of_fuel, Cmd, follow}
use sysopy.AddressList.Functions.{is_eq, is_lt, is_gt}
use sysopy.AddressList.Sort.{perform_quick_list_sort}
use sysopy.AddressList.Order.{order}
use sysopy.AddressList.Append.{load-done}
use sysopy.AddressList.Four.{Four}
use sysopy.AddressList.Partition.{gather, heads, partition_whole, Ordering-cases}
use sysopy.AddressList.Permute.{
  All-Perm, Distinct-Perm, length-Perm, Disjoint-Perm, keep, gather-keep,
}
use sysopy.AddressList.Join.{join-append}
use sysopy.AddressList.Quicksort.{three_calls}
use sysopy.AddressList.Chain.{
  Ends, at_end, Ends-weaken, Cells, first, Chain, Distinct, Outside, Chain-frame, Apart-append,
  Disjoint-comm,
}

abbrev pub Total : {A : Type 0} → (A → Heap → Type 0) → Run A → Type 0
Total P r = (r ≡ out_of_fuel) ⊎ Ends P r

module _ {A B : Type 0} {P : A → Heap → Type 0} where
  Total-follow :
      {Q : B → Heap → Type 0} {r : Run A} (f : A → Cmd B)
      → Total P r
      → ((a : A) (g : Heap) → P a g → Total Q (f a g))
      → Total Q (follow r f)
  Total-follow f (inl e) rest = inl (rw e refl)
  Total-follow f (inr (at_end p)) rest = rest _ _ p

  pub Total-runs_out :
      {r : Run A} (f : A → Cmd B)
      → Total P r
      → ((a : A) (g : Heap) → P a g → f a g ≡ out_of_fuel)
      → follow r f ≡ out_of_fuel
  Total-runs_out f (inl e) rest = rw e refl
  Total-runs_out f (inr (at_end p)) rest = rest _ _ p

-- What the sort leaves if it ends.
abbrev pub Keeps : Cells → Heap → Ptr → Heap → Type 0
Keeps xs h head g =
    (ys : Cells) × (head ≡ first ys none) × Chain g none ys none × Permᴰ xs ys × Outside xs h g

three_calls-Keeps :
    (d w : ℕ) (h : Heap) (e l m : Cells)
    → length l + length e ≤ w
    → Four h e l m none []
    → Total (Keeps l h) (perform_quick_list_sort d w (first l none) h)
    → ((g : Heap)
        → Chain g none e none
        → Total (Keeps e g) (perform_quick_list_sort d w (first e none) g))
    → ((g : Heap)
        → Chain g none m none
        → Total (Keeps m g) (perform_quick_list_sort d w (first m none) g))
    → Total (Keeps ((l ++ e) ++ m) h) (three_calls d w (heads e l m) h)
three_calls-Keeps d w h e l m fuel f sort_l sort_e sort_m =
    let le = Disjoint-comm e l f.tu in
    let me = Disjoint-comm e m f.tv in
    let ml = Disjoint-comm l m f.uv in
    Total-follow _ sort_l λ _ g1 (yl, is_l, chain_l, perm_l, same1).
      let chain_e = Chain-frame none e none l same1 f.tu f.chain_t in
      let chain_m = Chain-frame none m none l same1 ml f.chain_v in
      Total-follow _ (sort_e g1 chain_e) λ _ g2 (ye, is_e, now_e, perm_e, same2).
        let yl_e = Disjoint-Perm l yl e e perm_l (Permᴰ.refl e) le in
        let now_l = Chain-frame none yl none e same2 yl_e chain_l in
        let chain_m2 = Chain-frame none m none e same2 me chain_m in
        Total-follow _ (sort_m g2 chain_m2) λ _ g3 (ym, is_m, now_m, perm_m, same3).
          let yl_m = Disjoint-Perm l yl m m perm_l (Permᴰ.refl m) f.uv in
          let ye_m = Disjoint-Perm e ye m m perm_e (Permᴰ.refl m) f.tv in
          let last_l = Chain-frame none yl none m same3 yl_m now_l in
          let last_e = Chain-frame none ye none m same3 ye_m now_e in
          let all = (yl ++ ye) ++ ym in
          let perm : Permᴰ ((l ++ e) ++ m) all =
            Permᴰ.trans
              (Permᴰ.append_right m
                (Permᴰ.trans (Permᴰ.append_right e perm_l) (Permᴰ.append_left yl perm_e)))
              (Permᴰ.append_left (yl ++ ye) perm_m) in
          rw (is_l, is_e, is_m)
            (inr (
              Ends-weaken
                (join-append w g3 yl ye ym
                  (omega (arith, length-Perm l yl perm_l, length-Perm e ye perm_e)) last_l last_e
                  now_m (Distinct-Perm l yl perm_l f.distinct_u)
                  (Distinct-Perm e ye perm_e f.distinct_t) (Distinct-Perm m ym perm_m f.distinct_v)
                  (Disjoint-Perm l yl e ye perm_l perm_e le)
                  (Disjoint-Perm l yl m ym perm_l perm_m f.uv)
                  (Disjoint-Perm e ye m ym perm_e perm_m f.tv))
                λ head g4 (is, chain, same4). (
                  all,
                  is,
                  chain,
                  perm,
                  λ a off.
                      let parts = Apart-append a (l ++ e) m off in
                      let in_l = Apart-append a l e parts.0 in
                      same4 a (All-Perm (λ x. a ≢ x.0) ((l ++ e) ++ m) all perm off)
                      ∙ same3 a parts.1
                      ∙ same2 a in_l.1
                      ∙ same1 a in_l.0,
                )))

-- Every cell is lesser, equal or greater.
keep-Perm_three :
    (key : Person) (xs : Cells)
    → Permᴰ (keep is_lt key xs ++ (keep is_eq key xs ++ keep is_gt key xs)) xs
keep-Perm_three key [] = Permᴰ.nil
keep-Perm_three key (x ∷ xs) =
    let l = keep is_lt key xs in
    let e = keep is_eq key xs in
    let m = keep is_gt key xs in
    let rest = Permᴰ.cons refl (keep-Perm_three key xs) in
    elim (Ordering-cases (order x.1 key)) [
      | inl o ↦ rw o (Permᴰ.trans (Permᴰ.middle x l (e ++ m)) rest)
      | inr (inl o) ↦ rw o rest
      | inr (inr o) ↦ rw o (
          Permᴰ.trans
            (Permᴰ.trans (Permᴰ.append_left l (Permᴰ.middle x e m)) (Permᴰ.middle x l (e ++ m)))
            rest)
    ]

pub gather-Perm :
    (p : ℕ × Person) (rest : Cells)
    → Permᴰ
        (p ∷ rest)
        ((gather is_lt p.1 [] rest ++ gather is_eq p.1 (p ∷ []) rest) ++ gather is_gt p.1 [] rest)
gather-Perm p rest =
    let l = keep is_lt p.1 rest in
    let e = keep is_eq p.1 rest in
    let m = keep is_gt p.1 rest in
    rw
      (
        gather-keep is_lt p.1 [] rest,
        gather-keep is_eq p.1 (p ∷ []) rest,
        gather-keep is_gt p.1 [] rest,
        append_assoc l (p ∷ e) m,
      )
      (Permᴰ.symm
        (Permᴰ.trans (Permᴰ.middle p l (e ++ m)) (Permᴰ.cons refl (keep-Perm_three p.1 rest))))

-- On any list that a heap holds, the sort runs out of fuel or ends with its nodes.
pub sort-Keeps :
    (depth w : ℕ) (h : Heap) (xs : Cells)
    → length xs < w
    → Chain h none xs none
    → Distinct xs
    → Total (Keeps xs h) (perform_quick_list_sort depth w (first xs none) h)
unfolding perform_quick_list_sort
sort-Keeps zero w h xs fuel chain distinct = inl refl
sort-Keeps (suc d) w h [] fuel chain distinct = inr (at_end ([], refl, tt, Permᴰ.nil, λ _ _. refl))
sort-Keeps (suc d) w h (x ∷ []) fuel chain distinct =
    rw (load-done h x.0 _ chain.0)
      (inr (at_end (x ∷ [], refl, chain, Permᴰ.refl (x ∷ []), λ _ _. refl)))
sort-Keeps (suc d) w h (p ∷ q ∷ xs) fuel chain distinct =
    let rest = q ∷ xs in
    let e = gather is_eq p.1 (p ∷ []) rest in
    let l = gather is_lt p.1 [] rest in
    let m = gather is_gt p.1 [] rest in
    let perm = gather-Perm p rest in
    let size = length-Perm (p ∷ rest) ((l ++ e) ++ m) perm in
    let size2 = length-append (l ++ e) m in
    let size3 = length-append l e in
    rw (load-done h p.0 _ chain.0, follow)
      (Total-follow _ (inr (partition_whole h w p rest (omega arith) chain distinct))
        λ parts g (are, four, same).
          rw are
            (elim (three_calls-Keeps d w g e l m (omega (arith, size, size2, size3)) four
              (sort-Keeps d w g l (omega (arith, size, size2, size3)) four.chain_u four.distinct_u)
              (λ g2 now.
                sort-Keeps d w g2 e (omega (arith, size, size2, size3)) now four.distinct_t)
              (λ g2 now.
                sort-Keeps d w g2 m (omega (arith, size, size2, size3)) now four.distinct_v)) [
                  | inl runs_out ↦ inl runs_out
                  | inr ends ↦ inr (
                      Ends-weaken ends λ head g2 (ys, is, now, perm2, same2). (
                        ys,
                        is,
                        now,
                        Permᴰ.trans perm perm2,
                        λ a off.
                            same2 a (All-Perm (λ x. a ≢ x.0) (p ∷ rest) ((l ++ e) ++ m) perm off)
                            ∙ same a (off.0, tt) tt tt off.1,
                      ))
                ]))
