-- ===== src/AddressList/Quicksort.antt =====
-- perform_quick_list_sort of lab1/zad1/src/list_funs.c: it sorts a list in which no two persons
-- have one full name, and list_sort around it.
use sysopy.Common.{
  ℕ, zero, suc, ◌≤◌, ◌<◌, ◌≡◌, ◌≢◌, refl, ◌∙◌, none, some, [], ◌∷◌, ◌++◌, arith, length,
}
use mathlib.Core.List.Permᴰ
use mathlib.Core.List.{Permᴰ}
use Prim.Native.Nat.{Ordering}
use sysopy.AddressList.Memory.{Ptr, Person, Heap, done, Cmd, ◌>>=◌, follow}
use sysopy.AddressList.Functions.{is_lt, is_gt}
use sysopy.AddressList.Sort.{Parts, join, perform_quick_list_sort, check_keys, list_sort}
use sysopy.AddressList.Order.{order, order_flip}
use sysopy.AddressList.Append.{load-done}
use sysopy.AddressList.Four.{Four}
use sysopy.AddressList.Partition.{heads, partition_whole}
use sysopy.AddressList.Permute.{
  All-Perm, Distinct-Perm, length-Perm, Disjoint-Perm, keep, keep-passes, length-keep,
}
use sysopy.AddressList.Chain.{
  Ends, at_end, Ends-follow, Ends-weaken, Cells, first, Chain, All, Distinct, Outside, Chain-frame,
  Apart-append, All-map, Disjoint-comm,
}
use sysopy.AddressList.Join.{join-append}
use sysopy.AddressList.Sorted.{Sorted, Unlike, keep-Unlike, Sorted-pivot}
use sysopy.AddressList.Cells.{partition-Perm, eq_of-is_lt, eq_of-is_gt, parts-Four, parts_heads}

-- What the sort leaves: the same nodes, sorted and linked both ways, and no other node changed.
abbrev pub Sorts : Cells → Heap → Ptr → Heap → Type 0
Sorts xs h head g =
    (ys : Cells) × (head ≡ first ys none)
    × Chain g none ys none
    × Permᴰ xs ys
    × Sorted ys
    × Outside xs h g

sort_single :
    (depth w : ℕ) (h : Heap) (back : Ptr) (p : ℕ × Person)
    → 0 < depth
    → Chain h back (p ∷ []) none
    → perform_quick_list_sort depth w (some p.0) h ≡ done (some p.0) h
unfolding perform_quick_list_sort
sort_single zero w h back p enough chain = absurd (omega arith)
sort_single (suc d) w h back p enough chain = rw (load-done h p.0 _ chain.0) refl

-- The three calls and the three concatenations.
abbrev pub three_calls : (d w : ℕ) → Parts → Cmd Ptr
three_calls d w parts = do
  less ← perform_quick_list_sort d w parts.lesser
  equal ← perform_quick_list_sort d w parts.equal
  more ← perform_quick_list_sort d w parts.greater
  join w (record { lesser = less; equal = equal; greater = more })

three_calls-Sorts :
    (d w : ℕ) (h : Heap) (p : ℕ × Person) (l m : Cells)
    → 0 < d
    → suc (length l) ≤ w
    → Four h (p ∷ []) l m none []
    → All (λ x. order x.1 p.1 ≡ Ordering.lt) l
    → All (λ y. order p.1 y.1 ≡ Ordering.lt) m
    → Ends (Sorts l h) (perform_quick_list_sort d w (first l none) h)
    → ((g : Heap)
        → Chain g none m none
        → Ends (Sorts m g) (perform_quick_list_sort d w (first m none) g))
    → Ends (Sorts ((l ++ p ∷ []) ++ m) h) (three_calls d w (heads (p ∷ []) l m) h)
three_calls-Sorts d w h p l m enough fuel f below above sort_l sort_m =
    let lp = Disjoint-comm (p ∷ []) l f.tu in
    let mp = Disjoint-comm (p ∷ []) m f.tv in
    let ml = Disjoint-comm l m f.uv in
    Ends-follow sort_l λ _ g1 (yl, is_l, chain_l, perm_l, sorted_l, same1).
      let chain_p = Chain-frame none (p ∷ []) none l same1 f.tu f.chain_t in
      let chain_m = Chain-frame none m none l same1 ml f.chain_v in
      rw (is_l, sort_single d w g1 none p enough chain_p, follow)
        (Ends-follow (sort_m g1 chain_m) λ _ g2 (ym, is_m, now_m, perm_m, sorted_m, same2).
          let l_p = Disjoint-Perm l yl (p ∷ []) (p ∷ []) perm_l (Permᴰ.refl (p ∷ [])) lp in
          let l_m = Disjoint-Perm l yl m ym perm_l perm_m f.uv in
          let p_m = Disjoint-Perm (p ∷ []) (p ∷ []) m ym (Permᴰ.refl (p ∷ [])) perm_m f.tv in
          let yl_m = Disjoint-Perm l yl m m perm_l (Permᴰ.refl m) f.uv in
          let now_l = Chain-frame none yl none m same2 yl_m chain_l in
          let now_p = Chain-frame none (p ∷ []) none m same2 f.tv chain_p in
          let all = (yl ++ p ∷ []) ++ ym in
          let perm : Permᴰ ((l ++ p ∷ []) ++ m) all =
            Permᴰ.trans (Permᴰ.append_right m (Permᴰ.append_right (p ∷ []) perm_l))
              (Permᴰ.append_left (yl ++ p ∷ []) perm_m) in
          rw is_m (
            Ends-weaken
              (join-append w g2 yl (p ∷ []) ym (omega (arith, length-Perm l yl perm_l)) now_l now_p
                now_m (Distinct-Perm l yl perm_l f.distinct_u) (tt, tt)
                (Distinct-Perm m ym perm_m f.distinct_v) l_p l_m p_m)
              λ head g3 (is, chain, same3). (
                all,
                is,
                chain,
                Permᴰ.trans (Permᴰ.append_right m (Permᴰ.append_right (p ∷ []) perm_l))
                    (Permᴰ.append_left (yl ++ p ∷ []) perm_m),
                Sorted-pivot p yl ym sorted_l sorted_m
                    (All-Perm (λ x. order x.1 p.1 ≡ Ordering.lt) l yl perm_l below)
                    (All-Perm (λ y. order p.1 y.1 ≡ Ordering.lt) m ym perm_m above),
                λ a off.
                    let parts = Apart-append a (l ++ p ∷ []) m off in
                    let in_l = Apart-append a l (p ∷ []) parts.0 in
                    let off2 = All-Perm (λ x. a ≢ x.0) ((l ++ p ∷ []) ++ m) all perm off in
                    same3 a off2 ∙ same2 a parts.1 ∙ same1 a in_l.0,
              )))

-- With no equal names and fuel enough perform_quick_list_sort ends with the same nodes sorted by
-- surname and name and linked both ways; no other node changes.
perform_quick_list_sort-Sorts :
    (depth w : ℕ) (h : Heap) (xs : Cells)
    → length xs < depth
    → length xs < w
    → Chain h none xs none
    → Distinct xs
    → Unlike xs
    → Ends (Sorts xs h) (perform_quick_list_sort depth w (first xs none) h)
unfolding perform_quick_list_sort
perform_quick_list_sort-Sorts zero w h xs deep fuel chain distinct unlike = absurd (omega arith)
perform_quick_list_sort-Sorts (suc d) w h [] deep fuel chain distinct unlike =
    at_end ([], refl, tt, Permᴰ.nil, tt, λ _ _. refl)
perform_quick_list_sort-Sorts (suc d) w h (x ∷ []) deep fuel chain distinct unlike =
    rw (load-done h x.0 _ chain.0)
      (at_end (x ∷ [], refl, chain, Permᴰ.refl (x ∷ []), (tt, tt), λ _ _. refl))
perform_quick_list_sort-Sorts (suc d) w h (p ∷ q ∷ xs) deep fuel chain distinct unlike =
    let rest = q ∷ xs in
    let l = keep is_lt p.1 rest in
    let m = keep is_gt p.1 rest in
    let short_l : length l ≤ length rest = length-keep is_lt p.1 rest in
    let short_m : length m ≤ length rest = length-keep is_gt p.1 rest in
    rw (load-done h p.0 _ chain.0, follow)
      (Ends-follow (partition_whole h w p rest (omega arith) chain distinct)
        λ parts g (are, four, same).
          let f = parts-Four g p rest unlike.0 four in
          let below =
            All-map _ (λ x. order x.1 p.1 ≡ Ordering.lt) l (λ x. eq_of-is_lt (order x.1 p.1))
              (keep-passes is_lt p.1 rest) in
          let above =
            All-map _ (λ y. order p.1 y.1 ≡ Ordering.lt) m
              (λ y e. order_flip y.1 p.1 (eq_of-is_gt (order y.1 p.1) e))
              (keep-passes is_gt p.1 rest) in
          let split : parts ≡ heads (p ∷ []) l m = are ∙ parts_heads p rest unlike.0 in
          rw split (
            Ends-weaken
              (three_calls-Sorts d w g p l m (omega arith) (omega arith) f below above
                (perform_quick_list_sort-Sorts d w g l (omega arith) (omega arith) f.chain_u
                  f.distinct_u (keep-Unlike is_lt p.1 rest unlike.1))
                λ g2 chain_m.
                  perform_quick_list_sort-Sorts d w g2 m (omega arith) (omega arith) chain_m
                    f.distinct_v (keep-Unlike is_gt p.1 rest unlike.1))
              λ head g2 (ys, is, now, perm, sorted, same2). (
                ys,
                is,
                now,
                Permᴰ.trans (partition-Perm p rest unlike) perm,
                sorted,
                λ a off.
                    let in_all =
                      All-Perm (λ x. a ≢ x.0) (p ∷ rest) ((l ++ p ∷ []) ++ m)
                        (partition-Perm p rest unlike) off in
                    same2 a in_all ∙ same a (off.0, tt) tt tt off.1,
              )))

check_keys-done :
    (w : ℕ) (h : Heap) (back : Ptr) (xs : Cells)
    → length xs < w
    → Chain h back xs none
    → check_keys w (first xs none) h ≡ done tt h
unfolding check_keys
check_keys-done zero h back xs fuel chain = absurd (omega arith)
check_keys-done (suc w) h back [] fuel chain = refl
check_keys-done (suc w) h back (x ∷ xs) fuel chain =
    rw (load-done h x.0 _ chain.0) (check_keys-done w h (some x.0) xs (omega arith) chain.1)

-- On a list that a heap holds, at different addresses, in which no two persons have one full name,
-- and with fuel for one nested call, and for one round, more than it has nodes, list_sort ends
-- with the same nodes, each before those with a greater surname or, for one surname, a greater
-- name, and linked both ways; no other node changes.
pub list_sort-Sorts :
    (depth w : ℕ) (h : Heap) (xs : Cells)
    → length xs < depth
    → length xs < w
    → Chain h none xs none
    → Distinct xs
    → Unlike xs
    → Ends (Sorts xs h) (list_sort depth w (first xs none) h)
unfolding list_sort
list_sort-Sorts depth w h [] deep fuel chain distinct unlike =
    at_end ([], refl, tt, Permᴰ.nil, tt, λ _ _. refl)
list_sort-Sorts depth w h (x ∷ xs) deep fuel chain distinct unlike =
    rw (check_keys-done w h none (x ∷ xs) fuel chain)
      (perform_quick_list_sort-Sorts depth w h (x ∷ xs) deep fuel chain distinct unlike)
