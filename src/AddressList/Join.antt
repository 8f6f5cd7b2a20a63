-- ===== src/AddressList/Join.antt =====
-- The last part of perform_quick_list_sort (lab1/zad1/src/list_funs.c): the three parts become
-- one list.
use sysopy.Common.{ℕ, ◌+◌, ◌≤◌, ◌≡◌, refl, ◌∙◌, none, [], ◌∷◌, ◌++◌, arith, length, length-append}
use mathlib.Core.List.{append-nil}
use sysopy.AddressList.Memory.{Ptr, Heap}
use sysopy.AddressList.Sort.{concat_if, join}
use sysopy.AddressList.Append.{list_concat-append}
use sysopy.AddressList.Partition.{heads}
use sysopy.AddressList.Chain.{
  Ends, at_end, Ends-follow, Ends-weaken, Cells, first, Chain, Apart, Distinct, Disjoint, Outside,
  Chain-frame, Apart-append, All-join, Distinct-join, Disjoint-comm,
}

-- What the concatenation of two lists that share no node leaves.
abbrev Joined : Cells → Heap → Ptr → Heap → Type 0
Joined xs h head g = (head ≡ first xs none) × Chain g none xs none × Outside xs h g

module _ (w : ℕ) where
  concat_if-append :
      (h : Heap) (xs ys : Cells)
      → length xs ≤ w
      → Chain h none xs none
      → Chain h none ys none
      → Distinct xs
      → Distinct ys
      → Disjoint ys xs
      → Ends (Joined (xs ++ ys) h) (concat_if w (first xs none) (first ys none) h)
  unfolding concat_if
  concat_if-append h xs [] fuel chain_x chain_y distinct_x distinct_y apart =
      rw (append-nil xs) (at_end (refl, chain_x, λ _ _. refl))
  concat_if-append h xs (y ∷ ys) fuel chain_x chain_y distinct_x distinct_y apart =
      Ends-follow
        (list_concat-append h w xs (y ∷ ys) fuel chain_x chain_y distinct_x distinct_y apart)
        λ _ g (is, _, chain, same). at_end (is, chain, same)

  -- The three sorted parts, one after the other.
  pub join-append :
      (h : Heap) (l e m : Cells)
      → length l + length e ≤ w
      → Chain h none l none
      → Chain h none e none
      → Chain h none m none
      → Distinct l
      → Distinct e
      → Distinct m
      → Disjoint l e
      → Disjoint l m
      → Disjoint e m
      → Ends (Joined ((l ++ e) ++ m) h) (join w (heads e l m) h)
  unfolding join
  join-append h l e m fuel chain_l chain_e chain_m dl de dm le lm em =
      let le_m = All-join (λ x. Apart x.0 m) l e lm em in
      let m_le = Disjoint-comm (l ++ e) m le_m in
      Ends-follow (concat_if-append h [] l (omega arith) tt chain_l tt dl (Disjoint-comm [] l tt))
        λ _ g1 (is1, now_l, same1).
          let e_l = Disjoint-comm l e le in
          let m_l = Disjoint-comm l m lm in
          rw is1 (
            Ends-follow
              (concat_if-append g1 l e (omega arith) now_l
                (Chain-frame none e none l same1 e_l chain_e) dl de e_l)
              λ _ g2 (is2, now_le, same2).
                let now_m =
                  Chain-frame none m none (l ++ e) same2 m_le
                    (Chain-frame none m none l same1 m_l chain_m) in
                rw is2 (
                  Ends-weaken
                    (concat_if-append g2 (l ++ e) m (omega (arith, length-append l e)) now_le now_m
                      (Distinct-join l e dl de le) dm m_le)
                    λ _ g3 (is3, now, same3). (
                      is3,
                      now,
                      λ a off.
                          let one = Apart-append a (l ++ e) m off in
                          let two = Apart-append a l e one.0 in
                          same3 a off ∙ same2 a one.0 ∙ same1 a two.0,
                    )))
