-- ===== src/AddressList/Append.antt =====
-- add_elem and list_concat of lab1/zad1/src/list_funs.c: both put nodes after the last one.
use sysopy.Common.{
  ℕ, zero, suc, ◌≤◌, ◌<◌, ◌≡◌, ◌≢◌, refl, sym, ◌∙◌, none, some, [], ◌∷◌, ◌++◌, arith, length,
}
use mathlib.Core.List.{append-nil}
use sysopy.Common.Family.{update, update-here, update-apart}
use sysopy.AddressList.Memory.{Ptr, Person, Node, Heap, done, load, set_next, set_prev}
use sysopy.AddressList.Functions.{last_node, add_elem, list_concat}
use sysopy.AddressList.Chain.{
  Ends, at_end, Ends-follow, Ends-weaken, Cells, first, last, Chain, Apart, Distinct, Disjoint,
  Outside, Chain-frame, Chain-update, Chain-append, Apart-append,
}

module _ (h : Heap) (a : ℕ) (n : Node) (here : h a ≡ some n) where
  pub load-done : load (some a) h ≡ done n h
  unfolding load
  load-done = rw here refl

  set_next-done :
      (q : Ptr) → set_next (some a) q h ≡ done tt (update h a (some (record n { next = q })))
  unfolding set_next load
  set_next-done q = rw here refl

  pub set_prev-done :
      (q : Ptr) → set_prev (some a) q h ≡ done tt (update h a (some (record n { prev = q })))
  unfolding set_prev load
  set_prev-done q = rw here refl

last_node-done :
    (h : Heap) (w : ℕ) (back : Ptr) (x : ℕ × Person) (xs : Cells)
    → length xs < w
    → Chain h back (x ∷ xs) none
    → last_node w (some x.0) h ≡ done (last (some x.0) xs) h
unfolding last_node
last_node-done h zero back x xs fuel chain = absurd (omega arith)
last_node-done h (suc w) back x [] fuel chain = rw (load-done h x.0 _ chain.0) refl
last_node-done h (suc w) back x (y ∷ xs) fuel chain =
    rw (load-done h x.0 _ chain.0) (last_node-done h w (some x.0) y xs (omega arith) chain.1)

-- The last node gets another successor.
pub link-last :
    (h : Heap) (back : Ptr) (x : ℕ × Person) (xs : Cells) (stop q : Ptr)
    → Chain h back (x ∷ xs) stop
    → Distinct (x ∷ xs)
    → Ends
        (λ _ g. Chain g back (x ∷ xs) q × Outside (x ∷ xs) h g)
        (set_next (last (some x.0) xs) q h)
link-last h back x [] stop q chain distinct = rw (set_next-done h x.0 _ chain.0 q) (
    at_end ((update-here h x.0 _ refl, tt), λ a apart. update-apart h x.0 _ (λ e. apart.0 (sym e))))
link-last h back x (y ∷ xs) stop q chain distinct =
    Ends-weaken (link-last h (some x.0) y xs stop q chain.1 distinct.1)
      λ _ g (rest, same). ((same x.0 distinct.0 ∙ chain.0, rest), λ a apart. same a apart.1)

-- With a round of fuel for each node of a list that a heap holds, at different addresses, add_elem
-- of a node apart from it ends, with the node's person as the last one of a list linked both ways;
-- only nodes of the new list change.
pub add_elem-appends :
    (h : Heap) (w : ℕ) (xs : Cells) (a : ℕ) (n : Node)
    → length xs ≤ w
    → Chain h none xs none
    → Distinct xs
    → Apart a xs
    → h a ≡ some n
    → Ends
        (λ head g.
          let both = xs ++ (a, n.person) ∷ [] in
          (head ≡ first both none) × Chain g none both none × Outside both h g)
        (add_elem w (first xs none) (some a) h)
unfolding add_elem
add_elem-appends h w [] a n fuel chain distinct apart here =
    let g = update h a (some (record n { next = none })) in
    rw
      (
        set_next-done h a n here none,
        set_prev-done g a (record n { next = none }) (update-here h a _ refl) none,
      )
      (at_end (
        refl,
        (update-here g a _ refl, tt),
        λ b away.
            let ne : a ≢ b = λ e. away.0 (sym e) in update-apart g a _ ne ∙ update-apart h a _ ne,
      ))
add_elem-appends h w (x ∷ xs) a n fuel chain distinct apart here =
    rw (last_node-done h w none x xs (omega arith) chain) (
      Ends-follow (link-last h none x xs none (some a) chain distinct) λ _ g (front, same).
        let back = last (some x.0) xs in
        let there = same a apart ∙ here in
        let g1 = update g a (some (record n { prev = back })) in
        rw
          (
            set_prev-done g a n there back,
            set_next-done g1 a (record n { prev = back }) (update-here g a _ refl) none,
          )
          (at_end (
            refl,
            Chain-append _ none (x ∷ xs) ((a, n.person) ∷ []) none
                (Chain-update g1 a _ none (x ∷ xs) (some a) apart
                  (Chain-update g a _ none (x ∷ xs) (some a) apart front))
                (update-here g1 a _ refl, tt),
            λ b away.
                let parts = Apart-append b (x ∷ xs) ((a, n.person) ∷ []) away in
                let ne : a ≢ b = λ e. parts.1.0 (sym e) in
                update-apart g1 a _ ne ∙ update-apart g a _ ne ∙ same b parts.0,
          )))

-- With a round of fuel for each node of the first, list_concat of two lists that a heap holds, all
-- nodes at different addresses, ends with one list, the nodes of the first before those of the
-- second, linked both ways; both heads are then its head, and no other node changes.
pub list_concat-append :
    (h : Heap) (w : ℕ) (xs ys : Cells)
    → length xs ≤ w
    → Chain h none xs none
    → Chain h none ys none
    → Distinct xs
    → Distinct ys
    → Disjoint ys xs
    → Ends
        (λ heads g.
          (heads.0 ≡ first (xs ++ ys) none)
          × (heads.1 ≡ first (xs ++ ys) none)
          × Chain g none (xs ++ ys) none
          × Outside (xs ++ ys) h g)
        (list_concat w (first xs none) (first ys none) h)
unfolding list_concat
list_concat-append h w [] ys fuel chain_x chain_y distinct_x distinct_y apart =
    at_end (refl, refl, chain_y, λ _ _. refl)
list_concat-append h w (x ∷ xs) [] fuel chain_x chain_y distinct_x distinct_y apart =
    rw (append-nil xs) (at_end (refl, refl, chain_x, λ _ _. refl))
list_concat-append h w (x ∷ xs) (y ∷ ys) fuel chain_x chain_y distinct_x distinct_y apart =
    rw (last_node-done h w none x xs (omega arith) chain_x) (
      Ends-follow (link-last h none x xs none (some y.0) chain_x distinct_x) λ _ g (front, same).
        let back = last (some x.0) xs in
        rw (set_prev-done g y.0 _ (same y.0 apart.0 ∙ chain_y.0) back) (
          at_end (
            refl,
            refl,
            Chain-append _ none (x ∷ xs) (y ∷ ys) none
                (Chain-update g y.0 _ none (x ∷ xs) (some y.0) apart.0 front)
                (
                  update-here g y.0 _ refl,
                  Chain-update g y.0 _ (some y.0) ys none distinct_y.0
                      (Chain-frame (some y.0) ys none (x ∷ xs) same apart.1 chain_y.1),
                ),
            λ b away.
                let parts = Apart-append b (x ∷ xs) (y ∷ ys) away in
                update-apart g y.0 _ (λ e. parts.1.0 (sym e)) ∙ same b parts.0,
          )))
