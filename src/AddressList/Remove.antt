-- ===== src/AddressList/Remove.antt =====
-- remove_elem and delete_list of lab1/zad1/src/list_funs.c: nodes are unlinked and freed.
use sysopy.Common.{
  ℕ, zero, suc, ℕ_discrete, ◌<◌, ◌≡◌, ◌≢◌, refl, sym, ◌∙◌, none, some, [], ◌∷◌, ◌++◌, arith, length,
}
use mathlib.Core.Logic.{if_pos, if_neg}
use sysopy.Common.Family.{update, update-here, update-apart}
use sysopy.AddressList.Memory.{
  Ptr, Person, Node, Heap, done, Cmd, pure, ◌>>=◌, ◌>>◌, follow, load, set_next, free,
}
use sysopy.AddressList.Functions.{
  delete_node, delete_list, seek, set_prev_if, relink, unlink, remove_elem,
}
use sysopy.AddressList.Append.{load-done, set_prev-done, link-last}
use sysopy.AddressList.Chain.{
  Ends, at_end, Ends-follow, Ends-weaken, Cells, first, last, Chain, Apart, Distinct, Outside,
  Chain-frame, Chain-update, Chain-append, Apart-append, Chain-split, Distinct-split, Disjoint-comm,
  Apart-join,
}

delete_node-done :
    (h : Heap) (a : ℕ) (n : Node)
    → h a ≡ some n
    → delete_node (some a) h ≡ done tt (update h a none)
unfolding delete_node free load
delete_node-done h a n here = rw here refl

-- The addresses hold no node.
abbrev pub Gone : Heap → Cells → Type 0
Gone h [] = Unit {0}
Gone h (x ∷ xs) = (h x.0 ≡ none) × Gone h xs

-- With more rounds of fuel than a list that a heap holds has nodes, at different addresses,
-- delete_list ends and frees every one of them, each once, and no other.
pub delete_list-Gone :
    (h : Heap) (w : ℕ) (back : Ptr) (xs : Cells)
    → length xs < w
    → Chain h back xs none
    → Distinct xs
    → Ends (λ _ g. Gone g xs × Outside xs h g) (delete_list w (first xs none) h)
unfolding delete_list
delete_list-Gone h zero back xs fuel chain distinct = absurd (omega arith)
delete_list-Gone h (suc w) back [] fuel chain distinct = at_end (tt, λ _ _. refl)
delete_list-Gone h (suc w) back (x ∷ xs) fuel chain distinct =
    let g = update h x.0 none in
    rw (load-done h x.0 _ chain.0, delete_node-done h x.0 _ chain.0)
      (Ends-weaken
        (delete_list-Gone g w (some x.0) xs (omega arith)
          (Chain-update h x.0 none (some x.0) xs none distinct.0 chain.1) distinct.1)
        λ _ g2 (gone, same). (
          (same x.0 distinct.0 ∙ update-here h x.0 none refl, gone),
          λ a apart. same a apart.1 ∙ update-apart h x.0 none (λ e. apart.0 (sym e)),
        ))

seek-next :
    (h : Heap) (w p a : ℕ) (n : Node)
    → h p ≡ some n
    → p ≢ a
    → seek (suc w) (some p) a h ≡ seek w n.next a h
unfolding seek
seek-next h w p a n here apart =
    let go_on : Cmd Ptr = (do m ← load (some p); seek w m.next a) in
    rw (if_neg (ℕ_discrete p a) apart (pure (some p)) go_on, load-done h p n here) refl

seek-here : (h : Heap) (w p a : ℕ) → p ≡ a → seek (suc w) (some p) a h ≡ done (some p) h
unfolding seek
seek-here h w p a same =
    let go_on : Cmd Ptr = (do m ← load (some p); seek w m.next a) in
    rw (if_pos (ℕ_discrete p a) same (pure (some p)) go_on) refl

seek-finds :
    (h : Heap) (w : ℕ) (back : Ptr) (before : Cells) (x : ℕ × Person) (after : Cells)
    → length before < w
    → Chain h back (before ++ x ∷ after) none
    → Apart x.0 before
    → seek w (first (before ++ x ∷ after) none) x.0 h ≡ done (some x.0) h
seek-finds h zero back before x after fuel chain apart = absurd (omega arith)
seek-finds h (suc w) back [] x after fuel chain apart = seek-here h w x.0 x.0 refl
seek-finds h (suc w) back (y ∷ before) x after fuel chain apart =
    seek-next h w y.0 x.0 _ chain.0 (λ e. apart.0 (sym e))
    ∙ seek-finds h w (some y.0) before x after (omega arith) chain.1 apart.1

seek-misses :
    (h : Heap) (w : ℕ) (back : Ptr) (xs : Cells) (a : ℕ)
    → length xs < w
    → Chain h back xs none
    → Apart a xs
    → seek w (first xs none) a h ≡ done none h
unfolding seek
seek-misses h zero back xs a fuel chain apart = absurd (omega arith)
seek-misses h (suc w) back [] a fuel chain apart = refl
seek-misses h (suc w) back (y ∷ xs) a fuel chain apart =
    seek-next h w y.0 a _ chain.0 (λ e. apart.0 (sym e))
    ∙ seek-misses h w (some y.0) xs a (omega arith) chain.1 apart.1

-- The first node of a list, if there is one, gets another `prev`.
set_prev_if-Chain :
    (h : Heap) (back back2 : Ptr) (xs : Cells)
    → Chain h back xs none
    → Distinct xs
    → Ends (λ _ g. Chain g back2 xs none × Outside xs h g) (set_prev_if (first xs none) back2 h)
unfolding set_prev_if
set_prev_if-Chain h back back2 [] chain distinct = at_end (tt, λ _ _. refl)
set_prev_if-Chain h back back2 (x ∷ xs) chain distinct = rw (set_prev-done h x.0 _ chain.0 back2) (
    at_end (
      (update-here h x.0 _ refl, Chain-update h x.0 _ (some x.0) xs none distinct.0 chain.1),
      λ a apart. update-apart h x.0 _ (λ e. apart.0 (sym e)),
    ))

last-some : (a : ℕ) (xs : Cells) → (p : ℕ) × (last (some a) xs ≡ some p)
last-some a [] = (a, refl)
last-some a (x ∷ xs) = last-some x.0 xs

-- With a node before it, the node's successor is linked to that one.
abbrev link_over : Ptr → Ptr → Cmd Ptr
link_over head this = do n ← load this; set_prev_if n.next n.prev; pure head

relink-after :
    (head this back next : Ptr) (h : Heap)
    → ((p : ℕ) × (back ≡ some p))
    → relink head this back next h ≡ follow (set_next back next h) (λ _. link_over head this)
unfolding relink
relink-after head this back next h (p, e) = rw e refl

-- The node x, between `before` and `after`, is taken out of the chain; its own links stay.
relink-Chain :
    (h : Heap) (before : Cells) (x : ℕ × Person) (after : Cells)
    → Chain h none (before ++ x ∷ after) none
    → Distinct (before ++ x ∷ after)
    → Ends
        (λ head g.
          (head ≡ first (before ++ after) none)
          × Chain g none (before ++ after) none
          × Outside (before ++ after) h g)
        (relink
          (first (before ++ x ∷ after) none)
          (some x.0)
          (last none before)
          (first after none)
          h)
unfolding relink
relink-Chain h [] x after chain distinct =
    Ends-follow (set_prev_if-Chain h (some x.0) none after chain.1 distinct.1)
      λ _ g (rest, same). at_end (refl, rest, same)
relink-Chain h (y ∷ before) x after chain distinct =
    let split = Chain-split h none (y ∷ before) (x ∷ after) none chain in
    let parts = Distinct-split (y ∷ before) (x ∷ after) distinct in
    let apart = Disjoint-comm (y ∷ before) (x ∷ after) parts.2 in
    let back = last (some y.0) before in
    rw (relink-after (some y.0) (some x.0) back (first after none) h (last-some y.0 before)) (
      Ends-follow (link-last h none y before (some x.0) (first after none) split.0 parts.0)
        λ _ g (front, same).
          let rest = Chain-frame (some x.0) after none (y ∷ before) same apart.1 split.1.1 in
          rw (load-done g x.0 _ (same x.0 apart.0 ∙ split.1.0)) (
            Ends-follow (set_prev_if-Chain g (some x.0) back after rest parts.1.1)
              λ _ g2 (rest2, same2).
                let front2 =
                  Chain-frame none (y ∷ before) (first after none) after same2
                    (Disjoint-comm after (y ∷ before) apart.1) front in
                at_end (
                  refl,
                  Chain-append g2 none (y ∷ before) after none front2 rest2,
                  λ a away.
                      let both = Apart-append a (y ∷ before) after away in
                      same2 a both.1 ∙ same a both.0,
                )))

-- With more rounds of fuel than nodes stand before it, remove_elem of a node of a list that a heap
-- holds, at different addresses, ends: the others stay in order, linked both ways, the node is
-- freed, and nothing else changes.
pub remove_elem-removes :
    (h : Heap) (w : ℕ) (before : Cells) (x : ℕ × Person) (after : Cells)
    → length before < w
    → Chain h none (before ++ x ∷ after) none
    → Distinct (before ++ x ∷ after)
    → Ends
        (λ head g.
          (head ≡ first (before ++ after) none)
          × Chain g none (before ++ after) none
          × (g x.0 ≡ none)
          × Outside (before ++ x ∷ after) h g)
        (remove_elem w (first (before ++ x ∷ after) none) (some x.0) h)
unfolding remove_elem unlink
remove_elem-removes h w before x after fuel chain distinct =
    let parts = Distinct-split before (x ∷ after) distinct in
    let split = Chain-split h none before (x ∷ after) none chain in
    let apart = Disjoint-comm before (x ∷ after) parts.2 in
    let away = Apart-join x.0 before after apart.0 parts.1.0 in
    rw (seek-finds h w none before x after fuel chain apart.0, load-done h x.0 _ split.1.0)
      (Ends-follow (relink-Chain h before x after chain distinct) λ head g (is_head, rest, same).
        rw (delete_node-done g x.0 _ (same x.0 away ∙ split.1.0)) (
          at_end (
            is_head,
            Chain-update g x.0 none none (before ++ after) none away rest,
            update-here g x.0 none refl,
            λ a off.
                let left = Apart-append a before (x ∷ after) off in
                update-apart g x.0 none (λ e. left.1.0 (sym e))
                ∙ same a (Apart-join a before after left.0 left.1.1),
          )))

-- remove_elem of an address that is in no node of the list changes nothing, and frees nothing.
pub remove_elem_absent :
    (h : Heap) (w : ℕ) (xs : Cells) (a : ℕ)
    → length xs < w
    → Chain h none xs none
    → Apart a xs
    → remove_elem w (first xs none) (some a) h ≡ done (first xs none) h
unfolding remove_elem unlink
remove_elem_absent h w xs a fuel chain apart = rw (seek-misses h w none xs a fuel chain apart) refl
