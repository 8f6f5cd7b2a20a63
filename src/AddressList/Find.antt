-- ===== src/AddressList/Find.antt =====
-- find_elem_by_full_name of lab1/zad1/src/list_funs.c against a search of the persons alone, and
-- what get_equals, get_greater and get_lesser return.
use sysopy.Common.{
  ℕ, zero, suc, ◌<◌, ◌≡◌, ◌≢◌, refl, inl, inr, Bool, true, false, ◌&&◌, Bool-cases, none, some,
  List, [], ◌∷◌, ◌++◌, arith, length,
}
use Prim.Native.Nat.{Ordering}
use sysopy.AddressList.Memory.{Ptr, Person, Node, Heap, done, Cmd, follow}
use sysopy.AddressList.Functions.{
  equals, greater, lesser, get_equals, get_greater, get_lesser, strcmp, is_eq, add_if, collect,
}
use sysopy.AddressList.Sort.{find_loop, find_elem_by_full_name}
use sysopy.AddressList.Order.{strcmp-eq, strcmp_same}
use sysopy.AddressList.Append.{load-done, add_elem-appends}
use sysopy.AddressList.Chain.{Ends, at_end, Ends-follow, Ends-weaken, Cells, first, Chain, Outside}

-- The person has this full name.
abbrev Named : List ℕ → List ℕ → Person → Type 0
Named name surname person = (person.name ≡ name) × (person.surname ≡ surname)

-- The address is that of the first person with the name; without one, it is NULL.
pub data FirstNamed (name surname : List ℕ) : Cells → Ptr → Type 0 where
  nobody : FirstNamed name surname [] none
  found :
      (a : ℕ) (person : Person) (rest : Cells)
      → Named name surname person
      → FirstNamed name surname ((a, person) ∷ rest) (some a)
  later :
      (x : ℕ × Person) (rest : Cells) (p : Ptr)
      → ¬ Named name surname x.1
      → FirstNamed name surname rest p
      → FirstNamed name surname (x ∷ rest) p

eq_of-is_eq : (o : Ordering) → is_eq o ≡ true → o ≡ Ordering.eq
eq_of-is_eq Ordering.eq e = refl
eq_of-is_eq Ordering.lt e = absurd cc
eq_of-is_eq Ordering.gt e = absurd cc

and-true : (b c : Bool) → (b && c) ≡ true → (b ≡ true) × (c ≡ true)
and-true true c e = (refl, e)
and-true false c e = absurd cc

Named-if :
    (name surname : List ℕ) (p : Person)
    → (is_eq (strcmp p.name name) && is_eq (strcmp p.surname surname)) ≡ true
    → Named name surname p
Named-if name surname p e =
    let both = and-true _ _ e in
    (
      strcmp-eq p.name name (eq_of-is_eq _ both.0),
      strcmp-eq p.surname surname (eq_of-is_eq _ both.1),
    )

Named-if_not :
    (name surname : List ℕ) (p : Person)
    → (is_eq (strcmp p.name name) && is_eq (strcmp p.surname surname)) ≡ false
    → ¬ Named name surname p
Named-if_not name surname p e (same, same2) =
    let yes : (is_eq (strcmp p.name name) && is_eq (strcmp p.surname surname)) ≡ true =
      rw (same, same2, strcmp_same name, strcmp_same surname) refl in
    absurd cc

find_loop-FirstNamed :
    (h : Heap) (w : ℕ) (back : Ptr) (xs : Cells) (name surname : List ℕ)
    → length xs < w
    → Chain h back xs none
    → Ends
        (λ p g. FirstNamed name surname xs p × (g ≡ h))
        (find_loop w (first xs none) name surname h)
unfolding find_loop
find_loop-FirstNamed h zero back xs name surname fuel chain = absurd (omega arith)
find_loop-FirstNamed h (suc w) back [] name surname fuel chain = at_end (nobody, refl)
find_loop-FirstNamed h (suc w) back (x ∷ xs) name surname fuel chain =
    rw (load-done h x.0 _ chain.0)
      (elim (Bool-cases (is_eq (strcmp x.1.name name) && is_eq (strcmp x.1.surname surname))) [
        | inl e ↦ rw (follow, e) (at_end (found x.0 x.1 xs (Named-if name surname x.1 e), refl))
        | inr e ↦
            rw (follow, e)
              (Ends-weaken
                (find_loop-FirstNamed h w (some x.0) xs name surname (omega arith) chain.1)
                λ p g (is, same). (later x xs p (Named-if_not name surname x.1 e) is, same))
      ])

not_empty : (a : List ℕ) → a ≢ [] → is_eq (strcmp a []) ≡ false
unfolding strcmp
not_empty [] ne = absurd (ne refl)
not_empty (c ∷ a) ne = refl

-- With a name and a surname that are not empty, and more rounds of fuel than the list has nodes,
-- find_elem_by_full_name ends with the first node that has both, or NULL when none has; memory is
-- as before.
pub find_elem_by_full_name-FirstNamed :
    (h : Heap) (w : ℕ) (xs : Cells) (name surname : List ℕ)
    → length xs < w
    → Chain h none xs none
    → name ≢ []
    → surname ≢ []
    → Ends
        (λ p g. FirstNamed name surname xs p × (g ≡ h))
        (find_elem_by_full_name w (first xs none) name surname h)
unfolding find_elem_by_full_name
find_elem_by_full_name-FirstNamed h w xs name surname fuel chain ne ne2 =
    rw (find_elem_by_full_name, not_empty name ne, not_empty surname ne2)
      (find_loop-FirstNamed h w none xs name surname fuel chain)

-- No person of the cells passes the test against the key.
abbrev Fails : (Person → Person → Bool) → Person → Cells → Type 0
Fails test key [] = Unit {0}
Fails test key (x ∷ xs) = (test x.1 key ≡ false) × Fails test key xs

module _ (test : Person → Person → Bool) (h : Heap) (k : ℕ) (key : Node)
    (has_key : h k ≡ some key) where
  -- With no match, the loop of get_equals, get_greater and get_lesser ends with what it had.
  collect-Fails :
      (w : ℕ) (back : Ptr) (xs : Cells)
      → length xs < w
      → Chain h back xs none
      → Fails test key.person xs
      → collect test w (some k) (first xs none) none h ≡ done none h
  unfolding collect add_if
  collect-Fails zero back xs fuel chain fails = absurd (omega arith)
  collect-Fails (suc w) back [] fuel chain fails = refl
  collect-Fails (suc w) back (x ∷ xs) fuel chain fails =
      rw (load-done h x.0 _ chain.0, load-done h k key has_key, fails.0, load-done h x.0 _ chain.0)
        (collect-Fails w (some x.0) xs (omega arith) chain.1 fails.1)

  -- With a match, it ends with the first one alone.
  collect-first :
      (w : ℕ) (back : Ptr) (before : Cells) (x : ℕ × Person) (after : Cells)
      → suc (length before) < w
      → Chain h back (before ++ x ∷ after) none
      → Fails test key.person before
      → test x.1 key.person ≡ true
      → Ends
          (λ head g. (head ≡ some x.0) × Chain g none (x ∷ []) none × Outside (x ∷ []) h g)
          (collect test w (some k) (first (before ++ x ∷ after) none) none h)
  unfolding collect add_if
  collect-first zero back before x after fuel chain fails passes = absurd (omega arith)
  collect-first (suc zero) back [] x after fuel chain fails passes = absurd (omega arith)
  collect-first (suc (suc w)) back [] x after fuel chain fails passes =
      rw (load-done h x.0 _ chain.0, load-done h k key has_key, passes)
        (Ends-follow (add_elem-appends h (suc w) [] x.0 _ (omega arith) tt tt tt chain.0)
          λ head g (is_head, alone, same).
            rw (is_head, load-done g x.0 _ alone.0) (at_end (refl, alone, same)))
  collect-first (suc w) back (y ∷ before) x after fuel chain fails passes =
      rw (load-done h y.0 _ chain.0, load-done h k key has_key, fails.0, load-done h y.0 _ chain.0)
        (collect-first w (some y.0) before x after (omega arith) chain.1 fails.1 passes)

-- The three searches, by the test that each makes.
pub data Query : Type 0 where
  for_equals : Query
  for_greater : Query
  for_lesser : Query

abbrev pub test_of : Query → Person → Person → Bool
test_of for_equals = equals
test_of for_greater = greater
test_of for_lesser = lesser

abbrev pub run_query : Query → (w : ℕ) → Ptr → Ptr → Cmd Ptr
run_query for_equals = get_equals
run_query for_greater = get_greater
run_query for_lesser = get_lesser

-- get_equals, get_greater and get_lesser, on a list in which someone passes their test against the
-- key, and with two rounds of fuel more than nodes stand before the first who does, return that
-- node and no other, whatever follows it: add_elem has cut the list there. Nodes but that one are
-- as before.
pub run_query-first :
    (query : Query) (h : Heap) (k : ℕ) (key : Node) (w : ℕ) (before : Cells) (x : ℕ × Person)
    (after : Cells)
    → h k ≡ some key
    → suc (length before) < w
    → Chain h none (before ++ x ∷ after) none
    → Fails (test_of query) key.person before
    → test_of query x.1 key.person ≡ true
    → Ends
        (λ head g. (head ≡ some x.0) × Chain g none (x ∷ []) none × Outside (x ∷ []) h g)
        (run_query query w (some k) (first (before ++ x ∷ after) none) h)
unfolding get_equals get_greater get_lesser
run_query-first for_equals h k key w before x after has_key fuel chain fails passes =
    collect-first equals h k key has_key w none before x after fuel chain fails passes
run_query-first for_greater h k key w before x after has_key fuel chain fails passes =
    collect-first greater h k key has_key w none before x after fuel chain fails passes
run_query-first for_lesser h k key w before x after has_key fuel chain fails passes =
    collect-first lesser h k key has_key w none before x after fuel chain fails passes

-- When no one passes their test, they return an empty list and change nothing.
pub run_query-Fails :
    (query : Query) (h : Heap) (k : ℕ) (key : Node) (w : ℕ) (xs : Cells)
    → h k ≡ some key
    → length xs < w
    → Chain h none xs none
    → Fails (test_of query) key.person xs
    → run_query query w (some k) (first xs none) h ≡ done none h
unfolding get_equals get_greater get_lesser
run_query-Fails for_equals h k key w xs has_key fuel chain fails =
    collect-Fails equals h k key has_key w none xs fuel chain fails
run_query-Fails for_greater h k key w xs has_key fuel chain fails =
    collect-Fails greater h k key has_key w none xs fuel chain fails
run_query-Fails for_lesser h k key w xs has_key fuel chain fails =
    collect-Fails lesser h k key has_key w none xs fuel chain fails
