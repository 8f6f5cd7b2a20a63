-- ===== src/AddressList/Order.antt =====
-- The order of the full names that list_funs.c (lab1/zad1/src) tests with `strcmp`: the surname
-- first, then the name. The three tests of the sort are the three outcomes of one comparison.
use sysopy.Common.{ℕ, ◌<◌, ◌≡◌, refl, ◌&&◌, ◌||◌, List, [], ◌∷◌, arith}
use Prim.Native.Nat.{Ordering, compare}
use sysopy.AddressList.Memory.{Person}
use sysopy.AddressList.Functions.{first_diff, strcmp, is_eq, is_lt, is_gt, equals, lesser, greater}

module _ (c d : ℕ) where
  compare-eq : compare c d ≡ Ordering.eq → c ≡ d
  compare-eq e = ground arith

  compare-lt : compare c d ≡ Ordering.lt → c < d
  compare-lt e = ground arith

  lt-compare : c < d → compare c d ≡ Ordering.lt
  lt-compare e = ground arith

compare-same : (c : ℕ) → compare c c ≡ Ordering.eq
compare-same c = ground arith

first_diff-eq :
    (o r : Ordering) → first_diff o r ≡ Ordering.eq → (o ≡ Ordering.eq) × (r ≡ Ordering.eq)
first_diff-eq Ordering.eq r e = (refl, e)
first_diff-eq Ordering.lt r e = absurd (cc)
first_diff-eq Ordering.gt r e = absurd (cc)

pub strcmp_same : (a : List ℕ) → strcmp a a ≡ Ordering.eq
unfolding strcmp
strcmp_same [] = refl
strcmp_same (c ∷ a) = rw (compare-same c) (strcmp_same a)

pub strcmp-eq : (a b : List ℕ) → strcmp a b ≡ Ordering.eq → a ≡ b
unfolding strcmp
strcmp-eq [] [] e = refl
strcmp-eq [] (d ∷ b) e = absurd cc
strcmp-eq (c ∷ a) [] e = absurd cc
strcmp-eq (c ∷ a) (d ∷ b) e =
    let both = first_diff-eq (compare c d) (strcmp a b) e in
    rw (compare-eq c d both.0, strcmp-eq a b both.1) refl

-- Two comparisons in a row, of bytes or of strings.
chain_lt :
    (o1 o2 o3 r1 r2 r3 : Ordering)
    → (o1 ≡ Ordering.lt → o2 ≡ Ordering.lt → o3 ≡ Ordering.lt)
    → (o1 ≡ Ordering.lt → o2 ≡ Ordering.eq → o3 ≡ Ordering.lt)
    → (o1 ≡ Ordering.eq → o3 ≡ o2)
    → (r1 ≡ Ordering.lt → r2 ≡ Ordering.lt → r3 ≡ Ordering.lt)
    → first_diff o1 r1 ≡ Ordering.lt
    → first_diff o2 r2 ≡ Ordering.lt
    → first_diff o3 r3 ≡ Ordering.lt
chain_lt Ordering.lt Ordering.lt o3 r1 r2 r3 a b c d e f = rw (a refl refl) refl
chain_lt Ordering.lt Ordering.eq o3 r1 r2 r3 a b c d e f = rw (b refl refl) refl
chain_lt Ordering.lt Ordering.gt o3 r1 r2 r3 a b c d e f = absurd cc
chain_lt Ordering.eq Ordering.lt o3 r1 r2 r3 a b c d e f = rw (c refl) refl
chain_lt Ordering.eq Ordering.eq o3 r1 r2 r3 a b c d e f = rw (c refl) (d e f)
chain_lt Ordering.eq Ordering.gt o3 r1 r2 r3 a b c d e f = absurd cc
chain_lt Ordering.gt o2 o3 r1 r2 r3 a b c d e f = absurd cc

strcmp_trans :
    (a b c : List ℕ)
    → strcmp a b ≡ Ordering.lt
    → strcmp b c ≡ Ordering.lt
    → strcmp a c ≡ Ordering.lt
unfolding strcmp
strcmp_trans [] [] c e f = absurd cc
strcmp_trans [] (y ∷ b) [] e f = absurd cc
strcmp_trans [] (y ∷ b) (z ∷ c) e f = refl
strcmp_trans (x ∷ a) [] c e f = absurd cc
strcmp_trans (x ∷ a) (y ∷ b) [] e f = absurd cc
strcmp_trans (x ∷ a) (y ∷ b) (z ∷ c) e f =
    chain_lt (compare x y) (compare y z) (compare x z) (strcmp a b) (strcmp b c) (strcmp a c)
      (λ p q. ground arith) (λ p q. ground arith) (λ p. rw (compare-eq x y p) refl)
      (strcmp_trans a b c) e f

-- The order of two persons.
unfoldable pub order : Person → Person → Ordering
unfolding strcmp
order i p = first_diff (strcmp i.surname p.surname) (strcmp i.name p.name)

pub order_same : (p : Person) → order p p ≡ Ordering.eq
unfolding order
order_same p = rw (strcmp_same p.surname, strcmp_same p.name) refl

pub order_trans :
    (p q r : Person) → order p q ≡ Ordering.lt → order q r ≡ Ordering.lt → order p r ≡ Ordering.lt
unfolding order
order_trans p q r =
    chain_lt (strcmp p.surname q.surname) (strcmp q.surname r.surname) (strcmp p.surname r.surname)
      (strcmp p.name q.name) (strcmp q.name r.name) (strcmp p.name r.name)
      (strcmp_trans p.surname q.surname r.surname) (λ e f. rw (← strcmp-eq q.surname r.surname f) e)
      (λ e. rw (strcmp-eq p.surname q.surname e) refl) (strcmp_trans p.name q.name r.name)

-- Persons of one full name compare alike with any other.
pub order_eq : (p q r : Person) → order p q ≡ Ordering.eq → order p r ≡ order q r
unfolding order
order_eq p q r e =
    let both = first_diff-eq (strcmp p.surname q.surname) (strcmp p.name q.name) e in
    rw (strcmp-eq p.surname q.surname both.0, strcmp-eq p.name q.name both.1) refl

flip_gt :
    (o o2 r r2 : Ordering)
    → (o ≡ Ordering.gt → o2 ≡ Ordering.lt)
    → (o ≡ Ordering.eq → o2 ≡ Ordering.eq)
    → (r ≡ Ordering.gt → r2 ≡ Ordering.lt)
    → first_diff o r ≡ Ordering.gt
    → first_diff o2 r2 ≡ Ordering.lt
flip_gt Ordering.gt o2 r r2 a b c e = rw (a refl) refl
flip_gt Ordering.eq o2 r r2 a b c e = rw (b refl) (c e)
flip_gt Ordering.lt o2 r r2 a b c e = absurd cc

strcmp_flip : (a b : List ℕ) → strcmp a b ≡ Ordering.gt → strcmp b a ≡ Ordering.lt
unfolding strcmp
strcmp_flip [] [] e = absurd cc
strcmp_flip [] (y ∷ b) e = absurd cc
strcmp_flip (x ∷ a) [] e = refl
strcmp_flip (x ∷ a) (y ∷ b) e =
    flip_gt (compare x y) (compare y x) (strcmp a b) (strcmp b a) (λ p. ground arith)
      (λ p. ground arith) (strcmp_flip a b) e

pub order_flip : (p q : Person) → order p q ≡ Ordering.gt → order q p ≡ Ordering.lt
unfolding order
order_flip p q =
    flip_gt (strcmp p.surname q.surname) (strcmp q.surname p.surname) (strcmp p.name q.name)
      (strcmp q.name p.name) (strcmp_flip p.surname q.surname)
      (λ e. rw (strcmp-eq p.surname q.surname e) (strcmp_same q.surname))
      (strcmp_flip p.name q.name)

both_eq : (o r : Ordering) → (is_eq r && is_eq o) ≡ is_eq (first_diff o r)
both_eq Ordering.eq Ordering.eq = refl
both_eq Ordering.eq Ordering.lt = refl
both_eq Ordering.eq Ordering.gt = refl
both_eq Ordering.lt Ordering.eq = refl
both_eq Ordering.lt Ordering.lt = refl
both_eq Ordering.lt Ordering.gt = refl
both_eq Ordering.gt Ordering.eq = refl
both_eq Ordering.gt Ordering.lt = refl
both_eq Ordering.gt Ordering.gt = refl

either_lt : (o r : Ordering) → (is_lt o || (is_eq o && is_lt r)) ≡ is_lt (first_diff o r)
either_lt Ordering.eq r = refl
either_lt Ordering.lt r = refl
either_lt Ordering.gt r = refl

either_gt : (o r : Ordering) → (is_gt o || (is_eq o && is_gt r)) ≡ is_gt (first_diff o r)
either_gt Ordering.eq r = refl
either_gt Ordering.lt r = refl
either_gt Ordering.gt r = refl

module _ (i p : Person) where
  pub equals-order : equals i p ≡ is_eq (order i p)
  unfolding equals order
  equals-order = both_eq (strcmp i.surname p.surname) (strcmp i.name p.name)

  pub lesser-order : lesser i p ≡ is_lt (order i p)
  unfolding lesser order
  lesser-order = either_lt (strcmp i.surname p.surname) (strcmp i.name p.name)

  pub greater-order : greater i p ≡ is_gt (order i p)
  unfolding greater order
  greater-order = either_gt (strcmp i.surname p.surname) (strcmp i.name p.name)
