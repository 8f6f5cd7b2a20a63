-- ===== src/Philosophers/Safety.antt =====
-- What the philosophers of lab9/zad1/src/main.c can and cannot do.
use sysopy.Common.{ℕ, zero, suc, ◌+◌, ◌%◌, ◌≤◌, ◌<◌, ◌≡◌, ◌≢◌, refl, sym, arith}
use sysopy.Common.Family.{weights-ne-le-total}
use sysopy.Philosophers.{
  num_philosophers, Status, free, used, Slot, first, second, fork, eating, System, Reach,
  first_fork, second_fork,
}
use sysopy.Philosophers.Weights.{fork_weight, has_fork, status_value}
use sysopy.Philosophers.Signal.{Reach-Inv}

status_value-le-one : (x : Status) → status_value x ≤ 1
status_value-le-one free = omega arith
status_value-le-one used = omega arith

eating-has_fork : (f a b : ℕ) (x : Slot) → fork a b x ≡ f → 1 ≤ fork_weight f a b eating
eating-has_fork f a b first e = ground arith
eating-has_fork f a b second e = ground arith

shared_exclusion :
    {s : System}
    → Reach s
    → (i j f : ℕ) (x y : Slot) → i < num_philosophers
    → j < num_philosophers
    → i ≢ j
    → fork (s.philosopher i).a (s.philosopher i).b x ≡ f
    → fork (s.philosopher j).a (s.philosopher j).b y ≡ f
    → (s.philosopher i).place ≡ eating
    → (s.philosopher j).place ≢ eating
shared_exclusion {s} r i j f x y lt lt' apart left right mine yours = omega (
  arith,
  (Reach-Inv r).forks f,
  status_value-le-one (s.forks.status f),
  weights-ne-le-total (has_fork f) num_philosophers s.philosopher i j lt lt' apart,
  eater i x left mine,
  eater j y right yours,
)
  where
    eater :
        (k : ℕ) (z : Slot)
        → fork (s.philosopher k).a (s.philosopher k).b z ≡ f
        → (s.philosopher k).place ≡ eating
        → 1 ≤ has_fork f (s.philosopher k)
    eater k z e at = rw at (eating-has_fork f (s.philosopher k).a (s.philosopher k).b z e)

-- The fork between a philosopher and the next.
between :
    (i : ℕ)
    → i < num_philosophers
    → (x y : Slot) × (fork (first_fork i) (second_fork i) x
        ≡ fork
            (first_fork ((i + 1) % num_philosophers))
            (second_fork ((i + 1) % num_philosophers))
            y)
between zero lt = (second, first, refl)
between (suc zero) lt = (second, first, refl)
between (suc (suc zero)) lt = (second, first, refl)
between (suc (suc (suc zero))) lt = (second, second, refl)
between (suc (suc (suc (suc zero)))) lt = (first, first, refl)
between (suc (suc (suc (suc (suc i))))) lt = absurd (omega arith)

-- In every reachable state: while a philosopher eats, the next one at the table does not.
pub neighbours_exclusion :
    {s : System}
    → Reach s
    → (i : ℕ) → i < num_philosophers
    → (s.philosopher i).place ≡ eating
    → (s.philosopher ((i + 1) % num_philosophers)).place ≢ eating
neighbours_exclusion {s} r i lt mine =
    let j : ℕ = (i + 1) % num_philosophers in
    let (x, y, same_fork) = between i lt in
    let (a_i, b_i) = (Reach-Inv r).seats i lt in
    let (a_j, b_j) = (Reach-Inv r).seats j (omega arith) in
    shared_exclusion r i j (fork (first_fork i) (second_fork i) x) x y lt (omega arith)
      (omega arith) (rw (a_i, b_i) refl) (rw (a_j, b_j) (sym same_fork)) mine
