-- ===== src/Philosophers/Moves.antt =====
-- A step of one philosopher of lab9/zad1/src/main.c and who has which mutex and fork.
use sysopy.Common.{ℕ, ◌+◌, ◌≤◌, ◌<◌, ◌≡◌, arith}
use sysopy.Common.Family.{update, total, total-update, weight-le-total}
use sysopy.Philosophers.{
  num_philosophers, first, second, Place, Forks, Move, lock_fork, lock_again, take, lock_drop,
  release, leave_second, finish, Philosopher, moved, System,
}
use sysopy.Philosophers.Weights.{
  mutex_weight, fork_weight, has_mutex, has_fork, lock_value, status_value, Inv, IsFresh, HasEaten,
}

module _ {s : System} (inv : Inv s) (i : ℕ) where
  abbrev pub a : ℕ
  a = (s.philosopher i).a

  abbrev pub b : ℕ
  b = (s.philosopher i).b

  -- The philosophers when number `i` has gone to `place`.
  abbrev pub after : ℕ → Place → ℕ → Philosopher
  after count place = update s.philosopher i (moved (s.philosopher i) count place)

  -- A match on `Move` needs a variable for the place of philosopher `i`.
  pub record Mover (p : Place) (count' : ℕ) (p' : Place) : Type 0 where
    pub mutexes :
        (f : ℕ)
        → mutex_weight f a b p + total (has_mutex f) num_philosophers (after count' p')
          ≡ mutex_weight f a b p' + total (has_mutex f) num_philosophers s.philosopher
    pub forks :
        (f : ℕ)
        → fork_weight f a b p + total (has_fork f) num_philosophers (after count' p')
          ≡ fork_weight f a b p' + total (has_fork f) num_philosophers s.philosopher
    pub holds : (f : ℕ) → mutex_weight f a b p ≤ total (has_mutex f) num_philosophers s.philosopher
    pub owns : (f : ℕ) → fork_weight f a b p ≤ total (has_fork f) num_philosophers s.philosopher
    pub fresh : IsFresh s.forks a b p

  pub mover :
      i < num_philosophers → (count' : ℕ) (p' : Place) → Mover (s.philosopher i).place count' p'
  mover lt count' p' = record {
    mutexes = λ f.
        total-update (has_mutex f) num_philosophers s.philosopher i
          (moved (s.philosopher i) count' p') lt;
    forks = λ f.
        total-update (has_fork f) num_philosophers s.philosopher i
          (moved (s.philosopher i) count' p') lt;
    holds = λ f. weight-le-total (has_mutex f) num_philosophers s.philosopher i lt;
    owns = λ f. weight-le-total (has_fork f) num_philosophers s.philosopher i lt;
    fresh = inv.fresh i lt;
  }

  pub Move-mutexes :
      {count count' : ℕ} {m : Forks} {p p' : Place}
      → Move s.forks a b count p m count' p'
      → Mover p count' p'
      → (f : ℕ) → lock_value (m.locked f) ≡ total (has_mutex f) num_philosophers (after count' p')
  Move-mutexes (lock_fork e) g f = ground (arith, g.mutexes f, g.holds f, inv.mutexes f)
  Move-mutexes (lock_again e) g f = ground (arith, g.mutexes f, g.holds f, inv.mutexes f)
  Move-mutexes (lock_drop e) g f = ground (arith, g.mutexes f, g.holds f, inv.mutexes f)
  Move-mutexes mv g f = ground (arith, g.mutexes f, g.holds f, inv.mutexes f)

  pub Move-forks :
      {count count' : ℕ} {m : Forks} {p p' : Place}
      → Move s.forks a b count p m count' p'
      → Mover p count' p'
      → (f : ℕ) → status_value (m.status f) ≡ total (has_fork f) num_philosophers (after count' p')
  Move-forks (take {s = first}) g f = ground (arith, g.forks f, g.owns f, inv.forks f, g.fresh)
  Move-forks (take {s = second}) g f = ground (arith, g.forks f, g.owns f, inv.forks f, g.fresh)
  Move-forks (release {s = first}) g f = ground (arith, g.forks f, g.owns f, inv.forks f)
  Move-forks (release {s = second}) g f = ground (arith, g.forks f, g.owns f, inv.forks f)
  Move-forks (lock_fork {s = first} e) g f = ground (arith, g.forks f, inv.forks f)
  Move-forks (lock_fork {s = second} e) g f = ground (arith, g.forks f, inv.forks f)
  Move-forks mv g f = ground (arith, g.forks f, inv.forks f)

  pub Move-eaten :
      {count count' : ℕ} {m : Forks} {p p' : Place}
      → Move s.forks a b count p m count' p'
      → HasEaten count p
      → HasEaten count' p'
  Move-eaten (leave_second lt) h = lt
  Move-eaten (finish e) h = e
  Move-eaten mv h = ground arith
