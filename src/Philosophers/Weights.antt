-- ===== src/Philosophers/Weights.antt =====
-- Who has which mutex and which fork of lab9/zad1/src/main.c, and the invariant.
use sysopy.Common.{ℕ, ◌+◌, ◌<◌, ◌≡◌, ◌⊎◌, Bool, true, false, ◌==◌, if◌then◌else◌}
use sysopy.Common.Family.{total}
use sysopy.Philosophers.{
  num_philosophers, Status, free, used, Slot, first, second, fork, first_fork, second_fork, Place,
  lock, test, asleep, relock, taking, taken, eating, drop, freeing, signalling, freed, done,
  Philosopher, System, Forks, courses_to_eat,
}

-- 1 if the two numbers are equal
abbrev pub same : ℕ → ℕ → ℕ
same f g = if f == g then 1 else 0

-- Has the philosopher the mutex of fork `f`?
abbrev pub mutex_weight : ℕ → ℕ → ℕ → Place → ℕ
mutex_weight f a b (test s) = same (fork a b s) f
mutex_weight f a b (taking s) = same (fork a b s) f
mutex_weight f a b (taken s) = same (fork a b s) f
mutex_weight f a b (freeing s) = same (fork a b s) f
mutex_weight f a b (signalling s) = same (fork a b s) f
mutex_weight f a b (freed s) = same (fork a b s) f
mutex_weight f a b _ = 0

-- How often has it fork `f`, between setting the status to `used` and back to `free`?
abbrev pub fork_weight : ℕ → ℕ → ℕ → Place → ℕ
fork_weight f a b (lock first) = 0
fork_weight f a b (lock second) = same a f
fork_weight f a b (test first) = 0
fork_weight f a b (test second) = same a f
fork_weight f a b (asleep first) = 0
fork_weight f a b (asleep second) = same a f
fork_weight f a b (relock first) = 0
fork_weight f a b (relock second) = same a f
fork_weight f a b (taking first) = 0
fork_weight f a b (taking second) = same a f
fork_weight f a b (taken first) = same a f
fork_weight f a b (taken second) = same a f + same b f
fork_weight f a b eating = same a f + same b f
fork_weight f a b (drop first) = same a f + same b f
fork_weight f a b (freeing first) = same a f + same b f
fork_weight f a b (signalling first) = same b f
fork_weight f a b (freed first) = same b f
fork_weight f a b (drop second) = same b f
fork_weight f a b (freeing second) = same b f
fork_weight f a b (signalling second) = 0
fork_weight f a b (freed second) = 0
fork_weight f a b done = 0

abbrev pub has_mutex : ℕ → Philosopher → ℕ
has_mutex f p = mutex_weight f p.a p.b p.place

abbrev pub has_fork : ℕ → Philosopher → ℕ
has_fork f p = fork_weight f p.a p.b p.place

abbrev pub lock_value : Bool → ℕ
lock_value true = 1
lock_value false = 0

abbrev pub status_value : Status → ℕ
status_value used = 1
status_value free = 0

-- `p` has set the status of fork `f` to free and has not yet signalled.
abbrev Signals : ℕ → Philosopher → Type 0
Signals f p = (s : Slot) × (p.place ≡ signalling s) × (fork p.a p.b s ≡ f)

-- Behind the `while` the fork is free.
abbrev pub IsFresh : Forks → ℕ → ℕ → Place → Type 0
IsFresh m a b (taking x) = m.status (fork a b x) ≡ free
IsFresh m a b _ = Unit

-- One that waits for a fork waits for a fork in use, or is about to be woken.
abbrev pub IsAwaited : Forks → (ℕ → Philosopher) → ℕ → ℕ → Place → Type 0
IsAwaited m ps a b (asleep x) =
    (m.status (fork a b x) ≡ used)
    ⊎ ((j : ℕ) × (j < num_philosophers) × Signals (fork a b x) (ps j))
IsAwaited m ps a b _ = Unit

-- A philosopher stops after the last course.
abbrev pub HasEaten : ℕ → Place → Type 0
HasEaten count done = count ≡ courses_to_eat
HasEaten count _ = count < courses_to_eat

pub record Inv (s : System) : Type 0 where
  pub mutexes :
      (f : ℕ) → lock_value (s.forks.locked f) ≡ total (has_mutex f) num_philosophers s.philosopher
  pub forks :
      (f : ℕ) → status_value (s.forks.status f) ≡ total (has_fork f) num_philosophers s.philosopher
  pub seats :
      (i : ℕ)
      → i < num_philosophers
      → ((s.philosopher i).a ≡ first_fork i) × ((s.philosopher i).b ≡ second_fork i)
  pub fresh :
      (i : ℕ)
      → i < num_philosophers
      → IsFresh s.forks (s.philosopher i).a (s.philosopher i).b (s.philosopher i).place
  pub awake :
      (i : ℕ)
      → i < num_philosophers
      → IsAwaited s.forks s.philosopher
          (s.philosopher i).a
          (s.philosopher i).b
          (s.philosopher i).place
  pub eaten :
      (i : ℕ) → i < num_philosophers → HasEaten (s.philosopher i).count (s.philosopher i).place
