-- ===== src/Philosophers.antt =====
-- The dining philosophers of lab9/zad1/src/main.c: five threads, and for each of five forks a
-- mutex, a condition variable and a status. Threads are interleaved at every call on a mutex or
-- condition variable and at every access to a status.
pub mod Weights
pub mod Moves
pub mod Steps
pub mod Signal
pub mod Safety
pub mod Decide
pub mod Progress
mod Tests
use sysopy.Common.{ℕ, suc, ◌+◌, ◌-◌, ◌<◌, ◌≡◌, ◌≢◌, Bool, true, false, ◌==◌, if◌then◌else◌}
use sysopy.Common.Family.{update}

-- `NUM_PHILOSOPHERS` and `COURSES_TO_EAT`
abbrev pub num_philosophers : ℕ
num_philosophers = 5

abbrev pub courses_to_eat : ℕ
courses_to_eat = 10

-- `FORK_FREE` and `FORK_USED`
pub data Status : Type 0 where
  free : Status
  used : Status

-- Which of its two forks a philosopher is about.
pub data Slot : Type 0 where
  first : Slot
  second : Slot

abbrev pub fork : ℕ → ℕ → Slot → ℕ
fork a b first = a
fork a b second = b

-- The locals `first_fork` and `second_fork` of `dining_function`.
abbrev pub first_fork : ℕ → ℕ
first_fork my_id = if my_id == num_philosophers - 1 then 0 else my_id

abbrev pub second_fork : ℕ → ℕ
second_fork my_id = if my_id == num_philosophers - 1 then my_id else my_id + 1

-- Where a philosopher stands.
pub data Place : Type 0 where
  lock : Slot → Place  -- before lock_mutex, to take the fork
  test : Slot → Place  -- at the head of the `while`, with the mutex
  asleep : Slot → Place  -- in pthread_cond_wait, without the mutex
  relock : Slot → Place  -- in pthread_cond_wait, woken, before it has the mutex again
  taking : Slot → Place  -- behind the `while`
  taken : Slot → Place  -- before unlock_mutex
  eating : Place
  drop : Slot → Place  -- before lock_mutex, to release the fork
  freeing : Slot → Place
  signalling : Slot → Place  -- before signal_condition
  freed : Slot → Place  -- before unlock_mutex
  done : Place

-- `fork_mutex` and `fork_status`
pub record Forks : Type 0 where
  pub locked : ℕ → Bool
  pub status : ℕ → Status

abbrev with_lock : Forks → ℕ → Bool → Forks
with_lock m f b = record m { locked = update m.locked f b }

abbrev with_status : Forks → ℕ → Status → Forks
with_status m f x = record m { status = update m.status f x }

-- One step of the philosopher with forks `a` and `b` that has `count` courses behind it, all but
-- `signal_condition`. POSIX lets a waiting thread wake without a signal: `wake`.
pub data Move (m : Forks) (a b count : ℕ) : Place → Forks → ℕ → Place → Type 0 where
  lock_fork :
      {s : Slot}
      → m.locked (fork a b s) ≡ false
      → Move m a b count (lock s) (with_lock m (fork a b s) true) count (test s)
  wait :
      {s : Slot}
      → m.status (fork a b s) ≡ used
      → Move m a b count (test s) (with_lock m (fork a b s) false) count (asleep s)
  wake : {s : Slot} → Move m a b count (asleep s) m count (relock s)
  lock_again :
      {s : Slot}
      → m.locked (fork a b s) ≡ false
      → Move m a b count (relock s) (with_lock m (fork a b s) true) count (test s)
  pass : {s : Slot} → m.status (fork a b s) ≢ used → Move m a b count (test s) m count (taking s)
  take : {s : Slot} → Move m a b count (taking s) (with_status m (fork a b s) used) count (taken s)
  unlock_first : Move m a b count (taken first) (with_lock m a false) count (lock second)
  unlock_second : Move m a b count (taken second) (with_lock m b false) count eating
  eat : Move m a b count eating m count (drop first)
  lock_drop :
      {s : Slot}
      → m.locked (fork a b s) ≡ false
      → Move m a b count (drop s) (with_lock m (fork a b s) true) count (freeing s)
  release :
      {s : Slot}
      → Move m a b count (freeing s) (with_status m (fork a b s) free) count (signalling s)
  leave_first : Move m a b count (freed first) (with_lock m a false) count (drop second)
  leave_second :
      suc count < courses_to_eat
      → Move m a b count (freed second) (with_lock m b false) (suc count) (lock first)
  finish :
      suc count ≡ courses_to_eat
      → Move m a b count (freed second) (with_lock m b false) (suc count) done

pub record Philosopher : Type 0 where
  pub a : ℕ
  pub b : ℕ
  pub count : ℕ
  pub place : Place

abbrev pub at : Philosopher → Place → Philosopher
at p place = record p { place = place }

abbrev pub moved : Philosopher → ℕ → Place → Philosopher
moved p count place = record p { count = count; place = place }

pub record System : Type 0 where
  pub forks : Forks
  pub philosopher : ℕ → Philosopher

-- `p` waits for fork `f`.
abbrev pub Waits : ℕ → Philosopher → Type 0
Waits f p = (s : Slot) × (p.place ≡ asleep s) × (fork p.a p.b s ≡ f)

-- A step of philosopher `i`. `signal_condition` wakes one that waits for the fork, if there is one.
pub data Step (s : System) : ℕ → System → Type 0 where
  goes :
      (i : ℕ) {m : Forks} {count : ℕ} {place : Place}
      → i < num_philosophers
      → Move s.forks
          (s.philosopher i).a
          (s.philosopher i).b
          (s.philosopher i).count
          (s.philosopher i).place
          m
          count
          place
      → Step s i (record {
        forks = m;
        philosopher = update s.philosopher i (moved (s.philosopher i) count place);
      })
  signals :
      (i : ℕ) (x : Slot)
      → i < num_philosophers
      → (s.philosopher i).place ≡ signalling x
      → ((j : ℕ)
          → j < num_philosophers
          → ¬ Waits (fork (s.philosopher i).a (s.philosopher i).b x) (s.philosopher j))
      → Step s i
          (record s { philosopher = update s.philosopher i (at (s.philosopher i) (freed x)) })
  wakes :
      (i j : ℕ) (x y : Slot)
      → i < num_philosophers
      → j < num_philosophers
      → (s.philosopher i).place ≡ signalling x
      → (s.philosopher j).place ≡ asleep y
      → fork (s.philosopher j).a (s.philosopher j).b y
        ≡ fork (s.philosopher i).a (s.philosopher i).b x
      → Step s i (record s {
        philosopher =
            update
              (update s.philosopher j (at (s.philosopher j) (relock y)))
              i
              (at (s.philosopher i) (freed x));
      })

-- What `main` sets up.
abbrev pub init : System
init = record {
  forks = record { locked = λ _. false; status = λ _. free };
  philosopher = λ i. record { a = first_fork i; b = second_fork i; count = 0; place = lock first };
}

pub data Reach : System → Type 0 where
  start : Reach init
  later : {s : System} {i : ℕ} {t : System} → Reach s → Step s i t → Reach t
