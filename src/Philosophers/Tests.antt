-- ===== src/Philosophers/Tests.antt =====
-- The theorems on lab9/zad1/src/main.c at concrete states: philosopher 0 eats, and philosopher 4
-- waits for the fork between them.
use sysopy.Common.{ℕ, ◌<◌, ◌≡◌, ◌≢◌, refl, ◌⊎◌, arith, ℕ_discrete}
use sysopy.Philosophers.{
  num_philosophers, courses_to_eat, Slot, first, asleep, eating, done, lock_fork, wait, pass, take,
  unlock_first, unlock_second, System, Step, goes, init, Reach, start, later,
}
use sysopy.Philosophers.Safety.{neighbours_exclusion}
use sysopy.Philosophers.Progress.{hungry_progress}

abbrev started : (s : System) × Reach s
unfolding ℕ_discrete
started = (init, start)

abbrev first_locked : (s : System) × Reach s
unfolding ℕ_discrete
first_locked = (_, later start (goes 0 (omega arith) (lock_fork refl)))

abbrev first_tested : (s : System) × Reach s
unfolding ℕ_discrete
first_tested = (_, later (first_locked.1) (goes 0 (omega arith) (pass (λ e. cc))))

abbrev first_taken : (s : System) × Reach s
unfolding ℕ_discrete
first_taken = (_, later (first_tested.1) (goes 0 (omega arith) take))

abbrev first_unlocked : (s : System) × Reach s
unfolding ℕ_discrete
first_unlocked = (_, later (first_taken.1) (goes 0 (omega arith) unlock_first))

abbrev second_locked : (s : System) × Reach s
unfolding ℕ_discrete
second_locked = (_, later (first_unlocked.1) (goes 0 (omega arith) (lock_fork refl)))

abbrev second_tested : (s : System) × Reach s
unfolding ℕ_discrete
second_tested = (_, later (second_locked.1) (goes 0 (omega arith) (pass (λ e. cc))))

abbrev second_taken : (s : System) × Reach s
unfolding ℕ_discrete
second_taken = (_, later (second_tested.1) (goes 0 (omega arith) take))

abbrev eats : (s : System) × Reach s
unfolding ℕ_discrete
eats = (_, later (second_taken.1) (goes 0 (omega arith) unlock_second))

abbrev neighbour_locked : (s : System) × Reach s
unfolding ℕ_discrete
neighbour_locked = (_, later (eats.1) (goes 4 (omega arith) (lock_fork refl)))

abbrev neighbour_waits : (s : System) × Reach s
unfolding ℕ_discrete
neighbour_waits = (_, later (neighbour_locked.1) (goes 4 (omega arith) (wait refl)))

neighbour_asleep : (neighbour_waits.0.philosopher 4).place ≡ asleep first
unfolding ℕ_discrete neighbour_waits
neighbour_asleep = refl

neighbours_exclusion_example : (eats.0.philosopher 1).place ≢ eating
unfolding ℕ_discrete eats
neighbours_exclusion_example = neighbours_exclusion (eats.1) 0 (omega arith) refl

hungry_progress_example :
    ((i : ℕ)
      → i < num_philosophers
      → ((neighbour_waits.0.philosopher i).place ≡ done)
        × ((neighbour_waits.0.philosopher i).count ≡ courses_to_eat))
    ⊎ ((i : ℕ) × (t : System) × (i < num_philosophers)
        × ((x : Slot) → (neighbour_waits.0.philosopher i).place ≢ asleep x)
        × Step neighbour_waits.0 i t)
unfolding ℕ_discrete neighbour_waits
hungry_progress_example = hungry_progress (neighbour_waits.1)
