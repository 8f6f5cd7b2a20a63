-- ===== src/Philosophers/Progress.antt =====
-- The five philosophers of lab9/zad1/src/main.c never come to a halt before they have eaten: one
-- that waits for a fork waits for a philosopher with a larger one.
use sysopy.Common.{
  ℕ, zero, suc, ◌+◌, ◌≤◌, ◌<◌, ◌≡◌, ◌≢◌, refl, sym, ap, ◌∙◌, ◌⊎◌, inl, inr, Bool, true, false,
  arith, dec_lt,
}
use sysopy.Common.Family.{member_of_total}
use sysopy.Philosophers.{
  num_philosophers, courses_to_eat, Status, free, used, Slot, first, second, fork, Place, lock,
  test, asleep, relock, taking, taken, eating, drop, freeing, signalling, freed, done, Forks, Move,
  lock_fork, wait, lock_again, pass, take, unlock_first, unlock_second, eat, lock_drop, release,
  leave_first, leave_second, finish, System, Step, goes, signals, wakes, Reach, Waits,
}
use sysopy.Philosophers.Weights.{
  same, mutex_weight, fork_weight, has_mutex, has_fork, lock_value, status_value,
}
use sysopy.Philosophers.Signal.{Reach-Inv}
use sysopy.Philosophers.Decide.{find_below, dec_asleep, dec_done, dec_busy, dec_waits, has_fork-lt}

-- Philosopher `i` takes a step, and not because it woke by itself.
record Acts (s : System) : Type 0 where
  pub i : ℕ
  pub t : System
  pub seated : i < num_philosophers
  pub awake : (x : Slot) → (s.philosopher i).place ≢ asleep x
  pub step : Step s i t

module _ {s : System} (r : Reach s) where
  signaller-Acts :
      (i : ℕ) (x : Slot) → i < num_philosophers → (s.philosopher i).place ≡ signalling x → Acts s
  signaller-Acts i x lt at =
      elim (find_below
        (λ j. Waits (fork (s.philosopher i).a (s.philosopher i).b x) (s.philosopher j))
        (λ j. dec_waits _ (s.philosopher j).a (s.philosopher j).b (s.philosopher j).place)
        num_philosophers) [
          | inl (j, lt', (y, sleeps, here)) ↦ record {
            i = i;
            t = _;
            seated = lt;
            awake = λ z e. cc (sym at ∙ e);
            step = wakes i j x y lt lt' at sleeps here;
          }
          | inr nobody ↦ record {
            i = i;
            t = _;
            seated = lt;
            awake = λ z e. cc (sym at ∙ e);
            step = signals i x lt at nobody;
          }
        ]

  goes-Acts :
      (i : ℕ) (p : Place) {m : Forks} {count : ℕ} {p' : Place}
      → i < num_philosophers
      → (s.philosopher i).place ≡ p
      → ((x : Slot) → p ≢ asleep x)
      → Move s.forks (s.philosopher i).a (s.philosopher i).b (s.philosopher i).count p m count p'
      → Acts s
  goes-Acts i p {m} {count} {p'} lt at awake mv = record {
    i = i;
    t = _;
    seated = lt;
    awake = λ x e. awake x (sym at ∙ e);
    step = goes i {m = m} {count = count} {place = p'} lt (rw at mv);
  }

  -- One that has a mutex goes on.
  mutex-Acts :
      (i f : ℕ) (p : Place)
      → i < num_philosophers
      → (s.philosopher i).place ≡ p
      → 0 < mutex_weight f (s.philosopher i).a (s.philosopher i).b p
      → Acts s
  mutex-Acts i f (test x) lt at h =
      status-Acts (s.forks.status (fork (s.philosopher i).a (s.philosopher i).b x)) refl
    where
      status-Acts :
          (v : Status)
          → s.forks.status (fork (s.philosopher i).a (s.philosopher i).b x) ≡ v
          → Acts s
      status-Acts free e = goes-Acts i _ lt at (λ y e'. cc) (pass (λ e'. cc (sym e ∙ e')))
      status-Acts used e = goes-Acts i _ lt at (λ y e'. cc) (wait e)
  mutex-Acts i f (taking x) lt at h = goes-Acts i _ lt at (λ y e. cc) take
  mutex-Acts i f (taken first) lt at h = goes-Acts i _ lt at (λ y e. cc) unlock_first
  mutex-Acts i f (taken second) lt at h = goes-Acts i _ lt at (λ y e. cc) unlock_second
  mutex-Acts i f (freeing x) lt at h = goes-Acts i _ lt at (λ y e. cc) release
  mutex-Acts i f (signalling x) lt at h = signaller-Acts i x lt at
  mutex-Acts i f (freed first) lt at h = goes-Acts i _ lt at (λ y e. cc) leave_first
  mutex-Acts i f (freed second) lt at h =
      elim (dec_lt (suc (s.philosopher i).count) courses_to_eat) [
        | yes more ↦ goes-Acts i _ lt at (λ y e. cc) (leave_second more)
        | no last ↦ goes-Acts i _ lt at (λ y e. cc) (finish (omega (arith, hungry)))
      ]
    where
      hungry : (s.philosopher i).count < courses_to_eat
      hungry = rw at at ((Reach-Inv r).eaten i lt)
  mutex-Acts i f (lock x) lt at h = absurd (omega arith)
  mutex-Acts i f (asleep x) lt at h = absurd (omega arith)
  mutex-Acts i f (relock x) lt at h = absurd (omega arith)
  mutex-Acts i f eating lt at h = absurd (omega arith)
  mutex-Acts i f (drop x) lt at h = absurd (omega arith)
  mutex-Acts i f done lt at h = absurd (omega arith)

  -- One that is about to lock a mutex goes on, or the one that has the mutex does.
  lock-Acts :
      (i f : ℕ) (p : Place) {m : Forks} {count : ℕ} {p' : Place}
      → i < num_philosophers
      → (s.philosopher i).place ≡ p
      → ((x : Slot) → p ≢ asleep x)
      → (s.forks.locked f ≡ false
          → Move s.forks
              (s.philosopher i).a
              (s.philosopher i).b
              (s.philosopher i).count
              p
              m
              count
              p')
      → Acts s
  lock-Acts i f p lt at awake mv = locked-Acts (s.forks.locked f) refl
    where
      locked-Acts : (v : Bool) → s.forks.locked f ≡ v → Acts s
      locked-Acts false e = goes-Acts i p lt at awake (mv e)
      locked-Acts true e =
          let (j, lt', has) =
            member_of_total (has_mutex f) num_philosophers s.philosopher
              (omega (arith, ap lock_value e, (Reach-Inv r).mutexes f)) in
          mutex-Acts j f (s.philosopher j).place lt' refl has

  own_mutex : (g : ℕ) → 0 < same g g
  own_mutex g = ground arith

  awake-Acts :
      (i : ℕ) (p : Place)
      → i < num_philosophers
      → (s.philosopher i).place ≡ p
      → ((x : Slot) → p ≢ asleep x)
      → p ≢ done
      → Acts s
  awake-Acts i (lock x) lt at awake busy = lock-Acts i _ _ lt at awake lock_fork
  awake-Acts i (relock x) lt at awake busy = lock-Acts i _ _ lt at awake lock_again
  awake-Acts i (drop x) lt at awake busy = lock-Acts i _ _ lt at awake lock_drop
  awake-Acts i eating lt at awake busy = goes-Acts i _ lt at awake eat
  awake-Acts i (asleep x) lt at awake busy = absurd (awake x refl)
  awake-Acts i done lt at awake busy = absurd (busy refl)
  awake-Acts i (test x) lt at awake busy =
      mutex-Acts i _ _ lt at (own_mutex (fork (s.philosopher i).a (s.philosopher i).b x))
  awake-Acts i (taking x) lt at awake busy =
      mutex-Acts i _ _ lt at (own_mutex (fork (s.philosopher i).a (s.philosopher i).b x))
  awake-Acts i (taken x) lt at awake busy =
      mutex-Acts i _ _ lt at (own_mutex (fork (s.philosopher i).a (s.philosopher i).b x))
  awake-Acts i (freeing x) lt at awake busy =
      mutex-Acts i _ _ lt at (own_mutex (fork (s.philosopher i).a (s.philosopher i).b x))
  awake-Acts i (signalling x) lt at awake busy =
      mutex-Acts i _ _ lt at (own_mutex (fork (s.philosopher i).a (s.philosopher i).b x))
  awake-Acts i (freed x) lt at awake busy =
      mutex-Acts i _ _ lt at (own_mutex (fork (s.philosopher i).a (s.philosopher i).b x))

  -- One that has fork `f` and waits for another waits for a larger one.
  larger :
      (i f : ℕ) (x : Slot)
      → i < num_philosophers
      → 0 < fork_weight f (s.philosopher i).a (s.philosopher i).b (asleep x)
      → f < fork (s.philosopher i).a (s.philosopher i).b x
  larger i f first lt has = absurd (omega arith)
  larger i f second lt has =
      ground (arith, ((Reach-Inv r).seats i lt).0, ((Reach-Inv r).seats i lt).1)

  fork-lt :
      (i f : ℕ) → i < num_philosophers → 0 < has_fork f (s.philosopher i) → f < num_philosophers
  fork-lt i f lt has =
      has_fork-lt f (s.philosopher i).a (s.philosopher i).b (s.philosopher i).place
        (ground (arith, ((Reach-Inv r).seats i lt).0))
        (ground (arith, ((Reach-Inv r).seats i lt).1)) has

  owner :
      (f : ℕ)
      → s.forks.status f ≡ used
      → (i : ℕ) × (i < num_philosophers) × (0 < has_fork f (s.philosopher i))
  owner f in_use =
      member_of_total (has_fork f) num_philosophers s.philosopher
        (omega (arith, ap status_value in_use, (Reach-Inv r).forks f))

  -- The philosopher that has fork `f`, or one further along the chain of those that wait, goes on.
  owner-Acts : (k f : ℕ) → num_philosophers ≤ f + k → s.forks.status f ≡ used → Acts s
  owner-Acts zero f far in_use =
      let (i, lt, has) = owner f in_use in absurd (omega (arith, fork-lt i f lt has))
  owner-Acts (suc k) f far in_use =
      let (i, lt, has) = owner f in_use in
      elim (dec_asleep (s.philosopher i).place) [
        | no awake ↦
            awake-Acts i (s.philosopher i).place lt refl (λ x e. awake (x, e))
              (λ e.
                absurd
                  (omega (arith, ap (fork_weight f (s.philosopher i).a (s.philosopher i).b) e)))
        | yes (x, at) ↦ elim (rw at at ((Reach-Inv r).awake i lt)) [
          | inl held ↦ owner-Acts k _ (omega (arith, larger i f x lt (rw at at has))) held
          | inr (j, lt', (y, stands, here)) ↦ signaller-Acts j y lt' stands
        ]
      ]

  hungry-Acts : (i : ℕ) → i < num_philosophers → (s.philosopher i).place ≢ done → Acts s
  hungry-Acts i lt busy = elim (dec_asleep (s.philosopher i).place) [
    | no awake ↦ awake-Acts i (s.philosopher i).place lt refl (λ x e. awake (x, e)) busy
    | yes (x, at) ↦ elim (rw at at ((Reach-Inv r).awake i lt)) [
      | inl held ↦ owner-Acts num_philosophers _ (omega arith) held
      | inr (j, lt', (y, stands, here)) ↦ signaller-Acts j y lt' stands
    ]
  ]

-- In every reachable state either all philosophers are done and have had ten courses, or one of
-- them can take a step that is not a spontaneous wake-up from pthread_cond_wait.
pub hungry_progress :
    {s : System}
    → Reach s
    → ((i : ℕ)
        → i < num_philosophers
        → ((s.philosopher i).place ≡ done) × ((s.philosopher i).count ≡ courses_to_eat))
      ⊎ ((i : ℕ) × (t : System) × (i < num_philosophers)
          × ((x : Slot) → (s.philosopher i).place ≢ asleep x)
          × Step s i t)
hungry_progress {s} r =
    elim (find_below (λ i. (s.philosopher i).place ≢ done) (λ i. dec_busy (s.philosopher i).place)
      num_philosophers) [
        | inl (i, lt, busy) ↦
            let acts : Acts s = hungry-Acts r i lt busy in
            inr (acts.i, acts.t, acts.seated, acts.awake, acts.step)
        | inr all_done ↦ inl (λ i lt.
            let e : (s.philosopher i).place ≡ done =
              done_of (s.philosopher i).place (all_done i lt) in
            (e, rw e at ((Reach-Inv r).eaten i lt)))
      ]
  where
    done_of : (p : Place) → ¬ (p ≢ done) → p ≡ done
    done_of p h = elim (dec_done p) [ yes through ↦ through | no busy ↦ absurd (h busy) ]
