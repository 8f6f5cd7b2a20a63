-- ===== src/Philosophers/Signal.antt =====
-- `signal_condition` of lab9/zad1/src/main.c keeps the invariant: a fork has two neighbours, so
-- when one of them signals only the other can be waiting.
use sysopy.Common.{ℕ, ◌+◌, ◌<◌, ◌≡◌, ◌≢◌, refl, sym, ap, ◌∙◌, ◌⊎◌, inl, inr, arith, ℕ_discrete}
use mathlib.Core.Path.{subst}
use sysopy.Common.Family.{update, update-apart, update-all, total, total-update, total-eq-zero}
use sysopy.Philosophers.{
  num_philosophers, Slot, first, second, fork, asleep, relock, signalling, freed, Philosopher, at,
  System, first_fork, second_fork, Waits, Step, goes, signals, wakes, Reach, start, later, init,
  wake,
}
use sysopy.Philosophers.Weights.{
  mutex_weight, fork_weight, has_mutex, has_fork, Inv, IsFresh, IsAwaited, HasEaten,
}
use sysopy.Philosophers.Steps.{goes-Inv, IsAwaited-keep}

-- The two philosophers beside fork `f`.
abbrev Beside : ℕ → ℕ → Type 0
Beside i f = ((f ≡ i) ⊎ ((f ≡ i + 1) × (i < 4))) ⊎ ((i ≡ 4) × (f ≡ 0))

fork-Beside :
    (i a b f : ℕ) (x : Slot)
    → i < num_philosophers
    → a ≡ first_fork i
    → b ≡ second_fork i
    → fork a b x ≡ f
    → Beside i f
fork-Beside i a b f first lt ea eb e = ground arith
fork-Beside i a b f second lt ea eb e = ground arith

-- There is no third.
crowd : (i j k f : ℕ) → Beside i f → Beside j f → Beside k f → i ≢ j → i ≢ k → j ≢ k → ⊥
crowd i j k f p q r ij ik jk = omega arith

total-relabel :
    (w : Philosopher → ℕ) (ps : ℕ → Philosopher) (k : ℕ) (q : Philosopher)
    → k < num_philosophers
    → w q ≡ w (ps k)
    → total w num_philosophers (update ps k q) ≡ total w num_philosophers ps
total-relabel w ps k q lt e = omega (arith, total-update w num_philosophers ps k q lt)

-- Signalling changes nothing in who has what.
freed-fork : (f a b : ℕ) (x : Slot) → fork_weight f a b (freed x) ≡ fork_weight f a b (signalling x)
freed-fork f a b first = refl
freed-fork f a b second = refl

module _ {s : System} (inv : Inv s) (i : ℕ) (lt : i < num_philosophers) (x : Slot)
    (stands : (s.philosopher i).place ≡ signalling x) where
  abbrev me : Philosopher
  me = s.philosopher i

  abbrev after : ℕ → Philosopher
  after = update s.philosopher i (at me (freed x))

  module _
      (nobody : (k : ℕ) → k < num_philosophers → ¬ Waits (fork me.a me.b x) (s.philosopher k)) where
    others-awake :
        (k : ℕ)
        → i ≢ k
        → k < num_philosophers
        → IsAwaited s.forks after (s.philosopher k).a (s.philosopher k).b (s.philosopher k).place
    others-awake k apart lt' =
        IsAwaited-keep s.forks s.forks s.philosopher after you.a you.b you.place
          (λ y waits waited. elim waited [
            | inl in_use ↦ inl in_use
            | inr (l, lt'', (z, signs, here)) ↦ elim (ℕ_discrete i l) [
              | yes mine ↦
                  let signs_me : me.place ≡ signalling z = rw mine signs in
                  let z_x : z ≡ x = cc (sym signs_me ∙ stands) in
                  let fork_me : fork me.a me.b z ≡ fork you.a you.b y = rw mine here in
                  absurd (nobody k lt' (y, waits, sym fork_me ∙ ap (fork me.a me.b) z_x))
              | no other ↦ inr (
                l,
                lt'',
                rw (update-apart s.philosopher i (at me (freed x)) other) (z, signs, here),
              )
            ]
          ])
          (inv.awake k lt')
      where
        you : Philosopher
        you = s.philosopher k

    signals-Inv : Inv (record s { philosopher = after })
    signals-Inv = record {
      mutexes = λ f.
          inv.mutexes f
          ∙ sym (
              total-relabel (has_mutex f) s.philosopher i _ lt
                (sym (ap (mutex_weight f me.a me.b) stands)));
      forks = λ f.
          inv.forks f
          ∙ sym (
              total-relabel (has_fork f) s.philosopher i _ lt
                (freed-fork f me.a me.b x ∙ sym (ap (fork_weight f me.a me.b) stands)));
      seats =
          update-all s.philosopher i (at me (freed x))
            (λ j q. j < num_philosophers → (q.a ≡ first_fork j) × (q.b ≡ second_fork j))
            (inv.seats i) (λ j apart. inv.seats j);
      fresh =
          update-all s.philosopher i (at me (freed x))
            (λ j q. j < num_philosophers → IsFresh s.forks q.a q.b q.place) (λ _. tt)
            (λ j apart. inv.fresh j);
      awake =
          update-all s.philosopher i (at me (freed x))
            (λ j q. j < num_philosophers → IsAwaited s.forks after q.a q.b q.place) (λ _. tt)
            others-awake;
      eaten =
          update-all s.philosopher i (at me (freed x))
            (λ j q. j < num_philosophers → HasEaten q.count q.place)
            (λ lt'. rw stands at (inv.eaten i lt)) (λ j apart. inv.eaten j);
    }

-- When philosopher `j` waits for the fork, it is woken and nobody else waits.
module _ {s : System} (inv : Inv s) (i : ℕ) (lt : i < num_philosophers) (x : Slot)
    (stands : (s.philosopher i).place ≡ signalling x) (j : ℕ) (lt' : j < num_philosophers)
    (y : Slot) (waits : (s.philosopher j).place ≡ asleep y)
    (shared : fork (s.philosopher j).a (s.philosopher j).b y
      ≡ fork (s.philosopher i).a (s.philosopher i).b x) where
  abbrev signaller : Philosopher
  signaller = s.philosopher i

  woken : ℕ → Philosopher
  woken = update s.philosopher j (at (s.philosopher j) (relock y))

  woken-Inv : Inv (record s { philosopher = woken })
  unfolding woken
  woken-Inv = goes-Inv inv j lt' (rw waits wake)

  apart : j ≢ i
  apart same_one = cc (sym stands ∙ ap (λ k. (s.philosopher k).place) (sym same_one) ∙ waits)

  -- A third philosopher is not beside the fork.
  third :
      (k : ℕ)
      → j ≢ k
      → k < num_philosophers
      → ¬ Waits (fork signaller.a signaller.b x) (s.philosopher k)
  third k other lt'' (z, sleeps, here) = elim (ℕ_discrete i k) [
    | yes mine ↦ cc (sym stands ∙ ap (λ l. (s.philosopher l).place) mine ∙ sleeps)
    | no distinct ↦
        crowd i j k (fork signaller.a signaller.b x) (beside i lt x refl) (beside j lt' y shared)
          (beside k lt'' z here) (λ e. apart (sym e)) distinct other
  ]
    where
      beside :
          (l : ℕ)
          → l < num_philosophers
          → (w : Slot)
          → fork (s.philosopher l).a (s.philosopher l).b w ≡ fork signaller.a signaller.b x
          → Beside l (fork signaller.a signaller.b x)
      beside l below w e =
          fork-Beside l (s.philosopher l).a (s.philosopher l).b _ w below (inv.seats l below).0
            (inv.seats l below).1 e

  nobody_else : (k : ℕ) → k < num_philosophers → ¬ Waits (fork signaller.a signaller.b x) (woken k)
  unfolding woken
  nobody_else =
      update-all s.philosopher j (at (s.philosopher j) (relock y))
        (λ k q. k < num_philosophers → ¬ Waits (fork signaller.a signaller.b x) q)
        (λ lt'' w. cc (w.1)) (λ k other lt'' w. third k other lt'' w)

  wakes-Inv : Inv (record s { philosopher = update woken i (at signaller (freed x)) })
  unfolding woken
  wakes-Inv =
      subst (λ q. Inv (record s { philosopher = update woken i (at q (freed x)) })) unmoved
        (signals-Inv woken-Inv i lt x (ap (λ q. q.place) unmoved ∙ stands) (
          subst (λ q. (k : ℕ) → k < num_philosophers → ¬ Waits (fork q.a q.b x) (woken k))
            (sym unmoved) nobody_else))
    where
      unmoved : woken i ≡ signaller
      unmoved = update-apart s.philosopher j (at (s.philosopher j) (relock y)) apart

Step-Inv : {s : System} {i : ℕ} {t : System} → Step s i t → Inv s → Inv t
unfolding woken
Step-Inv (goes i lt mv) inv = goes-Inv inv i lt mv
Step-Inv (signals i x lt stands nobody) inv = signals-Inv inv i lt x stands nobody
Step-Inv (wakes i j x y lt lt' stands waits shared) inv =
    wakes-Inv inv i lt x stands j lt' y waits shared

init-Inv : Inv init
init-Inv = record {
  mutexes = λ f. sym (total-eq-zero (has_mutex f) num_philosophers init.philosopher (λ _. refl));
  forks = λ f. sym (total-eq-zero (has_fork f) num_philosophers init.philosopher (λ _. refl));
  seats = λ i lt. (refl, refl);
  fresh = λ i lt. tt;
  awake = λ i lt. tt;
  eaten = λ i lt. omega arith;
}

-- The invariant holds in every reachable state.
pub Reach-Inv : {s : System} → Reach s → Inv s
Reach-Inv start = init-Inv
Reach-Inv (later r st) = Step-Inv st (Reach-Inv r)
