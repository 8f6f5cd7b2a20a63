-- ===== src/Philosophers/Steps.antt =====
-- A step of lab9/zad1/src/main.c on the mutexes and statuses keeps the invariant.
use sysopy.Common.{
  ℕ, ◌≤◌, ◌<◌, ◌≡◌, ◌≢◌, refl, ap, ◌∙◌, ◌⊎◌, inl, inr, Bool, true, false, arith, ℕ_discrete,
}
use sysopy.Common.Family.{update, update-here, update-apart, update-all, weights-ne-le-total}
use sysopy.Philosophers.{
  num_philosophers, Status, free, used, Slot, fork, Place, lock, asleep, taking, signalling, Forks,
  Move, lock_fork, wait, pass, take, release, Philosopher, moved, System, first_fork, second_fork,
}
use sysopy.Philosophers.Weights.{
  same, mutex_weight, has_mutex, lock_value, Inv, IsFresh, IsAwaited, HasEaten,
}
use sysopy.Philosophers.Moves.{mover, Move-mutexes, Move-forks, Move-eaten}

free_of_not_used : (x : Status) → x ≢ used → x ≡ free
free_of_not_used free h = refl
free_of_not_used used h = absurd (h refl)

lock_value-le-one : (b : Bool) → lock_value b ≤ 1
lock_value-le-one true = omega arith
lock_value-le-one false = omega arith

same_self : (f : ℕ) → same f f ≡ 1
same_self f = ground arith

-- Two philosophers do not have one mutex.
mutex_once :
    {s : System} (inv : Inv s) (i j f : ℕ)
    → i < num_philosophers
    → j < num_philosophers
    → i ≢ j
    → has_mutex f (s.philosopher i) ≡ 1
    → has_mutex f (s.philosopher j) ≡ 1
    → ⊥
mutex_once {s} inv i j f lt lt' apart mine yours = omega (
  arith,
  inv.mutexes f,
  lock_value-le-one (s.forks.locked f),
  weights-ne-le-total (has_mutex f) num_philosophers s.philosopher i j lt lt' apart,
)

module _ {m : Forks} {a b count : ℕ} where
  -- Only a philosopher that has the fork's mutex changes its status.
  Move-status :
      {m' : Forks} {count' : ℕ} {p p' : Place}
      → Move m a b count p m' count' p'
      → (f : ℕ) → (m'.status f ≡ m.status f) ⊎ (mutex_weight f a b p ≡ 1)
  Move-status (take {s}) f = elim (ℕ_discrete (fork a b s) f) [
    | yes here ↦ inr (ground arith)
    | no apart ↦ inl (update-apart m.status (fork a b s) used apart)
  ]
  Move-status (release {s}) f = elim (ℕ_discrete (fork a b s) f) [
    | yes here ↦ inr (ground arith)
    | no apart ↦ inl (update-apart m.status (fork a b s) free apart)
  ]
  Move-status (lock_fork _) f = inl refl
  Move-status mv f = inl refl

  -- A fork in use is in use after the step, or about to be signalled.
  Move-used :
      {m' : Forks} {count' : ℕ} {p p' : Place}
      → Move m a b count p m' count' p'
      → (f : ℕ) → m.status f ≡ used
      → (m'.status f ≡ used) ⊎ ((x : Slot) × (p' ≡ signalling x) × (fork a b x ≡ f))
  Move-used (take {s}) f e = elim (ℕ_discrete (fork a b s) f) [
    | yes here ↦ inl (update-here m.status (fork a b s) used here)
    | no apart ↦ inl (update-apart m.status (fork a b s) used apart ∙ e)
  ]
  Move-used (release {s}) f e = elim (ℕ_discrete (fork a b s) f) [
    | yes here ↦ inr (s, refl, here)
    | no apart ↦ inl (update-apart m.status (fork a b s) free apart ∙ e)
  ]
  Move-used (lock_fork _) f e = inl e
  Move-used mv f e = inl e

  Move-not_signalling :
      {m' : Forks} {count' : ℕ} {p p' : Place}
      → Move m a b count p m' count' p'
      → (x : Slot) → p ≢ signalling x
  Move-not_signalling (lock_fork _) x e = cc
  Move-not_signalling mv x e = cc

  Move-IsFresh :
      {m' : Forks} {count' : ℕ} {p p' : Place} → Move m a b count p m' count' p' → IsFresh m' a b p'
  Move-IsFresh (pass e) = free_of_not_used _ e
  Move-IsFresh (lock_fork _) = tt
  Move-IsFresh mv = tt

  Move-IsAwaited :
      (ps : ℕ → Philosopher) {m' : Forks} {count' : ℕ} {p p' : Place}
      → Move m a b count p m' count' p'
      → IsAwaited m' ps a b p'
  Move-IsAwaited ps (wait e) = inl e
  Move-IsAwaited ps (lock_fork _) = tt
  Move-IsAwaited ps mv = tt

IsFresh-keep :
    (m m' : Forks) (a b : ℕ) (p : Place)
    → ((x : Slot) → p ≡ taking x → m'.status (fork a b x) ≡ m.status (fork a b x))
    → IsFresh m a b p
    → IsFresh m' a b p
IsFresh-keep m m' a b (taking x) keep h = keep x refl ∙ h
IsFresh-keep m m' a b (lock x) keep h = tt
IsFresh-keep m m' a b p keep h = tt

-- What a change of the others does to one that waits.
pub IsAwaited-keep :
    (m m' : Forks) (ps ps' : ℕ → Philosopher) (a b : ℕ) (p : Place)
    → ((x : Slot) → p ≡ asleep x → IsAwaited m ps a b (asleep x) → IsAwaited m' ps' a b (asleep x))
    → IsAwaited m ps a b p
    → IsAwaited m' ps' a b p
IsAwaited-keep m m' ps ps' a b (asleep x) keep h = keep x refl h
IsAwaited-keep m m' ps ps' a b (lock x) keep h = tt
IsAwaited-keep m m' ps ps' a b p keep h = tt

module _ {s : System} (inv : Inv s) (i : ℕ) (lt : i < num_philosophers) where
  abbrev me : Philosopher
  me = s.philosopher i

  module _ {m : Forks} {count' : ℕ} {p' : Place}
      (mv : Move s.forks me.a me.b me.count me.place m count' p') where
    abbrev after : ℕ → Philosopher
    after = update s.philosopher i (moved me count' p')

    others-fresh :
        (j : ℕ)
        → j < num_philosophers
        → i ≢ j
        → IsFresh m (s.philosopher j).a (s.philosopher j).b (s.philosopher j).place
    others-fresh j lt' apart =
        IsFresh-keep s.forks m you.a you.b you.place
          (λ x at. elim (Move-status mv (fork you.a you.b x)) [
            | inl kept ↦ kept
            | inr mine ↦ absurd (
                mutex_once inv i j (fork you.a you.b x) lt lt' apart mine (
                  ap (mutex_weight (fork you.a you.b x) you.a you.b) at
                  ∙ same_self (fork you.a you.b x)))
          ])
          (inv.fresh j lt')
      where
        you : Philosopher
        you = s.philosopher j

    others-awake :
        (j : ℕ)
        → j < num_philosophers
        → i ≢ j
        → IsAwaited m after (s.philosopher j).a (s.philosopher j).b (s.philosopher j).place
    others-awake j lt' apart =
        IsAwaited-keep s.forks m s.philosopher after you.a you.b you.place
          (λ x at waited. elim waited [
            | inl in_use ↦ elim (Move-used mv (fork you.a you.b x) in_use) [
              | inl still ↦ inl still
              | inr (y, stands, here) ↦ inr (i, lt, rw (mine refl) (y, stands, here))
            ]
            | inr (k, lt'', (y, stands, here)) ↦ elim (ℕ_discrete i k) [
              | yes same_one ↦ absurd (Move-not_signalling mv y (rw same_one stands))
              | no other ↦ inr (k, lt'', rw (theirs other) (y, stands, here))
            ]
          ])
          (inv.awake j lt')
      where
        you : Philosopher
        you = s.philosopher j

        mine : {k : ℕ} → i ≡ k → after k ≡ moved me count' p'
        mine = update-here s.philosopher i (moved me count' p')

        theirs : {k : ℕ} → i ≢ k → after k ≡ s.philosopher k
        theirs = update-apart s.philosopher i (moved me count' p')

    -- To show something of every philosopher after the step.
    everyone :
        (P : ℕ → Philosopher → Type 0)
        → P i (moved me count' p')
        → ((j : ℕ) → i ≢ j → P j (s.philosopher j))
        → (j : ℕ) → P j (after j)
    everyone = update-all s.philosopher i (moved me count' p')

    pub goes-Inv : Inv (record { forks = m; philosopher = after })
    goes-Inv = record {
      mutexes = Move-mutexes inv i mv (mover inv i lt count' p');
      forks = Move-forks inv i mv (mover inv i lt count' p');
      seats =
          everyone (λ j q. j < num_philosophers → (q.a ≡ first_fork j) × (q.b ≡ second_fork j))
            (inv.seats i) (λ j apart. inv.seats j);
      fresh =
          everyone (λ j q. j < num_philosophers → IsFresh m q.a q.b q.place) (λ _. Move-IsFresh mv)
            (λ j apart lt'. others-fresh j lt' apart);
      awake =
          everyone (λ j q. j < num_philosophers → IsAwaited m after q.a q.b q.place)
            (λ _. Move-IsAwaited after mv) (λ j apart lt'. others-awake j lt' apart);
      eaten =
          everyone (λ j q. j < num_philosophers → HasEaten q.count q.place)
            (λ _. Move-eaten inv i mv (inv.eaten i lt)) (λ j apart. inv.eaten j);
    }
