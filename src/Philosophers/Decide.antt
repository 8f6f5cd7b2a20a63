-- ===== src/Philosophers/Decide.antt =====
-- Searches among the philosophers of lab9/zad1/src/main.c, and the tests that they use.
use sysopy.Common.{
  ℕ, zero, suc, ◌<◌, ◌≡◌, ◌≢◌, refl, sym, ap, ◌∙◌, ◌⊎◌, inl, inr, arith, ℕ_discrete,
}
use sysopy.Philosophers.{num_philosophers, Slot, fork, Place, lock, asleep, done}
use sysopy.Philosophers.Weights.{fork_weight}

-- Some member below `n` has the property, or none has.
pub find_below {ℓ} :
    (P : ℕ → Type ℓ)
    → ((j : ℕ) → Dec (P j))
    → (n : ℕ) → ((j : ℕ) × (j < n) × P j) ⊎ ((j : ℕ) → j < n → ¬ P j)
find_below P dec zero = inr (λ j lt. absurd (omega arith))
find_below P dec (suc n) = elim (dec n) [
  | yes here ↦ inl (n, omega arith, here)
  | no gone ↦ elim (find_below P dec n) [
    | inl (j, lt, there) ↦ inl (j, omega arith, there)
    | inr none_below ↦ inr (λ j lt. elim (ℕ_discrete n j) [
      | yes last ↦ rw (← last) gone
      | no other ↦ none_below j (omega arith)
    ])
  ]
]

pub dec_asleep : (p : Place) → Dec ((x : Slot) × (p ≡ asleep x))
dec_asleep (asleep x) = yes (x, refl)
dec_asleep (lock x) = no (λ w. cc (w.1))
dec_asleep p = no (λ w. cc (w.1))

pub dec_done : (p : Place) → Dec (p ≡ done)
dec_done done = yes refl
dec_done (lock x) = no (λ e. cc)
dec_done p = no (λ e. cc)

pub dec_busy : (p : Place) → Dec (p ≢ done)
dec_busy p = elim (dec_done p) [ yes through ↦ no (λ h. h through) | no busy ↦ yes busy ]

pub dec_waits : (f a b : ℕ) (p : Place) → Dec ((x : Slot) × (p ≡ asleep x) × (fork a b x ≡ f))
dec_waits f a b p = elim (dec_asleep p) [
  | no awake ↦ no (λ w. awake (w.0, w.1))
  | yes (x, at) ↦ elim (ℕ_discrete (fork a b x) f) [
    | yes here ↦ yes (x, at, here)
    | no other ↦ no (λ w. other (ap (fork a b) (asleep-inj (sym at ∙ w.1)) ∙ w.2))
  ]
]
  where
    asleep-inj : {x y : Slot} → asleep x ≡ asleep y → x ≡ y
    asleep-inj e = cc

pub has_fork-lt :
    (f a b : ℕ) (p : Place)
    → a < num_philosophers
    → b < num_philosophers
    → 0 < fork_weight f a b p
    → f < num_philosophers
has_fork-lt f a b p lt lt' h = ground arith
