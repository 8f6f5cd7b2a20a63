-- ===== src/Common/Family.antt =====
-- Families indexed by a process or thread number: an update at one index, and a weight summed over
-- the first `n` members. The counting arguments about semaphores are made with these sums.
use Prim.Native.Nat.{ℕ, zero, suc, ◌+◌, ◌≤◌, ◌<◌}
use mathlib.Core.Path.{◌≡◌, refl}
use mathlib.Core.Logic.{ite, ◌≢◌, if_pos, if_neg}
use native.Mathlib.Decide.{dec_lt, ℕ_discrete}
use native.Mathlib.Omega.{arith}

abbrev pub update {ℓ} : {A : Type ℓ} → (ℕ → A) → ℕ → A → ℕ → A
update f i a j = ite (ℕ_discrete i j) a (f j)

module _ {ℓ} {A : Type ℓ} (f : ℕ → A) (i : ℕ) (a : A) {j : ℕ} where
  pub update-here : i ≡ j → update f i a j ≡ a
  update-here same = if_pos _ same a (f j)

  pub update-apart : i ≢ j → update f i a j ≡ f j
  update-apart apart = if_neg _ apart a (f j)

-- What holds of the new member and of the others holds of all.
pub update-all {ℓ κ} :
    {A : Type ℓ} (f : ℕ → A) (i : ℕ) (a : A) (P : ℕ → A → Type κ)
    → P i a
    → ((j : ℕ) → i ≢ j → P j (f j))
    → (j : ℕ) → P j (update f i a j)
update-all f i a P new old j = elim (ℕ_discrete i j) [
  | yes here ↦ rw (update-here f i a here, ← here) new
  | no apart ↦ rw (update-apart f i a apart) (old j apart)
]

module _ {ℓ} {A : Type ℓ} (weight : A → ℕ) where
  pub total : ℕ → (ℕ → A) → ℕ
  total zero f = 0
  total (suc n) f = weight (f n) + total n f

  pub total-update_outside :
      (f : ℕ → A) (i : ℕ) (a : A) (n : ℕ) → n ≤ i → total n f ≡ total n (update f i a)
  unfolding total
  total-update_outside f i a zero beyond = refl
  total-update_outside f i a (suc n) beyond = ground (arith, total-update_outside f i a n)

  -- One member changes, and the sum changes by that member's weight.
  pub total-update :
      (n : ℕ) (f : ℕ → A) (i : ℕ) (a : A)
      → i < n
      → weight (f i) + total n (update f i a) ≡ weight a + total n f
  unfolding total
  total-update zero f i a none_below = absurd (omega arith)
  total-update (suc n) f i a within = elim (ℕ_discrete n i) [
    | yes last ↦ ground (arith, total-update_outside f i a n)
    | no before ↦ ground (arith, total-update n f i a)
  ]

  -- A member weighs no more than the whole.
  pub weight-le-total : (n : ℕ) (f : ℕ → A) (i : ℕ) → i < n → weight (f i) ≤ total n f
  unfolding total
  weight-le-total zero f i h = absurd (omega arith)
  weight-le-total (suc n) f i h = elim (dec_lt i n) [
    | yes below ↦ omega (arith, weight-le-total n f i below)
    | no last ↦ ground arith
  ]

  -- Two different members together weigh no more than the whole.
  weights-le-total :
      (n : ℕ) (f : ℕ → A) (i j : ℕ) → i < j → j < n → weight (f i) + weight (f j) ≤ total n f
  unfolding total
  weights-le-total zero f i j h k = absurd (omega arith)
  weights-le-total (suc n) f i j h k = elim (dec_lt j n) [
    | yes below ↦ omega (arith, weights-le-total n f i j h below)
    | no last ↦ ground (arith, weight-le-total n f i)
  ]

  pub weights-ne-le-total :
      (n : ℕ) (f : ℕ → A) (i j : ℕ)
      → i < n
      → j < n
      → i ≢ j
      → weight (f i) + weight (f j) ≤ total n f
  weights-ne-le-total n f i j h k ne = elim (dec_lt i j) [
    | yes below ↦ weights-le-total n f i j below k
    | no above ↦ omega (arith, weights-le-total n f j i (omega arith) h)
  ]

  -- The first members weigh no more than the whole.
  pub total_prefix : (n : ℕ) (f : ℕ → A) (i : ℕ) → i ≤ n → total i f ≤ total n f
  unfolding total
  total_prefix zero f i h = let none_left : i ≡ 0 = omega arith in rw none_left (omega arith)
  total_prefix (suc n) f i h = elim (ℕ_discrete i (suc n)) [
    | yes whole ↦ rw whole (omega arith)
    | no part ↦ omega (arith, total_prefix n f i (omega arith))
  ]

  pub total-suc : (n : ℕ) (f : ℕ → A) → total (n + 1) f ≡ weight (f n) + total n f
  unfolding total
  total-suc n f = let e : n + 1 ≡ suc n = omega arith in rw e refl

  pub total_congr : (n : ℕ) (f g : ℕ → A) → ((i : ℕ) → i < n → f i ≡ g i) → total n f ≡ total n g
  unfolding total
  total_congr zero f g same = refl
  total_congr (suc n) f g same =
      let rest : total n f ≡ total n g = total_congr n f g (λ i lt. same i (omega arith)) in
      rw (same n (omega arith), rest) refl

  pub total-eq-zero : (n : ℕ) (f : ℕ → A) → ((i : ℕ) → weight (f i) ≡ 0) → total n f ≡ 0
  unfolding total
  total-eq-zero zero f none_weighs = refl
  total-eq-zero (suc n) f none_weighs = omega (arith, none_weighs n, total-eq-zero n f none_weighs)

  total-eq-zero_below : (n : ℕ) (f : ℕ → A) → ((i : ℕ) → i < n → weight (f i) ≡ 0) → total n f ≡ 0
  unfolding total
  total-eq-zero_below zero f h = refl
  total-eq-zero_below (suc n) f h =
      omega (arith, total-eq-zero_below n f (λ i lt. h i (omega arith)), h n)

  -- If all other members weigh nothing, the whole weighs what the one does.
  pub total-eq-one :
      (n : ℕ) (f : ℕ → A) (i : ℕ) (a : A)
      → i < n
      → weight a ≡ 0
      → ((j : ℕ) → j < n → i ≢ j → weight (f j) ≡ 0)
      → total n f ≡ weight (f i)
  total-eq-one n f i a lt light others =
      omega (arith, total-update n f i a lt, total-eq-zero_below n (update f i a) rest)
    where
      rest : (j : ℕ) → j < n → weight (update f i a j) ≡ 0
      rest j lt' = elim (ℕ_discrete i j) [
        | yes same ↦ rw (if_pos _ same) light
        | no apart ↦ rw (if_neg _ apart) (others j lt' apart)
      ]

  -- A sum that is not zero has a member that weighs something.
  pub member_of_total : (n : ℕ) (f : ℕ → A) → 0 < total n f → (i : ℕ) × (i < n) × (0 < weight (f i))
  unfolding total
  member_of_total zero f h = absurd (omega arith)
  member_of_total (suc n) f h = elim (dec_lt 0 (weight (f n))) [
    | yes heavy ↦ (n, omega arith, heavy)
    | no light ↦
        let (i, below, heavy) = member_of_total n f (omega arith) in (i, omega arith, heavy)
  ]

module _ {ℓ} {A : Type ℓ} (light heavy : A → ℕ) where
  pub total_mono :
      ((a : A) → light a ≤ heavy a) → (n : ℕ) (f : ℕ → A) → total light n f ≤ total heavy n f
  unfolding total
  total_mono h zero f = omega arith
  total_mono h (suc n) f = omega (arith, h (f n), total_mono h n f)
