-- ===== src/Prime/Correct.antt =====
-- What `prime` of lab7/zad1/src/consumer.c decides.
use sysopy.Common.{
  ℕ, zero, suc, ◌+◌, ◌*◌, ◌%◌, ◌/◌, ◌≤◌, ◌<◌, ◌≡◌, ◌≢◌, refl, ◌⊎◌, inl, inr, Bool, true, false,
  some, arith, dec_lt, ℕ_discrete, ap, sym, ◌∙◌, Option,
}
use native.Mathlib.Nat.{div-add-mod, mul-le-mul_left, mul-le-mul, mul-mod_left}
use sysopy.Prime.{prime_loop, prime}

-- `n` has a divisor other than 1 and itself.
abbrev IsComposite : ℕ → Type 0
IsComposite n = (d : ℕ) × (2 ≤ d) × (d < n) × (n % d ≡ 0)

-- No divisor of `n` is found below `i`.
abbrev Clear : ℕ → ℕ → Type 0
Clear i n = (d : ℕ) → 2 ≤ d → d < i → n % d ≢ 0

-- The other factor of `n` is a divisor too, and the smaller of the two lies below `i`.
module _ (n d i : ℕ) (two : 2 ≤ d) (below : d < n) (divides : n % d ≡ 0) (square : n < i * i)
    (above : i ≤ d) where
  product : d * (n / d) ≡ n
  product = omega (arith, div-add-mod n d)

  cofactor-ge : 2 ≤ n / d
  cofactor-ge = elim (dec_lt (n / d) 2) [
    | yes small ↦
        let le_one : n / d ≤ 1 = omega arith in
        absurd (omega (arith, product, mul-le-mul_left d le_one))
    | no large ↦ omega arith
  ]

  cofactor-lt : n / d < i
  cofactor-lt = elim (dec_lt (n / d) i) [
    | yes small ↦ small
    | no large ↦
        let reaches : i ≤ n / d = omega arith in
        absurd (omega (arith, product, mul-le-mul above reaches))
  ]

  cofactor-divides : n % (n / d) ≡ 0
  cofactor-divides = ap (λ m. m % (n / d)) (sym product) ∙ mul-mod_left d (n / d)

Clear-all : (i n : ℕ) → Clear i n → n < i * i → ¬ IsComposite n
Clear-all i n clear square (d, two, below, divides) = elim (dec_lt d i) [
  | yes small ↦ clear d two small divides
  | no large ↦
      let above : i ≤ d = omega arith in
      clear (n / d) (cofactor-ge n d i two below divides square above)
        (cofactor-lt n d i two below divides square above)
        (cofactor-divides n d i two below divides square above)
]

Clear-suc : (i n : ℕ) → Clear i n → n % i ≢ 0 → Clear (i + 1) n
Clear-suc i n clear at_i d two below = elim (dec_lt d i) [
  | yes small ↦ clear d two small
  | no large ↦ let e : d ≡ i = omega arith in rw e at_i
]

-- The answer about `n`, and that there is one.
abbrev pub Decides : Option Bool → ℕ → Type 0
Decides answer n =
    ((answer ≡ some true) × ¬ IsComposite n) ⊎ ((answer ≡ some false) × IsComposite n)

prime_loop-Decides :
    (fuel i n : ℕ)
    → 2 ≤ i
    → i ≤ n + 1
    → n + 2 ≤ i + fuel
    → Clear i n
    → Decides (prime_loop fuel i n) n
unfolding prime_loop
prime_loop-Decides zero i n two within enough clear = absurd (omega arith)
prime_loop-Decides (suc fuel) i n two within enough clear = elim (dec_lt n (i * i)) [
  | yes over ↦ inl (ground arith, Clear-all i n clear over)
  | no more ↦
      let small : i + 1 ≤ n = grind arith in
      elim (ℕ_discrete (n % i) 0) [
        | yes divides ↦ inr (ground arith, (i, two, omega arith, divides))
        | no apart ↦ rw (step more apart) (
            prime_loop-Decides fuel (i + 1) n (omega arith) (omega arith) (omega arith)
              (Clear-suc i n clear apart))
      ]
]
  where
    step : ¬ (n < i * i) → n % i ≢ 0 → prime_loop (suc fuel) i n ≡ prime_loop fuel (i + 1) n
    step more apart = ground arith

-- For a number from 2 on, `prime` returns, and it returns 1 exactly if the number has no divisor
-- but 1 and itself, and 0 if it has.
pub prime-Decides : (n : ℕ) → 2 ≤ n → Decides (prime n) n
unfolding prime
prime-Decides n two =
    prime_loop-Decides (n + 1) 2 n (omega arith) (omega arith) (omega arith)
      (λ d low high. absurd (omega arith))

-- For 0 and 1, which are no prime numbers, `prime` returns 1.
pub prime-below_two : (n : ℕ) → n < 2 → prime n ≡ some true
unfolding prime prime_loop
prime-below_two zero h = refl
prime-below_two (suc zero) h = refl
prime-below_two (suc (suc n)) h = absurd (omega arith)
