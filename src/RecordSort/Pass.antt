-- ===== src/RecordSort/Pass.antt =====
-- One pass of the bubble sort of lab2/zad1/src/bubble_sort.c.
use sysopy.Common.{
  ℕ, zero, suc, ◌+◌, ◌-◌, ◌≤◌, ◌<◌, ◌≡◌, ◌≢◌, refl, some, arith, ℕ_discrete, dec_lt, sym, ap, ◌∙◌,
}
use sysopy.Common.Family.{update, update-here, update-apart, total, total-update}
use sysopy.RecordSort.{Operations, compare_next, pass}
use sysopy.RecordSort.Interface.{exchange, Obeys}

module _ {R : Type 0} where
  pub exchange-left : (f : ℕ → R) (a b : ℕ) → a ≢ b → exchange f a b a ≡ f b
  exchange-left f a b apart =
      update-apart (update f a (f b)) b (f a) (λ e. apart (sym e)) ∙ update-here f a (f b) refl

  pub exchange-right : (f : ℕ → R) (a b : ℕ) → exchange f a b b ≡ f a
  exchange-right f a b = update-here (update f a (f b)) b (f a) refl

  pub exchange-apart : (f : ℕ → R) (a b k : ℕ) → a ≢ k → b ≢ k → exchange f a b k ≡ f k
  exchange-apart f a b k na nb =
      update-apart (update f a (f b)) b (f a) nb ∙ update-apart f a (f b) na

  -- The records are the same, counted by any weight.
  total-exchange :
      (w : R → ℕ) (n : ℕ) (f : ℕ → R) (a b : ℕ)
      → a < n
      → b < n
      → a ≢ b
      → total w n (exchange f a b) ≡ total w n f
  total-exchange w n f a b lt lt' apart = omega (
    arith,
    total-update w n f a (f b) lt,
    total-update w n (update f a (f b)) b (f a) lt',
    ap w (update-apart f a (f b) apart),
  )

  -- `g` is what is left of `f` when a pass has put a largest of the records up to `last` there.
  pub record Passed (key : R → ℕ) (num last : ℕ) (f g : ℕ → R) : Type 0 where
    pub same : (w : R → ℕ) → total w num g ≡ total w num f
    pub largest : (k : ℕ) → k ≤ last → key (g k) ≤ key (g last)
    pub bounded :
        (bound : ℕ)
        → ((k : ℕ) → k ≤ last → key (f k) ≤ bound)
        → (k : ℕ) → k ≤ last
        → key (g k) ≤ bound
    pub above : (k : ℕ) → last < k → g k ≡ f k

-- An exchange of neighbours up to `last`, and then the rest of the pass.
Passed-exchange :
    {R : Type 0} (key : R → ℕ) (num last a : ℕ) (f g : ℕ → R)
    → last < num
    → a < last
    → Passed key num last (exchange f a (a + 1)) g
    → Passed key num last f g
Passed-exchange key num last a f g lt below passed = record {
  same = λ w.
      passed.same w ∙ total-exchange w num f a (a + 1) (omega arith) (omega arith) (omega arith);
  largest = passed.largest;
  bounded = λ bound h. passed.bounded bound (λ k le. elim (ℕ_discrete a k) [
    | yes at_left ↦
        rw (← at_left) (rw (exchange-left f a (a + 1) (omega arith)) (h (a + 1) (omega arith)))
    | no not_left ↦ elim (ℕ_discrete (a + 1) k) [
      | yes at_right ↦ rw (← at_right) (rw (exchange-right f a (a + 1)) (h a (omega arith)))
      | no not_right ↦ rw (exchange-apart f a (a + 1) k not_left not_right) (h k le)
    ]
  ]);
  above = λ k gt. passed.above k gt ∙ exchange-apart f a (a + 1) k (omega arith) (omega arith);
}

-- After the exchange the larger of the two stands at the right.
exchange-largest :
    {R : Type 0} (key : R → ℕ) (f : ℕ → R) (a : ℕ)
    → key (f (a + 1)) < key (f a)
    → ((k : ℕ) → k ≤ a → key (f k) ≤ key (f a))
    → (k : ℕ) → k ≤ a + 1
    → key (exchange f a (a + 1) k) ≤ key (f a)
exchange-largest key f a smaller top k le = elim (ℕ_discrete a k) [
  | yes at_left ↦ rw (← at_left) (rw (exchange-left f a (a + 1) (omega arith)) (omega arith))
  | no not_left ↦ elim (ℕ_discrete (a + 1) k) [
    | yes at_right ↦ rw (← at_right) (rw (exchange-right f a (a + 1)) (omega arith))
    | no not_right ↦ rw (exchange-apart f a (a + 1) k not_left not_right) (top k (omega arith))
  ]
]

module _ {S R : Type 0} (io : Operations S R) (key : R → ℕ) {num : ℕ}
    {Holds : S → (ℕ → R) → ℕ → Type 0} (laws : Obeys io num Holds) where
  -- A round of the inner loop, with what the state holds then.
  compare_next-Holds :
      (counter : ℕ) {s : S} {f : ℕ → R}
      → counter + 1 < num
      → Holds s f (counter + 1)
      → ((k : ℕ) → k ≤ counter → key (f k) ≤ key (f counter))
      → (s' : S) × (f' : ℕ → R) × (compare_next io key (counter + 1) (f counter) s
          ≡ some (f' (counter + 1), s'))
        × Holds s' f' (counter + 1 + 1)
        × ((k : ℕ) → k ≤ counter + 1 → key (f' k) ≤ key (f' (counter + 1)))
        × ((last : ℕ) (g : ℕ → R)
            → last < num
            → counter < last
            → Passed key num last f' g
            → Passed key num last f g)
  unfolding compare_next
  compare_next-Holds counter {s} {f} lt holds top =
      let (s', got, holds') = laws.next holds lt in
      elim (dec_lt (key (f (counter + 1))) (key (f counter))) [
        | yes smaller ↦
            let (s'', swapped, holds'') =
              laws.swap counter (counter + 1) holds' (omega arith) lt (omega arith) in
            let back : counter + 1 - 1 ≡ counter = omega arith in
            (
              s'',
              exchange f counter (counter + 1),
              rw (got, exchange-right f counter (counter + 1))
                  (ground (arith, smaller, swapped, back)),
              holds'',
              rw (exchange-right f counter (counter + 1))
                  (exchange-largest key f counter smaller top),
              λ last g lt' below. Passed-exchange key num last counter f g lt' below,
            )
        | no larger ↦ (
          s',
          f,
          rw got (ground arith),
          holds',
          λ k le. elim (ℕ_discrete k (counter + 1)) [
            | yes here ↦ rw here (omega arith)
            | no before ↦ omega (arith, top k (omega arith))
          ],
          λ last g lt' below passed. passed,
        )
      ]

  pub pass-Passed :
      (left counter last : ℕ) {s : S} {f : ℕ → R}
      → last ≡ counter + left
      → last < num
      → Holds s f (counter + 1)
      → ((k : ℕ) → k ≤ counter → key (f k) ≤ key (f counter))
      → (s' : S) × (g : ℕ → R) × (p : ℕ) × (pass io key left (counter + 1) (f counter) s ≡ some s')
        × Holds s' g p
        × Passed key num last f g
  unfolding pass
  pass-Passed zero counter last {s} {f} e lt holds top =
      let here : last ≡ counter = omega arith in
      (
        s,
        f,
        counter + 1,
        refl,
        holds,
        record {
          same = λ w. refl;
          largest = λ k le. rw here (top k (omega arith));
          bounded = λ bound h k le. h k le;
          above = λ k gt. refl;
        },
      )
  pass-Passed (suc left) counter last {s} {f} e lt holds top =
      let (s', f', compared, holds', top', back) =
        compare_next-Holds counter (omega arith) holds top in
      let (s'', g, p, rest, holds'', passed) =
        pass-Passed left (counter + 1) last (omega arith) lt holds' top' in
      (s'', g, p, rw compared rest, holds'', back last g lt (omega arith) passed)
