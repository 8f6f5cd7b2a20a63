-- ===== src/RecordSort/Sorted.antt =====
-- The whole of bubble_sort.c in lab2/zad1/src, for any operations that keep their promises.
use sysopy.Common.{ℕ, zero, suc, ◌-◌, ◌≤◌, ◌<◌, ◌≡◌, refl, some, arith, ℕ_discrete, dec_lt, ◌∙◌}
use sysopy.Common.Family.{total}
use sysopy.RecordSort.{Operations, passes, perform_bubble_sort}
use sysopy.RecordSort.Interface.{Obeys}
use sysopy.RecordSort.Pass.{Passed, pass-Passed}

module _ {R : Type 0} (key : R → ℕ) (num : ℕ) where
  -- Every record above `last` is in its final place.
  abbrev SortedAbove : ℕ → (ℕ → R) → Type 0
  SortedAbove last f = (i j : ℕ) → i ≤ j → j < num → last < j → key (f i) ≤ key (f j)

  abbrev IsSorted : (ℕ → R) → Type 0
  IsSorted f = (i j : ℕ) → i ≤ j → j < num → key (f i) ≤ key (f j)

  Passed-SortedAbove :
      (last : ℕ) (f g : ℕ → R)
      → Passed key num (suc last) f g
      → SortedAbove (suc last) f
      → SortedAbove last g
  Passed-SortedAbove last f g passed sorted i j le lt above = elim (ℕ_discrete j (suc last)) [
    | yes here ↦ rw here (passed.largest i (omega arith))
    | no further ↦ rw (passed.above j (omega arith)) (elim (dec_lt (suc last) i) [
      | yes high ↦ rw (passed.above i high) (sorted i j le lt (omega arith))
      | no low ↦
          passed.bounded (key (f j)) (λ k le'. sorted k j (omega arith) lt (omega arith)) i
            (omega arith)
    ])
  ]

  -- `g` is `f` in order: every weight of records sums up to the same, so each occurs as often.
  pub record Ordered (f g : ℕ → R) : Type 0 where
    pub in_order : IsSorted g
    pub same : (w : R → ℕ) → total w num g ≡ total w num f

module _ {S R : Type 0} (io : Operations S R) (key : R → ℕ) (num : ℕ)
    {Holds : S → (ℕ → R) → ℕ → Type 0} (laws : Obeys io num Holds) where
  passes-Ordered :
      (last : ℕ) {s : S} {f : ℕ → R} {p : ℕ}
      → last < num
      → Holds s f p
      → SortedAbove key num last f
      → (s' : S) × (g : ℕ → R) × (q : ℕ) × (passes io key last s ≡ some s')
        × Holds s' g q
        × Ordered key num f g
  unfolding passes
  passes-Ordered zero {s} {f} {p} lt holds sorted = (
    s,
    f,
    p,
    refl,
    holds,
    record {
      in_order = λ i j le lt'. elim (dec_lt 0 j) [
        | yes above ↦ sorted i j le lt' above
        | no first ↦ let same_one : i ≡ j = omega arith in rw same_one (omega arith)
      ];
      same = λ w. refl;
    },
  )
  passes-Ordered (suc last) {s} {f} lt holds sorted =
      let (s1, rewound, holds1) = laws.rewind holds in
      let (s2, got, holds2) = laws.next holds1 (omega arith) in
      let (s3, g, q, passed_eq, holds3, passed) =
        pass-Passed io key laws (suc last) 0 (suc last) (omega arith) lt holds2
          (λ k le. let zero_k : k ≡ 0 = omega arith in rw zero_k (omega arith)) in
      let (s4, h, r, rest, holds4, ordered) =
        passes-Ordered last (omega arith) holds3
          (Passed-SortedAbove key num last f g passed sorted) in
      (
        s4,
        h,
        r,
        rw (rewound, got, passed_eq) rest,
        holds4,
        record { in_order = ordered.in_order; same = λ w. ordered.same w ∙ passed.same w },
      )

  -- For operations that keep their promises the sort succeeds, and the file then holds the same
  -- records, each as often as before, in the order of their keys.
  pub perform_bubble_sort-Ordered :
      {s : S} {f : ℕ → R} {p : ℕ}
      → Holds s f p
      → (s' : S) × (g : ℕ → R) × (q : ℕ) × (perform_bubble_sort io key num s ≡ some s')
        × Holds s' g q
        × Ordered key num f g
  unfolding perform_bubble_sort
  perform_bubble_sort-Ordered {s} {f} {p} holds = elim (dec_lt 1 num) [
    | yes many ↦
        let (s', g, q, e, holds', ordered) =
          passes-Ordered (num - 1) (omega arith) holds (λ i j le lt above. absurd (omega arith)) in
        (s', g, q, ground (arith, e), holds', ordered)
    | no few ↦ (
      s,
      f,
      p,
      ground arith,
      holds,
      record {
        in_order = λ i j le lt. let same_one : i ≡ j = omega arith in rw same_one (omega arith);
        same = λ w. refl;
      },
    )
  ]
