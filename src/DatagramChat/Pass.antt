-- ===== src/DatagramChat/Pass.antt =====
-- The pass over the tables of lab10/zad1/src/server.c: which clients get a copy of the datagram, and
-- which are dropped.
use sysopy.Common.{
  ℕ, zero, suc, ◌+◌, ◌≤◌, ◌<◌, ◌≡◌, ◌≢◌, refl, Bool, true, false, ◌&&◌, not, Option, none, List, [],
  ◌∷◌, Bool-cases, ◌==◌, if◌then◌else◌, inl, inr, arith, ℕ_discrete, ◌∙◌, ap,
}
use sysopy.Common.Family.{update-apart}
use sysopy.DatagramChat.{
  Table, is_some, expired, serve, turn, Delivery, own, other, when, broadcast,
}

abbrev pub one_if : Bool → ℕ
one_if b = if b then 1 else 0

abbrev same_slot : Delivery → Delivery → Bool
same_slot (own i) (own j) = i == j
same_slot (other i) (other j) = i == j
same_slot _ _ = false

-- How many copies go to a slot.
abbrev pub copies : Delivery → List Delivery → ℕ
copies d [] = 0
copies d (x ∷ xs) = one_if (same_slot x d) + copies d xs

copies-when :
    (b : Bool) (d x : Delivery) (xs : List Delivery)
    → copies d (when b x xs) ≡ one_if (b && same_slot x d) + copies d xs
copies-when true d x xs = refl
copies-when false d x xs = omega arith

-- A client that has been heard of in the last ten seconds.
abbrev pub is_live : ℕ → Option ℕ → Bool
is_live now ping = is_some ping && not (expired now ping)

module _ {T : Type 0} where
  pub turn-apart :
      (b : Bool) (at i j : ℕ) (t : Table T) → i ≢ j → (turn b at i t).0.ping_time j ≡ t.ping_time j
  turn-apart true at i j t apart = refl
  turn-apart false at i j t apart = elim (Bool-cases (expired at (t.ping_time i))) [
    | inl old ↦ rw old (update-apart t.ping_time i none apart)
    | inr fresh ↦ rw fresh refl
  ]

  turn-sent :
      (b : Bool) (at i : ℕ) (t : Table T)
      → (turn b at i t).1 ≡ (not b && is_live at (t.ping_time i))
  turn-sent true at i t = refl
  turn-sent false at i t = ground arith

-- The slot that a delivery goes to.
abbrev slot_of : Delivery → ℕ
slot_of (own i) = i
slot_of (other i) = i

module _ {A B : Type 0} (now now' : ℕ → ℕ) (skip : ℕ → Bool) where
  -- The slot at the front of the loop, and those behind it.
  copies-suc :
      (left i : ℕ) (t : Table A) (u : Table B) (d : Delivery)
      → copies d (broadcast now now' skip (suc left) i t u).2
        ≡ one_if ((turn (skip i) (now i) i t).1 && same_slot (own i) d)
          + (one_if ((serve (now' i) i u).1 && same_slot (other i) d)
              + copies d
                  (broadcast now now' skip left
                    (i + 1)
                    (turn (skip i) (now i) i t).0
                    (serve (now' i) i u).0).2)
  unfolding broadcast
  copies-suc left i t u d =
      copies-when (turn (skip i) (now i) i t).1 d (own i) _
      ∙ ap (λ n. one_if ((turn (skip i) (now i) i t).1 && same_slot (own i) d) + n)
          (copies-when (serve (now' i) i u).1 d (other i) _)

  copies-before :
      (left i : ℕ) (t : Table A) (u : Table B) (d : Delivery)
      → slot_of d < i
      → copies d (broadcast now now' skip left i t u).2 ≡ 0
  unfolding broadcast
  copies-before zero i t u d lt = refl
  copies-before (suc left) i t u (own j) lt =
      copies-suc left i t u (own j)
      ∙ ground (
        arith,
        copies-before left (i + 1) (turn (skip i) (now i) i t).0 (serve (now' i) i u).0 (own j),
      )
  copies-before (suc left) i t u (other j) lt =
      copies-suc left i t u (other j)
      ∙ ground (
        arith,
        copies-before left (i + 1) (turn (skip i) (now i) i t).0 (serve (now' i) i u).0 (other j),
      )

  own_copies-here :
      (left i : ℕ) (t : Table A) (u : Table B)
      → copies (own i) (broadcast now now' skip (suc left) i t u).2
        ≡ one_if (not (skip i) && is_live (now i) (t.ping_time i))
  own_copies-here left i t u =
      copies-suc left i t u (own i)
      ∙ ground (
        arith,
        turn-sent (skip i) (now i) i t,
        copies-before left (i + 1) (turn (skip i) (now i) i t).0 (serve (now' i) i u).0 (own i),
      )

  other_copies-here :
      (left i : ℕ) (t : Table A) (u : Table B)
      → copies (other i) (broadcast now now' skip (suc left) i t u).2
        ≡ one_if (is_live (now' i) (u.ping_time i))
  other_copies-here left i t u =
      copies-suc left i t u (other i)
      ∙ ground (
        arith,
        turn-sent false (now' i) i u,
        copies-before left (i + 1) (turn (skip i) (now i) i t).0 (serve (now' i) i u).0 (other i),
      )

  pub own_copies :
      (left i : ℕ) (t : Table A) (u : Table B) (j : ℕ)
      → i ≤ j
      → j < i + left
      → copies (own j) (broadcast now now' skip left i t u).2
        ≡ one_if (not (skip j) && is_live (now j) (t.ping_time j))
  own_copies zero i t u j ge lt = absurd (omega arith)
  own_copies (suc left) i t u j ge lt = elim (ℕ_discrete i j) [
    | yes here ↦ rw (← here) (own_copies-here left i t u)
    | no further ↦
        copies-suc left i t u (own j)
        ∙ ground (
          arith,
          own_copies left (i + 1) (turn (skip i) (now i) i t).0 (serve (now' i) i u).0 j,
          turn-apart (skip i) (now i) i j t further,
        )
  ]

  pub other_copies :
      (left i : ℕ) (t : Table A) (u : Table B) (j : ℕ)
      → i ≤ j
      → j < i + left
      → copies (other j) (broadcast now now' skip left i t u).2
        ≡ one_if (is_live (now' j) (u.ping_time j))
  other_copies zero i t u j ge lt = absurd (omega arith)
  other_copies (suc left) i t u j ge lt = elim (ℕ_discrete i j) [
    | yes here ↦ rw (← here) (other_copies-here left i t u)
    | no further ↦
        copies-suc left i t u (other j)
        ∙ ground (
          arith,
          other_copies left (i + 1) (turn (skip i) (now i) i t).0 (serve (now' i) i u).0 j,
          turn-apart false (now' i) i j u further,
        )
  ]
