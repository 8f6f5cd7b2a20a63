-- ===== src/DatagramChat/Drop.antt =====
-- The pass over the tables of lab10/zad1/src/server.c: which clients it drops.
use sysopy.Common.{
  ℕ, zero, suc, ◌+◌, ◌≤◌, ◌<◌, ◌≡◌, refl, Bool, true, false, ◌&&◌, not, Option, none, some,
  Bool-cases, if◌then◌else◌, inl, inr, arith, ℕ_discrete, ◌∙◌,
}
use sysopy.Common.Family.{update-here, update-all}
use sysopy.DatagramChat.{Table, expired, serve, turn, broadcast}
use sysopy.DatagramChat.Pass.{turn-apart}

-- Every client of the second table is one of the first.
abbrev pub Kept : {T : Type 0} → Table T → Table T → Type 0
Kept t t' =
    ((j p : ℕ) → t'.ping_time j ≡ some p → t.ping_time j ≡ some p) × (t'.clients ≡ t.clients)

module _ {T : Type 0} where
  Kept-trans : (t t' t'' : Table T) → Kept t t' → Kept t' t'' → Kept t t''
  Kept-trans t t' t'' (h, e) (h', e') = (λ j p live. h j p (h' j p live), e' ∙ e)

  -- A pass only drops clients.
  turn-Kept : (b : Bool) (at i : ℕ) (t : Table T) → Kept t (turn b at i t).0
  turn-Kept true at i t = (λ j p e. e, refl)
  turn-Kept false at i t = elim (Bool-cases (expired at (t.ping_time i))) [
    | inl old ↦ rw old (
      update-all t.ping_time i none (λ j ping. (p : ℕ) → ping ≡ some p → t.ping_time j ≡ some p)
          (λ p e. cc) (λ j apart p e. e),
      refl,
    )
    | inr fresh ↦ rw fresh (λ j p e. e, refl)
  ]

-- What becomes of the time stamp of a slot.
abbrev pub left_of : Bool → ℕ → Option ℕ → Option ℕ
left_of skipped at ping = if not skipped && expired at ping then none else ping

module _ {T : Type 0} where
  turn-here :
      (b : Bool) (at i : ℕ) (t : Table T)
      → (turn b at i t).0.ping_time i ≡ left_of b at (t.ping_time i)
  turn-here true at i t = refl
  turn-here false at i t = elim (Bool-cases (expired at (t.ping_time i))) [
    | inl old ↦ rw old (update-here t.ping_time i none refl)
    | inr fresh ↦ rw fresh refl
  ]

module _ {A B : Type 0} (now now' : ℕ → ℕ) (skip : ℕ → Bool) where
  pub broadcast-Kept :
      (left i : ℕ) (t : Table A) (u : Table B)
      → Kept t (broadcast now now' skip left i t u).0
        × Kept u (broadcast now now' skip left i t u).1
  unfolding broadcast
  broadcast-Kept zero i t u = ((λ j p e. e, refl), (λ j p e. e, refl))
  broadcast-Kept (suc left) i t u =
      let (h, h') =
        broadcast-Kept left (i + 1) (turn (skip i) (now i) i t).0 (serve (now' i) i u).0 in
      (
        Kept-trans t (turn (skip i) (now i) i t).0 _ (turn-Kept (skip i) (now i) i t) h,
        Kept-trans u (serve (now' i) i u).0 _ (turn-Kept false (now' i) i u) h',
      )

  broadcast-before :
      (left i : ℕ) (t : Table A) (u : Table B) (j : ℕ)
      → j < i
      → ((broadcast now now' skip left i t u).0.ping_time j ≡ t.ping_time j)
        × ((broadcast now now' skip left i t u).1.ping_time j ≡ u.ping_time j)
  unfolding broadcast
  broadcast-before zero i t u j lt = (refl, refl)
  broadcast-before (suc left) i t u j lt =
      let (h, h') =
        broadcast-before left (i + 1) (turn (skip i) (now i) i t).0 (serve (now' i) i u).0 j
          (omega arith) in
      (
        h ∙ turn-apart (skip i) (now i) i j t (omega arith),
        h' ∙ turn-apart false (now' i) i j u (omega arith),
      )

  pub broadcast-left :
      (left i : ℕ) (t : Table A) (u : Table B) (j : ℕ)
      → i ≤ j
      → j < i + left
      → ((broadcast now now' skip left i t u).0.ping_time j
          ≡ left_of (skip j) (now j) (t.ping_time j))
        × ((broadcast now now' skip left i t u).1.ping_time j
            ≡ left_of false (now' j) (u.ping_time j))
  unfolding broadcast
  broadcast-left zero i t u j ge lt = absurd (omega arith)
  broadcast-left (suc left) i t u j ge lt = elim (ℕ_discrete i j) [
    | yes here ↦
        let (h, h') =
          broadcast-before left (i + 1) (turn (skip i) (now i) i t).0 (serve (now' i) i u).0 i
            (omega arith) in
        rw (← here) (h ∙ turn-here (skip i) (now i) i t, h' ∙ turn-here false (now' i) i u)
    | no further ↦
        let (h, h') =
          broadcast-left left (i + 1) (turn (skip i) (now i) i t).0 (serve (now' i) i u).0 j
            (omega arith) (omega arith) in
        (
          h ∙ rw (turn-apart (skip i) (now i) i j t further) refl,
          h' ∙ rw (turn-apart false (now' i) i j u further) refl,
        )
  ]
