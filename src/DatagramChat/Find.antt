-- ===== src/DatagramChat/Find.antt =====
-- The two searches of lab10/zad1/src/server.c find the first slot that passes their test.
use sysopy.Common.{
  ℕ, zero, suc, ◌+◌, ◌≤◌, ◌<◌, ◌≡◌, refl, Bool, true, false, ◌&&◌, not, Option, none, some,
  Bool-cases, inl, inr, arith, ℕ_discrete, ◌∙◌, sym, ap,
}
use sysopy.DatagramChat.{Table, is_some, find_sender, find_empty}

-- A slot from `low` to below `high` that passes the test, or the proof that none does.
abbrev pub Searched : (ℕ → Bool) → (low high : ℕ) → Option ℕ → Type 0
Searched test low high (some k) = (low ≤ k) × (k < high) × (test k ≡ true)
Searched test low high none = (k : ℕ) → low ≤ k → k < high → test k ≡ false

Searched-next :
    (test : ℕ → Bool) (low high : ℕ) (o : Option ℕ)
    → test low ≡ false
    → Searched test (low + 1) high o
    → Searched test low high o
Searched-next test low high (some k) e (ge, lt, found) = (omega arith, lt, found)
Searched-next test low high none e h = λ k ge lt. elim (ℕ_discrete low k) [
  | yes here ↦ ap test (sym here) ∙ e
  | no further ↦ h k (omega arith) lt
]

module _ {A : Type 0} where
  abbrev pub is_sender_slot : (A → A → Bool) → A → Table A → ℕ → Bool
  is_sender_slot same a t i = is_some (t.ping_time i) && same (t.clients i) a

  pub find_sender-Searched :
      (same : A → A → Bool) (a : A) (t : Table A) (left i high : ℕ)
      → high ≡ i + left
      → Searched (is_sender_slot same a t) i high (find_sender same a t left i)
  unfolding find_sender
  find_sender-Searched same a t zero i high e = λ k ge lt. absurd (omega arith)
  find_sender-Searched same a t (suc left) i high e =
      elim (Bool-cases (is_sender_slot same a t i)) [
        | inl found ↦ rw found (omega arith, omega arith, found)
        | inr other ↦ rw other (
            Searched-next (is_sender_slot same a t) i high _ other
              (find_sender-Searched same a t left (i + 1) high (omega arith)))
      ]

  pub find_empty-Searched :
      (t : Table A) (left j high : ℕ)
      → high ≡ j + left
      → Searched (λ k. not (is_some (t.ping_time k))) j high (find_empty t left j)
  unfolding find_empty
  find_empty-Searched t zero j high e = λ k ge lt. absurd (omega arith)
  find_empty-Searched t (suc left) j high e = elim (Bool-cases (is_some (t.ping_time j))) [
    | inl taken ↦ rw taken (
        Searched-next (λ k. not (is_some (t.ping_time k))) j high _ (rw taken refl)
          (find_empty-Searched t left (j + 1) high (omega arith)))
    | inr vacant ↦ rw vacant (omega arith, omega arith, rw vacant refl)
  ]
