-- ===== src/DatagramChat/Clients.antt =====
-- The tables of lab10/zad1/src/server.c never hold one address twice, and a sender that has a slot
-- keeps it.
use sysopy.Common.{
  ℕ, ◌<◌, ◌≡◌, ◌≢◌, ◌↔◌, ◌⊎◌, refl, Bool, true, false, ◌&&◌, not, Option, none, some, inl, inr,
  arith, ℕ_discrete, ◌∙◌, sym, ap,
}
use sysopy.Common.Family.{update-here, update-apart}
use sysopy.DatagramChat.{
  Table, is_some, find_sender, find_empty, occupy, settle, admit, max_clients,
}
use sysopy.DatagramChat.Find.{Searched, is_sender_slot, find_sender-Searched, find_empty-Searched}

and_right : (b c : Bool) → (b && c) ≡ true → c ≡ true
and_right true c e = e
and_right false c e = cc

and_left : (b c : Bool) → (b && c) ≡ true → b ≡ true
and_left true c e = refl
and_left false c e = cc

none_of : (o : Option ℕ) → not (is_some o) ≡ true → o ≡ none
none_of none e = refl
none_of (some p) e = cc

bool_apart : false ≢ true
bool_apart e = cc

module _ {A : Type 0} where
  -- No two clients have one address.
  abbrev pub IsDistinct : Table A → Type 0
  IsDistinct t =
      (i j : ℕ)
      → i < max_clients
      → j < max_clients
      → is_some (t.ping_time i) ≡ true
      → is_some (t.ping_time j) ≡ true
      → t.clients i ≡ t.clients j
      → i ≡ j

  -- No client has the address.
  abbrev pub IsStranger : Table A → A → Type 0
  IsStranger t a = (j : ℕ) → j < max_clients → is_some (t.ping_time j) ≡ true → t.clients j ≢ a

  -- What `admit` returns: the sender in the slot that it names, as of `now`, the other slots as they
  -- were; or, without a slot, a table that is full of others.
  abbrev pub Admitted : ℕ → A → Table A → Table A → Option ℕ → Type 0
  Admitted now a t t' (some k) =
      (k < max_clients)
      × (t'.ping_time k ≡ some now)
      × (t'.clients k ≡ a)
      × ((j : ℕ) → k ≢ j → (t'.ping_time j ≡ t.ping_time j) × (t'.clients j ≡ t.clients j))
      × (((t.ping_time k ≡ none) × IsStranger t a)
          ⊎ ((is_some (t.ping_time k) ≡ true) × (t.clients k ≡ a)))
  Admitted now a t t' none =
      (t' ≡ t) × ((j : ℕ) → j < max_clients → is_some (t.ping_time j) ≡ true) × IsStranger t a

  occupy-Admitted :
      (now : ℕ) (a : A) (t : Table A) (o : Option ℕ)
      → Searched (λ k. not (is_some (t.ping_time k))) 0 max_clients o
      → IsStranger t a
      → Admitted now a t (occupy now a t o).0 (occupy now a t o).1
  occupy-Admitted now a t none full stranger =
      (refl, λ j lt. live_of (t.ping_time j) (full j (omega arith) lt), stranger)
    where
      live_of : (o : Option ℕ) → not (is_some o) ≡ false → is_some o ≡ true
      live_of none e = cc
      live_of (some p) e = refl
  occupy-Admitted now a t (some k) (ge, lt, empty) stranger = (
    lt,
    update-here t.ping_time k (some now) refl,
    update-here t.clients k a refl,
    λ j apart. (update-apart t.ping_time k (some now) apart, update-apart t.clients k a apart),
    inl (none_of (t.ping_time k) empty, stranger),
  )

  module _ (same : A → A → Bool) (same_iff : (x y : A) → (same x y ≡ true) ↔ (x ≡ y)) where
    settle-Admitted :
        (now : ℕ) (a : A) (t : Table A) (o : Option ℕ)
        → Searched (is_sender_slot same a t) 0 max_clients o
        → Admitted now a t (settle now a t o).0 (settle now a t o).1
    settle-Admitted now a t (some k) (ge, lt, passes) =
        let mine : t.clients k ≡ a =
          (same_iff (t.clients k) a).0 (and_right (is_some (t.ping_time k)) _ passes) in
        (
          lt,
          update-here t.ping_time k (some now) refl,
          mine,
          λ j apart. (update-apart t.ping_time k (some now) apart, refl),
          inr (and_left (is_some (t.ping_time k)) _ passes, mine),
        )
    settle-Admitted now a t none others =
        occupy-Admitted now a t (find_empty t max_clients 0)
          (find_empty-Searched t max_clients 0 max_clients refl)
          (λ j lt live e.
            bool_apart (sym (others j (omega arith) lt) ∙ rw live ((same_iff (t.clients j) a).1 e)))

    pub admit-Admitted :
        (now : ℕ) (a : A) (t : Table A)
        → Admitted now a t (admit same now a t).0 (admit same now a t).1
    unfolding admit
    admit-Admitted now a t =
        settle-Admitted now a t (find_sender same a t max_clients 0)
          (find_sender-Searched same a t max_clients 0 max_clients refl)

  -- The sender's slot is the only one with its address.
  pub Admitted-IsDistinct :
      (now : ℕ) (a : A) (t t' : Table A) (o : Option ℕ)
      → Admitted now a t t' o
      → IsDistinct t
      → IsDistinct t'
  Admitted-IsDistinct now a t t' none (e, full, stranger) distinct = rw e distinct
  Admitted-IsDistinct now a t t' (some k) (lt, stamped, named, rest, before) distinct =
      λ i j below below' live live' same_client. elim (ℕ_discrete k i) [
        | yes i_is ↦ elim (ℕ_discrete k j) [
          | yes j_is ↦ sym i_is ∙ j_is
          | no j_not ↦
              absurd
                (alone j below' j_not live' (sym same_client ∙ ap t'.clients (sym i_is) ∙ named))
        ]
        | no i_not ↦ elim (ℕ_discrete k j) [
          | yes j_is ↦
              absurd (alone i below i_not live (same_client ∙ ap t'.clients (sym j_is) ∙ named))
          | no j_not ↦
              distinct i j below below' (live_before i i_not live) (live_before j j_not live')
                (sym ((rest i i_not).1) ∙ same_client ∙ (rest j j_not).1)
        ]
      ]
    where
      live_before :
          (l : ℕ) → k ≢ l → is_some (t'.ping_time l) ≡ true → is_some (t.ping_time l) ≡ true
      live_before l apart live = ap is_some (sym ((rest l apart).0)) ∙ live

      alone : (l : ℕ) → l < max_clients → k ≢ l → is_some (t'.ping_time l) ≡ true → t'.clients l ≢ a
      alone l below apart live e = elim before [
        | inl (vacant, stranger) ↦
            stranger l below (live_before l apart live) (sym ((rest l apart).1) ∙ e)
        | inr (there, mine) ↦ apart (
            distinct k l lt below there (live_before l apart live)
              (mine ∙ sym e ∙ (rest l apart).1))
      ]
