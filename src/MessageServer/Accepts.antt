-- ===== src/MessageServer/Accepts.antt =====
-- The count of clients in lab6/zad1/src/server.c, which no step lowers.
use sysopy.Common.{ℕ, ◌≡◌, ◌⊎◌, inl, inr, refl, none, ℕ_discrete, ap, ◌∙◌}
use sysopy.Common.Family.{update-here, update-apart}
use sysopy.MessageServer.{
  max_clients, Shared, Accepting, waiting, AcceptMove, too_many, fail, create, count, skip, place,
  Passing, PassMove, nothing, leave, System, accepts, passes, Steps, here, later,
}

AcceptMove-full :
    {m m' : Shared} {p p' : Accepting}
    → AcceptMove m p m' p'
    → m.num_clients ≡ max_clients
    → p ≡ waiting
    → (m' ≡ m) × (p' ≡ waiting)
AcceptMove-full (too_many e) full w = (refl, refl)
AcceptMove-full (fail ne) full w = (refl, refl)
AcceptMove-full (create id ne) full w = absurd (ne full)
AcceptMove-full count full w = cc
AcceptMove-full (skip e) full w = cc
AcceptMove-full (place e) full w = cc

PassMove-slots :
    {m m' : Shared} {p p' : Passing}
    → PassMove m p m' p'
    → (m'.num_clients ≡ m.num_clients)
      × ((j : ℕ)
          → (m'.clients_queue_ids j ≡ none) ⊎ (m'.clients_queue_ids j ≡ m.clients_queue_ids j))
PassMove-slots {m} (leave {i = i} lt e) = (
  refl,
  λ j. elim (ℕ_discrete i j) [
    | yes at_j ↦ inl (update-here m.clients_queue_ids i none at_j)
    | no apart ↦ inr (update-apart m.clients_queue_ids i none apart)
  ],
)
PassMove-slots (nothing lt) = (refl, λ j. inr refl)
PassMove-slots mv = (refl, λ j. inr refl)

-- From a state in which as many clients are counted as there are slots and the accepting thread
-- waits, every later state has that count and the thread waits, and every slot is empty or as it
-- was.
pub full_for_good :
    {s t : System}
    → Steps s t
    → s.shared.num_clients ≡ max_clients
    → s.accepting ≡ waiting
    → (t.shared.num_clients ≡ max_clients)
      × (t.accepting ≡ waiting)
      × ((j : ℕ)
          → (t.shared.clients_queue_ids j ≡ none)
            ⊎ (t.shared.clients_queue_ids j ≡ s.shared.clients_queue_ids j))
full_for_good here full w = (full, w, λ j. inr refl)
full_for_good (later {t = t} st (accepts mv)) full w =
    let (full', w', slots) = full_for_good st full w in
    let (e, e') = AcceptMove-full mv full' w' in
    (ap (λ (m : Shared). m.num_clients) e ∙ full', e', λ j. rw e (slots j))
full_for_good (later st (passes mv)) full w =
    let (full', w', slots) = full_for_good st full w in
    let (e, kept) = PassMove-slots mv in
    (
      e ∙ full',
      w',
      λ j. elim (kept j) [
        | inl gone ↦ inl gone
        | inr same ↦ elim (slots j) [
          | inl gone ↦ inl (same ∙ gone)
          | inr before ↦ inr (same ∙ before)
        ]
      ],
    )
