-- ===== src/MessageServer/Slots.antt =====
-- How many slots of lab6/zad1/src/server.c are in use, and that the search for an empty one ends.
use sysopy.Common.{ℕ, ◌+◌, ◌≤◌, ◌<◌, ◌≡◌, refl, Option, none, some, arith, dec_lt, ap}
use sysopy.Common.Family.{
  update, total, total-update, total-update_outside, total_prefix, total-suc, total-eq-zero,
}
use sysopy.MessageServer.{
  max_clients, Shared, Accepting, waiting, opened, searching, AcceptMove, too_many, fail, create,
  count, skip, place, Passing, PassMove, nothing, leave, send, System, accepts, passes, Steps, here,
  later, init,
}

abbrev pub in_use : Option ℕ → ℕ
in_use none = 0
in_use (some _) = 1

-- The slots in use before slot `n`.
abbrev pub used : ℕ → Shared → ℕ
used n m = total in_use n m.clients_queue_ids

-- The client that is being placed is counted already. From the slot on that the search has come to,
-- at least one is empty.
abbrev Room : Shared → Accepting → Type 0
Room m waiting = (used max_clients m ≤ m.num_clients) × (m.num_clients ≤ max_clients)
Room m (opened id) = (used max_clients m ≤ m.num_clients) × (m.num_clients < max_clients)
Room m (searching id i) =
    (used max_clients m < m.num_clients)
    × (m.num_clients ≤ max_clients)
    × (i < max_clients)
    × (used max_clients m + i < max_clients + used i m)

AcceptMove-Room : {m m' : Shared} {p p' : Accepting} → AcceptMove m p m' p' → Room m p → Room m' p'
AcceptMove-Room (too_many e) r = r
AcceptMove-Room (fail e) r = r
AcceptMove-Room (create id e) (r, small) = (r, omega arith)
AcceptMove-Room {m} count (r, small) = (omega arith, omega arith, omega arith, omega arith)
AcceptMove-Room {m} (skip {i = i} {q = q} e) (r, small, inside, room) =
    let taken : in_use (m.clients_queue_ids i) ≡ 1 = ap in_use e in
    let next : used (i + 1) m ≡ in_use (m.clients_queue_ids i) + used i m =
      total-suc in_use i m.clients_queue_ids in
    let below : used (i + 1) m ≤ used max_clients m =
      total_prefix in_use max_clients m.clients_queue_ids (i + 1) (omega arith) in
    (r, small, omega arith, omega arith)
AcceptMove-Room {m} (place {id = id} {i = i} e) (r, small, inside, room) =
    let empty : in_use (m.clients_queue_ids i) ≡ 0 = ap in_use e in
    (omega (arith, total-update in_use max_clients m.clients_queue_ids i (some id) inside), small)

-- A client that leaves makes room.
leave-Room :
    (m : Shared) (p : Accepting) (k : ℕ)
    → k < max_clients
    → Room m p
    → Room (record m { clients_queue_ids = update m.clients_queue_ids k none }) p
leave-Room m waiting k lt (r, small) =
    (omega (arith, total-update in_use max_clients m.clients_queue_ids k none lt), small)
leave-Room m (opened id) k lt (r, small) =
    (omega (arith, total-update in_use max_clients m.clients_queue_ids k none lt), small)
leave-Room m (searching id i) k lt (r, small, inside, room) = (
  omega (arith, total-update in_use max_clients m.clients_queue_ids k none lt),
  small,
  inside,
  elim (dec_lt k i) [
    | yes passed ↦ omega (
      arith,
      total-update in_use max_clients m.clients_queue_ids k none lt,
      total-update in_use i m.clients_queue_ids k none passed,
    )
    | no ahead ↦ omega (
      arith,
      total-update in_use max_clients m.clients_queue_ids k none lt,
      total-update_outside in_use m.clients_queue_ids k none i (omega arith),
    )
  ],
)

PassMove-Room :
    {m m' : Shared} {p p' : Passing} (a : Accepting) → PassMove m p m' p' → Room m a → Room m' a
PassMove-Room {m} a (leave {i = i} lt e) r = leave-Room m a i lt r
PassMove-Room {m} waiting (send lt ne e) r = r
PassMove-Room {m} (opened id) (send lt ne e) r = r
PassMove-Room {m} (searching id i) (send lt ne e) r = r
PassMove-Room {m} a (nothing lt) r = r
PassMove-Room {m} a mv r = r

Steps-Room : {s t : System} → Steps s t → Room s.shared s.accepting → Room t.shared t.accepting
Steps-Room here r = r
Steps-Room (later st (accepts mv)) r = AcceptMove-Room mv (Steps-Room st r)
Steps-Room {t = t} (later st (passes mv)) r = PassMove-Room t.accepting mv (Steps-Room st r)

init-Room : Room init.shared init.accepting
init-Room = (
  omega (arith, total-eq-zero in_use max_clients init.shared.clients_queue_ids (λ _. refl)),
  omega arith,
)

-- In every state that the server reaches, however its two threads are interleaved: no more slots
-- are in use than clients are counted, no more clients are counted than there are slots, and the
-- search for an empty slot is inside the array.
pub search_in_range :
    {t : System}
    → Steps init t
    → (used max_clients t.shared ≤ t.shared.num_clients)
      × (t.shared.num_clients ≤ max_clients)
      × ((id i : ℕ) → t.accepting ≡ searching id i → i < max_clients)
search_in_range {t} st = of_Room t.accepting (Steps-Room st init-Room)
  where
    index_eq : (id i id' i' : ℕ) → searching id i ≡ searching id' i' → i ≡ i'
    index_eq id i id' i' e = cc

    of_Room :
        (a : Accepting)
        → Room t.shared a
        → (used max_clients t.shared ≤ t.shared.num_clients)
          × (t.shared.num_clients ≤ max_clients)
          × ((id i : ℕ) → a ≡ searching id i → i < max_clients)
    of_Room waiting (r, small) = (r, small, λ id i e. cc)
    of_Room (opened id) (r, small) = (r, omega arith, λ id' i e. cc)
    of_Room (searching id i) (r, small, inside, room) =
        (omega arith, small, λ id' i' e. rw (← index_eq id i id' i' e) inside)
