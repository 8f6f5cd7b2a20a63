-- ===== src/MessageServer.antt =====
-- The message server of lab6/zad1/src/server.c: the thread that accepts clients and the loop that
-- passes their messages on, interleaved at every access to `clients_queue_ids` and `num_clients`.
-- The queues are the system's: which id a new one gets and what comes in on one is any.
pub mod Slots
pub mod Accepts
mod Tests
use sysopy.Common.{ℕ, zero, suc, ◌+◌, ◌≤◌, ◌<◌, ◌≡◌, ◌≢◌, Option, none, some, List, [], ◌∷◌}
use sysopy.Common.Family.{update}

-- `MAX_CLIENTS`
abbrev pub max_clients : ℕ
max_clients = 15

-- `none` is `EMPTY_CLIENT_SLOT`. `log` is no part of the program: the messages that have been passed
-- on, the last first, each with the slots that it came from and went to.
pub record Shared : Type 0 where
  pub num_clients : ℕ
  pub clients_queue_ids : ℕ → Option ℕ
  pub log : List (ℕ × ℕ)

-- Where the accepting thread stands: before msgrcv, with a new queue, or in the search for a slot.
pub data Accepting : Type 0 where
  waiting : Accepting
  opened : (client_queue_id : ℕ) → Accepting
  searching : (client_queue_id i : ℕ) → Accepting

-- Without a lock file or a queue for the client the thread waits again.
pub data AcceptMove (m : Shared) : Accepting → Shared → Accepting → Type 0 where
  too_many : m.num_clients ≡ max_clients → AcceptMove m waiting m waiting
  fail : m.num_clients ≢ max_clients → AcceptMove m waiting m waiting
  create : (id : ℕ) → m.num_clients ≢ max_clients → AcceptMove m waiting m (opened id)
  count :
      {id : ℕ}
      → AcceptMove m (opened id) (record m { num_clients = m.num_clients + 1 }) (searching id 0)
  skip :
      {id i q : ℕ}
      → m.clients_queue_ids i ≡ some q
      → AcceptMove m (searching id i) m (searching id (i + 1))
  place :
      {id i : ℕ}
      → m.clients_queue_ids i ≡ none
      → AcceptMove m
          (searching id i)
          (record m { clients_queue_ids = update m.clients_queue_ids i (some id) })
          waiting

-- Where the loop stands: at a client, or with a message of client `i` before client `j`.
pub data Passing : Type 0 where
  polling : (i : ℕ) → Passing
  sending : (i j : ℕ) → Passing

-- An empty slot has no queue to receive from, so `exit` and a message need one.
pub data PassMove (m : Shared) : Passing → Shared → Passing → Type 0 where
  nothing : {i : ℕ} → i < max_clients → PassMove m (polling i) m (polling (i + 1))
  leave :
      {i q : ℕ}
      → i < max_clients
      → m.clients_queue_ids i ≡ some q
      → PassMove m
          (polling i)
          (record m { clients_queue_ids = update m.clients_queue_ids i none })
          (polling (i + 1))
  take_message :
      {i q : ℕ}
      → i < max_clients
      → m.clients_queue_ids i ≡ some q
      → PassMove m (polling i) m (sending i 0)
  again : {i : ℕ} → i ≡ max_clients → PassMove m (polling i) m (polling 0)
  send :
      {i j q : ℕ}
      → j < max_clients
      → i ≢ j
      → m.clients_queue_ids j ≡ some q
      → PassMove m (sending i j) (record m { log = (i, j) ∷ m.log }) (sending i (j + 1))
  pass_own : {i j : ℕ} → j < max_clients → i ≡ j → PassMove m (sending i j) m (sending i (j + 1))
  pass_empty :
      {i j : ℕ}
      → j < max_clients
      → m.clients_queue_ids j ≡ none
      → PassMove m (sending i j) m (sending i (j + 1))
  sent : {i j : ℕ} → j ≡ max_clients → PassMove m (sending i j) m (polling (i + 1))

pub record System : Type 0 where
  pub shared : Shared
  pub accepting : Accepting
  pub passing : Passing

pub data Step (s : System) : System → Type 0 where
  accepts :
      {m : Shared} {p : Accepting}
      → AcceptMove s.shared s.accepting m p
      → Step s (record s { shared = m; accepting = p })
  passes :
      {m : Shared} {p : Passing}
      → PassMove s.shared s.passing m p
      → Step s (record s { shared = m; passing = p })

-- Some steps one after another.
pub data Steps (s : System) : System → Type 0 where
  here : Steps s s
  later : {t : System} {u : System} → Steps s t → Step t u → Steps s u

-- The server when its loop starts.
abbrev pub init : System
init = record {
  shared = record { num_clients = 0; clients_queue_ids = λ _. none; log = [] };
  accepting = waiting;
  passing = polling 0;
}
