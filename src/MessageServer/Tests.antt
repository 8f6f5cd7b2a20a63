-- ===== src/MessageServer/Tests.antt =====
-- The theorems on lab6/zad1/src/server.c in concrete states.
use sysopy.Common.{ℕ, ◌+◌, ◌≤◌, ◌<◌, ◌≡◌, ◌⊎◌, refl, none, some, [], arith}
use sysopy.MessageServer.{
  max_clients, waiting, searching, create, count, polling, leave, System, accepts, passes, Steps,
  here, later, init,
}
use sysopy.MessageServer.Slots.{used, search_in_range}
use sysopy.MessageServer.Accepts.{full_for_good}

-- A client has a queue, with the id 40, and the search for its slot begins.
abbrev accepted : (t : System) × Steps init t
accepted = (_, later (later here (accepts (create 40 (λ e. omega (arith, e))))) (accepts count))

search_in_range_example :
    (used max_clients accepted.0.shared ≤ accepted.0.shared.num_clients)
    × (accepted.0.shared.num_clients ≤ max_clients)
    × ((id i : ℕ) → accepted.0.accepting ≡ searching id i → i < max_clients)
search_in_range_example = search_in_range accepted.1

-- All slots in use.
abbrev crowd : System
crowd = record {
  shared = record { num_clients = 15; clients_queue_ids = λ i. some (100 + i); log = [] };
  accepting = waiting;
  passing = polling 3;
}

-- The client in slot 3 leaves.
abbrev left : (t : System) × Steps crowd t
left = (_, later here (passes (leave (omega arith) refl)))

full_for_good_example :
    (left.0.shared.num_clients ≡ max_clients)
    × (left.0.accepting ≡ waiting)
    × ((j : ℕ)
        → (left.0.shared.clients_queue_ids j ≡ none)
          ⊎ (left.0.shared.clients_queue_ids j ≡ crowd.shared.clients_queue_ids j))
full_for_good_example = full_for_good left.1 refl refl
