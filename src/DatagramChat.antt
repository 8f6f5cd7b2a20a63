-- ===== src/DatagramChat.antt =====
-- The chat server of lab10/zad1/src/server.c: two tables of clients, one for internet sockets and
-- one for Unix domain sockets, and what the loop of `main` does with one datagram. The server is
-- one thread. `time(NULL)` is read anew at every test, so a pass over the tables takes one reading
-- for each slot of each table; readings are at least 0, and -1 is `none`. A `sendto` that fails
-- ends the program in the source, so every one here succeeds.
pub mod Find
pub mod Pass
pub mod Drop
pub mod Clients
pub mod Relay
mod Tests
use sysopy.Common.{
  ℕ, zero, suc, ◌+◌, Bool, true, false, ◌&&◌, ◌||◌, not, Option, none, some, List, [], ◌∷◌, ◌++◌,
  ltb, ◌==◌, if◌then◌else◌,
}
use sysopy.Common.Strings.{contains}
use sysopy.Common.Family.{update}

-- `MAX_CLIENTS`
abbrev pub max_clients : ℕ
max_clients = 15

-- `in_ping_time` and `in_clients`, or `un_ping_time` and `un_clients`
pub record Table (A : Type 0) : Type 0 where
  pub ping_time : ℕ → Option ℕ
  pub clients : ℕ → A

abbrev pub is_some : Option ℕ → Bool
is_some none = false
is_some (some _) = true

-- `ping_time != -1 && time(NULL) - ping_time > 10`
abbrev pub expired : ℕ → Option ℕ → Bool
expired now none = false
expired now (some ping) = ltb (ping + 10) now

-- The fields of `struct sockaddr_in` that are compared.
pub record InAddress : Type 0 where
  pub sin_port : ℕ
  pub s_addr : ℕ

abbrev pub same_in : InAddress → InAddress → Bool
same_in a b = a.sin_port == b.sin_port && a.s_addr == b.s_addr

-- `! strcmp(…)` on `sun_path`
abbrev pub same_path : List ℕ → List ℕ → Bool
same_path [] [] = true
same_path (c ∷ cs) (d ∷ ds) = c == d && same_path cs ds
same_path _ _ = false

module _ {A : Type 0} where
  -- The loop over the slots from `i` on, `left` of them, for the sender.
  pub find_sender : (A → A → Bool) → A → Table A → (left i : ℕ) → Option ℕ
  find_sender same a t zero i = none
  find_sender same a t (suc left) i =
      let rest = find_sender same a t left (i + 1) in
      if is_some (t.ping_time i) && same (t.clients i) a then some i else rest

  -- The same for an empty slot.
  pub find_empty : Table A → (left j : ℕ) → Option ℕ
  find_empty t zero j = none
  find_empty t (suc left) j =
      let rest = find_empty t left (j + 1) in if is_some (t.ping_time j) then rest else some j

  -- A sender without a slot gets the empty one that was found, if any.
  abbrev pub occupy : ℕ → A → Table A → Option ℕ → Table A × Option ℕ
  occupy now a t none = (t, none)
  occupy now a t (some j) = (
    record { ping_time = update t.ping_time j (some now); clients = update t.clients j a },
    some j,
  )

  -- What follows the search for the sender.
  abbrev pub settle : ℕ → A → Table A → Option ℕ → Table A × Option ℕ
  settle now a t (some i) = (record t { ping_time = update t.ping_time i (some now) }, some i)
  settle now a t none = occupy now a t (find_empty t max_clients 0)

  -- The sender's slot, if it has or gets one, at time `now`.
  pub admit : (A → A → Bool) → ℕ → A → Table A → Table A × Option ℕ
  unfolding find_sender
  admit same now a t = settle now a t (find_sender same a t max_clients 0)

  -- The two tests on one slot, and whether the datagram goes to it.
  abbrev pub serve : ℕ → ℕ → Table A → Table A × Bool
  serve now i t =
      if expired now (t.ping_time i)
      then (record t { ping_time = update t.ping_time i none }, false)
      else (t, is_some (t.ping_time i))

-- A slot of the sender's table, where the sender itself is skipped.
abbrev pub turn : {A : Type 0} → Bool → ℕ → ℕ → Table A → Table A × Bool
turn skipped now i t = if skipped then (t, false) else serve now i t

-- A datagram to the client in a slot of the sender's table, or of the other one.
pub data Delivery : Type 0 where
  own : (slot : ℕ) → Delivery
  other : (slot : ℕ) → Delivery

abbrev when : Bool → Delivery → List Delivery → List Delivery
when sent d rest = if sent then d ∷ rest else rest

-- The loop that sends the datagram on, which both branches of `main` write out: over slots from `i`
-- on, `left` of them, those of the sender's table only if they are not skipped.
pub broadcast :
    {A B : Type 0}
    → (now now' : ℕ → ℕ) → (ℕ → Bool)
    → (left i : ℕ) → Table A
    → Table B
    → Table A × Table B × List Delivery
broadcast now now' skip zero i t u = (t, u, [])
broadcast now now' skip (suc left) i t u =
    let (t', sent) = turn (skip i) (now i) i t in
    let (u', sent') = serve (now' i) i u in
    let (t'', u'', rest) = broadcast now now' skip left (i + 1) t' u' in
    (t'', u'', when sent (own i) (when sent' (other i) rest))

-- `sender_id != i` fails
abbrev pub is_sender : Option ℕ → ℕ → Bool
is_sender none i = false
is_sender (some sender_id) i = sender_id == i

-- `sender_id != -1 && sender_id != i` fails
abbrev pub is_sender_or_unknown : Option ℕ → ℕ → Bool
is_sender_or_unknown none i = true
is_sender_or_unknown (some sender_id) i = sender_id == i

-- `"--register--"`
abbrev pub register_text : List ℕ
register_text =
    b'-' ∷ b'-' ∷ b'r' ∷ b'e' ∷ b'g' ∷ b'i' ∷ b's' ∷ b't' ∷ b'e' ∷ b'r' ∷ b'-' ∷ b'-' ∷ []

-- One datagram: when it came, what the clock reads in the pass over the tables, and the C string in
-- `buf`.
pub record Datagram : Type 0 where
  pub arrival : ℕ
  pub now : ℕ → ℕ
  pub now' : ℕ → ℕ
  pub buf : List ℕ

-- What one branch of `main` does, with the sender's table first.
pub relay :
    {A B : Type 0}
    → (A → A → Bool)
    → (Option ℕ → ℕ → Bool)
    → Datagram
    → A
    → Table A
    → Table B
    → Table A × Table B × List Delivery
unfolding admit
relay same skip d a t u =
    let (t', sender_id) = admit same d.arrival a t in
    if contains register_text d.buf
    then (t', u, [])
    else broadcast d.now d.now' (skip sender_id) max_clients 0 t' u

pub record Server : Type 0 where
  pub inet : Table InAddress
  pub unix : Table (List ℕ)

-- A round of the loop: a datagram at one of the two sockets.
pub data Event : Type 0 where
  from_inet : Datagram → InAddress → Event
  from_unix : Datagram → List ℕ → Event

pub receive : Event → Server → Server × List Delivery
unfolding relay
receive (from_inet d a) s =
    let (inet, unix, sent) = relay same_in is_sender d a s.inet s.unix in
    (record { inet = inet; unix = unix }, sent)
receive (from_unix d a) s =
    let (unix, inet, sent) = relay same_path is_sender_or_unknown d a s.unix s.inet in
    (record { inet = inet; unix = unix }, sent)

-- The server at the start, and after some rounds. `unset` is what stands in the static arrays.
abbrev pub init : InAddress → List ℕ → Server
init unset unset' = record {
  inet = record { ping_time = λ _. none; clients = λ _. unset };
  unix = record { ping_time = λ _. none; clients = λ _. unset' };
}

pub rounds : List Event → Server → Server
unfolding receive
rounds [] s = s
rounds (e ∷ es) s = rounds es (receive e s).0
