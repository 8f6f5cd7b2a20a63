-- ===== src/StreamChat/Tests.antt =====
-- Runs of the server of lab10/zad2/src/server.c, and the witnesses.
use sysopy.Common.{
  ℕ, ℕ_discrete, ◌≡◌, ◌≢◌, refl, Bool, true, false, replicate, none, some, [], ◌∷◌, ◌++◌, get_elem?,
  arith,
}
use sysopy.Common.Family.{update}
use sysopy.StreamChat.{Server, init, accept_client, receive, serve, Reach, start, ready}
use sysopy.StreamChat.Watch.{Watched, Reach-Watched}
use sysopy.StreamChat.Copies.{Sent, times, AllText, receive-copies}

-- FD_CLR with -1 as a C library has it that clears the last bit of a word before.
abbrev clears_63 : (ℕ → Bool) → ℕ → Bool
clears_63 f = update f 63 false

-- The sockets 3 and 4 listen; a client connects to each, and gets 5 and 6.
abbrev two_clients : Server
two_clients = serve clears_63 [] 1 6 [] (serve clears_63 [] 0 5 [] (init 3 4))

two_clients-Reach : Reach clears_63 3 4 two_clients
unfolding init serve accept_client ℕ_discrete
two_clients-Reach =
    ready [] 1 6 [] (ready [] 0 5 [] start refl (omega arith) (omega arith)) refl (omega arith)
      (omega arith)

abbrev inet : ℕ
inet = 3

listeners : inet ≢ 4
listeners e = ground arith

Reach-Watched_example : Watched clears_63 3 4 two_clients
Reach-Watched_example = Reach-Watched clears_63 3 4 two_clients listeners two_clients-Reach

slot_three : get_elem? two_clients.sockets 3 ≡ some (some 6)
unfolding init serve accept_client
slot_three = refl

receive-copies_example :
    (new : Sent) × ((receive clears_63 [] 2 (72 ∷ 105 ∷ []) two_clients).sends
      ≡ two_clients.sends ++ new)
    × (times 6 new ≡ 1)
    × AllText (72 ∷ 105 ∷ 0 ∷ []) new
receive-copies_example =
    receive-copies clears_63 [] 3 4 two_clients 2 3 6 72 (105 ∷ []) listeners two_clients-Reach
      (omega arith) slot_three

-- The first client leaves: its socket is in no slot, but open and watched for good.
abbrev left : Server
left = serve clears_63 [] 2 7 [] two_clients

left_stays : (left.is_open 5 ≡ true) × (left.orig 5 ≡ true) × (get_elem? left.sockets 2 ≡ some none)
unfolding init serve accept_client receive ℕ_discrete
left_stays = (refl, refl, refl)

-- A client with socket 63 stays in the table when the other leaves, and is watched no more.
abbrev deaf : Server
deaf = serve clears_63 [] 2 7 [] (serve clears_63 [] 0 63 [] two_clients)

deaf_client : (get_elem? deaf.sockets 4 ≡ some (some 63)) × (deaf.orig 63 ≡ false)
unfolding init serve accept_client receive ℕ_discrete
deaf_client = (refl, refl)

-- A message that fills the buffer is sent with what lies behind it.
abbrev long_message : Server
long_message = receive clears_63 (42 ∷ []) 2 (replicate 350 65) two_clients

overrun :
    long_message.sends
    ≡ (4, replicate 350 65 ++ 42 ∷ 0 ∷ []) ∷ (6, replicate 350 65 ++ 42 ∷ 0 ∷ []) ∷ []
unfolding init serve accept_client receive
overrun = refl
