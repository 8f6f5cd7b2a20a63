-- ===== src/DatagramChat/Tests.antt =====
-- The theorems on lab10/zad1/src/server.c at concrete tables, and the answers of the server to a
-- few datagrams.
use sysopy.Common.{
  ℕ, ◌+◌, ◌≡◌, ◌≢◌, refl, Bool, false, ◌&&◌, not, Option, some, [], ◌∷◌, arith, ℕ_discrete,
}
use sysopy.DatagramChat.{
  InAddress, same_in, admit, broadcast, find_empty, own, other, is_sender, register_text, Datagram,
  relay, Server, from_inet, from_unix, receive, init, rounds,
}
use sysopy.DatagramChat.Pass.{copies, is_live, one_if}
use sysopy.DatagramChat.Drop.{left_of}
use sysopy.DatagramChat.Clients.{IsDistinct}
use sysopy.DatagramChat.Relay.{relay-copies, rounds-IsDistinct, receive_stranger}

abbrev address : ℕ → InAddress
address port = record { sin_port = port; s_addr = 1 }

-- `hi` at a given time
abbrev hi : ℕ → Datagram
hi at = record { arrival = at; now = λ _. at; now' = λ _. at; buf = b'h' ∷ b'i' ∷ [] }

abbrev registration : ℕ → Datagram
registration at = record { arrival = at; now = λ _. at; now' = λ _. at; buf = register_text }

-- Two internet clients and one Unix domain client.
abbrev three : Server
unfolding rounds ℕ_discrete
three =
    rounds
      (from_inet (registration 100) (address 7)
        ∷ from_inet (registration 101) (address 8)
        ∷ from_unix (registration 102) (b'p' ∷ [])
        ∷ [])
      (init (address 0) [])

-- The first one's message goes to the two others, in the order of the slots.
answer_of_three : (receive (from_inet (hi 105) (address 7)) three).1 ≡ other 0 ∷ own 1 ∷ []
unfolding three receive broadcast find_empty
answer_of_three = refl

-- After eleven seconds of silence of the others nobody hears it, and they are dropped.
silence_of_three : (receive (from_inet (hi 114) (address 7)) three).1 ≡ []
unfolding three receive broadcast find_empty
silence_of_three = refl

relay-copies_example :
    let stamp : Option ℕ = (admit same_in 105 (address 7) three.inet).0.ping_time 1 in
    let skipped : Bool = is_sender (admit same_in 105 (address 7) three.inet).1 1 in
    (copies (own 1) (relay same_in is_sender (hi 105) (address 7) three.inet three.unix).2
      ≡ one_if (not skipped && is_live 105 stamp))
    × (copies (other 1) (relay same_in is_sender (hi 105) (address 7) three.inet three.unix).2
        ≡ one_if (is_live 105 (three.unix.ping_time 1)))
    × ((relay same_in is_sender (hi 105) (address 7) three.inet three.unix).0.ping_time 1
        ≡ left_of skipped 105 stamp)
    × ((relay same_in is_sender (hi 105) (address 7) three.inet three.unix).1.ping_time 1
        ≡ left_of false 105 (three.unix.ping_time 1))
relay-copies_example =
    relay-copies same_in is_sender (hi 105) (address 7) three.inet three.unix refl 1 (omega arith)

rounds-IsDistinct_example :
    IsDistinct (rounds (from_inet (hi 3) (address 7) ∷ []) (init (address 0) [])).inet
    × IsDistinct (rounds (from_inet (hi 3) (address 7) ∷ []) (init (address 0) [])).unix
rounds-IsDistinct_example = rounds-IsDistinct (address 0) [] (from_inet (hi 3) (address 7) ∷ [])

-- Both tables full, every client heard of at time 100.
abbrev full : Server
full = record {
  inet = record { ping_time = λ _. some 100; clients = λ i. address (i + 1) };
  unix = record { ping_time = λ _. some 100; clients = λ i. i ∷ [] };
}

receive_stranger_example :
    (copies (own 3) (receive (from_inet (hi 105) (address 0)) full).1 ≡ 1)
    × (copies (other 3) (receive (from_inet (hi 105) (address 0)) full).1 ≡ 1)
    × (copies (other 3) (receive (from_unix (hi 105) []) full).1 ≡ 1)
    × (copies (own 3) (receive (from_unix (hi 105) []) full).1 ≡ 0)
receive_stranger_example =
    receive_stranger (hi 105) (address 0) [] full refl (λ j lt. refl) (λ j lt live e. nobody j e)
      (λ j lt. refl) (λ j lt live e. cc e) 3 (omega arith)
  where
    nobody : (j : ℕ) → address (j + 1) ≢ address 0
    nobody j e = grind (arith, e)
