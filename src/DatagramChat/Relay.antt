-- ===== src/DatagramChat/Relay.antt =====
-- One datagram at lab10/zad1/src/server.c, from its arrival to the copies that are sent on.
use sysopy.Common.{
  ℕ, ◌<◌, ◌≡◌, ◌↔◌, refl, Bool, true, false, ◌&&◌, not, Option, none, some, List, [], ◌∷◌,
  Bool-cases, Option-cases, inl, inr, arith, ◌∙◌, sym, ap,
}
use sysopy.Common.Strings.{contains}
use sysopy.DatagramChat.{
  Table, is_some, InAddress, same_in, same_path, admit, max_clients, own, other, is_sender,
  is_sender_or_unknown, register_text, Datagram, relay, Server, Event, from_inet, from_unix,
  receive, init, rounds,
}
use sysopy.DatagramChat.Pass.{copies, is_live, one_if, own_copies, other_copies}
use sysopy.DatagramChat.Drop.{Kept, left_of, broadcast-Kept, broadcast-left}
use sysopy.DatagramChat.Clients.{
  IsDistinct, IsStranger, Admitted, admit-Admitted, Admitted-IsDistinct,
}

module _ {A B : Type 0} (same : A → A → Bool) (skip : Option ℕ → ℕ → Bool) (d : Datagram) (a : A)
    (t : Table A) (u : Table B) where
  -- A datagram without the text that registers: a slot of either table, with the time stamp that
  -- it has once the sender is admitted, gets one copy if its client was heard of in the last ten
  -- seconds and it is not skipped, and no copy otherwise; the stamp is cleared if it is older than
  -- ten seconds and the slot is not skipped, and kept otherwise.
  pub relay-copies :
      contains register_text d.buf ≡ false
      → (j : ℕ) → j < max_clients
      → let stamp : Option ℕ = (admit same d.arrival a t).0.ping_time j in
        let skipped : Bool = skip (admit same d.arrival a t).1 j in
        (copies (own j) (relay same skip d a t u).2
          ≡ one_if (not skipped && is_live (d.now j) stamp))
        × (copies (other j) (relay same skip d a t u).2
            ≡ one_if (is_live (d.now' j) (u.ping_time j)))
        × ((relay same skip d a t u).0.ping_time j ≡ left_of skipped (d.now j) stamp)
        × ((relay same skip d a t u).1.ping_time j ≡ left_of false (d.now' j) (u.ping_time j))
  unfolding relay
  relay-copies plain j lt =
      let t' : Table A = (admit same d.arrival a t).0 in
      let skipping : ℕ → Bool = skip (admit same d.arrival a t).1 in
      let (h, h') = broadcast-left d.now d.now' skipping max_clients 0 t' u j (omega arith) lt in
      rw plain (
        own_copies d.now d.now' skipping max_clients 0 t' u j (omega arith) lt,
        other_copies d.now d.now' skipping max_clients 0 t' u j (omega arith) lt,
        h,
        h',
      )

  -- Whatever the datagram says, it only drops clients after the sender is admitted.
  relay-Kept :
      Kept (admit same d.arrival a t).0 (relay same skip d a t u).0
      × Kept u (relay same skip d a t u).1
  unfolding relay
  relay-Kept = elim (Bool-cases (contains register_text d.buf)) [
    | inl registers ↦ rw registers ((λ j p e. e, refl), (λ j p e. e, refl))
    | inr plain ↦ rw plain (
        broadcast-Kept d.now d.now' (skip (admit same d.arrival a t).1) max_clients 0
          (admit same d.arrival a t).0 u)
  ]

admit-full :
    {A : Type 0} (same : A → A → Bool) (same_iff : (x y : A) → (same x y ≡ true) ↔ (x ≡ y))
    (now : ℕ) (a : A) (t : Table A)
    → ((j : ℕ) → j < max_clients → is_some (t.ping_time j) ≡ true)
    → IsStranger t a
    → ((admit same now a t).0 ≡ t) × ((admit same now a t).1 ≡ none)
admit-full same same_iff now a t full stranger =
    refused (admit same now a t).0 (admit same now a t).1 (admit-Admitted same same_iff now a t)
  where
    refused : (t' : Table _) (o : Option ℕ) → Admitted now a t t' o → (t' ≡ t) × (o ≡ none)
    refused t' none (e, _, _) = (e, refl)
    refused t' (some k) (lt, _, _, _, before) = elim before [
      | inl (vacant, _) ↦ cc (sym (full k lt) ∙ ap is_some vacant)
      | inr (there, mine) ↦ absurd (stranger k lt there mine)
    ]

-- Dropping clients makes no two of them the same.
Kept-IsDistinct : {T : Type 0} (t t' : Table T) → Kept t t' → IsDistinct t → IsDistinct t'
Kept-IsDistinct t t' (keeps, named) distinct i j below below' live live' same_client =
    distinct i j below below' (before i live) (before j live')
      (ap (λ f. f i) (sym named) ∙ same_client ∙ ap (λ f. f j) named)
  where
    before : (l : ℕ) → is_some (t'.ping_time l) ≡ true → is_some (t.ping_time l) ≡ true
    before l live = elim (Option-cases (t'.ping_time l)) [
      | inl gone ↦ cc (sym live ∙ ap is_some gone)
      | inr (p, e) ↦ ap is_some (keeps l p e)
    ]

relay-IsDistinct :
    {A B : Type 0} (same : A → A → Bool) (skip : Option ℕ → ℕ → Bool) (d : Datagram) (a : A)
    (t : Table A) (u : Table B)
    → ((x y : A) → (same x y ≡ true) ↔ (x ≡ y))
    → IsDistinct t
    → IsDistinct u
    → IsDistinct (relay same skip d a t u).0 × IsDistinct (relay same skip d a t u).1
relay-IsDistinct same skip d a t u same_iff distinct distinct' =
    let (own_kept, other_kept) = relay-Kept same skip d a t u in
    (
      Kept-IsDistinct (admit same d.arrival a t).0 _ own_kept (
          Admitted-IsDistinct d.arrival a t _ (admit same d.arrival a t).1
            (admit-Admitted same same_iff d.arrival a t) distinct),
      Kept-IsDistinct u _ other_kept distinct',
    )

same_in_iff : (x y : InAddress) → (same_in x y ≡ true) ↔ (x ≡ y)
same_in_iff x y = ground arith

same_path_iff : (x y : List ℕ) → (same_path x y ≡ true) ↔ (x ≡ y)
same_path_iff [] [] = (λ _. refl, λ _. refl)
same_path_iff [] (d ∷ ds) = (λ e. cc, λ e. cc)
same_path_iff (c ∷ cs) [] = (λ e. cc, λ e. cc)
same_path_iff (c ∷ cs) (d ∷ ds) =
    (λ e. ground (arith, (same_path_iff cs ds).0), λ e. ground (arith, (same_path_iff cs ds).1))

-- After any number of datagrams from the start on, no two clients of a table have one address.
pub rounds-IsDistinct :
    (unset : InAddress) (unset' : List ℕ) (es : List Event)
    → IsDistinct (rounds es (init unset unset')).inet
      × IsDistinct (rounds es (init unset unset')).unix
unfolding rounds
rounds-IsDistinct unset unset' es = go es (init unset unset') (λ i j _ _ e. cc) (λ i j _ _ e. cc)
  where
    go :
        (es : List Event) (s : Server)
        → IsDistinct s.inet
        → IsDistinct s.unix
        → IsDistinct (rounds es s).inet × IsDistinct (rounds es s).unix
    go [] s h h' = (h, h')
    go (from_inet d a ∷ es) s h h' =
        let (k, k') = relay-IsDistinct same_in is_sender d a s.inet s.unix same_in_iff h h' in
        go es (receive (from_inet d a) s).0 k k'
    go (from_unix d a ∷ es) s h h' =
        let (k', k) =
          relay-IsDistinct same_path is_sender_or_unknown d a s.unix s.inet same_path_iff h' h in
        go es (receive (from_unix d a) s).0 k k'

-- When both tables are full of other clients, a datagram of a stranger at the internet socket goes
-- to every client heard of in the last ten seconds, the internet clients too; that of a stranger at
-- the Unix domain socket goes to the internet clients and to none of the Unix domain clients.
pub receive_stranger :
    (d : Datagram) (a : InAddress) (path : List ℕ) (s : Server)
    → contains register_text d.buf ≡ false
    → ((j : ℕ) → j < max_clients → is_some (s.inet.ping_time j) ≡ true)
    → IsStranger s.inet a
    → ((j : ℕ) → j < max_clients → is_some (s.unix.ping_time j) ≡ true)
    → IsStranger s.unix path
    → (j : ℕ) → j < max_clients
    → (copies (own j) (receive (from_inet d a) s).1
        ≡ one_if (is_live (d.now j) (s.inet.ping_time j)))
      × (copies (other j) (receive (from_inet d a) s).1
          ≡ one_if (is_live (d.now' j) (s.unix.ping_time j)))
      × (copies (other j) (receive (from_unix d path) s).1
          ≡ one_if (is_live (d.now' j) (s.inet.ping_time j)))
      × (copies (own j) (receive (from_unix d path) s).1 ≡ 0)
unfolding receive
receive_stranger d a path s plain full stranger full' stranger' j lt =
    let (h, h', _, _) = relay-copies same_in is_sender d a s.inet s.unix plain j lt in
    let (k, k', _, _) =
      relay-copies same_path is_sender_or_unknown d path s.unix s.inet plain j lt in
    let (e, e') = admit-full same_in same_in_iff d.arrival a s.inet full stranger in
    let (_, f') = admit-full same_path same_path_iff d.arrival path s.unix full' stranger' in
    (
      h
          ∙ ap
              (λ (o : Option ℕ). one_if (
                not (is_sender o j)
                && is_live (d.now j) ((admit same_in d.arrival a s.inet).0.ping_time j)))
              e'
          ∙ ap (λ (t : Table InAddress). one_if (is_live (d.now j) (t.ping_time j))) e,
      h',
      k',
      k
          ∙ ap
              (λ (o : Option ℕ). one_if (
                not (is_sender_or_unknown o j)
                && is_live (d.now j) ((admit same_path d.arrival path s.unix).0.ping_time j)))
              f',
    )
