-- ===== src/StreamChat/Watch.antt =====
-- What every state of the server of lab10/zad2/src/server.c has: each socket in the table is open
-- and watched by select as far as FD_CLR with -1 leaves it, and no two slots hold one.
use sysopy.Common.{
  ℕ, zero, suc, ℕ_discrete, ◌≤◌, ◌≡◌, ◌≢◌, refl, sym, ap, ◌∙◌, Bool, true, false, Bool-cases,
  Option-cases, inl, inr, Option, none, some, List, [], ◌∷◌, get_elem?, set, arith,
}
use mathlib.Core.Path.{subst}
use sysopy.Common.Family.{update, update-here, update-apart}
use sysopy.StreamChat.{
  SocketSlot, Server, both, max, init, put_in_slot, watch_new, accept_client, find_max, max_of,
  receive, serve_slot, serve, Reach, start, ready,
}
use sysopy.StreamChat.Slots.{
  AllFds, Distinct, OnSome, AllFds-map, AllFds-both, put_in_slot-AllFds, put_in_slot-Distinct,
  set-AllFds, set-Distinct, max-left, max-right, max_of-AllFds, AllFds-replicate,
  Distinct-replicate,
}

-- FD_CLR with -1 never takes the descriptor out of a set.
abbrev pub Spares : ((ℕ → Bool) → ℕ → Bool) → ℕ → Type 0
Spares fd_clr fd = (f : ℕ → Bool) → f fd ≡ true → fd_clr f fd ≡ true

-- The socket is open, in the set that select gets if it is spared, and not above its bound.
abbrev Ready : ((ℕ → Bool) → ℕ → Bool) → Server → ℕ → Type 0
Ready fd_clr s fd = (s.is_open fd ≡ true) × (Spares fd_clr fd → s.orig fd ≡ true) × (fd ≤ s.maxfd)

abbrev Listens : (inet unix : ℕ) → List SocketSlot → Type 0
Listens inet unix slots = (rest : List SocketSlot) × (slots ≡ some inet ∷ some unix ∷ rest)

pub record Watched (fd_clr : (ℕ → Bool) → ℕ → Bool) (inet unix : ℕ) (s : Server) : Type 0 where
  pub inet_is : s.inet_listening_socket ≡ inet
  pub unix_is : s.unix_listening_socket ≡ unix
  pub listens : Listens inet unix s.sockets
  pub fds : AllFds (Ready fd_clr s) s.sockets
  pub distinct : Distinct s.sockets

both_inet : (a b : ℕ) → both a b a ≡ true
both_inet a b = ground arith

both_unix : (a b : ℕ) → both a b b ≡ true
both_unix a b = ground arith

init-Watched :
    (fd_clr : (ℕ → Bool) → ℕ → Bool) (inet unix : ℕ)
    → inet ≢ unix
    → Watched fd_clr inet unix (init inet unix)
unfolding init
init-Watched fd_clr inet unix ne = record {
  inet_is = refl;
  unix_is = refl;
  listens = (_, refl);
  fds = (
    (both_inet inet unix, λ spares. both_inet inet unix, max-left inet unix),
    (
      (both_unix inet unix, λ spares. both_unix inet unix, max-right inet unix),
      AllFds-replicate (Ready fd_clr (init inet unix)) 13,
    ),
  );
  distinct = (
    (ne, AllFds-replicate (λ g. inet ≢ g) 13),
    (AllFds-replicate (λ g. unix ≢ g) 13, Distinct-replicate 13),
  );
}

put_in_slot-Listens :
    (inet unix newfd : ℕ) (slots : List SocketSlot)
    → Listens inet unix slots
    → OnSome (Listens inet unix) (put_in_slot newfd slots)
put_in_slot-Listens inet unix newfd slots (rest, e) =
    subst (λ t. OnSome (Listens inet unix) (put_in_slot newfd t)) (sym e)
      (elim (Option-cases (put_in_slot newfd rest)) [
        | inl no_room ↦ rw no_room tt
        | inr (t, room) ↦ rw room (t, refl)
      ])

module _ (f : ℕ → Bool) (newfd fd : ℕ) where
  -- What is open, or watched, stays so.
  update-true : f fd ≡ true → update f newfd true fd ≡ true
  update-true e = elim (ℕ_discrete newfd fd) [
    | yes same ↦ update-here f newfd true same
    | no apart ↦ update-apart f newfd true apart ∙ e
  ]

  apart_of_closed : f newfd ≡ false → f fd ≡ true → newfd ≢ fd
  apart_of_closed closed e same = let bad : false ≡ true = sym closed ∙ ap f same ∙ e in absurd cc

module _ (fd_clr : (ℕ → Bool) → ℕ → Bool) (inet unix newfd : ℕ) (s : Server)
    (w : Watched fd_clr inet unix s) where
  abbrev opened : Server
  opened = record s { is_open = update s.is_open newfd true }

  -- What is true of a descriptor of the table after the new one was placed.
  abbrev Kept : ℕ → Type 0
  Kept fd =
      (update s.is_open newfd true fd ≡ true)
      × (Spares fd_clr fd → update s.orig newfd true fd ≡ true)
      × (fd ≤ max newfd s.maxfd)

  watch_new-Watched :
      (o : Option (List SocketSlot))
      → OnSome (Listens inet unix) o
      → OnSome (AllFds Kept) o
      → OnSome Distinct o
      → AllFds (Ready fd_clr opened) s.sockets
      → Watched fd_clr inet unix (watch_new newfd o opened)
  watch_new-Watched none listens fds distinct still = record {
    inet_is = w.inet_is;
    unix_is = w.unix_is;
    listens = w.listens;
    fds = still;
    distinct = w.distinct;
  }
  watch_new-Watched (some slots) listens fds distinct still = record {
    inet_is = w.inet_is;
    unix_is = w.unix_is;
    listens = listens;
    fds = fds;
    distinct = distinct;
  }

  accept_client-Watched : s.is_open newfd ≡ false → Watched fd_clr inet unix (accept_client newfd s)
  unfolding accept_client
  accept_client-Watched closed =
      let new : Kept newfd = (
        update-here s.is_open newfd true refl,
        λ spares. update-here s.orig newfd true refl,
        max-left newfd s.maxfd,
      ) in
      let kept : AllFds Kept s.sockets =
        AllFds-map (Ready fd_clr s) Kept s.sockets
          (λ fd (is_open, watched, le). (
            update-true s.is_open newfd fd is_open,
            λ spares. update-true s.orig newfd fd (watched spares),
            omega (arith, le, max-right newfd s.maxfd),
          ))
          w.fds in
      let still =
        AllFds-map (Ready fd_clr s) (Ready fd_clr opened) s.sockets
          (λ fd (is_open, watched, le). (update-true s.is_open newfd fd is_open, watched, le))
          w.fds in
      let apart =
        AllFds-map (Ready fd_clr s) (λ g. newfd ≢ g) s.sockets
          (λ g (is_open, _, _). apart_of_closed s.is_open newfd g closed is_open) w.fds in
      watch_new-Watched (put_in_slot newfd s.sockets)
        (put_in_slot-Listens inet unix newfd s.sockets w.listens)
        (put_in_slot-AllFds Kept newfd s.sockets new kept)
        (put_in_slot-Distinct newfd s.sockets apart w.distinct) still

set_front :
    (inet unix i fd : ℕ) (rest : List SocketSlot)
    → get_elem? (some inet ∷ some unix ∷ rest) i ≡ some (some fd)
    → both inet unix fd ≡ false
    → Listens inet unix (set (some inet ∷ some unix ∷ rest) i none)
set_front inet unix zero fd rest held talks =
    let same : inet ≡ fd = cc in
    let bad : true ≡ false = sym (both_inet inet unix) ∙ ap (both inet unix) same ∙ talks in
    absurd cc
set_front inet unix (suc zero) fd rest held talks =
    let same : unix ≡ fd = cc in
    let bad : true ≡ false = sym (both_unix inet unix) ∙ ap (both inet unix) same ∙ talks in
    absurd cc
set_front inet unix (suc (suc i)) fd rest held talks = (set rest i none, refl)

-- A slot of a socket that does not listen is none of the first two.
set-Listens :
    (inet unix i fd : ℕ) (slots : List SocketSlot)
    → Listens inet unix slots
    → get_elem? slots i ≡ some (some fd)
    → both inet unix fd ≡ false
    → Listens inet unix (set slots i none)
set-Listens inet unix i fd slots (rest, e) held talks =
    let here : get_elem? (some inet ∷ some unix ∷ rest) i ≡ some (some fd) = rw e at held in
    rw e (set_front inet unix i fd rest here talks)

module _ (fd_clr : (ℕ → Bool) → ℕ → Bool) (inet unix i fd : ℕ) (s : Server)
    (w : Watched fd_clr inet unix s) where
  receive-Watched :
      (behind bytes : List ℕ)
      → get_elem? s.sockets i ≡ some (some fd)
      → both inet unix fd ≡ false
      → Watched fd_clr inet unix (receive fd_clr behind i bytes s)
  unfolding receive find_max
  receive-Watched behind [] held talks =
      let slots = set s.sockets i none in
      record {
        inet_is = w.inet_is;
        unix_is = w.unix_is;
        listens = set-Listens inet unix i fd s.sockets w.listens held talks;
        fds =
            AllFds-both (Ready fd_clr s) (λ g. g ≤ max_of s.inet_listening_socket slots)
              (Ready fd_clr (receive fd_clr behind i [] s)) slots
              (λ g (is_open, watched, _) le.
                (is_open, (λ spares. spares s.orig (watched spares)), le))
              (set-AllFds (Ready fd_clr s) s.sockets i w.fds)
              (max_of-AllFds s.inet_listening_socket slots);
        distinct = set-Distinct s.sockets i w.distinct;
      }
  receive-Watched behind (c ∷ cs) held talks = record {
    inet_is = w.inet_is;
    unix_is = w.unix_is;
    listens = w.listens;
    fds = w.fds;
    distinct = w.distinct;
  }

  serve_slot-Watched :
      (newfd : ℕ) (behind bytes : List ℕ)
      → get_elem? s.sockets i ≡ some (some fd)
      → s.is_open newfd ≡ false
      → Watched fd_clr inet unix (serve_slot fd_clr behind i (some (some fd)) newfd bytes s)
  serve_slot-Watched newfd behind bytes held closed =
      let same : both s.inet_listening_socket s.unix_listening_socket fd ≡ both inet unix fd =
        rw (w.inet_is, w.unix_is) refl in
      elim (Bool-cases (both s.inet_listening_socket s.unix_listening_socket fd)) [
        | inl e ↦ rw e (accept_client-Watched fd_clr inet unix newfd s w closed)
        | inr e ↦ rw e (receive-Watched behind bytes held (sym same ∙ e))
      ]

serve-Watched :
    (fd_clr : (ℕ → Bool) → ℕ → Bool) (behind : List ℕ) (inet unix i newfd : ℕ) (bytes : List ℕ)
    (s : Server)
    → Watched fd_clr inet unix s
    → s.is_open newfd ≡ false
    → Watched fd_clr inet unix (serve fd_clr behind i newfd bytes s)
unfolding serve
serve-Watched fd_clr behind inet unix i newfd bytes s w closed =
    elim (Option-cases (get_elem? s.sockets i)) [
      | inl beyond ↦ rw (serve, beyond) w
      | inr (none, empty) ↦ rw (serve, empty) w
      | inr (some fd, held) ↦
          rw (serve, held)
            (serve_slot-Watched fd_clr inet unix i fd s w newfd behind bytes held closed)
    ]

-- In every state that the server reaches from two listening sockets of its own, whatever select
-- names and recv gives, and whatever FD_CLR does to a set when it gets -1: these two are in the
-- first two slots, no two slots hold one socket, and every socket of the table is open and not above
-- the bound that select gets, and in its set unless it is one that FD_CLR with -1 may take out.
pub Reach-Watched :
    (fd_clr : (ℕ → Bool) → ℕ → Bool) (inet unix : ℕ) (s : Server)
    → inet ≢ unix
    → Reach fd_clr inet unix s
    → Watched fd_clr inet unix s
Reach-Watched fd_clr inet unix _ ne start = init-Watched fd_clr inet unix ne
Reach-Watched fd_clr inet unix _ ne (ready {s} behind i newfd bytes reach closed room fits) =
    serve-Watched fd_clr behind inet unix i newfd bytes s
      (Reach-Watched fd_clr inet unix s ne reach) closed
