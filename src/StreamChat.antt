-- ===== src/StreamChat.antt =====
-- The stream chat server of lab 10 (lab10/zad2/src/server.c): a table of sockets, the first two of
-- which listen; select says which can be read. Slots holds the lemmas on the table, Watch the
-- invariant of the server and Copies what a message does.
mod Slots
pub mod Watch
pub mod Copies
mod Tests
use sysopy.Common.{
  ℕ, zero, suc, ◌+◌, ◌-◌, ◌≤◌, ◌<◌, ◌≡◌, Bool, true, false, ◌&&◌, ◌||◌, not, ◌==◌, ltb,
  if◌then◌else◌, Option, none, some, List, [], ◌∷◌, ◌++◌, length, get_elem?, set, replicate,
}
use sysopy.Common.Strings.{c_string}
use sysopy.Common.Family.{update}

-- MAX_CLIENTS
abbrev pub max_clients : ℕ
max_clients = 15

-- A slot of `sockets`; none stands for -1.
abbrev pub SocketSlot : Type 0
SocketSlot = Option ℕ

-- FD_SETSIZE, which is also the default limit on open descriptors
abbrev pub fd_setsize : ℕ
fd_setsize = 1024

-- The variables of main, and what the system keeps: which descriptors are open, and the calls of
-- send with their socket and bytes, whether they succeed or fail.
pub record Server : Type 0 where
  pub sockets : List SocketSlot
  pub inet_listening_socket : ℕ
  pub unix_listening_socket : ℕ
  pub orig : ℕ → Bool
  pub maxfd : ℕ
  pub is_open : ℕ → Bool
  pub sends : List (ℕ × List ℕ)

abbrev pub both : ℕ → ℕ → ℕ → Bool
both inet unix fd = fd == inet || fd == unix

abbrev pub max : ℕ → ℕ → ℕ
max a b = if ltb b a then a else b

-- The table and the sets before the first select, with the two descriptors that socket returns
pub init : (inet unix : ℕ) → Server
init inet unix = record {
  sockets = some inet ∷ some unix ∷ replicate 13 none;
  inet_listening_socket = inet;
  unix_listening_socket = unix;
  orig = both inet unix;
  maxfd = max inet unix;
  is_open = both inet unix;
  sends = [];
}

-- The loop that puts `newfd` into the first empty slot; none when there is none.
abbrev pub cons_slot : SocketSlot → Option (List SocketSlot) → Option (List SocketSlot)
cons_slot s none = none
cons_slot s (some slots) = some (s ∷ slots)

abbrev pub put_in_slot : ℕ → List SocketSlot → Option (List SocketSlot)
put_in_slot newfd [] = none
put_in_slot newfd (none ∷ slots) = some (some newfd ∷ slots)
put_in_slot newfd (some fd ∷ slots) = cons_slot (some fd) (put_in_slot newfd slots)

abbrev pub max_with : ℕ → SocketSlot → ℕ
max_with m none = m
max_with m (some fd) = max fd m

-- The loop of find_max
abbrev pub max_of : ℕ → List SocketSlot → ℕ
max_of m [] = m
max_of m (s ∷ slots) = max_of (max_with m s) slots

pub find_max : Server → ℕ
find_max s = max_of s.inet_listening_socket s.sockets

-- With no slot left, the new connection is neither watched nor closed.
abbrev pub watch_new : ℕ → Option (List SocketSlot) → Server → Server
watch_new newfd none s = s
watch_new newfd (some slots) s = record s {
  sockets = slots;
  maxfd = max newfd s.maxfd;
  orig = update s.orig newfd true;
}

pub accept_client : ℕ → Server → Server
accept_client newfd s =
    watch_new newfd (put_in_slot newfd s.sockets)
      (record s { is_open = update s.is_open newfd true })

-- `send` to slot `j` of a message that came in at slot `i`
abbrev pub copy_to : (inet i j : ℕ) → SocketSlot → List ℕ → List (ℕ × List ℕ) → List (ℕ × List ℕ)
copy_to inet i j none text rest = rest
copy_to inet i j (some fd) text rest =
    if not (j == i) && not (fd == inet) then (fd, text ++ 0 ∷ []) ∷ rest else rest

abbrev pub all_copies : (inet i j : ℕ) → List SocketSlot → List ℕ → List (ℕ × List ℕ)
all_copies inet i j [] text = []
all_copies inet i j (s ∷ slots) text =
    copy_to inet i j s text (all_copies inet i (suc j) slots text)

abbrev pub with_max : Server → Server
with_max s = record s { maxfd = find_max s }

-- `buf` after recv: 350 bytes, those behind the message 0
abbrev pub buf_size : ℕ
buf_size = 350

abbrev pub fill_buf : List ℕ → List ℕ
fill_buf bytes = bytes ++ replicate (buf_size - length bytes) 0

-- What recv gave: no byte, or some. By the time of `close` and `FD_CLR` the slot holds -1. close
-- fails for it; what FD_CLR makes of the set is not defined, and is the argument `fd_clr`. `behind`
-- is what memory holds behind `buf`, up to a 0, which strlen reads when the buffer has none.
unfoldable pub receive :
    (fd_clr : (ℕ → Bool) → ℕ → Bool) (behind : List ℕ) → ℕ → List ℕ → Server → Server
unfolding find_max
receive fd_clr behind i [] s =
    with_max (record s { sockets = set s.sockets i none; orig = fd_clr s.orig })
receive fd_clr behind i (c ∷ cs) s = record s {
  sends =
      s.sends
      ++ all_copies s.inet_listening_socket i 0 s.sockets (c_string (fill_buf (c ∷ cs) ++ behind));
}

-- The body of the loop for slot `i`, when select has named its socket: what accept would return,
-- and what recv would.
abbrev pub serve_slot :
    (fd_clr : (ℕ → Bool) → ℕ → Bool) (behind : List ℕ)
    → ℕ
    → Option SocketSlot
    → (newfd : ℕ) → List ℕ
    → Server
    → Server
serve_slot fd_clr behind i none newfd bytes s = s
serve_slot fd_clr behind i (some none) newfd bytes s = s
serve_slot fd_clr behind i (some (some fd)) newfd bytes s =
    if both s.inet_listening_socket s.unix_listening_socket fd
    then accept_client newfd s
    else receive fd_clr behind i bytes s

pub serve :
    (fd_clr : (ℕ → Bool) → ℕ → Bool) (behind : List ℕ) → ℕ → (newfd : ℕ) → List ℕ → Server → Server
unfolding accept_client receive
serve fd_clr behind i newfd bytes s =
    serve_slot fd_clr behind i (get_elem? s.sockets i) newfd bytes s

-- The states at the start of the body of the loop, whatever select names. accept returns a
-- descriptor that is not open and that a set has room for, and recv at most the size of the buffer.
pub data Reach (fd_clr : (ℕ → Bool) → ℕ → Bool) (inet unix : ℕ) : Server → Type 0 where
  start : Reach fd_clr inet unix (init inet unix)
  ready :
      {s : Server} (behind : List ℕ) (i newfd : ℕ) (bytes : List ℕ)
      → Reach fd_clr inet unix s
      → s.is_open newfd ≡ false
      → newfd < fd_setsize
      → length bytes ≤ buf_size
      → Reach fd_clr inet unix (serve fd_clr behind i newfd bytes s)
