-- ===== src/FileLock/Follows.antt =====
-- A session of lab2/zad3/src/file_lock.c against what its commands promise.
use sysopy.Common.{ℕ, ◌<◌, ◌≡◌, ◌≢◌, List, [], ◌∷◌, ◌++◌, length}
use sysopy.FileLock.Text.{CmdIndex, print_locks, text, int_limit}
use sysopy.FileLock.Locks.{Lock, File, Outcome, refused, not_acquired}
use sysopy.FileLock.Reads.{Numeral}
use sysopy.FileLock.Holds.{In, InWay, Free}
use sysopy.FileLock.Effects.{Sets, Performs}
use sysopy.FileLock.Session.{Round, Session, waits}

-- The line of the round is the text of a command with a number that is an int, and malloc leaves a 0
-- behind the copied word.
pub record Typed (r : Round) (cmd : CmdIndex) (n : ℕ) : Type 0 where
  pub numeral : List ℕ
  pub reads : Numeral numeral n
  pub is_line : r.line ≡ (text cmd ++ 32 ∷ numeral) ++ 10 ∷ []
  pub no_list : cmd ≢ print_locks
  pub is_int : n < int_limit
  pub ends : r.fresh (length (text cmd)) ≡ 0

abbrev pub AllTyped : List Round → Type 0
AllTyped [] = Unit {0}
AllTyped (r ∷ rs) = ((cmd : CmdIndex) × (n : ℕ) × Typed r cmd n) × AllTyped rs

-- What the commands of the lines promise, one after another: from the file before, with the outcomes
-- that are printed, to the file after. In each round other processes act while the program waits,
-- and once more between its check and its call.
pub data Follows (me : ℕ) : List Round → File → List Outcome → File → Type 0 where
  all_done : {f : File} → Follows me [] f [] f
  declines :
      {r : Round} {rs : List Round} {cmd : CmdIndex} {n : ℕ} {f g : File} {found : Lock}
      {os : List Outcome}
      → Typed r cmd n
      → In found (r.waiting f).locks
      → InWay me cmd n found
      → Follows me rs (r.waiting f) os g
      → Follows me (r ∷ rs) f (refused found ∷ os) g
  loses :
      {r : Round} {rs : List Round} {cmd : CmdIndex} {n : ℕ} {f g : File} {lock : Lock}
      {os : List Outcome}
      → Typed r cmd n
      → Free me cmd n (r.waiting f).locks
      → Sets cmd
      → In lock (r.others (r.waiting f)).locks
      → InWay me cmd n lock
      → Follows me rs (r.others (r.waiting f)) os g
      → Follows me (r ∷ rs) f (not_acquired ∷ os) g
  performs :
      {r : Round} {rs : List Round} {cmd : CmdIndex} {n : ℕ} {f g h : File} {o : Outcome}
      {os : List Outcome}
      → Typed r cmd n
      → Free me cmd n (r.waiting f).locks
      → (Sets cmd → Free me cmd n (r.others (r.waiting f)).locks)
      → Performs cmd me r.key n (r.others (r.waiting f)) o g
      → Follows me rs g os h
      → Follows me (r ∷ rs) f (o ∷ os) h

-- The program does all rounds and waits for the next line.
abbrev pub Runs : (me : ℕ) → List Round → File → Session → Type 0
Runs me rs f s = (os : List Outcome) × (g : File) × (s ≡ waits g os) × Follows me rs f os g
