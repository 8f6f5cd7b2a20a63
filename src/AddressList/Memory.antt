-- ===== src/AddressList/Memory.antt =====
-- The nodes of lab1/zad1/src/list_structs.h and the commands that read and write them. A pointer is
-- an address or NULL. The blocks `birth_date` and `address` are made and freed with their node and
-- never read apart from it, so a node stands for all three.
use sysopy.Common.{ℕ, Option, none, some, List}
use sysopy.Common.Family.{update}

abbrev pub Ptr : Type 0
Ptr = Option ℕ

-- The fields that the functions read: the strings `name` and `surname`.
pub record Person : Type 0 where
  pub name : List ℕ
  pub surname : List ℕ

pub record Node : Type 0 where
  pub person : Person
  pub prev : Ptr
  pub next : Ptr

abbrev pub Heap : Type 0
Heap = ℕ → Option Node

-- A run ends with a result, by an access to no node, or never: then the fuel runs out.
pub data Run (A : Type 0) : Type 0 where
  out_of_fuel : Run A
  fault : Run A
  done : A → Heap → Run A

abbrev pub Cmd : Type 0 → Type 0
Cmd A = Heap → Run A

abbrev pub pure : {A : Type 0} → A → Cmd A
pure a h = done a h

abbrev pub follow : {A B : Type 0} → Run A → (A → Cmd B) → Run B
follow out_of_fuel f = out_of_fuel
follow fault f = fault
follow (done a h) f = f a h

infixl 5 ◌>>=◌ ◌>>◌
abbrev pub ◌>>=◌ : {A B : Type 0} → Cmd A → (A → Cmd B) → Cmd B
m >>= f = λ h. follow (m h) f

abbrev pub ◌>>◌ : {A B : Type 0} → Cmd A → Cmd B → Cmd B
m >> k = m >>= λ _. k

abbrev pub out : {A : Type 0} → Cmd A
out h = out_of_fuel

abbrev read_cell : ℕ → Heap → Option Node → Run Node
read_cell a h none = fault
read_cell a h (some n) = done n h

-- `*p`
unfoldable pub load : Ptr → Cmd Node
load none h = fault
load (some a) h = read_cell a h (h a)

abbrev pub put_cell : ℕ → Option Node → Cmd (Unit {0})
put_cell a c h = done tt (update h a c)

abbrev pub store : Ptr → Node → Cmd (Unit {0})
store none n h = fault
store (some a) n h = put_cell a (some n) h

-- `p->next = q` and `p->prev = q`
unfoldable pub set_next : Ptr → Ptr → Cmd (Unit {0})
unfolding load
set_next p q = do n ← load p; store p (record n { next = q })

unfoldable pub set_prev : Ptr → Ptr → Cmd (Unit {0})
unfolding load
set_prev p q = do n ← load p; store p (record n { prev = q })

abbrev erase : Ptr → Cmd (Unit {0})
erase none h = fault
erase (some a) h = put_cell a none h

-- `free`, of a node and the blocks that it owns
unfoldable pub free : Ptr → Cmd (Unit {0})
unfolding load
free p = do n ← load p; erase p
