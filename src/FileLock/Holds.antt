-- ===== src/FileLock/Holds.antt =====
-- Which locks are in the way of a command of lab2/zad3/src/file_lock.c, and that try_lock refuses it.
use sysopy.Common.{
  ℕ, ◌≡◌, ◌≢◌, ◌⊎◌, refl, sym, ◌∙◌, Bool, true, false, ◌&&◌, ◌==◌, not, Bool-cases, Option-cases,
  inl, inr, none, some, List, [], ◌∷◌, arith,
}
use mathlib.Core.Path.{subst}
use sysopy.Common.Int.{pos}
use sysopy.FileLock.Text.{
  CmdIndex, set_read_lock, set_write_lock, print_locks, free_lock, read_character, write_character,
}
use sysopy.FileLock.Locks.{
  Kind, read_lock, write_lock, Lock, File, excludes, in_way, getlk, refused, flock_ltype,
  perform_if, try_lock,
}

abbrev pub In : Lock → List Lock → Type 0
In lock [] = ⊥
In lock (l ∷ ls) = (lock ≡ l) ⊎ In lock ls

-- The locks that a command does not go together with: a lock for writing with none, and one for
-- reading with those that write or free.
pub data Blocks : CmdIndex → Kind → Type 0 where
  writer : (cmd : CmdIndex) → Blocks cmd write_lock
  reader_set : Blocks set_write_lock read_lock
  reader_free : Blocks free_lock read_lock
  reader_write : Blocks write_character read_lock

-- A lock that another process has of the byte.
abbrev pub InWay : (me : ℕ) → CmdIndex → (start : ℕ) → Lock → Type 0
InWay me cmd start lock = (lock.pid ≢ me) × (lock.start ≡ start) × Blocks cmd lock.kind

abbrev pub Free : (me : ℕ) → CmdIndex → (start : ℕ) → List Lock → Type 0
Free me cmd start locks = (lock : Lock) → In lock locks → ¬ InWay me cmd start lock

excludes-writer : (kind : Kind) → excludes kind write_lock ≡ true
excludes-writer read_lock = refl
excludes-writer write_lock = refl

Blocks-excludes :
    (cmd : CmdIndex) (kind : Kind) → Blocks cmd kind → excludes (flock_ltype cmd) kind ≡ true
Blocks-excludes _ _ (writer cmd) = excludes-writer (flock_ltype cmd)
Blocks-excludes _ _ reader_set = refl
Blocks-excludes _ _ reader_free = refl
Blocks-excludes _ _ reader_write = refl

excludes-Blocks :
    (cmd : CmdIndex) (kind : Kind)
    → cmd ≢ print_locks
    → excludes (flock_ltype cmd) kind ≡ true
    → Blocks cmd kind
excludes-Blocks cmd write_lock ne e = writer cmd
excludes-Blocks set_read_lock read_lock ne e = absurd cc
excludes-Blocks set_write_lock read_lock ne e = reader_set
excludes-Blocks print_locks read_lock ne e = absurd (ne refl)
excludes-Blocks free_lock read_lock ne e = reader_free
excludes-Blocks read_character read_lock ne e = absurd cc
excludes-Blocks write_character read_lock ne e = reader_write

==_refl : (a : ℕ) → (a == a) ≡ true
==_refl a = ground arith

==_apart : (a b : ℕ) → a ≢ b → (a == b) ≡ false
==_apart a b ne = ground arith

tests-true :
    (a b c d : ℕ) (ex : Bool)
    → (not (a == b) && c == d && ex) ≡ true
    → (a ≢ b) × (c ≡ d) × (ex ≡ true)
tests-true a b c d ex all = (ground arith, ground arith, ground arith)

module _ (me : ℕ) (cmd : CmdIndex) (start : ℕ) where
  InWay-in_way :
      (lock : Lock) → InWay me cmd start lock → in_way me (flock_ltype cmd) start lock ≡ true
  InWay-in_way lock (apart, same, blocks) =
      rw (==_apart lock.pid me apart, same, ==_refl start, Blocks-excludes cmd lock.kind blocks)
        refl

  in_way-InWay :
      (lock : Lock)
      → cmd ≢ print_locks
      → in_way me (flock_ltype cmd) start lock ≡ true
      → InWay me cmd start lock
  in_way-InWay lock ne e =
      let parts =
        tests-true lock.pid me lock.start start (excludes (flock_ltype cmd) lock.kind) e in
      (parts.0, parts.1, excludes-Blocks cmd lock.kind ne parts.2)

  -- F_GETLK names a lock that is in the way, and one when there is one.
  pub getlk-some :
      (locks : List Lock) (found : Lock)
      → cmd ≢ print_locks
      → getlk me (flock_ltype cmd) start locks ≡ some found
      → In found locks × InWay me cmd start found
  getlk-some [] found ne e = absurd cc
  getlk-some (l ∷ ls) found ne e = elim (Bool-cases (in_way me (flock_ltype cmd) start l)) [
    | inl way ↦
        let head : getlk me (flock_ltype cmd) start (l ∷ ls) ≡ some l = rw way refl in
        let same : l ≡ found = cc in
        (inl (sym same), subst (InWay me cmd start) same (in_way-InWay l ne way))
    | inr past ↦
        let on : getlk me (flock_ltype cmd) start (l ∷ ls) ≡ getlk me (flock_ltype cmd) start ls =
          rw past refl in
        let rest = getlk-some ls found ne (sym on ∙ e) in (inr rest.0, rest.1)
  ]

  pub getlk-none :
      (locks : List Lock) → getlk me (flock_ltype cmd) start locks ≡ none → Free me cmd start locks
  getlk-none [] e lock among way = among
  getlk-none (l ∷ ls) e lock among way = elim (Bool-cases (in_way me (flock_ltype cmd) start l)) [
    | inl stops ↦
        let head : getlk me (flock_ltype cmd) start (l ∷ ls) ≡ some l = rw stops refl in absurd cc
    | inr past ↦
        let on : getlk me (flock_ltype cmd) start (l ∷ ls) ≡ getlk me (flock_ltype cmd) start ls =
          rw past refl in
        elim among [
          | inl same ↦ let stops = InWay-in_way l (subst (InWay me cmd start) same way) in absurd cc
          | inr later ↦ getlk-none ls (sym on ∙ e) lock later way
        ]
  ]

pub try_lock-at :
    (others : File → File) (cmd : CmdIndex) (me child key start : ℕ) (file : File)
    → cmd ≢ print_locks
    → try_lock others cmd me child key (pos start) file
      ≡ perform_if (getlk me (flock_ltype cmd) start file.locks) others cmd me child key start file
unfolding try_lock
try_lock-at others set_read_lock me child key start file ne = refl
try_lock-at others set_write_lock me child key start file ne = refl
try_lock-at others print_locks me child key start file ne = absurd (ne refl)
try_lock-at others free_lock me child key start file ne = refl
try_lock-at others read_character me child key start file ne = refl
try_lock-at others write_character me child key start file ne = refl

-- While another process has a lock of the byte that the command does not go together with, try_lock
-- refuses the command, with a lock of another process of which that is true as well, and changes
-- nothing. A lock for writing stops every command but print_locks; one for reading stops
-- set_write_lock, write_character and free_lock.
pub try_lock-refused :
    (others : File → File) (cmd : CmdIndex) (me child key start : ℕ) (file : File) (lock : Lock)
    → cmd ≢ print_locks
    → In lock file.locks
    → InWay me cmd start lock
    → (found : Lock) × (try_lock others cmd me child key (pos start) file ≡ (refused found, file))
      × In found file.locks
      × InWay me cmd start found
try_lock-refused others cmd me child key start file lock ne among way =
    elim (Option-cases (getlk me (flock_ltype cmd) start file.locks)) [
      | inl free ↦ absurd (getlk-none me cmd start file.locks free lock among way)
      | inr (found, e) ↦
          let (there, stops) = getlk-some me cmd start file.locks found ne e in
          (found, try_lock-at others cmd me child key start file ne ∙ rw e refl, there, stops)
    ]
