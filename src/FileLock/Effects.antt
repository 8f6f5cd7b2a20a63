-- ===== src/FileLock/Effects.antt =====
-- What a command of lab2/zad3/src/file_lock.c does once it is not refused.
use sysopy.Common.{
  ℕ, zero, suc, ◌≤◌, ◌<◌, ◌≡◌, ◌≢◌, ◌⊎◌, refl, true, false, ◌&&◌, ◌==◌, if◌then◌else◌, Bool-cases,
  Option-cases, inl, inr, Option, none, some, List, [], ◌∷◌, length, get_elem?, arith,
}
use sysopy.FileLock.Text.{
  CmdIndex, set_read_lock, set_write_lock, print_locks, free_lock, read_character, write_character,
}
use sysopy.FileLock.Locks.{
  Kind, read_lock, write_lock, Lock, File, getlk, without, setlk, Outcome, acquired, not_acquired,
  released, byte_read, read_error, byte_written, write_at, flock_ltype, perform,
}
use sysopy.FileLock.Holds.{In, InWay, Free, getlk-some, getlk-none}

-- The lock that a process has of a byte.
abbrev pub held : List Lock → (pid start : ℕ) → Option Kind
held [] pid start = none
held (l ∷ ls) pid start =
    let rest = held ls pid start in if l.pid == pid && l.start == start then some l.kind else rest

abbrev pub Apart : (pid start me byte : ℕ) → Type 0
Apart pid start me byte = (pid ≢ me) ⊎ (start ≢ byte)

-- The process has this of the byte now, and all else is as it was.
abbrev pub Puts : (me start : ℕ) → Option Kind → List Lock → List Lock → Type 0
Puts me start kind before after =
    (held after me start ≡ kind)
    × ((pid byte : ℕ) → Apart pid byte me start → held after pid byte ≡ held before pid byte)

-- The byte is written, those behind the old end up to it are 0, and all others are as they were.
abbrev pub Writes : (start key : ℕ) → List ℕ → List ℕ → Type 0
Writes start key before after =
    (get_elem? after start ≡ some key)
    × ((i : ℕ) → length before ≤ i → i < start → get_elem? after i ≡ some 0)
    × ((i : ℕ)
        → i ≢ start
        → (i < length before) ⊎ (start < i)
        → get_elem? after i ≡ get_elem? before i)

-- `f` before and `g` after.
abbrev pub Performs : CmdIndex → (me key start : ℕ) → File → Outcome → File → Type 0
Performs set_read_lock me key start f o g =
    (o ≡ acquired) × Puts me start (some read_lock) f.locks g.locks × (g.content ≡ f.content)
Performs set_write_lock me key start f o g =
    (o ≡ acquired) × Puts me start (some write_lock) f.locks g.locks × (g.content ≡ f.content)
Performs print_locks me key start f o g = g ≡ f
Performs free_lock me key start f o g =
    (o ≡ released) × Puts me start none f.locks g.locks × (g.content ≡ f.content)
Performs read_character me key start f o g =
    (g ≡ f)
    × ((b : ℕ) → get_elem? f.content start ≡ some b → o ≡ byte_read b)
    × (get_elem? f.content start ≡ none → o ≡ read_error)
Performs write_character me key start f o g =
    (o ≡ byte_written) × Writes start key f.content g.content × (g.locks ≡ f.locks)

abbrev pub Sets : CmdIndex → Type 0
Sets cmd = (cmd ≡ set_read_lock) ⊎ (cmd ≡ set_write_lock)

own-Apart :
    (a b pid start me byte : ℕ)
    → (a == me && b == byte) ≡ true
    → Apart pid start me byte
    → (a == pid && b == start) ≡ false
own-Apart a b pid start me byte e (inl ne) = elim (Bool-cases (a == pid)) [
  | inl same ↦ let bad : pid ≡ me = ground arith in absurd (ne bad)
  | inr apart ↦ rw apart refl
]
own-Apart a b pid start me byte e (inr ne) = elim (Bool-cases (b == start)) [
  | inl same ↦ let bad : start ≡ byte = ground arith in absurd (ne bad)
  | inr apart ↦ ground arith
]

module _ (me start : ℕ) where
  held-without_own : (ls : List Lock) → held (without me start ls) me start ≡ none
  held-without_own [] = refl
  held-without_own (l ∷ ls) = elim (Bool-cases (l.pid == me && l.start == start)) [
    | inl own ↦ rw own (held-without_own ls)
    | inr other ↦ rw (other, other) (held-without_own ls)
  ]

  held-without-Apart :
      (ls : List Lock) (pid byte : ℕ)
      → Apart pid byte me start
      → held (without me start ls) pid byte ≡ held ls pid byte
  held-without-Apart [] pid byte apart = refl
  held-without-Apart (l ∷ ls) pid byte apart =
      let rest = held-without-Apart ls pid byte apart in
      elim (Bool-cases (l.pid == me && l.start == start)) [
        | inl own ↦ rw (own, own-Apart l.pid l.start pid byte me start own apart) rest
        | inr other ↦ rw (other, rest) refl
      ]

  without-Puts : (ls : List Lock) → Puts me start none ls (without me start ls)
  without-Puts ls = (held-without_own ls, held-without-Apart ls)

  cons-Puts :
      (ls : List Lock) (kind : Kind)
      → Puts me start
          (some kind)
          ls
          (record { pid = me; kind = kind; start = start } ∷ without me start ls)
  cons-Puts ls kind =
      let own : (me == me && start == start) ≡ true = ground arith in
      (
        rw own refl,
        λ pid byte apart.
            rw (own-Apart me start pid byte me start own apart)
              (held-without-Apart ls pid byte apart),
      )

write_at-own : (n b : ℕ) (cs : List ℕ) → get_elem? (write_at n b cs) n ≡ some b
write_at-own zero b [] = refl
write_at-own zero b (c ∷ cs) = refl
write_at-own (suc n) b [] = write_at-own n b []
write_at-own (suc n) b (c ∷ cs) = write_at-own n b cs

write_at-apart :
    (n b : ℕ) (cs : List ℕ) (i : ℕ)
    → i ≢ n
    → (i < length cs) ⊎ (n < i)
    → get_elem? (write_at n b cs) i ≡ get_elem? cs i
write_at-apart n b [] i ne (inl lt) = absurd (omega arith)
write_at-apart zero b [] zero ne (inr lt) = absurd (ne refl)
write_at-apart zero b [] (suc i) ne (inr lt) = refl
write_at-apart (suc n) b [] zero ne (inr lt) = absurd (omega arith)
write_at-apart (suc n) b [] (suc i) ne (inr lt) =
    write_at-apart n b [] i (λ e. let up : suc i ≡ suc n = rw e refl in ne up) (inr (omega arith))
write_at-apart zero b (c ∷ cs) zero ne place = absurd (ne refl)
write_at-apart zero b (c ∷ cs) (suc i) ne place = refl
write_at-apart (suc n) b (c ∷ cs) zero ne place = refl
write_at-apart (suc n) b (c ∷ cs) (suc i) ne (inl lt) =
    write_at-apart n b cs i (λ e. let up : suc i ≡ suc n = rw e refl in ne up) (inl (omega arith))
write_at-apart (suc n) b (c ∷ cs) (suc i) ne (inr lt) =
    write_at-apart n b cs i (λ e. let up : suc i ≡ suc n = rw e refl in ne up) (inr (omega arith))

write_at-gap :
    (n b : ℕ) (cs : List ℕ) (i : ℕ) → length cs ≤ i → i < n → get_elem? (write_at n b cs) i ≡ some 0
write_at-gap zero b cs i past lt = absurd (omega arith)
write_at-gap (suc n) b [] zero past lt = refl
write_at-gap (suc n) b [] (suc i) past lt = write_at-gap n b [] i (omega arith) (omega arith)
write_at-gap (suc n) b (c ∷ cs) zero past lt = absurd (omega arith)
write_at-gap (suc n) b (c ∷ cs) (suc i) past lt = write_at-gap n b cs i (omega arith) (omega arith)

-- What perform comes to: F_SETLK fails because of a lock that another process has set since the
-- check, or the command does what it is for.
abbrev pub Comes : CmdIndex → (me key start : ℕ) → File → Outcome → File → Type 0
Comes cmd me key start f o g =
    (Sets cmd
      × ((lock : Lock) × In lock f.locks × InWay me cmd start lock)
      × (o ≡ not_acquired)
      × (g ≡ f))
    ⊎ ((Sets cmd → Free me cmd start f.locks) × Performs cmd me key start f o g)

read-Performs :
    (me key start : ℕ) (f : File) (child : ℕ)
    → let result = perform read_character me child key start f in
      Performs read_character me key start f result.0 result.1
read-Performs me key start f child = (refl, λ b e. rw e refl, λ e. rw e refl)

not-Sets : (cmd : CmdIndex) → cmd ≢ set_read_lock → cmd ≢ set_write_lock → ¬ Sets cmd
not-Sets cmd no_read no_write (inl e) = no_read e
not-Sets cmd no_read no_write (inr e) = no_write e

-- F_SETLK of a command for which F_GETLK checked the same kind.
setlk-Comes :
    (cmd : CmdIndex) (me key start : ℕ) (f : File)
    → Sets cmd
    → cmd ≢ print_locks
    → let result = setlk me (flock_ltype cmd) start f in
      let puts = Puts me start (some (flock_ltype cmd)) f.locks result.1.locks in
      (Sets cmd
        × ((lock : Lock) × In lock f.locks × InWay me cmd start lock)
        × (result.0 ≡ not_acquired)
        × (result.1 ≡ f))
      ⊎ ((Sets cmd → Free me cmd start f.locks)
          × ((result.0 ≡ acquired) × puts × (result.1.content ≡ f.content)))
setlk-Comes cmd me key start f sets ne =
    elim (Option-cases (getlk me (flock_ltype cmd) start f.locks)) [
      | inl free ↦ rw free (
          inr (
            λ _. getlk-none me cmd start f.locks free,
            (refl, cons-Puts me start f.locks (flock_ltype cmd), refl),
          ))
      | inr (found, e) ↦
          let (there, stops) = getlk-some me cmd start f.locks found ne e in
          rw e (inl (sets, (found, there, stops), refl, refl))
    ]

pub perform-Comes :
    (cmd : CmdIndex) (me child key start : ℕ) (f : File)
    → cmd ≢ print_locks
    → let result = perform cmd me child key start f in Comes cmd me key start f result.0 result.1
perform-Comes set_read_lock me child key start f ne =
    setlk-Comes set_read_lock me key start f (inl refl) ne
perform-Comes set_write_lock me child key start f ne =
    setlk-Comes set_write_lock me key start f (inr refl) ne
perform-Comes print_locks me child key start f ne = absurd (ne refl)
perform-Comes free_lock me child key start f ne = inr (
  λ sets. absurd (not-Sets free_lock (λ e. cc) (λ e. cc) sets),
  (refl, without-Puts me start f.locks, refl),
)
perform-Comes read_character me child key start f ne = inr (
  λ sets. absurd (not-Sets read_character (λ e. cc) (λ e. cc) sets),
  read-Performs me key start f child,
)
perform-Comes write_character me child key start f ne = inr (
  λ sets. absurd (not-Sets write_character (λ e. cc) (λ e. cc) sets),
  (
    refl,
    (
      write_at-own start key f.content,
      write_at-gap start key f.content,
      write_at-apart start key f.content,
    ),
    refl,
  ),
)
