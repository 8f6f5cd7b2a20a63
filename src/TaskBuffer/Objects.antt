-- ===== src/TaskBuffer/Objects.antt =====
-- The System V objects of lab 7: `init_ipc` and `cleanup` of lab7/zad1/src/lab7ipc.c. They outlive
-- the processes, so a process may find some of them already there.
use sysopy.Common.{ℕ, ◌≡◌, Bool, true, false, Option, none, some, List, if◌then◌else◌, arith}
use sysopy.Common.Int.{pos}
use sysopy.TaskBuffer.{Shm, capacity, init_shm}

-- `none` is an object that is not there.
pub record Objects : Type 0 where
  pub segment : Option Shm
  pub mutex : Option ℕ
  pub put_sem : Option ℕ
  pub get_sem : Option ℕ

-- What the system grants one process, and the slots of a segment that it creates.
pub record Grants : Type 0 where
  pub segment : Bool
  pub attach : Bool
  pub mutex : Bool
  pub put_sem : Bool
  pub get_sem : Bool
  pub slots : List ℕ

-- `shmget` with IPC_EXCL and, if that fails, without: `none` is the failure of both.
open_segment : Grants → Option Shm → Option Shm
open_segment g (some m) = some m
open_segment g none =
    if g.segment then some (record { slots = g.slots; count = pos 0; start = 0 }) else none

-- The same for a semaphore, whose first value is set only by the process that creates it.
open_semaphore : Bool → ℕ → Option ℕ → Option ℕ
open_semaphore granted value (some v) = some v
open_semaphore granted value none = if granted then some value else none

-- The semaphores, in the order of the source. `false` is `exit(-1)`, with what was made before it.
init_semaphores : Grants → Objects → Objects × Bool
unfolding open_semaphore
init_semaphores g o = elim (open_semaphore g.mutex 1 o.mutex) [
  | none ↦ (o, false)
  | some m ↦
      let one : Objects = record o { mutex = some m } in
      elim (open_semaphore g.put_sem capacity o.put_sem) [
        | none ↦ (one, false)
        | some p ↦
            let two : Objects = record one { put_sem = some p } in
            elim (open_semaphore g.get_sem 0 o.get_sem) [
              | none ↦ (two, false)
              | some q ↦ (record two { get_sem = some q }, true)
            ]
      ]
]

-- The counters are written by the process that creates the segment, once it is attached.
unfoldable pub init_ipc : Grants → Objects → Objects × Bool
unfolding init_semaphores open_segment
init_ipc g o = elim (open_segment g o.segment) [
  | none ↦ (o, false)
  | some m ↦
      if g.attach
      then init_semaphores g (record o { segment = some m })
      else (record o { segment = some m }, false)
]

abbrev pub nothing : Objects
nothing = record { segment = none; mutex = none; put_sem = none; get_sem = none }

-- `init_ipc`, and then the removal of all four, taken to succeed: the source reports a failure of a
-- removal and goes on.
unfoldable pub cleanup : Grants → Objects → Objects × Bool
cleanup g o = let (o', ok) = init_ipc g o in if ok then (nothing, true) else (o', false)

-- The objects of a system in which `init_ipc` has created each.
abbrev pub fresh : List ℕ → Objects
fresh slots = record {
  segment = some (init_shm slots);
  mutex = some 1;
  put_sem = some capacity;
  get_sem = some 0;
}

-- When `init_ipc` has succeeded for one process, it succeeds for another that may attach the
-- segment, and leaves every object as it is.
pub init_ipc-joins :
    (g g' : Grants) (o : Objects)
    → (init_ipc g o).1 ≡ true
    → g'.attach ≡ true
    → init_ipc g' (init_ipc g o).0 ≡ ((init_ipc g o).0, true)
unfolding init_ipc
init_ipc-joins g g' o done attached = ground arith

-- Whatever was there: after a `cleanup` that succeeds, a process that is granted every object
-- starts with an empty buffer and semaphores of 1, 25 and 0.
pub init_ipc-cleanup :
    (g g' : Grants) (o : Objects)
    → (cleanup g o).1 ≡ true
    → g'.segment ≡ true
    → g'.attach ≡ true
    → g'.mutex ≡ true
    → g'.put_sem ≡ true
    → g'.get_sem ≡ true
    → init_ipc g' (cleanup g o).0 ≡ (fresh g'.slots, true)
unfolding init_ipc cleanup init_shm
init_ipc-cleanup g g' o done a b c d e = ground arith
