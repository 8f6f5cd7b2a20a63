-- ===== src/TaskBuffer.antt =====
-- The task buffer of lab 7 (lab7/zad1/src/lab7ipc.c): 25 slots and two counters in shared memory.
-- The critical sections of `put_task` and `get_task` as functions on the segment; the children
-- say what the buffer holds (Delay), how processes run it (Process) and what that guarantees.
pub mod Delay
pub mod Slots
pub mod Process
pub mod Runs
pub mod Objects
mod Tests
use sysopy.Common.{
  ℕ, ◌+◌, ◌-◌, ◌%◌, Option, none, some, List, [], ◌∷◌, get_elem?, set, ltb, leb, if◌then◌else◌,
  ◌>>=◌,
}
use sysopy.Common.Int.{ℤ, pos, negsuc, inc, dec, neg}

-- `MAX_TASK_CAPACITY`
abbrev pub capacity : ℕ
capacity = 25

-- The segment behind `shm_ptr`: the slots, the `int` at TASK_COUNTER_OFFSET and the one at
-- START_INDEX_OFFSET. Only `init_ipc` and `get_task` write the last, so it is never negative.
pub record Shm : Type 0 where
  pub slots : List ℕ
  pub count : ℤ
  pub start : ℕ

-- What `init_ipc` writes into a segment that it has created; the slots are left as they come.
pub init_shm : List ℕ → Shm
init_shm slots = record { slots = slots; count = pos 0; start = 0 }

-- `(start_index + num) % MAX_TASK_CAPACITY`, whose sign is the sum's.
pub put_index : ℕ → ℤ → ℤ
put_index start (pos n) = pos ((start + n) % capacity)
put_index start (negsuc n) =
    if leb (n + 1) start
    then pos ((start - (n + 1)) % capacity)
    else neg ((n + 1 - start) % capacity)

-- A store through `num_location`; `none` is a location that is no slot.
pub store_slot : ℤ → ℕ → Shm → Option Shm
store_slot (pos i) number m =
    if ltb i capacity then some (record m { slots = set m.slots i number }) else none
store_slot (negsuc i) number m = none

abbrev pub next_start : ℕ → ℕ
next_start start = (start + 1) % capacity

-- Between the semaphores of `put_task`: the new `awaiting`, and the segment.
pub put_body : ℕ → Shm → Option (ℤ × Shm)
put_body number m = do
  let awaiting = m.count
  let num = inc m.count
  m' ← store_slot (put_index m.start num) number (record m { count = num })
  some (awaiting, m')

-- Between the semaphores of `get_task`: the number, the new `awaiting`, and the segment.
pub get_body : Shm → Option (ℕ × ℤ × Shm)
get_body m = do
  let num = dec m.count
  number ← get_elem? m.slots m.start
  some (number, num, record m { count = num; start = next_start m.start })

-- One call after another, with what each `get_task` hands out.
pub data Op : Type 0 where
  put : ℕ → Op
  get : Op

pub run : List Op → Shm → Option (List ℕ × Shm)
run [] m = some ([], m)
run (put n ∷ ops) m = do (_, m') ← put_body n m; run ops m'
run (get ∷ ops) m = do (n, _, m') ← get_body m; (out, m'') ← run ops m'; some (n ∷ out, m'')
