-- ===== src/TaskBuffer/Process/Counts.antt =====
-- What the semaphores of lab7/zad1/src/lab7ipc.c count, and what a process inside the section that
-- the mutex guards has done to the segment.
use sysopy.Common.{ℕ, ◌+◌, ◌≤◌, ◌<◌, ◌≡◌, some, List, length, arith}
use sysopy.Common.Int.{pos, inc, dec}
use sysopy.Common.Family.{total}
use sysopy.TaskBuffer.{capacity, Shm, init_shm, put_index, next_start, run}
use sysopy.TaskBuffer.Process.{
  Ipc, Pc, idle, put_wait, put_load, put_store_count, put_load_start, put_store_slot, put_unlock,
  put_signal, get_wait, get_lock, get_load, get_store_count, get_load_start, get_store_start,
  get_load_slot, get_unlock,
}

-- in the section that `mutex_semaphore_id` guards
abbrev pub inside : Pc → ℕ
inside (put_load _) = 1
inside (put_store_count _ _) = 1
inside (put_load_start _ _) = 1
inside (put_store_slot _ _) = 1
inside put_unlock = 1
inside get_load = 1
inside (get_store_count _) = 1
inside get_load_start = 1
inside (get_store_start _) = 1
inside (get_load_slot _) = 1
inside get_unlock = 1
inside _ = 0

-- between the `down` of one of the two counting semaphores and the `up` of the other
abbrev pub underway : Pc → ℕ
underway idle = 0
underway (put_wait _) = 0
underway get_wait = 0
underway _ = 1

-- a number that `count` counts and `get_semaphore_id` does not
abbrev pub counted : Pc → ℕ
counted (put_load_start _ _) = 1
counted (put_store_slot _ _) = 1
counted put_unlock = 1
counted put_signal = 1
counted get_lock = 1
counted get_load = 1
counted (get_store_count _) = 1
counted _ = 0

-- What the mover's locals and the segment have to do with `base`, the segment as the last process
-- to leave it left it.
abbrev pub Local : Shm → Shm → Pc → Type 0
Local base shm (put_load _) = shm ≡ base
Local base shm (put_store_count _ num) = (shm ≡ base) × (num ≡ inc base.count)
Local base shm (put_load_start _ num) =
    (shm ≡ record base { count = inc base.count }) × (num ≡ inc base.count)
Local base shm (put_store_slot _ index) =
    (shm ≡ record base { count = inc base.count }) × (index ≡ put_index base.start (inc base.count))
Local base shm put_unlock = shm ≡ base
Local base shm get_load = shm ≡ base
Local base shm (get_store_count num) = (shm ≡ base) × (num ≡ dec base.count)
Local base shm get_load_start = shm ≡ record base { count = dec base.count }
Local base shm (get_store_start index) =
    (shm ≡ record base { count = dec base.count }) × (index ≡ base.start)
Local base shm (get_load_slot index) =
    (shm ≡ record base { count = dec base.count; start = next_start base.start })
    × (index ≡ base.start)
Local base shm get_unlock = shm ≡ base
Local base shm _ = Unit

pub record Inv (n : ℕ) (slots : List ℕ) (base : Shm) (m : Ipc) (pc : ℕ → Pc) : Type 0 where
  pub one : m.mutex + total inside n pc ≡ 1
  pub tokens : m.put_sem + m.get_sem + total underway n pc ≡ capacity
  pub count : m.shm.count ≡ pos (m.get_sem + total counted n pc)
  pub start_in : base.start < capacity
  pub size : length base.slots ≡ capacity
  pub local : (i : ℕ) → i < n → Local base m.shm (pc i)
  pub free : total inside n pc ≡ 0 → m.shm ≡ base
  pub ran : run m.log (init_shm slots) ≡ some (m.out, base)

-- Of a process outside the section nothing is said.
pub Local-outside : (base shm : Shm) (p : Pc) → inside p ≡ 0 → Local base shm p
Local-outside base shm idle h = tt
Local-outside base shm (put_load _) h = absurd (omega arith)
Local-outside base shm (put_store_count _ _) h = absurd (omega arith)
Local-outside base shm (put_load_start _ _) h = absurd (omega arith)
Local-outside base shm (put_store_slot _ _) h = absurd (omega arith)
Local-outside base shm put_unlock h = absurd (omega arith)
Local-outside base shm get_load h = absurd (omega arith)
Local-outside base shm (get_store_count _) h = absurd (omega arith)
Local-outside base shm get_load_start h = absurd (omega arith)
Local-outside base shm (get_store_start _) h = absurd (omega arith)
Local-outside base shm (get_load_slot _) h = absurd (omega arith)
Local-outside base shm get_unlock h = absurd (omega arith)
Local-outside base shm _ h = tt

-- Inside the section the segment differs from `base` in the two counters alone, and its start index
-- is in range.
pub Local-range :
    (base shm : Shm) (p : Pc)
    → inside p ≡ 1
    → Local base shm p
    → base.start < capacity
    → (shm.start < capacity) × (shm.slots ≡ base.slots)
Local-range base shm idle h l lt = absurd (omega arith)
Local-range base shm p h l lt = ground arith

pub counted-le-underway : (p : Pc) → counted p ≤ underway p
counted-le-underway idle = omega arith
counted-le-underway p = omega arith
