-- ===== src/TaskBuffer/Process.antt =====
-- The processes of lab 7 (producer.c, consumer.c and lab7ipc.c in lab7/zad1/src): any number of
-- them, each of which puts or gets, interleaved at every access to a semaphore or to the segment.
-- `semop` with -1 waits for a positive value, so its step is there only then.
pub mod Counts
pub mod Moves
pub mod Safety
use sysopy.Common.{ℕ, suc, ◌+◌, ◌<◌, ◌≡◌, some, List, [], ◌∷◌, ◌++◌, get_elem?}
use sysopy.Common.Int.{ℤ, inc, dec}
use sysopy.Common.Family.{update}
use sysopy.TaskBuffer.{capacity, Shm, init_shm, put_index, store_slot, next_start, Op, put, get}

-- The segment and the values of the three semaphores. `log` and `out` are no part of the program:
-- they keep the calls in the order in which each made its last access to the segment, and the
-- numbers that `get_task` has handed out.
pub record Ipc : Type 0 where
  pub shm : Shm
  pub mutex : ℕ
  pub put_sem : ℕ
  pub get_sem : ℕ
  pub log : List Op
  pub out : List ℕ

-- Where a process stands, with the local variables that are live there.
pub data Pc : Type 0 where
  idle : Pc
  put_wait : (number : ℕ) → Pc  -- before down(put_semaphore_id)
  put_lock : (number : ℕ) → Pc  -- before down(mutex_semaphore_id)
  put_load : (number : ℕ) → Pc
  put_store_count : (number : ℕ) (num : ℤ) → Pc
  put_load_start : (number : ℕ) (num : ℤ) → Pc
  put_store_slot : (number : ℕ) (index : ℤ) → Pc
  put_unlock : Pc
  put_signal : Pc  -- before up(get_semaphore_id)
  get_wait : Pc  -- before down(get_semaphore_id)
  get_lock : Pc
  get_load : Pc
  get_store_count : (num : ℤ) → Pc
  get_load_start : Pc
  get_store_start : (index : ℕ) → Pc
  get_load_slot : (index : ℕ) → Pc
  get_unlock : Pc
  get_signal : Pc  -- before up(put_semaphore_id)

-- One step of one process. What is stored in `task_ptr->awaiting` stays with the caller, and is
-- left to `put_body` and `get_body`.
pub data Move (m : Ipc) : Pc → Ipc → Pc → Type 0 where
  call_put : (number : ℕ) → Move m idle m (put_wait number)
  down_put :
      {number k : ℕ}
      → m.put_sem ≡ suc k
      → Move m (put_wait number) (record m { put_sem = k }) (put_lock number)
  lock_put :
      {number k : ℕ}
      → m.mutex ≡ suc k
      → Move m (put_lock number) (record m { mutex = k }) (put_load number)
  load_put : {number : ℕ} → Move m (put_load number) m (put_store_count number (inc m.shm.count))
  count_put :
      {number : ℕ} {num : ℤ}
      → Move m
          (put_store_count number num)
          (record m { shm = record (m.shm) { count = num } })
          (put_load_start number num)
  start_put :
      {number : ℕ} {num : ℤ}
      → Move m (put_load_start number num) m (put_store_slot number (put_index m.shm.start num))
  slot_put :
      {number : ℕ} {index : ℤ} {shm : Shm}
      → store_slot index number m.shm ≡ some shm
      → Move m
          (put_store_slot number index)
          (record m { shm = shm; log = m.log ++ put number ∷ [] })
          put_unlock
  unlock_put : Move m put_unlock (record m { mutex = m.mutex + 1 }) put_signal
  up_get : Move m put_signal (record m { get_sem = m.get_sem + 1 }) idle
  call_get : Move m idle m get_wait
  down_get : {k : ℕ} → m.get_sem ≡ suc k → Move m get_wait (record m { get_sem = k }) get_lock
  lock_get : {k : ℕ} → m.mutex ≡ suc k → Move m get_lock (record m { mutex = k }) get_load
  load_get : Move m get_load m (get_store_count (dec m.shm.count))
  count_get :
      {num : ℤ}
      → Move m
          (get_store_count num)
          (record m { shm = record (m.shm) { count = num } })
          get_load_start
  start_get : Move m get_load_start m (get_store_start m.shm.start)
  store_start_get :
      {index : ℕ}
      → Move m
          (get_store_start index)
          (record m { shm = record (m.shm) { start = next_start index } })
          (get_load_slot index)
  slot_get :
      {index number : ℕ}
      → get_elem? m.shm.slots index ≡ some number
      → Move m
          (get_load_slot index)
          (record m { log = m.log ++ get ∷ []; out = m.out ++ number ∷ [] })
          get_unlock
  unlock_get : Move m get_unlock (record m { mutex = m.mutex + 1 }) get_signal
  up_put : Move m get_signal (record m { put_sem = m.put_sem + 1 }) idle

pub record System : Type 0 where
  pub ipc : Ipc
  pub pc : ℕ → Pc

-- A step of one of `n` processes.
pub data Step (n : ℕ) (s : System) : System → Type 0 where
  pick :
      (i : ℕ) {m : Ipc} {p : Pc}
      → i < n
      → Move s.ipc (s.pc i) m p
      → Step n s (record { ipc = m; pc = update s.pc i p })

-- What `init_ipc` leaves when it has created the segment and the semaphores.
abbrev pub init_ipc : List ℕ → Ipc
init_ipc slots = record {
  shm = init_shm slots;
  mutex = 1;
  put_sem = capacity;
  get_sem = 0;
  log = [];
  out = [];
}

pub data Reach (n : ℕ) (slots : List ℕ) : System → Type 0 where
  start : Reach n slots (record { ipc = init_ipc slots; pc = λ _. idle })
  later : {s t : System} → Reach n slots s → Step n s t → Reach n slots t
