-- ===== src/TaskBuffer/Tests.antt =====
-- The theorems about lab7/zad1/src/lab7ipc.c at concrete inputs, and short runs of its functions.
use sysopy.Common.{
  ℕ, ◌+◌, ◌≤◌, ◌<◌, ◌≡◌, refl, true, some, List, [], ◌∷◌, ◌++◌, replicate, arith, ℕ_discrete, ◌>>=◌,
  get_elem?-replicate, sym, ◌∙◌, ◌%◌,
}
use sysopy.Common.Int.{pos, negsuc}
use sysopy.TaskBuffer.{
  Shm, capacity, init_shm, put_index, store_slot, put_body, get_body, put, get, run,
}
use sysopy.TaskBuffer.Delay.{
  Delay, Holds, enqueue, stored, taken, put_body-enqueue, get_body-dequeue, init_shm-Holds,
}
use sysopy.TaskBuffer.Objects.{
  Grants, init_ipc, cleanup, nothing, fresh, init_ipc-joins, init_ipc-cleanup,
}
use sysopy.TaskBuffer.Runs.{puts, Ran, run-order, put-get_full}
use sysopy.TaskBuffer.Process.{
  System, pick, Reach, start, later, call_put, down_put, lock_put, load_put, count_put, start_put,
  slot_put, unlock_put, up_get, call_get, down_get, lock_get, load_get, count_get, start_get,
  store_start_get, slot_get, unlock_get,
}
use sysopy.TaskBuffer.Process.Counts.{inside}
use sysopy.TaskBuffer.Process.Safety.{
  InRange, CanMove, mutual_exclusion, counters_in_range, slots-InRange, run-log, mutex_progress,
  out-puts,
}

-- a new segment, which the system fills with zeros
abbrev zeros : List ℕ
zeros = replicate 25 0

-- The first number put is not the first that comes out.
first_is_stale :
    (run (put 7 ∷ put 8 ∷ get ∷ get ∷ []) (init_shm zeros) >>= λ r. some r.0) ≡ some (0 ∷ 7 ∷ [])
unfolding run init_shm put_body get_body store_slot put_index
first_is_stale = refl

-- With a counter of -1 the store goes to the slot before the start.
negative_count : put_index 3 (negsuc 0) ≡ pos 2
unfolding put_index
negative_count = refl

zeros-Holds : Holds (init_shm zeros) (record { stale = 0; queue = [] })
zeros-Holds = init_shm-Holds 0 (replicate 24 0) refl

record Run : Type 0 where
  last : System
  reach : Reach 2 zeros last

-- Process 0 is in the guarded section of put_task.
abbrev entered : Run
unfolding ℕ_discrete init_shm
entered = record {
  last = _;
  reach =
      later
        (later (later (start) (pick 0 (omega arith) (call_put 7)))
          (pick 0 (omega arith) (down_put refl)))
        (pick 0 (omega arith) (lock_put refl));
}

-- Process 0 has put 7, and process 1 has got a number.
abbrev exchanged : Run
unfolding ℕ_discrete init_shm store_slot put_index
exchanged = record {
  last = _;
  reach =
      later
        (later
          (later
            (later
              (later
                (later
                  (later
                    (later
                      (later
                        (later
                          (later
                            (later
                              (later
                                (later
                                  (later
                                    (later
                                      (later (later (start) (pick 0 (omega arith) (call_put 7)))
                                        (pick 0 (omega arith) (down_put refl)))
                                      (pick 0 (omega arith) (lock_put refl)))
                                    (pick 0 (omega arith) (load_put)))
                                  (pick 0 (omega arith) (count_put)))
                                (pick 0 (omega arith) (start_put)))
                              (pick 0 (omega arith) (slot_put refl)))
                            (pick 0 (omega arith) (unlock_put)))
                          (pick 0 (omega arith) (up_get)))
                        (pick 1 (omega arith) (call_get)))
                      (pick 1 (omega arith) (down_get refl)))
                    (pick 1 (omega arith) (lock_get refl)))
                  (pick 1 (omega arith) (load_get)))
                (pick 1 (omega arith) (count_get)))
              (pick 1 (omega arith) (start_get)))
            (pick 1 (omega arith) (store_start_get)))
          (pick 1 (omega arith) (slot_get refl)))
        (pick 1 (omega arith) (unlock_get));
}

-- Process 0 is about to store 7.
abbrev storing : Run
unfolding ℕ_discrete init_shm
storing = record {
  last = _;
  reach =
      later
        (later
          (later
            (later
              (later (later (start) (pick 0 (omega arith) (call_put 7)))
                (pick 0 (omega arith) (down_put refl)))
              (pick 0 (omega arith) (lock_put refl)))
            (pick 0 (omega arith) (load_put)))
          (pick 0 (omega arith) (count_put)))
        (pick 0 (omega arith) (start_put));
}

put_body-enqueue_example :
    (put_body 7 (init_shm zeros) ≡ some (pos 0, stored 7 zeros-Holds (omega arith)))
    × Holds (stored 7 zeros-Holds (omega arith)) (enqueue 7 (record { stale = 0; queue = [] }))
put_body-enqueue_example = put_body-enqueue 7 zeros-Holds (omega arith)

mutual_exclusion_example : ◌≡◌ {A = ℕ} 0 0
unfolding ℕ_discrete entered
mutual_exclusion_example =
    mutual_exclusion refl entered.reach 0 0 (omega arith) (omega arith) refl refl

counters_in_range_example :
    (k : ℕ) × (exchanged.last.ipc.shm.count ≡ pos k)
    × (k ≤ capacity)
    × (exchanged.last.ipc.shm.start < capacity)
    × (exchanged.last.ipc.put_sem + exchanged.last.ipc.get_sem ≤ capacity)
counters_in_range_example = counters_in_range refl exchanged.reach

storing_slots : InRange storing.last.ipc (storing.last.pc 0)
storing_slots = slots-InRange refl storing.reach 0 (omega arith)

mutex_progress_example :
    (i : ℕ) × (i < 2)
    × (inside (entered.last.pc i) ≡ 1)
    × CanMove entered.last.ipc (entered.last.pc i)
unfolding ℕ_discrete entered
mutex_progress_example = mutex_progress refl entered.reach refl

run-log_example :
    run exchanged.last.ipc.log (init_shm zeros)
    ≡ some (exchanged.last.ipc.out, exchanged.last.ipc.shm)
unfolding ℕ_discrete exchanged
run-log_example = run-log refl exchanged.reach refl

out-puts_example :
    (left : Delay) × Holds exchanged.last.ipc.shm left
    × (exchanged.last.ipc.out ++ left.stale ∷ left.queue ≡ 0 ∷ puts exchanged.last.ipc.log)
unfolding ℕ_discrete exchanged
out-puts_example = out-puts 0 (replicate 24 0) refl exchanged.reach refl (omega arith)

run-order_example : Ran (put 7 ∷ get ∷ []) (init_shm zeros) (record { stale = 0; queue = [] })
run-order_example = run-order (put 7 ∷ get ∷ []) zeros-Holds (omega arith)

-- 24 numbers wait, all but the last slot's worth.
abbrev crowded : Shm
crowded = record { slots = zeros; count = pos 24; start = 0 }

crowded-Holds : Holds crowded (record { stale = 0; queue = replicate 24 0 })
crowded-Holds = record {
  size = refl;
  start_in = omega arith;
  few = omega arith;
  counted = refl;
  front = refl;
  behind = λ i below.
      get_elem?-replicate 25 0 ((0 + 1 + i) % 25) (omega arith)
      ∙ sym (get_elem?-replicate 24 0 i below);
}

overtaking : (last : Shm) × (run (put 9 ∷ get ∷ []) crowded ≡ some (9 ∷ [], last))
overtaking = put-get_full 9 crowded-Holds refl

get_body-dequeue_example :
    (get_body crowded ≡ some (0, pos 23, taken crowded (replicate 23 0)))
    × Holds (taken crowded (replicate 23 0)) (record { stale = 0; queue = replicate 23 0 })
get_body-dequeue_example = get_body-dequeue 0 (replicate 23 0) crowded-Holds refl

init_shm-Holds_example : Holds (init_shm (5 ∷ replicate 24 0)) (record { stale = 5; queue = [] })
init_shm-Holds_example = init_shm-Holds 5 (replicate 24 0) refl

abbrev all_granted : Grants
all_granted = record {
  segment = true;
  attach = true;
  mutex = true;
  put_sem = true;
  get_sem = true;
  slots = zeros;
}

joined :
    init_ipc all_granted (init_ipc all_granted nothing).0 ≡ ((init_ipc all_granted nothing).0, true)
unfolding init_ipc
joined = init_ipc-joins all_granted all_granted nothing refl refl

init_ipc-cleanup_example :
    init_ipc all_granted (cleanup all_granted (fresh (replicate 25 3))).0 ≡ (fresh zeros, true)
unfolding cleanup init_ipc init_shm
init_ipc-cleanup_example =
    init_ipc-cleanup all_granted all_granted (fresh (replicate 25 3)) refl refl refl refl refl refl
