-- ===== src/TaskBuffer/Process/Safety.antt =====
-- What holds in every reachable state of the processes of lab7/zad1/src/lab7ipc.c.
use sysopy.Common.{
  ℕ, ◌+◌, ◌≤◌, ◌<◌, ◌≡◌, refl, sym, ◌∙◌, ap, some, List, [], ◌∷◌, ◌++◌, length, get_elem?, arith,
  dec_lt, ℕ_discrete, get_elem?-of_lt,
}
use sysopy.Common.Int.{ℤ, pos, inc}
use sysopy.Common.Family.{total, total-eq-zero, weights-ne-le-total, total_mono, member_of_total}
use sysopy.TaskBuffer.{capacity, Shm, init_shm, store_slot, run}
use sysopy.TaskBuffer.Delay.{Delay, Holds, init_shm-Holds}
use sysopy.TaskBuffer.Runs.{Calm, puts, Ran, run-order}
use sysopy.TaskBuffer.Process.{
  Ipc, Pc, Move, System, pick, Reach, start, later, init_ipc, put_store_slot, get_load_slot, idle,
  put_load, put_store_count, put_load_start, put_unlock, get_load, get_store_count, get_load_start,
  get_store_start, get_unlock, load_put, count_put, start_put, slot_put, unlock_put, load_get,
  count_get, start_get, store_start_get, slot_get, unlock_get,
}
use sysopy.TaskBuffer.Process.Counts.{
  inside, underway, counted, Local, Inv, Local-range, counted-le-underway,
}
use sysopy.TaskBuffer.Slots.{store_slot-put_index}
use sysopy.TaskBuffer.Process.Moves.{Move-Inv, rebase}

-- Before any process has moved.
init-Inv :
    (n : ℕ) (slots : List ℕ)
    → length slots ≡ capacity
    → Inv n slots (init_shm slots) (init_ipc slots) (λ _. idle)
unfolding init_shm run
init-Inv n slots size = record {
  one = omega (arith, total-eq-zero inside n (λ _. idle) (λ _. refl));
  tokens = omega (arith, total-eq-zero underway n (λ _. idle) (λ _. refl));
  count = ap pos (omega (arith, total-eq-zero counted n (λ _. idle) (λ _. refl)));
  start_in = omega arith;
  size = size;
  local = λ i lt. tt;
  free = λ e. refl;
  ran = refl;
}

pub Reach-Inv :
    {n : ℕ} {slots : List ℕ} {s : System}
    → length slots ≡ capacity
    → Reach n slots s
    → (base : Shm) × Inv n slots base s.ipc s.pc
Reach-Inv {n} {slots} size start = (init_shm slots, init-Inv n slots size)
Reach-Inv size (later r (pick i lt mv)) =
    let (base, inv) = Reach-Inv size r in (rebase inv i mv, Move-Inv inv i mv lt)

inside-eq-one : (p : Pc) → 0 < inside p → inside p ≡ 1
inside-eq-one idle h = absurd (omega arith)
inside-eq-one p h = omega arith

-- The slot that a process is about to access exists.
abbrev pub InRange : Ipc → Pc → Type 0
InRange m p =
    ((number : ℕ) (index : ℤ)
      → p ≡ put_store_slot number index
      → (shm : Shm) × (store_slot index number m.shm ≡ some shm))
    × ((index : ℕ)
        → p ≡ get_load_slot index
        → (number : ℕ) × (get_elem? m.shm.slots index ≡ some number))

-- Some step of a process at `p` is possible.
abbrev pub CanMove : Ipc → Pc → Type 0
CanMove m p = (m' : Ipc) × (p' : Pc) × Move m p m' p'

CanMove-inside : (m : Ipc) (p : Pc) → inside p ≡ 1 → InRange m p → CanMove m p
CanMove-inside m (put_load number) h ready = (_, _, load_put)
CanMove-inside m (put_store_count number num) h ready = (_, _, count_put)
CanMove-inside m (put_load_start number num) h ready = (_, _, start_put)
CanMove-inside m (put_store_slot number index) h ready =
    let (shm, e) = ready.0 number index refl in (_, _, slot_put e)
CanMove-inside m put_unlock h ready = (_, _, unlock_put)
CanMove-inside m get_load h ready = (_, _, load_get)
CanMove-inside m (get_store_count num) h ready = (_, _, count_get)
CanMove-inside m get_load_start h ready = (_, _, start_get)
CanMove-inside m (get_store_start index) h ready = (_, _, store_start_get)
CanMove-inside m (get_load_slot index) h ready =
    let (number, e) = ready.1 index refl in (_, _, slot_get e)
CanMove-inside m get_unlock h ready = (_, _, unlock_get)
CanMove-inside m _ h ready = absurd (omega arith)

module _ {n : ℕ} {slots : List ℕ} {s : System} (size : length slots ≡ capacity)
    (r : Reach n slots s) where
  -- In every reachable state: two processes in the guarded sections of put_task and get_task are
  -- one and the same.
  pub mutual_exclusion :
      (i j : ℕ) → i < n → j < n → inside (s.pc i) ≡ 1 → inside (s.pc j) ≡ 1 → i ≡ j
  mutual_exclusion i j lt lt' at_i at_j =
      let (base, inv) = Reach-Inv size r in
      elim (ℕ_discrete i j) [
        | yes same ↦ same
        | no apart ↦
            absurd (omega (arith, inv.one, weights-ne-le-total inside n s.pc i j lt lt' apart))
      ]

  -- The start index is in range at every moment, and there are 25 slots.
  segment_in_range : (s.ipc.shm.start < capacity) × (length s.ipc.shm.slots ≡ capacity)
  segment_in_range =
      let (base, inv) = Reach-Inv size r in
      elim (dec_lt 0 (total inside n s.pc)) [
        | yes busy ↦
            let (i, lt, heavy) = member_of_total inside n s.pc busy in
            let (range, slots) =
              Local-range base s.ipc.shm (s.pc i) (inside-eq-one (s.pc i) heavy) (inv.local i lt)
                inv.start_in in
            (range, ap length slots ∙ inv.size)
        | no quiet ↦
            let same : s.ipc.shm ≡ base = inv.free (omega arith) in rw same (inv.start_in, inv.size)
      ]

  -- In every reachable state: the counter of the segment is at most 25 and not negative, the start
  -- index is below 25, and the two counting semaphores add up to at most 25.
  pub counters_in_range :
      (k : ℕ) × (s.ipc.shm.count ≡ pos k)
      × (k ≤ capacity)
      × (s.ipc.shm.start < capacity)
      × (s.ipc.put_sem + s.ipc.get_sem ≤ capacity)
  counters_in_range =
      let (base, inv) = Reach-Inv size r in
      (
        s.ipc.get_sem + total counted n s.pc,
        inv.count,
        omega (arith, inv.tokens, total_mono counted underway counted-le-underway n s.pc),
        segment_in_range.0,
        omega (arith, inv.tokens),
      )

  -- In every reachable state: the store or load that a process is about to do at a slot is at one
  -- of the 25.
  pub slots-InRange : (i : ℕ) → i < n → InRange s.ipc (s.pc i)
  slots-InRange i lt =
      let (base, inv) = Reach-Inv size r in
      (
        λ number index at.
            let own : Local base s.ipc.shm (put_store_slot number index) =
              rw at at (inv.local i lt) in
            let positive : inc base.count ≡ pos (s.ipc.get_sem + total counted n s.pc) =
              sym (ap (λ (m : Shm). m.count) own.0) ∙ inv.count in
            rw (own.1, positive) (store_slot-put_index base.start _ number s.ipc.shm),
        λ index at.
            let own : Local base s.ipc.shm (get_load_slot index) = rw at at (inv.local i lt) in
            get_elem?-of_lt s.ipc.shm.slots index
              (omega (arith, own.1, inv.start_in, segment_in_range.1)),
      )

  -- In every reachable state in which the mutex is free: the segment and the numbers handed out
  -- are those of the same calls made one after another, in the order of their last accesses.
  pub run-log : s.ipc.mutex ≡ 1 → run s.ipc.log (init_shm slots) ≡ some (s.ipc.out, s.ipc.shm)
  run-log open_ =
      let (base, inv) = Reach-Inv size r in rw (inv.free (omega (arith, inv.one))) inv.ran

  -- In every reachable state in which the mutex is taken: some process is in a guarded section and
  -- can take its next step.
  pub mutex_progress :
      s.ipc.mutex ≡ 0 → (i : ℕ) × (i < n) × (inside (s.pc i) ≡ 1) × CanMove s.ipc (s.pc i)
  mutex_progress taken =
      let (base, inv) = Reach-Inv size r in
      let (i, lt, heavy) = member_of_total inside n s.pc (omega (arith, inv.one)) in
      let in_section : inside (s.pc i) ≡ 1 = inside-eq-one (s.pc i) heavy in
      (i, lt, in_section, CanMove-inside s.ipc (s.pc i) in_section (slots-InRange i lt))

-- In every reachable state in which the mutex is free, if in the order of their last accesses the
-- calls put only while fewer than 24 numbers wait and get only while one waits: the numbers handed
-- out, and those left in the buffer, are the content of slot 0 from before the first call and then
-- the numbers put, in their order.
pub out-puts :
    {n : ℕ} {s : System} (first : ℕ) (rest : List ℕ)
    → length rest ≡ 24
    → Reach n (first ∷ rest) s
    → s.ipc.mutex ≡ 1
    → Calm 0 s.ipc.log
    → (left : Delay) × Holds s.ipc.shm left
      × (s.ipc.out ++ left.stale ∷ left.queue ≡ first ∷ puts s.ipc.log)
out-puts {s} first rest size r free calm = (left, rw same.1 at holds, rw same.0 at order)
  where
    whole : Ran s.ipc.log (init_shm (first ∷ rest)) (record { stale = first; queue = [] })
    whole = run-order s.ipc.log (init_shm-Holds first rest size) calm

    open whole use {left, ran, holds, order, out, last}

    same : (out ≡ s.ipc.out) × (last ≡ s.ipc.shm)
    same = ground (arith, ran, run-log (omega arith) r free)
