-- ===== src/TaskBuffer/Slots.antt =====
-- One access of lab7/zad1/src/lab7ipc.c to a slot, and one call more at the end of a run.
use sysopy.Common.{
  ℕ, ◌+◌, ◌%◌, ◌≡◌, inl, inr, some, List, [], ◌∷◌, ◌++◌, length, length-set, Option-cases, arith,
  set,
}
use sysopy.Common.Int.{ℤ, pos, negsuc}
use sysopy.TaskBuffer.{capacity, Shm, put_index, store_slot, put_body, get_body, Op, put, get, run}

-- A store keeps all but the slots, and their number.
pub store_slot-keeps :
    (index : ℤ) (n : ℕ) (m : Shm) {m' : Shm}
    → store_slot index n m ≡ some m'
    → (m'.count ≡ m.count) × (m'.start ≡ m.start) × (length m'.slots ≡ length m.slots)
unfolding store_slot
store_slot-keeps (pos k) n m {m'} e = ground (arith, length-set m.slots k n)
store_slot-keeps (negsuc k) n m e = cc

-- One call more at the end of a run that succeeds.
pub run-append :
    (ops : List Op) (op : Op) (m : Shm) {out more : List ℕ} {before after : Shm}
    → run ops m ≡ some (out, before)
    → run (op ∷ []) before ≡ some (more, after)
    → run (ops ++ op ∷ []) m ≡ some (out ++ more, after)
unfolding run
run-append [] op m {out} {before} e f =
    let ends : ([] ≡ out) × (m ≡ before) = ground arith in rw (← ends.0, ends.1) f
run-append (put n ∷ ops) op m e f = elim (Option-cases (put_body n m)) [
  | inl fails ↦ absurd (ground (arith, fails))
  | inr ((_, m'), works) ↦ rw works (run-append ops op m' (rw works at e) f)
]
run-append (get ∷ ops) op m {out} {more} {before} {after} e f = elim (Option-cases (get_body m)) [
  | inl fails ↦ absurd (ground (arith, fails))
  | inr ((n, _, m'), works) ↦ elim (Option-cases (run ops m')) [
    | inl stops ↦ absurd (ground (arith, works, stops))
    | inr ((out', last), runs) ↦
        let ends : (n ∷ out' ≡ out) × (last ≡ before) = ground (arith, works, runs) in
        rw (works, run-append ops op m' {more = more} {after = after} runs (rw ends.1 f), ← ends.0)
  ]
]

-- A run of one call.
pub run-put :
    (n : ℕ) (m : Shm) {a : ℤ} {m' : Shm}
    → put_body n m ≡ some (a, m')
    → run (put n ∷ []) m ≡ some ([], m')
unfolding run
run-put n m e = rw e

pub run-get :
    (m : Shm) {n : ℕ} {a : ℤ} {m' : Shm}
    → get_body m ≡ some (n, a, m')
    → run (get ∷ []) m ≡ some (n ∷ [], m')
unfolding run
run-get m e = rw e

-- The index that `put_task` computes from a counter that is not negative is that of a slot.
pub store_slot-put_index :
    (start k n : ℕ) (m : Shm) → (m' : Shm) × (store_slot (put_index start (pos k)) n m ≡ some m')
unfolding store_slot put_index
store_slot-put_index start k n m =
    (record m { slots = set m.slots ((start + k) % capacity) n }, ground arith)
