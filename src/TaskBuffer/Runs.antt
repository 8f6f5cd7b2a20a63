-- ===== src/TaskBuffer/Runs.antt =====
-- Calls of `put_task` and `get_task` of lab7/zad1/src/lab7ipc.c, one after another: in which order
-- numbers come out of the buffer.
use sysopy.Common.{
  ℕ, ◌+◌, ◌-◌, ◌<◌, ◌≡◌, refl, ap, ◌∙◌, some, List, [], ◌∷◌, ◌++◌, length, length-append, arith,
}
use mathlib.Core.List.{append_assoc, append-nil}
use sysopy.TaskBuffer.{Shm, Op, put, get, run, capacity}
use sysopy.TaskBuffer.Delay.{
  Delay, Holds, enqueue, stored, taken, put_body-enqueue, get_body-dequeue,
}

-- Calls that the semaphores let through and that never use the last free slot, starting with `k`
-- numbers in the buffer.
abbrev pub Calm : ℕ → List Op → Type 0
Calm k [] = Unit {0}
Calm k (put n ∷ ops) = (k < 24) × Calm (k + 1) ops
Calm k (get ∷ ops) = (0 < k) × Calm (k - 1) ops

-- The numbers that are put, in order.
abbrev pub puts : List Op → List ℕ
puts [] = []
puts (put n ∷ ops) = n ∷ puts ops
puts (get ∷ ops) = puts ops

nonempty : (q : List ℕ) → 0 < length q → (x : ℕ) × (r : List ℕ) × (q ≡ x ∷ r)
nonempty [] h = absurd (omega arith)
nonempty (x ∷ r) h = (x, r, refl)

-- The outcome of a run: what came out, and what the buffer holds then.
pub record Ran (ops : List Op) (m : Shm) (d : Delay) : Type 0 where
  pub out : List ℕ
  pub last : Shm
  pub left : Delay
  pub ran : run ops m ≡ some (out, last)
  pub holds : Holds last left
  pub order : out ++ left.stale ∷ left.queue ≡ d.stale ∷ (d.queue ++ puts ops)

module _ {m : Shm} {d : Delay} (h : Holds m d) (ops : List Op) where
  Ran-put :
      (n : ℕ) (room : length d.queue < capacity)
      → length d.queue < 24
      → Ran ops (stored n h room) (enqueue n d)
      → Ran (put n ∷ ops) m d
  unfolding run
  Ran-put n room below later = record {
    out = later.out;
    last = later.last;
    left = later.left;
    ran = rw (put_body-enqueue n h room).0 later.ran;
    holds = later.holds;
    order = later.order ∙ moved;
  }
    where
      moved :
          (enqueue n d).stale ∷ ((d.queue ++ n ∷ []) ++ puts ops)
          ≡ d.stale ∷ (d.queue ++ n ∷ puts ops)
      moved = rw append_assoc (ap (λ s. s ∷ (d.queue ++ n ∷ puts ops)) (ground arith))

  Ran-get :
      (x : ℕ) (q : List ℕ) (e : d.queue ≡ x ∷ q)
      → Ran ops (taken m q) (record { stale = x; queue = q })
      → Ran (get ∷ ops) m d
  unfolding run
  Ran-get x q e later = record {
    out = d.stale ∷ later.out;
    last = later.last;
    left = later.left;
    ran = rw ((get_body-dequeue x q h e).0, later.ran);
    holds = later.holds;
    order = rw e (ap (λ t. d.stale ∷ t) later.order);
  }

-- On a segment that holds a queue, calls that put only while fewer than 24 numbers wait and get
-- only while one waits all succeed, and the numbers that come out, the stale one that is left and
-- the queue that is left are the stale number, the queue and the numbers put, in this order.
pub run-order :
    (ops : List Op) {m : Shm} {d : Delay} → Holds m d → Calm (length d.queue) ops → Ran ops m d
unfolding run
run-order [] {m} {d} h calm = record {
  out = [];
  last = m;
  left = d;
  ran = refl;
  holds = h;
  order = rw append-nil refl;
}
run-order (put n ∷ ops) {m} {d} h calm =
    let room : length d.queue < capacity = omega arith in
    Ran-put h ops n room calm.0
      (run-order ops (put_body-enqueue n h room).1 (rw (length-append d.queue (n ∷ [])) calm.1))
run-order (get ∷ ops) {m} {d} h calm =
    let (x, q, e) = nonempty d.queue calm.0 in
    Ran-get h ops x q e (run-order ops (get_body-dequeue x q h e).1 (rw (← size q e) calm.1))
  where
    size : {x : ℕ} (q : List ℕ) → d.queue ≡ x ∷ q → length d.queue - 1 ≡ length q
    size q e = omega (arith, ap length e)

-- On a segment that holds a queue of 24 numbers, a number that is put is the next one that comes
-- out: it overtakes every number in the buffer.
pub put-get_full :
    (n : ℕ) {m : Shm} {d : Delay}
    → Holds m d
    → length d.queue ≡ 24
    → (last : Shm) × (run (put n ∷ get ∷ []) m ≡ some (n ∷ [], last))
unfolding run
put-get_full n {m} {d} h e =
    let room : length d.queue < capacity = omega arith in
    let (filled, holds) = put_body-enqueue n h room in
    let (x, q, front) = nonempty d.queue (omega arith) in
    let (got, _) = get_body-dequeue x (q ++ n ∷ []) holds (rw front refl) in
    (taken (stored n h room) (q ++ n ∷ []), rw (filled, got) (ground arith))
