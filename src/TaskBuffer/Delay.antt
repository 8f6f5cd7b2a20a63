-- ===== src/TaskBuffer/Delay.antt =====
-- What the segment of lab7/zad1/src/lab7ipc.c stands for. `put_task` stores one slot beyond the
-- place from which `get_task` reads next, so the buffer is a queue behind one stale number.
use sysopy.Common.{
  ℕ, suc, ◌+◌, ◌%◌, ◌≤◌, ◌<◌, ◌≡◌, refl, inl, inr, Bool-cases, some, List, [], ◌∷◌, ◌++◌, length,
  get_elem?, set, length-append, length-set, get_elem?-set_self, get_elem?-set_ne,
  get_elem?-append_left, get_elem?-append_last, ◌==◌, true, false, ==_iff, ◌≢◌, sym, ap, ◌∙◌,
  dec_lt, if◌then◌else◌, arith,
}
use sysopy.Common.Int.{pos}
use sysopy.TaskBuffer.{
  put_index, store_slot, Shm, capacity, init_shm, put_body, get_body, next_start,
}

-- The number that the next `get_task` hands out, and those behind it.
pub record Delay : Type 0 where
  pub stale : ℕ
  pub queue : List ℕ

pub record Holds (m : Shm) (d : Delay) : Type 0 where
  pub size : length m.slots ≡ capacity
  pub start_in : m.start < capacity
  pub few : length d.queue ≤ capacity
  pub counted : m.count ≡ pos (length d.queue)
  pub front : get_elem? m.slots m.start ≡ some d.stale
  pub behind :
      (i : ℕ)
      → i < length d.queue
      → get_elem? m.slots ((m.start + 1 + i) % capacity) ≡ get_elem? d.queue i

-- The last free slot is the one that `get_task` reads next: there a number takes the place of the
-- stale one.
abbrev pub enqueue : ℕ → Delay → Delay
enqueue n d = record {
  stale = if length d.queue == 24 then n else d.stale;
  queue = d.queue ++ n ∷ [];
}

module _ {m : Shm} {d : Delay} (n : ℕ) (h : Holds m d) (room : length d.queue < capacity) where
  abbrev target : ℕ
  target = (m.start + (length d.queue + 1)) % capacity

  abbrev pub stored : Shm
  stored = record m { slots = set m.slots target n; count = pos (length d.queue + 1) }

  stored-behind :
      (i : ℕ)
      → i < length d.queue + 1
      → get_elem? (set m.slots target n) ((m.start + 1 + i) % capacity)
        ≡ get_elem? (d.queue ++ n ∷ []) i
  stored-behind i below = elim (dec_lt i (length d.queue)) [
    | yes old ↦
        get_elem?-set_ne m.slots target ((m.start + 1 + i) % capacity) n (apart old)
        ∙ h.behind i old
        ∙ sym (get_elem?-append_left d.queue (n ∷ []) i old)
    | no new ↦
        ap (get_elem? (set m.slots target n)) (meets (omega arith))
        ∙ get_elem?-set_self m.slots target n inside
        ∙ sym (get_elem?-append_last d.queue n i (omega arith))
  ]
    where
      inside : target < length m.slots
      inside = omega (arith, h.size)

      apart : i < length d.queue → target ≢ (m.start + 1 + i) % capacity
      apart old = omega arith

      meets : i ≡ length d.queue → (m.start + 1 + i) % capacity ≡ target
      meets e = omega arith

  stored-front :
      get_elem? (set m.slots target n) m.start ≡ some (if length d.queue == 24 then n else d.stale)
  stored-front = elim (Bool-cases (length d.queue == 24)) [
    | inl full ↦ rw full (
        ap (get_elem? (set m.slots target n)) (wraps full)
        ∙ get_elem?-set_self m.slots target n (omega (arith, h.size)))
    | inr free ↦ rw free (get_elem?-set_ne m.slots target m.start n (misses free) ∙ h.front)
  ]
    where
      wraps : (length d.queue == 24) ≡ true → m.start ≡ target
      wraps full = omega (arith, (==_iff (length d.queue) 24).0 full, h.start_in)

      misses : (length d.queue == 24) ≡ false → target ≢ m.start
      misses free = ground (arith, h.start_in)

  -- `put_task` on a segment that holds a queue of fewer than 25 numbers: it reports how many were
  -- there, and the segment then holds the queue with the number behind the others. If 24 were
  -- there, the number also takes the place of the stale one.
  pub put_body-enqueue :
      (put_body n m ≡ some (pos (length d.queue), stored)) × Holds stored (enqueue n d)
  unfolding put_body put_index store_slot
  put_body-enqueue = (
    rw h.counted (ground arith),
    record {
      size = length-set m.slots target n ∙ h.size;
      start_in = h.start_in;
      few = omega (arith, length-append d.queue (n ∷ []));
      counted = ap pos (omega (arith, length-append d.queue (n ∷ [])));
      front = stored-front;
      behind = λ i below. stored-behind i (omega (arith, length-append d.queue (n ∷ [])));
    },
  )

-- The segment when `q` is left of the queue.
abbrev pub taken : Shm → List ℕ → Shm
taken m q = record m { count = pos (length q); start = next_start m.start }

-- `get_task` on a segment that holds a queue with a first number: it hands out the stale number
-- and reports how many are left, and the segment then holds the rest of the queue behind that
-- first number, which is the stale one now.
pub get_body-dequeue :
    {m : Shm} {d : Delay} (x : ℕ) (q : List ℕ)
    → Holds m d
    → d.queue ≡ x ∷ q
    → (get_body m ≡ some (d.stale, pos (length q), taken m q))
      × Holds (taken m q) (record { stale = x; queue = q })
unfolding get_body
get_body-dequeue {m} {d} x q h e = (
  rw (h.counted, e, h.front),
  record {
    size = h.size;
    start_in = omega arith;
    few = omega (arith, h.few, ap length e);
    counted = refl;
    front =
        ap (get_elem? m.slots) (omega arith) ∙ h.behind 0 (omega (arith, ap length e)) ∙ rw e refl;
    behind = λ i below.
        ap (get_elem? m.slots) (omega arith)
        ∙ h.behind (suc i) (omega (arith, ap length e))
        ∙ rw e refl;
  },
)

-- The buffer that `init_ipc` makes out of a new segment: empty, and slot 0 is stale.
pub init_shm-Holds :
    (first : ℕ) (rest : List ℕ)
    → length rest ≡ 24
    → Holds (init_shm (first ∷ rest)) (record { stale = first; queue = [] })
unfolding init_shm
init_shm-Holds first rest e = record {
  size = omega (arith, e);
  start_in = omega arith;
  few = omega arith;
  counted = refl;
  front = refl;
  behind = λ i below. absurd (omega arith);
}
