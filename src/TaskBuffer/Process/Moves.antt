-- ===== src/TaskBuffer/Process/Moves.antt =====
-- A step of a process of lab7/zad1/src/lab7ipc.c keeps each field of `Inv`.
use sysopy.Common.{
  ℕ, zero, suc, ◌+◌, ◌-◌, ◌≤◌, ◌<◌, ◌≡◌, refl, sym, ◌∙◌, ap, some, List, length, ◌≢◌, arith,
  ℕ_discrete,
}
use sysopy.Common.{get_elem?}
use sysopy.Common.Int.{ℤ, pos, inc, dec}
use sysopy.Common.Family.{update, total, total-update, weight-le-total, weights-ne-le-total}
use sysopy.TaskBuffer.{capacity, Shm, init_shm, put_index, store_slot, next_start, run}
use mathlib.Core.Path.{ap₂}
use mathlib.Core.Logic.{if_pos, if_neg}
use sysopy.Common.{◌⊎◌, inl, inr}
use sysopy.TaskBuffer.Slots.{store_slot-keeps, run-append, run-put, run-get}
use sysopy.TaskBuffer.{put, get, put_body, get_body}
use mathlib.Core.List.{append-nil}
use sysopy.TaskBuffer.Process.{
  Ipc, Pc, Move, idle, put_store_slot, get_load_slot, call_put, down_put, lock_put, load_put,
  count_put, start_put, slot_put, unlock_put, up_get, call_get, down_get, lock_get, load_get,
  count_get, start_get, store_start_get, slot_get, unlock_get, up_put,
}
use sysopy.TaskBuffer.Process.Counts.{inside, underway, counted, Local, Local-outside, Inv}

dec-pos : (k : ℕ) → 0 < k → dec (pos k) ≡ pos (k - 1)
dec-pos zero h = absurd (omega arith)
dec-pos (suc k) h = ap pos (omega arith)

-- The premise of a step, for the catch-all clauses below, which cannot name it.
abbrev Guard : {m m' : Ipc} {p p' : Pc} → Move m p m' p' → Type 0
Guard {m} {m'} (down_put _) = m.put_sem ≡ suc m'.put_sem
Guard {m} {m'} (lock_put _) = m.mutex ≡ suc m'.mutex
Guard {m} {m'} (down_get _) = m.get_sem ≡ suc m'.get_sem
Guard {m} {m'} (lock_get _) = m.mutex ≡ suc m'.mutex
Guard _ = Unit

guard : {m m' : Ipc} {p p' : Pc} (mv : Move m p m' p') → Guard mv
guard (down_put g) = g
guard (lock_put g) = g
guard (down_get g) = g
guard (lock_get g) = g
guard _ = tt

module _ {n : ℕ} {slots : List ℕ} {base : Shm} {m : Ipc} {pc : ℕ → Pc} (inv : Inv n slots base m pc)
    (i : ℕ) where
  -- Process `i` goes from `p` to `p'`. A match on `Move` needs the variable `p` for `pc i`.
  record Mover (p p' : Pc) : Type 0 where
    own : Local base m.shm p
    insides : inside p + total inside n (update pc i p') ≡ inside p' + total inside n pc
    underways : underway p + total underway n (update pc i p') ≡ underway p' + total underway n pc
    counts : counted p + total counted n (update pc i p') ≡ counted p' + total counted n pc
    heavy : inside p ≤ total inside n pc
    weighs : counted p ≤ total counted n pc

  mover : i < n → (p' : Pc) → Mover (pc i) p'
  mover lt p' = record {
    own = inv.local i lt;
    insides = total-update inside n pc i p' lt;
    underways = total-update underway n pc i p' lt;
    counts = total-update counted n pc i p' lt;
    heavy = weight-le-total inside n pc i lt;
    weighs = weight-le-total counted n pc i lt;
  }

  Move-sums : {p p' : Pc} {m' : Ipc} → Move m p m' p' → Mover p p' → record {
    one : m'.mutex + total inside n (update pc i p') ≡ 1;
    tokens : m'.put_sem + m'.get_sem + total underway n (update pc i p') ≡ capacity;
  }
  Move-sums (call_put _) f = omega arith
  Move-sums mv f = ground (arith, guard mv, inv.one, inv.tokens)

  -- The segment as the last process to leave the section left it, after the step.
  abbrev pub rebase : {m' : Ipc} {p p' : Pc} → Move m p m' p' → Shm
  rebase {m'} (slot_put _) = m'.shm
  rebase {m'} (slot_get _) = m'.shm
  rebase _ = base

  Move-count :
      {p p' : Pc} {m' : Ipc}
      → Move m p m' p'
      → Mover p p'
      → m'.shm.count ≡ pos (m'.get_sem + total counted n (update pc i p'))
  Move-count count_put f =
      f.own.1
      ∙ ap (λ (s : Shm). inc s.count) (sym f.own.0)
      ∙ ap inc inv.count
      ∙ ap pos (omega (arith, f.counts))
  Move-count count_get f =
      f.own.1
      ∙ ap (λ (s : Shm). dec s.count) (sym f.own.0)
      ∙ ap dec inv.count
      ∙ dec-pos _ (omega (arith, f.weighs))
      ∙ ap pos (omega (arith, f.counts, f.weighs))
  Move-count (slot_put {number} {index} e) f =
      (store_slot-keeps index number m.shm e).0 ∙ inv.count ∙ ap pos (omega (arith, f.counts))
  Move-count mv f = ground (arith, guard mv, inv.count)

  Move-own : {p p' : Pc} {m' : Ipc} (mv : Move m p m' p') → Mover p p' → Local (rebase mv) m'.shm p'
  Move-own (lock_put e) f = inv.free (omega (arith, inv.one))
  Move-own (lock_get e) f = inv.free (omega (arith, inv.one))
  Move-own load_put f = (f.own, ap (λ (s : Shm). inc s.count) f.own)
  Move-own count_put f = (ground arith, f.own.1)
  Move-own start_put f = (f.own.0, ap₂ put_index (ap (λ (s : Shm). s.start) f.own.0) f.own.1)
  Move-own (slot_put e) f = refl
  Move-own load_get f = (f.own, ap (λ (s : Shm). dec s.count) f.own)
  Move-own count_get f = ground arith
  Move-own start_get f = (f.own, ap (λ (s : Shm). s.start) f.own)
  Move-own store_start_get f =
      (rw f.own.1 (ap (λ (s : Shm). record s { start = next_start base.start }) f.own.0), f.own.1)
  Move-own (slot_get e) f = refl
  Move-own unlock_put f = tt
  Move-own unlock_get f = tt
  Move-own (call_put _) f = tt
  Move-own (down_put _) f = tt
  Move-own up_get f = tt
  Move-own call_get f = tt
  Move-own (down_get _) f = tt
  Move-own up_put f = tt

  Move-free :
      {p p' : Pc} {m' : Ipc} (mv : Move m p m' p')
      → Mover p p'
      → total inside n (update pc i p') ≡ 0
      → m'.shm ≡ rebase mv
  Move-free unlock_put f e = f.own
  Move-free unlock_get f e = f.own
  Move-free (call_put _) f e = inv.free (omega (arith, f.insides))
  Move-free (down_put _) f e = inv.free (omega (arith, f.insides))
  Move-free up_get f e = inv.free (omega (arith, f.insides))
  Move-free call_get f e = inv.free (omega (arith, f.insides))
  Move-free (down_get _) f e = inv.free (omega (arith, f.insides))
  Move-free up_put f e = inv.free (omega (arith, f.insides))
  Move-free mv f e = absurd (omega (arith, f.insides, f.heavy))

  put_body-base :
      (number : ℕ) {index : ℤ} {shm : Shm}
      → store_slot index number m.shm ≡ some shm
      → Local base m.shm (put_store_slot number index)
      → put_body number base ≡ some (base.count, shm)
  unfolding put_body
  put_body-base number e own = rw (← own.1, ← own.0, e)

  get_body-base :
      {index number : ℕ}
      → get_elem? m.shm.slots index ≡ some number
      → Local base m.shm (get_load_slot index)
      → get_body base ≡ some (number, dec base.count, m.shm)
  unfolding get_body
  get_body-base {index} {number} e own =
      let slot : get_elem? base.slots base.start ≡ some number =
        rw (← own.1, ← ap (λ (s : Shm). s.slots) own.0) e in
      rw (slot, own.0)

  Move-ran :
      {p p' : Pc} {m' : Ipc} (mv : Move m p m' p')
      → Mover p p'
      → run m'.log (init_shm slots) ≡ some (m'.out, rebase mv)
  Move-ran (slot_put {number} {index} {shm} e) f =
      run-append m.log (put number) (init_shm slots) inv.ran
        (run-put number base (put_body-base number e f.own))
      ∙ rw append-nil
  Move-ran (slot_get {index} {number} e) f =
      run-append m.log get (init_shm slots) inv.ran (run-get base (get_body-base e f.own))
  Move-ran (call_put _) f = inv.ran
  Move-ran mv f = inv.ran

  Move-base :
      {p p' : Pc} {m' : Ipc} (mv : Move m p m' p')
      → Mover p p'
      → ((rebase mv).start < capacity) × (length (rebase mv).slots ≡ capacity)
  Move-base (slot_put {number} {index} e) f =
      let keeps = store_slot-keeps index number m.shm e in
      (
        rw (keeps.1 ∙ ap (λ (s : Shm). s.start) f.own.0) inv.start_in,
        keeps.2 ∙ ap (λ (s : Shm). length s.slots) f.own.0 ∙ inv.size,
      )
  Move-base (slot_get e) f = (
    omega (arith, ap (λ (s : Shm). s.start) f.own.0),
    ap (λ (s : Shm). length s.slots) f.own.0 ∙ inv.size,
  )
  Move-base (call_put _) f = (inv.start_in, inv.size)
  Move-base mv f = (inv.start_in, inv.size)

  Move-outside :
      {p p' : Pc} {m' : Ipc} (mv : Move m p m' p')
      → inside p ≡ 0
      → (m'.shm ≡ m.shm) × (rebase mv ≡ base)
  Move-outside (call_put _) e = (refl, refl)
  Move-outside (down_put _) e = (refl, refl)
  Move-outside (lock_put _) e = (refl, refl)
  Move-outside up_get e = (refl, refl)
  Move-outside call_get e = (refl, refl)
  Move-outside (down_get _) e = (refl, refl)
  Move-outside (lock_get _) e = (refl, refl)
  Move-outside up_put e = (refl, refl)
  Move-outside mv e = absurd (omega arith)

  inside_cases : (p : Pc) → (inside p ≡ 0) ⊎ (inside p ≡ 1)
  inside_cases idle = inl refl
  inside_cases p = ground arith

  Move-others :
      {m' : Ipc} {p' : Pc} (mv : Move m (pc i) m' p') (j : ℕ)
      → i < n
      → j < n
      → i ≢ j
      → Local (rebase mv) m'.shm (pc j)
  Move-others mv j lt lt' ne = elim (inside_cases (pc i)) [
    | inl out ↦ let (same, kept) = Move-outside mv out in rw (same, kept) (inv.local j lt')
    | inr busy ↦
        Local-outside _ _ (pc j)
          (omega (arith, inv.one, weights-ne-le-total inside n pc i j lt lt'))
  ]

  Move-Local :
      {m' : Ipc} {p' : Pc} (mv : Move m (pc i) m' p') (j : ℕ)
      → i < n
      → j < n
      → Local (rebase mv) m'.shm (update pc i p' j)
  Move-Local {p'} mv j lt lt' = elim (ℕ_discrete i j) [
    | yes same ↦ rw (if_pos _ same) (Move-own mv (mover lt p'))
    | no apart ↦ rw (if_neg _ apart) (Move-others mv j lt lt' apart)
  ]

  pub Move-Inv :
      {m' : Ipc} {p' : Pc} (mv : Move m (pc i) m' p')
      → i < n
      → Inv n slots (rebase mv) m' (update pc i p')
  Move-Inv {p'} mv lt = record {
    one = (Move-sums mv f).one;
    tokens = (Move-sums mv f).tokens;
    count = Move-count mv f;
    start_in = (Move-base mv f).0;
    size = (Move-base mv f).1;
    local = λ j lt'. Move-Local mv j lt lt';
    free = Move-free mv f;
    ran = Move-ran mv f;
  }
    where
      f : Mover (pc i) p'
      f = mover lt p'
