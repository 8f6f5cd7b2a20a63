-- ===== src/ReadersWriters/Steps.antt =====
-- Every step of lab9/zad2/src/rw.c keeps the invariant.
use sysopy.Common.{
  ℕ, zero, suc, ◌+◌, ◌%◌, ◌≤◌, ◌<◌, ◌≡◌, refl, sym, ap, ◌∙◌, some, List, [], ◌∷◌, get_elem?, take,
  take-length, length, length-set, length-replicate, ◌==◌, if◌then◌else◌, arith, ℕ_discrete,
}
use sysopy.Common.Family.{update, total, total-update, total-eq-zero, weight-le-total}
use mathlib.Core.Logic.{if_pos, if_neg}
use native.Mathlib.Numerals.{add-one}
use sysopy.ReadersWriters.{
  num_readers, library_size, Shared, Reader, ReaderMove, scanning, report, wait_library, look,
  looked, post_library, Writer, WriterMove, wait_writer, take_place, begin, modify, written,
  give_place, post_writer, System, reads, writes, init, Reach, start, later, reader_read,
}
use sysopy.ReadersWriters.Counts.{present, places, admitted, Counted, Inv}

-- One entry more.
reader_read-take :
    (num : ℕ) (xs : List ℕ) (i v : ℕ)
    → get_elem? xs i ≡ some v
    → reader_read num (take (suc i) xs)
      ≡ (if v == num then reader_read num (take i xs) + 1 else reader_read num (take i xs))
unfolding reader_read
reader_read-take num [] i v e = cc
reader_read-take num (x ∷ xs) zero v e = ground arith
reader_read-take num (x ∷ xs) (suc i) v e = ground (arith, reader_read-take num xs i v e)

module _ {n : ℕ} {s : System} (inv : Inv n s) (i : ℕ) where
  record Turn (p p' : Reader) : Type 0 where
    own : Counted s.shared.library p
    presents :
        present p + total present num_readers (update s.reader i p')
        ≡ present p' + total present num_readers s.reader

  turn : i < num_readers → (p' : Reader) → Turn (s.reader i) p'
  turn lt p' = record {
    own = inv.counted i lt;
    presents = total-update present num_readers s.reader i p' lt;
  }

  ReaderMove-sums : {m : Shared} {p p' : Reader} → ReaderMove s.shared p m p' → Turn p p' → record {
    same : (m.library ≡ s.shared.library) × (m.sem_writer ≡ s.shared.sem_writer);
    room :
        m.sem_library_empty
          + total present num_readers (update s.reader i p')
          + total places n s.writer
        ≡ num_readers;
  }
  ReaderMove-sums (wait_library e) f = record {
    same = (refl, refl);
    room = omega (arith, f.presents, inv.room);
  }
  ReaderMove-sums (look _ _) f = record {
    same = (refl, refl);
    room = omega (arith, f.presents, inv.room);
  }
  ReaderMove-sums (looked _) f = record {
    same = (refl, refl);
    room = omega (arith, f.presents, inv.room);
  }
  ReaderMove-sums post_library f = record {
    same = (refl, refl);
    room = omega (arith, f.presents, inv.room);
  }

  ReaderMove-own :
      {m : Shared} {p p' : Reader}
      → ReaderMove s.shared p m p'
      → Turn p p'
      → Counted s.shared.library p'
  unfolding reader_read
  ReaderMove-own (wait_library e) f = (omega arith, refl)
  ReaderMove-own (look {num} {i = k} {num_found} {v} below e) f = (
    omega arith,
    ap (λ x. if v == num then x + 1 else x) f.own.1
        ∙ sym (reader_read-take num s.shared.library k v e)
        ∙ ap (λ j. reader_read num (take j s.shared.library)) (sym (add-one k)),
  )
  ReaderMove-own (looked {num} {i = k} e) f =
      f.own.1 ∙ ap (reader_read num) (take-length k s.shared.library (e ∙ sym inv.size))
  ReaderMove-own post_library f = tt

  reads-Inv :
      {m : Shared} {p' : Reader}
      → i < num_readers
      → ReaderMove s.shared (s.reader i) m p'
      → Inv n (record s { shared = m; reader = update s.reader i p' })
  reads-Inv {m} {p'} lt mv = record {
    one = rw same.1 inv.one;
    room = room;
    size = rw same.0 inv.size;
    counted = λ j lt'. rw same.0 (elim (ℕ_discrete i j) [
      | yes here ↦ rw (if_pos _ here) (ReaderMove-own mv (turn lt p'))
      | no apart ↦ rw (if_neg _ apart) (inv.counted j lt')
    ]);
    few = inv.few;
  }
    where
      open (ReaderMove-sums mv (turn lt p')) use {same, room}

-- Of a reader outside nothing is said.
Counted-away : (library : List ℕ) (p : Reader) → present p ≡ 0 → Counted library p
Counted-away library (Reader.away num) h = tt
Counted-away library (scanning num i num_found) h = absurd (omega arith)
Counted-away library (report num num_found) h = absurd (omega arith)

module _ {n : ℕ} {s : System} (inv : Inv n s) (i : ℕ) where
  record WriterTurn (p p' : Writer) : Type 0 where
    small : places p ≤ num_readers
    mine : places p ≤ total places n s.writer
    placed : places p + total places n (update s.writer i p') ≡ places p' + total places n s.writer
    entry :
        admitted p + total admitted n (update s.writer i p')
        ≡ admitted p' + total admitted n s.writer

  writer_turn : i < n → (p' : Writer) → WriterTurn (s.writer i) p'
  writer_turn lt p' = record {
    small = inv.few i lt;
    mine = weight-le-total places n s.writer i lt;
    placed = total-update places n s.writer i p' lt;
    entry = total-update admitted n s.writer i p' lt;
  }

  record WriterSums (m : Shared) (p' : Writer) : Type 0 where
    one : m.sem_writer + total admitted n (update s.writer i p') ≡ 1
    room :
        m.sem_library_empty
          + total present num_readers s.reader
          + total places n (update s.writer i p')
        ≡ num_readers
    small : places p' ≤ num_readers
    size : length m.library ≡ library_size

  WriterMove-sums :
      {m : Shared} {p p' : Writer} → WriterMove s.shared p m p' → WriterTurn p p' → WriterSums m p'
  WriterMove-sums (wait_writer e) f =
      omega (arith, f.placed, f.entry, f.small, inv.one, inv.room, inv.size)
  WriterMove-sums (take_place lt e) f =
      omega (arith, f.placed, f.entry, f.small, inv.one, inv.room, inv.size)
  WriterMove-sums (begin rand e) f =
      omega (arith, f.placed, f.entry, f.small, inv.one, inv.room, inv.size)
  WriterMove-sums (modify rand rand') f = record {
    one = omega (arith, f.entry, inv.one);
    room = omega (arith, f.placed, inv.room);
    small = omega arith;
    size = length-set s.shared.library (rand % library_size) _ ∙ inv.size;
  }
  WriterMove-sums (written e) f =
      omega (arith, f.placed, f.entry, f.small, inv.one, inv.room, inv.size)
  WriterMove-sums give_place f =
      omega (arith, f.placed, f.entry, f.small, inv.one, inv.room, inv.size)
  WriterMove-sums (post_writer e) f =
      omega (arith, f.placed, f.entry, f.small, inv.one, inv.room, inv.size)

  -- Only a writer that holds every place writes, and then no reader is there.
  WriterMove-counted :
      {m : Shared} {p p' : Writer}
      → WriterMove s.shared p m p'
      → WriterTurn p p'
      → (j : ℕ) → j < num_readers
      → Counted m.library (s.reader j)
  WriterMove-counted (modify rand rand') f j lt =
      Counted-away _ (s.reader j)
        (omega (arith, f.mine, inv.room, weight-le-total present num_readers s.reader j lt))
  WriterMove-counted (wait_writer _) f j lt = inv.counted j lt
  WriterMove-counted mv f j lt = inv.counted j lt

  writes-Inv :
      {m : Shared} {p' : Writer}
      → i < n
      → WriterMove s.shared (s.writer i) m p'
      → Inv n (record s { shared = m; writer = update s.writer i p' })
  writes-Inv {m} {p'} lt mv = record {
    one = one;
    room = room;
    size = size;
    counted = WriterMove-counted mv f;
    few = λ j lt'. elim (ℕ_discrete i j) [
      | yes here ↦ rw (if_pos _ here) small
      | no apart ↦ rw (if_neg _ apart) (inv.few j lt')
    ];
  }
    where
      f : WriterTurn (s.writer i) p'
      f = writer_turn lt p'

      open (WriterMove-sums mv f) use {one, room, small, size}

init-Inv : (n : ℕ) (rand : ℕ → ℕ) → Inv n (init rand)
init-Inv n rand = record {
  one = omega (arith, total-eq-zero admitted n (λ _. Writer.away) (λ _. refl));
  room = omega (
    arith,
    total-eq-zero present num_readers (init rand).reader (λ _. refl),
    total-eq-zero places n (λ _. Writer.away) (λ _. refl),
  );
  size = length-replicate library_size 0;
  counted = λ i lt. tt;
  few = λ i lt. omega arith;
}

-- The invariant holds in every reachable state.
pub Reach-Inv : {n : ℕ} {rand : ℕ → ℕ} {s : System} → Reach n rand s → Inv n s
Reach-Inv {n} {rand} start = init-Inv n rand
Reach-Inv (later r (reads i lt mv)) = reads-Inv (Reach-Inv r) i lt mv
Reach-Inv (later r (writes i lt mv)) = writes-Inv (Reach-Inv r) i lt mv
