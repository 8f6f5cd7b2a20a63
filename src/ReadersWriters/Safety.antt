-- ===== src/ReadersWriters/Safety.antt =====
-- What lab9/zad2/src/rw.c guarantees in every reachable state.
use sysopy.Common.{ℕ, zero, suc, ◌-◌, ◌<◌, ◌≡◌, ◌≢◌, refl, ap, get_elem?-of_lt, arith, dec_lt}
use sysopy.Common.Family.{
  total, weight-le-total, weights-ne-le-total, total-eq-one, member_of_total,
}
use sysopy.ReadersWriters.{
  num_readers, library_size, Shared, Reader, ReaderMove, scanning, report, wait_library, look,
  looked, post_library, Writer, WriterMove, taking, writing, giving, begin, modify, written,
  give_place, System, Step, reads, writes, Reach, reader_read,
}
use sysopy.ReadersWriters.Counts.{present, places, admitted, Counted, Inv}
use sysopy.ReadersWriters.Steps.{Reach-Inv}

module _ {n : ℕ} {rand : ℕ → ℕ} {s : System} (r : Reach n rand s) where
  -- In every reachable state: while a writer modifies the library, no reader is in it and no other
  -- writer is past `sem_writer`.
  pub writer_alone :
      (i left : ℕ)
      → i < n
      → s.writer i ≡ writing left
      → ((j : ℕ) → j < num_readers → present (s.reader j) ≡ 0)
        × ((j : ℕ) → j < n → i ≢ j → admitted (s.writer j) ≡ 0)
  writer_alone i left lt at = (
    λ j lt'. omega (
      arith,
      ap places at,
      (Reach-Inv r).room,
      weight-le-total places n s.writer i lt,
      weight-le-total present num_readers s.reader j lt',
    ),
    λ j lt' apart. omega (
      arith,
      ap admitted at,
      (Reach-Inv r).one,
      weights-ne-le-total admitted n s.writer i j lt lt' apart,
    ),
  )

  -- In every reachable state: the number that a reader is about to report is the number of entries
  -- of the library that equal its own, as `reader_read` in one go finds it.
  pub report_exact :
      (j num num_found : ℕ)
      → j < num_readers
      → s.reader j ≡ report num num_found
      → num_found ≡ reader_read num s.shared.library
  report_exact j num num_found lt at = rw at at ((Reach-Inv r).counted j lt)

  CanRead : Reader → Type 0
  CanRead p = (m : Shared) × (p' : Reader) × ReaderMove s.shared p m p'

  CanRead-present : (p : Reader) → Counted s.shared.library p → present p ≡ 1 → CanRead p
  unfolding CanRead
  CanRead-present (Reader.away num) c h = absurd (omega arith)
  CanRead-present (scanning num i num_found) c h = elim (dec_lt i library_size) [
    | yes below ↦
        let (v, e) = get_elem?-of_lt s.shared.library i (omega (arith, (Reach-Inv r).size)) in
        (_, _, look below e)
    | no over ↦ (_, _, looked (omega arith))
  ]
  CanRead-present (report num num_found) c h = (_, _, post_library)

  CanRead-free :
      (p : Reader) → Counted s.shared.library p → 0 < s.shared.sem_library_empty → CanRead p
  unfolding CanRead
  CanRead-free (Reader.away num) c h =
      (_, _, wait_library {k = s.shared.sem_library_empty - 1} (omega arith))
  CanRead-free p c h = CanRead-present p c (ground arith)

  -- A writer past `sem_writer` that holds every place goes on.
  CanWrite-full :
      (p : Writer)
      → places p ≡ num_readers
      → (m : Shared) × (p' : Writer) × WriterMove s.shared p m p'
  CanWrite-full Writer.away h = absurd (omega arith)
  CanWrite-full (taking k) h = (_, _, begin 0 h)
  CanWrite-full (writing zero) h = (_, _, written refl)
  CanWrite-full (writing (suc left)) h = (_, _, modify 0 0)
  CanWrite-full (giving zero) h = absurd (omega arith)
  CanWrite-full (giving (suc k)) h = (_, _, give_place)

  -- With no place left and no reader present, one writer holds them all.
  holder :
      s.shared.sem_library_empty ≡ 0
      → total present num_readers s.reader ≡ 0
      → (i : ℕ) × (i < n) × (places (s.writer i) ≡ num_readers)
  holder none_left nobody =
      let inv : Inv n s = Reach-Inv r in
      let (i, lt, some_place) = member_of_total places n s.writer (omega (arith, inv.room)) in
      (
        i,
        lt,
        omega (
          arith,
          inv.room,
          total-eq-one places n s.writer i Writer.away lt refl (λ j lt' apart.
              outside (s.writer j) (
                omega (
                  arith,
                  inv.one,
                  weights-ne-le-total admitted n s.writer i j lt lt' apart,
                  admitted_of_places (s.writer i) some_place,
                ))),
        ),
      )
    where
      outside : (p : Writer) → admitted p ≡ 0 → places p ≡ 0
      outside p h = ground arith

      admitted_of_places : (p : Writer) → 0 < places p → admitted p ≡ 1
      admitted_of_places p h = ground arith

  -- In every reachable state some thread can take a step, whatever the number of writers is.
  pub no_deadlock : (t : System) × Step n s t
  unfolding CanRead
  no_deadlock =
      let inv : Inv n s = Reach-Inv r in
      elim (dec_lt 0 s.shared.sem_library_empty) [
        | yes free ↦
            let (_, _, mv) = CanRead-free (s.reader 0) (inv.counted 0 (omega arith)) free in
            (_, reads 0 (omega arith) mv)
        | no none_left ↦ elim (dec_lt 0 (total present num_readers s.reader)) [
          | yes somebody ↦
              let (j, lt, there) = member_of_total present num_readers s.reader somebody in
              let (_, _, mv) =
                CanRead-present (s.reader j) (inv.counted j lt) (one_of (s.reader j) there) in
              (_, reads j lt mv)
          | no nobody ↦
              let (i, lt, full) = holder (omega arith) (omega arith) in
              let (_, _, mv) = CanWrite-full (s.writer i) full in (_, writes i lt mv)
        ]
      ]
    where
      one_of : (p : Reader) → 0 < present p → present p ≡ 1
      one_of p h = ground arith
