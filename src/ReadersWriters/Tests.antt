-- ===== src/ReadersWriters/Tests.antt =====
-- The theorems about lab9/zad2/src/rw.c at concrete states.
use sysopy.Common.{
  ℕ, zero, suc, ◌+◌, ◌<◌, ◌≡◌, ◌≢◌, refl, get_elem?-of_lt, arith, ℕ_discrete, if◌then◌else◌, ◌==◌,
}
use sysopy.ReadersWriters.{
  num_readers, library_size, scanning, report, wait_library, look, looked, wait_writer, take_place,
  begin, System, Step, reads, writes, Reach, start, later, reader_read,
}
use sysopy.ReadersWriters.Counts.{present, admitted}
use sysopy.ReadersWriters.Steps.{Reach-Inv}
use sysopy.ReadersWriters.Safety.{writer_alone, report_exact, no_deadlock}

abbrev rand : ℕ → ℕ
rand i = i + 6

abbrev Reached : Type 0
Reached = (s : System) × Reach 2 rand s

-- The first writer has all places and modifies seven entries.
abbrev busy : Reached
unfolding ℕ_discrete
busy = (
  _,
  later
      (later
        (later
          (later
            (later
              (later
                (later
                  (later
                    (later
                      (later
                        (later
                          (later
                            (later
                              (later
                                (later
                                  (later (later start (writes 0 (omega arith) (wait_writer refl)))
                                    (writes 0 (omega arith) (take_place (omega arith) refl)))
                                  (writes 0 (omega arith) (take_place (omega arith) refl)))
                                (writes 0 (omega arith) (take_place (omega arith) refl)))
                              (writes 0 (omega arith) (take_place (omega arith) refl)))
                            (writes 0 (omega arith) (take_place (omega arith) refl)))
                          (writes 0 (omega arith) (take_place (omega arith) refl)))
                        (writes 0 (omega arith) (take_place (omega arith) refl)))
                      (writes 0 (omega arith) (take_place (omega arith) refl)))
                    (writes 0 (omega arith) (take_place (omega arith) refl)))
                  (writes 0 (omega arith) (take_place (omega arith) refl)))
                (writes 0 (omega arith) (take_place (omega arith) refl)))
              (writes 0 (omega arith) (take_place (omega arith) refl)))
            (writes 0 (omega arith) (take_place (omega arith) refl)))
          (writes 0 (omega arith) (take_place (omega arith) refl)))
        (writes 0 (omega arith) (take_place (omega arith) refl)))
      (writes 0 (omega arith) (begin 6 refl)),
)

writer_alone_example :
    ((j : ℕ) → j < num_readers → present (busy.0.reader j) ≡ 0)
    × ((j : ℕ) → j < 2 → 0 ≢ j → admitted (busy.0.writer j) ≡ 0)
unfolding ℕ_discrete busy
writer_alone_example = writer_alone busy.1 0 7 (omega arith) refl

-- A reader that looks for `num` has been through the library.
record Reported (num : ℕ) : Type 0 where
  last : System
  num_found : ℕ
  reach : Reach 2 rand last
  at : last.reader 0 ≡ report num num_found

scan :
    (rest i num num_found : ℕ) {s : System}
    → Reach 2 rand s
    → i + rest ≡ library_size
    → s.reader 0 ≡ scanning num i num_found
    → Reported num
unfolding ℕ_discrete
scan zero i num num_found {s} r e at = record {
  last = _;
  num_found = num_found;
  reach = later r (
      reads 0 {m = s.shared} {p = report num num_found} (omega arith)
        (rw at (looked (omega arith))));
  at = refl;
}
scan (suc rest) i num num_found {s} r e at =
    let (v, here) = get_elem?-of_lt s.shared.library i (omega (arith, (Reach-Inv r).size)) in
    let found' : ℕ = if v == num then num_found + 1 else num_found in
    scan rest (i + 1) num found'
      (later r (
        reads 0 {m = s.shared} {p = scanning num (i + 1) found'} (omega arith)
          (rw at (look (omega arith) here))))
      (omega arith) refl

-- Reader 0 alone goes through the library.
scanned : Reported 7
unfolding ℕ_discrete
scanned =
    scan library_size 0 7 0 (later start (reads 0 (omega arith) (wait_library refl))) (omega arith)
      refl

report_exact_example : scanned.num_found ≡ reader_read 7 scanned.last.shared.library
report_exact_example = report_exact scanned.reach 0 7 scanned.num_found (omega arith) scanned.at

no_deadlock_example : (t : System) × Step 2 busy.0 t
no_deadlock_example = no_deadlock busy.1
