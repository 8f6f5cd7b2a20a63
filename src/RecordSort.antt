-- ===== src/RecordSort.antt =====
-- The record sorter of lab 2 (lab2/zad1/src/bubble_sort.c): a bubble sort that is given the three
-- operations on the file of records as function pointers. `none` is an operation that ends the
-- program. What a client has to promise about its operations is in Interface, the two sets of
-- operations that the program has are in Files.
pub mod Interface
pub mod Pass
pub mod Sorted
pub mod Files
mod Tests
use sysopy.Common.{
  ℕ, zero, suc, Bool, true, false, ◌+◌, ◌-◌, Option, none, some, leb, ltb, if◌then◌else◌, ◌>>=◌,
}

-- The parameters `get_next_record`, `swap_records` and `set_file_start`.
pub record Operations (S R : Type 0) : Type 0 where
  pub get_next_record : S → Option (R × S)
  pub swap_records : ℕ → ℕ → S → Option S
  pub set_file_start : S → Option S

-- `key` is the first byte of a record.
module _ {S R : Type 0} (io : Operations S R) (key : R → ℕ) where
  -- The two branches of the inner loop.
  abbrev swap_if : Bool → (counter : ℕ) → R → R → S → Option (R × S)
  swap_if true counter previous_record current_record s = do
    s' ← io.swap_records (counter - 1) counter s
    some (previous_record, s')
  swap_if false counter previous_record current_record s = some (current_record, s)

  -- One round of the inner loop, with the new `previous_record`.
  pub compare_next : (counter : ℕ) → R → S → Option (R × S)
  compare_next counter previous_record s = do
    (current_record, s') ← io.get_next_record s
    swap_if (ltb (key current_record) (key previous_record)) counter previous_record current_record
        s'

  -- The inner loop from `counter` on, `left` rounds of it.
  pub pass : (left counter : ℕ) → R → S → Option S
  unfolding compare_next
  pass zero counter previous_record s = some s
  pass (suc left) counter previous_record s = do
    (previous_record', s') ← compare_next counter previous_record s
    pass left (counter + 1) previous_record' s'

  -- The outer loop, from a given `last_unsorted_element_index` down to 1.
  pub passes : ℕ → S → Option S
  unfolding pass
  passes zero s = some s
  passes (suc last) s = do
    s' ← io.set_file_start s
    (previous_record, s'') ← io.get_next_record s'
    s''' ← pass (suc last) 1 previous_record s''
    passes last s'''

  pub perform_bubble_sort : (num_records : ℕ) → S → Option S
  unfolding passes
  perform_bubble_sort num_records s =
      if leb num_records 1 then some s else passes (num_records - 1) s
