-- ===== src/RecordSort/Files.antt =====
-- The two sets of operations on the file of records in lab2/zad1/src/bubble_sorter.c, one with
-- system calls and one with the C library. A file is its size, its bytes and the position of the
-- descriptor or stream. Seeks to a place in the file and allocations succeed. A product of a record
-- number and the record length is taken to be in the range of an `int`.
pub mod Bytes
pub mod Swap
pub mod Laws
use sysopy.Common.{
  ℕ, zero, suc, ◌+◌, ◌-◌, ◌*◌, Bool, true, false, Option, none, some, List, [], ◌∷◌, length, leb,
  ltb, ◌==◌, if◌then◌else◌, ◌>>=◌,
}
use sysopy.Common.Family.{update}
use sysopy.RecordSort.{Operations}

pub record File : Type 0 where
  pub size : ℕ
  pub content : ℕ → ℕ
  pub pos : ℕ

-- `count` bytes from `from` on
unfoldable pub window : (ℕ → ℕ) → (from count : ℕ) → List ℕ
window content from zero = []
window content from (suc count) = content from ∷ window content (from + 1) count

-- The bytes with others written over them from `from` on.
unfoldable pub overlay : (ℕ → ℕ) → ℕ → List ℕ → ℕ → ℕ
overlay content from [] = content
overlay content from (b ∷ bs) = overlay (update content from b) (from + 1) bs

-- `lseek` and `fseek` with SEEK_SET
abbrev pub seek : ℕ → File → File
seek pos f = record f { pos = pos }

-- `read`: fewer bytes at the end of the file.
unfoldable pub read : ℕ → File → List ℕ × File
unfolding window
read count f =
    let got = if leb count (f.size - f.pos) then count else f.size - f.pos in
    (window f.content f.pos got, record f { pos = f.pos + got })

-- `write` and `fwrite`
unfoldable pub write : List ℕ → File → File
unfolding overlay
write buffer f = record {
  size = if ltb f.size (f.pos + length buffer) then f.pos + length buffer else f.size;
  content = overlay f.content f.pos buffer;
  pos = f.pos + length buffer;
}

module _ (bytes_per_record : ℕ) where
  -- `fread` of one record, whose failure ends the program. A `read` of `swap_records_sys_io` that
  -- falls short leaves the rest of the buffer as `malloc` returned it: that is `none` too.
  unfoldable pub read_record : File → Option (List ℕ × File)
  unfolding read
  read_record f =
      let (buffer, f') = read bytes_per_record f in
      if length buffer == bytes_per_record then some (buffer, f') else none

  -- `swap_records_sys_io`
  unfoldable pub swap_records_sys_io : ℕ → ℕ → File → Option File
  unfolding read_record write
  swap_records_sys_io a b f = do
    let current_file_position = f.pos
    (a_buffer, f1) ← read_record (seek (a * bytes_per_record) f)
    (tmp_buffer, f2) ← read_record (seek (b * bytes_per_record) f1)
    let f3 = write tmp_buffer (seek (a * bytes_per_record) f2)
    let f4 = write a_buffer (seek (b * bytes_per_record) f3)
    some (seek current_file_position f4)

  -- `swap_records_std_io`, by `ftell`, `fseek`, `fread` and `fwrite`
  pub swap_records_std_io : ℕ → ℕ → File → Option File
  unfolding read_record write
  swap_records_std_io a b f = do
    let current_file_position = f.pos
    (a_buffer, f1) ← read_record (seek (a * bytes_per_record) f)
    (tmp_buffer, f2) ← read_record (seek (b * bytes_per_record) f1)
    let f3 = write tmp_buffer (seek (a * bytes_per_record) f2)
    let f4 = write a_buffer (seek (b * bytes_per_record) f3)
    some (seek current_file_position f4)

  -- At the end of the file the first record follows. On a file with no byte this does not end, and
  -- the fuel runs out.
  unfoldable pub get_next_record_sys_io : (fuel : ℕ) → File → Option (List ℕ × File)
  unfolding read
  get_next_record_sys_io zero f = none
  get_next_record_sys_io (suc fuel) f =
      let (buffer, f') = read bytes_per_record f in
      let again = get_next_record_sys_io fuel (seek 0 f') in
      if length buffer == 0
      then again
      else (if length buffer == bytes_per_record then some (buffer, f') else none)

  -- The library sets the end-of-file mark only when a read falls short, and then this has ended.
  pub get_next_record_std_io : File → Option (List ℕ × File)
  unfolding read_record
  get_next_record_std_io f = read_record f

  -- The two triples that `main` passes on; two rounds of fuel are enough for a file with a record.
  abbrev pub sys_io : Operations File (List ℕ)
  sys_io = record {
    get_next_record = get_next_record_sys_io 2;
    swap_records = swap_records_sys_io;
    set_file_start = λ f. some (seek 0 f);
  }

  abbrev pub std_io : Operations File (List ℕ)
  std_io = record {
    get_next_record = get_next_record_std_io;
    swap_records = swap_records_std_io;
    set_file_start = λ f. some (seek 0 f);
  }

  -- The record with number `k`.
  abbrev pub record_at : File → ℕ → List ℕ
  record_at f k = window f.content (k * bytes_per_record) bytes_per_record

-- `record[0]`; a record has at least one byte.
abbrev pub first_byte : List ℕ → ℕ
first_byte [] = 0
first_byte (b ∷ bs) = b
