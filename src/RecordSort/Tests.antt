-- ===== src/RecordSort/Tests.antt =====
-- The sorter of lab2/zad1/src on a small file of three records of two bytes.
use sysopy.Common.{◌≡◌, refl, some, [], ◌∷◌, arith, ℕ_discrete, ◌>>=◌}
use sysopy.RecordSort.{perform_bubble_sort, compare_next, pass, passes}
use sysopy.RecordSort.Sorted.{Ordered}
use sysopy.RecordSort.Files.{
  File, window, overlay, seek, read, write, read_record, sys_io, std_io, record_at, first_byte,
  get_next_record_sys_io, swap_records_sys_io,
}
use sysopy.RecordSort.Files.Laws.{perform_bubble_sort-file}

abbrev small : File
unfolding overlay ℕ_discrete
small = record { size = 6; content = overlay (λ _. 0) 0 (9 ∷ 1 ∷ 4 ∷ 2 ∷ 7 ∷ 3 ∷ []); pos = 0 }

-- What the program leaves in the file.
small_sorted :
    (perform_bubble_sort (sys_io 2) first_byte 3 small >>= λ f. some (window f.content 0 6))
    ≡ some (4 ∷ 2 ∷ 7 ∷ 3 ∷ 9 ∷ 1 ∷ [])
unfolding perform_bubble_sort passes pass compare_next get_next_record_sys_io swap_records_sys_io
    read_record read write window overlay ℕ_discrete small
small_sorted = refl

perform_bubble_sort-file_example :
    ((f' : File) × (perform_bubble_sort (sys_io 2) first_byte 3 (seek 0 small) ≡ some f')
      × (f'.size ≡ small.size)
      × Ordered first_byte 3 (record_at 2 small) (record_at 2 f'))
    × ((f' : File) × (perform_bubble_sort (std_io 2) first_byte 3 (seek 0 small) ≡ some f')
        × (f'.size ≡ small.size)
        × Ordered first_byte 3 (record_at 2 small) (record_at 2 f'))
unfolding small
perform_bubble_sort-file_example = perform_bubble_sort-file 2 3 (omega arith) small refl
