-- ===== src/RecordSort/Files/Laws.antt =====
-- Both sets of operations of lab2/zad1/src/bubble_sorter.c keep what the sort expects, and with
-- either the program sorts the file.
use sysopy.Common.{
  ℕ, ◌+◌, ◌*◌, ◌≤◌, ◌<◌, ◌≡◌, ◌≢◌, refl, some, List, arith, ℕ_discrete, sym, ap, ◌∙◌,
}
use native.Mathlib.Nat.{add-mul, one-mul}
use sysopy.Common.Family.{total_congr}
use sysopy.RecordSort.{perform_bubble_sort}
use sysopy.RecordSort.Interface.{exchange, Obeys}
use sysopy.RecordSort.Pass.{exchange-left, exchange-right, exchange-apart}
use sysopy.RecordSort.Sorted.{Ordered, perform_bubble_sort-Ordered}
use sysopy.RecordSort.Files.{
  File, window, seek, get_next_record_std_io, sys_io, std_io, record_at, first_byte,
}
use sysopy.RecordSort.Files.Swap.{
  before, read_record-inside, get_next_record_sys_io-inside, swapped, swap-swapped, std_io-sys_io,
  record_at-swapped,
}

module _ (len num : ℕ) (positive : 0 < len) where
  record Holds (f : File) (rs : ℕ → List ℕ) (p : ℕ) : Type 0 where
    size : f.size ≡ num * len
    pos : f.pos ≡ p * len
    records : (k : ℕ) → k < num → record_at len f k ≡ rs k

  Holds-next :
      {f : File} {rs : ℕ → List ℕ} {p : ℕ}
      → Holds f rs p
      → p < num
      → (f.pos + len ≤ f.size)
        × (window f.content f.pos len ≡ rs p)
        × Holds (record f { pos = f.pos + len }) rs (p + 1)
  Holds-next {f} {rs} {p} h lt = (
    omega (arith, h.size, h.pos, before len num positive p num lt),
    ap (λ at. window f.content at len) h.pos ∙ h.records p lt,
    record {
      size = h.size;
      pos = omega (arith, h.pos, add-mul p 1 len, one-mul len);
      records = h.records;
    },
  )

  Holds-swapped :
      {f : File} {rs : ℕ → List ℕ} {p : ℕ} (a b : ℕ)
      → Holds f rs p
      → a < num
      → b < num
      → a ≢ b
      → Holds (swapped len num positive a b f) (exchange rs a b) p
  Holds-swapped {f} {rs} a b h lt lt' ne = record {
    size = h.size;
    pos = h.pos;
    records = λ k lt''. record_at-swapped len num positive f a b k ne ∙ exchange_congr k lt'';
  }
    where
      exchange_congr : (k : ℕ) → k < num → exchange (record_at len f) a b k ≡ exchange rs a b k
      exchange_congr k lt'' = elim (ℕ_discrete b k) [
        | yes at_b ↦
            rw (← at_b)
              (exchange-right (record_at len f) a b ∙ h.records a lt ∙ sym (exchange-right rs a b))
        | no not_b ↦ elim (ℕ_discrete a k) [
          | yes at_a ↦ rw (← at_a) (
              exchange-left (record_at len f) a b ne
              ∙ h.records b lt'
              ∙ sym (exchange-left rs a b ne))
          | no not_a ↦
              exchange-apart (record_at len f) a b k not_a not_b
              ∙ h.records k lt''
              ∙ sym (exchange-apart rs a b k not_a not_b)
        ]
      ]

  Holds-start : {f : File} {rs : ℕ → List ℕ} {p : ℕ} → Holds f rs p → Holds (seek 0 f) rs 0
  Holds-start h = record { size = h.size; pos = omega (arith); records = h.records }

  -- The operations with system calls.
  sys_io-Obeys : Obeys (sys_io len) num Holds
  sys_io-Obeys = record {
    next = λ {s = f} {f = rs} {p = p} h lt.
        let (inside, same, h') = Holds-next h lt in
        (
          record f { pos = f.pos + len },
          get_next_record_sys_io-inside len num positive f inside ∙ rw same refl,
          h',
        );
    swap = λ {s = f} a b h lt lt' ne. (
      swapped len num positive a b f,
      swap-swapped len num positive f a b h.size lt lt',
      Holds-swapped a b h lt lt' ne,
    );
    rewind = λ {s = f} h. (seek 0 f, refl, Holds-start h);
  }

  -- Those of the C library.
  std_io-Obeys : Obeys (std_io len) num Holds
  unfolding get_next_record_std_io
  std_io-Obeys = record {
    next = λ {s = f} {f = rs} {p = p} h lt.
        let (inside, same, h') = Holds-next h lt in
        (
          record f { pos = f.pos + len },
          read_record-inside len num positive f inside ∙ rw same refl,
          h',
        );
    swap = λ {s = f} a b h lt lt' ne. (
      swapped len num positive a b f,
      std_io-sys_io len num positive f a b ∙ swap-swapped len num positive f a b h.size lt lt',
      Holds-swapped a b h lt lt' ne,
    );
    rewind = λ {s = f} h. (seek 0 f, refl, Holds-start h);
  }

  Ordered-record_at :
      (f f' : File) (rs : ℕ → List ℕ)
      → Ordered first_byte num (record_at len f) rs
      → ((k : ℕ) → k < num → record_at len f' k ≡ rs k)
      → Ordered first_byte num (record_at len f) (record_at len f')
  Ordered-record_at f f' rs ordered is_rs = record {
    in_order = λ i j le lt. rw (is_rs i (omega arith), is_rs j lt) (ordered.in_order i j le lt);
    same = λ w. total_congr w num (record_at len f') rs is_rs ∙ ordered.same w;
  }

  -- With system calls as with the C library, the program sorts a file that consists of `num`
  -- records of at least one byte: it ends well, the file keeps its size, and its records are those
  -- that were there, each as often as then, ordered by their first bytes.
  pub perform_bubble_sort-file :
      (f : File)
      → f.size ≡ num * len
      → ((f' : File) × (perform_bubble_sort (sys_io len) first_byte num (seek 0 f) ≡ some f')
          × (f'.size ≡ f.size)
          × Ordered first_byte num (record_at len f) (record_at len f'))
        × ((f' : File) × (perform_bubble_sort (std_io len) first_byte num (seek 0 f) ≡ some f')
            × (f'.size ≡ f.size)
            × Ordered first_byte num (record_at len f) (record_at len f'))
  perform_bubble_sort-file f size =
      let (f1, g1, p1, e1, h1, o1) =
        perform_bubble_sort-Ordered (sys_io len) first_byte num sys_io-Obeys opened in
      let (f2, g2, p2, e2, h2, o2) =
        perform_bubble_sort-Ordered (std_io len) first_byte num std_io-Obeys opened in
      (
        (f1, e1, h1.size ∙ sym size, Ordered-record_at f f1 g1 o1 h1.records),
        (f2, e2, h2.size ∙ sym size, Ordered-record_at f f2 g2 o2 h2.records),
      )
    where
      opened : Holds (seek 0 f) (record_at len f) 0
      opened = record { size = size; pos = omega arith; records = λ k lt. refl }
