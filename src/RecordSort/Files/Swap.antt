-- ===== src/RecordSort/Files/Swap.antt =====
-- One record of a file of lab2/zad1/src/bubble_sorter.c read, and two records swapped.
use sysopy.Common.{
  ℕ, ◌+◌, ◌*◌, ◌≤◌, ◌<◌, ◌≡◌, ◌≢◌, ◌⊎◌, inl, inr, refl, some, List, length, arith, ℕ_discrete,
  dec_lt, sym, ap, ◌∙◌,
}
use native.Mathlib.Nat.{mul-le-mul, add-mul, one-mul}
use sysopy.RecordSort.Interface.{exchange}
use sysopy.RecordSort.Pass.{exchange-left, exchange-right, exchange-apart}
use sysopy.RecordSort.Files.{
  File, window, overlay, seek, read, write, read_record, swap_records_sys_io, swap_records_std_io,
  get_next_record_sys_io, record_at,
}
use sysopy.RecordSort.Files.Bytes.{length-window, window-overlay, window-overlay_apart}

module _ (len num : ℕ) (positive : 0 < len) where
  -- Record `a` ends before record `b` begins.
  pub before : (a b : ℕ) → a < b → a * len + len ≤ b * len
  before a b lt =
      let below : a + 1 ≤ b = omega arith in
      let same : len ≤ len = omega arith in
      omega (arith, mul-le-mul below same, add-mul a 1 len, one-mul len)

  pub read_record-inside :
      (f : File)
      → f.pos + len ≤ f.size
      → read_record len f ≡ some (window f.content f.pos len, record f { pos = f.pos + len })
  unfolding read_record read
  read_record-inside f inside = ground (arith, length-window f.content f.pos len)

  pub get_next_record_sys_io-inside :
      (f : File)
      → f.pos + len ≤ f.size
      → get_next_record_sys_io len 2 f
        ≡ some (window f.content f.pos len, record f { pos = f.pos + len })
  unfolding get_next_record_sys_io read
  get_next_record_sys_io-inside f inside = ground (arith, length-window f.content f.pos len)

  apart : (a k : ℕ) → a ≢ k → (k * len + len ≤ a * len) ⊎ (a * len + len ≤ k * len)
  apart a k ne = elim (dec_lt k a) [
    | yes lt ↦ inl (before k a lt)
    | no ge ↦ inr (before a k (omega arith))
  ]

  write-inside :
      (buffer : List ℕ) (f : File)
      → length buffer ≡ len
      → f.pos + len ≤ f.size
      → write buffer f ≡ record f { content = overlay f.content f.pos buffer; pos = f.pos + len }
  unfolding write
  write-inside buffer f e inside = ground (arith, e)

  -- The file after a swap.
  abbrev pub swapped : ℕ → ℕ → File → File
  swapped a b f = record f {
    content =
        overlay (overlay f.content (a * len) (record_at len f b)) (b * len) (record_at len f a);
  }

  pub swap-swapped :
      (f : File) (a b : ℕ)
      → f.size ≡ num * len
      → a < num
      → b < num
      → swap_records_sys_io len a b f ≡ some (swapped a b f)
  unfolding swap_records_sys_io
  swap-swapped f a b size lt lt' =
      let a_in : a * len + len ≤ f.size = omega (arith, before a num lt, size) in
      let b_in : b * len + len ≤ f.size = omega (arith, before b num lt', size) in
      let front : List ℕ = record_at len f a in
      let back : List ℕ = record_at len f b in
      let between : File = record f {
        content = overlay f.content (a * len) back;
        pos = a * len + len;
      } in
      rw
        (
          read_record-inside (seek (a * len) f) a_in,
          read_record-inside (seek (b * len) (record f { pos = a * len + len })) b_in,
        )
        (ap (λ (f3 : File). some (seek f.pos (write front (seek (b * len) f3))))
            (write-inside back (record f { pos = a * len }) (length-window f.content (b * len) len)
              a_in)
          ∙ ap (λ (f4 : File). some (seek f.pos f4))
              (write-inside front (seek (b * len) between) (length-window f.content (a * len) len)
                b_in))

  -- The two swaps are the same steps.
  pub std_io-sys_io :
      (f : File) (a b : ℕ) → swap_records_std_io len a b f ≡ swap_records_sys_io len a b f
  unfolding swap_records_std_io swap_records_sys_io
  std_io-sys_io f a b = refl

  -- The records after a swap.
  pub record_at-swapped :
      (f : File) (a b k : ℕ)
      → a ≢ b
      → record_at len (swapped a b f) k ≡ exchange (record_at len f) a b k
  record_at-swapped f a b k ne = elim (ℕ_discrete b k) [
    | yes at_b ↦ rw (← at_b) (
        window-overlay (overlay f.content (a * len) (record_at len f b)) (b * len)
          (record_at len f a) len (length-window f.content (a * len) len)
        ∙ sym (exchange-right (record_at len f) a b))
    | no not_b ↦
        window-overlay_apart (overlay f.content (a * len) (record_at len f b)) (b * len)
          (record_at len f a) (k * len) len
          (clear b k (record_at len f a) not_b (length-window f.content (a * len) len))
        ∙ elim (ℕ_discrete a k) [
          | yes at_a ↦ rw (← at_a) (
              window-overlay f.content (a * len) (record_at len f b) len
                (length-window f.content (b * len) len)
              ∙ sym (exchange-left (record_at len f) a b ne))
          | no not_a ↦
              window-overlay_apart f.content (a * len) (record_at len f b) (k * len) len
                (clear a k (record_at len f b) not_a (length-window f.content (b * len) len))
              ∙ sym (exchange-apart (record_at len f) a b k not_a not_b)
        ]
  ]
    where
      clear :
          (c k : ℕ) (bs : List ℕ)
          → c ≢ k
          → length bs ≡ len
          → (k * len + len ≤ c * len) ⊎ (c * len + length bs ≤ k * len)
      clear c k bs ne' e = elim (apart c k ne') [
        | inl below ↦ inl below
        | inr above ↦ inr (omega (arith, e))
      ]
