-- ===== src/TimeFormat/Tests.antt =====
-- The theorems about lab7/zad1/src/common.c at concrete times.
use sysopy.Common.{
  ℕ, ◌%◌, ◌/◌, ◌<◌, ◌≡◌, ◌≢◌, refl, some, List, [], ◌∷◌, get_elem?, length, ◌>>=◌, arith, replicate,
}
use sysopy.TimeFormat.{Tm, format_hour, timestamp_with_millis}
use sysopy.TimeFormat.Digits.{
  digit_value, read_hour, read_hour-format_hour, timestamp_digits, timestamp_hundreds,
}

abbrev evening : Tm
evening = record { hour = 21; min = 7; sec = 30 }

-- 21:07:30:0xx and not 21:07:30:999
stamp :
    timestamp_with_millis evening 999_000 (replicate 4 0)
    ≡ b'2' ∷ b'1' ∷ b':' ∷ b'0' ∷ b'7' ∷ b':' ∷ b'3' ∷ b'0' ∷ b':' ∷ b'1' ∷ b'9' ∷ b'9' ∷ 0 ∷ []
unfolding timestamp_with_millis
stamp = refl

read_hour-format_hour_example : read_hour (format_hour evening) ≡ some evening
read_hour-format_hour_example =
    read_hour-format_hour evening (omega arith) (omega arith) (omega arith)

evening_digits :
    let buf : List ℕ = timestamp_with_millis evening 250_000 (replicate 4 0) in
    (length buf ≡ 13)
    × ((i : ℕ) → i < 8 → get_elem? buf i ≡ get_elem? (format_hour evening) i)
    × (get_elem? buf 8 ≡ some b':')
    × ((get_elem? buf 10 >>= digit_value) ≡ some (250_000 / 1000 % 100 / 10))
    × ((get_elem? buf 11 >>= digit_value) ≡ some (250_000 / 1000 % 10))
    × (get_elem? buf 12 ≡ some 0)
evening_digits = timestamp_digits evening 250_000 (replicate 4 0) refl (omega arith)

evening_hundreds :
    (get_elem? (timestamp_with_millis evening 250_000 (replicate 4 0)) 9 >>= digit_value)
    ≢ some (250_000 / 1000 / 100)
evening_hundreds =
    timestamp_hundreds evening 250_000 (replicate 4 0) refl (omega arith) (omega arith)
