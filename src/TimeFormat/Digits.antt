-- ===== src/TimeFormat/Digits.antt =====
-- What the buffers of lab7/zad1/src/common.c say about the time that they stand for.
use sysopy.Common.{
  ℕ, zero, suc, ◌+◌, ◌-◌, ◌*◌, ◌%◌, ◌/◌, ◌≤◌, ◌<◌, ◌≡◌, ◌≢◌, refl, Bool, true, false, ◌&&◌, Option,
  none, some, List, [], ◌∷◌, leb, ◌==◌, if◌then◌else◌, ◌>>=◌, get_elem?, length, arith, ℕ_discrete,
  ap, sym, ◌∙◌, ◌++◌, get_elem?-append_left,
}
use Prim.Native.Nat.{bit_and}
use sysopy.TimeFormat.{Tm, digit, format_hour, timestamp_with_millis}

-- The value of a decimal digit.
abbrev pub digit_value : ℕ → Option ℕ
digit_value c = if leb b'0' c && leb c b'9' then some (c - b'0') else none

abbrev two_digits : ℕ → ℕ → Option ℕ
two_digits c c' = do tens ← digit_value c; units ← digit_value c'; some (10 * tens + units)

-- Reads a C string of the form HH:MM:SS.
pub read_hour : List ℕ → Option Tm
read_hour (a ∷ b ∷ c ∷ d ∷ e ∷ f ∷ g ∷ h ∷ z ∷ []) =
    if c == b':' && f == b':' && z == 0
    then (do
      hour ← two_digits a b
      min ← two_digits d e
      sec ← two_digits g h
      some (record { hour = hour; min = min; sec = sec }))
    else none
read_hour _ = none

digit_value-digit : (n : ℕ) → n < 10 → digit_value (digit n) ≡ some n
digit_value-digit n h = ground arith

two_digits-digit : (n : ℕ) → n < 100 → two_digits (digit (n / 10)) (digit (n % 10)) ≡ some n
two_digits-digit n h =
    rw (digit_value-digit (n / 10) (omega arith), digit_value-digit (n % 10) (omega arith))
      (ap some (omega arith))

-- Of an hour, a minute and a second below 100 `format_hour` makes a C string of the form HH:MM:SS
-- that reads back as them.
pub read_hour-format_hour :
    (t : Tm) → t.hour < 100 → t.min < 100 → t.sec < 100 → read_hour (format_hour t) ≡ some t
unfolding read_hour format_hour
read_hour-format_hour t h m s =
    rw (two_digits-digit t.hour h, two_digits-digit t.min m, two_digits-digit t.sec s)

-- The test holds of every number below the bound.
every : (ℕ → Bool) → ℕ → Bool
every test zero = true
every test (suc bound) = if test bound then every test bound else false

every-holds :
    (test : ℕ → Bool) (bound : ℕ) → every test bound ≡ true → (m : ℕ) → m < bound → test m ≡ true
unfolding every
every-holds test zero all m small = absurd (omega arith)
every-holds test (suc bound) all m small = elim (ℕ_discrete m bound) [
  | yes last ↦ rw last (ground arith)
  | no before ↦ every-holds test bound (ground arith) m (omega arith)
]

masked_table : every (λ m. leb (bit_and m 100 / 100) 1) 1000 ≡ true
unfolding every
masked_table = refl

masked-le-one : (m : ℕ) → m < 1000 → bit_and m 100 / 100 ≤ 1
masked-le-one m h = ground (arith, every-holds _ 1000 masked_table m h)

-- The eight characters of the hour.
abbrev format_hour_front : Tm → List ℕ
format_hour_front t =
    digit (t.hour / 10)
    ∷ digit (t.hour % 10)
    ∷ b':'
    ∷ digit (t.min / 10)
    ∷ digit (t.min % 10)
    ∷ b':'
    ∷ digit (t.sec / 10)
    ∷ digit (t.sec % 10)
    ∷ []

same_front :
    (xs ys zs : List ℕ) (i : ℕ) → i < length xs → get_elem? (xs ++ ys) i ≡ get_elem? (xs ++ zs) i
same_front xs ys zs i h = get_elem?-append_left xs ys i h ∙ sym (get_elem?-append_left xs zs i h)

-- For fewer than a million microseconds the time stamp has 13 bytes: the first eight are those of
-- `format_hour`, then comes a colon, the digits behind the hundreds are the two lower digits of
-- the milliseconds, and the last byte ends the string.
pub timestamp_digits :
    (t : Tm) (usec : ℕ) (fresh : List ℕ)
    → length fresh ≡ 4
    → usec < 1_000_000
    → let buf : List ℕ = timestamp_with_millis t usec fresh in
      (length buf ≡ 13)
      × ((i : ℕ) → i < 8 → get_elem? buf i ≡ get_elem? (format_hour t) i)
      × (get_elem? buf 8 ≡ some b':')
      × ((get_elem? buf 10 >>= digit_value) ≡ some (usec / 1000 % 100 / 10))
      × ((get_elem? buf 11 >>= digit_value) ≡ some (usec / 1000 % 10))
      × (get_elem? buf 12 ≡ some 0)
unfolding timestamp_with_millis
timestamp_digits t usec (a ∷ b ∷ c ∷ d ∷ []) size small = (
  refl,
  same_front (format_hour_front t) (b':' ∷ tail) (0 ∷ []),
  refl,
  digit_value-digit _ (omega arith),
  digit_value-digit _ (omega arith),
  refl,
)
  where
    tail : List ℕ
    tail =
        digit (bit_and (usec / 1000) 100 / 100)
        ∷ digit (usec / 1000 % 100 / 10)
        ∷ digit (usec / 1000 % 10)
        ∷ 0
        ∷ []
timestamp_digits t usec fresh size small = absurd (omega (arith, size))

-- From 200 milliseconds on, up to a second, the digit of the hundreds is not that of the
-- milliseconds, whatever the time.
pub timestamp_hundreds :
    (t : Tm) (usec : ℕ) (fresh : List ℕ)
    → length fresh ≡ 4
    → 200_000 ≤ usec
    → usec < 1_000_000
    → (get_elem? (timestamp_with_millis t usec fresh) 9 >>= digit_value) ≢ some (usec / 1000 / 100)
unfolding timestamp_with_millis
timestamp_hundreds t usec (a ∷ b ∷ c ∷ d ∷ []) size large small e = absurd (
    ground (
      arith,
      masked-le-one (usec / 1000) (omega arith),
      digit_value-digit (bit_and (usec / 1000) 100 / 100),
    ))
timestamp_hundreds t usec fresh size large small e = absurd (omega (arith, size))
