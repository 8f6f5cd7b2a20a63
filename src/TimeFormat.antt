-- ===== src/TimeFormat.antt =====
-- The time stamps of the labs: `format_hour` and `get_timestamp_with_millis` of
-- lab7/zad1/src/common.c. A character is its code; a buffer is the list of its bytes, so a C string
-- is the part before the first 0.

pub mod Digits
mod Tests
use sysopy.Common.{ℕ, ◌+◌, ◌/◌, ◌%◌, List, [], ◌∷◌, set, replicate}
use Prim.Native.Nat.{bit_and}

-- The fields of `struct tm` that are read.
pub record Tm : Type 0 where
  pub hour : ℕ
  pub min : ℕ
  pub sec : ℕ

-- `'0' + n`, stored in a char
abbrev pub digit : ℕ → ℕ
digit n = (b'0' + n) % 256

-- The nine bytes of `format_hour`.
pub format_hour : Tm → List ℕ
format_hour t =
    digit (t.hour / 10)
    ∷ digit (t.hour % 10)
    ∷ b':'
    ∷ digit (t.min / 10)
    ∷ digit (t.min % 10)
    ∷ b':'
    ∷ digit (t.sec / 10)
    ∷ digit (t.sec % 10)
    ∷ 0
    ∷ []

-- `realloc` to 13 bytes keeps the first nine; the four behind them are `fresh`.
abbrev grow : List ℕ → List ℕ → List ℕ
grow [] fresh = fresh
grow (c ∷ cs) fresh = c ∷ grow cs fresh

-- The writes behind the hour, in the order of the source. `usec` is `tv_usec`.
pub timestamp_with_millis : Tm → ℕ → List ℕ → List ℕ
unfolding format_hour
timestamp_with_millis t usec fresh =
    let millis = usec / 1000 in
    let buf0 = grow (format_hour t) fresh in
    let buf1 = set buf0 12 0 in
    let buf2 = set buf1 11 (digit (millis % 10)) in
    let buf3 = set buf2 10 (digit (millis % 100 / 10)) in
    let buf4 = set buf3 9 (digit (bit_and millis 100 / 100)) in set buf4 8 b':'
