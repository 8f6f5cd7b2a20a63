-- ===== src/Prime.antt =====
-- The primality test of lab 7's consumer (lab7/zad1/src/consumer.c). The loop runs on fuel, and
-- `none` means that the fuel ran out; n + 1 rounds are enough. The numbers come from producer.c and
-- are at most NUM_MAX = 10000, so that `i * i` stays far below the range of an `int`.
pub mod Correct
mod Tests
use sysopy.Common.{
  ℕ, zero, suc, ◌+◌, ◌*◌, ◌%◌, Bool, true, false, Option, none, some, leb, ◌==◌, if◌then◌else◌,
}

-- `for(int i = …; i * i <= n; ++i)`, from a given `i`
pub prime_loop : ℕ → ℕ → ℕ → Option Bool
prime_loop zero i n = none
prime_loop (suc fuel) i n =
    let rest = prime_loop fuel (i + 1) n in
    if leb (i * i) n then (if n % i == 0 then some false else rest) else some true

pub prime : ℕ → Option Bool
prime n = prime_loop (n + 1) 2 n
