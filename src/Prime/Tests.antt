-- ===== src/Prime/Tests.antt =====
-- The theorems about lab7/zad1/src/consumer.c at concrete numbers.
use sysopy.Common.{◌≡◌, refl, some, true, false, arith}
use sysopy.Prime.{prime, prime_loop}
use sysopy.Prime.Correct.{Decides, prime-Decides, prime-below_two}

ninety_seven : prime 97 ≡ some true
unfolding prime prime_loop
ninety_seven = refl

-- the largest number that producer.c makes
ten_thousand : prime 10_000 ≡ some false
unfolding prime prime_loop
ten_thousand = refl

prime-Decides_example : Decides (prime 91) 91
prime-Decides_example = prime-Decides 91 (omega arith)

prime_one : prime 1 ≡ some true
prime_one = prime-below_two 1 (omega arith)
