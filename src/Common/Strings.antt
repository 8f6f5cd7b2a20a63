-- ===== src/Common/Strings.antt =====
-- C strings as lists of bytes, for the labs that search or send them.
use Prim.Native.Nat.{ℕ}
use mathlib.Core.Bool.{Bool, true, false, ◌&&◌, ◌||◌}
use mathlib.Core.List.{List, [], ◌∷◌}
use sysopy.Common.Tests.{◌==◌, if◌then◌else◌}

-- `strstr`, as far as whether there is an occurrence
abbrev starts_with : List ℕ → List ℕ → Bool
starts_with [] cs = true
starts_with (p ∷ ps) [] = false
starts_with (p ∷ ps) (c ∷ cs) = p == c && starts_with ps cs

abbrev pub contains : List ℕ → List ℕ → Bool
contains pattern_ [] = starts_with pattern_ []
contains pattern_ (c ∷ cs) = starts_with pattern_ (c ∷ cs) || contains pattern_ cs

-- The bytes up to the first 0, which `strlen` counts
abbrev pub c_string : List ℕ → List ℕ
c_string [] = []
c_string (c ∷ cs) = let rest = c_string cs in if c == 0 then [] else c ∷ rest

-- `!strcmp(a, b)`
abbrev pub same_text : List ℕ → List ℕ → Bool
same_text [] [] = true
same_text [] (d ∷ ds) = false
same_text (c ∷ cs) [] = false
same_text (c ∷ cs) (d ∷ ds) = c == d && same_text cs ds
