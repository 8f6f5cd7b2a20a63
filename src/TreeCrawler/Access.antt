-- ===== src/TreeCrawler/Access.antt =====
-- compare_access of lab2/zad2/src/file_tree_crawler.c with a template that verify_access_template
-- lets pass.
use sysopy.Common.{
  ℕ, zero, suc, ◌<◌, ◌≡◌, ◌≢◌, ◌↔◌, refl, Bool, true, false, ◌||◌, ◌==◌, some, List, [], ◌∷◌,
  get_elem?, arith,
}
use sysopy.DirectoryCount.{Mode}
use sysopy.TreeCrawler.{refuses, none_holds, compare_access, verify_from, verify_access_template}

-- The bytes of the template and the 0 behind them.
abbrev pub byte_at : List ℕ → ℕ → ℕ
byte_at [] i = 0
byte_at (c ∷ cs) zero = c
byte_at (c ∷ cs) (suc i) = byte_at cs i

abbrev letters : List ℕ
letters = b'r' ∷ b'w' ∷ b'x' ∷ b'r' ∷ b'w' ∷ b'x' ∷ b'r' ∷ b'w' ∷ b'x' ∷ []

-- The template grants each permission that the file gives.
abbrev pub Granted : List ℕ → Mode → Type 0
Granted templ m =
    (m.user_read ≡ true → byte_at templ 0 ≢ b'-')
    × ((m.user_write ≡ true → byte_at templ 1 ≢ b'-')
        × ((m.user_execute ≡ true → byte_at templ 2 ≢ b'-')
            × ((m.group_read ≡ true → byte_at templ 3 ≢ b'-')
                × ((m.group_write ≡ true → byte_at templ 4 ≢ b'-')
                    × ((m.group_execute ≡ true → byte_at templ 5 ≢ b'-')
                        × ((m.other_read ≡ true → byte_at templ 6 ≢ b'-')
                            × ((m.other_write ≡ true → byte_at templ 7 ≢ b'-')
                                × ((m.other_execute ≡ true → byte_at templ 8 ≢ b'-')))))))))

verify_from-byte :
    (letters templ : List ℕ) (i l : ℕ)
    → verify_from letters templ ≡ true
    → get_elem? letters i ≡ some l
    → (byte_at templ i == l || byte_at templ i == b'-') ≡ true
verify_from-byte [] templ i l ok at = absurd cc
verify_from-byte (k ∷ letters) [] i l ok at = absurd cc
verify_from-byte (k ∷ letters) (c ∷ templ) zero l ok at = let same : k ≡ l = cc in ground arith
verify_from-byte (k ∷ letters) (c ∷ templ) (suc i) l ok at =
    verify_from-byte letters templ i l (ground arith) at

grants :
    (set : Bool) (got letter : ℕ)
    → 45 < letter
    → (got == letter || got == b'-') ≡ true
    → (refuses set got letter ≡ false) ↔ (set ≡ true → got ≢ b'-')
grants true got letter large ok = ground arith
grants false got letter large ok = (λ _ e. absurd cc, λ _. refl)

none_holds-cons :
    {P Q : Type 0} (test : Bool) (tests : List Bool)
    → (test ≡ false) ↔ P
    → (none_holds tests ≡ true) ↔ Q
    → (none_holds (test ∷ tests) ≡ true) ↔ (P × Q)
none_holds-cons false tests one others = (λ e. (one.0 refl, others.0 e), λ both. others.1 both.1)
none_holds-cons true tests one others =
    (λ e. absurd cc, λ both. let bad : true ≡ false = one.1 both.0 in absurd cc)

none_holds-one :
    {P : Type 0} (test : Bool) → (test ≡ false) ↔ P → (none_holds (test ∷ []) ≡ true) ↔ P
none_holds-one false one = (λ e. one.0 refl, λ p. refl)
none_holds-one true one = (λ e. absurd cc, λ p. let bad : true ≡ false = one.1 p in absurd cc)

module _ (templ : List ℕ) (ok : verify_access_template templ ≡ true) where
  granted :
      (set : Bool) (i l : ℕ)
      → 45 < l
      → get_elem? letters i ≡ some l
      → (refuses set (byte_at templ i) l ≡ false) ↔ (set ≡ true → byte_at templ i ≢ b'-')
  unfolding verify_access_template
  granted set i l large at =
      grants set (byte_at templ i) l large (verify_from-byte letters templ i l ok at)

  -- With a template that passes verify_access_template, compare_access accepts a file exactly when
  -- the template has no dash for any permission that the file gives.
  pub compare_access-Granted :
      (m : Mode) → (compare_access (byte_at templ) m ≡ true) ↔ Granted templ m
  unfolding compare_access
  compare_access-Granted m = none_holds-cons _ _ (granted m.user_read 0 b'r' (omega arith) refl) (
      none_holds-cons _ _ (granted m.user_write 1 b'w' (omega arith) refl) (
        none_holds-cons _ _ (granted m.user_execute 2 b'x' (omega arith) refl) (
          none_holds-cons _ _ (granted m.group_read 3 b'r' (omega arith) refl) (
            none_holds-cons _ _ (granted m.group_write 4 b'w' (omega arith) refl) (
              none_holds-cons _ _ (granted m.group_execute 5 b'x' (omega arith) refl) (
                none_holds-cons _ _ (granted m.other_read 6 b'r' (omega arith) refl) (
                  none_holds-cons _ _ (granted m.other_write 7 b'w' (omega arith) refl)
                    (none_holds-one _ (granted m.other_execute 8 b'x' (omega arith) refl)))))))))
