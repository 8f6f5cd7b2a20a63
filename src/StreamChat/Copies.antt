-- ===== src/StreamChat/Copies.antt =====
-- To whom the server of lab10/zad2/src/server.c passes a message on.
use sysopy.Common.{
  ℕ, zero, suc, ◌+◌, ◌-◌, ◌<◌, ◌≡◌, ◌≢◌, refl, sym, ap, ◌∙◌, Bool, length, replicate, true, false,
  ◌&&◌, not, ◌==◌, Bool-cases, inl, inr, if◌then◌else◌, none, some, List, [], ◌∷◌, ◌++◌, get_elem?,
  arith,
}
use mathlib.Core.Path.{subst}
use sysopy.Common.Strings.{c_string}
use sysopy.StreamChat.{SocketSlot, Server, copy_to, all_copies, buf_size, fill_buf, receive, Reach}
use sysopy.StreamChat.Slots.{Held, AllFds, Distinct}
use sysopy.StreamChat.Watch.{Reach-Watched}

abbrev pub Sent : Type 0
Sent = List (ℕ × List ℕ)

-- How many of the messages went to `fd`.
abbrev pub times : ℕ → Sent → ℕ
times fd [] = 0
times fd (m ∷ ms) = let rest = times fd ms in if m.0 == fd then suc rest else rest

abbrev pub AllText : List ℕ → Sent → Type 0
AllText text [] = Unit {0}
AllText text (m ∷ ms) = (m.1 ≡ text) × AllText text ms

==_refl : (a : ℕ) → (a == a) ≡ true
==_refl a = ground arith

==_apart : (a b : ℕ) → a ≢ b → (b == a) ≡ false
==_apart a b ne = ground arith

module _ (inet i : ℕ) (text : List ℕ) where
  copy_to-AllText :
      (j : ℕ) (s : SocketSlot) (rest : Sent)
      → AllText (text ++ 0 ∷ []) rest
      → AllText (text ++ 0 ∷ []) (copy_to inet i j s text rest)
  copy_to-AllText j none rest all = all
  copy_to-AllText j (some fd) rest all = elim (Bool-cases (not (j == i) && not (fd == inet))) [
    | inl e ↦ rw e (refl, all)
    | inr e ↦ rw e all
  ]

  all_copies-AllText :
      (j : ℕ) (slots : List SocketSlot) → AllText (text ++ 0 ∷ []) (all_copies inet i j slots text)
  all_copies-AllText j [] = tt
  all_copies-AllText j (s ∷ slots) =
      copy_to-AllText j s (all_copies inet i (suc j) slots text) (all_copies-AllText (suc j) slots)

  -- A copy to another slot does not count.
  times-copy_to_apart :
      (g j : ℕ) (s : SocketSlot) (rest : Sent)
      → Held (λ h. g ≢ h) s
      → times g (copy_to inet i j s text rest) ≡ times g rest
  times-copy_to_apart g j none rest ne = refl
  times-copy_to_apart g j (some fd) rest ne = elim (Bool-cases (not (j == i) && not (fd == inet))) [
    | inl e ↦ rw (e, ==_apart g fd ne) refl
    | inr e ↦ rw e refl
  ]

  times_apart :
      (g j : ℕ) (slots : List SocketSlot)
      → AllFds (λ h. g ≢ h) slots
      → times g (all_copies inet i j slots text) ≡ 0
  times_apart g j [] all = refl
  times_apart g j (s ∷ slots) all =
      times-copy_to_apart g j s (all_copies inet i (suc j) slots text) all.0
      ∙ times_apart g (suc j) slots all.1

  get_elem?-AllFds :
      (P : ℕ → Type 0) (slots : List SocketSlot) (m g : ℕ)
      → AllFds P slots
      → get_elem? slots m ≡ some (some g)
      → P g
  get_elem?-AllFds P [] m g all held = absurd cc
  get_elem?-AllFds P (none ∷ slots) zero g all held = absurd cc
  get_elem?-AllFds P (some fd ∷ slots) zero g all held =
      let same : fd ≡ g = cc in subst P same all.0
  get_elem?-AllFds P (s ∷ slots) (suc m) g all held = get_elem?-AllFds P slots m g all.1 held

  head_apart :
      (s : SocketSlot) (slots : List SocketSlot) (m g : ℕ)
      → Held (λ fd. AllFds (λ h. fd ≢ h) slots) s
      → get_elem? slots m ≡ some (some g)
      → Held (λ h. g ≢ h) s
  head_apart none slots m g apart held = tt
  head_apart (some fd) slots m g apart held =
      λ e. get_elem?-AllFds (λ h. fd ≢ h) slots m g apart held (sym e)

  times-held :
      (g j m : ℕ) (slots : List SocketSlot)
      → Distinct slots
      → get_elem? slots m ≡ some (some g)
      → times g (all_copies inet i j slots text)
        ≡ (if not (j + m == i) && not (g == inet) then 1 else 0)
  times-held g j m [] distinct held = absurd cc
  times-held g j zero (none ∷ slots) distinct held = absurd cc
  times-held g j zero (some fd ∷ slots) distinct held =
      let same : fd ≡ g = cc in
      let away : AllFds (λ h. g ≢ h) slots =
        subst (λ f. AllFds (λ h. f ≢ h) slots) same distinct.0 in
      let none_left = times_apart g (suc j) slots away in
      let from : j + 0 ≡ j = omega arith in
      elim (Bool-cases (not (j == i) && not (g == inet))) [
        | inl e ↦ rw (same, from, e, ==_refl g, none_left) refl
        | inr e ↦ rw (same, from, e, none_left) refl
      ]
  times-held g j (suc m) (s ∷ slots) distinct held =
      let up : suc j + m ≡ j + suc m = omega arith in
      times-copy_to_apart g j s (all_copies inet i (suc j) slots text)
        (head_apart s slots m g distinct.0 held)
      ∙ times-held g (suc j) m slots distinct.1 held
      ∙ rw up refl

-- The text ends before what lies behind the buffer.
c_string-ends :
    (bytes : List ℕ) (k : ℕ) (behind : List ℕ)
    → c_string ((bytes ++ replicate (suc k) 0) ++ behind) ≡ c_string bytes
c_string-ends [] k behind = refl
c_string-ends (c ∷ cs) k behind = rw (c_string-ends cs k behind) refl

fill_buf-c_string :
    (bytes behind : List ℕ)
    → length bytes < buf_size
    → c_string (fill_buf bytes ++ behind) ≡ c_string bytes
fill_buf-c_string bytes behind short =
    let room : buf_size - length bytes ≡ suc (buf_size - length bytes - 1) = omega arith in
    rw room (c_string-ends bytes (buf_size - length bytes - 1) behind)

-- For a message that is shorter than the buffer, from the client in slot `i`, in any state that the
-- server reaches, send is called once for each other socket of the table but the one that listens
-- on the internet, with the text up to its first 0 byte and that byte. The socket that listens in
-- the Unix domain is among those for which it is called.
pub receive-copies :
    (fd_clr : (ℕ → Bool) → ℕ → Bool) (behind : List ℕ) (inet unix : ℕ) (s : Server) (i j g c : ℕ)
    (cs : List ℕ)
    → inet ≢ unix
    → Reach fd_clr inet unix s
    → length (c ∷ cs) < buf_size
    → get_elem? s.sockets j ≡ some (some g)
    → (new : Sent) × ((receive fd_clr behind i (c ∷ cs) s).sends ≡ s.sends ++ new)
      × (times g new ≡ (if not (j == i) && not (g == inet) then 1 else 0))
      × AllText (c_string (c ∷ cs) ++ 0 ∷ []) new
unfolding receive
receive-copies fd_clr behind inet unix s i j g c cs ne reach short held =
    let w = Reach-Watched fd_clr inet unix s ne reach in
    let text = c_string (c ∷ cs) in
    let from : 0 + j ≡ j = omega arith in
    (
      all_copies s.inet_listening_socket i 0 s.sockets text,
      ap (λ (t : List ℕ). s.sends ++ all_copies s.inet_listening_socket i 0 s.sockets t)
          (fill_buf-c_string (c ∷ cs) behind short),
      rw w.inet_is (times-held inet i text g 0 j s.sockets w.distinct held ∙ rw from refl),
      all_copies-AllText s.inet_listening_socket i text 0 s.sockets,
    )
