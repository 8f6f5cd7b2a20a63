-- ===== src/StreamChat/Slots.antt =====
-- The table of sockets of lab10/zad2/src/server.c: what placing a descriptor, emptying a slot and
-- taking the greatest one do to a property of all descriptors in it.
use sysopy.Common.{
  ℕ, zero, suc, ◌≤◌, ◌≢◌, sym, Option, none, some, List, [], ◌∷◌, set, replicate, arith,
}
use sysopy.StreamChat.{SocketSlot, max, max_of, cons_slot, put_in_slot}

abbrev pub Held : (ℕ → Type 0) → SocketSlot → Type 0
Held P none = Unit {0}
Held P (some fd) = P fd

abbrev pub AllFds : (ℕ → Type 0) → List SocketSlot → Type 0
AllFds P [] = Unit {0}
AllFds P (s ∷ slots) = Held P s × AllFds P slots

-- No two slots hold one descriptor.
abbrev pub Distinct : List SocketSlot → Type 0
Distinct [] = Unit {0}
Distinct (s ∷ slots) = Held (λ fd. AllFds (λ g. fd ≢ g) slots) s × Distinct slots

abbrev pub OnSome : (List SocketSlot → Type 0) → Option (List SocketSlot) → Type 0
OnSome P none = Unit {0}
OnSome P (some slots) = P slots

Held-map : (P Q : ℕ → Type 0) (s : SocketSlot) → ((fd : ℕ) → P fd → Q fd) → Held P s → Held Q s
Held-map P Q none f held = tt
Held-map P Q (some fd) f held = f fd held

pub AllFds-map :
    (P Q : ℕ → Type 0) (slots : List SocketSlot)
    → ((fd : ℕ) → P fd → Q fd)
    → AllFds P slots
    → AllFds Q slots
AllFds-map P Q [] f all = tt
AllFds-map P Q (s ∷ slots) f all = (Held-map P Q s f all.0, AllFds-map P Q slots f all.1)

Held-both :
    (P Q R : ℕ → Type 0) (s : SocketSlot)
    → ((fd : ℕ) → P fd → Q fd → R fd)
    → Held P s
    → Held Q s
    → Held R s
Held-both P Q R none f p q = tt
Held-both P Q R (some fd) f p q = f fd p q

pub AllFds-both :
    (P Q R : ℕ → Type 0) (slots : List SocketSlot)
    → ((fd : ℕ) → P fd → Q fd → R fd)
    → AllFds P slots
    → AllFds Q slots
    → AllFds R slots
AllFds-both P Q R [] f p q = tt
AllFds-both P Q R (s ∷ slots) f p q =
    (Held-both P Q R s f p.0 q.0, AllFds-both P Q R slots f p.1 q.1)

OnSome-cons_slot :
    (P Q : List SocketSlot → Type 0) (s : SocketSlot) (o : Option (List SocketSlot))
    → ((slots : List SocketSlot) → P slots → Q (s ∷ slots))
    → OnSome P o
    → OnSome Q (cons_slot s o)
OnSome-cons_slot P Q s none f on = tt
OnSome-cons_slot P Q s (some slots) f on = f slots on

pub put_in_slot-AllFds :
    (P : ℕ → Type 0) (newfd : ℕ) (slots : List SocketSlot)
    → P newfd
    → AllFds P slots
    → OnSome (AllFds P) (put_in_slot newfd slots)
put_in_slot-AllFds P newfd [] new all = tt
put_in_slot-AllFds P newfd (none ∷ slots) new all = (new, all.1)
put_in_slot-AllFds P newfd (some fd ∷ slots) new all =
    OnSome-cons_slot (AllFds P) (AllFds P) (some fd) (put_in_slot newfd slots)
      (λ rest q. (all.0, q)) (put_in_slot-AllFds P newfd slots new all.1)

OnSome-both :
    (P Q R : List SocketSlot → Type 0) (o : Option (List SocketSlot))
    → ((slots : List SocketSlot) → P slots → Q slots → R slots)
    → OnSome P o
    → OnSome Q o
    → OnSome R o
OnSome-both P Q R none f p q = tt
OnSome-both P Q R (some slots) f p q = f slots p q

pub put_in_slot-Distinct :
    (newfd : ℕ) (slots : List SocketSlot)
    → AllFds (λ g. newfd ≢ g) slots
    → Distinct slots
    → OnSome Distinct (put_in_slot newfd slots)
put_in_slot-Distinct newfd [] new distinct = tt
put_in_slot-Distinct newfd (none ∷ slots) new distinct = (new.1, distinct.1)
put_in_slot-Distinct newfd (some fd ∷ slots) new distinct =
    let P = AllFds (λ g. fd ≢ g) in
    let rest = put_in_slot newfd slots in
    OnSome-cons_slot (λ t. P t × Distinct t) Distinct (some fd) rest (λ t both. both)
      (OnSome-both P Distinct (λ t. P t × Distinct t) rest (λ t p q. (p, q))
        (put_in_slot-AllFds (λ g. fd ≢ g) newfd slots (λ e. new.0 (sym e)) distinct.0)
        (put_in_slot-Distinct newfd slots new.1 distinct.1))

pub set-AllFds :
    (P : ℕ → Type 0) (slots : List SocketSlot) (i : ℕ)
    → AllFds P slots
    → AllFds P (set slots i none)
set-AllFds P [] i all = tt
set-AllFds P (s ∷ slots) zero all = (tt, all.1)
set-AllFds P (s ∷ slots) (suc i) all = (all.0, set-AllFds P slots i all.1)

pub set-Distinct : (slots : List SocketSlot) (i : ℕ) → Distinct slots → Distinct (set slots i none)
set-Distinct [] i distinct = tt
set-Distinct (s ∷ slots) zero distinct = (tt, distinct.1)
set-Distinct (s ∷ slots) (suc i) distinct = (
  Held-map _ (λ fd. AllFds (λ g. fd ≢ g) (set slots i none)) s
      (λ fd. set-AllFds (λ g. fd ≢ g) slots i) distinct.0,
  set-Distinct slots i distinct.1,
)

pub max-left : (a b : ℕ) → a ≤ max a b
max-left a b = ground arith

pub max-right : (a b : ℕ) → b ≤ max a b
max-right a b = ground arith

max_of-le : (m : ℕ) (slots : List SocketSlot) → m ≤ max_of m slots
max_of-le m [] = omega arith
max_of-le m (none ∷ slots) = max_of-le m slots
max_of-le m (some fd ∷ slots) = omega (arith, max-right fd m, max_of-le (max fd m) slots)

pub max_of-AllFds : (m : ℕ) (slots : List SocketSlot) → AllFds (λ fd. fd ≤ max_of m slots) slots
max_of-AllFds m [] = tt
max_of-AllFds m (none ∷ slots) = (tt, max_of-AllFds m slots)
max_of-AllFds m (some fd ∷ slots) =
    (omega (arith, max-left fd m, max_of-le (max fd m) slots), max_of-AllFds (max fd m) slots)

pub AllFds-replicate : (P : ℕ → Type 0) (n : ℕ) → AllFds P (replicate n none)
AllFds-replicate P zero = tt
AllFds-replicate P (suc n) = (tt, AllFds-replicate P n)

pub Distinct-replicate : (n : ℕ) → Distinct (replicate n none)
Distinct-replicate zero = tt
Distinct-replicate (suc n) = (tt, Distinct-replicate n)
