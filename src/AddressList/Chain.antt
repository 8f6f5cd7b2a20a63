-- ===== src/AddressList/Chain.antt =====
-- The list that a heap stands for (for all functions of lab1/zad1/src/list_funs.c): its nodes in
-- order, linked both ways. Also what a run that ends leaves behind, and the frame rules.
use sysopy.Common.{ℕ, ◌≡◌, ◌≢◌, sym, ◌∙◌, Option, some, List, [], ◌∷◌, ◌++◌}
use sysopy.Common.Family.{update, update-apart}
use sysopy.AddressList.Memory.{Ptr, Person, Node, Heap, Run, done, out_of_fuel, Cmd, follow}

-- The run ends, and P holds of its result and of the heap it leaves.
pub data Ends {A : Type 0} (P : A → Heap → Type 0) : Run A → Type 0 where
  at_end : {a : A} {h : Heap} → P a h → Ends P (done a h)

module _ {A : Type 0} {P : A → Heap → Type 0} where
  -- If what follows runs out of fuel, so does the whole.
  pub Ends-runs_out :
      {B : Type 0} {r : Run A} (f : A → Cmd B)
      → Ends P r
      → ((a : A) (g : Heap) → P a g → f a g ≡ out_of_fuel)
      → follow r f ≡ out_of_fuel
  Ends-runs_out f (at_end p) rest = rest _ _ p

  -- A run goes on where the first part ended.
  pub Ends-follow :
      {B : Type 0} {Q : B → Heap → Type 0} {r : Run A} {f : A → Cmd B}
      → Ends P r
      → ((a : A) (g : Heap) → P a g → Ends Q (f a g))
      → Ends Q (follow r f)
  Ends-follow (at_end p) rest = rest _ _ p

  pub Ends-weaken :
      {Q : A → Heap → Type 0} {r : Run A}
      → Ends P r
      → ((a : A) (g : Heap) → P a g → Q a g)
      → Ends Q r
  Ends-weaken (at_end p) weaker = at_end (weaker _ _ p)

-- Addresses and persons of the nodes, in order.
abbrev pub Cells : Type 0
Cells = List (ℕ × Person)

abbrev pub first : Cells → Ptr → Ptr
first [] stop = stop
first (x ∷ xs) stop = some x.0

abbrev pub last : Ptr → Cells → Ptr
last back [] = back
last back (x ∷ xs) = last (some x.0) xs

-- `xs` are linked both ways; the first points back to `back`, the last on to `stop`.
abbrev pub Chain : Heap → Ptr → Cells → Ptr → Type 0
Chain h back [] stop = Unit {0}
Chain h back (x ∷ xs) stop =
    (h x.0 ≡ some (record { person = x.1; prev = back; next = first xs stop }))
    × Chain h (some x.0) xs stop

abbrev pub All : (ℕ × Person → Type 0) → Cells → Type 0
All P [] = Unit {0}
All P (x ∷ xs) = P x × All P xs

-- No node of `xs` is at `a`; no two nodes of `xs` are at one address; `ys` and `xs` share none.
abbrev pub Apart : ℕ → Cells → Type 0
Apart a xs = All (λ x. a ≢ x.0) xs

abbrev pub Distinct : Cells → Type 0
Distinct [] = Unit {0}
Distinct (x ∷ xs) = Apart x.0 xs × Distinct xs

abbrev pub Disjoint : Cells → Cells → Type 0
Disjoint xs ys = All (λ x. Apart x.0 ys) xs

-- The heaps differ at nodes of `xs` only.
abbrev pub Outside : Cells → Heap → Heap → Type 0
Outside xs h g = (a : ℕ) → Apart a xs → g a ≡ h a

pub Chain-frame :
    {h g : Heap} (back : Ptr) (xs : Cells) (stop : Ptr) (touched : Cells)
    → Outside touched h g
    → Disjoint xs touched
    → Chain h back xs stop
    → Chain g back xs stop
Chain-frame back [] stop touched same apart chain = tt
Chain-frame back (x ∷ xs) stop touched same apart chain =
    (same x.0 apart.0 ∙ chain.0, Chain-frame (some x.0) xs stop touched same apart.1 chain.1)

-- A write apart from the chain leaves it.
pub Chain-update :
    (h : Heap) (a : ℕ) (cell : Option Node) (back : Ptr) (xs : Cells) (stop : Ptr)
    → Apart a xs
    → Chain h back xs stop
    → Chain (update h a cell) back xs stop
Chain-update h a cell back [] stop apart chain = tt
Chain-update h a cell back (x ∷ xs) stop apart chain = (
  update-apart h a cell apart.0 ∙ chain.0,
  Chain-update h a cell (some x.0) xs stop apart.1 chain.1,
)

pub Apart-append : (a : ℕ) (xs ys : Cells) → Apart a (xs ++ ys) → Apart a xs × Apart a ys
Apart-append a [] ys apart = (tt, apart)
Apart-append a (x ∷ xs) ys apart =
    let rest = Apart-append a xs ys apart.1 in ((apart.0, rest.0), rest.1)

pub Chain-append :
    (h : Heap) (back : Ptr) (xs ys : Cells) (stop : Ptr)
    → Chain h back xs (first ys stop)
    → Chain h (last back xs) ys stop
    → Chain h back (xs ++ ys) stop
Chain-append h back [] ys stop front rest = rest
Chain-append h back (x ∷ []) ys stop front rest = (front.0, rest)
Chain-append h back (x ∷ y ∷ xs) ys stop front rest =
    (front.0, Chain-append h (some x.0) (y ∷ xs) ys stop front.1 rest)

pub Chain-split :
    (h : Heap) (back : Ptr) (xs ys : Cells) (stop : Ptr)
    → Chain h back (xs ++ ys) stop
    → Chain h back xs (first ys stop) × Chain h (last back xs) ys stop
Chain-split h back [] ys stop chain = (tt, chain)
Chain-split h back (x ∷ []) ys stop chain = ((chain.0, tt), chain.1)
Chain-split h back (x ∷ y ∷ xs) ys stop chain =
    let rest = Chain-split h (some x.0) (y ∷ xs) ys stop chain.1 in ((chain.0, rest.0), rest.1)

pub Distinct-split :
    (xs ys : Cells) → Distinct (xs ++ ys) → Distinct xs × Distinct ys × Disjoint xs ys
Distinct-split [] ys distinct = (tt, distinct, tt)
Distinct-split (x ∷ xs) ys distinct =
    let rest = Distinct-split xs ys distinct.1 in
    let here = Apart-append x.0 xs ys distinct.0 in ((here.0, rest.0), rest.1, (here.1, rest.2))

pub All-join : (P : ℕ × Person → Type 0) (xs ys : Cells) → All P xs → All P ys → All P (xs ++ ys)
All-join P [] ys left right = right
All-join P (x ∷ xs) ys left right = (left.0, All-join P xs ys left.1 right)

pub Apart-join : (a : ℕ) (xs ys : Cells) → Apart a xs → Apart a ys → Apart a (xs ++ ys)
Apart-join a = All-join (λ x. a ≢ x.0)

pub All-map :
    (P Q : ℕ × Person → Type 0) (xs : Cells) → ((x : ℕ × Person) → P x → Q x) → All P xs → All Q xs
All-map P Q [] f all = tt
All-map P Q (x ∷ xs) f all = (f x all.0, All-map P Q xs f all.1)

pub Distinct-join :
    (xs ys : Cells) → Distinct xs → Distinct ys → Disjoint xs ys → Distinct (xs ++ ys)
Distinct-join [] ys left right apart = right
Distinct-join (x ∷ xs) ys left right apart =
    (Apart-join x.0 xs ys left.0 apart.0, Distinct-join xs ys left.1 right apart.1)

Disjoint-first :
    (x : ℕ × Person) (xs ys : Cells) → Apart x.0 ys → Disjoint ys xs → Disjoint ys (x ∷ xs)
Disjoint-first x xs [] apart rest = tt
Disjoint-first x xs (y ∷ ys) apart rest =
    ((λ e. apart.0 (sym e), rest.0), Disjoint-first x xs ys apart.1 rest.1)

pub Disjoint-empty : (ys : Cells) → Disjoint ys []
Disjoint-empty [] = tt
Disjoint-empty (y ∷ ys) = (tt, Disjoint-empty ys)

pub Disjoint-comm : (xs ys : Cells) → Disjoint xs ys → Disjoint ys xs
Disjoint-comm [] ys apart = Disjoint-empty ys
Disjoint-comm (x ∷ xs) ys apart = Disjoint-first x xs ys apart.0 (Disjoint-comm xs ys apart.1)

pub Disjoint-grow :
    (xs : Cells) (x : ℕ × Person) (ys : Cells)
    → Disjoint xs ys
    → Apart x.0 ys
    → Disjoint (xs ++ x ∷ []) ys
Disjoint-grow [] x ys apart here = (here, tt)
Disjoint-grow (z ∷ xs) x ys apart here = (apart.0, Disjoint-grow xs x ys apart.1 here)

pub Distinct-grow :
    (xs : Cells) (x : ℕ × Person) → Distinct xs → Apart x.0 xs → Distinct (xs ++ x ∷ [])
Distinct-grow [] x distinct apart = (tt, tt)
Distinct-grow (z ∷ xs) x distinct apart = (
  Apart-join z.0 xs (x ∷ []) distinct.0 (λ e. apart.0 (sym e), tt),
  Distinct-grow xs x distinct.1 apart.1,
)
