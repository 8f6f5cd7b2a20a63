-- ===== src/AddressList/Functions.antt =====
-- The functions of lab1/zad1/src/list_funs.c. A `list_t` has one field, its head, and is no node:
-- a function that changes one returns its new head. Lists are made by create_list, which ends the
-- program when it gets no memory, so a list argument is never NULL; a node argument may be. The
-- loops run on fuel, `w` rounds each; the sort has fuel for the depth of its recursion as well.
use sysopy.Common.{
  ℕ, zero, suc, ℕ_discrete, Bool, true, false, ◌&&◌, ◌||◌, none, some, List, [], ◌∷◌,
}
use Prim.Native.Nat.{Ordering, compare}
use mathlib.Core.Logic.{ite}
use sysopy.AddressList.Memory.{
  Ptr, Person, Cmd, pure, ◌>>=◌, ◌>>◌, out, load, set_next, set_prev, free,
}

-- The first order that is not `eq` decides.
abbrev pub first_diff : Ordering → Ordering → Ordering
first_diff Ordering.lt rest = Ordering.lt
first_diff Ordering.eq rest = rest
first_diff Ordering.gt rest = Ordering.gt

-- `strcmp`: the order of the first bytes that differ
unfoldable pub strcmp : List ℕ → List ℕ → Ordering
strcmp [] [] = Ordering.eq
strcmp [] (d ∷ ds) = Ordering.lt
strcmp (c ∷ cs) [] = Ordering.gt
strcmp (c ∷ cs) (d ∷ ds) = first_diff (compare c d) (strcmp cs ds)

abbrev pub is_eq : Ordering → Bool
is_eq Ordering.eq = true
is_eq _ = false

abbrev pub is_lt : Ordering → Bool
is_lt Ordering.lt = true
is_lt _ = false

abbrev pub is_gt : Ordering → Bool
is_gt Ordering.gt = true
is_gt _ = false

-- The three tests on a person `i` and another one.
unfoldable pub equals : Person → Person → Bool
unfolding strcmp
equals i node = is_eq (strcmp i.name node.name) && is_eq (strcmp i.surname node.surname)

unfoldable pub lesser : Person → Person → Bool
unfolding strcmp
lesser i node =
    is_lt (strcmp i.surname node.surname)
    || (is_eq (strcmp i.surname node.surname) && is_lt (strcmp i.name node.name))

unfoldable pub greater : Person → Person → Bool
unfolding strcmp
greater i node =
    is_gt (strcmp i.surname node.surname)
    || (is_eq (strcmp i.surname node.surname) && is_gt (strcmp i.name node.name))

abbrev pub create_list : Ptr
create_list = none

unfoldable pub delete_node : Ptr → Cmd (Unit {0})
unfolding free
delete_node none = pure tt
delete_node (some a) = free (some a)

unfoldable pub delete_list : (w : ℕ) → Ptr → Cmd (Unit {0})
unfolding load delete_node
delete_list zero p = out
delete_list (suc w) none = pure tt
delete_list (suc w) (some a) = do n ← load (some a); delete_node (some a); delete_list w n.next

-- The last node of a list that has one: `while(iteration_node -> next != NULL)`
unfoldable pub last_node : (w : ℕ) → Ptr → Cmd Ptr
unfolding load
last_node zero p = out
last_node (suc w) p = do n ← load p; elim n.next [ none ↦ pure p | some a ↦ last_node w (some a) ]

unfoldable pub add_elem : (w : ℕ) → Ptr → Ptr → Cmd Ptr
unfolding last_node set_next set_prev
add_elem w head none = pure head
add_elem w none (some a) = do set_next (some a) none; set_prev (some a) none; pure (some a)
add_elem w (some p) (some a) = do
  iteration_node ← last_node w (some p)
  set_next iteration_node (some a)
  set_prev (some a) iteration_node
  set_next (some a) none
  pure (some p)

-- Both heads, as the function leaves them.
unfoldable pub list_concat : (w : ℕ) → Ptr → Ptr → Cmd (Ptr × Ptr)
unfolding last_node set_next set_prev
list_concat w none second = pure (second, second)
list_concat w (some p) none = pure (some p, some p)
list_concat w (some p) (some q) = do
  iteration_node ← last_node w (some p)
  set_next iteration_node (some q)
  set_prev (some q) iteration_node
  pure (some p, some p)

-- The loop of remove_elem: `while(iteration_node != NULL && iteration_node != node_to_remove)`
unfoldable pub seek : (w : ℕ) → Ptr → ℕ → Cmd Ptr
unfolding load
seek zero p target = out
seek (suc w) none target = pure none
seek (suc w) (some p) target =
    ite (ℕ_discrete p target) (pure (some p)) (do n ← load (some p); seek w n.next target)

unfoldable pub set_prev_if : Ptr → Ptr → Cmd (Unit {0})
unfolding set_prev
set_prev_if none back = pure tt
set_prev_if (some a) back = set_prev (some a) back

-- Takes the node that was found out of the list; returns the head.
unfoldable pub relink : Ptr → Ptr → Ptr → Ptr → Cmd Ptr
unfolding load set_next set_prev_if
relink head this none next = do set_prev_if next none; pure next
relink head this (some before) next = do
  set_next (some before) next
  n ← load this
  set_prev_if n.next n.prev
  pure head

unfoldable pub unlink : Ptr → Ptr → Cmd Ptr
unfolding load delete_node relink
unlink head none = pure head
unlink head (some a) = do
  n ← load (some a)
  new_head ← relink head (some a) n.prev n.next
  delete_node (some a)
  pure new_head

unfoldable pub remove_elem : (w : ℕ) → Ptr → Ptr → Cmd Ptr
unfolding seek unlink
remove_elem w head none = pure head
remove_elem w head (some a) = do iteration_node ← seek w head a; unlink head iteration_node

unfoldable pub add_if : Bool → (w : ℕ) → Ptr → Ptr → Cmd Ptr
unfolding add_elem
add_if false w head p = pure head
add_if true w head p = add_elem w head p

-- The loop that get_equals, get_greater and get_lesser share; `next` is read after the node has
-- gone to the new list. Each round adds at most one node, so `w` is fuel for the new list too.
unfoldable pub collect : (Person → Person → Bool) → (w : ℕ) → Ptr → Ptr → Ptr → Cmd Ptr
unfolding load add_if
collect test zero person p found = out
collect test (suc w) person none found = pure found
collect test (suc w) person (some a) found = do
  i ← load (some a)
  n ← load person
  now_found ← add_if (test i.person n.person) w found (some a)
  m ← load (some a)
  collect test w person m.next now_found

unfoldable pub get_equals : (w : ℕ) → Ptr → Ptr → Cmd Ptr
unfolding collect equals
get_equals w person head = collect equals w person head create_list

unfoldable pub get_greater : (w : ℕ) → Ptr → Ptr → Cmd Ptr
unfolding collect greater
get_greater w person head = collect greater w person head create_list

unfoldable pub get_lesser : (w : ℕ) → Ptr → Ptr → Cmd Ptr
unfolding collect lesser
get_lesser w person head = collect lesser w person head create_list
