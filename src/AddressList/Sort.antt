-- ===== src/AddressList/Sort.antt =====
-- The sort and the search of lab1/zad1/src/list_funs.c: perform_quick_list_sort, list_sort and
-- find_elem_by_full_name. `depth` bounds the nesting of the sort's calls, `w` the rounds of a loop.
use sysopy.Common.{ℕ, zero, suc, true, false, ◌&&◌, ◌||◌, none, some, List, []}
use sysopy.AddressList.Memory.{Ptr, Cmd, pure, ◌>>=◌, ◌>>◌, out, load}
use sysopy.AddressList.Functions.{
  strcmp, is_eq, equals, lesser, greater, create_list, add_if, list_concat,
}

-- The heads of `lesser`, `equal` and `greater`.
pub record Parts : Type 0 where
  pub lesser : Ptr
  pub equal : Ptr
  pub greater : Ptr

abbrev pub no_parts : Parts
no_parts = record { lesser = create_list; equal = create_list; greater = create_list }

unfoldable pub partition : (w fuel : ℕ) → Ptr → Ptr → Parts → Cmd Parts
unfolding load add_if equals lesser greater
partition w zero pivot p parts = out
partition w (suc fuel) pivot none parts = pure parts
partition w (suc fuel) pivot (some a) parts = do
  i ← load (some a)
  n ← load pivot
  equal ← add_if (equals i.person n.person) w parts.equal (some a)
  less ← add_if (lesser i.person n.person) w parts.lesser (some a)
  more ← add_if (greater i.person n.person) w parts.greater (some a)
  partition w fuel pivot i.next (record { lesser = less; equal = equal; greater = more })

-- `if(part -> head != NULL) list_concat(result, part);`
unfoldable pub concat_if : (w : ℕ) → Ptr → Ptr → Cmd Ptr
unfolding list_concat
concat_if w result none = pure result
concat_if w result (some p) = do heads ← list_concat w result (some p); pure heads.0

unfoldable pub join : (w : ℕ) → Parts → Cmd Ptr
unfolding concat_if
join w parts = do
  first ← concat_if w create_list parts.lesser
  second ← concat_if w first parts.equal
  concat_if w second parts.greater

unfoldable pub perform_quick_list_sort : (depth w : ℕ) → Ptr → Cmd Ptr
unfolding load partition join
perform_quick_list_sort zero w head = out
perform_quick_list_sort (suc depth) w none = pure none
perform_quick_list_sort (suc depth) w (some a) = do
  n ← load (some a)
  elim n.next [
    | none ↦ pure (some a)
    | some _ ↦ do
      parts ← partition w w (some a) (some a) no_parts
      less ← perform_quick_list_sort depth w parts.lesser
      equal ← perform_quick_list_sort depth w parts.equal
      more ← perform_quick_list_sort depth w parts.greater
      join w (record { lesser = less; equal = equal; greater = more })
  ]

unfoldable pub find_loop : (w : ℕ) → Ptr → List ℕ → List ℕ → Cmd Ptr
unfolding load strcmp
find_loop zero p name surname = out
find_loop (suc w) none name surname = pure none
find_loop (suc w) (some a) name surname = do
  n ← load (some a)
  elim (is_eq (strcmp n.person.name name) && is_eq (strcmp n.person.surname surname)) [
    | true ↦ pure (some a)
    | false ↦ find_loop w n.next name surname
  ]

unfoldable pub find_elem_by_full_name : (w : ℕ) → Ptr → List ℕ → List ℕ → Cmd Ptr
unfolding find_loop strcmp
find_elem_by_full_name w head name surname =
    elim (is_eq (strcmp name []) || is_eq (strcmp surname [])) [
      | true ↦ pure none
      | false ↦ find_loop w head name surname
    ]

-- The loop of list_sort that looks for missing keys. It prints at most.
unfoldable pub check_keys : (w : ℕ) → Ptr → Cmd (Unit {0})
unfolding load
check_keys zero p = out
check_keys (suc w) none = pure tt
check_keys (suc w) (some a) = do n ← load (some a); check_keys w n.next

unfoldable pub list_sort : (depth w : ℕ) → Ptr → Cmd Ptr
unfolding check_keys perform_quick_list_sort
list_sort depth w none = pure none
list_sort depth w (some a) = do check_keys w (some a); perform_quick_list_sort depth w (some a)
