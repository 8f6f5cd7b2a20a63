-- ===== src/FileLock/Text.antt =====
-- `parse` of lab2/zad3/src/file_lock.c. A line is the C string that fgets put into the buffer, the
-- newline at its end included. What memory holds that nobody wrote is an argument: `fresh` gives
-- the bytes of the block that malloc returns and of those behind it, `stale` the bytes of the
-- input buffer behind the string.
use sysopy.Common.{
  ℕ, zero, suc, ◌+◌, ◌-◌, ◌*◌, Bool, true, ◌&&◌, ◌||◌, ◌==◌, ltb, leb, if◌then◌else◌, Option, none,
  some, List, [], ◌∷◌, length, get_elem?,
}
use sysopy.Common.Strings.{same_text}
use sysopy.Common.Int.{ℤ, pos, negsuc, neg}

-- STRDLCK_IND and the other five, under the names of their commands
pub data CmdIndex : Type 0 where
  set_read_lock : CmdIndex
  set_write_lock : CmdIndex
  print_locks : CmdIndex
  free_lock : CmdIndex
  read_character : CmdIndex
  write_character : CmdIndex

-- The texts of the commands, byte by byte.
abbrev pub text : CmdIndex → List ℕ
text set_read_lock =
    b's' ∷ b'e' ∷ b't' ∷ b'_' ∷ b'r' ∷ b'e' ∷ b'a' ∷ b'd' ∷ b'_' ∷ b'l' ∷ b'o' ∷ b'c' ∷ b'k' ∷ []
text set_write_lock =
    b's' ∷ b'e' ∷ b't' ∷ b'_' ∷ b'w' ∷ b'r' ∷ b'i' ∷ b't' ∷ b'e' ∷ b'_' ∷ b'l' ∷ b'o' ∷ b'c' ∷ b'k'
    ∷ []
text print_locks = b'p' ∷ b'r' ∷ b'i' ∷ b'n' ∷ b't' ∷ b'_' ∷ b'l' ∷ b'o' ∷ b'c' ∷ b'k' ∷ b's' ∷ []
text free_lock = b'f' ∷ b'r' ∷ b'e' ∷ b'e' ∷ b'_' ∷ b'l' ∷ b'o' ∷ b'c' ∷ b'k' ∷ []
text read_character =
    b'r' ∷ b'e' ∷ b'a' ∷ b'd' ∷ b'_' ∷ b'c' ∷ b'h' ∷ b'a' ∷ b'r' ∷ b'a' ∷ b'c' ∷ b't' ∷ b'e' ∷ b'r'
    ∷ []
text write_character =
    b'w' ∷ b'r' ∷ b'i' ∷ b't' ∷ b'e' ∷ b'_' ∷ b'c' ∷ b'h' ∷ b'a' ∷ b'r' ∷ b'a' ∷ b'c' ∷ b't' ∷ b'e'
    ∷ b'r' ∷ []

-- What becomes of a line: the program ends, a message and NULL, an access outside the block of
-- malloc, a number that is no int, or a command.
pub data Parsed : Type 0 where
  program_end : Parsed
  wrong_format : Parsed
  unknown : Parsed
  outside : Parsed
  beyond_int : Parsed
  command : CmdIndex → ℤ → Parsed

abbrev pub is_blank : ℕ → Bool
is_blank c = c == b' ' || c == 9

-- `input[c--] = 0` at the last byte, which is meant to be the newline
abbrev pub drop_last : List ℕ → List ℕ
drop_last [] = []
drop_last (c ∷ []) = []
drop_last (c ∷ d ∷ cs) = c ∷ drop_last (d ∷ cs)

abbrev pub cons_unless : Bool → ℕ → List ℕ → List ℕ
cons_unless true c [] = []
cons_unless blank c cs = c ∷ cs

-- Blanks at the end are overwritten with 0.
abbrev pub strip_end : List ℕ → List ℕ
strip_end [] = []
strip_end (c ∷ cs) = cons_unless (is_blank c) c (strip_end cs)

-- `start_index`: the blanks at the front
abbrev pub leading : List ℕ → ℕ
leading [] = 0
leading (c ∷ cs) = let rest = leading cs in if is_blank c then suc rest else 0

abbrev pub drop : ℕ → List ℕ → List ℕ
drop zero cs = cs
drop (suc n) [] = []
drop (suc n) (c ∷ cs) = drop n cs

-- `num_spaces` and `space_index` after the bytes from index `c` on
abbrev pub scan : ℕ → List ℕ → ℕ × ℕ → ℕ × ℕ
scan c [] found = found
scan c (d ∷ ds) found = scan (suc c) ds (if d == b' ' then (suc found.0, c) else found)

abbrev byte_or : ℕ → Option ℕ → ℕ
byte_or other none = other
byte_or other (some c) = c

-- `input[i]`
abbrev input_at : (ℕ → ℕ) → List ℕ → ℕ → ℕ
input_at stale line i = byte_or (if i == length line then 0 else stale i) (get_elem? line i)

-- `cmd[i]` after the loop that copies `space_index` bytes
abbrev pub copied : (fresh stale : ℕ → ℕ) → List ℕ → (start space_index : ℕ) → ℕ → ℕ
copied fresh stale line start space_index i =
    if ltb i space_index then input_at stale line (start + i) else fresh i

-- `!strcmp(name, cmd)`, from byte `i` of cmd on
abbrev pub matches : List ℕ → (ℕ → ℕ) → ℕ → Bool
matches [] cmd i = cmd i == 0
matches (c ∷ name) cmd i = cmd i == c && matches name cmd (suc i)

-- `atoi`: blanks, a sign, digits
abbrev pub digits : ℕ → List ℕ → ℕ
digits acc [] = acc
digits acc (c ∷ cs) = if leb b'0' c && leb c b'9' then digits (acc * 10 + (c - b'0')) cs else acc

abbrev signed : List ℕ → ℤ
signed [] = pos 0
signed (c ∷ cs) =
    if c == b'-' then neg (digits 0 cs) else pos (digits 0 (if c == b'+' then cs else c ∷ cs))

-- 2 ^ 31
abbrev pub int_limit : ℕ
int_limit = 2_147_483_648

abbrev pub in_int : ℤ → Option ℤ
in_int (pos n) = if ltb n int_limit then some (pos n) else none
in_int (negsuc n) = if ltb n int_limit then some (negsuc n) else none

-- none for a value that is no int, for which C leaves atoi undefined.
unfoldable pub atoi : List ℕ → Option ℤ
atoi cs = in_int (signed (drop (leading cs) cs))

-- The tests for the six commands, in the order of the source; each has its number of spaces.
abbrev pub all_commands : List (CmdIndex × ℕ)
all_commands =
    (set_read_lock, 1)
    ∷ (set_write_lock, 1)
    ∷ (print_locks, 0)
    ∷ (free_lock, 1)
    ∷ (read_character, 1)
    ∷ (write_character, 1)
    ∷ []

abbrev pub command_of : CmdIndex → Option ℤ → Parsed
command_of k none = beyond_int
command_of k (some num) = command k num

abbrev pub recognize : List (CmdIndex × ℕ) → ℕ → (ℕ → ℕ) → Option ℤ → Parsed
recognize [] num_spaces cmd num = unknown
recognize (k ∷ ks) num_spaces cmd num =
    if matches (text k.0) cmd 0
    then (if num_spaces == k.1 then command_of k.0 num else wrong_format)
    else recognize ks num_spaces cmd num

-- `!strcmp("exit", input)`, with the newline of the line still on it
abbrev pub is_exit : List ℕ → Bool
is_exit input = same_text (b'e' ∷ b'x' ∷ b'i' ∷ b't' ∷ []) input

-- Without a space, malloc is called with 0, and the first byte of the block is outside of it.
unfoldable pub parse_stripped : (fresh stale : ℕ → ℕ) → List ℕ → Parsed
unfolding atoi
parse_stripped fresh stale line =
    let start = leading line in
    let found = scan start (drop start line) (0, 0) in
    if leb 2 found.0
    then wrong_format
    else if found.0 == 0
    then outside
    else recognize all_commands found.0 (copied fresh stale line start found.1)
        (atoi (drop (suc found.1) line))

unfoldable pub parse : (fresh stale : ℕ → ℕ) → List ℕ → Parsed
unfolding parse_stripped
parse fresh stale input =
    if is_exit input then program_end else parse_stripped fresh stale (strip_end (drop_last input))
