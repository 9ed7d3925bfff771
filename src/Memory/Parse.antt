-- ===== src/Memory/Parse.antt =====
-- memory.go: `parseNvidiaSmi` and the parsing in `readMemAvailableMB`, over the bytes of the text,
-- with what they use of bufio, strings and strconv. White space is that of ASCII.
pub mod Numerals
pub mod Printed
use v_llm_orchestrator.Base.{
  ℕ, zero, suc, ℤ, pos, negsuc, ltb, leb, eqb_ℤ, ◌+◌, ◌-◌, ◌*◌, ◌/◌, ◌==◌, Bool, true, false, ◌&&◌,
  ◌||◌, List, [], ◌∷◌, Option, none, some, length, if◌then◌else◌,
}
use v_llm_orchestrator.Base.Result.{Result, succeeded, failed, ◌>>=◌}

abbrev pub Text : Type 0
Text = List ℕ

abbrev pub newline : ℕ
newline = 10

abbrev pub comma : ℕ
comma = b','

-- The lines of a text: parts between newlines, and a last one that is not empty.
unfoldable pub split_lines : Text → List Text
split_lines [] = []
split_lines (c ∷ cs) =
    if c == newline
    then [] ∷ split_lines cs
    else elim (split_lines cs) [ [] ↦ (c ∷ []) ∷ [] | l ∷ ls ↦ (c ∷ l) ∷ ls ]

-- A `bufio.Scanner` stops without a word at a line that does not fit its buffer of 64 KB.
unfoldable pub scanned : List Text → List Text
scanned [] = []
scanned (l ∷ ls) = let rest = scanned ls in if ltb (length l) 65536 then l ∷ rest else []

abbrev pub is_space : ℕ → Bool
is_space c = (leb 9 c && leb c 13) || c == 32

unfoldable pub trim_left : Text → Text
trim_left [] = []
trim_left (c ∷ cs) = let rest = trim_left cs in if is_space c then rest else c ∷ cs

-- Without its trailing white space.
unfoldable pub trim_right : Text → Text
trim_right [] = []
trim_right (c ∷ cs) = elim (trim_right cs) [
  | [] ↦ if is_space c then [] else c ∷ []
  | d ∷ ds ↦ c ∷ d ∷ ds
]

-- `strings.TrimSpace`
unfoldable pub trim_space : Text → Text
trim_space s = trim_right (trim_left s)

-- `strings.SplitN(line, ",", 2)`: the parts round the first comma.
unfoldable pub split_comma : Text → Option (Text × Text)
split_comma [] = none
split_comma (c ∷ cs) =
    if c == comma
    then some ([], cs)
    else elim (split_comma cs) [ none ↦ none | some (a, b) ↦ some (c ∷ a, b) ]

-- Decimal digits after `acc`; `none` at any other byte.
unfoldable pub digits_from : ℕ → Text → Option ℕ
digits_from acc [] = some acc
digits_from acc (c ∷ cs) =
    let rest = digits_from (acc * 10 + (c - b'0')) cs in
    if leb b'0' c && leb c b'9' then rest else none

-- One digit at least.
unfoldable pub parse_digits : Text → Option ℕ
parse_digits [] = none
parse_digits (c ∷ cs) = digits_from 0 (c ∷ cs)

abbrev signed : Bool → ℕ → Option ℤ
signed false n = if ltb n 0x8000000000000000 then some (pos n) else none
signed true zero = some (pos 0)
signed true (suc n) = if ltb n 0x8000000000000000 then some (negsuc n) else none

abbrev checked : Bool → Option ℕ → Option ℤ
checked minus none = none
checked minus (some n) = signed minus n

-- `strconv.Atoi` and `strconv.ParseInt(s, 10, 64)`: a sign, digits, and the range of `int64`.
unfoldable pub parse_int : Text → Option ℤ
unfolding parse_digits digits_from
parse_int [] = none
parse_int (c ∷ cs) =
    if c == b'-'
    then checked true (parse_digits cs)
    else if c == b'+'
    then checked false (parse_digits cs)
    else checked false (parse_digits (c ∷ cs))

pub data ParseError : Type 0 where
  unexpected_line bad_index bad_memory : (line : Text) → ParseError
  no_gpu_entries : ParseError
  unexpected_meminfo_line bad_mem_available : ParseError
  mem_available_not_found : ParseError

-- The map from device ids to megabytes, as an association list.
abbrev pub Devices : Type 0
Devices = List (ℤ × ℤ)

unfoldable pub device_mb : ℤ → Devices → Option ℤ
device_mb dev [] = none
device_mb dev ((d, mb) ∷ m) = if eqb_ℤ d dev then some mb else device_mb dev m

unfoldable pub put_device : ℤ → ℤ → Devices → Devices
put_device dev mb [] = (dev, mb) ∷ []
put_device dev mb ((d, old) ∷ m) =
    if eqb_ℤ d dev then (dev, mb) ∷ m else (d, old) ∷ put_device dev mb m

abbrev or_fail {ℓ} : {A : Type ℓ} → Option A → ParseError → Result ParseError A
or_fail none e = failed e
or_fail (some a) e = succeeded a

-- A line "index, megabytes", trimmed already and not empty.
unfoldable pub parse_row : Text → Result ParseError (ℤ × ℤ)
parse_row line = do
  parts ← or_fail (split_comma line) (unexpected_line line)
  idx ← or_fail (parse_int (trim_space parts.0)) (bad_index line)
  mb ← or_fail (parse_int (trim_space parts.1)) (bad_memory line)
  succeeded (idx, mb)

abbrev is_empty : Text → Bool
is_empty [] = true
is_empty (c ∷ cs) = false

-- The scanner's loop: empty lines are passed over.
unfoldable pub parse_rows : Devices → List Text → Result ParseError Devices
parse_rows m [] = succeeded m
parse_rows m (l ∷ ls) =
    let line = trim_space l in
    let here = parse_row line >>= λ row. parse_rows (put_device row.0 row.1 m) ls in
    let skipped = parse_rows m ls in if is_empty line then skipped else here

unfoldable pub parse_nvidia_smi : Text → Result ParseError Devices
parse_nvidia_smi output = parse_rows [] (scanned (split_lines output)) >>= λ m. elim m [
  | [] ↦ failed no_gpu_entries
  | d ∷ ds ↦ succeeded (d ∷ ds)
]

abbrev has_prefix : Text → Text → Bool
has_prefix [] s = true
has_prefix (c ∷ cs) [] = false
has_prefix (c ∷ cs) (d ∷ ds) = c == d && has_prefix cs ds

-- "MemAvailable:"
abbrev mem_available_prefix : Text
mem_available_prefix =
    b'M' ∷ b'e' ∷ b'm' ∷ b'A' ∷ b'v' ∷ b'a' ∷ b'i' ∷ b'l' ∷ b'a' ∷ b'b' ∷ b'l' ∷ b'e' ∷ b':' ∷ []

-- `strings.Fields`: the runs of bytes between white space. `word` is the run being read.
unfoldable pub fields : Text → List Text
fields [] = []
fields (c ∷ cs) =
    let rest = fields cs in
    if is_space c then rest else elim cs [
      | [] ↦ (c ∷ []) ∷ []
      | d ∷ ds ↦ if is_space d then (c ∷ []) ∷ rest else grow c rest
    ]
  where
    grow : ℕ → List Text → List Text
    grow c [] = (c ∷ []) ∷ []
    grow c (w ∷ ws) = (c ∷ w) ∷ ws

abbrev second {ℓ} : {A : Type ℓ} → List A → Option A
second (x ∷ y ∷ r) = some y
second _ = none

-- Go's `kb / 1024` rounds towards zero.
abbrev kb_to_mb : ℤ → ℤ
kb_to_mb (pos n) = pos (n / 1024)
kb_to_mb (negsuc n) = if ltb (suc n) 1024 then pos 0 else negsuc (suc n / 1024 - 1)

-- The first line with the prefix decides.
unfoldable pub find_mem_available : List Text → Result ParseError ℤ
find_mem_available [] = failed mem_available_not_found
find_mem_available (l ∷ ls) =
    if has_prefix mem_available_prefix l
    then (do
      value ← or_fail (second (fields l)) unexpected_meminfo_line
      kb ← or_fail (parse_int value) bad_mem_available
      succeeded (kb_to_mb kb))
    else find_mem_available ls

unfoldable pub parse_mem_available : Text → Result ParseError ℤ
parse_mem_available text = find_mem_available (scanned (split_lines text))
