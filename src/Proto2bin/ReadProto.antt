-- ===== src/Proto2bin/ReadProto.antt =====
-- `read_proto` of tools/proto2bin.py: one pass over the lines of a proto file.
pub mod Spec
pub mod Step
pub mod Open
pub mod Ranges
pub mod Ends
use yarf.Common.{
  ℕ, ◌+◌, ◌-◌, Bool, true, false, not, ◌&&◌, ◌||◌, Option, none, some, List, [], ◌∷◌, ◌++◌, leb,
  ◌==◌, if◌then◌else◌, length, drop, Result, ok, raised, key_error, ◌>>=◌,
}
use yarf.Text.{Text, codes, text_eq, find, lstrip}
use yarf.Dict.{Dict, lookup, insert}

abbrev pub keyword_msg : Text
keyword_msg = codes "message"

-- The regular expression VAR_NAME_RE, ^[A-Za-z_][A-Za-z0-9_]*, which takes as much as it can.
abbrev is_name_start : ℕ → Bool
is_name_start c = (leb b'A' c && leb c b'Z') || (leb b'a' c && leb c b'z') || c == b'_'

abbrev is_name_char : ℕ → Bool
is_name_char c = is_name_start c || (leb b'0' c && leb c b'9')

unfoldable pub name_chars : Text → Text
name_chars [] = []
name_chars (c ∷ t) = if is_name_char c then c ∷ name_chars t else []

unfoldable pub var_name : Text → Option Text
unfolding name_chars
var_name [] = none
var_name (c ∷ t) = if is_name_start c then some (c ∷ name_chars t) else none

-- The local variables of the loop; `line_no` is the number of lines read.
pub record Scan : Type 0 where
  pub line_no : ℕ
  pub last_msg_name : Text
  pub parse_begin : Bool
  pub parse_end : Bool
  pub file_lines : List Text
  pub struct_dict : Dict (List ℕ)
  pub parse_instruct : List Text

abbrev pub start : Scan
start = record {
  line_no = 0;
  last_msg_name = [];
  parse_begin = false;
  parse_end = false;
  file_lines = [];
  struct_dict = [];
  parse_instruct = [];
}

-- 0 == tmp.find(s)
abbrev pub stands_first : Text → Text → Bool
stands_first s tmp = elim (find s tmp) [ none ↦ false | some i ↦ i == 0 ]

-- "get gen instruct": what stands from //gen_begin up to //gen_end.
unfoldable pub gen_instruct : Text → Scan → Scan
unfolding find lstrip
gen_instruct line s =
    let tmp = lstrip line in
    if s.parse_end
    then s
    else if not s.parse_begin
    then (if stands_first (codes "//gen_begin") tmp
        then record s { parse_begin = true; parse_instruct = s.parse_instruct ++ (tmp ∷ []) }
        else s)
    else if stands_first (codes "//gen_end") tmp
    then record s { parse_end = true }
    else record s { parse_instruct = s.parse_instruct ++ (tmp ∷ []) }

-- struct_dict[name].append(n)
unfoldable pub append_line : Text → ℕ → Dict (List ℕ) → Result (Dict (List ℕ))
unfolding lookup insert
append_line name n d = elim (lookup name d) [
  | none ↦ raised key_error
  | some l ↦ ok (insert name (l ++ (n ∷ [])) d)
]

-- A line that holds the keyword opens the message that it names, and closes the one before it.
unfoldable pub open_message : Text → Scan → Result Scan
unfolding insert
open_message name s = do
  let d = insert name (s.line_no ∷ []) s.struct_dict
  d' ← if text_eq s.last_msg_name [] then ok d else append_line s.last_msg_name (s.line_no - 1) d
  ok (record s { struct_dict = d'; last_msg_name = name })

-- What the search for the keyword makes of a line: no message, an error that ends the call, or the
-- opening of a message.
pub data LineKind : Type 0 where
  plain bad : LineKind
  opens : Text → LineKind

unfoldable pub classify : Text → LineKind
unfolding find lstrip var_name
classify line = elim (find keyword_msg line) [
  | none ↦ plain
  | some idx ↦
      let subline = drop (idx + length keyword_msg) line in
      elim (find keyword_msg subline) [
        | some _ ↦ bad
        | none ↦ elim (var_name (lstrip subline)) [ none ↦ bad | some name ↦ opens name ]
      ]
]

-- "get struct dict & lines"; `none` is `return None`.
unfoldable pub struct_line : LineKind → Scan → Result (Option Scan)
struct_line plain s = ok (some s)
struct_line bad s = ok none
struct_line (opens name) s = do s' ← open_message name s; ok (some s')

-- One round of the loop.
unfoldable pub read_line : Text → Scan → Result (Option Scan)
read_line line s = do
  r ← struct_line (classify line) (gen_instruct line (record s { line_no = s.line_no + 1 }))
  elim r [
    | none ↦ ok none
    | some s' ↦ ok (some (record s' { file_lines = s'.file_lines ++ (line ∷ []) }))
  ]

-- What the function returns: the lines, the ranges of the messages and the instructions.
abbrev pub Proto : Type 0
Proto = List Text × Dict (List ℕ) × List Text

unfoldable pub close_last : Scan → Result (Option Proto)
close_last s = do
  d ← append_line s.last_msg_name s.line_no s.struct_dict
  ok (some (s.file_lines, d, s.parse_instruct))

-- `while line`: a file is the list of its lines with their line feeds, so none is empty.
unfoldable pub read_loop : List Text → Scan → Result (Option Proto)
read_loop [] s = close_last s
read_loop (line ∷ file) s = do
  r ← read_line line s
  elim r [ none ↦ ok none | some s' ↦ read_loop file s' ]

unfoldable pub read_proto : List Text → Result (Option Proto)
read_proto file = read_loop file start
