-- ===== src/Cpplint/IncludeState.antt =====
-- `_IncludeState` of cpplint.py: the headers that a file includes, and the order in which they come.
pub mod Order
pub mod Headers
pub mod Alphabet
pub mod Ascending
use yarf.Common.{
  ℕ, Bool, true, false, Option, none, some, List, [], ◌∷◌, ◌++◌, ◌||◌, leb, ◌==◌, if◌then◌else◌,
}
use yarf.Text.{Text, codes, text_eq}

-- _C_SYS_HEADER and the other four
pub data HeaderType : Type 0 where
  c_sys_header cpp_sys_header likely_my_header possible_my_header other_header : HeaderType

pub data Section : Type 0 where
  initial_section my_h_section c_section cpp_section other_h_section : Section

-- The constant that stands for a section.
abbrev pub rank : Section → ℕ
rank initial_section = 0
rank my_h_section = 1
rank c_section = 2
rank cpp_section = 3
rank other_h_section = 4

abbrev pub type_name : HeaderType → Text
type_name c_sys_header = codes "C system header"
type_name cpp_sys_header = codes "C++ system header"
type_name likely_my_header = codes "header this file implements"
type_name possible_my_header = codes "header this file may implement"
type_name other_header = codes "other header"

abbrev pub section_name : Section → Text
section_name initial_section = codes "... nothing. (This can't be an error.)"
section_name my_h_section = codes "a header this file implements"
section_name c_section = codes "C system header"
section_name cpp_section = codes "C++ system header"
section_name other_h_section = codes "other header"

pub record IncludeState : Type 0 where
  pub include_list : List (List (Text × ℕ))
  pub section : Section
  pub last_header : Text

-- The first entry of a header in one list.
unfoldable pub find_in_list : Text → List (Text × ℕ) → Option ℕ
find_in_list header [] = none
find_in_list header ((f, line) ∷ fs) =
    if text_eq f header then some line else find_in_list header fs

-- The first of two line numbers that is there.
abbrev pub or_else : Option ℕ → Option ℕ → Option ℕ
or_else none o = o
or_else (some n) o = some n

-- FindHeader, with `none` for -1
unfoldable pub find_header : Text → List (List (Text × ℕ)) → Option ℕ
unfolding find_in_list
find_header header [] = none
find_header header (section_list ∷ lists) =
    or_else (find_in_list header section_list) (find_header header lists)

-- include_list[-1] = f(include_list[-1]); an empty list, at which Python raises IndexError, stays.
unfoldable pub update_last :
    (List (Text × ℕ) → List (Text × ℕ)) → List (List (Text × ℕ)) → List (List (Text × ℕ))
update_last f [] = []
update_last f (l ∷ []) = f l ∷ []
update_last f (l ∷ m ∷ ls) = l ∷ update_last f (m ∷ ls)

abbrev pub opens : Text → Bool
opens directive =
    text_eq directive (codes "if")
    || text_eq directive (codes "ifdef")
    || text_eq directive (codes "ifndef")

abbrev pub switches : Text → Bool
switches directive = text_eq directive (codes "else") || text_eq directive (codes "elif")

-- ResetSection
unfoldable pub reset_section : Text → IncludeState → IncludeState
unfolding update_last
reset_section directive s = record {
  include_list =
      if opens directive
      then s.include_list ++ ([] ∷ [])
      else if switches directive
      then update_last (λ l. []) s.include_list
      else s.include_list;
  section = initial_section;
  last_header = [];
}

-- __init__
unfoldable pub new_state : IncludeState
unfolding reset_section
new_state =
    reset_section []
      (record { include_list = [] ∷ []; section = initial_section; last_header = [] })

-- SetLastHeader
unfoldable pub set_last_header : Text → IncludeState → IncludeState
set_last_header header_path s = record s { last_header = header_path }

-- include_state.include_list[-1].append((include, linenum)), in CheckIncludeLine
unfoldable pub add_include : Text → ℕ → IncludeState → IncludeState
unfolding update_last
add_include include linenum s = record s {
  include_list = update_last (λ l. l ++ ((include, linenum) ∷ [])) s.include_list;
}

-- The section after a header; `none` where the header is out of order.
unfoldable pub next_section : HeaderType → Section → Option Section
next_section c_sys_header s = if leb (rank s) (rank c_section) then some c_section else none
next_section cpp_sys_header s = if leb (rank s) (rank cpp_section) then some cpp_section else none
next_section likely_my_header s =
    some (if leb (rank s) (rank my_h_section) then my_h_section else other_h_section)
next_section possible_my_header s =
    some (if leb (rank s) (rank my_h_section) then my_h_section else other_h_section)
next_section other_header s = some other_h_section

unfoldable pub error_message : HeaderType → Section → Text
error_message header_type s =
    codes "Found " ++ (type_name header_type ++ (codes " after " ++ section_name s))

-- CheckNextIncludeOrder: the state after it, and the message, which is empty in order.
unfoldable pub check_next_include_order : HeaderType → IncludeState → IncludeState × Text
unfolding next_section error_message
check_next_include_order header_type s = elim (next_section header_type s.section) [
  | none ↦ (record s { last_header = [] }, error_message header_type s.section)
  | some section ↦ (
    record s {
      section = section;
      last_header = if rank s.section == rank section then s.last_header else [];
    },
    [],
  )
]

-- The messages for the headers of a run of include lines.
unfoldable pub check_all : List HeaderType → IncludeState → IncludeState × List Text
check_all [] s = (s, [])
check_all (t ∷ ts) s =
    let (s', message) = check_next_include_order t s in
    let (s'', messages) = check_all ts s' in (s'', message ∷ messages)
