-- ===== src/Cpplint/IncludeState/Alphabet.antt =====
-- `CanonicalizeAlphabeticalOrder` and `IsInAlphabeticalOrder` of `_IncludeState` in cpplint.py, and what
-- `CheckIncludeLine` does with the state at an include line.
use yarf.Common.{
  ℕ, ◌+◌, Bool, true, false, not, ◌&&◌, ◌||◌, ◌==◌, leb, ltb, List, [], ◌∷◌, map, if◌then◌else◌,
  drop, all, none, some,
}
use yarf.Cpplint.Comments.{ends_with}
use yarf.Text.{Text, codes, is_prefix, text_eq, replace, lstrip}
use yarf.Cpplint.IncludeState.{
  HeaderType, IncludeState, find_header, add_include, set_last_header, check_next_include_order,
  error_message,
}

-- ch.lower() of one byte, in the C locale
unfoldable lower_char : ℕ → ℕ
lower_char c = if leb b'A' c && leb c b'Z' then c + 32 else c

-- s < t
unfoldable pub text_lt : Text → Text → Bool
text_lt s [] = false
text_lt [] (d ∷ t) = true
text_lt (c ∷ s) (d ∷ t) = ltb c d || (c == d && text_lt s t)

-- CanonicalizeAlphabeticalOrder
unfoldable pub canonicalize_alphabetical_order : Text → Text
unfolding lower_char
canonicalize_alphabetical_order header_path =
    map lower_char
      (replace (codes "-") (codes "_") (replace (codes "-inl.h") (codes ".h") header_path))

abbrev is_word : ℕ → Bool
is_word c =
    (leb b'0' c && leb c b'9')
    || (leb b'A' c && leb c b'Z')
    || c == b'_'
    || (leb b'a' c && leb c b'z')

-- The pattern ^\s*#\s*include\b
unfoldable pub match_include : Text → Bool
match_include line = behind_spaces (lstrip line)
  where
    ends_word : Text → Bool
    ends_word [] = true
    ends_word (c ∷ t) = not (is_word c)

    behind_spaces : Text → Bool
    behind_spaces [] = false
    behind_spaces (c ∷ t) =
        c == b'#' && (is_prefix (codes "include") (lstrip t) && ends_word (drop 7 (lstrip t)))

-- IsInAlphabeticalOrder, with the line before, clean_lines.elided[linenum - 1].
unfoldable pub is_in_alphabetical_order : Text → Text → IncludeState → Bool
is_in_alphabetical_order before header_path s =
    not (text_lt header_path s.last_header && match_include before)

-- An include line, with the line before it.
pub record Include : Type 0 where
  pub path : Text
  pub linenum : ℕ
  pub before : Text

-- os.path.dirname(path): what stands up to the last slash, without slashes at its end, unless it is
-- slashes alone.
unfoldable pub up_to_slash : Text → Text
up_to_slash [] = []
up_to_slash (c ∷ t) = elim (up_to_slash t) [
  | [] ↦ if c == b'/' then c ∷ [] else []
  | d ∷ r ↦ c ∷ d ∷ r
]

abbrev is_slash : ℕ → Bool
is_slash c = c == b'/'

unfoldable pub strip_slashes : Text → Text
strip_slashes [] = []
strip_slashes (c ∷ t) = elim (strip_slashes t) [
  | [] ↦ if is_slash c then [] else c ∷ []
  | d ∷ r ↦ c ∷ d ∷ r
]

unfoldable pub dirname : Text → Text
unfolding up_to_slash strip_slashes
dirname path = let head = up_to_slash path in if all is_slash head then head else strip_slashes head

-- A .cc file that is not in the directory of the file that is checked.
unfoldable pub is_foreign : Text → Text → Bool
unfolding dirname
is_foreign repository_name include =
    ends_with (codes ".cc") include && not (text_eq (dirname repository_name) (dirname include))

abbrev is_upper : ℕ → Bool
is_upper c = leb b'A' c && leb c b'Z'

-- The pattern ^(?:[^/]*[A-Z][^/]*\.h|lua\.h|lauxlib\.h|lualib\.h)$ on a path of one line
unfoldable pub is_third_party : Text → Bool
is_third_party include =
    (all (λ c. not (is_slash c)) include
      && (not (all (λ c. not (is_upper c)) include) && ends_with (codes ".h") include))
    || (text_eq include (codes "lua.h")
        || (text_eq include (codes "lauxlib.h") || text_eq include (codes "lualib.h")))

-- The calls of CheckIncludeLine at a line whose header is entered and is of a type: the message about
-- the section, and whether the header is in alphabetical order.
unfoldable pub enter_include : HeaderType → Include → IncludeState → IncludeState × Text × Bool
enter_include header_type i s =
    let (s', error_message) =
      check_next_include_order header_type (add_include i.path i.linenum s) in
    let canonical_include = canonicalize_alphabetical_order i.path in
    (
      set_last_header canonical_include s',
      error_message,
      is_in_alphabetical_order i.before canonical_include s',
    )

-- What CheckIncludeLine finds at an include line: the line at which the header was included already, a
-- source file of another package, a header that is not entered, or one that is, with the message about
-- the section and whether it is in alphabetical order.
pub data Verdict : Type 0 where
  already_included : ℕ → Verdict
  foreign_source third_party : Verdict
  checked : Text → Bool → Verdict

abbrev pub entered : IncludeState × Text × Bool → IncludeState × Verdict
entered (s, message, ordered) = (s, checked message ordered)

-- CheckIncludeLine from FindHeader on, in a file of this name in its repository.
unfoldable pub check_include_line :
    Text → HeaderType → Include → IncludeState → IncludeState × Verdict
unfolding find_header is_foreign is_third_party enter_include
check_include_line repository_name header_type i s = elim (find_header i.path s.include_list) [
  | some duplicate_line ↦ (s, already_included duplicate_line)
  | none ↦
      if is_foreign repository_name i.path
      then (s, foreign_source)
      else if is_third_party i.path
      then (s, third_party)
      else entered (enter_include header_type i s)
]

-- Lines of one type.
unfoldable pub check_block : Text → HeaderType → List Include → IncludeState → List Verdict
check_block repository_name header_type [] s = []
check_block repository_name header_type (i ∷ is) s =
    let (s', verdict) = check_include_line repository_name header_type i s in
    verdict ∷ check_block repository_name header_type is s'

-- Whether the header is entered, and nothing is said of the order of the alphabet.
abbrev pub is_ordered : Verdict → Bool
is_ordered (already_included n) = false
is_ordered foreign_source = false
is_ordered third_party = false
is_ordered (checked message ordered) = ordered

-- No path comes before the one in front of it.
unfoldable pub ascends : List Text → Bool
ascends [] = true
ascends (p ∷ []) = true
ascends (p ∷ q ∷ ps) = not (text_lt q p) && ascends (q ∷ ps)
