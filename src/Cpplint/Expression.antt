-- ===== src/Cpplint/Expression.antt =====
-- The matching of brackets in cpplint.py: `FindEndOfExpressionInLine`, `CloseExpression` and their
-- counterparts that read backwards. A position -1 is `none`, and a stack has its top first.
pub mod Balanced
pub mod RoundTrip
pub mod Bounds
use mathlib.Core.List.{reverse}
use yarf.Common.{
  ℕ, zero, suc, ◌+◌, ◌-◌, Bool, true, false, not, ◌&&◌, ◌||◌, Option, none, some, List, [], ◌∷◌,
  ◌++◌, leb, ◌==◌, if◌then◌else◌, length, take, drop, get_elem?, Result, ok, raised, index_error,
}
use yarf.Text.{Text, codes, is_prefix, is_space}

-- \w
abbrev pub is_word : ℕ → Bool
is_word c =
    (leb b'a' c && leb c b'z')
    || (leb b'A' c && leb c b'Z')
    || (leb b'0' c && leb c b'9')
    || c == b'_'

abbrev pub skip_spaces : Text → Text
skip_spaces [] = []
skip_spaces (c ∷ t) = if is_space c then skip_spaces t else c ∷ t

abbrev pub at_boundary : Text → Bool
at_boundary [] = true
at_boundary (c ∷ t) = not (is_word c)

-- Search(r'\boperator\s*$', text), on the reversed text.
unfoldable pub after_operator : Text → Bool
unfolding is_prefix
after_operator reversed =
    let r = skip_spaces reversed in is_prefix (codes "rotarepo") r && at_boundary (drop 8 r)

abbrev pub opens : ℕ → Bool
opens c = c == b'(' || c == b'[' || c == b'{'

abbrev pub closes : ℕ → Bool
closes c = c == b')' || c == b']' || c == b'}'

-- The bracket that closes one of the three.
abbrev pub pairs : ℕ → ℕ → Bool
pairs o c = (o == b'(' && c == b')') || (o == b'[' && c == b']') || (o == b'{' && c == b'}')

-- The character before, if there is one, is `c`.
abbrev pub follows : ℕ → Text → Bool
follows c [] = false
follows c (d ∷ t) = d == c

-- while stack and stack[-1] == c: stack.pop()
abbrev pub pop_all : ℕ → List ℕ → List ℕ
pop_all c [] = []
pop_all c (d ∷ stack) = if d == c then pop_all c stack else d ∷ stack

-- How a scan of a line ends: at a position, with (-1, None), or with the stack at its end.
pub data Found : Type 0 where
  at : ℕ → Found
  unclosed : Found
  open_with : List ℕ → Found

pub data Step : Type 0 where
  stop : Found → Step
  next : List ℕ → Step

-- A bracket that ends what the top of the stack begins; `here` is where the scan ends if this was
-- the last one.
abbrev pub pop_pair : (ℕ → Bool) → ℕ → List ℕ → Step
pop_pair fits here [] = stop unclosed
pop_pair fits here (top ∷ []) = if fits top then stop (at here) else stop unclosed
pop_pair fits here (top ∷ d ∷ stack) = if fits top then next (d ∷ stack) else stop unclosed

-- At the end of a statement.
abbrev pub at_semicolon : List ℕ → Step
at_semicolon [] = stop unclosed
at_semicolon (d ∷ stack) = next (d ∷ stack)

-- '<' behind '<'
abbrev pub shift_left : List ℕ → Step
shift_left [] = next []
shift_left (top ∷ []) = if top == b'<' then stop unclosed else next (top ∷ [])
shift_left (top ∷ d ∷ stack) = if top == b'<' then next (d ∷ stack) else next (top ∷ d ∷ stack)

-- '>' that may close a '<'
abbrev pub pop_angle : ℕ → ℕ → List ℕ → Step
pop_angle angle here [] = next []
pop_angle angle here (top ∷ []) = if top == angle then stop (at here) else next (top ∷ [])
pop_angle angle here (top ∷ d ∷ stack) =
    if top == angle then next (d ∷ stack) else next (top ∷ d ∷ stack)

-- One round of `FindEndOfExpressionInLine`; `before` is line[0:i], reversed.
unfoldable pub end_step : Text → ℕ → List ℕ → Step
end_step before c stack =
    if opens c
    then next (c ∷ stack)
    else if c == b'<'
    then (if follows b'<' before
        then shift_left stack
        else if after_operator before
        then next stack
        else next (b'<' ∷ stack))
    else if closes c
    then pop_pair (λ top. pairs top c) (length before + 1) (pop_all b'<' stack)
    else if c == b'>'
    then (if follows b'-' before || after_operator (drop 1 before)
        then next stack
        else pop_angle b'<' (length before + 1) stack)
    else if c == b';'
    then at_semicolon (pop_all b'<' stack)
    else next stack

-- FindEndOfExpressionInLine: `before` reversed is line[0:i], and `rest` is line[i:].
unfoldable pub find_end : Text → Text → List ℕ → Found
find_end before [] stack = open_with stack
find_end before (c ∷ rest) stack = elim (end_step before c stack) [
  | stop r ↦ r
  | next stack' ↦ find_end (c ∷ before) rest stack'
]

-- line[i - 1] is a space and line[i + 1:i + 3] is '=' and a space
abbrev pub is_ge : Text → Text → Bool
is_ge (d ∷ before) (e ∷ f ∷ after) = is_space d && (e == b'=' && is_space f)
is_ge before after = false

-- Whether `FindStartOfExpressionInLine` passes over the character before `c` as well; `before` is
-- line[0:i], reversed, and `after` is line[i+1:].
unfoldable pub skips : Text → Text → ℕ → Bool
skips before after c =
    (c == b'>' && (follows b'-' before || is_ge before after || after_operator before))
    || (c == b'<' && follows b'<' before)

unfoldable pub start_step : Text → Text → ℕ → List ℕ → Step
start_step before after c stack =
    if closes c
    then next (c ∷ stack)
    else if c == b'>'
    then next (if skips before after c then stack else b'>' ∷ stack)
    else if c == b'<'
    then (if skips before after c then next stack else pop_angle b'>' (length before) stack)
    else if opens c
    then pop_pair (λ top. pairs c top) (length before) (pop_all b'>' stack)
    else if c == b';'
    then at_semicolon (pop_all b'>' stack)
    else next stack

-- FindStartOfExpressionInLine: the first text is line[0:i+1], reversed, and `after` is line[i+1:].
unfoldable pub find_start : Bool → Text → Text → List ℕ → Found
find_start skip [] after stack = open_with stack
find_start true (c ∷ before) after stack = find_start false before (c ∷ after) stack
find_start false (c ∷ before) after stack = elim (start_step before after c stack) [
  | stop r ↦ r
  | next stack' ↦ find_start (skips before after c) before (c ∷ after) stack'
]

-- A line, its number, and a position in it.
pub record Place : Type 0 where
  pub line : Text
  pub linenum : ℕ
  pub pos : Option ℕ

-- line[pos] in '({[<' and not Match(r'<[<=]', line[pos:])
abbrev pub begins : Text → Bool
begins [] = false
begins (c ∷ []) = opens c || c == b'<'
begins (c ∷ d ∷ t) = opens c || (c == b'<' && not (d == b'<' || d == b'='))

-- The loop of `CloseExpression` over the lines that follow.
unfoldable pub close_loop : ℕ → List Text → ℕ → Text → List ℕ → Place
close_loop num_lines [] linenum line stack = record { line = line; linenum = num_lines; pos = none }
close_loop num_lines (l ∷ ls) linenum line [] = record {
  line = line;
  linenum = num_lines;
  pos = none;
}
close_loop num_lines (l ∷ ls) linenum line (d ∷ stack) = elim (find_end [] l (d ∷ stack)) [
  | at p ↦ record { line = l; linenum = linenum + 1; pos = some p }
  | unclosed ↦ record { line = l; linenum = num_lines; pos = none }
  | open_with stack' ↦ close_loop num_lines ls (linenum + 1) l stack'
]

-- The first line, with line[pos:] taken off.
unfoldable pub close_first : List Text → ℕ → Text → ℕ → Text → Place
close_first elided linenum line pos from =
    if begins from
    then (elim (find_end (reverse (take pos line)) from []) [
      | at p ↦ record { line = line; linenum = linenum; pos = some p }
      | unclosed ↦ record { line = line; linenum = length elided; pos = none }
      | open_with stack ↦ close_loop (length elided) (drop (linenum + 1) elided) linenum line stack
    ])
    else record { line = line; linenum = length elided; pos = none }

-- CloseExpression, on the elided lines; a line or position that is not there raises IndexError.
unfoldable pub close_expression : List Text → ℕ → ℕ → Result Place
unfolding close_first
close_expression elided linenum pos = elim (get_elem? elided linenum) [
  | none ↦ raised index_error
  | some line ↦ elim (drop pos line) [
    | [] ↦ raised index_error
    | c ∷ t ↦ ok (close_first elided linenum line pos (c ∷ t))
  ]
]

-- The loop of `ReverseCloseExpression` over the lines before, the nearest first.
unfoldable pub reverse_loop : List Text → ℕ → Text → List ℕ → Place
reverse_loop [] linenum line stack = record { line = line; linenum = 0; pos = none }
reverse_loop (l ∷ ls) linenum line [] = record { line = line; linenum = 0; pos = none }
reverse_loop (l ∷ ls) linenum line (d ∷ stack) =
    elim (find_start false (reverse l) [] (d ∷ stack)) [
      | at p ↦ record { line = l; linenum = linenum - 1; pos = some p }
      | unclosed ↦ record { line = l; linenum = 0; pos = none }
      | open_with stack' ↦ reverse_loop ls (linenum - 1) l stack'
    ]

unfoldable pub reverse_first : List Text → ℕ → Text → ℕ → ℕ → Text → Place
reverse_first elided linenum line pos c after =
    if closes c || c == b'>'
    then (elim (find_start false (c ∷ reverse (take pos line)) after []) [
      | at p ↦ record { line = line; linenum = linenum; pos = some p }
      | unclosed ↦ record { line = line; linenum = 0; pos = none }
      | open_with stack ↦ reverse_loop (reverse (take linenum elided)) linenum line stack
    ])
    else record { line = line; linenum = 0; pos = none }

-- ReverseCloseExpression
unfoldable pub reverse_close_expression : List Text → ℕ → ℕ → Result Place
unfolding reverse_first
reverse_close_expression elided linenum pos = elim (get_elem? elided linenum) [
  | none ↦ raised index_error
  | some line ↦ elim (drop pos line) [
    | [] ↦ raised index_error
    | c ∷ t ↦ ok (reverse_first elided linenum line pos c t)
  ]
]
