-- ===== src/Cpplint/Comments/Spec.antt =====
-- What `RemoveMultiLineComments` of cpplint.py should leave: one pass over the lines, which is inside
-- a comment or outside, with neither indices nor changes in place.
use yarf.Common.{
  ℕ, ◌+◌, Bool, true, false, not, ◌&&◌, ◌||◌, Option, none, some, List, [], ◌∷◌, if◌then◌else◌,
}
use yarf.Text.{Text}
use yarf.Cpplint.Comments.{starts, ends, dummy}

abbrev pub any : (Text → Bool) → List Text → Bool
any p [] = false
any p (line ∷ lines) = p line || any p lines

-- The lines that are left, the flag telling whether the pass is inside a comment. A comment that no
-- line ends stays, with all that follows.
unfoldable pub pass : Bool → List Text → List Text
pass inside [] = []
pass true (line ∷ lines) = dummy ∷ pass (not (ends line)) lines
pass false (line ∷ lines) =
    let rest = pass (starts line && not (ends line)) lines in
    if starts line
    then (if any ends (line ∷ lines) then dummy ∷ rest else line ∷ lines)
    else line ∷ rest

-- The number of the line that begins a comment which no line ends; `n` lines stand before.
unfoldable pub unclosed : Bool → ℕ → List Text → Option ℕ
unclosed inside n [] = none
unclosed true n (line ∷ lines) = unclosed (not (ends line)) (n + 1) lines
unclosed false n (line ∷ lines) =
    let rest = unclosed (starts line && not (ends line)) (n + 1) lines in
    if starts line && not (any ends (line ∷ lines)) then some (n + 1) else rest
