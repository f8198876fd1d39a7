-- ===== src/Cpplint/Comments.antt =====
-- The removal of comments over several lines in cpplint.py: `RemoveMultiLineComments` and the
-- functions it calls. `lines` is changed in place, so the model returns it.
pub mod Spec
pub mod Search
pub mod Pass
pub mod Rounds
pub mod Refine
pub mod Effect
mod Tests
use yarf.Common.{
  ℕ, zero, suc, ◌+◌, ◌-◌, Bool, true, false, not, ◌&&◌, ◌||◌, Option, none, some, List, [], ◌∷◌,
  ◌++◌, leb, ltb, ◌==◌, if◌then◌else◌, length, drop, Result, ok, raised, index_error, ◌>>=◌,
}
use yarf.Text.{Text, codes, is_prefix, find, strip}

-- s.endswith(t)
unfoldable pub ends_with : Text → Text → Bool
unfolding is_prefix
ends_with t s = leb (length t) (length s) && is_prefix t (drop (length s - length t) s)

abbrev pub is_none : Option ℕ → Bool
is_none none = true
is_none (some i) = false

-- The line begins a comment that goes on behind it.
unfoldable pub starts : Text → Bool
starts line =
    is_prefix (codes "/*") (strip line) && is_none (find (codes "*/") (drop 2 (strip line)))

-- The line ends a comment.
unfoldable pub ends : Text → Bool
ends line = ends_with (codes "*/") (strip line)

-- The search from a line on; the last list is lines[lineix:].
unfoldable pub find_from : (Text → Bool) → List Text → ℕ → List Text → ℕ
find_from p lines lineix [] = length lines
find_from p lines lineix (line ∷ rest) =
    if p line then lineix else find_from p lines (lineix + 1) rest

-- FindNextMultiLineCommentStart and FindNextMultiLineCommentEnd
unfoldable pub find_next_start : List Text → ℕ → ℕ
find_next_start lines lineix = find_from starts lines lineix (drop lineix lines)

unfoldable pub find_next_end : List Text → ℕ → ℕ
find_next_end lines lineix = find_from ends lines lineix (drop lineix lines)

abbrev pub dummy : Text
dummy = codes "/**/"

-- lines[i] = line
unfoldable pub set_line : ℕ → Text → List Text → Result (List Text)
set_line i line [] = raised index_error
set_line zero line (old ∷ lines) = ok (line ∷ lines)
set_line (suc i) line (old ∷ lines) = do lines' ← set_line i line lines; ok (old ∷ lines')

-- The loop of `RemoveMultiLineCommentsFromRange`, for a number of lines from `begin` on.
unfoldable pub clear_lines : ℕ → ℕ → List Text → Result (List Text)
clear_lines begin zero lines = ok lines
clear_lines begin (suc n) lines = do
  lines' ← set_line begin dummy lines
  clear_lines (begin + 1) n lines'

-- RemoveMultiLineCommentsFromRange
unfoldable pub remove_from_range : List Text → ℕ → ℕ → Result (List Text)
remove_from_range lines begin end = clear_lines begin (end - begin) lines

-- How `RemoveMultiLineComments` ends: with the lines and the line number that it reports, if it
-- reports one; with an IndexError; or not in the number of rounds allowed.
pub data Removal : Type 0 where
  returned : List Text → Option ℕ → Removal
  failed : Removal
  unfinished : Removal

pub data Round : Type 0 where
  leave : Removal → Round
  again : ℕ → List Text → Round

abbrev pub cleared : ℕ → Result (List Text) → Round
cleared lineix (ok lines) = again lineix lines
cleared lineix (raised e) = leave failed

abbrev pub at_end : ℕ → ℕ → List Text → Round
at_end lineix_begin lineix_end lines =
    if leb (length lines) lineix_end
    then leave (returned lines (some (lineix_begin + 1)))
    else cleared (lineix_end + 1) (remove_from_range lines lineix_begin (lineix_end + 1))

abbrev pub at_start : ℕ → List Text → Round
at_start lineix_begin lines =
    if leb (length lines) lineix_begin
    then leave (returned lines none)
    else at_end lineix_begin (find_next_end lines lineix_begin) lines

-- One round of `RemoveMultiLineComments`.
unfoldable pub remove_round : ℕ → List Text → Round
remove_round lineix lines =
    if ltb lineix (length lines)
    then at_start (find_next_start lines lineix) lines
    else leave (returned lines none)

unfoldable pub remove_loop : ℕ → ℕ → List Text → Removal
remove_loop zero lineix lines = unfinished
remove_loop (suc fuel) lineix lines = elim (remove_round lineix lines) [
  | leave r ↦ r
  | again lineix' lines' ↦ remove_loop fuel lineix' lines'
]

-- RemoveMultiLineComments: every round but the last removes a line or more.
unfoldable pub remove_multi_line_comments : List Text → Removal
remove_multi_line_comments lines = remove_loop (length lines + 1) 0 lines
