-- ===== src/Cpplint/Comments/Tests.antt =====
-- Runs of the removal of comments of cpplint.py.
use yarf.Common.{◌≡◌, refl, false, none, some, List, [], ◌∷◌}
use yarf.Text.{Text, codes, is_prefix, find, strip, lstrip, rstrip}
use yarf.Cpplint.Comments.{
  starts, ends, ends_with, dummy, returned, remove_multi_line_comments, remove_loop, remove_round,
  find_next_start, find_next_end, find_from, remove_from_range, clear_lines, set_line,
}
use yarf.Cpplint.Comments.Spec.{any, pass, unclosed}
use yarf.Cpplint.Comments.Refine.{remove_multi_line_comments_lem}
use yarf.Cpplint.Comments.Effect.{
  Reports, remove_multi_line_comments_again, remove_multi_line_comments-Reports,
}

-- The second comment ends; the third does not.
abbrev source : List Text
source =
    codes "int a; /* a */"
    ∷ codes "/* b */"
    ∷ codes "  /* c"
    ∷ codes ""
    ∷ codes "d */"
    ∷ codes "int e;"
    ∷ []

abbrev cleaned : List Text
cleaned = codes "int a; /* a */" ∷ codes "/* b */" ∷ dummy ∷ dummy ∷ dummy ∷ codes "int e;" ∷ []

abbrev open_source : List Text
open_source = codes "int a;" ∷ codes "/* b" ∷ codes "*/" ∷ codes "/* c" ∷ codes "int d;" ∷ []

abbrev open_cleaned : List Text
open_cleaned = codes "int a;" ∷ dummy ∷ dummy ∷ codes "/* c" ∷ codes "int d;" ∷ []

run_source : remove_multi_line_comments source ≡ returned cleaned none
unfolding remove_multi_line_comments remove_loop remove_round find_next_start find_next_end
    find_from remove_from_range clear_lines set_line starts ends ends_with strip lstrip rstrip find
    is_prefix
run_source = refl

run_open_source : remove_multi_line_comments open_source ≡ returned open_cleaned (some 4)
unfolding remove_multi_line_comments remove_loop remove_round find_next_start find_next_end
    find_from remove_from_range clear_lines set_line starts ends ends_with strip lstrip rstrip find
    is_prefix
run_open_source = refl

-- A comment that begins with the line `/*/` goes on in C++, but ends there for cpplint.
run_slash :
    remove_multi_line_comments (codes "/*/" ∷ codes "int a;" ∷ codes "*/" ∷ [])
    ≡ returned (dummy ∷ codes "int a;" ∷ codes "*/" ∷ []) none
unfolding remove_multi_line_comments remove_loop remove_round find_next_start find_next_end
    find_from remove_from_range clear_lines set_line starts ends ends_with strip lstrip rstrip find
    is_prefix
run_slash = refl

remove_multi_line_comments_lem_example :
    remove_multi_line_comments open_source
    ≡ returned (pass false open_source) (unclosed false 0 open_source)
remove_multi_line_comments_lem_example = remove_multi_line_comments_lem open_source

remove_multi_line_comments_again_example :
    (any starts cleaned ≡ false) × (remove_multi_line_comments cleaned ≡ returned cleaned none)
remove_multi_line_comments_again_example =
    remove_multi_line_comments_again source cleaned run_source

remove_multi_line_comments-Reports_example : Reports 0 open_source open_cleaned 4
remove_multi_line_comments-Reports_example =
    remove_multi_line_comments-Reports open_source open_cleaned 4 run_open_source
