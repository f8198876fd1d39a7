-- ===== src/Cpplint/Tests.antt =====
-- Runs of the parts of cpplint.py that are modelled, and the theorems at them.
use yarf.Common.{
  ◌+◌, ◌≡◌, ◌↔◌, refl, true, false, none, some, List, [], ◌∷◌, all, if◌then◌else◌, length, ok,
  raised, value_error,
}
use yarf.Text.{Text, codes, text_eq, is_prefix, strip, replace, lstrip}
use yarf.Dict.{lookup}
use yarf.Cpplint.IncludeState
use yarf.Cpplint.IncludeState.{
  find_in_list, update_last, check_next_include_order, set_last_header, HeaderType, c_sys_header,
  cpp_sys_header, likely_my_header, other_header, initial_section, rank, IncludeState, find_header,
  or_else, reset_section, add_include, check_all, next_section, other_h_section,
}
use yarf.Cpplint.IncludeState.Order.{is_empty, in_order, check_all-in_order}
use yarf.Cpplint.IncludeState.Alphabet.{
  Include, text_lt, canonicalize_alphabetical_order, match_include, check_block, ascends,
  is_ordered, is_foreign, is_third_party, foreign_source, third_party, checked, already_included,
  check_include_line, enter_include, dirname, up_to_slash, strip_slashes, is_in_alphabetical_order,
}
use yarf.Cpplint.Comments.{ends_with}
use yarf.Cpplint.IncludeState.Ascending.{
  FollowIncludes, AreNew, canonical_paths, check_block-ascends,
}
use yarf.Cpplint.IncludeState.Headers.{start, next, adds, resets, find_header-add_include}
use yarf.Cpplint.LintState
use yarf.Cpplint.LintState.{
  LintState, count_of, set_counting_style, set_filters, Suppressions, no_suppressions,
  should_print_error,
}
use yarf.Cpplint.LintState.Counts.{
  increments, occurrences, belongs, top_of, sum_counts, by_category, increments_lem, increments-sum,
}
use yarf.Cpplint.LintState.Filters.{passes, should_print_error-set_filters}
use yarf.Cpplint.Expression.{
  Place, close_expression, reverse_close_expression, find_end, after_operator, end_step, close_loop,
}
use yarf.Cpplint.Expression.Balanced.{Balanced, empty, plain, nest}
use yarf.Cpplint.Expression.RoundTrip.{close-reverse_close}
use yarf.Cpplint.Expression.Bounds.{IsPlace, close_expression-IsPlace}

abbrev usual : List HeaderType
usual = likely_my_header ∷ c_sys_header ∷ cpp_sys_header ∷ cpp_sys_header ∷ other_header ∷ []

new_is_initial : IncludeState.new_state.section ≡ initial_section
unfolding IncludeState.new_state reset_section
new_is_initial = refl

check_all-in_order_example :
    (all is_empty (check_all usual IncludeState.new_state).1 ≡ true) ↔ (in_order usual ≡ true)
check_all-in_order_example = check_all-in_order usual IncludeState.new_state new_is_initial

abbrev hash_include : Text
hash_include = codes "#include \"base/a-z.h\""

abbrev first_include : Include
first_include = record { path = codes "base/a-z.h"; linenum = 7; before = [] }

abbrev next_include : Include
next_include = record { path = codes "base/A_b-inl.h"; linenum = 8; before = hash_include }

follows_include : FollowIncludes (next_include ∷ [])
unfolding match_include lstrip is_prefix
follows_include = (refl, tt)

other_is_last : next_section other_header IncludeState.new_state.section ≡ some other_h_section
unfolding next_section
other_is_last = refl

new_has_no_header : IncludeState.new_state.last_header ≡ []
unfolding IncludeState.new_state reset_section
new_has_no_header = refl

-- The second path comes before the first.
not_ascending : ascends (canonical_paths (first_include ∷ next_include ∷ [])) ≡ false
unfolding ascends text_lt canonicalize_alphabetical_order replace
not_ascending = refl

includes-AreNew :
    AreNew (codes "tools/main.cc") (first_include ∷ next_include ∷ []) IncludeState.new_state
unfolding is_foreign is_third_party ends_with is_prefix find_header find_in_list text_eq
    IncludeState.new_state reset_section
includes-AreNew = ((refl, refl), refl, (refl, tt), ((refl, refl), refl, tt, tt))

-- A source file of another directory, a header of a third party, and a header that comes again.
turned_away :
    check_block
      (codes "tools/main.cc")
      other_header
      (record { path = codes "base/a.cc"; linenum = 1; before = [] }
        ∷ record { path = codes "Python.h"; linenum = 2; before = [] }
        ∷ record { path = codes "base/a.h"; linenum = 3; before = [] }
        ∷ record { path = codes "base/a.h"; linenum = 4; before = [] }
        ∷ [])
      IncludeState.new_state
    ≡ foreign_source ∷ third_party ∷ checked [] true ∷ already_included 3 ∷ []
unfolding check_block check_include_line enter_include is_foreign is_third_party ends_with is_prefix
    find_header find_in_list text_eq IncludeState.new_state reset_section add_include update_last
    check_next_include_order next_section set_last_header is_in_alphabetical_order text_lt
    canonicalize_alphabetical_order dirname up_to_slash strip_slashes replace match_include
turned_away = refl

-- A source file of the same directory is entered.
own_source : is_foreign (codes "tools/main.cc") (codes "tools/parts.cc") ≡ false
unfolding is_foreign dirname up_to_slash strip_slashes ends_with is_prefix text_eq
own_source = refl

check_block-ascends_example :
    all is_ordered (
      check_block
        (codes "tools/main.cc")
        other_header
        (first_include ∷ next_include ∷ [])
        IncludeState.new_state)
    ≡ ascends (canonical_paths (first_include ∷ next_include ∷ []))
check_block-ascends_example =
    check_block-ascends (codes "tools/main.cc") other_header first_include (next_include ∷ [])
      IncludeState.new_state other_h_section other_is_last new_has_no_header follows_include
      includes-AreNew

abbrev in_if : IncludeState
in_if = reset_section (codes "ifdef") (add_include (codes "a.h") 3 IncludeState.new_state)

find_header-add_include_example :
    find_header (codes "a.h") (add_include (codes "b.h") 7 in_if).include_list
    ≡ or_else
        (find_header (codes "a.h") in_if.include_list)
        (if text_eq (codes "b.h") (codes "a.h") then some 7 else none)
find_header-add_include_example =
    find_header-add_include in_if
      (next (next start (adds IncludeState.new_state (codes "a.h") 3)) (resets _ (codes "ifdef")))
      (codes "b.h") (codes "a.h") 7

abbrev detailed : LintState
detailed = set_counting_style (codes "detailed") LintState.new_state

abbrev some_errors : List Text
some_errors = codes "build/include" ∷ codes "whitespace/tab" ∷ codes "build/include" ∷ []

increments_lem_example :
    ((increments some_errors detailed).error_count ≡ detailed.error_count + length some_errors)
    × (count_of
          (lookup (codes "build/include") (increments some_errors detailed).errors_by_category)
        ≡ count_of (lookup (codes "build/include") detailed.errors_by_category)
          + occurrences detailed.counting (codes "build/include") some_errors)
increments_lem_example = increments_lem some_errors detailed (codes "build/include")

two_of_build : occurrences (codes "detailed") (codes "build/include") some_errors ≡ 2
unfolding occurrences belongs top_of text_eq
two_of_build = refl

detailed_style : by_category detailed.counting ≡ true
unfolding set_counting_style text_eq
detailed_style = refl

detailed_starts : sum_counts detailed.errors_by_category ≡ detailed.error_count
unfolding set_counting_style LintState.new_state sum_counts
detailed_starts = refl

increments-sum_example :
    sum_counts (increments some_errors detailed).errors_by_category
    ≡ (increments some_errors detailed).error_count
increments-sum_example = increments-sum some_errors detailed detailed_style detailed_starts

abbrev flags : Text
flags = codes "-whitespace, +whitespace/tab"

flags_accepted : (set_filters flags LintState.new_state).1 ≡ ok tt
unfolding set_filters strip is_prefix text_eq
flags_accepted = refl

unsigned_refused : (set_filters (codes "whitespace") LintState.new_state).1 ≡ raised value_error
unfolding set_filters strip is_prefix text_eq
unsigned_refused = refl

should_print_error-set_filters_example :
    should_print_error no_suppressions
      (set_filters flags LintState.new_state).0
      (codes "whitespace/tab")
      3
      10
    ≡ ok (
        passes no_suppressions
          (set_filters flags LintState.new_state).0
          (codes "whitespace/tab")
          3
          10)
should_print_error-set_filters_example =
    should_print_error-set_filters flags LintState.new_state no_suppressions
      (codes "whitespace/tab") 3 10 flags_accepted

abbrev call_lines : List Text
call_lines = codes "int x =" ∷ codes "f(a[1], {b});" ∷ []

args-Balanced : Balanced (codes "a[1], {b}")
args-Balanced = plain b'a' refl (
    nest b'[' b']' (codes "1") (codes ", {b}") refl (plain b'1' refl empty)
      (plain b',' refl
        (plain 32 refl (nest b'{' b'}' (codes "b") [] refl (plain b'b' refl empty) empty refl)))
      refl)

close-reverse_close_example :
    (close_expression call_lines 1 1
      ≡ ok (record { line = codes "f(a[1], {b});"; linenum = 1; pos = some 12 }))
    × (reverse_close_expression call_lines 1 11
        ≡ ok (record { line = codes "f(a[1], {b});"; linenum = 1; pos = some 1 }))
close-reverse_close_example =
    close-reverse_close call_lines 1 b'(' b')' (codes "f") (codes "a[1], {b}") (codes ";") refl
      args-Balanced refl

abbrev two_lines : List Text
two_lines = codes "vector<pair<int," ∷ codes "  int> > v;" ∷ []

abbrev end_of_vector : Place
end_of_vector = record { line = codes "  int> > v;"; linenum = 1; pos = some 8 }

closes_vector : close_expression two_lines 0 6 ≡ ok end_of_vector
unfolding close_expression find_end after_operator end_step close_loop
closes_vector = refl

close_expression-IsPlace_example : IsPlace two_lines 0 end_of_vector 8
close_expression-IsPlace_example =
    close_expression-IsPlace two_lines 0 6 8 end_of_vector closes_vector refl
