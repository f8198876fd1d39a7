-- ===== src/Cpplint/LintState.antt =====
-- `_CppLintState` of cpplint.py, the module-wide state: verbosity, filters and the count of errors.
pub mod Filters
pub mod Counts
use yarf.Common.{
  ℕ, ◌+◌, Bool, true, false, Option, none, some, List, [], ◌∷◌, ◌++◌, ◌||◌, ltb, if◌then◌else◌,
  Result, ok, raised, value_error, assertion_error, ◌>>=◌, drop, not, ◌==◌,
}
use yarf.Text.{Text, codes, text_eq, is_prefix, split, strip}
use yarf.Dict
use yarf.Dict.{Dict}

pub record LintState : Type 0 where
  pub verbose_level : ℕ
  pub error_count : ℕ
  pub filters : List Text
  pub filters_backup : List Text
  pub counting : Text
  pub errors_by_category : Dict ℕ
  pub output_format : Text

abbrev pub default_filters : List Text
default_filters = codes "-build/include_alpha" ∷ []

-- __init__
unfoldable pub new_state : LintState
new_state = record {
  verbose_level = 1;
  error_count = 0;
  filters = default_filters;
  filters_backup = default_filters;
  counting = codes "total";
  errors_by_category = [];
  output_format = codes "emacs";
}

unfoldable pub set_output_format : Text → LintState → LintState
set_output_format output_format s = record s { output_format = output_format }

-- SetVerboseLevel returns the level that was set before.
unfoldable pub set_verbose_level : ℕ → LintState → LintState × ℕ
set_verbose_level level s = (record s { verbose_level = level }, s.verbose_level)

unfoldable pub set_counting_style : Text → LintState → LintState
set_counting_style counting_style s = record s { counting = counting_style }

-- The loop that appends the filters that are not blank.
unfoldable pub append_filters : List Text → List Text → List Text
append_filters [] filters = filters
append_filters (filt ∷ filts) filters =
    append_filters filts (if text_eq (strip filt) [] then filters else filters ++ (strip filt ∷ []))

abbrev pub is_signed : Text → Bool
is_signed filt = is_prefix (codes "+") filt || is_prefix (codes "-") filt

-- The loop that raises ValueError at a filter without a sign.
unfoldable pub check_filters : List Text → Result (Unit {0})
check_filters [] = ok tt
check_filters (filt ∷ filts) = if is_signed filt then check_filters filts else raised value_error

-- AddFilters: the state after it, and how it ends. The filters stay appended where it raises.
unfoldable pub add_filters : Text → LintState → LintState × Result (Unit {0})
unfolding append_filters check_filters split
add_filters filters s =
    let all_filters = append_filters (split (codes ",") filters) s.filters in
    (record s { filters = all_filters }, check_filters all_filters)

-- SetFilters
unfoldable pub set_filters : Text → LintState → LintState × Result (Unit {0})
unfolding add_filters
set_filters filters s = add_filters filters (record s { filters = default_filters })

unfoldable pub backup_filters : LintState → LintState
backup_filters s = record s { filters_backup = s.filters }

unfoldable pub restore_filters : LintState → LintState
restore_filters s = record s { filters = s.filters_backup }

unfoldable pub reset_error_counts : LintState → LintState
reset_error_counts s = record s { error_count = 0; errors_by_category = [] }

-- category.split('/')[0]
abbrev pub first_part : List Text → Text
first_part [] = []
first_part (p ∷ ps) = p

-- The category under which an error is counted; `none` in the style `total`.
unfoldable pub counted_as : Text → Text → Option Text
unfolding split text_eq
counted_as counting category =
    if text_eq counting (codes "toplevel") || text_eq counting (codes "detailed")
    then some (
        if text_eq counting (codes "detailed")
        then category
        else first_part (split (codes "/") category))
    else none

-- errors_by_category[category] += 1, the entry entered at 0 where there is none.
abbrev pub count_of : Option ℕ → ℕ
count_of none = 0
count_of (some n) = n

abbrev pub bump : Option Text → Dict ℕ → Dict ℕ
bump none d = d
bump (some category) d = Dict.insert category (count_of (Dict.lookup category d) + 1) d

-- IncrementErrorCount
unfoldable pub increment_error_count : Text → LintState → LintState
unfolding counted_as
increment_error_count category s = record s {
  error_count = s.error_count + 1;
  errors_by_category = bump (counted_as s.counting category) s.errors_by_category;
}

-- One round of the loop of `_ShouldPrintError` over the filters; a filter without a sign fails the
-- assertion.
unfoldable pub filter_round : Text → Text → Bool → Result Bool
filter_round category one_filter is_filtered =
    if is_prefix (codes "-") one_filter
    then ok (if is_prefix (drop 1 one_filter) category then true else is_filtered)
    else if is_prefix (codes "+") one_filter
    then ok (if is_prefix (drop 1 one_filter) category then false else is_filtered)
    else raised assertion_error

unfoldable pub filter_loop : Text → List Text → Bool → Result Bool
filter_loop category [] is_filtered = ok is_filtered
filter_loop category (one_filter ∷ filters) is_filtered = do
  is_filtered' ← filter_round category one_filter is_filtered
  filter_loop category filters is_filtered'

-- The lines of NOLINT comments by their category, those for all categories, and the categories that
-- are off in the whole file.
pub record Suppressions : Type 0 where
  pub error_suppressions : Dict (List ℕ)
  pub all_suppressions : List ℕ
  pub global_error_suppressions : List Text

-- ResetNolintSuppressions
unfoldable pub no_suppressions : Suppressions
no_suppressions = record {
  error_suppressions = [];
  all_suppressions = [];
  global_error_suppressions = [];
}

abbrev pub has_line : ℕ → List ℕ → Bool
has_line n [] = false
has_line n (m ∷ ms) = m == n || has_line n ms

abbrev pub has_text : Text → List Text → Bool
has_text t [] = false
has_text t (u ∷ us) = text_eq u t || has_text t us

abbrev pub lines_of : Option (List ℕ) → List ℕ
lines_of none = []
lines_of (some ls) = ls

-- IsErrorSuppressedByNolint
unfoldable pub is_error_suppressed : Suppressions → Text → ℕ → Bool
is_error_suppressed n category linenum =
    has_text category n.global_error_suppressions
    || has_line linenum (lines_of (Dict.lookup category n.error_suppressions))
    || has_line linenum n.all_suppressions

-- _ShouldPrintError
unfoldable pub should_print_error : Suppressions → LintState → Text → ℕ → ℕ → Result Bool
unfolding filter_loop is_error_suppressed
should_print_error n s category confidence linenum =
    if is_error_suppressed n category linenum
    then ok false
    else if ltb confidence s.verbose_level
    then ok false
    else (do is_filtered ← filter_loop category s.filters false; ok (not is_filtered))

-- Error: the state after it, and whether it printed.
unfoldable pub error : Suppressions → LintState → Text → ℕ → ℕ → Result (LintState × Bool)
unfolding should_print_error increment_error_count
error n s category confidence linenum = do
  print ← should_print_error n s category confidence linenum
  ok (if print then (increment_error_count category s, true) else (s, false))
