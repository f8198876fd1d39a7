-- ===== src/Cpplint/LintState/Filters.antt =====
-- The filters of cpplint.py: what `_ShouldPrintError` makes of them.
use yarf.Common.{
  ℕ, ◌≡◌, refl, ◌∙◌, ap, arith, Bool, true, false, not, ◌&&◌, inl, inr, Option, none, some, List,
  [], ◌∷◌, all, ltb, drop, if◌then◌else◌, Bool-cases, ok,
}
use yarf.Text.{Text, codes, is_prefix}
use yarf.Cpplint.LintState.{
  LintState, is_signed, check_filters, add_filters, set_filters, filter_round, filter_loop,
  Suppressions, is_error_suppressed, should_print_error,
}

-- The sign of the last filter whose pattern begins the category: `true` where it filters out.
unfoldable pub last_match : Text → List Text → Option Bool
last_match category [] = none
last_match category (filt ∷ filts) = elim (last_match category filts) [
  | some sign ↦ some sign
  | none ↦ if is_prefix (drop 1 filt) category then some (is_prefix (codes "-") filt) else none
]

abbrev pub or_default : Bool → Option Bool → Bool
or_default b none = b
or_default b (some sign) = sign

filter_round_lem :
    (category filt : Text) (b : Bool)
    → is_signed filt ≡ true
    → filter_round category filt b
      ≡ ok (if is_prefix (drop 1 filt) category then is_prefix (codes "-") filt else b)
unfolding filter_round
filter_round_lem category filt b h = ground arith

filter_loop_lem :
    (category : Text) (filts : List Text) (b : Bool)
    → all is_signed filts ≡ true
    → filter_loop category filts b ≡ ok (or_default b (last_match category filts))
unfolding filter_loop last_match
filter_loop_lem category [] b h = refl
filter_loop_lem category (filt ∷ filts) b h =
    rw (filter_round_lem category filt b (ground arith))
      (filter_loop_lem category filts _ (ground arith) ∙ ap ok (join (last_match category filts)))
  where
    join :
        (o : Option Bool)
        → or_default (if is_prefix (drop 1 filt) category then is_prefix (codes "-") filt else b) o
          ≡ or_default b (elim o [
            | some sign ↦ some sign
            | none ↦
                if is_prefix (drop 1 filt) category then some (is_prefix (codes "-") filt) else none
          ])
    join (some sign) = refl
    join none = ground arith

check_filters-signed :
    (filts : List Text) → check_filters filts ≡ ok tt → all is_signed filts ≡ true
unfolding check_filters
check_filters-signed [] h = refl
check_filters-signed (filt ∷ filts) h = elim (Bool-cases (is_signed filt)) [
  | inl e ↦ ground (arith, check_filters-signed filts)
  | inr e ↦ ground arith
]

-- Whether an error passes the filters and the verbosity, where it is not suppressed.
abbrev pub passes : Suppressions → LintState → Text → ℕ → ℕ → Bool
passes n s category confidence linenum =
    not (is_error_suppressed n category linenum)
    && (not (ltb confidence s.verbose_level)
        && not (or_default false (last_match category s.filters)))

should_print_error_lem :
    (s : LintState) (n : Suppressions) (category : Text) (confidence linenum : ℕ)
    → all is_signed s.filters ≡ true
    → should_print_error n s category confidence linenum
      ≡ ok (passes n s category confidence linenum)
unfolding should_print_error
should_print_error_lem s n category confidence linenum h =
    elim (Bool-cases (is_error_suppressed n category linenum)) [
      | inl e ↦ rw e
      | inr e ↦ elim (Bool-cases (ltb confidence s.verbose_level)) [
        | inl e' ↦ rw (e, e')
        | inr e' ↦ rw (e, e', filter_loop_lem category s.filters false h) refl
      ]
    ]

-- After filters that are accepted no assertion fails: an error is printed exactly if its line and
-- category are not suppressed, its confidence is not below the verbosity, and the last filter that
-- fits its category, if there is one, has a plus.
pub should_print_error-set_filters :
    (filters : Text) (s : LintState) (n : Suppressions) (category : Text) (confidence linenum : ℕ)
    → (set_filters filters s).1 ≡ ok tt
    → should_print_error n (set_filters filters s).0 category confidence linenum
      ≡ ok (passes n (set_filters filters s).0 category confidence linenum)
unfolding set_filters add_filters
should_print_error-set_filters filters s n category confidence linenum h =
    should_print_error_lem (set_filters filters s).0 n category confidence linenum
      (check_filters-signed (set_filters filters s).0.filters h)
