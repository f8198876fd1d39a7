-- ===== src/Cpplint/IncludeState/Ascending.antt =====
-- When `IsInAlphabeticalOrder` of cpplint.py reports none of the include lines that stand together.
use yarf.Common.{
  ◌≡◌, refl, ap, ◌∙◌, Bool, true, false, not, ◌&&◌, ◌==◌, leb, Option, none, some, List, [], ◌∷◌,
  map, all, All, ℕ, ◌++◌, if◌then◌else◌,
}
use yarf.Text.{Text, text_eq}
use yarf.Cpplint.IncludeState.Headers.{find_header-update}
use yarf.Cpplint.IncludeState.{
  HeaderType, c_sys_header, cpp_sys_header, likely_my_header, possible_my_header, other_header,
  Section, initial_section, my_h_section, c_section, cpp_section, other_h_section, rank,
  IncludeState, find_header, update_last, add_include, set_last_header, next_section,
  check_next_include_order, error_message,
}
use yarf.Cpplint.IncludeState.Alphabet.{
  text_lt, canonicalize_alphabetical_order, match_include, is_in_alphabetical_order, Include,
  is_foreign, is_third_party, enter_include, Verdict, already_included, foreign_source, third_party,
  entered, is_ordered, check_include_line, check_block, ascends,
}

-- A header of the same type stays in its section.
next_section_again :
    (t : HeaderType) (s s' : Section) → next_section t s ≡ some s' → next_section t s' ≡ some s'
unfolding next_section
next_section_again t s s' = by_type t
  where
    hit :
        (t : HeaderType) (x : Section)
        → next_section t x ≡ some x
        → some x ≡ some s'
        → next_section t s' ≡ some s'
    hit t x p e = cc

    or_none :
        (t : HeaderType) (x : Section)
        → next_section t x ≡ some x
        → (b : Bool) → (if b then some x else none) ≡ some s'
        → next_section t s' ≡ some s'
    or_none t x p true e = hit t x p e
    or_none t x p false e = cc

    or_other :
        (t : HeaderType) (x y : Section)
        → next_section t x ≡ some x
        → next_section t y ≡ some y
        → (b : Bool) → some (if b then x else y) ≡ some s'
        → next_section t s' ≡ some s'
    or_other t x y p q true e = hit t x p e
    or_other t x y p q false e = hit t y q e

    by_type : (t : HeaderType) → next_section t s ≡ some s' → next_section t s' ≡ some s'
    by_type c_sys_header e = or_none c_sys_header c_section refl (leb (rank s) (rank c_section)) e
    by_type cpp_sys_header e =
        or_none cpp_sys_header cpp_section refl (leb (rank s) (rank cpp_section)) e
    by_type likely_my_header e =
        or_other likely_my_header my_h_section other_h_section refl refl
          (leb (rank s) (rank my_h_section)) e
    by_type possible_my_header e =
        or_other possible_my_header my_h_section other_h_section refl refl
          (leb (rank s) (rank my_h_section)) e
    by_type other_header e = hit other_header other_h_section refl e

rank_same : (s : Section) → (rank s == rank s) ≡ true
rank_same initial_section = refl
rank_same my_h_section = refl
rank_same c_section = refl
rank_same cpp_section = refl
rank_same other_h_section = refl

lt_nil : (p : Text) → text_lt p [] ≡ false
unfolding text_lt
lt_nil [] = refl
lt_nil (c ∷ p) = refl

and_true : (b : Bool) → (b && true) ≡ b
and_true true = refl
and_true false = refl

-- CheckNextIncludeOrder at a header that is in order.
next_lem :
    (t : HeaderType) (s : IncludeState) (reached : Section)
    → next_section t s.section ≡ some reached
    → check_next_include_order t s ≡ (
      record s {
        section = reached;
        last_header = if rank s.section == rank reached then s.last_header else [];
      },
      [],
    )
unfolding check_next_include_order
next_lem t s reached e = ap go e
  where
    go : Option Section → IncludeState × Text
    go none = (record s { last_header = [] }, error_message t s.section)
    go (some reached) = (
      record s {
        section = reached;
        last_header = if rank s.section == rank reached then s.last_header else [];
      },
      [],
    )

-- What stands behind a line that is in order.
abbrev behind : Include → Section → IncludeState → IncludeState
behind i section s = record (add_include i.path i.linenum s) {
  section = section;
  last_header = canonicalize_alphabetical_order i.path;
}

-- A line that stays in the section is compared with the one before.
stays :
    (t : HeaderType) (i : Include) (s : IncludeState)
    → next_section t s.section ≡ some s.section
    → enter_include t i s ≡ (
      behind i s.section s,
      [],
      is_in_alphabetical_order i.before (canonicalize_alphabetical_order i.path) s,
    )
unfolding enter_include add_include set_last_header is_in_alphabetical_order
stays t i s e =
    ap line (next_lem t (add_include i.path i.linenum s) s.section e)
    ∙ ap
        (λ b. line (
          record (add_include i.path i.linenum s) {
            section = s.section;
            last_header = if b then s.last_header else [];
          },
          [],
        ))
        (rank_same s.section)
  where
    line : IncludeState × Text → IncludeState × Text × Bool
    line (s', message) = (
      set_last_header (canonicalize_alphabetical_order i.path) s',
      message,
      is_in_alphabetical_order i.before (canonicalize_alphabetical_order i.path) s',
    )

-- The first line behind a reset is compared with nothing.
begins :
    (t : HeaderType) (i : Include) (s : IncludeState) (section : Section)
    → next_section t s.section ≡ some section
    → s.last_header ≡ []
    → enter_include t i s ≡ (behind i section s, [], true)
unfolding enter_include add_include set_last_header is_in_alphabetical_order
begins t i s section e n =
    ap line (next_lem t (add_include i.path i.linenum s) section e)
    ∙ ap
        (λ p.
          line (record (add_include i.path i.linenum s) { section = section; last_header = p }, []))
        (nothing (rank s.section == rank section))
    ∙ ap (λ b. (behind i section s, [], not (b && match_include i.before)))
        (lt_nil (canonicalize_alphabetical_order i.path))
  where
    line : IncludeState × Text → IncludeState × Text × Bool
    line (s', message) = (
      set_last_header (canonicalize_alphabetical_order i.path) s',
      message,
      is_in_alphabetical_order i.before (canonicalize_alphabetical_order i.path) s',
    )

    nothing : (b : Bool) → (if b then s.last_header else []) ≡ []
    nothing true = n
    nothing false = refl

-- A line before each is an include line.
abbrev pub FollowIncludes : List Include → Type 0
FollowIncludes is = All (λ (i : Include). match_include i.before ≡ true) is

abbrev pub canonical_paths : List Include → List Text
canonical_paths is = map (λ (i : Include). canonicalize_alphabetical_order i.path) is

-- The guards of a line, which is neither a source file of another package nor third-party.
abbrev pub IsOwn : Text → Text → Type 0
IsOwn name path = (is_foreign name path ≡ false) × (is_third_party path ≡ false)

-- No line is turned away: none is included before, in the state or in the block, and each is the
-- file's own.
abbrev pub AreNew : Text → List Include → IncludeState → Type 0
AreNew name [] s = Unit
AreNew name (i ∷ is) s =
    IsOwn name i.path
    × (find_header i.path s.include_list ≡ none)
    × All (λ (j : Include). text_eq i.path j.path ≡ false) is
    × AreNew name is s

still_none :
    (k h : Text) (n : ℕ) (ls : List (List (Text × ℕ)))
    → text_eq h k ≡ false
    → find_header k ls ≡ none
    → find_header k (update_last (λ l. l ++ ((h, n) ∷ [])) ls) ≡ none
still_none k h n [] apart e = unfold update_last in e
still_none k h n (l ∷ ls) apart e = find_header-update k h n l ls ∙ rw (e, apart) refl

AreNew-behind :
    (name : Text) (i : Include) (is : List Include) (reached : Section) (s : IncludeState)
    → All (λ (j : Include). text_eq i.path j.path ≡ false) is
    → AreNew name is s
    → AreNew name is (behind i reached s)
unfolding add_include
AreNew-behind name i [] reached s apart new = tt
AreNew-behind name i (j ∷ is) reached s (a, apart) (own, none_yet, others, new) = (
  own,
  still_none j.path i.path i.linenum s.include_list a none_yet,
  others,
  AreNew-behind name i is reached s apart new,
)

-- A line that is not turned away is entered.
is_entered :
    (name : Text) (t : HeaderType) (i : Include) (s : IncludeState)
    → IsOwn name i.path
    → find_header i.path s.include_list ≡ none
    → check_include_line name t i s ≡ entered (enter_include t i s)
unfolding check_include_line
is_entered name t i s (own, party) new = ap round new ∙ rw (own, party) refl
  where
    round : Option ℕ → IncludeState × Verdict
    round (some n) = (s, already_included n)
    round none =
        if is_foreign name i.path
        then (s, foreign_source)
        else if is_third_party i.path
        then (s, third_party)
        else entered (enter_include t i s)

block_from :
    (name : Text) (t : HeaderType) (is : List Include) (s : IncludeState)
    → next_section t s.section ≡ some s.section
    → FollowIncludes is
    → AreNew name is s
    → all is_ordered (check_block name t is s) ≡ ascends (s.last_header ∷ canonical_paths is)
unfolding check_block ascends
block_from name t [] s e h new = refl
block_from name t (i ∷ is) s e (h, hs) (own, none_yet, others, new) =
    ap (λ r. is_ordered r.1 && all is_ordered (check_block name t is r.0))
      (is_entered name t i s own none_yet ∙ ap entered (stays t i s e))
    ∙ ap (λ b. is_in_alphabetical_order i.before (canonicalize_alphabetical_order i.path) s && b)
        (block_from name t is (behind i s.section s) e hs
          (AreNew-behind name i is s.section s others new))
    ∙ ap (λ b. b && ascends (canonical_paths (i ∷ is))) compared
  where
    compared :
        is_in_alphabetical_order i.before (canonicalize_alphabetical_order i.path) s
        ≡ not (text_lt (canonicalize_alphabetical_order i.path) s.last_header)
    compared =
        unfold is_in_alphabetical_order in
        ap (λ b. not (text_lt (canonicalize_alphabetical_order i.path) s.last_header && b)) h
        ∙ ap not (and_true (text_lt (canonicalize_alphabetical_order i.path) s.last_header))

-- Include lines of one type, each but the first right behind another, none of which is included
-- before, in the state or in the block, nor a .cc file of another directory, nor third-party, where
-- the type is in order and no header came before: all are entered, and none is reported for the
-- alphabet, exactly if no canonical path comes before the one in front of it.
pub check_block-ascends :
    (name : Text) (t : HeaderType) (i : Include) (is : List Include) (s : IncludeState)
    (section : Section)
    → next_section t s.section ≡ some section
    → s.last_header ≡ []
    → FollowIncludes is
    → AreNew name (i ∷ is) s
    → all is_ordered (check_block name t (i ∷ is) s) ≡ ascends (canonical_paths (i ∷ is))
unfolding check_block
check_block-ascends name t i is s section e n h (own, none_yet, others, new) =
    ap (λ r. is_ordered r.1 && all is_ordered (check_block name t is r.0))
      (is_entered name t i s own none_yet ∙ ap entered (begins t i s section e n))
    ∙ block_from name t is (behind i section s) (next_section_again t s.section section e) h
        (AreNew-behind name i is section s others new)
