-- ===== src/Cpplint/IncludeState/Order.antt =====
-- The order that `CheckNextIncludeOrder` of cpplint.py accepts, described without its sections.
use mathlib.Core.Path.{sym}
use yarf.Common.{
  ◌==◌, ◌≡◌, ◌↔◌, refl, ◌∙◌, ap, ◌≤◌, arith, Bool, true, false, ◌&&◌, ◌||◌, not, Option, none, some,
  List, [], ◌∷◌, all, if◌then◌else◌,
}
use yarf.Text.{Text}
use yarf.Cpplint.IncludeState.{
  HeaderType, c_sys_header, cpp_sys_header, likely_my_header, possible_my_header, other_header,
  Section, initial_section, my_h_section, c_section, cpp_section, other_h_section, rank,
  IncludeState, next_section, error_message, check_next_include_order, check_all,
}

abbrev pub is_mine : HeaderType → Bool
is_mine likely_my_header = true
is_mine possible_my_header = true
is_mine _ = false

abbrev pub is_c : HeaderType → Bool
is_c c_sys_header = true
is_c _ = false

abbrev pub is_cpp : HeaderType → Bool
is_cpp cpp_sys_header = true
is_cpp _ = false

abbrev pub is_system : HeaderType → Bool
is_system t = is_c t || is_cpp t

abbrev pub drop_while : (HeaderType → Bool) → List HeaderType → List HeaderType
drop_while p [] = []
drop_while p (t ∷ ts) = if p t then drop_while p ts else t ∷ ts

-- First the headers that the file may implement, then C system headers, then C++ system headers,
-- and then no system header any more.
abbrev pub in_order : List HeaderType → Bool
in_order ts =
    all (λ t. not (is_system t)) (drop_while is_cpp (drop_while is_c (drop_while is_mine ts)))

abbrev pub is_empty : Text → Bool
is_empty [] = true
is_empty (c ∷ s) = false

-- What may still come after a section.
unfoldable expected : Section → List HeaderType → Bool
expected initial_section ts = in_order ts
expected my_h_section ts = in_order ts
expected c_section ts = all (λ t. not (is_system t)) (drop_while is_cpp (drop_while is_c ts))
expected cpp_section ts = all (λ t. not (is_system t)) (drop_while is_cpp ts)
expected other_h_section ts = all (λ t. not (is_system t)) ts

after_next : Option Section → List HeaderType → Bool
after_next none ts = false
after_next (some s) ts = expected s ts

expected_step :
    (t : HeaderType) (s : Section) (ts : List HeaderType)
    → expected s (t ∷ ts) ≡ after_next (next_section t s) ts
unfolding expected after_next next_section
expected_step c_sys_header initial_section ts = refl
expected_step c_sys_header _ ts = refl
expected_step cpp_sys_header initial_section ts = refl
expected_step cpp_sys_header _ ts = refl
expected_step likely_my_header initial_section ts = refl
expected_step likely_my_header _ ts = refl
expected_step possible_my_header initial_section ts = refl
expected_step possible_my_header _ ts = refl
expected_step other_header initial_section ts = refl
expected_step other_header _ ts = refl

in_order-nil : (s : Section) → expected s [] ≡ true
unfolding expected
in_order-nil initial_section = refl
in_order-nil _ = refl

message_lem : (t : HeaderType) (s : Section) → is_empty (error_message t s) ≡ false
unfolding error_message
message_lem t s = refl

-- Where the headers so far left the section `s.section`.
check_all-expected :
    (ts : List HeaderType) (s : IncludeState)
    → all is_empty (check_all ts s).1 ≡ expected s.section ts
unfolding check_all check_next_include_order error_message after_next
check_all-expected [] s = sym (in_order-nil s.section)
check_all-expected (t ∷ ts) s =
    go (next_section t s.section) (λ s'. check_all-expected ts s')
    ∙ sym (expected_step t s.section ts)
  where
    step : Option Section → IncludeState × Text
    step none = (record s { last_header = [] }, error_message t s.section)
    step (some section) = (
      record s {
        section = section;
        last_header = if rank s.section == rank section then s.last_header else [];
      },
      [],
    )

    go :
        (o : Option Section)
        → ((s' : IncludeState) → all is_empty (check_all ts s').1 ≡ expected s'.section ts)
        → (is_empty (step o).1 && all is_empty (check_all ts (step o).0).1) ≡ after_next o ts
    go none ih = refl
    go (some section) ih = ih (record s {
      section = section;
      last_header = if rank s.section == rank section then s.last_header else [];
    })

-- In a new section the headers bring no message exactly if they stand in the order: those that the
-- file may implement, C system headers, C++ system headers, and then no system header any more.
pub check_all-in_order :
    (ts : List HeaderType) (s : IncludeState)
    → s.section ≡ initial_section
    → (all is_empty (check_all ts s).1 ≡ true) ↔ (in_order ts ≡ true)
unfolding expected
check_all-in_order ts s h =
    let e : all is_empty (check_all ts s).1 ≡ in_order ts =
      check_all-expected ts s ∙ ap (λ (x : Section). expected x ts) h in
    ((λ p. sym e ∙ p), (λ p. e ∙ p))

next_section_le : (t : HeaderType) (s s' : Section) → next_section t s ≡ some s' → rank s ≤ rank s'
unfolding next_section
next_section_le c_sys_header initial_section s' h = ground arith
next_section_le c_sys_header _ s' h = ground arith
next_section_le cpp_sys_header initial_section s' h = ground arith
next_section_le cpp_sys_header _ s' h = ground arith
next_section_le likely_my_header initial_section s' h = ground arith
next_section_le likely_my_header _ s' h = ground arith
next_section_le possible_my_header initial_section s' h = ground arith
next_section_le possible_my_header _ s' h = ground arith
next_section_le other_header initial_section s' h = ground arith
next_section_le other_header _ s' h = ground arith

-- The section never moves back, whatever headers come and whether they are in order or not.
pub check_all-section_le :
    (ts : List HeaderType) (s : IncludeState) → rank s.section ≤ rank (check_all ts s).0.section
unfolding check_all check_next_include_order
check_all-section_le [] s = omega arith
check_all-section_le (t ∷ ts) s =
    go (next_section t s.section) (λ s' q. next_section_le t s.section s' q)
      (λ s'. check_all-section_le ts s')
  where
    step : Option Section → IncludeState × Text
    step none = (record s { last_header = [] }, error_message t s.section)
    step (some section) = (
      record s {
        section = section;
        last_header = if rank s.section == rank section then s.last_header else [];
      },
      [],
    )

    go :
        (o : Option Section)
        → ((s' : Section) → o ≡ some s' → rank s.section ≤ rank s')
        → ((s' : IncludeState) → rank s'.section ≤ rank (check_all ts s').0.section)
        → rank s.section ≤ rank (check_all ts (step o).0).0.section
    go none f ih = ih (record s { last_header = [] })
    go (some section) f ih = omega (
      arith,
      f section refl,
      ih (record s {
        section = section;
        last_header = if rank s.section == rank section then s.last_header else [];
      }),
    )
