-- ===== src/Cpplint/IncludeState/Headers.antt =====
-- The headers that `_IncludeState` of cpplint.py remembers, over any sequence of its operations.
use yarf.Common.{
  ℕ, ◌≡◌, ◌≢◌, refl, ◌∙◌, sym, ap, inl, inr, Option, none, some, List, [], ◌∷◌, ◌++◌, if◌then◌else◌,
  Bool-cases, Option-cases,
}
use yarf.Text.{Text, text_eq}
use yarf.Cpplint.IncludeState.{
  HeaderType, IncludeState, or_else, next_section, find_in_list, find_header, update_last, opens,
  switches, reset_section, new_state, set_last_header, add_include, check_next_include_order,
}

find_in_list-append :
    (k h : Text) (n : ℕ) (l : List (Text × ℕ))
    → find_in_list k (l ++ ((h, n) ∷ []))
      ≡ or_else (find_in_list k l) (if text_eq h k then some n else none)
unfolding find_in_list
find_in_list-append k h n [] = refl
find_in_list-append k h n ((f, m) ∷ l) = elim (Bool-cases (text_eq f k)) [
  | inl e ↦ rw e
  | inr e ↦ rw e (find_in_list-append k h n l)
]

or_else_swap : (o p : Option ℕ) → or_else (or_else o p) none ≡ or_else (or_else o none) p
or_else_swap none none = refl
or_else_swap none (some n) = refl
or_else_swap (some m) p = refl

or_else_assoc : (o p q : Option ℕ) → or_else (or_else o p) q ≡ or_else o (or_else p q)
or_else_assoc none p q = refl
or_else_assoc (some m) p q = refl

pub find_header-update :
    (k h : Text) (n : ℕ) (l : List (Text × ℕ)) (ls : List (List (Text × ℕ)))
    → find_header k (update_last (λ l. l ++ ((h, n) ∷ [])) (l ∷ ls))
      ≡ or_else (find_header k (l ∷ ls)) (if text_eq h k then some n else none)
unfolding find_header update_last
find_header-update k h n l [] = rw (find_in_list-append k h n l) (or_else_swap (find_in_list k l) _)
find_header-update k h n l (m ∷ ls) =
    ap (or_else (find_in_list k l)) (find_header-update k h n m ls)
    ∙ sym (or_else_assoc (find_in_list k l) _ _)

-- The lists are never all popped, so that include_list[-1] is there.
abbrev pub IsOpen : IncludeState → Type 0
IsOpen s = s.include_list ≢ []

-- The operations, in any order and with any arguments.
pub data Step : IncludeState → IncludeState → Type 0 where
  resets : (s : IncludeState) (directive : Text) → Step s (reset_section directive s)
  checks : (s : IncludeState) (t : HeaderType) → Step s (check_next_include_order t s).0
  adds : (s : IncludeState) (include : Text) (linenum : ℕ) → Step s (add_include include linenum s)
  sets : (s : IncludeState) (header : Text) → Step s (set_last_header header s)

pub data Reach : IncludeState → Type 0 where
  start : Reach new_state
  next : {s t : IncludeState} → Reach s → Step s t → Reach t

update_last-ne-nil :
    (f : List (Text × ℕ) → List (Text × ℕ)) (ls : List (List (Text × ℕ)))
    → ls ≢ []
    → update_last f ls ≢ []
unfolding update_last
update_last-ne-nil f [] h e = h refl
update_last-ne-nil f (l ∷ []) h e = cc
update_last-ne-nil f (l ∷ m ∷ ls) h e = cc

append-ne-nil : (ls : List (List (Text × ℕ))) (l : List (Text × ℕ)) → ls ++ (l ∷ []) ≢ []
append-ne-nil [] l e = cc
append-ne-nil (m ∷ ls) l e = cc

reset-IsOpen : (s : IncludeState) (directive : Text) → IsOpen s → IsOpen (reset_section directive s)
unfolding reset_section
reset-IsOpen s directive h = elim (Bool-cases (opens directive)) [
  | inl e ↦ rw e (append-ne-nil s.include_list [])
  | inr e ↦ elim (Bool-cases (switches directive)) [
    | inl e' ↦ rw (e, e') (update_last-ne-nil _ s.include_list h)
    | inr e' ↦ rw (e, e') h
  ]
]

check-same_list :
    (s : IncludeState) (t : HeaderType)
    → (check_next_include_order t s).0.include_list ≡ s.include_list
unfolding check_next_include_order
check-same_list s t = elim (Option-cases (next_section t s.section)) [
  | inl e ↦ rw (e, check_next_include_order)
  | inr (section, e) ↦ rw (e, check_next_include_order)
]

Step-IsOpen : {s t : IncludeState} → Step s t → IsOpen s → IsOpen t
unfolding add_include set_last_header
Step-IsOpen (resets s directive) h = reset-IsOpen s directive h
Step-IsOpen (checks s t) h = λ e. h (sym (check-same_list s t) ∙ e)
Step-IsOpen (adds s include linenum) h = update_last-ne-nil _ s.include_list h
Step-IsOpen (sets s header) h = h

pub Reach-IsOpen : {s : IncludeState} → Reach s → IsOpen s
unfolding new_state reset_section text_eq
Reach-IsOpen start = λ e. cc
Reach-IsOpen (next r st) = Step-IsOpen st (Reach-IsOpen r)

-- In every state that the operations reach from a new one, a header that is added is found right after:
-- at its first line if it was found before, and otherwise at the line given; no other is changed.
pub find_header-add_include :
    (s : IncludeState)
    → Reach s
    → (h k : Text) (n : ℕ)
    → find_header k (add_include h n s).include_list
      ≡ or_else (find_header k s.include_list) (if text_eq h k then some n else none)
unfolding add_include
find_header-add_include s r h k n = go s.include_list (Reach-IsOpen r)
  where
    go :
        (ls : List (List (Text × ℕ)))
        → ls ≢ []
        → find_header k (update_last (λ l. l ++ ((h, n) ∷ [])) ls)
          ≡ or_else (find_header k ls) (if text_eq h k then some n else none)
    go [] e = absurd (e refl)
    go (l ∷ ls) e = find_header-update k h n l ls
