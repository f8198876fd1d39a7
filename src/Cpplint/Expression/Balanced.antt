-- ===== src/Cpplint/Expression/Balanced.antt =====
-- Nested brackets without '<', '>' and ';': the scans of cpplint.py find the bracket that matches.
use mathlib.Core.Path.{subst}
use mathlib.Core.List.{append_assoc, reverse_aux}
use yarf.Common.{
  ℕ, ◌+◌, ◌≡◌, refl, ◌∙◌, sym, ap, arith, Bool, true, false, not, ◌&&◌, List, [], ◌∷◌, ◌++◌, ◌==◌,
  length,
}
use yarf.Text.{Text}
use yarf.Cpplint.Expression.{
  opens, closes, pairs, Found, at, stop, next, end_step, find_end, skips, start_step, find_start,
}

abbrev pub is_plain : ℕ → Bool
is_plain c =
    not (opens c) && not (closes c) && not (c == b'<') && not (c == b'>') && not (c == b';')

pub data Balanced : Text → Type 0 where
  empty : Balanced []
  plain : (c : ℕ) {s : Text} → is_plain c ≡ true → Balanced s → Balanced (c ∷ s)
  nest :
      (o c : ℕ) (s t : Text) {u : Text}
      → pairs o c ≡ true
      → Balanced s
      → Balanced t
      → u ≡ o ∷ (s ++ (c ∷ t))
      → Balanced u

-- `s` reversed, in front of `before`
abbrev pub rev_onto : Text → Text → Text
rev_onto = reverse_aux

pub rev_onto-append :
    (s t before : Text) → rev_onto (s ++ t) before ≡ rev_onto t (rev_onto s before)
rev_onto-append [] t before = refl
rev_onto-append (c ∷ s) t before = rev_onto-append s t (c ∷ before)

pub length-rev_onto : (s before : Text) → length (rev_onto s before) ≡ length s + length before
length-rev_onto [] before = omega arith
length-rev_onto (c ∷ s) before = omega (arith, length-rev_onto s (c ∷ before))

end_plain :
    (before : Text) (c top : ℕ) (stack : List ℕ)
    → is_plain c ≡ true
    → end_step before c (top ∷ stack) ≡ next (top ∷ stack)
unfolding end_step
end_plain before c top stack h = ground arith

end_open :
    (before : Text) (o c : ℕ) (stack : List ℕ)
    → pairs o c ≡ true
    → end_step before o stack ≡ next (o ∷ stack)
unfolding end_step
end_open before o c stack h = ground arith

end_close :
    (before : Text) (o c top : ℕ) (stack : List ℕ)
    → pairs o c ≡ true
    → end_step before c (o ∷ top ∷ stack) ≡ next (top ∷ stack)
unfolding end_step
end_close before o c top stack h = ground arith

end_last :
    (before : Text) (o c : ℕ)
    → pairs o c ≡ true
    → end_step before c (o ∷ []) ≡ stop (at (length before + 1))
unfolding end_step
end_last before o c h = ground arith

end_go :
    (before rest : Text) (c : ℕ) (stack stack' : List ℕ)
    → end_step before c stack ≡ next stack'
    → find_end before (c ∷ rest) stack ≡ find_end (c ∷ before) rest stack'
unfolding find_end
end_go before rest c stack stack' e = rw (e, find_end) refl

end_stop :
    (before rest : Text) (c : ℕ) (stack : List ℕ) (r : Found)
    → end_step before c stack ≡ stop r
    → find_end before (c ∷ rest) stack ≡ r
unfolding find_end
end_stop before rest c stack r e = rw (e, find_end) refl

-- Over nested brackets the scan to the right comes out with the stack it came in with.
pub find_end-Balanced :
    {s : Text}
    → Balanced s
    → (before rest : Text) (top : ℕ) (stack : List ℕ)
    → find_end before (s ++ rest) (top ∷ stack) ≡ find_end (rev_onto s before) rest (top ∷ stack)
find_end-Balanced empty before rest top stack = refl
find_end-Balanced (plain c {s} p b) before rest top stack =
    end_go before (s ++ rest) c _ _ (end_plain before c top stack p)
    ∙ find_end-Balanced b (c ∷ before) rest top stack
find_end-Balanced (nest o c s t {u} p b b' e) before rest top stack =
    subst
      (λ (x : Text).
        find_end before (x ++ rest) (top ∷ stack) ≡ find_end (rev_onto x before) rest (top ∷ stack))
      (sym e)
      (end_go before ((s ++ (c ∷ t)) ++ rest) o _ _ (end_open before o c (top ∷ stack) p)
        ∙ ap (λ (x : Text). find_end (o ∷ before) x (o ∷ top ∷ stack)) (append_assoc s (c ∷ t) rest)
        ∙ find_end-Balanced b (o ∷ before) (c ∷ (t ++ rest)) o (top ∷ stack)
        ∙ end_go (rev_onto s (o ∷ before)) (t ++ rest) c _ _
            (end_close (rev_onto s (o ∷ before)) o c top stack p)
        ∙ find_end-Balanced b' (c ∷ rev_onto s (o ∷ before)) rest top stack
        ∙ ap (λ (x : Text). find_end x rest (top ∷ stack))
            (sym (rev_onto-append s (c ∷ t) (o ∷ before))))

-- From an opening bracket the scan ends just behind the bracket that closes it.
pub find_end-match :
    (o c : ℕ) (s before rest : Text)
    → pairs o c ≡ true
    → Balanced s
    → find_end before (o ∷ (s ++ (c ∷ rest))) [] ≡ at (length before + length s + 2)
find_end-match o c s before rest p b =
    end_go before (s ++ (c ∷ rest)) o _ _ (end_open before o c [] p)
    ∙ find_end-Balanced b (o ∷ before) (c ∷ rest) o []
    ∙ end_stop (rev_onto s (o ∷ before)) rest c (o ∷ []) _
        (end_last (rev_onto s (o ∷ before)) o c p)
    ∙ ap at (omega (arith, length-rev_onto s (o ∷ before)))

start_plain :
    (before after : Text) (c top : ℕ) (stack : List ℕ)
    → is_plain c ≡ true
    → (start_step before after c (top ∷ stack) ≡ next (top ∷ stack))
      × (skips before after c ≡ false)
unfolding start_step skips
start_plain before after c top stack h = (ground arith, ground arith)

start_close :
    (before after : Text) (o c : ℕ) (stack : List ℕ)
    → pairs o c ≡ true
    → (start_step before after c stack ≡ next (c ∷ stack)) × (skips before after c ≡ false)
unfolding start_step skips
start_close before after o c stack h = (ground arith, ground arith)

start_open :
    (before after : Text) (o c top : ℕ) (stack : List ℕ)
    → pairs o c ≡ true
    → (start_step before after o (c ∷ top ∷ stack) ≡ next (top ∷ stack))
      × (skips before after o ≡ false)
unfolding start_step skips
start_open before after o c top stack h = (ground arith, ground arith)

start_last :
    (before after : Text) (o c : ℕ)
    → pairs o c ≡ true
    → start_step before after o (c ∷ []) ≡ stop (at (length before))
unfolding start_step
start_last before after o c h = ground arith

start_go :
    (before after : Text) (c : ℕ) (stack stack' : List ℕ)
    → (start_step before after c stack ≡ next stack') × (skips before after c ≡ false)
    → find_start false (c ∷ before) after stack ≡ find_start false before (c ∷ after) stack'
unfolding find_start
start_go before after c stack stack' (e, k) = rw (e, k, find_start) refl

start_stop :
    (before after : Text) (c : ℕ) (stack : List ℕ) (r : Found)
    → start_step before after c stack ≡ stop r
    → find_start false (c ∷ before) after stack ≡ r
unfolding find_start
start_stop before after c stack r e = rw (e, find_start) refl

-- Over nested brackets the scan to the left comes out with the stack it came in with.
pub find_start-Balanced :
    {s : Text}
    → Balanced s
    → (before after : Text) (top : ℕ) (stack : List ℕ)
    → find_start false (rev_onto s before) after (top ∷ stack)
      ≡ find_start false before (s ++ after) (top ∷ stack)
find_start-Balanced empty before after top stack = refl
find_start-Balanced (plain c {s} p b) before after top stack =
    find_start-Balanced b (c ∷ before) after top stack
    ∙ start_go before (s ++ after) c _ _ (start_plain before (s ++ after) c top stack p)
find_start-Balanced (nest o c s t {u} p b b' e) before after top stack =
    subst
      (λ (x : Text).
        find_start false (rev_onto x before) after (top ∷ stack)
        ≡ find_start false before (x ++ after) (top ∷ stack))
      (sym e)
      (ap (λ (x : Text). find_start false x after (top ∷ stack))
          (rev_onto-append s (c ∷ t) (o ∷ before))
        ∙ find_start-Balanced b' (c ∷ rev_onto s (o ∷ before)) after top stack
        ∙ start_go (rev_onto s (o ∷ before)) (t ++ after) c _ _
            (start_close (rev_onto s (o ∷ before)) (t ++ after) o c (top ∷ stack) p)
        ∙ find_start-Balanced b (o ∷ before) (c ∷ (t ++ after)) c (top ∷ stack)
        ∙ start_go before (s ++ (c ∷ (t ++ after))) o _ _
            (start_open before (s ++ (c ∷ (t ++ after))) o c top stack p)
        ∙ ap (λ (x : Text). find_start false before (o ∷ x) (top ∷ stack))
            (sym (append_assoc s (c ∷ t) after)))

-- From a closing bracket the scan to the left ends at the bracket that opens it.
pub find_start-match :
    (o c : ℕ) (s before after : Text)
    → pairs o c ≡ true
    → Balanced s
    → find_start false (c ∷ rev_onto s (o ∷ before)) after [] ≡ at (length before)
find_start-match o c s before after p b =
    start_go (rev_onto s (o ∷ before)) after c _ _
      (start_close (rev_onto s (o ∷ before)) after o c [] p)
    ∙ find_start-Balanced b (o ∷ before) (c ∷ after) c []
    ∙ start_stop before (s ++ (c ∷ after)) o (c ∷ []) _ (start_last before (s ++ (c ∷ after)) o c p)
