-- ===== src/Cpplint/Comments/Rounds.antt =====
-- One round of the loop of `RemoveMultiLineComments` in cpplint.py, by what its searches find.
use mathlib.Core.List.{append_assoc}
use yarf.Common.{
  ℕ, ◌+◌, ◌-◌, ◌≡◌, refl, ◌∙◌, ap, sym, arith, true, false, none, some, List, [], ◌∷◌, ◌++◌,
  if◌then◌else◌, leb, ltb, length, length-append, ok,
}
use yarf.Text.{Text}
use yarf.Cpplint.Comments.{
  starts, ends, dummy, find_from, find_next_start, find_next_end, clear_lines, remove_from_range,
  returned, leave, again, cleared, at_end, at_start, remove_round,
}
use yarf.Cpplint.Comments.Spec.{any}
use yarf.Cpplint.Comments.Search.{
  drop-append, find_from_miss, find_from_hit, dummies, clear_lines-append,
}

found_start :
    (a b : ℕ) (lines : List Text)
    → ltb a (length lines) ≡ true
    → leb (length lines) b ≡ false
    → (if ltb a (length lines) then at_start b lines else leave (returned lines none))
      ≡ at_end b (find_next_end lines b) lines
found_start a b lines h k =
    ap (λ t. if t then at_start b lines else leave (returned lines none)) h
    ∙ ap (λ t. if t then leave (returned lines none) else at_end b (find_next_end lines b) lines) k

-- A place in front of something is inside the list.
inside_list :
    (xs ys : List Text) (x : Text) (zs : List Text)
    → (ltb (length xs) (length (xs ++ (ys ++ (x ∷ zs)))) ≡ true)
      × (leb (length (xs ++ (ys ++ (x ∷ zs)))) (length xs + length ys) ≡ false)
inside_list xs ys x zs = (
  ground (arith, length-append xs (ys ++ (x ∷ zs)), length-append ys (x ∷ zs)),
  ground (arith, length-append xs (ys ++ (x ∷ zs)), length-append ys (x ∷ zs)),
)

dummies-append :
    (body : List Text) (c : Text) (after : List Text)
    → dummies (body ++ (c ∷ [])) ++ after ≡ dummies body ++ (dummy ∷ after)
dummies-append [] c after = refl
dummies-append (x ∷ body) c after = ap (λ ls. dummy ∷ ls) (dummies-append body c after)

-- The rounds of the loop, by what they find: no start;
pub round_none :
    (done rest : List Text)
    → any starts rest ≡ false
    → remove_round (length done) (done ++ rest) ≡ leave (returned (done ++ rest) none)
unfolding remove_round find_next_start
round_none done rest h =
    let found =
      ap (find_from starts (done ++ rest) (length done)) (drop-append done rest)
      ∙ find_from_miss starts (done ++ rest) (length done) rest h in
    ap
      (λ (b : ℕ).
        if ltb (length done) (length (done ++ rest))
        then at_start b (done ++ rest)
        else leave (returned (done ++ rest) none))
      found
    ∙ same
  where
    same :
        (if ltb (length done) (length (done ++ rest))
          then at_start (length (done ++ rest)) (done ++ rest)
          else leave (returned (done ++ rest) none))
        ≡ leave (returned (done ++ rest) none)
    same = ground arith

-- a start;
pub round_start :
    (done before : List Text) (x : Text) (after : List Text)
    → any starts before ≡ false
    → starts x ≡ true
    → remove_round (length done) (done ++ (before ++ (x ∷ after)))
      ≡ at_end
          (length (done ++ before))
          (find_next_end ((done ++ before) ++ (x ∷ after)) (length (done ++ before)))
          ((done ++ before) ++ (x ∷ after))
unfolding remove_round find_next_start
round_start done before x after h e =
    let lines = done ++ (before ++ (x ∷ after)) in
    let found =
      ap (find_from starts lines (length done)) (drop-append done (before ++ (x ∷ after)))
      ∙ find_from_hit starts lines (length done) before x after h e in
    let (low, high) = inside_list done before x after in
    ap
      (λ (b : ℕ).
        if ltb (length done) (length lines) then at_start b lines else leave (returned lines none))
      found
    ∙ found_start (length done) (length done + length before) lines low high
    ∙ ap (λ (b : ℕ). at_end b (find_next_end lines b) lines) (sym (length-append done before))
    ∙ ap (λ ls. at_end (length (done ++ before)) (find_next_end ls (length (done ++ before))) ls)
        (sym (append_assoc done before (x ∷ after)))

-- behind it no end;
pub end_none :
    (pre : List Text) (rest : List Text)
    → any ends rest ≡ false
    → at_end (length pre) (find_next_end (pre ++ rest) (length pre)) (pre ++ rest)
      ≡ leave (returned (pre ++ rest) (some (length pre + 1)))
unfolding find_next_end
end_none pre rest h =
    let found =
      ap (find_from ends (pre ++ rest) (length pre)) (drop-append pre rest)
      ∙ find_from_miss ends (pre ++ rest) (length pre) rest h in
    ap (λ (e : ℕ). at_end (length pre) e (pre ++ rest)) found ∙ same
  where
    same :
        at_end (length pre) (length (pre ++ rest)) (pre ++ rest)
        ≡ leave (returned (pre ++ rest) (some (length pre + 1)))
    same = ground arith

-- or an end.
pub end_some :
    (pre body : List Text) (c : Text) (after : List Text)
    → any ends body ≡ false
    → ends c ≡ true
    → at_end
        (length pre)
        (find_next_end (pre ++ (body ++ (c ∷ after))) (length pre))
        (pre ++ (body ++ (c ∷ after)))
      ≡ again (length pre + length body + 1) (pre ++ (dummies body ++ (dummy ∷ after)))
unfolding find_next_end remove_from_range
end_some pre body c after h e =
    let lines = pre ++ (body ++ (c ∷ after)) in
    let end = length pre + length body in
    let found =
      ap (find_from ends lines (length pre)) (drop-append pre (body ++ (c ∷ after)))
      ∙ find_from_hit ends lines (length pre) body c after h e in
    let (low, high) = inside_list pre body c after in
    ap (λ (i : ℕ). at_end (length pre) i lines) found
    ∙ ap
        (λ t.
          if t
          then leave (returned lines (some (length pre + 1)))
          else cleared (end + 1) (remove_from_range lines (length pre) (end + 1)))
        high
    ∙ ap (cleared (end + 1)) (
        ap (λ (n : ℕ). clear_lines (length pre) n lines) (number (length-append body (c ∷ [])))
        ∙ ap (λ ls. clear_lines (length pre) (length (body ++ (c ∷ []))) (pre ++ ls))
            (sym (append_assoc body (c ∷ []) after))
        ∙ clear_lines-append pre (body ++ (c ∷ [])) after
        ∙ ap (λ ls. ok (pre ++ ls)) (dummies-append body c after))
  where
    number :
        length (body ++ (c ∷ [])) ≡ length body + 1
        → length pre + length body + 1 - length pre ≡ length (body ++ (c ∷ []))
    number q = omega (arith, q)
