-- ===== src/Cpplint/Comments/Refine.antt =====
-- `RemoveMultiLineComments` of cpplint.py against the pass over the lines.
use mathlib.Core.Path.{subst}
use mathlib.Core.List.{append_assoc}
use yarf.Common.{
  ℕ, zero, suc, ◌+◌, ◌<◌, ◌≡◌, ◌∙◌, ap, sym, arith, true, false, inl, inr, none, some, List, [],
  ◌∷◌, ◌++◌, if◌then◌else◌, length, length-append,
}
use yarf.Text.{Text}
use yarf.Cpplint.Comments.{
  starts, ends, dummy, find_next_end, Removal, returned, Round, leave, again, at_end, remove_loop,
  remove_multi_line_comments,
}
use yarf.Cpplint.Comments.Spec.{any, pass, unclosed}
use yarf.Cpplint.Comments.Search.{cut, dummies, length-dummies}
use yarf.Cpplint.Comments.Pass.{
  pass-append, unclosed-append, pass_comment, unclosed_comment, pass_begin, unclosed_begin,
  pass_clean, unclosed_clean, any-append,
}
use yarf.Cpplint.Comments.Rounds.{round_none, round_start, end_none, end_some}

-- How the loop should end, with the lines `done` behind it.
abbrev result : List Text → List Text → Removal
result done rest = returned (done ++ pass false rest) (unclosed false (length done) rest)

abbrev then_loop : ℕ → Round → Removal
then_loop fuel r = elim r as (λ x. Removal) [
  | leave q ↦ q
  | again lineix lines ↦ remove_loop fuel lineix lines
]

result-append :
    (done before rest : List Text)
    → any starts before ≡ false
    → result done (before ++ rest) ≡ result (done ++ before) rest
result-append done before rest h =
    ap (λ ls. returned (done ++ ls) (unclosed false (length done) (before ++ rest)))
      (pass-append before rest h)
    ∙ ap (λ ls. returned ls (unclosed false (length done) (before ++ rest)))
        (sym (append_assoc done before (pass false rest)))
    ∙ ap (returned ((done ++ before) ++ pass false rest)) (
        unclosed-append (length done) before rest h
        ∙ ap (λ (n : ℕ). unclosed false n rest) (sym (length-append done before)))

-- The lines behind a comment that is cleared.
abbrev beyond : List Text → List Text → List Text
beyond pre body = pre ++ (dummies body ++ (dummy ∷ []))

beyond-append :
    (pre body rest : List Text) → beyond pre body ++ rest ≡ pre ++ (dummies body ++ (dummy ∷ rest))
beyond-append pre body rest =
    append_assoc pre (dummies body ++ (dummy ∷ [])) rest
    ∙ ap (λ ls. pre ++ ls) (append_assoc (dummies body) (dummy ∷ []) rest)

length-beyond : (pre body : List Text) → length (beyond pre body) ≡ length pre + length body + 1
length-beyond pre body = omega (
  arith,
  length-append pre (dummies body ++ (dummy ∷ [])),
  length-append (dummies body) (dummy ∷ []),
  length-dummies body,
)

result_comment :
    (pre : List Text) (x : Text) (rest body : List Text) (c : Text) (after : List Text)
    → starts x ≡ true
    → x ∷ rest ≡ body ++ (c ∷ after)
    → any ends body ≡ false
    → ends c ≡ true
    → result (beyond pre body) after ≡ result pre (x ∷ rest)
result_comment pre x rest body c after e q k l =
    let closes = ap (any ends) q ∙ any-append ends body c after l in
    let p =
      pass_begin x rest e
      ∙ ap (λ t. if t then pass true (x ∷ rest) else x ∷ rest) closes
      ∙ ap (pass true) q
      ∙ pass_comment body c after k l in
    let u =
      unclosed_begin (length pre) x rest e
      ∙ ap (λ t. if t then unclosed true (length pre) (x ∷ rest) else some (length pre + 1)) closes
      ∙ ap (unclosed true (length pre)) q
      ∙ unclosed_comment (length pre) body c after k l
      ∙ ap (λ (n : ℕ). unclosed false n after) (sym (length-beyond pre body)) in
    ap (λ ls. returned ls (unclosed false (length (beyond pre body)) after))
      (beyond-append pre body (pass false after) ∙ ap (λ ls. pre ++ ls) (sym p))
    ∙ ap (returned (pre ++ pass false (x ∷ rest))) (sym u)

-- The three ways of a round, with what the pass makes of them.
stop_none :
    (fuel : ℕ) (done rest : List Text)
    → any starts rest ≡ false
    → remove_loop (suc fuel) (length done) (done ++ rest) ≡ result done rest
unfolding remove_loop
stop_none fuel done rest h =
    ap (then_loop fuel) (round_none done rest h)
    ∙ ap (λ ls. returned (done ++ ls) none) (sym (pass_clean rest h))
    ∙ ap (returned (done ++ pass false rest)) (sym (unclosed_clean (length done) rest h))

stop_unclosed :
    (fuel : ℕ) (done before : List Text) (x : Text) (after : List Text)
    → any starts before ≡ false
    → starts x ≡ true
    → any ends (x ∷ after) ≡ false
    → remove_loop (suc fuel) (length done) (done ++ (before ++ (x ∷ after)))
      ≡ result done (before ++ (x ∷ after))
unfolding remove_loop
stop_unclosed fuel done before x after h e k =
    let pre = done ++ before in
    ap (then_loop fuel) (round_start done before x after h e ∙ end_none pre (x ∷ after) k)
    ∙ ap (λ ls. returned (pre ++ ls) (some (length pre + 1)))
        (sym (pass_begin x after e ∙ ap (λ t. if t then pass true (x ∷ after) else x ∷ after) k))
    ∙ ap (returned (pre ++ pass false (x ∷ after))) (
        sym (
          unclosed_begin (length pre) x after e
          ∙ ap (λ t. if t then unclosed true (length pre) (x ∷ after) else some (length pre + 1))
              k))
    ∙ sym (result-append done before (x ∷ after) h)

go_on :
    (fuel : ℕ) (done before : List Text) (x : Text) (rest body : List Text) (c : Text)
    (after : List Text)
    → any starts before ≡ false
    → starts x ≡ true
    → x ∷ rest ≡ body ++ (c ∷ after)
    → any ends body ≡ false
    → ends c ≡ true
    → ((done' : List Text) → remove_loop fuel (length done') (done' ++ after) ≡ result done' after)
    → remove_loop (suc fuel) (length done) (done ++ (before ++ (x ∷ rest)))
      ≡ result done (before ++ (x ∷ rest))
unfolding remove_loop
go_on fuel done before x rest body c after h e q k l ih =
    let pre = done ++ before in
    ap (then_loop fuel) (
      round_start done before x rest h e
      ∙ ap (λ ls. at_end (length pre) (find_next_end (pre ++ ls) (length pre)) (pre ++ ls)) q
      ∙ end_some pre body c after k l)
    ∙ ap (λ (n : ℕ). remove_loop fuel n (pre ++ (dummies body ++ (dummy ∷ after))))
        (sym (length-beyond pre body))
    ∙ ap (remove_loop fuel (length (beyond pre body))) (sym (beyond-append pre body after))
    ∙ ih (beyond pre body)
    ∙ result_comment pre x rest body c after e q k l
    ∙ sym (result-append done before (x ∷ rest) h)

remove_loop_lem :
    (fuel : ℕ) (rest : List Text)
    → length rest < fuel
    → (done : List Text) → remove_loop fuel (length done) (done ++ rest) ≡ result done rest
remove_loop_lem zero rest lt done = absurd (omega (arith, lt))
remove_loop_lem (suc fuel) rest lt done = elim (cut starts rest) [
  | inl h ↦ stop_none fuel done rest h
  | inr s ↦
      subst (λ ls. remove_loop (suc fuel) (length done) (done ++ ls) ≡ result done ls) (sym s.parts)
        (elim (cut ends (s.line ∷ s.after)) [
          | inl k ↦ stop_unclosed fuel done s.before s.line s.after s.misses s.hit k
          | inr e ↦
              go_on fuel done s.before s.line s.after e.before e.line e.after s.misses s.hit e.parts
                e.misses e.hit
                (remove_loop_lem fuel e.after
                  (shorter s.before s.line s.after e.before e.line e.after s.parts e.parts))
        ])
]
  where
    shorter :
        (bs : List Text) (x : Text) (us cs : List Text) (y : Text) (ds : List Text)
        → rest ≡ bs ++ (x ∷ us)
        → x ∷ us ≡ cs ++ (y ∷ ds)
        → length ds < fuel
    shorter bs x us cs y ds p q =
        omega (
          arith,
          lt,
          ap length p,
          length-append bs (x ∷ us),
          ap length q,
          length-append cs (y ∷ ds),
        )

-- Removing the comments over several lines gives the lines of the pass, and reports the number of
-- the line that begins a comment which no line ends, if there is one; it raises no IndexError, and
-- its rounds come to an end.
pub remove_multi_line_comments_lem :
    (lines : List Text)
    → remove_multi_line_comments lines ≡ returned (pass false lines) (unclosed false 0 lines)
unfolding remove_multi_line_comments
remove_multi_line_comments_lem lines = remove_loop_lem (length lines + 1) lines (omega arith) []
