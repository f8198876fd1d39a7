-- ===== src/Proto2bin/FieldOpt/Search.antt =====
-- Which line `find_field_opt` of tools/proto2bin.py answers from.
use yarf.Common.{
  ℕ, zero, suc, ◌+◌, ◌-◌, ◌≤◌, ◌<◌, ◌≡◌, ◌≢◌, refl, ◌∙◌, ap, Bool, true, false, inl, inr, Option,
  none, some, List, [], ◌∷◌, arith, if◌then◌else◌, Bool-cases, length, take, drop, get_elem?,
  Result, ok,
}
use yarf.Text.{Text, text_eq, find}
use yarf.Text.Equality.{text_eq→eq}
use yarf.Dict.{Dict, lookup}
use yarf.Proto2bin.FieldOpt.{g_gen_keyword, line_opt, opt_loop, find_field_opt}

-- The first line that holds the name, wherever in the line.
unfoldable pub first_mention : Text → List Text → Option Text
first_mention name [] = none
first_mention name (l ∷ ls) =
    let rest = first_mention name ls in
    if text_eq l [] then rest else elim (find name l) [ none ↦ rest | some _ ↦ some l ]

abbrev pub answer : Option Text → Result (Option (Text × Bool))
answer none = ok none
answer (some l) = line_opt l

take-drop_step :
    (n i : ℕ) (lines : List Text) (l : Text)
    → get_elem? lines i ≡ some l
    → take (suc n) (drop i lines) ≡ l ∷ take n (drop (suc i) lines)
take-drop_step n i [] l e = cc
take-drop_step n zero (x ∷ lines) l e = ground arith
take-drop_step n (suc i) (x ∷ lines) l e = take-drop_step n i lines l e

get_elem?-lt :
    (lines : List Text) (i : ℕ) → i < length lines → (l : Text) × (get_elem? lines i ≡ some l)
get_elem?-lt [] i h = elim h [ ]
get_elem?-lt (x ∷ lines) zero h = (x, refl)
get_elem?-lt (x ∷ lines) (suc i) h = get_elem?-lt lines i (omega arith)

opt_loop_lem :
    (name : Text) (lines : List Text) (n i : ℕ)
    → i + n ≤ length lines
    → opt_loop name lines n i ≡ answer (first_mention name (take n (drop i lines)))
unfolding opt_loop first_mention
opt_loop_lem name lines zero i h = refl
opt_loop_lem name lines (suc n) i h =
    let (l, e) = get_elem?-lt lines i (omega arith) in
    rw (take-drop_step n i lines l e, e, opt_loop)
      (step l (text_eq l []) (find name l) (
        opt_loop_lem name lines n (i + 1) (omega arith)
        ∙ ap (λ (k : ℕ). answer (first_mention name (take n (drop k lines)))) {y = suc i}
            (omega arith)))
  where
    step :
        (l : Text) (b : Bool) (f : Option ℕ)
        → opt_loop name lines n (i + 1) ≡ answer (first_mention name (take n (drop (suc i) lines)))
        → (if b
            then opt_loop name lines n (i + 1)
            else elim f [ none ↦ opt_loop name lines n (i + 1) | some _ ↦ line_opt l ])
          ≡ answer (
              if b then first_mention name (take n (drop (suc i) lines)) else elim f [
                | none ↦ first_mention name (take n (drop (suc i) lines))
                | some _ ↦ some l
              ])
    step l true f q = q
    step l false none q = q
    step l false (some _) q = refl

-- For a range of lines inside the file the call answers from the first line, the message's own one
-- included and the last one left out, that holds the field's name anywhere; no index is out of range.
pub find_field_opt_lem :
    (cls name : Text) (lines : List Text) (d : Dict (List ℕ)) (a e : ℕ) (more : List ℕ)
    → lookup cls d ≡ some (a ∷ e ∷ more)
    → 1 ≤ a
    → a ≤ e
    → e ≤ length lines
    → find_field_opt cls name lines d
      ≡ answer (first_mention name (take (e - a) (drop (a - 1) lines)))
unfolding find_field_opt
find_field_opt_lem cls name lines d a e more h ha he hl =
    rw (h, find_field_opt)
      (opt_loop_lem name lines (e - 1 - (a - 1)) (a - 1) (omega arith)
        ∙ ap (λ (n : ℕ). answer (first_mention name (take n (drop (a - 1) lines)))) (omega arith))

mention_head :
    (name l : Text) (i : ℕ) (ls : List Text)
    → l ≢ []
    → find name l ≡ some i
    → first_mention name (l ∷ ls) ≡ some l
unfolding first_mention
mention_head name l i ls hn hf = elim (Bool-cases (text_eq l [])) [
  | inl q ↦ absurd (hn (text_eq→eq l [] q))
  | inr q ↦ rw (q, hf, first_mention)
]

no_instruction : (l : Text) → find g_gen_keyword l ≡ none → line_opt l ≡ ok none
unfolding line_opt
no_instruction l h = rw (h, line_opt)

-- Where the line that opens the message holds the name of one of its fields, and no instruction,
-- the look-up of that field gives None, whatever stands behind the field.
pub find_field_opt_header :
    (cls name : Text) (lines : List Text) (d : Dict (List ℕ)) (a e : ℕ) (more : List ℕ) (l : Text)
    (i : ℕ)
    → lookup cls d ≡ some (a ∷ e ∷ more)
    → 1 ≤ a
    → a < e
    → e ≤ length lines
    → get_elem? lines (a - 1) ≡ some l
    → l ≢ []
    → find name l ≡ some i
    → find g_gen_keyword l ≡ none
    → find_field_opt cls name lines d ≡ ok none
find_field_opt_header cls name lines d a e more l i h ha he hl hg hn hf hk =
    find_field_opt_lem cls name lines d a e more h ha (omega arith) hl
    ∙ ap (λ (n : ℕ). answer (first_mention name (take n (drop (a - 1) lines))))
        {y = suc (e - a - 1)} (omega arith)
    ∙ ap (λ (x : List Text). answer (first_mention name x))
        (take-drop_step (e - a - 1) (a - 1) lines l hg)
    ∙ ap answer (mention_head name l i (take (e - a - 1) (drop (suc (a - 1)) lines)) hn hf)
    ∙ no_instruction l hk
