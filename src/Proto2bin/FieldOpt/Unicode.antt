-- ===== src/Proto2bin/FieldOpt/Unicode.antt =====
-- Where all lines are ASCII, `find_field_opt` of tools/proto2bin.py answers for a unicode name as for bytes.
use yarf.Common.{
  ℕ, zero, suc, ◌+◌, ◌-◌, ◌≡◌, refl, ap, Bool, if◌then◌else◌, true, inl, inr, Option, none, some,
  List, [], ◌∷◌, all, arith, Option-cases, get_elem?, Result, ok, raised, key_error, index_error,
}
use yarf.Text.{Text, is_ascii, text_eq, find}
use yarf.Dict.{Dict, lookup}
use yarf.Proto2bin.FieldOpt.{line_opt, opt_loop, find_field_opt, unicode_loop, unicode_field_opt}

get_elem?-is_ascii :
    (lines : List Text) (i : ℕ) {line : Text}
    → all is_ascii lines ≡ true
    → get_elem? lines i ≡ some line
    → is_ascii line ≡ true
get_elem?-is_ascii [] i h e = cc
get_elem?-is_ascii (l ∷ ls) zero h e = ground arith
get_elem?-is_ascii (l ∷ ls) (suc i) h e = get_elem?-is_ascii ls i (ground arith) e

unicode_loop_lem :
    (name : Text) (lines : List Text) (n i : ℕ)
    → all is_ascii lines ≡ true
    → unicode_loop name lines n i ≡ opt_loop name lines n i
unfolding unicode_loop opt_loop
unicode_loop_lem name lines zero i h = refl
unicode_loop_lem name lines (suc n) i h = elim (Option-cases (get_elem? lines i)) [
  | inl p ↦ rw (p, unicode_loop, opt_loop) refl
  | inr (line, p) ↦
      rw (p, unicode_loop, opt_loop, get_elem?-is_ascii lines i h p)
        (ap (round line) (unicode_loop_lem name lines n (i + 1) h))
]
  where
    round : Text → Result (Option (Text × Bool)) → Result (Option (Text × Bool))
    round line rest =
        if text_eq line []
        then rest
        else elim (find name line) [ none ↦ rest | some _ ↦ line_opt line ]

pub unicode_field_opt_lem :
    (cls name : Text) (lines : List Text) (d : Dict (List ℕ))
    → all is_ascii lines ≡ true
    → unicode_field_opt cls name lines d ≡ find_field_opt cls name lines d
unfolding unicode_field_opt find_field_opt
unicode_field_opt_lem cls name lines d h = go (lookup cls d)
  where
    go :
        (r : Option (List ℕ))
        → (elim r as (λ x. Result (Option (Text × Bool))) [
          | none ↦ raised key_error
          | some [] ↦ ok none
          | some (a ∷ []) ↦ raised index_error
          | some (a ∷ z ∷ _) ↦ unicode_loop name lines (z - 1 - (a - 1)) (a - 1)
        ])
          ≡ (elim r as (λ x. Result (Option (Text × Bool))) [
            | none ↦ raised key_error
            | some [] ↦ ok none
            | some (a ∷ []) ↦ raised index_error
            | some (a ∷ z ∷ _) ↦ opt_loop name lines (z - 1 - (a - 1)) (a - 1)
          ])
    go none = refl
    go (some []) = refl
    go (some (a ∷ [])) = refl
    go (some (a ∷ z ∷ l)) = unicode_loop_lem name lines (z - 1 - (a - 1)) (a - 1) h
