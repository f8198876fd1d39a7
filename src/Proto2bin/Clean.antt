-- ===== src/Proto2bin/Clean.antt =====
-- The values that `gen_code` of tools/proto2bin.py fills in hold no dollar, if its inputs hold none.
use mathlib.Core.List.{foldl}
use yarf.Common.{
  ℕ, zero, suc, ◌+◌, ◌-◌, ◌≡◌, refl, Bool, true, false, inl, inr, Option, none, some, List, [], ◌∷◌,
  ◌++◌, arith, all, get_elem?, Option-cases, if◌then◌else◌, ◌==◌, Result, ok, raised, next, flow,
  unpack, key_error, index_error,
}
use yarf.Common.Flows.{◌>>=◌}
use yarf.Text.{Text, codes, find, split, upper_char}
use yarf.Template.{no_dollar}
use yarf.Template.Render.{no_dollar-append}
use yarf.Template.NoDollar.{upper_char-no_dollar, drop-no_dollar, split-no_dollar}
use yarf.Dict.{Dict, lookup}
use yarf.Descriptor.{FieldType, type_double, type_message, Field}
use yarf.Util.{first2upper_loop, first2upper}
use yarf.Proto2bin.Ctype.{add_name, ctype_of, prototype2ctype}
use yarf.Proto2bin.FieldOpt.{g_gen_keyword, words_opt, line_opt, unicode_loop, unicode_field_opt}
use yarf.Proto2bin.GenCode.{Source, find_max}

first2upper_loop-no_dollar :
    (head : Bool) (ret t : Text)
    → no_dollar ret ≡ true
    → no_dollar t ≡ true
    → no_dollar (first2upper_loop head ret t) ≡ true
unfolding first2upper_loop
first2upper_loop-no_dollar head ret [] hr ht = hr
first2upper_loop-no_dollar head ret (c ∷ t) hr ht =
    first2upper_loop-no_dollar (if c == b'_' then true else false)
      (if c == b'_' then ret else if head then ret ++ (upper_char c ∷ []) else ret ++ (c ∷ [])) t
      (longer head (c == b'_')) tail_clean
  where
    head_clean : no_dollar (c ∷ []) ≡ true
    head_clean = unfold no_dollar in ground arith

    tail_clean : no_dollar t ≡ true
    tail_clean = unfold no_dollar in ground arith

    longer :
        (h b : Bool)
        → no_dollar (if b then ret else if h then ret ++ (upper_char c ∷ []) else ret ++ (c ∷ []))
          ≡ true
    longer h true = hr
    longer true false = ground (
      arith,
      no_dollar-append ret (upper_char c ∷ []),
      upper_char-no_dollar c head_clean,
      head_clean,
    )
    longer false false = ground (arith, no_dollar-append ret (c ∷ []), head_clean)

pub first2upper-no_dollar : (t : Text) → no_dollar t ≡ true → no_dollar (first2upper t) ≡ true
unfolding first2upper
first2upper-no_dollar t h = first2upper_loop-no_dollar true [] t (unfold no_dollar in refl) h

add_name-no_dollar :
    (a n : Text) → no_dollar a ≡ true → no_dollar n ≡ true → no_dollar (add_name a n) ≡ true
unfolding add_name
add_name-no_dollar a n ha hn =
    ground (arith, no_dollar-append a (codes "::" ++ n), no_dollar-append (codes "::") n, colons)
  where
    colons : no_dollar (codes "::") ≡ true
    colons = unfold no_dollar in refl

foldl-no_dollar :
    (a : Text) (l : List Text)
    → no_dollar a ≡ true
    → all no_dollar l ≡ true
    → no_dollar (foldl add_name a l) ≡ true
foldl-no_dollar a [] ha hl = ha
foldl-no_dollar a (n ∷ l) ha hl =
    foldl-no_dollar (add_name a n) l (add_name-no_dollar a n ha (ground arith)) (ground arith)

ctype_of-no_dollar :
    (k : FieldType) (t : Text) → no_dollar t ≡ true → no_dollar (ctype_of k t) ≡ true
unfolding ctype_of no_dollar
ctype_of-no_dollar type_message t h =
    foldl-no_dollar [] (split (codes ".") t) refl (split-no_dollar (codes ".") t h)
ctype_of-no_dollar type_double t h = refl
ctype_of-no_dollar _ t h = refl

pub prototype2ctype-no_dollar :
    (f : Field) → no_dollar f.type_name ≡ true → no_dollar (prototype2ctype f) ≡ true
unfolding prototype2ctype
prototype2ctype-no_dollar f h = ctype_of-no_dollar f.kind f.type_name h

words_opt-no_dollar :
    (ws : List Text) {w : Text} {b : Bool}
    → all no_dollar ws ≡ true
    → words_opt ws ≡ ok (some (w, b))
    → no_dollar w ≡ true
unfolding words_opt
words_opt-no_dollar [] h e = cc
words_opt-no_dollar (v ∷ []) h e = cc
words_opt-no_dollar (v ∷ k ∷ ws) h e = ground arith

line_opt-no_dollar :
    (line : Text) {w : Text} {b : Bool}
    → no_dollar line ≡ true
    → line_opt line ≡ ok (some (w, b))
    → no_dollar w ≡ true
unfolding line_opt
line_opt-no_dollar line hl e = elim (Option-cases (find g_gen_keyword line)) [
  | inl p ↦ cc (rw (p, line_opt) at e)
  | inr (i, p) ↦
      words_opt-no_dollar _ (split-no_dollar (codes "|") _ (drop-no_dollar _ line hl))
        (rw (p, line_opt) at e)
]

get_elem?-no_dollar :
    (lines : List Text) (i : ℕ) {line : Text}
    → all no_dollar lines ≡ true
    → get_elem? lines i ≡ some line
    → no_dollar line ≡ true
get_elem?-no_dollar [] i h e = cc
get_elem?-no_dollar (l ∷ ls) zero h e = ground arith
get_elem?-no_dollar (l ∷ ls) (suc i) h e = get_elem?-no_dollar ls i (ground arith) e

unicode_loop-no_dollar :
    (name : Text) (lines : List Text) (n i : ℕ) {w : Text} {b : Bool}
    → all no_dollar lines ≡ true
    → unicode_loop name lines n i ≡ ok (some (w, b))
    → no_dollar w ≡ true
unfolding unicode_loop
unicode_loop-no_dollar name lines zero i hl e = cc
unicode_loop-no_dollar name lines (suc n) i {w} {b} hl e = elim (Option-cases (get_elem? lines i)) [
  | inl p ↦ cc (rw (p, unicode_loop) at e)
  | inr (line, p) ↦ ground (
    arith,
    p,
    unicode_loop-no_dollar name lines n (i + 1) {w = w} {b = b} hl,
    line_opt-no_dollar line {w = w} {b = b} (get_elem?-no_dollar lines i hl p),
  )
]

pub unicode_field_opt-no_dollar :
    (cls name : Text) (lines : List Text) (d : Dict (List ℕ)) {w : Text} {b : Bool}
    → all no_dollar lines ≡ true
    → unicode_field_opt cls name lines d ≡ ok (some (w, b))
    → no_dollar w ≡ true
unfolding unicode_field_opt
unicode_field_opt-no_dollar cls name lines d {w} {b} hl e = go (lookup cls d) e
  where
    go :
        (r : Option (List ℕ))
        → (elim r [
          | none ↦ raised key_error
          | some [] ↦ ok none
          | some (a ∷ []) ↦ raised index_error
          | some (a ∷ z ∷ _) ↦ unicode_loop name lines (z - 1 - (a - 1)) (a - 1)
        ])
          ≡ ok (some (w, b))
        → no_dollar w ≡ true
    go none e = cc
    go (some []) e = cc
    go (some (a ∷ [])) e = cc
    go (some (a ∷ z ∷ l)) e = unicode_loop-no_dollar name lines _ _ hl e

-- The length that an instruction gives.
pub find_max-no_dollar :
    (s : Source) (name : Text) {m : Text}
    → all no_dollar s.file_lines ≡ true
    → find_max s name ≡ next m
    → no_dollar m ≡ true
unfolding find_max
find_max-no_dollar s name {m} hl e =
    go (unicode_field_opt s.class_name name s.file_lines s.struct_dict) refl e
  where
    go :
        (r : Result (Option (Text × Bool)))
        → unicode_field_opt s.class_name name s.file_lines s.struct_dict ≡ r
        → (flow r >>= λ o. unpack o >>= λ p. next p.0) ≡ next m
        → no_dollar m ≡ true
    go (ok (some (w, b))) q h = ground (
      arith,
      unicode_field_opt-no_dollar s.class_name name s.file_lines s.struct_dict {w = w} {b = b} hl q,
    )
    go (ok none) q h = cc
    go (raised x) q h = cc
