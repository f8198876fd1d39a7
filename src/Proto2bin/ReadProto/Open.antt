-- ===== src/Proto2bin/ReadProto/Open.antt =====
-- The state of `read_proto` of tools/proto2bin.py while a message is open, and how it is closed.
use mathlib.Core.List.{append_assoc}
use yarf.Common.{
  ℕ, suc, ◌+◌, ◌-◌, ◌≡◌, refl, sym, ap, ◌∙◌, Bool, true, false, inl, inr, Option, none, some, List,
  [], ◌∷◌, ◌++◌, arith, if◌then◌else◌, Option-cases, length, drop, Result, ok, ◌>>=◌,
}
use yarf.Text.{Text, text_eq, lstrip, find}
use yarf.Text.Equality.{text_eq_iff}
use yarf.Dict.{Dict, lookup, insert, lookup-insert, lookup-insert_self}
use yarf.Proto2bin.ReadProto.{
  Scan, bad, opens, keyword_msg, var_name, classify, append_line, read_line, Proto, close_last,
}
use yarf.Proto2bin.ReadProto.Spec.{instructions_in, instructions}
use yarf.Proto2bin.ReadProto.Step.{
  to_come, stepped, closing, opened, line_no-stepped, file_lines-stepped, read_line-opens,
}

-- Dictionaries that answer alike.
abbrev pub SameDict : Dict (List ℕ) → Dict (List ℕ) → Type 0
SameDict d e = (k : Text) → lookup k d ≡ lookup k e

-- A message `last`, begun on line `a`, is open, and the ones before it are in `e`.
pub record IsOpen (s : Scan) (last : Text) (a : ℕ) (e : Dict (List ℕ)) : Type 0 where
  pub named : s.last_msg_name ≡ last
  pub nonempty : text_eq last [] ≡ false
  pub entered : SameDict s.struct_dict (insert last (a ∷ []) e)

-- The result of the call, up to the order of the dictionary.
pub record Reads (r : Result (Option Proto)) (lines : List Text) (d : Dict (List ℕ))
    (instruct : List Text) : Type 0 where
  pub dict : Dict (List ℕ)
  pub result : r ≡ ok (some (lines, dict, instruct))
  pub same : SameDict dict d

var_name-nonempty : (t name : Text) → var_name t ≡ some name → text_eq name [] ≡ false
unfolding var_name text_eq
var_name-nonempty [] name e = cc
var_name-nonempty (c ∷ t) name e = ground arith

pub classify-nonempty : (l name : Text) → classify l ≡ opens name → text_eq name [] ≡ false
unfolding classify
classify-nonempty l name e = elim (Option-cases (find keyword_msg l)) [
  | inl p ↦ cc (rw (p, classify) at e)
  | inr (i, p) ↦ subline (drop (i + length keyword_msg) l) (rw (p, classify) at e)
]
  where
    go :
        (f : Option ℕ) (v : Option Text)
        → ((n : Text) → v ≡ some n → text_eq n [] ≡ false)
        → (elim f [ some _ ↦ bad | none ↦ elim v [ none ↦ bad | some n ↦ opens n ] ]) ≡ opens name
        → text_eq name [] ≡ false
    go (some _) v h e = cc
    go none none h e = cc
    go none (some n) h e = ground (arith, h n refl)

    subline :
        (t : Text)
        → (elim (find keyword_msg t) [
          | some _ ↦ bad
          | none ↦ elim (var_name (lstrip t)) [ none ↦ bad | some n ↦ opens n ]
        ])
          ≡ opens name
        → text_eq name [] ≡ false
    subline t e = go (find keyword_msg t) (var_name (lstrip t)) (var_name-nonempty (lstrip t)) e

pub append_line_lem :
    (last : Text) (n : ℕ) (l : List ℕ) (d : Dict (List ℕ))
    → lookup last d ≡ some l
    → append_line last n d ≡ ok (insert last (l ++ (n ∷ [])) d)
unfolding append_line
append_line_lem last n l d e = rw (e, append_line)

-- The end of the file closes the open message.
pub close_open :
    (s : Scan) (last : Text) (a : ℕ) (e : Dict (List ℕ))
    → IsOpen s last a e
    → Reads (close_last s) s.file_lines (insert last (a ∷ s.line_no ∷ []) e) s.parse_instruct
unfolding close_last
close_open s last a e h = record {
  dict = insert last (a ∷ s.line_no ∷ []) s.struct_dict;
  result = rw (h.named, closed);
  same = λ k. rw (lookup-insert, lookup-insert) (rest k (text_eq last k) refl);
}
  where
    closed :
        append_line last s.line_no s.struct_dict
        ≡ ok (insert last (a ∷ s.line_no ∷ []) s.struct_dict)
    closed =
        append_line_lem last s.line_no (a ∷ []) s.struct_dict
          (h.entered last ∙ lookup-insert_self last (a ∷ []) e)

    rest :
        (k : Text) (b : Bool)
        → text_eq last k ≡ b
        → (if b then some (a ∷ s.line_no ∷ []) else lookup k s.struct_dict)
          ≡ (if b then some (a ∷ s.line_no ∷ []) else lookup k e)
    rest k true q = refl
    rest k false q = h.entered k ∙ lookup-insert last k (a ∷ []) e ∙ rw q

pub Reads-cast :
    {r r' : Result (Option Proto)} {lines lines' : List Text} {d d' : Dict (List ℕ)}
    {is is' : List Text}
    → r ≡ r'
    → lines ≡ lines'
    → d ≡ d'
    → is ≡ is'
    → Reads r lines d is
    → Reads r' lines' d' is'
Reads-cast p q u v h = record {
  dict = h.dict;
  result = sym p ∙ h.result ∙ (λ j. ok (some (q j, h.dict, v j)));
  same = λ k. h.same k ∙ ap (lookup k) u;
}

pub to_come-nil : (s : Scan) → to_come s [] ≡ []
unfolding instructions instructions_in
to_come-nil s = ground arith

pub lines_step :
    (l : Text) (file : List Text) (s : Scan)
    → (stepped l s).file_lines ++ file ≡ s.file_lines ++ (l ∷ file)
lines_step l file s =
    ap (λ (x : List Text). x ++ file) (file_lines-stepped l s)
    ∙ append_assoc s.file_lines (l ∷ []) file

pub number_step :
    (l : Text) (file : List Text) (s : Scan)
    → (stepped l s).line_no + length file ≡ s.line_no + suc (length file)
number_step l file s = omega (arith, line_no-stepped l s)

-- A new message behind the open one: the open one is closed on the line before.
pub reopen :
    (l : Text) (s : Scan) (last name : Text) (a : ℕ) (e : Dict (List ℕ))
    → IsOpen s last a e
    → classify l ≡ opens name
    → text_eq last name ≡ false
    → (d : Dict (List ℕ)) × (read_line l s ≡ ok (some (opened l s name d)))
      × IsOpen
          (opened l s name d)
          name
          (s.line_no + 1)
          (insert last (a ∷ (s.line_no + 1 - 1) ∷ []) e)
reopen l s last name a e h c ne = (
  d,
  read_line-opens l s name c ∙ (λ i. closing_step i >>= λ x. ok (some (opened l s name x))),
  record {
    named = refl;
    nonempty = classify-nonempty l name c;
    entered = λ k. simp lookup-insert (
        ground (
          arith,
          h.entered k,
          lookup-insert last k (a ∷ []) e,
          text_eq_iff last k,
          text_eq_iff name k,
          text_eq_iff last name,
        ));
  },
)
  where
    n : ℕ
    n = s.line_no + 1

    d : Dict (List ℕ)
    d = insert last (a ∷ (n - 1) ∷ []) (insert name (n ∷ []) s.struct_dict)

    closing_step : closing name s.last_msg_name n s.struct_dict ≡ ok d
    closing_step =
        rw (h.named, h.nonempty)
          (append_line_lem last (n - 1) (a ∷ []) _ (
            ground (
              arith,
              lookup-insert name last (n ∷ []) s.struct_dict,
              h.entered last,
              lookup-insert_self last (a ∷ []) e,
              text_eq_iff name last,
              text_eq_iff last name,
            )))
