-- ===== src/Proto2bin/ReadProto/Ends.antt =====
-- The failures of `read_proto` in tools/proto2bin.py.
use yarf.Common.{
  ℕ, ◌+◌, ◌-◌, ◌≡◌, refl, ap, ◌∙◌, true, false, ◌⊎◌, inl, inr, none, some, List, [], ◌∷◌, ◌++◌,
  arith, Bool-cases, Result, ok, raised, key_error,
}
use yarf.Text.{Text, text_eq}
use yarf.Text.Equality.{text_eq_iff}
use yarf.Dict.{Dict, lookup, insert, lookup-insert, lookup-insert_self}
use yarf.Proto2bin.ReadProto.{
  Scan, start, LineKind, plain, bad, opens, classify, append_line, close_last, read_loop,
  read_proto,
}
use yarf.Proto2bin.ReadProto.Spec.{has_bad, headers}
use yarf.Proto2bin.ReadProto.Step.{
  stepped, closing, opened, struct_dict-stepped, last_msg_name-stepped, line_no-stepped,
  read_line-plain, read_line-bad, read_line-opens,
}
use yarf.Proto2bin.ReadProto.Open.{append_line_lem}

-- The last message, if there is one, is in the dictionary.
abbrev IsLinked : Text → Dict (List ℕ) → Type 0
IsLinked last d = (last ≡ []) ⊎ ((l : List ℕ) × (lookup last d ≡ some l))

abbrev Closed : Text → Result (Dict (List ℕ)) → Type 0
Closed name r = (d : Dict (List ℕ)) × (r ≡ ok d) × ((l : List ℕ) × (lookup name d ≡ some l))

found_after :
    (name last : Text) (n : ℕ) (d : Dict (List ℕ)) (l : List ℕ)
    → lookup last d ≡ some l
    → (l' : List ℕ) × (lookup last (insert name (n ∷ []) d) ≡ some l')
found_after name last n d l e = elim (Bool-cases (text_eq name last)) [
  | inl q ↦ (n ∷ [], rw (lookup-insert, q) refl)
  | inr q ↦ (l, rw (lookup-insert, q) e)
]

kept :
    (name last : Text) (x : List ℕ) (n : ℕ) (d : Dict (List ℕ))
    → (l : List ℕ) × (lookup name (insert last x (insert name (n ∷ []) d)) ≡ some l)
kept name last x n d = elim (Bool-cases (text_eq last name)) [
  | inl q ↦ (x, rw (lookup-insert, q) refl)
  | inr q ↦ (n ∷ [], rw (lookup-insert, q) (lookup-insert_self name (n ∷ []) d))
]

-- So the opening of a message raises nothing.
closing_lem :
    (name last : Text) (n : ℕ) (d : Dict (List ℕ))
    → IsLinked last d
    → Closed name (closing name last n d)
closing_lem name last n d link = elim (Bool-cases (text_eq last [])) [
  | inl q ↦ rw q (insert name (n ∷ []) d, refl, (n ∷ [], lookup-insert_self name (n ∷ []) d))
  | inr q ↦ rw q (go q link)
]
  where
    go :
        text_eq last [] ≡ false
        → IsLinked last d
        → Closed name (append_line last (n - 1) (insert name (n ∷ []) d))
    go q (inl e) = absurd (ground (arith, text_eq_iff last []))
    go q (inr (l, e)) =
        let (l', e') = found_after name last n d l e in
        (
          _,
          append_line_lem last (n - 1) l' (insert name (n ∷ []) d) e',
          kept name last (l' ++ ((n - 1) ∷ [])) n d,
        )

loop_bad :
    (file : List Text) (s : Scan)
    → IsLinked s.last_msg_name s.struct_dict
    → has_bad file ≡ true
    → read_loop file s ≡ ok none
unfolding read_loop has_bad
loop_bad [] s link hb = cc
loop_bad (l ∷ file) s link hb = go (classify l) refl (λ s'. loop_bad file s')
  where
    go :
        (k : LineKind)
        → classify l ≡ k
        → ((s' : Scan)
            → IsLinked s'.last_msg_name s'.struct_dict
            → has_bad file ≡ true
            → read_loop file s' ≡ ok none)
        → read_loop (l ∷ file) s ≡ ok none
    go plain q ih = rw (read_line-plain l s q) (
        ih (stepped l s) (rw (last_msg_name-stepped, struct_dict-stepped) link)
          (rw (q, has_bad) at hb))
    go bad q ih = rw (read_line-bad l s q)
    go (opens name) q ih =
        let c = closing_lem name s.last_msg_name (s.line_no + 1) s.struct_dict link in
        rw (read_line-opens l s name q, c.1)
          (ih (opened l s name c.0) (inr c.2) (rw (q, has_bad) at hb))

-- A line with two keywords, or with no name behind the keyword, makes the call return None, whatever
-- else the file holds.
pub read_proto_bad : (file : List Text) → has_bad file ≡ true → read_proto file ≡ ok none
unfolding read_proto
read_proto_bad file h = loop_bad file start (inl refl) h

loop_empty :
    (file : List Text) (s : Scan)
    → s.last_msg_name ≡ []
    → s.struct_dict ≡ []
    → has_bad file ≡ false
    → headers s.line_no file ≡ []
    → read_loop file s ≡ raised key_error
unfolding read_loop has_bad headers close_last append_line lookup
loop_empty [] s hn hd hb hh = rw (hn, hd)
loop_empty (l ∷ file) s hn hd hb hh = go (classify l) refl (λ s'. loop_empty file s')
  where
    go :
        (k : LineKind)
        → classify l ≡ k
        → ((s' : Scan)
            → s'.last_msg_name ≡ []
            → s'.struct_dict ≡ []
            → has_bad file ≡ false
            → headers s'.line_no file ≡ []
            → read_loop file s' ≡ raised key_error)
        → read_loop (l ∷ file) s ≡ raised key_error
    go plain q ih = rw (read_line-plain l s q) (
        ih (stepped l s) (last_msg_name-stepped l s ∙ hn) (struct_dict-stepped l s ∙ hd)
          (rw (q, has_bad) at hb)
          (ap (λ (n : ℕ). headers n file) (line_no-stepped l s) ∙ rw q at hh))
    go bad q ih = cc (rw (q, has_bad) at hb)
    go (opens name) q ih = cc (rw q at hh)

-- A file without any message makes the call raise KeyError.
pub read_proto_empty :
    (file : List Text)
    → has_bad file ≡ false
    → headers 0 file ≡ []
    → read_proto file ≡ raised key_error
unfolding read_proto
read_proto_empty file hb hh = loop_empty file start refl refl hb hh
