-- ===== src/Proto2bin/ReadProto/Step.antt =====
-- One round of the loop of `read_proto` in tools/proto2bin.py.
use mathlib.Core.List.{append_assoc}
use yarf.Common.{
  ℕ, ◌+◌, ◌-◌, ◌≡◌, refl, ◌∙◌, Option, none, some, List, [], ◌∷◌, ◌++◌, arith, if◌then◌else◌,
  Result, ok, raised, ◌>>=◌,
}
use yarf.Text.{Text, text_eq, lstrip}
use yarf.Dict.{Dict, insert}
use yarf.Proto2bin.ReadProto.{
  Scan, gen_instruct, plain, bad, opens, classify, append_line, open_message, struct_line,
  read_line,
}
use yarf.Proto2bin.ReadProto.Spec.{instructions_in, instructions}

-- The scan of instructions changes only its own variables.
abbrev SameOutside : Scan → Scan → Type 0
SameOutside s t =
    (s.line_no ≡ t.line_no)
    × (s.last_msg_name ≡ t.last_msg_name)
    × (s.file_lines ≡ t.file_lines)
    × (s.struct_dict ≡ t.struct_dict)

gen_instruct_outside : (l : Text) (s : Scan) → SameOutside (gen_instruct l s) s
unfolding gen_instruct
gen_instruct_outside l s = ground arith

-- What is still to come of the instructions.
abbrev pub to_come : Scan → List Text → List Text
to_come s file =
    if s.parse_end then [] else if s.parse_begin then instructions_in file else instructions file

gen_instruct-to_come :
    (l : Text) (s : Scan) (file : List Text)
    → (gen_instruct l s).parse_instruct ++ to_come (gen_instruct l s) file
      ≡ s.parse_instruct ++ to_come s (l ∷ file)
unfolding gen_instruct instructions instructions_in
gen_instruct-to_come l s file =
    ground (arith, append_assoc s.parse_instruct (lstrip l ∷ []) (instructions_in file))

-- One round, as far as it does not concern the messages.
abbrev pub stepped : Text → Scan → Scan
stepped l s =
    let t = gen_instruct l (record s { line_no = s.line_no + 1 }) in
    record t { file_lines = t.file_lines ++ (l ∷ []) }

-- What the opening of a message on line `n` makes of the dictionary.
abbrev pub closing : Text → Text → ℕ → Dict (List ℕ) → Result (Dict (List ℕ))
closing name last n d =
    let d' = insert name (n ∷ []) d in
    if text_eq last [] then ok d' else append_line last (n - 1) d'

module _ (l : Text) (s : Scan) where
  pub line_no-stepped : (stepped l s).line_no ≡ s.line_no + 1
  unfolding gen_instruct
  line_no-stepped = ground arith

  pub last_msg_name-stepped : (stepped l s).last_msg_name ≡ s.last_msg_name
  unfolding gen_instruct
  last_msg_name-stepped = ground arith

  pub struct_dict-stepped : (stepped l s).struct_dict ≡ s.struct_dict
  unfolding gen_instruct
  struct_dict-stepped = ground arith

  pub file_lines-stepped : (stepped l s).file_lines ≡ s.file_lines ++ (l ∷ [])
  unfolding gen_instruct
  file_lines-stepped = ground arith

  pub to_come-stepped :
      (file : List Text)
      → (stepped l s).parse_instruct ++ to_come (stepped l s) file
        ≡ s.parse_instruct ++ to_come s (l ∷ file)
  to_come-stepped file = gen_instruct-to_come l (record s { line_no = s.line_no + 1 }) file

  pub read_line-plain : classify l ≡ plain → read_line l s ≡ ok (some (stepped l s))
  unfolding read_line struct_line
  read_line-plain e = rw e

  pub read_line-bad : classify l ≡ bad → read_line l s ≡ ok none
  unfolding read_line struct_line
  read_line-bad e = rw e

  -- the opening of a message, with what it makes of the dictionary
  abbrev pub opened : Text → Dict (List ℕ) → Scan
  opened name d = record (stepped l s) { struct_dict = d; last_msg_name = name }

  pub read_line-opens :
      (name : Text)
      → classify l ≡ opens name
      → read_line l s ≡ (
          closing name s.last_msg_name (s.line_no + 1) s.struct_dict >>= λ d.
          ok (some (opened name d)))
  unfolding read_line struct_line open_message
  read_line-opens name e = rw e (
      regroup (closing name t.last_msg_name t.line_no t.struct_dict) ∙ (λ i.
        closing name (last_msg_name-outside i) (line_no-outside i) (struct_dict-outside i) >>= λ d.
        ok (some (opened name d))))
    where
      t : Scan
      t = gen_instruct l (record s { line_no = s.line_no + 1 })

      line_no-outside : t.line_no ≡ s.line_no + 1
      line_no-outside =
          ground (arith, gen_instruct_outside l (record s { line_no = s.line_no + 1 }))

      last_msg_name-outside : t.last_msg_name ≡ s.last_msg_name
      last_msg_name-outside =
          ground (arith, gen_instruct_outside l (record s { line_no = s.line_no + 1 }))

      struct_dict-outside : t.struct_dict ≡ s.struct_dict
      struct_dict-outside =
          ground (arith, gen_instruct_outside l (record s { line_no = s.line_no + 1 }))

      finish : Option Scan → Result (Option Scan)
      finish o = elim o [
        | none ↦ ok none
        | some s' ↦ ok (some (record s' { file_lines = s'.file_lines ++ (l ∷ []) }))
      ]

      regroup :
          (r : Result (Dict (List ℕ)))
          → (((r >>= λ d. ok (record t { struct_dict = d; last_msg_name = name })) >>= λ s'.
                ok (some s'))
              >>= finish)
            ≡ (r >>= λ d. ok (some (opened name d)))
      regroup (ok d) = refl
      regroup (raised x) = refl
