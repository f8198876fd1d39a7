-- ===== src/Proto2bin/FieldOpt.antt =====
-- `find_field_opt` of tools/proto2bin.py: the instruction in the comment behind a field.
pub mod Search
pub mod Unicode
use yarf.Common.{
  ℕ, zero, suc, ◌+◌, ◌-◌, Bool, Option, none, some, List, [], ◌∷◌, if◌then◌else◌, length, drop,
  get_elem?, Result, ok, raised, key_error, index_error, unicode_decode_error, not,
}
use yarf.Text.{Text, codes, text_eq, find, split, is_ascii}
use yarf.Dict.{Dict, lookup}

abbrev pub g_gen_keyword : Text
g_gen_keyword = codes "|gen|max|"

abbrev pub g_gen_keyopt : Text
g_gen_keyopt = codes "keyopt"

-- gen_instruct[0], and whether gen_instruct[1] is `keyopt`
unfoldable pub words_opt : List Text → Result (Option (Text × Bool))
words_opt (w ∷ k ∷ _) = ok (some (w, text_eq k g_gen_keyopt))
words_opt _ = raised index_error

-- The line of the field: the words of the instruction behind the keyword.
unfoldable pub line_opt : Text → Result (Option (Text × Bool))
unfolding find split words_opt
line_opt line = elim (find g_gen_keyword line) [
  | none ↦ ok none
  | some idx ↦ words_opt (split (codes "|") (drop (idx + length g_gen_keyword) line))
]

-- The loop over the line numbers from `i` on, of which `n` are left; `none` is `None`.
unfoldable pub opt_loop : Text → List Text → ℕ → ℕ → Result (Option (Text × Bool))
unfolding find line_opt
opt_loop field_name file_lines zero i = ok none
opt_loop field_name file_lines (suc n) i =
    let rest = opt_loop field_name file_lines n (i + 1) in
    elim (get_elem? file_lines i) [
      | none ↦ raised index_error
      | some line ↦
          if text_eq line []
          then rest
          else elim (find field_name line) [ none ↦ rest | some _ ↦ line_opt line ]
    ]

-- Line numbers are counted from 1, so `startline - 1` is an index.
unfoldable pub find_field_opt :
    Text → Text → List Text → Dict (List ℕ) → Result (Option (Text × Bool))
unfolding lookup opt_loop
find_field_opt class_name field_name file_lines struct_dict = elim (lookup class_name struct_dict) [
  | none ↦ raised key_error
  | some [] ↦ ok none
  | some (startline ∷ []) ↦ raised index_error
  | some (startline ∷ endline ∷ _) ↦
      opt_loop field_name file_lines (endline - 1 - (startline - 1)) (startline - 1)
]

-- The same for a name out of a descriptor, which is unicode: to look for it in a line of bytes, Python
-- decodes the line as ASCII.
unfoldable pub unicode_loop : Text → List Text → ℕ → ℕ → Result (Option (Text × Bool))
unfolding find line_opt
unicode_loop field_name file_lines zero i = ok none
unicode_loop field_name file_lines (suc n) i =
    let rest = unicode_loop field_name file_lines n (i + 1) in
    elim (get_elem? file_lines i) [
      | none ↦ raised index_error
      | some line ↦
          if text_eq line []
          then rest
          else if not (is_ascii line)
          then raised unicode_decode_error
          else elim (find field_name line) [ none ↦ rest | some _ ↦ line_opt line ]
    ]

unfoldable pub unicode_field_opt :
    Text → Text → List Text → Dict (List ℕ) → Result (Option (Text × Bool))
unfolding lookup unicode_loop
unicode_field_opt class_name field_name file_lines struct_dict =
    elim (lookup class_name struct_dict) [
      | none ↦ raised key_error
      | some [] ↦ ok none
      | some (startline ∷ []) ↦ raised index_error
      | some (startline ∷ endline ∷ _) ↦
          unicode_loop field_name file_lines (endline - 1 - (startline - 1)) (startline - 1)
    ]
