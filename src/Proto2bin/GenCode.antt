-- ===== src/Proto2bin/GenCode.antt =====
-- `gen_code` of tools/proto2bin.py: the texts of the header and of the source file.
use yarf.Common.{
  ℕ, Bool, true, false, List, [], ◌∷◌, ◌++◌, ltb, if◌then◌else◌, length, Flow, next, returned,
  failed, flow, unpack, unicode_decode_error, unicode_encode_error,
}
use yarf.Common.Flows.{◌>>=◌}
use yarf.Text.{Text, codes, text_eq, split, upper, is_ascii}
use yarf.Template.{replaces}
use yarf.Dict
use yarf.Dict.{Dict}
use yarf.Descriptor.{
  FieldType, type_message, type_string, Label, label_repeated, Field, Message, FileDescriptor,
}
use yarf.Util.{first2upper}
use yarf.Proto2bin.Ctype.{g_proto_ns, prototype2ctype}
use yarf.Proto2bin.FieldOpt.{unicode_field_opt}
use yarf.Proto2bin.Templates.{
  h_begin, h_include, h_ns_begin, h_class_begin, h_single_field, h_string_field, h_vec_field,
  h_class_end, h_end, cc_begin, cc_encode_begin, cc_encode_simple_field, cc_encode_struct_field,
  cc_encode_string_field, cc_encode_simple_vec_field, cc_encode_struct_vec_field, cc_encode_end,
  cc_decode_begin, cc_decode_simple_field, cc_decode_struct_field, cc_decode_string_field,
  cc_decode_simple_vec_field, cc_decode_struct_vec_field, code_decode_end,
}

-- h_declare_content, cc_encode_content and cc_decode_content. (cc_opt_content stays empty.)
pub record Contents : Type 0 where
  pub h_declare : Text
  pub cc_encode : Text
  pub cc_decode : Text

abbrev pub extend : Text → Text → Text → Contents → Contents
extend h e d c = record {
  h_declare = c.h_declare ++ h;
  cc_encode = c.cc_encode ++ e;
  cc_decode = c.cc_decode ++ d;
}

abbrev pub is_repeated : Label → Bool
is_repeated label_repeated = true
is_repeated _ = false

abbrev pub is_message : FieldType → Bool
is_message type_message = true
is_message _ = false

abbrev pub is_string : FieldType → Bool
is_string type_string = true
is_string _ = false

-- What a round of the field loop reads: the message, the proto file and the ranges in it.
pub record Source : Type 0 where
  pub class_name : Text
  pub file_lines : List Text
  pub struct_dict : Dict (List ℕ)

unfoldable pub find_max : Source → Text → Flow Text
find_max s field_name = do
  opt ← flow (unicode_field_opt s.class_name field_name s.file_lines s.struct_dict)
  (field_max, gen_keyopt) ← unpack opt
  next field_max

-- A repeated field (LABEL_REPEATED), once its length is known.
unfoldable pub add_repeated : Field → Text → Text → Contents → Flow Contents
unfolding replaces first2upper upper
add_repeated field field_type field_max c =
    let name = field.name in
    let field_upper = upper name in
    let h =
      replaces
        ((codes "field_type", field_type)
          ∷ (codes "field", name)
          ∷ (codes "field_upper", field_upper)
          ∷ (codes "field_first_up", first2upper name)
          ∷ (codes "max", field_max)
          ∷ [])
        h_vec_field in
    let keys = (codes "field", name) ∷ (codes "field_upper", field_upper) ∷ [] in
    if is_message field.kind
    then next (
        extend h (replaces keys cc_encode_struct_vec_field)
          (replaces keys cc_decode_struct_vec_field) c)
    else if is_string field.kind
    then returned
    else next (
        extend h (replaces keys cc_encode_simple_vec_field)
          (replaces keys cc_decode_simple_vec_field) c)

unfoldable pub gen_repeated : Source → Field → Text → Contents → Flow Contents
gen_repeated s field field_type c = do
  field_max ← find_max s field.name
  add_repeated field field_type field_max c

-- A string, once its length is known.
unfoldable pub add_string : Text → Text → Contents → Contents
unfolding replaces upper
add_string name field_max c =
    let field_upper = upper name in
    extend
      (replaces
        ((codes "field_upper", field_upper) ∷ (codes "field", name) ∷ (codes "max", field_max) ∷ [])
        h_string_field)
      (replaces ((codes "field", name) ∷ (codes "field_upper", field_upper) ∷ [])
        cc_encode_string_field)
      (replaces ((codes "field", name) ∷ []) cc_decode_string_field) c

-- A field with another label.
unfoldable pub gen_single : Source → Field → Text → Contents → Flow Contents
unfolding replaces
gen_single s field field_type c =
    let name = field.name in
    let only = (codes "field", name) ∷ [] in
    let h =
      replaces ((codes "field_type", field_type) ∷ (codes "field", name) ∷ []) h_single_field in
    if is_message field.kind
    then next
        (extend h (replaces only cc_encode_struct_field) (replaces only cc_decode_struct_field) c)
    else if is_string field.kind
    then (do field_max ← find_max s name; next (add_string name field_max c))
    else next
        (extend h (replaces only cc_encode_simple_field) (replaces only cc_decode_simple_field) c)

-- One round of the field loop.
unfoldable pub gen_field : Source → Field → Contents → Flow Contents
gen_field s field c =
    let field_type = prototype2ctype field in
    if text_eq [] field_type
    then returned
    else if is_repeated field.label
    then gen_repeated s field field_type c
    else gen_single s field field_type c

unfoldable pub gen_fields : Source → List Field → Contents → Flow Contents
gen_fields s [] c = next c
gen_fields s (field ∷ fields) c = do c' ← gen_field s field c; gen_fields s fields c'

-- One round of the message loop, over (h_content, cc_content).
unfoldable pub gen_message :
    List Text → Dict (List ℕ) → Text → Message → Text × Text → Flow (Text × Text)
gen_message file_lines struct_dict namespace msg (h_content, cc_content) = do
  let class_name = msg.name
  let names = (codes "ns", namespace) ∷ (codes "class_name", class_name) ∷ []
  c ←
      gen_fields
        (record { class_name = class_name; file_lines = file_lines; struct_dict = struct_dict })
        msg.field
        (record {
          h_declare = replaces ((codes "class_name", class_name) ∷ []) h_class_begin;
          cc_encode = replaces names cc_encode_begin;
          cc_decode = replaces names cc_decode_begin;
        })
  next (
    h_content
        ++ (c.h_declare
            ++ replaces ((codes "class_name", class_name) ∷ (codes "ns", namespace) ∷ [])
                h_class_end),
    cc_content ++ (c.cc_encode ++ cc_encode_end) ++ (c.cc_decode ++ code_decode_end),
  )

unfoldable pub gen_messages :
    List Text → Dict (List ℕ) → Text → List Message → Text × Text → Flow (Text × Text)
gen_messages file_lines struct_dict namespace [] out = next out
gen_messages file_lines struct_dict namespace (msg ∷ msgs) out = do
  out' ← gen_message file_lines struct_dict namespace msg out
  gen_messages file_lines struct_dict namespace msgs out'

-- inc.split('.')[0]
abbrev pub file_stem : Text → Text
unfolding split
file_stem inc = elim (split (codes ".") inc) [ [] ↦ [] | p ∷ _ ↦ p ]

unfoldable pub gen_includes : List Text → Text → Text
unfolding replaces
gen_includes [] h_content = h_content
gen_includes (inc ∷ incs) h_content =
    gen_includes incs (h_content ++ replaces ((codes "file_pre", file_stem inc) ∷ []) h_include)

-- The namespace: the second part of a package that begins with `Proto`.
unfoldable pub namespace_of : Text → Flow Text
unfolding split
namespace_of package_name = elim (split (codes ".") package_name) [
  | top ∷ namespace ∷ _ ↦ if text_eq g_proto_ns top then next namespace else returned
  | _ ↦ returned
]

-- The two texts, once the namespace is known, for an ASCII `file_pre`.
unfoldable pub gen_texts :
    Text → List Text → Dict (List ℕ) → FileDescriptor → Text → Flow (Text × Text)
unfolding replaces upper
gen_texts file_pre file_lines struct_dict proto_desc namespace = do
  let macro = upper namespace ++ (codes "_" ++ (upper file_pre ++ codes "_RAWDATA_H_"))
  let h_content = replaces ((codes "macro", macro) ∷ (codes "file_pre", file_pre) ∷ []) h_begin
  let h_includes = gen_includes proto_desc.dependency h_content
  (h, source) ← gen_messages file_lines struct_dict namespace proto_desc.message_type (
    h_includes ++ replaces ((codes "ns", namespace) ∷ []) h_ns_begin,
    replaces ((codes "file_pre", file_pre) ∷ []) cc_begin,
  )
  next (h ++ replaces ((codes "ns", namespace) ∷ (codes "macro", macro) ∷ []) h_end, source)

-- The first name that is put together of unicode and `file_pre`, the macro, needs it in ASCII.
unfoldable pub gen_body :
    Text → List Text → Dict (List ℕ) → FileDescriptor → Text → Flow (Text × Text)
gen_body file_pre file_lines struct_dict proto_desc namespace =
    if is_ascii file_pre
    then gen_texts file_pre file_lines struct_dict proto_desc namespace
    else failed unicode_decode_error

-- From the checks on to the two texts that are written.
unfoldable pub gen_contents :
    Text → List Text → Dict (List ℕ) → List Text → FileDescriptor → Flow (Text × Text)
gen_contents file_pre file_lines struct_dict parse_instruct proto_desc =
    if ltb (length parse_instruct) 2 then returned else do
      namespace ← namespace_of proto_desc.package_name
      gen_body file_pre file_lines struct_dict proto_desc namespace

-- The two writes at the end, which an early end leaves out. The texts are unicode, and a file takes
-- them in ASCII only.
unfoldable pub write_out :
    Text → Text → Dict Text → Flow (Text × Text) → Dict Text × Flow (Unit {0})
unfolding Dict.insert
write_out header source files (next (h, cc)) =
    if is_ascii h
    then (if is_ascii cc
        then (Dict.insert source cc (Dict.insert header h files), next tt)
        else (Dict.insert header h files, failed unicode_encode_error))
    else (files, failed unicode_encode_error)
write_out header source files returned = (files, returned)
write_out header source files (failed e) = (files, failed e)

-- The files by their names. Both are opened for writing, and so emptied, before the checks.
unfoldable pub gen_code :
    Text
    → List Text
    → Dict (List ℕ)
    → List Text
    → FileDescriptor
    → Dict Text
    → Dict Text × Flow (Unit {0})
unfolding write_out Dict.insert
gen_code file_pre file_lines struct_dict parse_instruct proto_desc files =
    let header = file_pre ++ codes "_binpack.h" in
    let source = file_pre ++ codes "_binpack.cpp" in
    write_out header source (Dict.insert source [] (Dict.insert header [] files))
      (gen_contents file_pre file_lines struct_dict parse_instruct proto_desc)
