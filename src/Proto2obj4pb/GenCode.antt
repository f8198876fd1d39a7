-- ===== src/Proto2obj4pb/GenCode.antt =====
-- `gen_code` of tools/proto2obj4pb.py: the texts of the header and of the source file.
use yarf.Common.{
  ℕ, Bool, true, false, Option, none, some, List, [], ◌∷◌, ◌++◌, if◌then◌else◌, Result, ok, raised,
  index_error, attribute_error, Flow, next, returned, failed, flow, unpack,
}
use yarf.Common.Flows.{◌>>=◌}
use yarf.Text.{last_part, Text, codes, text_eq, split, upper}
use yarf.Template.{replaces}
use yarf.Dict.{Dict}
use yarf.Descriptor.{Field, Message, FileDescriptor}
use yarf.Util.{first2upper}
use yarf.Proto2bin.Ctype.{prototype2ctype}
use yarf.Proto2bin.FieldOpt.{unicode_field_opt}
use yarf.Proto2bin.GenCode.{is_repeated, is_message, is_string}
use yarf.Proto2obj4pb.Templates.{
  h_single_field, h_string_field, h_vec_field, h_vec_field_more, cc_encode_simple_field,
  cc_encode_struct_field, cc_encode_string_field, cc_encode_simple_vec_field,
  cc_encode_struct_vec_field, cc_decode_simple_field, cc_decode_struct_field,
  cc_decode_string_field, cc_decode_simple_vec_field, cc_decode_struct_vec_field, cc_opt_func,
  cc_additional_opt_func,
}

-- h_declare_content, cc_encode_content, cc_decode_content and cc_opt_content
pub record Contents : Type 0 where
  pub h_declare : Text
  pub cc_encode : Text
  pub cc_decode : Text
  pub cc_opt : Text

abbrev pub extend : Text → Text → Text → Text → Contents → Contents
extend h e d o c = record {
  h_declare = c.h_declare ++ h;
  cc_encode = c.cc_encode ++ e;
  cc_decode = c.cc_decode ++ d;
  cc_opt = c.cc_opt ++ o;
}

-- What a round of the field loop reads: the descriptors of the file and of its includes, the
-- namespace, the message, the proto file and the ranges in it.
pub record Source : Type 0 where
  pub g_all_proto : List FileDescriptor
  pub namespace : Text
  pub class_name : Text
  pub file_lines : List Text
  pub struct_dict : Dict (List ℕ)

-- The first message of the name, over the messages of one descriptor.
unfoldable pub find_message : Text → List Message → Option Message
unfolding text_eq
find_message name [] = none
find_message name (msg ∷ msgs) = if text_eq msg.name name then some msg else find_message name msgs

unfoldable pub find_in_protos : Text → List FileDescriptor → Option Message
find_in_protos name [] = none
find_in_protos name (proto_desc ∷ protos) = elim (find_message name proto_desc.message_type) [
  | none ↦ find_in_protos name protos
  | some msg ↦ some msg
]

-- msg_type.field[0]
abbrev pub first_field : List Field → Result (Option Field)
first_field [] = raised index_error
first_field (field ∷ fields) = ok (some field)

unfoldable pub find_key_info : List FileDescriptor → Text → Result (Option Field)
unfolding split
find_key_info g_all_proto full_name =
    elim (find_in_protos (last_part (split (codes "::") full_name)) g_all_proto) [
      | none ↦ ok none
      | some msg ↦ first_field msg.field
    ]

-- Reading an attribute of what may be None.
abbrev pub key_field : Option Field → Flow Field
key_field none = failed attribute_error
key_field (some field) = next field

-- field_max, gen_keyopt
unfoldable pub find_opt : Source → Text → Flow (Text × Bool)
find_opt s field_name = do
  opt ← flow (unicode_field_opt s.class_name field_name s.file_lines s.struct_dict)
  unpack opt

-- What a repeated field adds to the declaration and to the functions, once its length is known.
unfoldable pub array_header : Text → Text → Text → Text
unfolding replaces first2upper upper
array_header name field_type field_max =
    replaces
      ((codes "field_type", field_type)
        ∷ (codes "field", name)
        ∷ (codes "field_upper", upper name)
        ∷ (codes "field_first_up", first2upper name)
        ∷ (codes "max", field_max)
        ∷ [])
      h_vec_field

unfoldable pub array_functions : Source → Text → Text → Text
unfolding replaces first2upper upper
array_functions s name field_type =
    replaces
      ((codes "field_type", field_type)
        ∷ (codes "field", name)
        ∷ (codes "ns", s.namespace)
        ∷ (codes "class_name", s.class_name)
        ∷ (codes "field_first_up", first2upper name)
        ∷ (codes "field_upper", upper name)
        ∷ [])
      cc_opt_func

-- A repeated field, but for the functions by key.
unfoldable pub add_repeated : Source → Field → Text → Text → Contents → Flow Contents
unfolding replaces upper
add_repeated s field field_type field_max c =
    let name = field.name in
    let only = (codes "field", name) ∷ [] in
    let keys = (codes "field", name) ∷ (codes "field_upper", upper name) ∷ [] in
    let h = array_header name field_type field_max in
    let o = array_functions s name field_type in
    if is_message field.kind
    then next (
        extend h (replaces only cc_encode_struct_vec_field)
          (replaces keys cc_decode_struct_vec_field) o c)
    else if is_string field.kind
    then returned
    else next (
        extend h (replaces only cc_encode_simple_vec_field)
          (replaces keys cc_decode_simple_vec_field) o c)

-- The functions that find and delete an entry of an array by its key.
unfoldable pub key_header : Text → Text → Text → Text → Text
unfolding replaces first2upper
key_header name field_type field_key_type field_key_name =
    replaces
      ((codes "field_type", field_type)
        ∷ (codes "field_first_up", first2upper name)
        ∷ (codes "field_key_type", field_key_type)
        ∷ (codes "field_key_name", field_key_name)
        ∷ [])
      h_vec_field_more

unfoldable pub key_functions : Source → Text → Text → Text → Text → Text
unfolding replaces first2upper upper
key_functions s name field_type field_key_type field_key_name =
    replaces
      ((codes "field_type", field_type)
        ∷ (codes "field", name)
        ∷ (codes "ns", s.namespace)
        ∷ (codes "class_name", s.class_name)
        ∷ (codes "field_first_up", first2upper name)
        ∷ (codes "field_upper", upper name)
        ∷ (codes "field_key_type", field_key_type)
        ∷ (codes "field_key_name", field_key_name)
        ∷ [])
      cc_additional_opt_func

-- if gen_keyopt
unfoldable pub add_key : Source → Field → Text → Bool → Contents → Flow Contents
add_key s field field_type false c = next c
add_key s field field_type true c = do
  info ← flow (find_key_info s.g_all_proto field_type)
  key_field_info ← key_field info
  let field_key_type = prototype2ctype key_field_info
  let field_key_name = key_field_info.name
  next (
      extend (key_header field.name field_type field_key_type field_key_name) [] []
        (key_functions s field.name field_type field_key_type field_key_name) c)

unfoldable pub gen_repeated : Source → Field → Text → Contents → Flow Contents
gen_repeated s field field_type c = do
  (field_max, gen_keyopt) ← find_opt s field.name
  c' ← add_repeated s field field_type field_max c
  add_key s field field_type gen_keyopt c'

-- A string, once its length is known.
unfoldable pub add_string : Text → Text → Contents → Contents
unfolding replaces upper
add_string name field_max c =
    let only = (codes "field", name) ∷ [] in
    extend
      (replaces
        ((codes "field_upper", upper name) ∷ (codes "field", name) ∷ (codes "max", field_max) ∷ [])
        h_string_field)
      (replaces only cc_encode_string_field) (replaces only cc_decode_string_field) [] c

-- A field with another label.
unfoldable pub gen_single : Source → Field → Text → Contents → Flow Contents
unfolding replaces
gen_single s field field_type c =
    let name = field.name in
    let only = (codes "field", name) ∷ [] in
    let h =
      replaces ((codes "field_type", field_type) ∷ (codes "field", name) ∷ []) h_single_field in
    if is_message field.kind
    then next (
        extend h (replaces only cc_encode_struct_field) (replaces only cc_decode_struct_field) [] c)
    else if is_string field.kind
    then (do (field_max, gen_keyopt) ← find_opt s name; next (add_string name field_max c))
    else next (
        extend h (replaces only cc_encode_simple_field) (replaces only cc_decode_simple_field) [] c)

-- One round of the field loop.
unfoldable pub gen_field : Source → Field → Contents → Flow Contents
gen_field s field c =
    let field_type = prototype2ctype field in
    if text_eq [] field_type
    then returned
    else if is_repeated field.label
    then gen_repeated s field field_type c
    else gen_single s field field_type c

unfoldable pub gen_fields : Source → List Field → Contents → Flow Contents
gen_fields s [] c = next c
gen_fields s (field ∷ fields) c = do c' ← gen_field s field c; gen_fields s fields c'
