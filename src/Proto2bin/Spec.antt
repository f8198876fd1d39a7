-- ===== src/Proto2bin/Spec.antt =====
-- The specification of the code generator of tools/proto2bin.py: each block of its output is a
-- template with all places filled at once from one table of values.
pub mod Blocks
pub mod FileBlocks
use yarf.Common.Flows.{◌>>=◌}
use yarf.Proto2bin.Ctype.{prototype2ctype}
use yarf.Proto2bin.GenCode.{
  file_stem, namespace_of, Contents, extend, Source, find_max, is_repeated, is_message, is_string,
}
use yarf.Descriptor.{Field, Message, FileDescriptor}
use yarf.Common.{
  Option, none, some, not, length, ltb, ◌&&◌, ◌||◌, if◌then◌else◌, ℕ, Bool, true, false, List, [],
  ◌∷◌, ◌++◌, Flow, next, returned, failed, unicode_decode_error,
}
use yarf.Text.{text_eq, Text, codes, upper, is_ascii}
use yarf.Template.{Env, parse, render}
use yarf.Dict.{Dict}
use yarf.Util.{first2upper}
use yarf.Proto2bin.Templates.{
  h_single_field, h_string_field, h_vec_field, cc_encode_simple_field, cc_encode_struct_field,
  cc_encode_string_field, cc_encode_simple_vec_field, cc_encode_struct_vec_field,
  cc_decode_simple_field, cc_decode_struct_field, cc_decode_string_field,
  cc_decode_simple_vec_field, cc_decode_struct_vec_field, h_begin, h_include, h_ns_begin,
  h_class_begin, h_class_end, h_end, cc_begin, cc_encode_begin, cc_encode_end, cc_decode_begin,
  code_decode_end,
}

-- How a field is laid out in the struct.
pub data Shape : Type 0 where
  scalar struct text scalar_array struct_array : Shape

-- The values for the places of a field's templates.
abbrev pub field_env : Text → Text → Text → Env
field_env field_type name field_max =
    (codes "field_type", field_type)
    ∷ (codes "field", name)
    ∷ (codes "field_upper", upper name)
    ∷ (codes "field_first_up", first2upper name)
    ∷ (codes "max", field_max)
    ∷ []

unfoldable pub header_of : Shape → Text
header_of scalar = h_single_field
header_of struct = h_single_field
header_of text = h_string_field
header_of scalar_array = h_vec_field
header_of struct_array = h_vec_field

unfoldable pub encode_of : Shape → Text
encode_of scalar = cc_encode_simple_field
encode_of struct = cc_encode_struct_field
encode_of text = cc_encode_string_field
encode_of scalar_array = cc_encode_simple_vec_field
encode_of struct_array = cc_encode_struct_vec_field

unfoldable pub decode_of : Shape → Text
decode_of scalar = cc_decode_simple_field
decode_of struct = cc_decode_struct_field
decode_of text = cc_decode_string_field
decode_of scalar_array = cc_decode_simple_vec_field
decode_of struct_array = cc_decode_struct_vec_field

-- By what a field is: repeated, a message, a string. There are no arrays of strings.
unfoldable pub shape_of : Bool → Bool → Bool → Option Shape
shape_of true true _ = some struct_array
shape_of true false true = none
shape_of true false false = some scalar_array
shape_of false true _ = some struct
shape_of false false true = some text
shape_of false false false = some scalar

-- The blocks of one field, or of several in a row.
unfoldable pub blocks : Env → Option Shape → Flow Contents
blocks env none = returned
blocks env (some shape) = next (record {
  h_declare = render env (parse (header_of shape));
  cc_encode = render env (parse (encode_of shape));
  cc_decode = render env (parse (decode_of shape));
})

-- `b` behind `c`
abbrev pub after : Contents → Contents → Contents
after c b = extend b.h_declare b.cc_encode b.cc_decode c

-- The length in the comment is looked up for arrays and for strings.
unfoldable pub max_of : Source → Field → Flow Text
max_of s field =
    if is_repeated field.label || (not (is_message field.kind) && is_string field.kind)
    then find_max s field.name
    else next (codes "1")

-- A field of a supported type has the three blocks of its shape.
unfoldable pub field_blocks : Source → Field → Flow Contents
field_blocks s field =
    let field_type = prototype2ctype field in
    if text_eq [] field_type then returned else do
      field_max ← max_of s field
      blocks (field_env field_type field.name field_max)
          (shape_of (is_repeated field.label) (is_message field.kind) (is_string field.kind))

unfoldable pub all_blocks : Source → List Field → Flow Contents
all_blocks s [] = next (record { h_declare = []; cc_encode = []; cc_decode = [] })
all_blocks s (field ∷ fields) = do
  b ← field_blocks s field
  bs ← all_blocks s fields
  next (after b bs)

-- Two pairs of texts, one behind the other.
abbrev pub beside : Text × Text → Text × Text → Text × Text
beside a b = (a.0 ++ b.0, a.1 ++ b.1)

-- The values for the places outside the fields.
abbrev pub file_env : Text → Text → Text → Env
file_env file_pre namespace class_name =
    (codes "file_pre", file_pre)
    ∷ (codes "ns", namespace)
    ∷ (codes "class_name", class_name)
    ∷ (codes "macro", upper namespace ++ (codes "_" ++ (upper file_pre ++ codes "_RAWDATA_H_")))
    ∷ []

-- The declaration of a message's struct, and its two functions.
unfoldable pub class_texts : Env → Contents → Text × Text
class_texts env b = (
  render env (parse h_class_begin) ++ (b.h_declare ++ render env (parse h_class_end)),
  render env (parse cc_encode_begin)
      ++ (b.cc_encode
          ++ (cc_encode_end
              ++ (render env (parse cc_decode_begin) ++ (b.cc_decode ++ code_decode_end)))),
)

unfoldable pub all_classes :
    List Text → Dict (List ℕ) → Text → Text → List Message → Flow (Text × Text)
all_classes file_lines struct_dict file_pre namespace [] = next ([], [])
all_classes file_lines struct_dict file_pre namespace (msg ∷ msgs) = do
  b ←
      all_blocks
        (record { class_name = msg.name; file_lines = file_lines; struct_dict = struct_dict })
        msg.field
  rest ← all_classes file_lines struct_dict file_pre namespace msgs
  let this = class_texts (file_env file_pre namespace msg.name) b
  next (beside this rest)

unfoldable pub all_includes : List Text → Text
all_includes [] = []
all_includes (inc ∷ incs) =
    render ((codes "file_pre", file_stem inc) ∷ []) (parse h_include) ++ all_includes incs

-- The two files: head, includes, one struct for each message in their order, end.
unfoldable pub file_texts : Env → Text → Text × Text → Text × Text
file_texts env includes (h, cc) = (
  render env (parse h_begin)
      ++ (includes ++ (render env (parse h_ns_begin) ++ (h ++ render env (parse h_end)))),
  render env (parse cc_begin) ++ cc,
)

unfoldable pub spec_texts :
    Text → List Text → Dict (List ℕ) → FileDescriptor → Text → Flow (Text × Text)
spec_texts file_pre file_lines struct_dict proto_desc namespace = do
  classes ← all_classes file_lines struct_dict file_pre namespace proto_desc.message_type
  next (file_texts (file_env file_pre namespace []) (all_includes proto_desc.dependency) classes)

-- Bytes that are not ASCII in the name of the file do not mix with unicode.
unfoldable pub spec_body :
    Text → List Text → Dict (List ℕ) → FileDescriptor → Text → Flow (Text × Text)
spec_body file_pre file_lines struct_dict proto_desc namespace =
    if is_ascii file_pre
    then spec_texts file_pre file_lines struct_dict proto_desc namespace
    else failed unicode_decode_error

unfoldable pub spec_contents :
    Text → List Text → Dict (List ℕ) → List Text → FileDescriptor → Flow (Text × Text)
spec_contents file_pre file_lines struct_dict parse_instruct proto_desc =
    if ltb (length parse_instruct) 2 then returned else do
      namespace ← namespace_of proto_desc.package_name
      spec_body file_pre file_lines struct_dict proto_desc namespace
