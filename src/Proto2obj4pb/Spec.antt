-- ===== src/Proto2obj4pb/Spec.antt =====
-- The blocks that proto2obj4pb writes for a field: templates with all places filled at once from one
-- table of values.
mod Blocks
pub mod Refine
pub mod RefineField
pub mod FileTexts
mod FileBlocks
pub mod RefineFile
use yarf.Common.{
  ℕ, Bool, true, false, Option, none, some, not, List, [], ◌∷◌, ◌++◌, ◌&&◌, ◌||◌, if◌then◌else◌,
  Flow, next, returned, failed, flow,
}
use yarf.Common.Flows.{◌>>=◌}
use yarf.Text.{Text, codes, text_eq, upper}
use yarf.Template.{Env, parse, render}
use yarf.Descriptor.{Field}
use yarf.Util.{first2upper}
use yarf.Proto2bin.Ctype.{prototype2ctype}
use yarf.Proto2bin.GenCode.{is_repeated, is_message, is_string}
use yarf.Proto2bin.Spec.{Shape, scalar, struct, text, scalar_array, struct_array, shape_of}
use yarf.Proto2obj4pb.GenCode.{Contents, extend, Source, find_opt, find_key_info, key_field}
use yarf.Proto2obj4pb.Templates.{
  h_single_field, h_string_field, h_vec_field, h_vec_field_more, cc_encode_simple_field,
  cc_encode_struct_field, cc_encode_string_field, cc_encode_simple_vec_field,
  cc_encode_struct_vec_field, cc_decode_simple_field, cc_decode_struct_field,
  cc_decode_string_field, cc_decode_simple_vec_field, cc_decode_struct_vec_field, cc_opt_func,
  cc_additional_opt_func,
}

-- The values for the places of a field's templates: the key is empty for a field without one.
abbrev pub field_env : Text → Text → Text → Text → Text → Text → Text → Env
field_env namespace class_name field_type name field_max key_type key_name =
    (codes "field_type", field_type)
    ∷ (codes "field", name)
    ∷ (codes "field_upper", upper name)
    ∷ (codes "field_first_up", first2upper name)
    ∷ (codes "max", field_max)
    ∷ (codes "ns", namespace)
    ∷ (codes "class_name", class_name)
    ∷ (codes "field_key_type", key_type)
    ∷ (codes "field_key_name", key_name)
    ∷ []

unfoldable pub header_of : Shape → Text
header_of scalar = h_single_field
header_of struct = h_single_field
header_of text = h_string_field
header_of scalar_array = h_vec_field
header_of struct_array = h_vec_field

unfoldable pub encode_of : Shape → Text
encode_of scalar = cc_encode_simple_field
encode_of struct = cc_encode_struct_field
encode_of text = cc_encode_string_field
encode_of scalar_array = cc_encode_simple_vec_field
encode_of struct_array = cc_encode_struct_vec_field

unfoldable pub decode_of : Shape → Text
decode_of scalar = cc_decode_simple_field
decode_of struct = cc_decode_struct_field
decode_of text = cc_decode_string_field
decode_of scalar_array = cc_decode_simple_vec_field
decode_of struct_array = cc_decode_struct_vec_field

-- The functions on an array; the other fields have none.
unfoldable pub functions_of : Shape → Text
functions_of scalar = []
functions_of struct = []
functions_of text = []
functions_of scalar_array = cc_opt_func
functions_of struct_array = cc_opt_func

unfoldable pub shape_blocks : Env → Option Shape → Flow Contents
shape_blocks env none = returned
shape_blocks env (some shape) = next (record {
  h_declare = render env (parse (header_of shape));
  cc_encode = render env (parse (encode_of shape));
  cc_decode = render env (parse (decode_of shape));
  cc_opt = render env (parse (functions_of shape));
})

-- `b` behind `c`
abbrev pub after : Contents → Contents → Contents
after c b = extend b.h_declare b.cc_encode b.cc_decode b.cc_opt c

-- The functions by key, of an array with a key.
unfoldable pub key_blocks : Env → Contents
key_blocks env = record {
  h_declare = render env (parse h_vec_field_more);
  cc_encode = [];
  cc_decode = [];
  cc_opt = render env (parse cc_additional_opt_func);
}

-- The first field of the message type that the array holds is its key.
unfoldable pub key_of : Source → Text → Flow Field
key_of s field_type = do info ← flow (find_key_info s.g_all_proto field_type); key_field info

-- What stands behind the blocks of an array.
unfoldable pub key_part : Source → Field → Text → Text → Bool → Contents → Flow Contents
key_part s field field_type field_max false b = next b
key_part s field field_type field_max true b = do
  key ← key_of s field_type
  next (
      after b (
        key_blocks (
          field_env s.namespace s.class_name field_type field.name field_max (prototype2ctype key)
            key.name)))

-- The blocks of a repeated field, those for its key behind the others.
unfoldable pub array_blocks : Source → Field → Text → Text × Bool → Flow Contents
array_blocks s field field_type (field_max, keyed) = do
  b ←
      shape_blocks (field_env s.namespace s.class_name field_type field.name field_max [] [])
        (shape_of true (is_message field.kind) (is_string field.kind))
  key_part s field field_type field_max keyed b

-- The length in the comment is looked up for arrays and for strings.
unfoldable pub field_blocks : Source → Field → Flow Contents
field_blocks s field =
    let field_type = prototype2ctype field in
    if text_eq [] field_type
    then returned
    else if is_repeated field.label
    then (do opt ← find_opt s field.name; array_blocks s field field_type opt)
    else if not (is_message field.kind) && is_string field.kind
    then (do
      (field_max, keyed) ← find_opt s field.name
      shape_blocks (field_env s.namespace s.class_name field_type field.name field_max [] [])
          (some text))
    else shape_blocks (field_env s.namespace s.class_name field_type field.name (codes "1") [] [])
        (shape_of false (is_message field.kind) (is_string field.kind))

unfoldable pub all_blocks : Source → List Field → Flow Contents
all_blocks s [] = next (record { h_declare = []; cc_encode = []; cc_decode = []; cc_opt = [] })
all_blocks s (field ∷ fields) = do
  b ← field_blocks s field
  bs ← all_blocks s fields
  next (after b bs)
