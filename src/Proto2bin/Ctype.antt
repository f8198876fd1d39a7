-- ===== src/Proto2bin/Ctype.antt =====
-- `prototype2ctype` and `find_key_info` of tools/proto2bin.py.
use mathlib.Core.List.{foldl}
use yarf.Common.{not, ◌&&◌, [], ◌++◌, if◌then◌else◌}
use yarf.Text.{Text, codes, text_eq, split}
use yarf.Descriptor.{
  FieldType, type_double, type_int64, type_uint64, type_int32, type_bool, type_string, type_message,
  type_uint32, Field,
}

abbrev pub g_proto_ns : Text
g_proto_ns = codes "Proto"

-- One round of the loop over the parts of a message type's name.
unfoldable pub add_name : Text → Text → Text
add_name field_type name =
    if not (text_eq name []) && not (text_eq name g_proto_ns)
    then (if not (text_eq field_type []) then field_type ++ (codes "::" ++ name) else name)
    else field_type

unfoldable pub ctype_of : FieldType → Text → Text
unfolding add_name split
ctype_of type_message type_name = foldl add_name [] (split (codes ".") type_name)
ctype_of type_double type_name = codes "double"
ctype_of type_uint64 type_name = codes "uint64_t"
ctype_of type_int64 type_name = codes "int64_t"
ctype_of type_int32 type_name = codes "int32_t"
ctype_of type_bool type_name = codes "bool"
ctype_of type_string type_name = codes "char"
ctype_of type_uint32 type_name = codes "uint32_t"
ctype_of _ type_name = []

unfoldable pub prototype2ctype : Field → Text
unfolding ctype_of
prototype2ctype field = ctype_of field.kind field.type_name
