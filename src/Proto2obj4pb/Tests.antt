-- ===== src/Proto2obj4pb/Tests.antt =====
-- A run of tools/proto2obj4pb.py on a small proto file, and the theorem at it.
use Prim.Native.String.{String}
use yarf.Common.{◌≡◌, refl, [], ◌∷◌, ◌++◌, Flow, next, returned, failed}
use yarf.Text.{Text, codes, text_eq}
use yarf.Descriptor.{
  type_uint32, type_message, label_optional, label_repeated, Field, FileDescriptor,
}
use yarf.Proto2bin.Ctype.{prototype2ctype}
use yarf.Proto2bin.FieldOpt.{unicode_field_opt}
use yarf.Proto2obj4pb.GenCode.{
  Contents, Source, find_opt, find_message, find_in_protos, find_key_info, gen_field, gen_fields,
  gen_repeated, add_repeated, add_key, gen_single,
}

abbrev line : String → Text
line s = codes s ++ (10 ∷ [])

abbrev part : Field
part = record {
  name = codes "part";
  label = label_repeated;
  kind = type_message;
  type_name = codes ".Proto.Test.Item";
}

abbrev count : Field
count = record { name = codes "count"; label = label_optional; kind = type_uint32; type_name = [] }

abbrev id : Field
id = record { name = codes "id"; label = label_optional; kind = type_uint32; type_name = [] }

abbrev demo_desc : FileDescriptor
demo_desc = record {
  package_name = codes "Proto.Test";
  dependency = [];
  message_type =
      record { name = codes "Item"; field = id ∷ [] }
      ∷ record { name = codes "Bag"; field = part ∷ count ∷ [] }
      ∷ [];
}

abbrev demo : Source
demo = record {
  g_all_proto = demo_desc ∷ [];
  namespace = codes "Test";
  class_name = codes "Bag";
  file_lines =
      line "message Bag {"
      ∷ line "  repeated Item part = 1; //1 |gen|max|5|keyopt|"
      ∷ line "  uint32 count = 2;"
      ∷ line "}"
      ∷ [];
  struct_dict = (codes "Bag", 1 ∷ 4 ∷ []) ∷ [];
}

abbrev nothing : Contents
nothing = record { h_declare = []; cc_encode = []; cc_decode = []; cc_opt = [] }

abbrev ends : Flow Contents → Flow (Unit {0})
ends (next c) = next tt
ends returned = returned
ends (failed e) = failed e

-- The array has a key, and the loop comes to its end.
ends-gen_fields : ends (gen_fields demo (part ∷ count ∷ []) nothing) ≡ next tt
unfolding gen_fields gen_field gen_repeated gen_single add_repeated add_key find_opt find_key_info
    find_in_protos find_message prototype2ctype unicode_field_opt text_eq
ends-gen_fields = refl
