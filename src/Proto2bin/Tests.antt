-- ===== src/Proto2bin/Tests.antt =====
-- Runs of tools/proto2bin.py on a small proto file, and the theorems at it.
use Prim.Native.String.{String}
use yarf.Common.{
  ℕ, ◌≡◌, ◌≢◌, ◌∙◌, sym, length, take, drop, refl, true, false, none, some, List, [], ◌∷◌, ◌++◌,
  if◌then◌else◌, ok, raised, key_error, unicode_decode_error, Flow, next, returned, failed,
}
use yarf.Text.{Text, codes, text_eq, find}
use yarf.Template.{no_dollar, replaces}
use yarf.Dict.{Dict, lookup}
use yarf.Descriptor.{
  type_uint32, type_string, type_message, label_optional, label_repeated, FileDescriptor,
}
use yarf.Proto2bin.Ctype.{prototype2ctype}
use yarf.Proto2bin.ReadProto.{
  gen_instruct, classify, struct_line, open_message, append_line, read_line, close_last, read_loop,
  read_proto,
}
use yarf.Proto2bin.ReadProto.Spec.{has_bad, headers, ranges, enter, alternate, instructions}
use yarf.Proto2bin.ReadProto.Ranges.{read_proto_lem}
use yarf.Proto2bin.ReadProto.Open.{SameDict}
use yarf.Proto2bin.ReadProto.Ends.{read_proto_empty}
use yarf.Proto2bin.FieldOpt.{g_gen_keyword, find_field_opt, unicode_field_opt}
use yarf.Proto2bin.FieldOpt.Search.{
  first_mention, answer, find_field_opt_lem, find_field_opt_header,
}
use native.Mathlib.Omega.{arith}
use yarf.Proto2bin.GenCode.{
  find_max, add_repeated, gen_repeated, add_string, gen_single, gen_field, gen_fields, gen_message,
  gen_messages, gen_includes, namespace_of, gen_texts, gen_body, gen_contents, gen_code,
}
use yarf.Proto2bin.Templates.{
  h_begin, h_include, h_ns_begin, h_class_begin, h_single_field, h_string_field, h_vec_field,
  h_class_end, h_end, cc_begin, cc_encode_begin, cc_encode_simple_field, cc_encode_struct_field,
  cc_encode_string_field, cc_encode_simple_vec_field, cc_encode_struct_vec_field, cc_encode_end,
  cc_decode_begin, cc_decode_simple_field, cc_decode_struct_field, cc_decode_string_field,
  cc_decode_simple_vec_field, cc_decode_struct_vec_field, code_decode_end,
}
use yarf.Proto2bin.Spec.{spec_contents}
use yarf.Proto2bin.RefineFile.{IsClean, gen_contents_lem}
use yarf.Proto2bin.FilledFile.{AreFilled, gen_contents-AreFilled}
use yarf.Proto2bin.Files.{written, ending, header_name, source_name, gen_code_lem}

abbrev line : String → Text
line s = codes s ++ (10 ∷ [])

abbrev demo_file : List Text
demo_file =
    line "package Proto.Test;"
    ∷ line "//gen_begin"
    ∷ line "//rawdata"
    ∷ line "//gen_end"
    ∷ line "message Item {"
    ∷ line "  uint32 id = 1;"
    ∷ line "  string title = 2; //2 |gen|max|20|opt|"
    ∷ line "}"
    ∷ line "message Bag {"
    ∷ line "  repeated Item parts = 1; //1 |gen|max|5|keyopt|"
    ∷ line "}"
    ∷ []

abbrev demo_dict : Dict (List ℕ)
demo_dict = (codes "Item", 5 ∷ 8 ∷ []) ∷ (codes "Bag", 9 ∷ 11 ∷ []) ∷ []

abbrev demo_instruct : List Text
demo_instruct = line "//gen_begin" ∷ line "//rawdata" ∷ []

read_demo : read_proto demo_file ≡ ok (some (demo_file, demo_dict, demo_instruct))
unfolding read_proto read_loop read_line gen_instruct classify struct_line open_message append_line
    close_last text_eq
read_demo = refl

read_nothing : read_proto (line "package Proto.Test;" ∷ []) ≡ raised key_error
unfolding read_proto read_loop read_line gen_instruct classify struct_line open_message append_line
    close_last text_eq
read_nothing = refl

opt_of_parts :
    find_field_opt (codes "Bag") (codes "parts") demo_file demo_dict ≡ ok (some (codes "5", true))
unfolding find_field_opt text_eq
opt_of_parts = refl

bag_range : lookup (codes "Bag") demo_dict ≡ some (9 ∷ 11 ∷ [])
unfolding lookup text_eq
bag_range = refl

find_field_opt_lem_example :
    find_field_opt (codes "Bag") (codes "parts") demo_file demo_dict
    ≡ answer (first_mention (codes "parts") (take 2 (drop 8 demo_file)))
find_field_opt_lem_example =
    find_field_opt_lem (codes "Bag") (codes "parts") demo_file demo_dict 9 11 [] bag_range
      (omega arith) (omega arith) (omega arith)

-- The line of the message holds the field's name, in its keyword.
abbrev shadow_file : List Text
shadow_file =
    line "message Person {"
    ∷ line "  repeated Item gag = 1; //1 |gen|max|5|keyopt|"
    ∷ line "  repeated Item age = 2; //1 |gen|max|5|keyopt|"
    ∷ line "}"
    ∷ []

abbrev shadow_dict : Dict (List ℕ)
shadow_dict = (codes "Person", 1 ∷ 4 ∷ []) ∷ []

shadow_range : lookup (codes "Person") shadow_dict ≡ some (1 ∷ 4 ∷ [])
unfolding lookup text_eq
shadow_range = refl

age_in_header : find (codes "age") (line "message Person {") ≡ some 4
unfolding find
age_in_header = refl

no_instruction_in_header : find g_gen_keyword (line "message Person {") ≡ none
unfolding find
no_instruction_in_header = refl

find_field_opt_header_example :
    find_field_opt (codes "Person") (codes "age") shadow_file shadow_dict ≡ ok none
find_field_opt_header_example =
    find_field_opt_header (codes "Person") (codes "age") shadow_file shadow_dict 1 4 []
      (line "message Person {") 4 shadow_range (omega arith) (omega arith) (omega arith) refl
      (λ e. cc) age_in_header no_instruction_in_header

abbrev demo_desc : FileDescriptor
demo_desc = record {
  package_name = codes "Proto.Test";
  dependency = codes "base.proto" ∷ [];
  message_type =
      record {
        name = codes "Item";
        field =
            record { name = codes "id"; label = label_optional; kind = type_uint32; type_name = [] }
            ∷ record {
              name = codes "title";
              label = label_optional;
              kind = type_string;
              type_name = [];
            }
            ∷ [];
      }
      ∷ record {
        name = codes "Bag";
        field =
            record {
              name = codes "parts";
              label = label_repeated;
              kind = type_message;
              type_name = codes ".Proto.Test.Item";
            }
            ∷ [];
      }
      ∷ [];
}

demo-IsClean : IsClean (codes "demo") demo_file demo_desc
unfolding no_dollar
demo-IsClean = record {
  pre_clean = refl;
  lines_clean = refl;
  package_clean = refl;
  includes_clean = refl;
  messages_clean = (
    record {
      name_clean = refl;
      fields_clean = (
        record { name_clean = refl; type_clean = refl },
        (record { name_clean = refl; type_clean = refl }, tt),
      );
    },
    (
      record {
        name_clean = refl;
        fields_clean = (record { name_clean = refl; type_clean = refl }, tt);
      },
      tt,
    ),
  );
}

-- The two texts, and the way out.
abbrev texts_of : Flow (Text × Text) → Text × Text
texts_of (next out) = out
texts_of returned = ([], [])
texts_of (failed e) = ([], [])

abbrev ends : Flow (Text × Text) → Flow (Unit {0})
ends (next out) = next tt
ends returned = returned
ends (failed e) = failed e

demo_ends : ends (gen_contents (codes "demo") demo_file demo_dict demo_instruct demo_desc) ≡ next tt
unfolding gen_contents gen_body gen_texts gen_messages gen_message gen_fields gen_field gen_repeated
    gen_single add_repeated add_string find_max gen_includes namespace_of prototype2ctype
    unicode_field_opt replaces h_begin h_include h_ns_begin h_class_begin h_single_field
    h_string_field h_vec_field h_class_end h_end cc_begin cc_encode_begin cc_encode_simple_field
    cc_encode_struct_field cc_encode_string_field cc_encode_simple_vec_field
    cc_encode_struct_vec_field cc_encode_end cc_decode_begin cc_decode_simple_field
    cc_decode_struct_field cc_decode_string_field cc_decode_simple_vec_field
    cc_decode_struct_vec_field code_decode_end text_eq
demo_ends = refl

gen_contents_lem_example :
    gen_contents (codes "demo") demo_file demo_dict demo_instruct demo_desc
    ≡ spec_contents (codes "demo") demo_file demo_dict demo_instruct demo_desc
gen_contents_lem_example =
    gen_contents_lem (codes "demo") demo_file demo_dict demo_instruct demo_desc demo-IsClean

next_written : (r : Flow (Text × Text)) → ends r ≡ next tt → r ≡ next (texts_of r)
next_written (next out) e = refl
next_written returned e = cc
next_written (failed x) e = cc

gen_contents-AreFilled_example :
    AreFilled (texts_of (gen_contents (codes "demo") demo_file demo_dict demo_instruct demo_desc))
gen_contents-AreFilled_example =
    gen_contents-AreFilled (codes "demo") demo_file demo_dict demo_instruct demo_desc _ demo-IsClean
      (next_written _ demo_ends)

gen_code_lem_example :
    (lookup
        (codes "demo_binpack.h")
        (gen_code (codes "demo") demo_file demo_dict demo_instruct demo_desc []).0
      ≡ (if text_eq (source_name (codes "demo")) (codes "demo_binpack.h")
          then some
              (written (spec_contents (codes "demo") demo_file demo_dict demo_instruct demo_desc)).1
          else if text_eq (header_name (codes "demo")) (codes "demo_binpack.h")
          then some
              (written (spec_contents (codes "demo") demo_file demo_dict demo_instruct demo_desc)).0
          else lookup (codes "demo_binpack.h") []))
    × ((gen_code (codes "demo") demo_file demo_dict demo_instruct demo_desc []).1
        ≡ ending (spec_contents (codes "demo") demo_file demo_dict demo_instruct demo_desc))
gen_code_lem_example =
    gen_code_lem (codes "demo") demo_file demo_dict demo_instruct demo_desc []
      (codes "demo_binpack.h") demo-IsClean

demo_good : has_bad demo_file ≡ false
unfolding has_bad classify
demo_good = refl

demo_headers : headers 0 demo_file ≡ (codes "Item", 5) ∷ (codes "Bag", 9) ∷ []
unfolding headers classify
demo_headers = refl

demo_has_headers : headers 0 demo_file ≢ []
demo_has_headers e = cc (sym demo_headers ∙ e)

demo_alternate : alternate [] (headers 0 demo_file) ≡ true
unfolding alternate headers classify text_eq
demo_alternate = refl

read_proto_lem_example :
    (d : Dict (List ℕ)) × (read_proto demo_file ≡ ok (some (demo_file, d, instructions demo_file)))
    × SameDict d (enter (ranges (headers 0 demo_file) (length demo_file)) [])
read_proto_lem_example = read_proto_lem demo_file demo_good demo_has_headers demo_alternate

-- A comment that is not ASCII above the field: the name of the field is unicode, and the look-up ends
-- with UnicodeDecodeError, where one with a name in bytes gives the option.
abbrev foreign_file : List Text
foreign_file =
    line "message Item {"
    ∷ (codes "// " ++ (228 ∷ 184 ∷ 173 ∷ 10 ∷ []))
    ∷ line "  repeated uint32 id = 1; //|gen|max|8|"
    ∷ line "}"
    ∷ []

foreign_comment :
    (unicode_field_opt (codes "Item") (codes "id") foreign_file ((codes "Item", 1 ∷ 5 ∷ []) ∷ [])
      ≡ raised unicode_decode_error)
    × (find_field_opt (codes "Item") (codes "id") foreign_file ((codes "Item", 1 ∷ 5 ∷ []) ∷ [])
        ≡ ok (some (codes "8", false)))
unfolding unicode_field_opt find_field_opt text_eq
foreign_comment = (refl, refl)

abbrev empty_file : List Text
empty_file = line "package Proto.Test;" ∷ line "//gen_begin" ∷ []

empty_file_good : has_bad empty_file ≡ false
unfolding has_bad classify
empty_file_good = refl

empty_headers : headers 0 empty_file ≡ []
unfolding headers classify
empty_headers = refl

read_proto_empty_example : read_proto empty_file ≡ raised key_error
read_proto_empty_example = read_proto_empty empty_file empty_file_good empty_headers
