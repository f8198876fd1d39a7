-- ===== src/Proto2bin/DriverTests.antt =====
-- The driver of tools/proto2bin.py on small files, where commands change nothing.
use Prim.Native.String.{String}
use yarf.Common.{
  ℕ, ◌≡◌, ◌≢◌, ◌∙◌, sym, refl, true, false, some, List, [], ◌∷◌, ◌++◌, Result, ok, raised,
  key_error, type_error, io_error, failed, length, if◌then◌else◌,
}
use yarf.Text.{find, Text, codes, text_eq, split}
use yarf.Dict.{Dict, lookup, insert}
use yarf.Descriptor.{
  type_uint32, type_message, label_optional, label_repeated, Field, FileDescriptor,
}
use yarf.Proto2bin.ReadProto.{classify}
use yarf.Proto2bin.ReadProto.Spec.{has_bad, headers, ranges, enter, alternate, instructions}
use yarf.Proto2bin.Driver.{
  readlines, serialized_pb, rfind, between_quotes, handle_proto, handle_proto_bad,
  handle_proto_empty, protoc_command,
}
use yarf.Template.{no_dollar}
use yarf.Proto2bin.ReadProto.Open.{SameDict}
use yarf.Proto2bin.Spec.{spec_contents}
use yarf.Proto2bin.RefineFile.{IsClean}
use yarf.Proto2bin.Files.{Holds, ending, header_name, source_name}
use yarf.Proto2bin.Driver.Run.{Fetches, done, fetch, handle_proto_fills}
use yarf.Proto2bin.GenCode.{file_stem}
use yarf.Proto2bin.Driver.Frame.{handle_proto_keeps}

abbrev line : String → Text
line s = codes s ++ (10 ∷ [])

abbrev no_change : Text → Dict Text → Dict Text
no_change command files = files

abbrev no_descriptor : Text → Result FileDescriptor
no_descriptor bytes = raised io_error

descriptor_bytes :
    serialized_pb
      (line "DESCRIPTOR = _descriptor.FileDescriptor(" ∷ line "  serialized_pb='abc')" ∷ [])
    ≡ codes "abc"
unfolding serialized_pb between_quotes rfind
descriptor_bytes = refl

abbrev bad_text : Text
bad_text = line "message Item {" ++ line "  // a message in a message"

abbrev bad_files : Dict Text
bad_files = (codes "demo.proto", bad_text) ∷ []

bad_found : lookup (codes "demo" ++ codes ".proto") bad_files ≡ some bad_text
unfolding lookup text_eq
bad_found = refl

bad_is_bad : has_bad (readlines bad_text) ≡ true
unfolding has_bad readlines classify
bad_is_bad = refl

handle_proto_bad_example :
    handle_proto (codes "Linux") no_change no_descriptor (codes "demo") bad_files
    ≡ (bad_files, failed type_error)
handle_proto_bad_example =
    handle_proto_bad (codes "Linux") no_change no_descriptor (codes "demo") bad_text bad_files
      bad_found bad_is_bad

abbrev empty_text : Text
empty_text = line "package Proto.Test;" ++ line "//gen_begin"

abbrev empty_files : Dict Text
empty_files = (codes "demo.proto", empty_text) ∷ []

empty_found : lookup (codes "demo" ++ codes ".proto") empty_files ≡ some empty_text
unfolding lookup text_eq
empty_found = refl

empty_is_good : has_bad (readlines empty_text) ≡ false
unfolding has_bad readlines classify
empty_is_good = refl

empty_has_no_header : headers 0 (readlines empty_text) ≡ []
unfolding headers readlines classify
empty_has_no_header = refl

handle_proto_empty_example :
    handle_proto (codes "Linux") no_change no_descriptor (codes "demo") empty_files
    ≡ (empty_files, failed key_error)
handle_proto_empty_example =
    handle_proto_empty (codes "Linux") no_change no_descriptor (codes "demo") empty_text empty_files
      empty_found empty_is_good empty_has_no_header

not_the_header : text_eq (codes "demo" ++ codes "_binpack.h") (codes "keep.txt") ≡ false
unfolding text_eq
not_the_header = refl

not_the_source : text_eq (codes "demo" ++ codes "_binpack.cpp") (codes "keep.txt") ≡ false
unfolding text_eq
not_the_source = refl

abbrev kept_files : Dict Text
kept_files = (codes "keep.txt", codes "kept") ∷ bad_files

handle_proto_keeps_example :
    lookup
      (codes "keep.txt")
      (handle_proto (codes "Linux") no_change no_descriptor (codes "demo") kept_files).0
    ≡ lookup (codes "keep.txt") kept_files
handle_proto_keeps_example =
    handle_proto_keeps (codes "keep.txt") (codes "demo") not_the_header not_the_source
      (codes "Linux") no_change no_descriptor (λ command files. refl) kept_files

-- A whole run, on a file with instructions and two messages.
abbrev run_text : Text
run_text =
    line "//gen_begin"
    ++ (line "//rawdata"
        ++ (line "//gen_end"
            ++ (line "message Item {"
                ++ (line "  uint32 id = 1;"
                    ++ (line "}"
                        ++ (line "message Bag {"
                            ++ (line "  repeated Item parts = 1; //1 |gen|max|5|opt|"
                                ++ line "}")))))))

abbrev run_files : Dict Text
run_files = (codes "demo.proto", run_text) ∷ (codes "keep.txt", codes "kept") ∷ []

abbrev id_of_item : Field
id_of_item = record {
  name = codes "id";
  label = label_optional;
  kind = type_uint32;
  type_name = [];
}

abbrev parts : Field
parts = record {
  name = codes "parts";
  label = label_repeated;
  kind = type_message;
  type_name = codes ".Proto.Test.Item";
}

abbrev run_desc : FileDescriptor
run_desc = record {
  package_name = codes "Proto.Test";
  dependency = codes "base.proto" ∷ [];
  message_type =
      record { name = codes "Item"; field = id_of_item ∷ [] }
      ∷ record { name = codes "Bag"; field = parts ∷ [] }
      ∷ [];
}

abbrev base_desc : FileDescriptor
base_desc = record { package_name = codes "Proto.Test"; dependency = []; message_type = [] }

-- What protoc writes for the file and for its include.
abbrev own_module : Text
own_module = line "  serialized_pb='abc')"

abbrev base_module : Text
base_module = line "  serialized_pb='xyz')"

unfoldable protoc : Text → Dict Text → Dict Text
protoc command files =
    if text_eq command (codes "./protoc --python_out=.  ./demo.proto")
    then insert (codes "demo_pb2.py") own_module files
    else insert (codes "base_pb2.py") base_module files

abbrev parsed : Text → Result FileDescriptor
parsed bytes =
    if text_eq bytes (codes "abc")
    then ok run_desc
    else if text_eq bytes (codes "xyz")
    then ok base_desc
    else raised io_error

abbrev with_own : Dict Text
with_own =
    (codes "demo.proto", run_text)
    ∷ (codes "keep.txt", codes "kept")
    ∷ (codes "demo_pb2.py", own_module)
    ∷ []

abbrev with_both : Dict Text
with_both =
    (codes "demo.proto", run_text)
    ∷ (codes "keep.txt", codes "kept")
    ∷ (codes "demo_pb2.py", own_module)
    ∷ (codes "base_pb2.py", base_module)
    ∷ []

run_found : lookup (codes "demo" ++ codes ".proto") run_files ≡ some run_text
unfolding lookup text_eq
run_found = refl

run_is_good : has_bad (readlines run_text) ≡ false
unfolding has_bad readlines classify
run_is_good = refl

run_headers : headers 0 (readlines run_text) ≡ (codes "Item", 4) ∷ (codes "Bag", 7) ∷ []
unfolding headers readlines classify
run_headers = refl

run_has_headers : headers 0 (readlines run_text) ≢ []
run_has_headers e = cc (sym run_headers ∙ e)

run_alternates : alternate [] (headers 0 (readlines run_text)) ≡ true
unfolding alternate headers readlines classify text_eq
run_alternates = refl

own_left :
    protoc (protoc_command (codes "Linux") protoc parsed (codes "demo" ++ codes ".proto")) run_files
    ≡ with_own
unfolding protoc protoc_command insert text_eq find
own_left = refl

own_found :
    lookup (codes "demo" ++ codes "_pb2.py") (
      protoc
        (protoc_command (codes "Linux") protoc parsed (codes "demo" ++ codes ".proto"))
        run_files)
    ≡ some own_module
unfolding protoc protoc_command insert lookup text_eq find
own_found = refl

own_parsed : parsed (serialized_pb (readlines own_module)) ≡ ok run_desc
unfolding readlines serialized_pb between_quotes rfind text_eq
own_parsed = refl

base_left :
    protoc (protoc_command (codes "Linux") protoc parsed (codes "base.proto")) with_own ≡ with_both
unfolding protoc protoc_command insert text_eq find
base_left = refl

base_found :
    lookup
      (file_stem (codes "base.proto") ++ codes "_pb2.py")
      (protoc (protoc_command (codes "Linux") protoc parsed (codes "base.proto")) with_own)
    ≡ some base_module
unfolding protoc protoc_command insert lookup text_eq split find
base_found = refl

base_parsed : parsed (serialized_pb (readlines base_module)) ≡ ok base_desc
unfolding readlines serialized_pb between_quotes rfind text_eq
base_parsed = refl

run-Fetches :
    Fetches
      (codes "Linux")
      protoc
      parsed
      (codes "base.proto" ∷ [])
      (protoc
        (protoc_command (codes "Linux") protoc parsed (codes "demo" ++ codes ".proto"))
        run_files)
      (base_desc ∷ [])
      with_both
run-Fetches = rw own_left (fetch refl base_found base_parsed (rw base_left (done with_both)))

run-IsClean : IsClean (codes "demo") (readlines run_text) run_desc
unfolding no_dollar readlines
run-IsClean = record {
  pre_clean = refl;
  lines_clean = refl;
  package_clean = refl;
  includes_clean = refl;
  messages_clean = (
    record {
      name_clean = refl;
      fields_clean = (record { name_clean = refl; type_clean = refl }, tt);
    },
    (
      record {
        name_clean = refl;
        fields_clean = (record { name_clean = refl; type_clean = refl }, tt);
      },
      tt,
    ),
  );
}

handle_proto_fills_example :
    (d : Dict (List ℕ)) × SameDict d
      (enter (ranges (headers 0 (readlines run_text)) (length (readlines run_text))) [])
    × Holds
        (header_name (codes "demo"))
        (source_name (codes "demo"))
        with_both
        (handle_proto (codes "Linux") protoc parsed (codes "demo") run_files).0
        (spec_contents
          (codes "demo")
          (readlines run_text)
          d
          (instructions (readlines run_text))
          run_desc)
    × ((handle_proto (codes "Linux") protoc parsed (codes "demo") run_files).1
        ≡ ending (
            spec_contents
              (codes "demo")
              (readlines run_text)
              d
              (instructions (readlines run_text))
              run_desc))
handle_proto_fills_example =
    handle_proto_fills (codes "Linux") protoc parsed (codes "demo") run_files with_both run_text
      own_module run_desc (base_desc ∷ []) run_found run_is_good run_has_headers run_alternates
      own_found own_parsed run-Fetches run-IsClean
