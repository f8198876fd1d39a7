-- ===== src/Proto2obj4pb/DriverTests.antt =====
-- A whole run of tools/proto2obj4pb.py, where the array has a key.
use Prim.Native.String.{String}
use yarf.Common.{
  Bool, ℕ, ◌≡◌, ◌≢◌, ◌∙◌, sym, refl, true, false, some, List, [], ◌∷◌, ◌++◌, Result, ok, raised,
  io_error, length, if◌then◌else◌,
}
use yarf.Text.{find, Text, codes, text_eq, split}
use yarf.Template.{no_dollar}
use yarf.Dict.{Dict, lookup, insert}
use yarf.Descriptor.{
  type_uint32, type_message, label_optional, label_repeated, Field, FileDescriptor,
}
use yarf.Proto2bin.ReadProto.{classify}
use yarf.Proto2bin.ReadProto.Spec.{has_bad, headers, ranges, enter, alternate, instructions}
use yarf.Proto2bin.ReadProto.Open.{SameDict}
use yarf.Proto2bin.Driver.{protoc_command, readlines, serialized_pb, rfind, between_quotes}
use yarf.Proto2bin.RefineFile.{IsClean}
use yarf.Proto2bin.Files.{Holds, ending}
use yarf.Proto2obj4pb.Driver.{handle_proto}
use yarf.Proto2obj4pb.Driver.Frame.{handle_proto_frame}
use yarf.Proto2bin.Driver.Frame.{insert_other}
use yarf.Proto2bin.GenCode.{file_stem}
use yarf.Proto2bin.Driver.Run.{Fetches, done, fetch}
use yarf.Proto2obj4pb.Spec.FileTexts.{spec_contents}
use yarf.Proto2obj4pb.Files.{header_name, source_name, AreClean, handle_proto_writes}

abbrev line : String → Text
line s = codes s ++ (10 ∷ [])

-- A whole run, on a file with instructions and two messages.
abbrev run_text : Text
run_text =
    line "//gen_begin"
    ++ (line "//rawdata"
        ++ (line "//gen_end"
            ++ (line "message Item {"
                ++ (line "  uint32 id = 1;"
                    ++ (line "}"
                        ++ (line "message Bag {"
                            ++ (line "  repeated Item parts = 1; //1 |gen|max|5|keyopt|"
                                ++ line "}")))))))

abbrev run_files : Dict Text
run_files = (codes "demo.proto", run_text) ∷ (codes "keep.txt", codes "kept") ∷ []

abbrev id_of_item : Field
id_of_item = record {
  name = codes "id";
  label = label_optional;
  kind = type_uint32;
  type_name = [];
}

abbrev parts : Field
parts = record {
  name = codes "parts";
  label = label_repeated;
  kind = type_message;
  type_name = codes ".Proto.Test.Item";
}

abbrev run_desc : FileDescriptor
run_desc = record {
  package_name = codes "Proto.Test";
  dependency = codes "base.proto" ∷ [];
  message_type =
      record { name = codes "Item"; field = id_of_item ∷ [] }
      ∷ record { name = codes "Bag"; field = parts ∷ [] }
      ∷ [];
}

abbrev base_desc : FileDescriptor
base_desc = record { package_name = codes "Proto.Test"; dependency = []; message_type = [] }

-- What protoc writes for the file and for its include.
abbrev own_module : Text
own_module = line "  serialized_pb='abc')"

abbrev base_module : Text
base_module = line "  serialized_pb='xyz')"

unfoldable protoc : Text → Dict Text → Dict Text
protoc command files =
    if text_eq command (codes "./protoc --python_out=.  ./demo.proto")
    then insert (codes "demo_pb2.py") own_module files
    else insert (codes "base_pb2.py") base_module files

abbrev parsed : Text → Result FileDescriptor
parsed bytes =
    if text_eq bytes (codes "abc")
    then ok run_desc
    else if text_eq bytes (codes "xyz")
    then ok base_desc
    else raised io_error

abbrev with_own : Dict Text
with_own =
    (codes "demo.proto", run_text)
    ∷ (codes "keep.txt", codes "kept")
    ∷ (codes "demo_pb2.py", own_module)
    ∷ []

abbrev with_both : Dict Text
with_both =
    (codes "demo.proto", run_text)
    ∷ (codes "keep.txt", codes "kept")
    ∷ (codes "demo_pb2.py", own_module)
    ∷ (codes "base_pb2.py", base_module)
    ∷ []

run_found : lookup (codes "demo" ++ codes ".proto") run_files ≡ some run_text
unfolding lookup text_eq
run_found = refl

run_is_good : has_bad (readlines run_text) ≡ false
unfolding has_bad readlines classify
run_is_good = refl

run_headers : headers 0 (readlines run_text) ≡ (codes "Item", 4) ∷ (codes "Bag", 7) ∷ []
unfolding headers readlines classify
run_headers = refl

run_has_headers : headers 0 (readlines run_text) ≢ []
run_has_headers e = cc (sym run_headers ∙ e)

run_alternates : alternate [] (headers 0 (readlines run_text)) ≡ true
unfolding alternate headers readlines classify text_eq
run_alternates = refl

own_left :
    protoc (protoc_command (codes "Linux") protoc parsed (codes "demo" ++ codes ".proto")) run_files
    ≡ with_own
unfolding protoc protoc_command insert text_eq find
own_left = refl

own_found :
    lookup (codes "demo" ++ codes "_pb2.py") (
      protoc
        (protoc_command (codes "Linux") protoc parsed (codes "demo" ++ codes ".proto"))
        run_files)
    ≡ some own_module
unfolding protoc protoc_command insert lookup text_eq find
own_found = refl

own_parsed : parsed (serialized_pb (readlines own_module)) ≡ ok run_desc
unfolding readlines serialized_pb between_quotes rfind text_eq
own_parsed = refl

base_left :
    protoc (protoc_command (codes "Linux") protoc parsed (codes "base.proto")) with_own ≡ with_both
unfolding protoc protoc_command insert text_eq find
base_left = refl

base_found :
    lookup
      (file_stem (codes "base.proto") ++ codes "_pb2.py")
      (protoc (protoc_command (codes "Linux") protoc parsed (codes "base.proto")) with_own)
    ≡ some base_module
unfolding protoc protoc_command insert lookup text_eq split find
base_found = refl

base_parsed : parsed (serialized_pb (readlines base_module)) ≡ ok base_desc
unfolding readlines serialized_pb between_quotes rfind text_eq
base_parsed = refl

run-Fetches :
    Fetches
      (codes "Linux")
      protoc
      parsed
      (codes "base.proto" ∷ [])
      (protoc
        (protoc_command (codes "Linux") protoc parsed (codes "demo" ++ codes ".proto"))
        run_files)
      (base_desc ∷ [])
      with_both
run-Fetches = rw own_left (fetch refl base_found base_parsed (rw base_left (done with_both)))

run-IsClean : IsClean (codes "demo") (readlines run_text) run_desc
unfolding no_dollar readlines
run-IsClean = record {
  pre_clean = refl;
  lines_clean = refl;
  package_clean = refl;
  includes_clean = refl;
  messages_clean = (
    record {
      name_clean = refl;
      fields_clean = (record { name_clean = refl; type_clean = refl }, tt);
    },
    (
      record {
        name_clean = refl;
        fields_clean = (record { name_clean = refl; type_clean = refl }, tt);
      },
      tt,
    ),
  );
}

run-AreClean : AreClean (run_desc ∷ base_desc ∷ [])
run-AreClean = (run-IsClean.messages_clean, (tt, tt))

handle_proto_writes_example :
    (d : Dict (List ℕ)) × SameDict d
      (enter (ranges (headers 0 (readlines run_text)) (length (readlines run_text))) [])
    × Holds
        (header_name (codes "demo"))
        (source_name (codes "demo"))
        with_both
        (handle_proto (codes "Linux") protoc parsed [] (codes "demo") run_files).0
        (spec_contents
          (run_desc ∷ base_desc ∷ [])
          (codes "demo")
          (readlines run_text)
          d
          (instructions (readlines run_text))
          run_desc)
    × ((handle_proto (codes "Linux") protoc parsed [] (codes "demo") run_files).1
        ≡ ending (
            spec_contents
              (run_desc ∷ base_desc ∷ [])
              (codes "demo")
              (readlines run_text)
              d
              (instructions (readlines run_text))
              run_desc))
handle_proto_writes_example =
    handle_proto_writes (codes "Linux") protoc parsed [] (codes "demo") run_files with_both run_text
      own_module run_desc (base_desc ∷ []) run_found run_is_good run_has_headers run_alternates
      own_found own_parsed run-Fetches run-IsClean run-AreClean

not_the_header : text_eq (codes "demo" ++ codes "_rawdata.h") (codes "keep.txt") ≡ false
unfolding text_eq
not_the_header = refl

not_the_source : text_eq (codes "demo" ++ codes "_rawdata.cpp") (codes "keep.txt") ≡ false
unfolding text_eq
not_the_source = refl

not_a_module :
    (text_eq (codes "demo_pb2.py") (codes "keep.txt") ≡ false)
    × (text_eq (codes "base_pb2.py") (codes "keep.txt") ≡ false)
unfolding text_eq
not_a_module = (refl, refl)

-- Commands leave the file alone.
protoc_other :
    (command : Text) (files : Dict Text)
    → lookup (codes "keep.txt") (protoc command files) ≡ lookup (codes "keep.txt") files
unfolding protoc
protoc_other command files =
    by_command (text_eq command (codes "./protoc --python_out=.  ./demo.proto"))
  where
    by_command :
        (b : Bool)
        → lookup (codes "keep.txt") (
            if b
            then insert (codes "demo_pb2.py") own_module files
            else insert (codes "base_pb2.py") base_module files)
          ≡ lookup (codes "keep.txt") files
    by_command true =
        insert_other (codes "demo_pb2.py") (codes "keep.txt") own_module files not_a_module.0
    by_command false =
        insert_other (codes "base_pb2.py") (codes "keep.txt") base_module files not_a_module.1

handle_proto_frame_example :
    lookup
      (codes "keep.txt")
      (handle_proto (codes "Linux") protoc parsed [] (codes "demo") run_files).0
    ≡ lookup (codes "keep.txt") run_files
handle_proto_frame_example =
    handle_proto_frame (codes "keep.txt") (codes "demo") not_the_header not_the_source
      (codes "Linux") protoc parsed protoc_other [] run_files
