-- ===== src/Proto2obj4pb/GenFile.antt =====
-- `gen_code` of tools/proto2obj4pb.py: the loops over messages and includes, and the two files.
use yarf.Common.{
  ℕ, List, [], ◌∷◌, ◌++◌, ltb, if◌then◌else◌, length, Flow, next, returned, failed,
  unicode_decode_error, unicode_encode_error,
}
use yarf.Common.Flows.{◌>>=◌}
use yarf.Text.{Text, codes, upper, is_ascii}
use yarf.Template.{replaces}
use yarf.Dict
use yarf.Dict.{Dict}
use yarf.Descriptor.{Message, FileDescriptor}
use yarf.Proto2bin.GenCode.{file_stem, namespace_of}
use yarf.Proto2obj4pb.GenCode.{Contents, Source, gen_fields}
use yarf.Proto2obj4pb.Templates.{
  h_begin, h_include, h_ns_begin, h_class_begin, h_class_end, h_end, cc_begin, cc_encode_begin,
  cc_encode_end, cc_decode_begin, code_decode_end,
}

-- The declaration of a message's struct, and its functions, behind (h_content, cc_content).
unfoldable pub add_class : Text → Text → Text × Text → Contents → Text × Text
unfolding replaces
add_class namespace class_name (h_content, cc_content) c = (
  h_content
      ++ (c.h_declare
          ++ replaces ((codes "class_name", class_name) ∷ (codes "ns", namespace) ∷ [])
              h_class_end),
  ((cc_content ++ c.cc_opt) ++ (c.cc_encode ++ cc_encode_end)) ++ (c.cc_decode ++ code_decode_end),
)

-- The contents of a message before its fields.
unfoldable pub class_begin : Text → Text → Contents
unfolding replaces
class_begin namespace class_name =
    let names = (codes "ns", namespace) ∷ (codes "class_name", class_name) ∷ [] in
    record {
      h_declare = replaces ((codes "class_name", class_name) ∷ []) h_class_begin;
      cc_encode = replaces names cc_encode_begin;
      cc_decode = replaces names cc_decode_begin;
      cc_opt = [];
    }

module _ (g_all_proto : List FileDescriptor) (file_lines : List Text) (struct_dict : Dict (List ℕ))
    (namespace : Text) where
  abbrev pub of_msg : Message → Source
  of_msg msg = record {
    g_all_proto = g_all_proto;
    namespace = namespace;
    class_name = msg.name;
    file_lines = file_lines;
    struct_dict = struct_dict;
  }

  -- One round of the message loop.
  unfoldable pub gen_message : Message → Text × Text → Flow (Text × Text)
  gen_message msg out = do
    c ← gen_fields (of_msg msg) msg.field (class_begin namespace msg.name)
    next (add_class namespace msg.name out c)

  unfoldable pub gen_messages : List Message → Text × Text → Flow (Text × Text)
  gen_messages [] out = next out
  gen_messages (msg ∷ msgs) out = do out' ← gen_message msg out; gen_messages msgs out'

unfoldable pub gen_includes : List Text → Text → Text
unfolding replaces
gen_includes [] h_content = h_content
gen_includes (inc ∷ incs) h_content =
    gen_includes incs (h_content ++ replaces ((codes "file_pre", file_stem inc) ∷ []) h_include)

abbrev pub macro_of : Text → Text → Text
macro_of file_pre namespace =
    upper namespace ++ (codes "_" ++ (upper file_pre ++ codes "_RAWDATA_H_"))

-- The two texts, once the namespace is known, for an ASCII `file_pre`.
unfoldable pub gen_texts :
    List FileDescriptor
    → Text
    → List Text
    → Dict (List ℕ)
    → FileDescriptor
    → Text
    → Flow (Text × Text)
unfolding replaces upper
gen_texts g_all_proto file_pre file_lines struct_dict proto_desc namespace = do
  let macro = macro_of file_pre namespace
  let h_content = replaces ((codes "macro", macro) ∷ (codes "file_pre", file_pre) ∷ []) h_begin
  let h_includes = gen_includes proto_desc.dependency h_content
  (h, source) ← gen_messages g_all_proto file_lines struct_dict namespace proto_desc.message_type (
    h_includes ++ replaces ((codes "ns", namespace) ∷ []) h_ns_begin,
    replaces ((codes "file_pre", file_pre) ∷ []) cc_begin,
  )
  next (h ++ replaces ((codes "ns", namespace) ∷ (codes "macro", macro) ∷ []) h_end, source)

-- The first name that is put together of unicode and `file_pre`, the macro, needs it in ASCII.
unfoldable pub gen_body :
    List FileDescriptor
    → Text
    → List Text
    → Dict (List ℕ)
    → FileDescriptor
    → Text
    → Flow (Text × Text)
gen_body g_all_proto file_pre file_lines struct_dict proto_desc namespace =
    if is_ascii file_pre
    then gen_texts g_all_proto file_pre file_lines struct_dict proto_desc namespace
    else failed unicode_decode_error

-- From the checks on to the two texts that are written.
unfoldable pub gen_contents :
    List FileDescriptor
    → Text
    → List Text
    → Dict (List ℕ)
    → List Text
    → FileDescriptor
    → Flow (Text × Text)
gen_contents g_all_proto file_pre file_lines struct_dict parse_instruct proto_desc =
    if ltb (length parse_instruct) 2 then returned else do
      namespace ← namespace_of proto_desc.package_name
      gen_body g_all_proto file_pre file_lines struct_dict proto_desc namespace

-- The two writes at the end, which an early end leaves out. The texts are unicode, and a file takes
-- them in ASCII only.
unfoldable pub write_out :
    Text → Text → Dict Text → Flow (Text × Text) → Dict Text × Flow (Unit {0})
unfolding Dict.insert
write_out header source files (next (h, cc)) =
    if is_ascii h
    then (if is_ascii cc
        then (Dict.insert source cc (Dict.insert header h files), next tt)
        else (Dict.insert header h files, failed unicode_encode_error))
    else (files, failed unicode_encode_error)
write_out header source files returned = (files, returned)
write_out header source files (failed e) = (files, failed e)

-- The files by their names. Both are opened for writing, and so emptied, before the checks.
unfoldable pub gen_code :
    List FileDescriptor
    → Text
    → List Text
    → Dict (List ℕ)
    → List Text
    → FileDescriptor
    → Dict Text
    → Dict Text × Flow (Unit {0})
unfolding write_out Dict.insert
gen_code g_all_proto file_pre file_lines struct_dict parse_instruct proto_desc files =
    let header = file_pre ++ codes "_rawdata.h" in
    let source = file_pre ++ codes "_rawdata.cpp" in
    write_out header source (Dict.insert source [] (Dict.insert header [] files))
      (gen_contents g_all_proto file_pre file_lines struct_dict parse_instruct proto_desc)
