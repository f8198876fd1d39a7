-- ===== src/Proto2obj4pb/Spec/FileTexts.antt =====
-- The two files that proto2obj4pb writes: head, includes, one struct for each message in their order,
-- end, with all places filled at once from one table of values.
use yarf.Common.{
  ℕ, List, [], ◌∷◌, ◌++◌, ltb, if◌then◌else◌, length, Flow, next, returned, failed,
  unicode_decode_error,
}
use yarf.Common.Flows.{◌>>=◌}
use yarf.Text.{Text, codes, is_ascii}
use yarf.Template.{Env, parse, render}
use yarf.Dict.{Dict}
use yarf.Descriptor.{Message, FileDescriptor}
use yarf.Proto2bin.GenCode.{file_stem, namespace_of}
use yarf.Proto2bin.Spec.{file_env, beside}
use yarf.Proto2obj4pb.GenCode.{Contents}
use yarf.Proto2obj4pb.GenFile.{of_msg}
use yarf.Proto2obj4pb.Spec.{all_blocks}
use yarf.Proto2obj4pb.Templates.{
  h_begin, h_include, h_ns_begin, h_class_begin, h_class_end, h_end, cc_begin, cc_encode_begin,
  cc_encode_end, cc_decode_begin, code_decode_end,
}

-- A message's struct with its declarations; the functions on its arrays, then the two that copy it.
unfoldable pub class_texts : Env → Contents → Text × Text
class_texts env b = (
  render env (parse h_class_begin) ++ (b.h_declare ++ render env (parse h_class_end)),
  b.cc_opt
      ++ (render env (parse cc_encode_begin)
          ++ (b.cc_encode
              ++ (cc_encode_end
                  ++ (render env (parse cc_decode_begin) ++ (b.cc_decode ++ code_decode_end))))),
)

unfoldable pub all_includes : List Text → Text
all_includes [] = []
all_includes (inc ∷ incs) =
    render ((codes "file_pre", file_stem inc) ∷ []) (parse h_include) ++ all_includes incs

unfoldable pub file_texts : Env → Text → Text × Text → Text × Text
file_texts env includes (h, cc) = (
  render env (parse h_begin)
      ++ (includes ++ (render env (parse h_ns_begin) ++ (h ++ render env (parse h_end)))),
  render env (parse cc_begin) ++ cc,
)

module _ (g_all_proto : List FileDescriptor) (file_pre : Text) (file_lines : List Text)
    (struct_dict : Dict (List ℕ)) where
  module _ (namespace : Text) where
    unfoldable pub class_of : Message → Flow (Text × Text)
    class_of msg = do
      b ← all_blocks (of_msg g_all_proto file_lines struct_dict namespace msg) msg.field
      next (class_texts (file_env file_pre namespace msg.name) b)

    unfoldable pub all_classes : List Message → Flow (Text × Text)
    all_classes [] = next ([], [])
    all_classes (msg ∷ msgs) = do
      this ← class_of msg
      rest ← all_classes msgs
      next (beside this rest)

  unfoldable pub spec_texts : FileDescriptor → Text → Flow (Text × Text)
  spec_texts proto_desc namespace = do
    classes ← all_classes namespace proto_desc.message_type
    next (file_texts (file_env file_pre namespace []) (all_includes proto_desc.dependency) classes)

  -- Bytes that are not ASCII in the name of the file do not mix with unicode.
  unfoldable pub spec_body : FileDescriptor → Text → Flow (Text × Text)
  spec_body proto_desc namespace =
      if is_ascii file_pre then spec_texts proto_desc namespace else failed unicode_decode_error

  -- The two texts, or the early end or the exception with which the call ends.
  unfoldable pub spec_contents : List Text → FileDescriptor → Flow (Text × Text)
  spec_contents parse_instruct proto_desc =
      if ltb (length parse_instruct) 2
      then returned
      else do namespace ← namespace_of proto_desc.package_name; spec_body proto_desc namespace
