-- ===== src/Proto2obj4pb/Driver.antt =====
-- `handle_proto` of tools/proto2obj4pb.py, over the parameters of its `get_protodesc`: the platform's
-- name, what a command does to the files, and what the protobuf runtime makes of escaped bytes.
pub mod Frame
use yarf.Common.{
  ℕ, Option, none, some, List, [], ◌∷◌, ◌++◌, Result, ok, raised, type_error, unicode_encode_error,
  if◌then◌else◌, ◌>>=◌, Flow, returned, failed,
}
use yarf.Text.{Text, codes, is_ascii}
use yarf.Dict.{Dict, lookup}
use yarf.Descriptor.{FileDescriptor}
use yarf.Proto2bin.ReadProto.{Proto}
use yarf.Proto2bin.Driver.{readlines}
use yarf.Proto2bin.GenCode.{file_stem}
use yarf.Proto2obj4pb.Reading.{read_proto, get_protodesc}
use yarf.Proto2obj4pb.GenFile.{gen_code}

module _ (platform : Text) (system : Text → Dict Text → Dict Text)
    (parse : Text → Result FileDescriptor) where
  -- The descriptors of the includes, in their order. Their names are unicode, so that os.system encodes
  -- the command as ASCII.
  unfoldable pub get_includes : List Text → Dict Text → Dict Text × Result (List FileDescriptor)
  get_includes [] files = (files, ok [])
  get_includes (inc ∷ incs) files =
      let (files', r) = get_protodesc platform system parse inc (file_stem inc) files in
      let (files'', rest) = get_includes incs files' in
      if is_ascii inc
      then elim r [
        | raised e ↦ (files', raised e)
        | ok desc ↦ (files'', rest >>= λ descs. ok (desc ∷ descs))
      ]
      else (files, raised unicode_encode_error)

  -- From the file's own descriptor on: it is entered before those of the includes.
  unfoldable pub with_desc :
      List FileDescriptor
      → Text
      → Proto
      → Dict Text × Result FileDescriptor
      → Dict Text × Flow (Unit {0})
  with_desc g_all_proto file_pre proto (files, raised e) = (files, failed e)
  with_desc g_all_proto file_pre (file_lines, struct_dict, parse_instruct) (files, ok proto_desc) =
      let (files', r) = get_includes proto_desc.dependency files in
      elim r [
        | ok descs ↦
            gen_code (g_all_proto ++ (proto_desc ∷ descs)) file_pre file_lines struct_dict
              parse_instruct proto_desc files'
        | raised e ↦ (files', failed e)
      ]

  -- Unpacking the None that `read_proto` gives for a bad line raises TypeError.
  unfoldable pub with_proto :
      List FileDescriptor → Text → Dict Text → Result (Option Proto) → Dict Text × Flow (Unit {0})
  with_proto g_all_proto file_pre files (raised e) = (files, failed e)
  with_proto g_all_proto file_pre files (ok none) = (files, failed type_error)
  with_proto g_all_proto file_pre files (ok (some ([], struct_dict, parse_instruct))) =
      (files, returned)
  with_proto g_all_proto file_pre files (ok (some (line ∷ lines, struct_dict, parse_instruct))) =
      with_desc g_all_proto file_pre (line ∷ lines, struct_dict, parse_instruct)
        (get_protodesc platform system parse (file_pre ++ codes ".proto") file_pre files)

  -- A file that is not there ends the tool quietly.
  unfoldable pub handle_proto : List FileDescriptor → Text → Dict Text → Dict Text × Flow (Unit {0})
  unfolding lookup
  handle_proto g_all_proto file_pre files = elim (lookup (file_pre ++ codes ".proto") files) [
    | none ↦ (files, returned)
    | some text ↦ with_proto g_all_proto file_pre files (read_proto (readlines text))
  ]
