-- ===== src/Proto2bin/Driver.antt =====
-- `get_protodesc` and `handle_proto` of tools/proto2bin.py. What is not of the tool is a parameter:
-- the platform's name, what a command does to the files, and what the protobuf runtime makes of the
-- escaped bytes of a descriptor.
pub mod Frame
pub mod Run
use yarf.Common.{
  ℕ, ◌+◌, ◌-◌, ◌==◌, ◌≡◌, refl, true, false, Option, none, some, List, [], ◌∷◌, ◌++◌, if◌then◌else◌,
  length, take, drop, unicode_encode_error, Result, ok, raised, key_error, type_error, io_error,
  Flow, next, returned, failed,
}
use yarf.Text.{Text, codes, find, is_ascii}
use yarf.Dict.{Dict, lookup}
use yarf.Descriptor.{FileDescriptor}
use yarf.Util.{iswin}
use yarf.Proto2bin.ReadProto.{Proto, read_proto}
use yarf.Proto2bin.ReadProto.Spec.{has_bad, headers}
use yarf.Proto2bin.ReadProto.Ends.{read_proto_bad, read_proto_empty}
use yarf.Proto2bin.GenCode.{file_stem, gen_code}

-- What `readline` gives, one after the other: each line with its line feed.
unfoldable pub readlines : Text → List Text
readlines [] = []
readlines (c ∷ t) =
    let rest = readlines t in
    if c == 10 then (c ∷ []) ∷ rest else elim rest [ [] ↦ (c ∷ []) ∷ [] | l ∷ ls ↦ (c ∷ l) ∷ ls ]

-- line.rfind of one character
unfoldable pub rfind : ℕ → Text → Option ℕ
rfind q [] = none
rfind q (c ∷ t) = elim (rfind q t) [
  | none ↦ if c == q then some 0 else none
  | some i ↦ some (i + 1)
]

-- line[line.find("'")+1:line.rfind("'")], where -1 stands for the place before the last character.
unfoldable pub between_quotes : Text → Text
unfolding find
between_quotes line =
    take (last (rfind 39 line) - first (find (codes "'") line))
      (drop (first (find (codes "'") line)) line)
  where
    first : Option ℕ → ℕ
    first none = 0
    first (some i) = i + 1

    last : Option ℕ → ℕ
    last none = length line - 1
    last (some i) = i

-- The loop over the lines of the module that protoc wrote.
unfoldable pub serialized_pb : List Text → Text
unfolding find
serialized_pb [] = []
serialized_pb (line ∷ lines) = elim (find (codes "serialized_pb") line) [
  | none ↦ serialized_pb lines
  | some i ↦ between_quotes line
]

module _ (platform : Text) (system : Text → Dict Text → Dict Text)
    (parse : Text → Result FileDescriptor) where
  unfoldable pub protoc_command : Text → Text
  unfolding iswin
  protoc_command file_name =
      if iswin platform == 0
      then codes "./protoc --python_out=. " ++ (codes " ./" ++ file_name)
      else codes "protoc.exe --python_out=. " ++ (codes " ./" ++ file_name)

  unfoldable pub get_protodesc : Text → Text → Dict Text → Dict Text × Result FileDescriptor
  unfolding lookup
  get_protodesc file_name file_pre files =
      let files' = system (protoc_command file_name) files in
      elim (lookup (file_pre ++ codes "_pb2.py") files') [
        | none ↦ (files', raised io_error)
        | some text ↦ (files', parse (serialized_pb (readlines text)))
      ]

  -- The descriptors of the includes, which nothing reads in this tool. Their names are unicode, so that
  -- os.system encodes the command as ASCII.
  unfoldable pub get_includes : List Text → Dict Text → Dict Text × Flow (Unit {0})
  get_includes [] files = (files, next tt)
  get_includes (inc ∷ incs) files =
      let (files', r) = get_protodesc inc (file_stem inc) files in
      let rest = get_includes incs files' in
      if is_ascii inc
      then elim r [ raised e ↦ (files', failed e) | ok desc ↦ rest ]
      else (files, failed unicode_encode_error)

  -- What stands between the descriptor and `gen_code`.
  unfoldable pub with_desc :
      Text → Proto → Dict Text × Result FileDescriptor → Dict Text × Flow (Unit {0})
  with_desc file_pre (file_lines, struct_dict, parse_instruct) (files, raised e) = (files, failed e)
  with_desc file_pre (file_lines, struct_dict, parse_instruct) (files, ok proto_desc) =
      let (files', r) = get_includes proto_desc.dependency files in
      elim r [
        | next u ↦ gen_code file_pre file_lines struct_dict parse_instruct proto_desc files'
        | returned ↦ (files', returned)
        | failed e ↦ (files', failed e)
      ]

  -- Unpacking the None that `read_proto` gives for a bad line raises TypeError.
  unfoldable pub with_proto : Text → Dict Text → Result (Option Proto) → Dict Text × Flow (Unit {0})
  with_proto file_pre files (raised e) = (files, failed e)
  with_proto file_pre files (ok none) = (files, failed type_error)
  with_proto file_pre files (ok (some ([], struct_dict, parse_instruct))) = (files, returned)
  with_proto file_pre files (ok (some (line ∷ lines, struct_dict, parse_instruct))) =
      with_desc file_pre (line ∷ lines, struct_dict, parse_instruct)
        (get_protodesc (file_pre ++ codes ".proto") file_pre files)

  -- A file that is not there ends the tool quietly.
  unfoldable pub handle_proto : Text → Dict Text → Dict Text × Flow (Unit {0})
  unfolding lookup
  handle_proto file_pre files = elim (lookup (file_pre ++ codes ".proto") files) [
    | none ↦ (files, returned)
    | some text ↦ with_proto file_pre files (read_proto (readlines text))
  ]

  -- Where the proto file has a bad line, the tool ends with TypeError, before any command has run
  -- and with all files as they were.
  pub handle_proto_bad :
      (file_pre text : Text) (files : Dict Text)
      → lookup (file_pre ++ codes ".proto") files ≡ some text
      → has_bad (readlines text) ≡ true
      → handle_proto file_pre files ≡ (files, failed type_error)
  unfolding handle_proto with_proto
  handle_proto_bad file_pre text files h b =
      rw (h, handle_proto, read_proto_bad (readlines text) b) refl

  -- Where the proto file has neither a bad line nor a message, the tool ends with KeyError, before
  -- any command has run and with all files as they were.
  pub handle_proto_empty :
      (file_pre text : Text) (files : Dict Text)
      → lookup (file_pre ++ codes ".proto") files ≡ some text
      → has_bad (readlines text) ≡ false
      → headers 0 (readlines text) ≡ []
      → handle_proto file_pre files ≡ (files, failed key_error)
  unfolding handle_proto with_proto
  handle_proto_empty file_pre text files h b e =
      rw (h, handle_proto, read_proto_empty (readlines text) b e) refl
