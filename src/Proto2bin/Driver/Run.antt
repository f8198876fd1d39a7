-- ===== src/Proto2bin/Driver/Run.antt =====
-- A whole run of `handle_proto` of tools/proto2bin.py, from the proto file to the two files.
use yarf.Common.{
  ℕ, ◌≡◌, ◌≢◌, refl, ◌∙◌, ap, Option, none, some, List, [], ◌∷◌, ◌++◌, length, false, true, Result,
  ok, raised, io_error, Flow, next, returned, failed,
}
use yarf.Text.{Text, codes, is_ascii}
use yarf.Dict.{Dict, lookup}
use yarf.Descriptor.{FileDescriptor}
use yarf.Proto2bin.ReadProto.{read_proto}
use yarf.Proto2bin.ReadProto.Spec.{has_bad, headers, ranges, enter, alternate, instructions}
use yarf.Proto2bin.ReadProto.Ranges.{read_proto_lem}
use yarf.Proto2bin.ReadProto.Open.{SameDict}
use yarf.Proto2bin.GenCode.{file_stem, gen_code}
use yarf.Proto2bin.Driver.{
  serialized_pb, protoc_command, readlines, get_protodesc, get_includes, with_desc, with_proto,
  handle_proto,
}
use yarf.Proto2bin.Spec.{spec_contents}
use yarf.Proto2bin.RefineFile.{IsClean}
use yarf.Proto2bin.Files.{Holds, ending, header_name, source_name, gen_code_lem}

-- What the commands for files leave, one after the other, and the descriptors that the runtime makes of
-- the modules that protoc wrote: one for every file, in their order. The names are ASCII, without which
-- Python does not run a command that is unicode.
pub data Fetches (platform : Text) (system : Text → Dict Text → Dict Text)
    (parse : Text → Result FileDescriptor)
    : List Text → Dict Text → List FileDescriptor → Dict Text → Type 0 where
  done : (files : Dict Text) → Fetches platform system parse [] files [] files
  fetch :
      {name text : Text} {names : List Text} {files files' : Dict Text} {desc : FileDescriptor}
      {descs : List FileDescriptor}
      → is_ascii name ≡ true
      → lookup
          (file_stem name ++ codes "_pb2.py")
          (system (protoc_command platform system parse name) files)
        ≡ some text
      → parse (serialized_pb (readlines text)) ≡ ok desc
      → Fetches platform system parse names
          (system (protoc_command platform system parse name) files)
          descs
          files'
      → Fetches platform system parse (name ∷ names) files (desc ∷ descs) files'

module _ (platform : Text) (system : Text → Dict Text → Dict Text)
    (parse : Text → Result FileDescriptor) (p : Text) where
  pub get_protodesc_lem :
      (name stem text : Text) (files : Dict Text) (desc : FileDescriptor)
      → lookup (stem ++ codes "_pb2.py") (system (protoc_command platform system parse name) files)
        ≡ some text
      → parse (serialized_pb (readlines text)) ≡ ok desc
      → get_protodesc platform system parse name stem files
        ≡ (system (protoc_command platform system parse name) files, ok desc)
  unfolding get_protodesc
  get_protodesc_lem name stem text files desc found parsed =
      ap (λ o. go o) found ∙ ap (λ r. (after, r)) parsed
    where
      after : Dict Text
      after = system (protoc_command platform system parse name) files

      go : Option Text → Dict Text × Result FileDescriptor
      go none = (after, raised io_error)
      go (some text) = (after, parse (serialized_pb (readlines text)))

  get_includes_lem :
      {incs : List Text} {files files' : Dict Text} {descs : List FileDescriptor}
      → Fetches platform system parse incs files descs files'
      → get_includes platform system parse incs files ≡ (files', next tt)
  unfolding get_includes
  get_includes_lem (done files) = refl
  get_includes_lem (fetch {name} {text} {names} {files} {files'} {desc} ascii found parsed rest) =
      rw ascii (
        ap (λ x. go x) (get_protodesc_lem name (file_stem name) text files desc found parsed)
        ∙ get_includes_lem rest)
    where
      go : Dict Text × Result FileDescriptor → Dict Text × Flow (Unit {0})
      go (files', raised e) = (files', failed e)
      go (files', ok desc) = get_includes platform system parse names files'

  -- The lines of a file with a message are not none.
  with_lines :
      (files : Dict Text) (lines : List Text) (d : Dict (List ℕ)) (instruct : List Text)
      → headers 0 lines ≢ []
      → with_proto platform system parse p files (ok (some (lines, d, instruct)))
        ≡ with_desc platform system parse p
            (lines, d, instruct)
            (get_protodesc platform system parse (p ++ codes ".proto") p files)
  unfolding with_proto headers
  with_lines files [] d instruct ne = absurd (ne refl)
  with_lines files (line ∷ lines) d instruct ne = refl

  -- The run up to `gen_code`.
  reaches :
      (files files' files'' : Dict Text) (text : Text) (d : Dict (List ℕ)) (instruct : List Text)
      (desc : FileDescriptor)
      → lookup (p ++ codes ".proto") files ≡ some text
      → read_proto (readlines text) ≡ ok (some (readlines text, d, instruct))
      → headers 0 (readlines text) ≢ []
      → get_protodesc platform system parse (p ++ codes ".proto") p files ≡ (files', ok desc)
      → get_includes platform system parse desc.dependency files' ≡ (files'', next tt)
      → handle_proto platform system parse p files
        ≡ gen_code p (readlines text) d instruct desc files''
  unfolding handle_proto with_desc
  reaches files files' files'' text d instruct desc found reads ne own incs =
      rw (found, handle_proto, reads) (with_lines files (readlines text) d instruct ne)
      ∙ ap (with_desc platform system parse p (readlines text, d, instruct)) own
      ∙ ap (λ x. go x) incs
    where
      go : Dict Text × Flow (Unit {0}) → Dict Text × Flow (Unit {0})
      go (files', next u) = gen_code p (readlines text) d instruct desc files'
      go (files', returned) = (files', returned)
      go (files', failed e) = (files', failed e)

  -- A whole run on a proto file that has a message, no bad line and no two neighbouring messages of
  -- one name, where protoc and the runtime give the descriptors of the file and of every include, whose
  -- names are ASCII, and nothing that is read holds a dollar: with the ranges of the messages in the file as their places,
  -- the source and the header hold the specified texts, or are empty where the specification fails; a
  -- text that is not ASCII, and a source behind such a header, is not written either; every other file
  -- is as the commands left it, one for the file and one for every include; and the run ends as the
  -- specification does, or with UnicodeEncodeError at a text that is not ASCII.
  pub handle_proto_fills :
      (files files' : Dict Text) (text pb2 : Text) (desc : FileDescriptor)
      (descs : List FileDescriptor)
      → lookup (p ++ codes ".proto") files ≡ some text
      → has_bad (readlines text) ≡ false
      → headers 0 (readlines text) ≢ []
      → alternate [] (headers 0 (readlines text)) ≡ true
      → lookup
          (p ++ codes "_pb2.py")
          (system (protoc_command platform system parse (p ++ codes ".proto")) files)
        ≡ some pb2
      → parse (serialized_pb (readlines pb2)) ≡ ok desc
      → Fetches platform system parse desc.dependency
          (system (protoc_command platform system parse (p ++ codes ".proto")) files)
          descs
          files'
      → IsClean p (readlines text) desc
      → (d : Dict (List ℕ)) × SameDict d
          (enter (ranges (headers 0 (readlines text)) (length (readlines text))) [])
        × Holds
            (header_name p)
            (source_name p)
            files'
            (handle_proto platform system parse p files).0
            (spec_contents p (readlines text) d (instructions (readlines text)) desc)
        × ((handle_proto platform system parse p files).1
            ≡ ending (spec_contents p (readlines text) d (instructions (readlines text)) desc))
  handle_proto_fills files files' text pb2 desc descs found good ne apart own parsed incs clean =
      let (d, reads, same) = read_proto_lem (readlines text) good ne apart in
      let run =
        reaches files _ files' text d (instructions (readlines text)) desc found reads ne
          (get_protodesc_lem (p ++ codes ".proto") p pb2 files desc own parsed)
          (get_includes_lem incs) in
      let done = λ (name : Text).
        gen_code_lem p (readlines text) d (instructions (readlines text)) desc files' name clean in
      (d, same, rw run (λ name. (done name).0), rw run (done []).1)
