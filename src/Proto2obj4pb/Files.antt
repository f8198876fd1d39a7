-- ===== src/Proto2obj4pb/Files.antt =====
-- What runs of `gen_code` and of `handle_proto` of tools/proto2obj4pb.py leave in the files.
use yarf.Common.{
  true, false, inl, inr, Bool-cases, ℕ, ◌≡◌, ◌≢◌, refl, ◌∙◌, ap, some, List, [], ◌∷◌, ◌++◌, arith,
  All, length, false, true, Result, ok, raised, ◌>>=◌, Flow, next, returned, failed,
}
use yarf.Text.{Text, codes, text_eq, is_ascii}
use yarf.Proto2bin.GenCode.{file_stem}
use yarf.Text.Equality.{endings_apart}
use yarf.Dict.{Dict, lookup, insert, lookup-insert}
use yarf.Descriptor.{FileDescriptor}
use yarf.Proto2bin.ReadProto.Spec.{has_bad, headers, ranges, enter, alternate, instructions}
use yarf.Proto2bin.ReadProto.Ranges.{read_proto_lem}
use yarf.Proto2bin.ReadProto.Open.{SameDict}
use yarf.Proto2bin.Driver.{readlines, protoc_command, serialized_pb}
use yarf.Proto2bin.Driver.Run.{Fetches, done, fetch, get_protodesc_lem}
use yarf.Proto2bin.RefineFile.{IsClean, IsCleanMessage}
use yarf.Proto2bin.Files.{Holds, ending}
use yarf.Proto2obj4pb.Reading.{read_proto, get_protodesc}
use yarf.Proto2obj4pb.GenFile.{write_out, gen_code}
use yarf.Proto2obj4pb.Driver.{get_includes, with_desc, with_proto, handle_proto}
use yarf.Proto2obj4pb.Spec.FileTexts.{spec_contents}
use yarf.Proto2obj4pb.Spec.RefineFile.{gen_contents_lem}

abbrev pub header_name : Text → Text
header_name p = p ++ codes "_rawdata.h"

abbrev pub source_name : Text → Text
source_name p = p ++ codes "_rawdata.cpp"

write_out-ending :
    (header source : Text) (files : Dict Text) (r : Flow (Text × Text))
    → (write_out header source files r).1 ≡ ending r
unfolding write_out
write_out-ending header source files (next (h, c)) = elim (Bool-cases (is_ascii h)) [
  | inr e ↦ rw e refl
  | inl e ↦ elim (Bool-cases (is_ascii c)) [ inl f ↦ rw (e, f) refl | inr f ↦ rw (e, f) refl ]
]
write_out-ending header source files returned = refl
write_out-ending header source files (failed e) = refl

names_apart : (p k : Text) → text_eq (source_name p) k ≡ true → text_eq (header_name p) k ≡ false
names_apart p k e =
    endings_apart p (codes "_rawdata.cpp") (codes "_rawdata.h") k (unfold text_eq in refl) e

write_out-Holds :
    (header source : Text) (apart : (k : Text) → text_eq source k ≡ true → text_eq header k ≡ false)
    (files : Dict Text) (r : Flow (Text × Text))
    → Holds header source files
        (write_out header source (insert source [] (insert header [] files)) r).0
        r
unfolding write_out
write_out-Holds header source apart files (next (h, c)) name = elim (Bool-cases (is_ascii h)) [
  | inr e ↦ rw e (simp lookup-insert (ground arith))
  | inl e ↦ elim (Bool-cases (is_ascii c)) [
    | inl f ↦ rw (e, f) (simp lookup-insert (ground arith))
    | inr f ↦ rw (e, f) (simp lookup-insert (ground (arith, apart name)))
  ]
]
write_out-Holds header source apart files returned name = simp lookup-insert (ground arith)
write_out-Holds header source apart files (failed e) name = simp lookup-insert (ground arith)

-- Descriptors whose messages hold no dollar.
abbrev pub AreClean : List FileDescriptor → Type 0
AreClean g = All (λ (desc : FileDescriptor). All IsCleanMessage desc.message_type) g

-- `gen_code` leaves the specified texts, or an early end.
pub gen_code_lem :
    (g : List FileDescriptor) (p : Text) (lines : List Text) (d : Dict (List ℕ))
    (instruct : List Text) (desc : FileDescriptor) (files : Dict Text)
    → AreClean g
    → IsClean p lines desc
    → Holds
        (header_name p)
        (source_name p)
        files
        (gen_code g p lines d instruct desc files).0
        (spec_contents g p lines d instruct desc)
      × ((gen_code g p lines d instruct desc files).1
          ≡ ending (spec_contents g p lines d instruct desc))
unfolding gen_code
gen_code_lem g p lines d instruct desc files hg h =
    let spec = spec_contents g p lines d instruct desc in
    rw (gen_contents_lem g p lines d instruct desc hg h) (
      write_out-Holds (header_name p) (source_name p) (names_apart p) files spec,
      write_out-ending (header_name p) (source_name p) _ spec,
    )

module _ (platform : Text) (system : Text → Dict Text → Dict Text)
    (parse : Text → Result FileDescriptor) (g : List FileDescriptor) (p : Text) where
  get_includes_lem :
      {incs : List Text} {files files' : Dict Text} {descs : List FileDescriptor}
      → Fetches platform system parse incs files descs files'
      → get_includes platform system parse incs files ≡ (files', ok descs)
  unfolding get_includes
  get_includes_lem (done files) = refl
  get_includes_lem
        (fetch {name} {text} {names} {files} {files'} {desc} {descs} ascii found parsed rest) =
      rw ascii (
        ap (λ x. go x)
          (get_protodesc_lem platform system parse p name (file_stem name) text files desc found
            parsed)
        ∙ ap (λ x. behind x) (get_includes_lem rest))
    where
      go : Dict Text × Result FileDescriptor → Dict Text × Result (List FileDescriptor)
      go (files', raised e) = (files', raised e)
      go (files', ok desc) =
          let (files'', rest) = get_includes platform system parse names files' in
          (files'', rest >>= λ descs. ok (desc ∷ descs))

      behind : Dict Text × Result (List FileDescriptor) → Dict Text × Result (List FileDescriptor)
      behind (files'', rest) = (files'', rest >>= λ descs. ok (desc ∷ descs))

  -- The lines of a file with a message are not none.
  with_lines :
      (files : Dict Text) (lines : List Text) (d : Dict (List ℕ)) (instruct : List Text)
      → headers 0 lines ≢ []
      → with_proto platform system parse g p files (ok (some (lines, d, instruct)))
        ≡ with_desc platform system parse g p
            (lines, d, instruct)
            (get_protodesc platform system parse (p ++ codes ".proto") p files)
  unfolding with_proto headers
  with_lines files [] d instruct ne = absurd (ne refl)
  with_lines files (line ∷ lines) d instruct ne = refl

  -- The run up to `gen_code`.
  reaches :
      (files files' files'' : Dict Text) (text : Text) (d : Dict (List ℕ)) (instruct : List Text)
      (desc : FileDescriptor) (descs : List FileDescriptor)
      → lookup (p ++ codes ".proto") files ≡ some text
      → read_proto (readlines text) ≡ ok (some (readlines text, d, instruct))
      → headers 0 (readlines text) ≢ []
      → get_protodesc platform system parse (p ++ codes ".proto") p files ≡ (files', ok desc)
      → get_includes platform system parse desc.dependency files' ≡ (files'', ok descs)
      → handle_proto platform system parse g p files
        ≡ gen_code (g ++ (desc ∷ descs)) p (readlines text) d instruct desc files''
  unfolding handle_proto with_desc
  reaches files files' files'' text d instruct desc descs found reads ne own incs =
      rw (found, handle_proto, reads) (with_lines files (readlines text) d instruct ne)
      ∙ ap (with_desc platform system parse g p (readlines text, d, instruct)) own
      ∙ ap (λ x. go x) incs
    where
      go : Dict Text × Result (List FileDescriptor) → Dict Text × Flow (Unit {0})
      go (files', ok descs) =
          gen_code (g ++ (desc ∷ descs)) p (readlines text) d instruct desc files'
      go (files', raised e) = (files', failed e)

  -- A whole run on a proto file that has a message, no bad line and no two neighbouring messages of
  -- one name, where protoc and the runtime give the descriptors of the file and of every include, whose
  -- names are ASCII, and nothing that is read holds a dollar: with the ranges of the messages in the file as their places,
  -- and the descriptors of the file and of the includes behind those that are known, the source and the
  -- header hold the specified texts, or are empty where the specification fails; a text that is not
  -- ASCII, and a source behind such a header, is not written either; every other file is as the
  -- commands left it, one for the file and one for every include; and the run ends as the specification
  -- does, or with UnicodeEncodeError at a text that is not ASCII.
  pub handle_proto_writes :
      (files files' : Dict Text) (text pb2 : Text) (desc : FileDescriptor)
      (descs : List FileDescriptor)
      → lookup (p ++ codes ".proto") files ≡ some text
      → has_bad (readlines text) ≡ false
      → headers 0 (readlines text) ≢ []
      → alternate [] (headers 0 (readlines text)) ≡ true
      → lookup
          (p ++ codes "_pb2.py")
          (system (protoc_command platform system parse (p ++ codes ".proto")) files)
        ≡ some pb2
      → parse (serialized_pb (readlines pb2)) ≡ ok desc
      → Fetches platform system parse desc.dependency
          (system (protoc_command platform system parse (p ++ codes ".proto")) files)
          descs
          files'
      → IsClean p (readlines text) desc
      → AreClean (g ++ (desc ∷ descs))
      → (d : Dict (List ℕ)) × SameDict d
          (enter (ranges (headers 0 (readlines text)) (length (readlines text))) [])
        × Holds
            (header_name p)
            (source_name p)
            files'
            (handle_proto platform system parse g p files).0
            (spec_contents
              (g ++ (desc ∷ descs))
              p
              (readlines text)
              d
              (instructions (readlines text))
              desc)
        × ((handle_proto platform system parse g p files).1
            ≡ ending (
                spec_contents
                  (g ++ (desc ∷ descs))
                  p
                  (readlines text)
                  d
                  (instructions (readlines text))
                  desc))
  handle_proto_writes files files' text pb2 desc descs found good ne apart own parsed incs clean
        protos =
      let (d, reads, same) = read_proto_lem (readlines text) good ne apart in
      let run =
        reaches files _ files' text d (instructions (readlines text)) desc descs found reads ne
          (get_protodesc_lem platform system parse p (p ++ codes ".proto") p pb2 files desc own
            parsed)
          (get_includes_lem incs) in
      let done =
        gen_code_lem (g ++ (desc ∷ descs)) p (readlines text) d (instructions (readlines text)) desc
          files' protos clean in
      (d, same, rw run done.0, rw run done.1)
