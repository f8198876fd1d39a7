-- ===== src/Proto2conf/Driver.antt =====
-- `get_protodesc` of tools/proto2conf.py, which runs protoc twice, and `handle_proto` from its call on.
-- The platform's name, the effect of a command on the files and the protobuf runtime are parameters.
use yarf.Common.{
  ℕ, ◌≡◌, refl, ◌∙◌, false, Option, none, some, [], ◌++◌, ◌==◌, if◌then◌else◌, Result, ok, raised,
  io_error,
}
use yarf.Text.{Text, codes, text_eq}
use yarf.Dict.{Dict, lookup, insert, lookup-insert}
use yarf.Descriptor.{FileDescriptor}
use yarf.Util.{iswin}
use yarf.Proto2bin.Driver.{readlines, serialized_pb}
use yarf.Proto2conf.{collect, gen_root, handle_proto}

module _ (platform : Text) (system : Text → Dict Text → Dict Text)
    (parse : Text → Result FileDescriptor) where
  -- One of the two commands, by its output option.
  unfoldable pub protoc_command : Text → Text → Text
  protoc_command out file_name =
      if iswin platform == 0
      then codes "./protoc " ++ (out ++ (codes "=. " ++ (codes " ./" ++ file_name)))
      else codes "protoc.exe " ++ (out ++ (codes "=. " ++ (codes " ./" ++ file_name)))

  unfoldable pub get_protodesc : Text → Text → Dict Text → Dict Text × Result FileDescriptor
  get_protodesc file_name file_pre files =
      let files' =
        system (protoc_command (codes "--cpp_out") file_name)
          (system (protoc_command (codes "--python_out") file_name) files) in
      elim (lookup (file_pre ++ codes "_pb2.py") files')
        as (λ x. Dict Text × Result FileDescriptor) [
          | none ↦ (files', raised io_error)
          | some text ↦ (files', parse (serialized_pb (readlines text)))
        ]

  -- The whole of `handle_proto`: the files it leaves, and how it ends.
  unfoldable pub run : ℕ → Text → Text → Dict Text → Dict Text × Result (Unit {0})
  run depth file_pre root_conf files =
      let (files', desc) = get_protodesc (file_pre ++ codes ".proto") file_pre files in
      handle_proto depth desc file_pre root_conf files'

  module _ (k : Text)
      (untouched : (command : Text) (files : Dict Text)
        → lookup k (system command files) ≡ lookup k files) where
    get_protodesc_other :
        (file_name pre : Text) (files : Dict Text)
        → lookup k (get_protodesc file_name pre files).0 ≡ lookup k files
    unfolding get_protodesc
    get_protodesc_other file_name pre files = go (lookup (pre ++ codes "_pb2.py") after)
      where
        after : Dict Text
        after =
            system (protoc_command (codes "--cpp_out") file_name)
              (system (protoc_command (codes "--python_out") file_name) files)

        go :
            (o : Option Text)
            → lookup k
                (elim o as (λ x. Dict Text × Result FileDescriptor) [
                  | none ↦ (after, raised io_error)
                  | some text ↦ (after, parse (serialized_pb (readlines text)))
                ]).0
              ≡ lookup k files
        go none = untouched _ _ ∙ untouched _ files
        go (some text) = untouched _ _ ∙ untouched _ files

    handle_proto_other :
        (depth : ℕ) (desc : Result FileDescriptor) (file_pre root_conf : Text) (files : Dict Text)
        → text_eq (file_pre ++ codes ".pb.txt") k ≡ false
        → lookup k (handle_proto depth desc file_pre root_conf files).0 ≡ lookup k files
    unfolding handle_proto
    handle_proto_other depth (raised e) file_pre root_conf files h = refl
    handle_proto_other depth (ok desc) file_pre root_conf files h =
        go (gen_root depth (collect desc.message_type root_conf [] none))
      where
        go :
            (r : Result Text)
            → lookup k
                (elim r as (λ x. Dict Text × Result (Unit {0})) [
                  | ok output ↦ (insert (file_pre ++ codes ".pb.txt") output files, ok tt)
                  | raised e ↦ (files, raised e)
                ]).0
              ≡ lookup k files
        go (ok output) = rw (lookup-insert, h) refl
        go (raised e) = refl

    -- Where commands leave a file alone, and it is not the configuration that the tool writes, it is
    -- after a run what it was before, however the run ends.
    pub run_frame :
        (depth : ℕ) (file_pre root_conf : Text) (files : Dict Text)
        → text_eq (file_pre ++ codes ".pb.txt") k ≡ false
        → lookup k (run depth file_pre root_conf files).0 ≡ lookup k files
    unfolding run
    run_frame depth file_pre root_conf files h =
        handle_proto_other depth _ file_pre root_conf _ h
        ∙ get_protodesc_other (file_pre ++ codes ".proto") file_pre files
