-- ===== src/Proto2obj4pb/Driver/Frame.antt =====
-- Which files `handle_proto` of tools/proto2obj4pb.py leaves as they are.
use yarf.Common.{
  inl, inr, Bool-cases, ℕ, ◌≡◌, refl, ◌∙◌, false, Option, none, some, List, [], ◌∷◌, ◌++◌, Result,
  ok, raised, ◌>>=◌, Flow, next, returned, failed,
}
use yarf.Text.{Text, codes, text_eq, is_ascii}
use yarf.Dict.{Dict, lookup, insert}
use yarf.Descriptor.{FileDescriptor}
use yarf.Proto2bin.ReadProto.{Proto}
use yarf.Proto2bin.Driver.{readlines, get_protodesc}
use yarf.Proto2bin.Driver.Frame.{insert_other, get_protodesc_other}
use yarf.Proto2bin.GenCode.{file_stem}
use yarf.Proto2obj4pb.Reading.{read_proto}
use yarf.Proto2obj4pb.GenFile.{write_out, gen_contents, gen_code}
use yarf.Proto2obj4pb.Driver.{get_includes, with_desc, with_proto, handle_proto}

write_out_other :
    (header source k : Text) (files : Dict Text) (r : Flow (Text × Text))
    → text_eq header k ≡ false
    → text_eq source k ≡ false
    → lookup k (write_out header source files r).0 ≡ lookup k files
unfolding write_out
write_out_other header source k files (next (c, cc)) h s = elim (Bool-cases (is_ascii c)) [
  | inr e ↦ rw e refl
  | inl e ↦ elim (Bool-cases (is_ascii cc)) [
    | inl f ↦
        rw (e, f)
          (insert_other source k cc (insert header c files) s ∙ insert_other header k c files h)
    | inr f ↦ rw (e, f) (insert_other header k c files h)
  ]
]
write_out_other header source k files returned h s = refl
write_out_other header source k files (failed e) h s = refl

module _ (k file_pre : Text) (h : text_eq (file_pre ++ codes "_rawdata.h") k ≡ false)
    (s : text_eq (file_pre ++ codes "_rawdata.cpp") k ≡ false) where
  gen_code_other :
      (g : List FileDescriptor) (lines : List Text) (d : Dict (List ℕ)) (instruct : List Text)
      (desc : FileDescriptor) (files : Dict Text)
      → lookup k (gen_code g file_pre lines d instruct desc files).0 ≡ lookup k files
  unfolding gen_code
  gen_code_other g lines d instruct desc files =
      write_out_other _ _ k _ (gen_contents g file_pre lines d instruct desc) h s
      ∙ insert_other (file_pre ++ codes "_rawdata.cpp") k [] _ s
      ∙ insert_other (file_pre ++ codes "_rawdata.h") k [] files h

  module _ (platform : Text) (system : Text → Dict Text → Dict Text)
      (parse : Text → Result FileDescriptor)
      (untouched : (command : Text) (files : Dict Text)
        → lookup k (system command files) ≡ lookup k files) where
    get_includes_other :
        (incs : List Text) (files : Dict Text)
        → lookup k (get_includes platform system parse incs files).0 ≡ lookup k files
    unfolding get_includes
    get_includes_other [] files = refl
    get_includes_other (inc ∷ incs) files = elim (Bool-cases (is_ascii inc)) [
      | inr a ↦ rw a refl
      | inl a ↦ rw a (
          go (get_protodesc platform system parse inc (file_stem inc) files).1
            (get_protodesc_other k platform system parse untouched inc (file_stem inc) files)
            (get_includes_other incs
              (get_protodesc platform system parse inc (file_stem inc) files).0))
    ]
      where
        here : Dict Text
        here = (get_protodesc platform system parse inc (file_stem inc) files).0

        rest : Dict Text × Result (List FileDescriptor)
        rest = get_includes platform system parse incs here

        go :
            (r : Result FileDescriptor)
            → lookup k here ≡ lookup k files
            → lookup k rest.0 ≡ lookup k here
            → lookup k
                (elim r as (λ x. Dict Text × Result (List FileDescriptor)) [
                  | raised e ↦ (here, raised e)
                  | ok desc ↦ (rest.0, rest.1 >>= λ descs. ok (desc ∷ descs))
                ]).0
              ≡ lookup k files
        go (raised e) p q = p
        go (ok desc) p q = q ∙ p

    with_desc_other :
        (g : List FileDescriptor) (proto : Proto) (r : Dict Text × Result FileDescriptor)
        → lookup k (with_desc platform system parse g file_pre proto r).0 ≡ lookup k r.0
    unfolding with_desc
    with_desc_other g proto (files, raised e) = refl
    with_desc_other g (lines, d, instruct) (files, ok desc) =
        go (get_includes platform system parse desc.dependency files).1
        ∙ get_includes_other desc.dependency files
      where
        here : Dict Text
        here = (get_includes platform system parse desc.dependency files).0

        go :
            (r : Result (List FileDescriptor))
            → lookup k
                (elim r as (λ x. Dict Text × Flow (Unit {0})) [
                  | ok descs ↦ gen_code (g ++ (desc ∷ descs)) file_pre lines d instruct desc here
                  | raised e ↦ (here, failed e)
                ]).0
              ≡ lookup k here
        go (ok descs) = gen_code_other (g ++ (desc ∷ descs)) lines d instruct desc here
        go (raised e) = refl

    with_proto_other :
        (g : List FileDescriptor) (files : Dict Text) (r : Result (Option Proto))
        → lookup k (with_proto platform system parse g file_pre files r).0 ≡ lookup k files
    unfolding with_proto
    with_proto_other g files (raised e) = refl
    with_proto_other g files (ok none) = refl
    with_proto_other g files (ok (some ([], d, instruct))) = refl
    with_proto_other g files (ok (some (line ∷ lines, d, instruct))) =
        with_desc_other g (line ∷ lines, d, instruct) _
        ∙ get_protodesc_other k platform system parse untouched (file_pre ++ codes ".proto")
            file_pre files

    -- Where commands leave a file alone, and it is neither the header nor the source file that the
    -- tool writes, it is after a run what it was before, however the run ends.
    pub handle_proto_frame :
        (g : List FileDescriptor) (files : Dict Text)
        → lookup k (handle_proto platform system parse g file_pre files).0 ≡ lookup k files
    unfolding handle_proto
    handle_proto_frame g files = go (lookup (file_pre ++ codes ".proto") files)
      where
        go :
            (o : Option Text)
            → lookup k
                (elim o as (λ x. Dict Text × Flow (Unit {0})) [
                  | none ↦ (files, returned)
                  | some text ↦
                      with_proto platform system parse g file_pre files
                        (read_proto (readlines text))
                ]).0
              ≡ lookup k files
        go none = refl
        go (some text) = with_proto_other g files (read_proto (readlines text))
