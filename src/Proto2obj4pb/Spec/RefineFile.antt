-- ===== src/Proto2obj4pb/Spec/RefineFile.antt =====
-- `gen_code` of tools/proto2obj4pb.py: the loops over messages and includes, and the two texts.
use mathlib.Core.List.{append_assoc, append-nil}
use yarf.Common.{
  ℕ, ◌≡◌, refl, ◌∙◌, sym, ap, true, inl, inr, List, [], ◌∷◌, ◌++◌, arith, all, All, Bool-cases, ltb,
  length, Flow, next, returned, failed, unicode_decode_error, if◌then◌else◌,
}
use yarf.Common.Flows.{◌>>=◌, >>=-cong}
use yarf.Text.{is_ascii, Text}
use yarf.Template.{no_dollar, parse, render}
use yarf.Dict.{Dict}
use yarf.Descriptor.{Message, FileDescriptor}
use yarf.Proto2bin.GenCode.{file_stem, namespace_of}
use yarf.Proto2bin.Spec.{file_env, beside}
use yarf.Proto2bin.RefineFile.{
  beside_lem, IsClean, IsCleanMessage, file_stem-no_dollar, namespace_of-no_dollar,
}
use yarf.Proto2obj4pb.Templates.{
  h_begin, h_ns_begin, h_class_begin, h_class_end, h_end, cc_begin, cc_encode_begin, cc_encode_end,
  cc_decode_begin, code_decode_end,
}
use yarf.Proto2obj4pb.GenCode.{Contents}
use yarf.Proto2obj4pb.GenFile.{
  of_msg, add_class, class_begin, gen_message, gen_messages, gen_includes, gen_texts, gen_body,
  gen_contents,
}
use yarf.Proto2obj4pb.Spec.{all_blocks}
use yarf.Proto2obj4pb.Spec.Refine.{◌◂◌, IsCleanSource}
use yarf.Proto2obj4pb.Spec.RefineField.{gen_fields_lem}
use yarf.Proto2obj4pb.Spec.FileTexts.{
  class_texts, class_of, all_classes, all_includes, file_texts, spec_texts, spec_body,
  spec_contents,
}
use yarf.Proto2obj4pb.Spec.FileBlocks.{
  include_text, begin_text, ns_text, class_begin_text, class_end_text, end_text, source_text,
  encode_text, decode_text,
}

abbrev pair : Text → Text → Text × Text
pair a b = (a, b)

module _ (g : List FileDescriptor) (p : Text) (lines : List Text) (d : Dict (List ℕ)) (ns : Text)
    (hg : All (λ (desc : FileDescriptor). All IsCleanMessage desc.message_type) g)
    (hp : no_dollar p ≡ true) (hl : all no_dollar lines ≡ true) (hn : no_dollar ns ≡ true) where
  of_msg-IsCleanSource :
      (msg : Message) → IsCleanMessage msg → IsCleanSource (of_msg g lines d ns msg)
  of_msg-IsCleanSource msg h = record {
    ns_clean = hn;
    class_clean = h.name_clean;
    lines_clean = hl;
    protos_clean = hg;
  }

  -- A round of the message loop appends the texts of the class.
  gen_message_lem :
      (msg : Message) (out : Text × Text)
      → IsCleanMessage msg
      → gen_message g lines d ns msg out
        ≡ (class_of g p lines d ns msg >>= λ t. next (beside out t))
  unfolding gen_message class_begin add_class class_texts class_of
  gen_message_lem msg out hm =
      rw
        (
          class_begin_text p ns msg.name hp hn hm.name_clean,
          class_end_text p ns msg.name hp hn hm.name_clean,
          encode_text p ns msg.name hp hn hm.name_clean,
          decode_text p ns msg.name hp hn hm.name_clean,
          gen_fields_lem (of_msg g lines d ns msg) msg.field _ (of_msg-IsCleanSource msg hm)
              hm.fields_clean,
        )
        (go (all_blocks (of_msg g lines d ns msg) msg.field))
    where
      hb : Text
      hb = render (file_env p ns msg.name) (parse h_class_begin)

      he : Text
      he = render (file_env p ns msg.name) (parse h_class_end)

      eb : Text
      eb = render (file_env p ns msg.name) (parse cc_encode_begin)

      db : Text
      db = render (file_env p ns msg.name) (parse cc_decode_begin)

      go :
          (r : Flow Contents)
          → ((record { h_declare = hb; cc_encode = eb; cc_decode = db; cc_opt = [] } ◂ r) >>= λ c.
              next (
                pair (out.0 ++ (c.h_declare ++ he)) (
                  ((out.1 ++ c.cc_opt) ++ (c.cc_encode ++ cc_encode_end))
                  ++ (c.cc_decode ++ code_decode_end))))
            ≡ ((r >>= λ b. next (
                  pair (hb ++ (b.h_declare ++ he)) (
                    b.cc_opt
                    ++ (eb
                        ++ (b.cc_encode
                            ++ (cc_encode_end ++ (db ++ (b.cc_decode ++ code_decode_end))))))))
                >>= λ t. next (beside out t))
      go (next b) = simp append_assoc
      go returned = refl
      go (failed e) = refl

  gen_messages_lem :
      (msgs : List Message) (out : Text × Text)
      → All IsCleanMessage msgs
      → gen_messages g lines d ns msgs out
        ≡ (all_classes g p lines d ns msgs >>= λ rest. next (beside out rest))
  unfolding gen_messages all_classes
  gen_messages_lem [] out hm = ap next (λ i. (sym (append-nil out.0) i, sym (append-nil out.1) i))
  gen_messages_lem (msg ∷ msgs) out hm = rw (gen_message_lem msg out hm.0) (
      beside_lem (λ t. t) out (class_of g p lines d ns msg) (all_classes g p lines d ns msgs) _
        (λ o. gen_messages_lem msgs o hm.1))

gen_includes_lem :
    (incs : List Text) (h : Text)
    → all no_dollar incs ≡ true
    → gen_includes incs h ≡ h ++ all_includes incs
unfolding gen_includes all_includes
gen_includes_lem [] h hi = sym (append-nil h)
gen_includes_lem (inc ∷ incs) h hi =
    gen_includes_lem incs _ (ground arith)
    ∙ rw (include_text (file_stem inc) (file_stem-no_dollar inc (ground arith)))
        (append_assoc h _ (all_includes incs))

module _ (g : List FileDescriptor) (p : Text) (lines : List Text) (d : Dict (List ℕ)) where
  texts_lem :
      (desc : FileDescriptor) (ns : Text)
      → All (λ (desc : FileDescriptor). All IsCleanMessage desc.message_type) g
      → IsClean p lines desc
      → no_dollar ns ≡ true
      → gen_texts g p lines d desc ns ≡ spec_texts g p lines d desc ns
  unfolding gen_texts spec_texts file_texts
  texts_lem desc ns hg h hn =
      rw
        (
          begin_text p ns [] h.pre_clean hn empty_clean,
          ns_text p ns [] h.pre_clean hn empty_clean,
          source_text p ns [] h.pre_clean hn empty_clean,
          end_text p ns [] h.pre_clean hn empty_clean,
          gen_includes_lem desc.dependency _ h.includes_clean,
          gen_messages_lem g p lines d ns hg h.pre_clean h.lines_clean hn desc.message_type _
              h.messages_clean,
        )
        (go (all_classes g p lines d ns desc.message_type))
    where
      empty_clean : no_dollar [] ≡ true
      empty_clean = unfold no_dollar in refl

      hb : Text
      hb = render (file_env p ns []) (parse h_begin)

      nb : Text
      nb = render (file_env p ns []) (parse h_ns_begin)

      he : Text
      he = render (file_env p ns []) (parse h_end)

      cb : Text
      cb = render (file_env p ns []) (parse cc_begin)

      inc : Text
      inc = all_includes desc.dependency

      go :
          (r : Flow (Text × Text))
          → ((r >>= λ rest. next (beside (pair ((hb ++ inc) ++ nb) cb) rest)) >>= λ o.
              next (pair (o.0 ++ he) o.1))
            ≡ (r >>= λ c. next (pair (hb ++ (inc ++ (nb ++ (c.0 ++ he)))) (cb ++ c.1)))
      go (next c) = simp append_assoc
      go returned = refl
      go (failed e) = refl

  body_lem :
      (desc : FileDescriptor) (ns : Text)
      → All (λ (desc : FileDescriptor). All IsCleanMessage desc.message_type) g
      → IsClean p lines desc
      → no_dollar ns ≡ true
      → gen_body g p lines d desc ns ≡ spec_body g p lines d desc ns
  unfolding gen_body spec_body
  body_lem desc ns hg h hn =
      ap (λ x. if is_ascii p then x else failed unicode_decode_error) (texts_lem desc ns hg h hn)

  -- On inputs without dollars the code computes the specified texts, and on every failure it ends as
  -- the specification does.
  pub gen_contents_lem :
      (instruct : List Text) (desc : FileDescriptor)
      → All (λ (desc : FileDescriptor). All IsCleanMessage desc.message_type) g
      → IsClean p lines desc
      → gen_contents g p lines d instruct desc ≡ spec_contents g p lines d instruct desc
  unfolding gen_contents spec_contents
  gen_contents_lem instruct desc hg h = elim (Bool-cases (ltb (length instruct) 2)) [
    | inl e ↦ rw e
    | inr e ↦ rw e (
        >>=-cong (namespace_of desc.package_name) _ _ λ ns q.
          body_lem desc ns hg h (namespace_of-no_dollar desc.package_name h.package_clean q))
  ]
