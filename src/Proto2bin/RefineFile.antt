-- ===== src/Proto2bin/RefineFile.antt =====
-- `gen_code` of tools/proto2bin.py: the loops over fields, messages and includes, and the two texts.
use mathlib.Core.List.{append_assoc, append-nil}
use yarf.Common.{
  ℕ, ◌≡◌, refl, ◌∙◌, sym, ap, true, inl, inr, List, [], ◌∷◌, ◌++◌, arith, all, All, Bool-cases, ltb,
  length, if◌then◌else◌, Flow, next, returned, failed, unicode_decode_error,
}
use yarf.Common.Flows.{◌>>=◌, >>=-cong}
use yarf.Text.{Text, codes, text_eq, split, is_ascii}
use yarf.Template.{no_dollar, parse, render}
use yarf.Template.NoDollar.{split-no_dollar}
use yarf.Dict.{Dict}
use yarf.Descriptor.{Field, Message, FileDescriptor}
use yarf.Proto2bin.Ctype.{g_proto_ns}
use yarf.Proto2bin.Templates.{
  h_begin, h_ns_begin, h_class_begin, h_class_end, h_end, cc_begin, cc_encode_begin, cc_encode_end,
  cc_decode_begin, code_decode_end,
}
use yarf.Proto2bin.GenCode.{
  Contents, Source, gen_fields, gen_message, gen_messages, gen_includes, file_stem, namespace_of,
  gen_texts, gen_body, gen_contents,
}
use yarf.Proto2bin.Spec.{
  after, field_blocks, all_blocks, file_env, class_texts, all_classes, all_includes, file_texts,
  spec_texts, spec_body, spec_contents, beside,
}
use yarf.Proto2bin.Spec.FileBlocks.{
  include_text, begin_text, ns_text, class_begin_text, class_end_text, end_text, source_text,
  encode_text, decode_text,
}
use yarf.Proto2bin.Refine.{IsCleanField, ◌◂◌, gen_field_lem}

-- A message and a descriptor without dollars.
pub record IsCleanMessage (msg : Message) : Type 0 where
  pub name_clean : no_dollar msg.name ≡ true
  pub fields_clean : All IsCleanField msg.field

pub record IsClean (file_pre : Text) (lines : List Text) (desc : FileDescriptor) : Type 0 where
  pub pre_clean : no_dollar file_pre ≡ true
  pub lines_clean : all no_dollar lines ≡ true
  pub package_clean : no_dollar desc.package_name ≡ true
  pub includes_clean : all no_dollar desc.dependency ≡ true
  pub messages_clean : All IsCleanMessage desc.message_type

after_assoc : (c b d : Contents) → after (after c b) d ≡ after c (after b d)
after_assoc c b d = λ i. record {
  h_declare = append_assoc c.h_declare b.h_declare d.h_declare i;
  cc_encode = append_assoc c.cc_encode b.cc_encode d.cc_encode i;
  cc_decode = append_assoc c.cc_decode b.cc_decode d.cc_decode i;
}

after_nil : (c : Contents) → c ≡ after c (record { h_declare = []; cc_encode = []; cc_decode = [] })
after_nil c = λ i. record {
  h_declare = sym (append-nil c.h_declare) i;
  cc_encode = sym (append-nil c.cc_encode) i;
  cc_decode = sym (append-nil c.cc_decode) i;
}

-- The loop over the fields puts the blocks of all fields behind what is there.
pub gen_fields_lem :
    (s : Source) (fs : List Field) (c : Contents)
    → all no_dollar s.file_lines ≡ true
    → All IsCleanField fs
    → gen_fields s fs c ≡ (c ◂ all_blocks s fs)
unfolding gen_fields all_blocks
gen_fields_lem s [] c hl hf = ap next (after_nil c)
gen_fields_lem s (f ∷ fs) c hl hf =
    rw (gen_field_lem s f c hl hf.0)
      (go (λ b. gen_fields_lem s fs (after c b) hl hf.1) (field_blocks s f))
  where
    then_rest :
        (b : Contents) (r : Flow Contents) → (after c b ◂ r) ≡ (c ◂ (r >>= λ bs. next (after b bs)))
    then_rest b (next bs) = ap next (after_assoc c b bs)
    then_rest b returned = refl
    then_rest b (failed e) = refl

    go :
        ((b : Contents) → gen_fields s fs (after c b) ≡ (after c b ◂ all_blocks s fs))
        → (r : Flow Contents)
        → ((c ◂ r) >>= λ c'. gen_fields s fs c')
          ≡ (c ◂ (r >>= λ b. all_blocks s fs >>= λ bs. next (after b bs)))
    go ih (next b) = ih b ∙ then_rest b (all_blocks s fs)
    go ih returned = refl
    go ih (failed e) = refl

abbrev pair : Text → Text → Text × Text
pair a b = (a, b)

abbrev pub of_msg : List Text → Dict (List ℕ) → Message → Source
of_msg lines d msg = record { class_name = msg.name; file_lines = lines; struct_dict = d }

-- Texts put behind others, in two rounds or in one.
pub beside_lem :
    {A : Type 0} (this : A → Text × Text) (out : Text × Text) (r : Flow A)
    (rest : Flow (Text × Text)) (k : Text × Text → Flow (Text × Text))
    → ((o : Text × Text) → k o ≡ (rest >>= λ x. next (beside o x)))
    → ((r >>= λ a. next (beside out (this a))) >>= k)
      ≡ ((r >>= λ a. rest >>= λ x. next (beside (this a) x)) >>= λ x. next (beside out x))
beside_lem this out (next a) rest k h = h (beside out (this a)) ∙ go rest
  where
    go :
        (rest : Flow (Text × Text))
        → (rest >>= λ x. next (beside (beside out (this a)) x))
          ≡ ((rest >>= λ x. next (beside (this a) x)) >>= λ x. next (beside out x))
    go (next x) =
        ap next (λ i. (append_assoc out.0 (this a).0 x.0 i, append_assoc out.1 (this a).1 x.1 i))
    go returned = refl
    go (failed e) = refl
beside_lem this out returned rest k h = refl
beside_lem this out (failed e) rest k h = refl

module _ (lines : List Text) (d : Dict (List ℕ)) (p ns : Text) (hl : all no_dollar lines ≡ true)
    (hp : no_dollar p ≡ true) (hn : no_dollar ns ≡ true) where
  -- A round of the message loop appends the texts of the class.
  gen_message_lem :
      (msg : Message) (out : Text × Text)
      → IsCleanMessage msg
      → gen_message lines d ns msg out ≡ (
          all_blocks (of_msg lines d msg) msg.field >>= λ b.
          next (beside out (class_texts (file_env p ns msg.name) b)))
  unfolding gen_message class_texts
  gen_message_lem msg out hm =
      rw
        (
          class_begin_text p ns msg.name hp hn hm.name_clean,
          class_end_text p ns msg.name hp hn hm.name_clean,
          encode_text p ns msg.name hp hn hm.name_clean,
          decode_text p ns msg.name hp hn hm.name_clean,
          gen_fields_lem (of_msg lines d msg) msg.field _ hl hm.fields_clean,
        )
        (go (all_blocks (of_msg lines d msg) msg.field))
    where
      hb : Text
      hb = render (file_env p ns msg.name) (parse h_class_begin)

      he : Text
      he = render (file_env p ns msg.name) (parse h_class_end)

      eb : Text
      eb = render (file_env p ns msg.name) (parse cc_encode_begin)

      db : Text
      db = render (file_env p ns msg.name) (parse cc_decode_begin)

      go :
          (r : Flow Contents)
          → ((record { h_declare = hb; cc_encode = eb; cc_decode = db } ◂ r) >>= λ c. next (
              pair
                (out.0 ++ (c.h_declare ++ he))
                (out.1 ++ (c.cc_encode ++ cc_encode_end) ++ (c.cc_decode ++ code_decode_end))))
            ≡ (r >>= λ b. next (
                pair (out.0 ++ (hb ++ (b.h_declare ++ he))) (
                  out.1
                  ++ (eb
                      ++ (b.cc_encode
                          ++ (cc_encode_end ++ (db ++ (b.cc_decode ++ code_decode_end))))))))
      go (next b) = simp append_assoc
      go returned = refl
      go (failed e) = refl

  gen_messages_lem :
      (msgs : List Message) (out : Text × Text)
      → All IsCleanMessage msgs
      → gen_messages lines d ns msgs out
        ≡ (all_classes lines d p ns msgs >>= λ rest. next (beside out rest))
  unfolding gen_messages all_classes
  gen_messages_lem [] out hm = ap next (λ i. (sym (append-nil out.0) i, sym (append-nil out.1) i))
  gen_messages_lem (msg ∷ msgs) out hm = rw (gen_message_lem msg out hm.0) (
      beside_lem (λ b. class_texts (file_env p ns msg.name) b) out
        (all_blocks (of_msg lines d msg) msg.field) (all_classes lines d p ns msgs) _
        (λ o. gen_messages_lem msgs o hm.1))

pub file_stem-no_dollar : (inc : Text) → no_dollar inc ≡ true → no_dollar (file_stem inc) ≡ true
unfolding split
file_stem-no_dollar inc h = go (split (codes ".") inc) (split-no_dollar (codes ".") inc h)
  where
    go :
        (l : List Text) → all no_dollar l ≡ true → no_dollar (elim l [ [] ↦ [] | q ∷ _ ↦ q ]) ≡ true
    go [] h = unfold no_dollar in refl
    go (q ∷ l) h = ground arith

gen_includes_lem :
    (incs : List Text) (h : Text)
    → all no_dollar incs ≡ true
    → gen_includes incs h ≡ h ++ all_includes incs
unfolding gen_includes all_includes
gen_includes_lem [] h hi = sym (append-nil h)
gen_includes_lem (inc ∷ incs) h hi =
    gen_includes_lem incs _ (ground arith)
    ∙ rw (include_text (file_stem inc) (file_stem-no_dollar inc (ground arith)))
        (append_assoc h _ (all_includes incs))

pub namespace_of-no_dollar :
    (pkg : Text) {ns : Text}
    → no_dollar pkg ≡ true
    → namespace_of pkg ≡ next ns
    → no_dollar ns ≡ true
unfolding namespace_of
namespace_of-no_dollar pkg {ns} h e =
    go (split (codes ".") pkg) (split-no_dollar (codes ".") pkg h) e
  where
    go :
        (l : List Text)
        → all no_dollar l ≡ true
        → (elim l [
          | top ∷ s ∷ _ ↦ if text_eq g_proto_ns top then next s else returned
          | _ ↦ returned
        ])
          ≡ next ns
        → no_dollar ns ≡ true
    go [] h e = cc
    go (q ∷ []) h e = cc
    go (q ∷ s ∷ l) h e = ground arith

texts_lem :
    (p : Text) (lines : List Text) (d : Dict (List ℕ)) (desc : FileDescriptor) (ns : Text)
    → IsClean p lines desc
    → no_dollar ns ≡ true
    → gen_texts p lines d desc ns ≡ spec_texts p lines d desc ns
unfolding gen_texts spec_texts file_texts
texts_lem p lines d desc ns h hn =
    rw
      (
        begin_text p ns [] h.pre_clean hn empty_clean,
        ns_text p ns [] h.pre_clean hn empty_clean,
        source_text p ns [] h.pre_clean hn empty_clean,
        end_text p ns [] h.pre_clean hn empty_clean,
        gen_includes_lem desc.dependency _ h.includes_clean,
        gen_messages_lem lines d p ns h.lines_clean h.pre_clean hn desc.message_type _
            h.messages_clean,
      )
      (go (all_classes lines d p ns desc.message_type))
  where
    empty_clean : no_dollar [] ≡ true
    empty_clean = unfold no_dollar in refl

    hb : Text
    hb = render (file_env p ns []) (parse h_begin)

    nb : Text
    nb = render (file_env p ns []) (parse h_ns_begin)

    he : Text
    he = render (file_env p ns []) (parse h_end)

    cb : Text
    cb = render (file_env p ns []) (parse cc_begin)

    inc : Text
    inc = all_includes desc.dependency

    go :
        (r : Flow (Text × Text))
        → ((r >>= λ rest. next (beside (pair ((hb ++ inc) ++ nb) cb) rest)) >>= λ o.
            next (pair (o.0 ++ he) o.1))
          ≡ (r >>= λ c. next (pair (hb ++ (inc ++ (nb ++ (c.0 ++ he)))) (cb ++ c.1)))
    go (next c) = simp append_assoc
    go returned = refl
    go (failed e) = refl

body_lem :
    (p : Text) (lines : List Text) (d : Dict (List ℕ)) (desc : FileDescriptor) (ns : Text)
    → IsClean p lines desc
    → no_dollar ns ≡ true
    → gen_body p lines d desc ns ≡ spec_body p lines d desc ns
unfolding gen_body spec_body
body_lem p lines d desc ns h hn =
    ap (λ x. if is_ascii p then x else failed unicode_decode_error)
      (texts_lem p lines d desc ns h hn)

-- On inputs without dollars the code computes the specified texts, and on every failure it ends as
-- the specification does.
pub gen_contents_lem :
    (p : Text) (lines : List Text) (d : Dict (List ℕ)) (instruct : List Text)
    (desc : FileDescriptor)
    → IsClean p lines desc
    → gen_contents p lines d instruct desc ≡ spec_contents p lines d instruct desc
unfolding gen_contents spec_contents
gen_contents_lem p lines d instruct desc h = elim (Bool-cases (ltb (length instruct) 2)) [
  | inl e ↦ rw e
  | inr e ↦ rw e (
      >>=-cong (namespace_of desc.package_name) _ _ λ ns q.
        body_lem p lines d desc ns h (namespace_of-no_dollar desc.package_name h.package_clean q))
]
