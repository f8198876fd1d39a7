-- ===== src/Proto2bin/FilledFile.antt =====
-- The two files that tools/proto2bin.py generates hold no open place.
use yarf.Common.{
  ℕ, ◌≡◌, refl, ◌∙◌, sym, true, inl, inr, List, [], ◌∷◌, arith, all, All, Bool-cases, ltb, length,
  next,
}
use yarf.Common.Flows.{◌>>=◌}
use yarf.Text.{Text, codes, text_eq, is_ascii}
use yarf.Template.{no_dollar, is_clear, is_clear_after, is_key, separates, parse, render}
use yarf.Template.Render.{is_clean, binds, is_bound, render-no_dollar, no_dollar-append, join_clean}
use yarf.Dict.{Dict}
use yarf.Descriptor.{Message, FileDescriptor}
use yarf.Proto2bin.Templates.{
  h_begin, h_include, h_ns_begin, h_class_begin, h_class_end, h_end, cc_begin, cc_encode_begin,
  cc_encode_end, cc_decode_begin, code_decode_end,
}
use yarf.Proto2bin.GenCode.{Contents, file_stem, namespace_of, gen_contents}
use yarf.Proto2bin.Spec.{
  file_env, class_texts, all_blocks, all_classes, all_includes, file_texts, spec_texts, spec_body,
  spec_contents, beside,
}
use yarf.Proto2bin.Spec.FileBlocks.{file_clean}
use yarf.Proto2bin.RefineFile.{
  IsClean, IsCleanMessage, of_msg, namespace_of-no_dollar, file_stem-no_dollar, gen_contents_lem,
}
use yarf.Proto2bin.Filled.{IsFilled, Filled, Filled-bind, Filled-at, all_blocks-IsFilled}

-- Both texts of a pair.
pub record AreFilled (t : Text × Text) : Type 0 where
  pub first : no_dollar t.0 ≡ true
  pub second : no_dollar t.1 ≡ true

include_filled :
    (p : Text)
    → no_dollar p ≡ true
    → no_dollar (render ((codes "file_pre", p) ∷ []) (parse h_include)) ≡ true
unfolding parse h_include text_eq binds is_bound is_clear is_clear_after no_dollar is_key separates
    is_clean
include_filled p h = render-no_dollar _ (parse h_include) (ground arith) refl refl

encode_end_clean : no_dollar cc_encode_end ≡ true
unfolding no_dollar cc_encode_end
encode_end_clean = refl

decode_end_clean : no_dollar code_decode_end ≡ true
unfolding no_dollar code_decode_end
decode_end_clean = refl

beside-AreFilled : (a b : Text × Text) → AreFilled a → AreFilled b → AreFilled (beside a b)
beside-AreFilled a b ha hb = record {
  first = ground (arith, no_dollar-append a.0 b.0);
  second = ground (arith, no_dollar-append a.1 b.1);
}

module _ (p ns cls : Text) (clean : is_clean (file_env p ns cls) ≡ true) where
  begin_filled : no_dollar (render (file_env p ns cls) (parse h_begin)) ≡ true
  unfolding parse h_begin text_eq binds is_bound is_clear is_clear_after no_dollar is_key separates
  begin_filled = render-no_dollar (file_env p ns cls) (parse h_begin) clean refl refl

  namespace_filled : no_dollar (render (file_env p ns cls) (parse h_ns_begin)) ≡ true
  unfolding parse h_ns_begin text_eq binds is_bound is_clear is_clear_after no_dollar is_key
      separates
  namespace_filled = render-no_dollar (file_env p ns cls) (parse h_ns_begin) clean refl refl

  class_begin_filled : no_dollar (render (file_env p ns cls) (parse h_class_begin)) ≡ true
  unfolding parse h_class_begin text_eq binds is_bound is_clear is_clear_after no_dollar is_key
      separates
  class_begin_filled = render-no_dollar (file_env p ns cls) (parse h_class_begin) clean refl refl

  class_end_filled : no_dollar (render (file_env p ns cls) (parse h_class_end)) ≡ true
  unfolding parse h_class_end text_eq binds is_bound is_clear is_clear_after no_dollar is_key
      separates
  class_end_filled = render-no_dollar (file_env p ns cls) (parse h_class_end) clean refl refl

  end_filled : no_dollar (render (file_env p ns cls) (parse h_end)) ≡ true
  unfolding parse h_end text_eq binds is_bound is_clear is_clear_after no_dollar is_key separates
  end_filled = render-no_dollar (file_env p ns cls) (parse h_end) clean refl refl

  source_filled : no_dollar (render (file_env p ns cls) (parse cc_begin)) ≡ true
  unfolding parse cc_begin text_eq binds is_bound is_clear is_clear_after no_dollar is_key separates
  source_filled = render-no_dollar (file_env p ns cls) (parse cc_begin) clean refl refl

  encode_filled : no_dollar (render (file_env p ns cls) (parse cc_encode_begin)) ≡ true
  unfolding parse cc_encode_begin text_eq binds is_bound is_clear is_clear_after no_dollar is_key
      separates
  encode_filled = render-no_dollar (file_env p ns cls) (parse cc_encode_begin) clean refl refl

  decode_filled : no_dollar (render (file_env p ns cls) (parse cc_decode_begin)) ≡ true
  unfolding parse cc_decode_begin text_eq binds is_bound is_clear is_clear_after no_dollar is_key
      separates
  decode_filled = render-no_dollar (file_env p ns cls) (parse cc_decode_begin) clean refl refl

  class_texts-AreFilled :
      (b : Contents) → IsFilled b → AreFilled (class_texts (file_env p ns cls) b)
  unfolding class_texts
  class_texts-AreFilled b h = record {
    first = join_clean _ _ class_begin_filled (join_clean _ _ h.h_filled class_end_filled);
    second = join_clean _ _ encode_filled (
        join_clean _ _ h.e_filled (
          join_clean cc_encode_end _ encode_end_clean
            (join_clean _ _ decode_filled (join_clean _ _ h.d_filled decode_end_clean))));
  }

  file_texts-AreFilled :
      (includes : Text) (c : Text × Text)
      → no_dollar includes ≡ true
      → AreFilled c
      → AreFilled (file_texts (file_env p ns cls) includes c)
  unfolding file_texts
  file_texts-AreFilled includes c hi hc = record {
    first =
        join_clean _ _ begin_filled (
          join_clean _ _ hi (join_clean _ _ namespace_filled (join_clean _ _ hc.first end_filled)));
    second = join_clean _ _ source_filled hc.second;
  }

all_classes-AreFilled :
    (lines : List Text) (d : Dict (List ℕ)) (p ns : Text) (msgs : List Message)
    → all no_dollar lines ≡ true
    → no_dollar p ≡ true
    → no_dollar ns ≡ true
    → All IsCleanMessage msgs
    → Filled AreFilled (all_classes lines d p ns msgs)
unfolding all_classes
all_classes-AreFilled lines d p ns [] hl hp hn hm =
    unfold no_dollar in record { first = refl; second = refl }
all_classes-AreFilled lines d p ns (msg ∷ msgs) hl hp hn hm =
    go (all_blocks-IsFilled (of_msg lines d msg) msg.field hl (hm.0).fields_clean)
      (all_classes-AreFilled lines d p ns msgs hl hp hn hm.1)
  where
    go :
        Filled IsFilled (all_blocks (of_msg lines d msg) msg.field)
        → Filled AreFilled (all_classes lines d p ns msgs)
        → Filled AreFilled (
            all_blocks (of_msg lines d msg) msg.field >>= λ b.
            all_classes lines d p ns msgs >>= λ rest.
            next (beside (class_texts (file_env p ns msg.name) b) rest))
    go hb hr = Filled-bind AreFilled (all_blocks (of_msg lines d msg) msg.field) _ λ b e.
        Filled-bind AreFilled (all_classes lines d p ns msgs) _ λ rest e'.
          beside-AreFilled _ rest
            (class_texts-AreFilled p ns msg.name (file_clean p ns msg.name hp hn (hm.0).name_clean)
              b (Filled-at IsFilled _ hb e))
            (Filled-at AreFilled _ hr e')

all_includes-no_dollar :
    (incs : List Text) → all no_dollar incs ≡ true → no_dollar (all_includes incs) ≡ true
unfolding all_includes
all_includes-no_dollar [] h = unfold no_dollar in refl
all_includes-no_dollar (inc ∷ incs) h =
    join_clean _ _ (include_filled (file_stem inc) (file_stem-no_dollar inc (ground arith)))
      (all_includes-no_dollar incs (ground arith))

-- What the generator writes on inputs without dollars holds no dollar: no place is left open.
pub gen_contents-AreFilled :
    (p : Text) (lines : List Text) (d : Dict (List ℕ)) (instruct : List Text)
    (desc : FileDescriptor) (out : Text × Text)
    → IsClean p lines desc
    → gen_contents p lines d instruct desc ≡ next out
    → AreFilled out
gen_contents-AreFilled p lines d instruct desc out h e =
    Filled-at AreFilled (spec_contents p lines d instruct desc) spec_filled
      (sym (gen_contents_lem p lines d instruct desc h) ∙ e)
  where
    empty_clean : no_dollar [] ≡ true
    empty_clean = unfold no_dollar in refl

    texts_filled :
        (ns : Text) → no_dollar ns ≡ true → Filled AreFilled (spec_texts p lines d desc ns)
    texts_filled ns hn =
        unfold spec_texts in
        Filled-bind AreFilled (all_classes lines d p ns desc.message_type) _ λ c q.
          file_texts-AreFilled p ns [] (file_clean p ns [] h.pre_clean hn empty_clean) _ c
            (all_includes-no_dollar desc.dependency h.includes_clean)
            (Filled-at AreFilled _
              (all_classes-AreFilled lines d p ns desc.message_type h.lines_clean h.pre_clean hn
                h.messages_clean)
              q)

    body_filled : (ns : Text) → no_dollar ns ≡ true → Filled AreFilled (spec_body p lines d desc ns)
    body_filled ns hn =
        unfold spec_body in
        elim (Bool-cases (is_ascii p)) [ inl t ↦ rw t (texts_filled ns hn) | inr t ↦ rw t tt ]

    spec_filled : Filled AreFilled (spec_contents p lines d instruct desc)
    spec_filled =
        unfold spec_contents in
        elim (Bool-cases (ltb (length instruct) 2)) [
          | inl t ↦ rw t tt
          | inr t ↦ rw t (
              Filled-bind AreFilled (namespace_of desc.package_name) _
                λ ns q. body_filled ns (namespace_of-no_dollar desc.package_name h.package_clean q))
        ]
