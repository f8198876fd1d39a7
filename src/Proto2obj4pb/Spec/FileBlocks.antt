-- ===== src/Proto2obj4pb/Spec/FileBlocks.antt =====
-- The chains of `replace` calls outside the fields, in `gen_code` of tools/proto2obj4pb.py.
use yarf.Common.{◌≡◌, refl, true, [], ◌∷◌, arith}
use yarf.Text.{Text, codes, text_eq}
use yarf.Template.{
  parse, render, value_of, replaces, is_clear, is_clear_after, is_key, separates, no_dollar,
}
use yarf.Template.Render.{is_clean, replaces_lem}
use yarf.Proto2obj4pb.Templates.{
  h_begin, h_include, h_ns_begin, h_class_begin, h_class_end, h_end, cc_begin, cc_encode_begin,
  cc_decode_begin,
}
use yarf.Proto2bin.Spec.{file_env}
use yarf.Proto2bin.Spec.FileBlocks.{macro_of, file_clean}

pub include_text :
    (p : Text)
    → no_dollar p ≡ true
    → replaces ((codes "file_pre", p) ∷ []) h_include
      ≡ render ((codes "file_pre", p) ∷ []) (parse h_include)
unfolding is_clean
include_text p hp =
    replaces_lem _ _ (ground arith)
      (unfold is_clear parse is_clear_after no_dollar is_key separates h_include in refl)

module _ (p ns cls : Text) (hp : no_dollar p ≡ true) (hn : no_dollar ns ≡ true)
    (hc : no_dollar cls ≡ true) where
  pub begin_text :
      replaces ((codes "macro", macro_of p ns) ∷ (codes "file_pre", p) ∷ []) h_begin
      ≡ render (file_env p ns cls) (parse h_begin)
  unfolding render parse h_begin value_of text_eq is_clean is_clear is_clear_after no_dollar is_key
      separates
  begin_text = replaces_lem _ _ (ground (arith, file_clean p ns cls hp hn hc)) refl

  pub ns_text :
      replaces ((codes "ns", ns) ∷ []) h_ns_begin ≡ render (file_env p ns cls) (parse h_ns_begin)
  unfolding render parse h_ns_begin value_of text_eq is_clean is_clear is_clear_after no_dollar
      is_key separates
  ns_text = replaces_lem _ _ (ground (arith, file_clean p ns cls hp hn hc)) refl

  pub class_begin_text :
      replaces ((codes "class_name", cls) ∷ []) h_class_begin
      ≡ render (file_env p ns cls) (parse h_class_begin)
  unfolding render parse h_class_begin value_of text_eq is_clean is_clear is_clear_after no_dollar
      is_key separates
  class_begin_text = replaces_lem _ _ (ground (arith, file_clean p ns cls hp hn hc)) refl

  pub class_end_text :
      replaces ((codes "class_name", cls) ∷ (codes "ns", ns) ∷ []) h_class_end
      ≡ render (file_env p ns cls) (parse h_class_end)
  unfolding render parse h_class_end value_of text_eq is_clean is_clear is_clear_after no_dollar
      is_key separates
  class_end_text = replaces_lem _ _ (ground (arith, file_clean p ns cls hp hn hc)) refl

  pub end_text :
      replaces ((codes "ns", ns) ∷ (codes "macro", macro_of p ns) ∷ []) h_end
      ≡ render (file_env p ns cls) (parse h_end)
  unfolding render parse h_end value_of text_eq is_clean is_clear is_clear_after no_dollar is_key
      separates
  end_text = replaces_lem _ _ (ground (arith, file_clean p ns cls hp hn hc)) refl

  pub source_text :
      replaces ((codes "file_pre", p) ∷ []) cc_begin ≡ render (file_env p ns cls) (parse cc_begin)
  unfolding render parse cc_begin value_of text_eq is_clean is_clear is_clear_after no_dollar is_key
      separates
  source_text = replaces_lem _ _ (ground (arith, file_clean p ns cls hp hn hc)) refl

  pub encode_text :
      replaces ((codes "ns", ns) ∷ (codes "class_name", cls) ∷ []) cc_encode_begin
      ≡ render (file_env p ns cls) (parse cc_encode_begin)
  unfolding render parse cc_encode_begin value_of text_eq is_clean is_clear is_clear_after no_dollar
      is_key separates
  encode_text = replaces_lem _ _ (ground (arith, file_clean p ns cls hp hn hc)) refl

  pub decode_text :
      replaces ((codes "ns", ns) ∷ (codes "class_name", cls) ∷ []) cc_decode_begin
      ≡ render (file_env p ns cls) (parse cc_decode_begin)
  unfolding render parse cc_decode_begin value_of text_eq is_clean is_clear is_clear_after no_dollar
      is_key separates
  decode_text = replaces_lem _ _ (ground (arith, file_clean p ns cls hp hn hc)) refl
