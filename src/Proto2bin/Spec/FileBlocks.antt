-- ===== src/Proto2bin/Spec/FileBlocks.antt =====
-- The chains of `replace` calls outside the fields, in `gen_code` of tools/proto2bin.py.
use yarf.Common.{◌≡◌, refl, true, [], ◌∷◌, ◌++◌, arith}
use yarf.Text.{Text, codes, text_eq, upper}
use yarf.Template.{
  parse, render, value_of, replaces, is_clear, is_clear_after, is_key, separates, no_dollar,
}
use yarf.Template.Render.{is_clean, replaces_lem, no_dollar-append}
use yarf.Template.NoDollar.{upper-no_dollar}
use yarf.Proto2bin.Templates.{
  h_begin, h_include, h_ns_begin, h_class_begin, h_class_end, h_end, cc_begin, cc_encode_begin,
  cc_decode_begin,
}
use yarf.Proto2bin.Spec.{file_env}

abbrev pub macro_of : Text → Text → Text
macro_of file_pre ns = upper ns ++ (codes "_" ++ (upper file_pre ++ codes "_RAWDATA_H_"))

pub macro-no_dollar :
    (p ns : Text) → no_dollar p ≡ true → no_dollar ns ≡ true → no_dollar (macro_of p ns) ≡ true
macro-no_dollar p ns hp hn = ground (
  arith,
  no_dollar-append (upper ns) (codes "_" ++ (upper p ++ codes "_RAWDATA_H_")),
  no_dollar-append (codes "_") (upper p ++ codes "_RAWDATA_H_"),
  no_dollar-append (upper p) (codes "_RAWDATA_H_"),
  upper-no_dollar p,
  upper-no_dollar ns,
  bar,
  tail,
)
  where
    bar : no_dollar (codes "_") ≡ true
    bar = unfold no_dollar in refl

    tail : no_dollar (codes "_RAWDATA_H_") ≡ true
    tail = unfold no_dollar in refl

pub include_text :
    (p : Text)
    → no_dollar p ≡ true
    → replaces ((codes "file_pre", p) ∷ []) h_include
      ≡ render ((codes "file_pre", p) ∷ []) (parse h_include)
unfolding is_clean
include_text p hp =
    replaces_lem _ _ (ground arith)
      (unfold is_clear parse is_clear_after no_dollar is_key separates h_include in refl)

module _ (p ns cls : Text) (hp : no_dollar p ≡ true) (hn : no_dollar ns ≡ true)
    (hc : no_dollar cls ≡ true) where
  pub file_clean : is_clean (file_env p ns cls) ≡ true
  unfolding is_clean
  file_clean = ground (arith, macro-no_dollar p ns)

  pub begin_text :
      replaces ((codes "macro", macro_of p ns) ∷ (codes "file_pre", p) ∷ []) h_begin
      ≡ render (file_env p ns cls) (parse h_begin)
  unfolding render parse h_begin value_of text_eq is_clean is_clear is_clear_after no_dollar is_key
      separates
  begin_text = replaces_lem _ _ (ground (arith, file_clean)) refl

  pub ns_text :
      replaces ((codes "ns", ns) ∷ []) h_ns_begin ≡ render (file_env p ns cls) (parse h_ns_begin)
  unfolding render parse h_ns_begin value_of text_eq is_clean is_clear is_clear_after no_dollar
      is_key separates
  ns_text = replaces_lem _ _ (ground (arith, file_clean)) refl

  pub class_begin_text :
      replaces ((codes "class_name", cls) ∷ []) h_class_begin
      ≡ render (file_env p ns cls) (parse h_class_begin)
  unfolding render parse h_class_begin value_of text_eq is_clean is_clear is_clear_after no_dollar
      is_key separates
  class_begin_text = replaces_lem _ _ (ground (arith, file_clean)) refl

  pub class_end_text :
      replaces ((codes "class_name", cls) ∷ (codes "ns", ns) ∷ []) h_class_end
      ≡ render (file_env p ns cls) (parse h_class_end)
  unfolding render parse h_class_end value_of text_eq is_clean is_clear is_clear_after no_dollar
      is_key separates
  class_end_text = replaces_lem _ _ (ground (arith, file_clean)) refl

  pub end_text :
      replaces ((codes "ns", ns) ∷ (codes "macro", macro_of p ns) ∷ []) h_end
      ≡ render (file_env p ns cls) (parse h_end)
  unfolding render parse h_end value_of text_eq is_clean is_clear is_clear_after no_dollar is_key
      separates
  end_text = replaces_lem _ _ (ground (arith, file_clean)) refl

  pub source_text :
      replaces ((codes "file_pre", p) ∷ []) cc_begin ≡ render (file_env p ns cls) (parse cc_begin)
  unfolding render parse cc_begin value_of text_eq is_clean is_clear is_clear_after no_dollar is_key
      separates
  source_text = replaces_lem _ _ (ground (arith, file_clean)) refl

  pub encode_text :
      replaces ((codes "ns", ns) ∷ (codes "class_name", cls) ∷ []) cc_encode_begin
      ≡ render (file_env p ns cls) (parse cc_encode_begin)
  unfolding render parse cc_encode_begin value_of text_eq is_clean is_clear is_clear_after no_dollar
      is_key separates
  encode_text = replaces_lem _ _ (ground (arith, file_clean)) refl

  pub decode_text :
      replaces ((codes "ns", ns) ∷ (codes "class_name", cls) ∷ []) cc_decode_begin
      ≡ render (file_env p ns cls) (parse cc_decode_begin)
  unfolding render parse cc_decode_begin value_of text_eq is_clean is_clear is_clear_after no_dollar
      is_key separates
  decode_text = replaces_lem _ _ (ground (arith, file_clean)) refl
