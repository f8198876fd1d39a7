-- ===== src/Proto2bin/Spec/Blocks.antt =====
-- The chains of `replace` calls in `gen_code` of tools/proto2bin.py, template by template: each
-- renders its template from the full table of the field.
use yarf.Common.{◌≡◌, refl, ◌∙◌, true, [], ◌∷◌, arith}
use yarf.Text.{Text, codes, text_eq, upper}
use yarf.Template.{
  Env, parse, render, value_of, replaces, is_clear, is_clear_after, is_key, separates, no_dollar,
}
use yarf.Template.Render.{is_clean, replaces_lem}
use yarf.Proto2bin.Templates.{
  h_single_field, h_string_field, h_vec_field, cc_encode_simple_field, cc_encode_struct_field,
  cc_encode_string_field, cc_encode_simple_vec_field, cc_encode_struct_vec_field,
  cc_decode_simple_field, cc_decode_struct_field, cc_decode_string_field,
  cc_decode_simple_vec_field, cc_decode_struct_vec_field,
}
use yarf.Proto2bin.Spec.{
  Shape, scalar, struct, text, scalar_array, struct_array, field_env, header_of, encode_of,
  decode_of,
}

pub header-is_clear : (sh : Shape) → is_clear (parse (header_of sh)) ≡ true
unfolding is_clear parse is_clear_after no_dollar is_key separates header_of h_single_field
    h_string_field h_vec_field
header-is_clear scalar = refl
header-is_clear struct = refl
header-is_clear text = refl
header-is_clear scalar_array = refl
header-is_clear struct_array = refl

pub encode-is_clear : (sh : Shape) → is_clear (parse (encode_of sh)) ≡ true
unfolding is_clear parse is_clear_after no_dollar is_key separates encode_of cc_encode_simple_field
    cc_encode_struct_field cc_encode_string_field cc_encode_simple_vec_field
    cc_encode_struct_vec_field
encode-is_clear scalar = refl
encode-is_clear struct = refl
encode-is_clear text = refl
encode-is_clear scalar_array = refl
encode-is_clear struct_array = refl

pub decode-is_clear : (sh : Shape) → is_clear (parse (decode_of sh)) ≡ true
unfolding is_clear parse is_clear_after no_dollar is_key separates decode_of cc_decode_simple_field
    cc_decode_struct_field cc_decode_string_field cc_decode_simple_vec_field
    cc_decode_struct_vec_field
decode-is_clear scalar = refl
decode-is_clear struct = refl
decode-is_clear text = refl
decode-is_clear scalar_array = refl
decode-is_clear struct_array = refl

module _ (ty n m : Text) (clean : is_clean (field_env ty n m) ≡ true) where
  -- a chain over a part of the table
  block :
      (sub : Env) (t : Text)
      → is_clean sub ≡ true
      → is_clear (parse t) ≡ true
      → render sub (parse t) ≡ render (field_env ty n m) (parse t)
      → replaces sub t ≡ render (field_env ty n m) (parse t)
  block sub t hs ht e = replaces_lem sub t hs ht ∙ e

  name_clean : is_clean ((codes "field", n) ∷ []) ≡ true
  unfolding is_clean
  name_clean = ground arith

  upper_clean : is_clean ((codes "field", n) ∷ (codes "field_upper", upper n) ∷ []) ≡ true
  unfolding is_clean
  upper_clean = ground arith

  pub single_header :
      replaces ((codes "field_type", ty) ∷ (codes "field", n) ∷ []) h_single_field
      ≡ render (field_env ty n m) (parse h_single_field)
  unfolding render parse h_single_field value_of text_eq is_clean header_of
  single_header = block _ _ (ground arith) (header-is_clear scalar) refl

  pub string_header :
      replaces
        ((codes "field_upper", upper n) ∷ (codes "field", n) ∷ (codes "max", m) ∷ [])
        h_string_field
      ≡ render (field_env ty n m) (parse h_string_field)
  unfolding render parse h_string_field value_of text_eq is_clean header_of
  string_header = block _ _ (ground arith) (header-is_clear text) refl

  pub vec_header :
      replaces (field_env ty n m) h_vec_field ≡ render (field_env ty n m) (parse h_vec_field)
  unfolding header_of
  vec_header = block _ _ clean (header-is_clear scalar_array) refl

  pub scalar_encode :
      replaces ((codes "field", n) ∷ []) cc_encode_simple_field
      ≡ render (field_env ty n m) (parse cc_encode_simple_field)
  unfolding render parse cc_encode_simple_field value_of text_eq encode_of
  scalar_encode = block _ _ name_clean (encode-is_clear scalar) refl

  pub scalar_decode :
      replaces ((codes "field", n) ∷ []) cc_decode_simple_field
      ≡ render (field_env ty n m) (parse cc_decode_simple_field)
  unfolding render parse cc_decode_simple_field value_of text_eq decode_of
  scalar_decode = block _ _ name_clean (decode-is_clear scalar) refl

  pub struct_encode :
      replaces ((codes "field", n) ∷ []) cc_encode_struct_field
      ≡ render (field_env ty n m) (parse cc_encode_struct_field)
  unfolding render parse cc_encode_struct_field value_of text_eq encode_of
  struct_encode = block _ _ name_clean (encode-is_clear struct) refl

  pub struct_decode :
      replaces ((codes "field", n) ∷ []) cc_decode_struct_field
      ≡ render (field_env ty n m) (parse cc_decode_struct_field)
  unfolding render parse cc_decode_struct_field value_of text_eq decode_of
  struct_decode = block _ _ name_clean (decode-is_clear struct) refl

  pub text_encode :
      replaces ((codes "field", n) ∷ (codes "field_upper", upper n) ∷ []) cc_encode_string_field
      ≡ render (field_env ty n m) (parse cc_encode_string_field)
  unfolding render parse cc_encode_string_field value_of text_eq encode_of
  text_encode = block _ _ upper_clean (encode-is_clear text) refl

  pub text_decode :
      replaces ((codes "field", n) ∷ []) cc_decode_string_field
      ≡ render (field_env ty n m) (parse cc_decode_string_field)
  unfolding render parse cc_decode_string_field value_of text_eq decode_of
  text_decode = block _ _ name_clean (decode-is_clear text) refl

  pub scalar_array_encode :
      replaces ((codes "field", n) ∷ (codes "field_upper", upper n) ∷ []) cc_encode_simple_vec_field
      ≡ render (field_env ty n m) (parse cc_encode_simple_vec_field)
  unfolding render parse cc_encode_simple_vec_field value_of text_eq encode_of
  scalar_array_encode = block _ _ upper_clean (encode-is_clear scalar_array) refl

  pub scalar_array_decode :
      replaces ((codes "field", n) ∷ (codes "field_upper", upper n) ∷ []) cc_decode_simple_vec_field
      ≡ render (field_env ty n m) (parse cc_decode_simple_vec_field)
  unfolding render parse cc_decode_simple_vec_field value_of text_eq decode_of
  scalar_array_decode = block _ _ upper_clean (decode-is_clear scalar_array) refl

  pub struct_array_encode :
      replaces ((codes "field", n) ∷ (codes "field_upper", upper n) ∷ []) cc_encode_struct_vec_field
      ≡ render (field_env ty n m) (parse cc_encode_struct_vec_field)
  unfolding render parse cc_encode_struct_vec_field value_of text_eq encode_of
  struct_array_encode = block _ _ upper_clean (encode-is_clear struct_array) refl

  pub struct_array_decode :
      replaces ((codes "field", n) ∷ (codes "field_upper", upper n) ∷ []) cc_decode_struct_vec_field
      ≡ render (field_env ty n m) (parse cc_decode_struct_vec_field)
  unfolding render parse cc_decode_struct_vec_field value_of text_eq decode_of
  struct_array_decode = block _ _ upper_clean (decode-is_clear struct_array) refl
