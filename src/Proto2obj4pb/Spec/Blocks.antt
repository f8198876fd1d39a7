-- ===== src/Proto2obj4pb/Spec/Blocks.antt =====
-- The chains of `replace` calls for a field, in `gen_code` of tools/proto2obj4pb.py, template by
-- template: each renders its template from the full table of the field.
use yarf.Common.{◌≡◌, refl, ◌∙◌, true, [], ◌∷◌, arith}
use yarf.Text.{Text, codes, text_eq, upper}
use yarf.Template.{
  Env, parse, render, value_of, replaces, is_clear, is_clear_after, is_key, separates, no_dollar,
}
use yarf.Template.Render.{is_clean, replaces_lem}
use yarf.Template.NoDollar.{upper-no_dollar}
use yarf.Util.{first2upper}
use yarf.Proto2bin.Clean.{first2upper-no_dollar}
use yarf.Proto2bin.Spec.{Shape, scalar, struct, text, scalar_array, struct_array}
use yarf.Proto2obj4pb.Templates.{
  h_vec_field_more, cc_additional_opt_func, h_single_field, h_string_field, h_vec_field,
  cc_encode_simple_field, cc_encode_struct_field, cc_encode_string_field,
  cc_encode_simple_vec_field, cc_encode_struct_vec_field, cc_decode_simple_field,
  cc_decode_struct_field, cc_decode_string_field, cc_decode_simple_vec_field,
  cc_decode_struct_vec_field, cc_opt_func,
}
use yarf.Proto2obj4pb.GenCode.{Source, array_header, array_functions, key_header, key_functions}
use yarf.Proto2obj4pb.Spec.{field_env, header_of, encode_of, decode_of, functions_of}

header-is_clear : (sh : Shape) → is_clear (parse (header_of sh)) ≡ true
unfolding is_clear parse is_clear_after no_dollar is_key separates header_of h_single_field
    h_string_field h_vec_field
header-is_clear scalar = refl
header-is_clear struct = refl
header-is_clear text = refl
header-is_clear scalar_array = refl
header-is_clear struct_array = refl

encode-is_clear : (sh : Shape) → is_clear (parse (encode_of sh)) ≡ true
unfolding is_clear parse is_clear_after no_dollar is_key separates encode_of cc_encode_simple_field
    cc_encode_struct_field cc_encode_string_field cc_encode_simple_vec_field
    cc_encode_struct_vec_field
encode-is_clear scalar = refl
encode-is_clear struct = refl
encode-is_clear text = refl
encode-is_clear scalar_array = refl
encode-is_clear struct_array = refl

decode-is_clear : (sh : Shape) → is_clear (parse (decode_of sh)) ≡ true
unfolding is_clear parse is_clear_after no_dollar is_key separates decode_of cc_decode_simple_field
    cc_decode_struct_field cc_decode_string_field cc_decode_simple_vec_field
    cc_decode_struct_vec_field
decode-is_clear scalar = refl
decode-is_clear struct = refl
decode-is_clear text = refl
decode-is_clear scalar_array = refl
decode-is_clear struct_array = refl

functions-is_clear : (sh : Shape) → is_clear (parse (functions_of sh)) ≡ true
unfolding is_clear parse is_clear_after no_dollar is_key separates functions_of cc_opt_func
functions-is_clear scalar = refl
functions-is_clear struct = refl
functions-is_clear text = refl
functions-is_clear scalar_array = refl
functions-is_clear struct_array = refl

more-is_clear : is_clear (parse h_vec_field_more) ≡ true
unfolding is_clear parse is_clear_after no_dollar is_key separates h_vec_field_more
more-is_clear = refl

additional-is_clear : is_clear (parse cc_additional_opt_func) ≡ true
unfolding is_clear parse is_clear_after no_dollar is_key separates cc_additional_opt_func
additional-is_clear = refl

-- No value of a field holds a dollar.
pub record AreClean (ns cls ty n m kt kn : Text) : Type 0 where
  pub ns_clean : no_dollar ns ≡ true
  pub class_clean : no_dollar cls ≡ true
  pub type_clean : no_dollar ty ≡ true
  pub name_clean : no_dollar n ≡ true
  pub max_clean : no_dollar m ≡ true
  pub key_type_clean : no_dollar kt ≡ true
  pub key_name_clean : no_dollar kn ≡ true

module _ (s : Source) (ty n m kt kn : Text)
    (h : AreClean s.namespace s.class_name ty n m kt kn) where
  abbrev env : Env
  env = field_env s.namespace s.class_name ty n m kt kn

  full_clean : is_clean env ≡ true
  unfolding is_clean
  full_clean = ground (
    arith,
    h.ns_clean,
    h.class_clean,
    h.type_clean,
    h.name_clean,
    h.max_clean,
    h.key_type_clean,
    h.key_name_clean,
    upper-no_dollar n,
    first2upper-no_dollar n,
  )

  -- a chain over a part of the table
  block :
      (sub : Env) (t : Text)
      → is_clean sub ≡ true
      → is_clear (parse t) ≡ true
      → render sub (parse t) ≡ render env (parse t)
      → replaces sub t ≡ render env (parse t)
  block sub t hs ht e = replaces_lem sub t hs ht ∙ e

  only_clean : is_clean ((codes "field", n) ∷ []) ≡ true
  unfolding is_clean
  only_clean = ground (arith, full_clean)

  keys_clean : is_clean ((codes "field", n) ∷ (codes "field_upper", upper n) ∷ []) ≡ true
  unfolding is_clean
  keys_clean = ground (arith, full_clean)

  pub single_header :
      replaces ((codes "field_type", ty) ∷ (codes "field", n) ∷ []) h_single_field
      ≡ render env (parse h_single_field)
  unfolding render parse h_single_field value_of text_eq is_clean header_of
  single_header = block _ _ (ground (arith, full_clean)) (header-is_clear scalar) refl

  pub string_header :
      replaces
        ((codes "field_upper", upper n) ∷ (codes "field", n) ∷ (codes "max", m) ∷ [])
        h_string_field
      ≡ render env (parse h_string_field)
  unfolding render parse h_string_field value_of text_eq is_clean header_of
  string_header = block _ _ (ground (arith, full_clean)) (header-is_clear text) refl

  pub vec_header : array_header n ty m ≡ render env (parse h_vec_field)
  unfolding render parse h_vec_field value_of text_eq is_clean header_of array_header
  vec_header =
      block
        ((codes "field_type", ty)
          ∷ (codes "field", n)
          ∷ (codes "field_upper", upper n)
          ∷ (codes "field_first_up", first2upper n)
          ∷ (codes "max", m)
          ∷ [])
        h_vec_field (ground (arith, full_clean)) (header-is_clear scalar_array) refl

  pub vec_functions : array_functions s n ty ≡ render env (parse cc_opt_func)
  unfolding render parse cc_opt_func value_of text_eq is_clean functions_of array_functions
  vec_functions =
      block
        ((codes "field_type", ty)
          ∷ (codes "field", n)
          ∷ (codes "ns", s.namespace)
          ∷ (codes "class_name", s.class_name)
          ∷ (codes "field_first_up", first2upper n)
          ∷ (codes "field_upper", upper n)
          ∷ [])
        cc_opt_func (ground (arith, full_clean)) (functions-is_clear scalar_array) refl

  pub more_header : key_header n ty kt kn ≡ render env (parse h_vec_field_more)
  unfolding render parse h_vec_field_more value_of text_eq is_clean key_header
  more_header =
      block
        ((codes "field_type", ty)
          ∷ (codes "field_first_up", first2upper n)
          ∷ (codes "field_key_type", kt)
          ∷ (codes "field_key_name", kn)
          ∷ [])
        h_vec_field_more (ground (arith, full_clean)) more-is_clear refl

  pub more_functions : key_functions s n ty kt kn ≡ render env (parse cc_additional_opt_func)
  unfolding render parse cc_additional_opt_func value_of text_eq is_clean key_functions
  more_functions =
      block
        ((codes "field_type", ty)
          ∷ (codes "field", n)
          ∷ (codes "ns", s.namespace)
          ∷ (codes "class_name", s.class_name)
          ∷ (codes "field_first_up", first2upper n)
          ∷ (codes "field_upper", upper n)
          ∷ (codes "field_key_type", kt)
          ∷ (codes "field_key_name", kn)
          ∷ [])
        cc_additional_opt_func (ground (arith, full_clean)) additional-is_clear refl

  pub scalar_encode :
      replaces ((codes "field", n) ∷ []) cc_encode_simple_field
      ≡ render env (parse cc_encode_simple_field)
  unfolding render parse cc_encode_simple_field value_of text_eq encode_of
  scalar_encode = block _ _ only_clean (encode-is_clear scalar) refl

  pub struct_encode :
      replaces ((codes "field", n) ∷ []) cc_encode_struct_field
      ≡ render env (parse cc_encode_struct_field)
  unfolding render parse cc_encode_struct_field value_of text_eq encode_of
  struct_encode = block _ _ only_clean (encode-is_clear struct) refl

  pub text_encode :
      replaces ((codes "field", n) ∷ []) cc_encode_string_field
      ≡ render env (parse cc_encode_string_field)
  unfolding render parse cc_encode_string_field value_of text_eq encode_of
  text_encode = block _ _ only_clean (encode-is_clear text) refl

  pub scalar_array_encode :
      replaces ((codes "field", n) ∷ []) cc_encode_simple_vec_field
      ≡ render env (parse cc_encode_simple_vec_field)
  unfolding render parse cc_encode_simple_vec_field value_of text_eq encode_of
  scalar_array_encode = block _ _ only_clean (encode-is_clear scalar_array) refl

  pub struct_array_encode :
      replaces ((codes "field", n) ∷ []) cc_encode_struct_vec_field
      ≡ render env (parse cc_encode_struct_vec_field)
  unfolding render parse cc_encode_struct_vec_field value_of text_eq encode_of
  struct_array_encode = block _ _ only_clean (encode-is_clear struct_array) refl

  pub scalar_decode :
      replaces ((codes "field", n) ∷ []) cc_decode_simple_field
      ≡ render env (parse cc_decode_simple_field)
  unfolding render parse cc_decode_simple_field value_of text_eq decode_of
  scalar_decode = block _ _ only_clean (decode-is_clear scalar) refl

  pub struct_decode :
      replaces ((codes "field", n) ∷ []) cc_decode_struct_field
      ≡ render env (parse cc_decode_struct_field)
  unfolding render parse cc_decode_struct_field value_of text_eq decode_of
  struct_decode = block _ _ only_clean (decode-is_clear struct) refl

  pub text_decode :
      replaces ((codes "field", n) ∷ []) cc_decode_string_field
      ≡ render env (parse cc_decode_string_field)
  unfolding render parse cc_decode_string_field value_of text_eq decode_of
  text_decode = block _ _ only_clean (decode-is_clear text) refl

  pub scalar_array_decode :
      replaces ((codes "field", n) ∷ (codes "field_upper", upper n) ∷ []) cc_decode_simple_vec_field
      ≡ render env (parse cc_decode_simple_vec_field)
  unfolding render parse cc_decode_simple_vec_field value_of text_eq decode_of
  scalar_array_decode = block _ _ keys_clean (decode-is_clear scalar_array) refl

  pub struct_array_decode :
      replaces ((codes "field", n) ∷ (codes "field_upper", upper n) ∷ []) cc_decode_struct_vec_field
      ≡ render env (parse cc_decode_struct_vec_field)
  unfolding render parse cc_decode_struct_vec_field value_of text_eq decode_of
  struct_array_decode = block _ _ keys_clean (decode-is_clear struct_array) refl
