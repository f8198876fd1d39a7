-- ===== src/Proto2bin/Filled.antt =====
-- No place of a template of tools/proto2bin.py is left open in the generated files.
use yarf.Common.{
  ◌≡◌, refl, true, not, ◌&&◌, ◌||◌, inl, inr, Option, none, some, List, [], ◌∷◌, arith, all, All,
  Bool-cases, Flow, next, returned, failed,
}
use yarf.Common.Flows.{◌>>=◌}
use yarf.Text.{Text, text_eq}
use yarf.Template.{no_dollar, parse}
use yarf.Template.Render.{is_clean, binds, is_bound, render-no_dollar, no_dollar-append}
use yarf.Descriptor.{Field}
use yarf.Proto2bin.Templates.{
  h_single_field, h_string_field, h_vec_field, cc_encode_simple_field, cc_encode_struct_field,
  cc_encode_string_field, cc_encode_simple_vec_field, cc_encode_struct_vec_field,
  cc_decode_simple_field, cc_decode_struct_field, cc_decode_string_field,
  cc_decode_simple_vec_field, cc_decode_struct_vec_field,
}
use yarf.Proto2bin.GenCode.{is_repeated, is_message, is_string, Contents, Source}
use yarf.Proto2bin.Ctype.{prototype2ctype}
use yarf.Proto2bin.Clean.{find_max-no_dollar}
use yarf.Proto2bin.Spec.{
  Shape, scalar, struct, text, scalar_array, struct_array, header_of, encode_of, decode_of,
  field_env, blocks, max_of, after, field_blocks, all_blocks,
}
use yarf.Proto2bin.Spec.Blocks.{header-is_clear, encode-is_clear, decode-is_clear}
use yarf.Proto2bin.Refine.{IsCleanField, env_clean, one_clean}

pub record IsFilled (c : Contents) : Type 0 where
  pub h_filled : no_dollar c.h_declare ≡ true
  pub e_filled : no_dollar c.cc_encode ≡ true
  pub d_filled : no_dollar c.cc_decode ≡ true

abbrev pub Filled {ℓ} : {A : Type ℓ} → (A → Type 0) → Flow A → Type 0
Filled P (next a) = P a
Filled P returned = Unit
Filled P (failed e) = Unit

module _ (ty n m : Text) where
  header_binds : (sh : Shape) → binds (field_env ty n m) (parse (header_of sh)) ≡ true
  unfolding binds is_bound parse text_eq header_of h_single_field h_string_field h_vec_field
  header_binds scalar = refl
  header_binds struct = refl
  header_binds text = refl
  header_binds scalar_array = refl
  header_binds struct_array = refl

  encode_binds : (sh : Shape) → binds (field_env ty n m) (parse (encode_of sh)) ≡ true
  unfolding binds is_bound parse text_eq encode_of cc_encode_simple_field cc_encode_struct_field
      cc_encode_string_field cc_encode_simple_vec_field cc_encode_struct_vec_field
  encode_binds scalar = refl
  encode_binds struct = refl
  encode_binds text = refl
  encode_binds scalar_array = refl
  encode_binds struct_array = refl

  decode_binds : (sh : Shape) → binds (field_env ty n m) (parse (decode_of sh)) ≡ true
  unfolding binds is_bound parse text_eq decode_of cc_decode_simple_field cc_decode_struct_field
      cc_decode_string_field cc_decode_simple_vec_field cc_decode_struct_vec_field
  decode_binds scalar = refl
  decode_binds struct = refl
  decode_binds text = refl
  decode_binds scalar_array = refl
  decode_binds struct_array = refl

  blocks-IsFilled :
      is_clean (field_env ty n m) ≡ true
      → (sh : Option Shape) → Filled IsFilled (blocks (field_env ty n m) sh)
  unfolding blocks
  blocks-IsFilled h none = tt
  blocks-IsFilled h (some sh) = record {
    h_filled = render-no_dollar _ _ h (header-is_clear sh) (header_binds sh);
    e_filled = render-no_dollar _ _ h (encode-is_clear sh) (encode_binds sh);
    d_filled = render-no_dollar _ _ h (decode-is_clear sh) (decode_binds sh);
  }

pub Filled-bind {ℓ κ} :
    {A : Type ℓ} {B : Type κ} (P : B → Type 0) (r : Flow A) (k : A → Flow B)
    → ((a : A) → r ≡ next a → Filled P (k a))
    → Filled P (r >>= k)
Filled-bind P (next a) k h = h a refl
Filled-bind P returned k h = tt
Filled-bind P (failed e) k h = tt

pub Filled-at {ℓ} :
    {A : Type ℓ} (P : A → Type 0) (r : Flow A) {a : A} → Filled P r → r ≡ next a → P a
Filled-at P r h e = rw e at h

max_of-no_dollar :
    (s : Source) (f : Field) {m : Text}
    → all no_dollar s.file_lines ≡ true
    → max_of s f ≡ next m
    → no_dollar m ≡ true
unfolding max_of
max_of-no_dollar s f {m} hl e =
    elim (Bool-cases (is_repeated f.label || (not (is_message f.kind) && is_string f.kind))) [
      | inl t ↦ find_max-no_dollar s f.name hl (rw (t, max_of) at e)
      | inr t ↦ ground (arith, e, t, one_clean)
    ]

field_blocks-IsFilled :
    (s : Source) (f : Field)
    → all no_dollar s.file_lines ≡ true
    → IsCleanField f
    → Filled IsFilled (field_blocks s f)
unfolding field_blocks
field_blocks-IsFilled s f hl hf = elim (Bool-cases (text_eq [] (prototype2ctype f))) [
  | inl t ↦ rw t tt
  | inr t ↦ rw t (
      Filled-bind IsFilled (max_of s f) _ λ m e.
        blocks-IsFilled (prototype2ctype f) f.name m (env_clean f m hf (max_of-no_dollar s f hl e))
          _)
]

after-IsFilled : (c b : Contents) → IsFilled c → IsFilled b → IsFilled (after c b)
after-IsFilled c b hc hb = record {
  h_filled = ground (arith, no_dollar-append c.h_declare b.h_declare);
  e_filled = ground (arith, no_dollar-append c.cc_encode b.cc_encode);
  d_filled = ground (arith, no_dollar-append c.cc_decode b.cc_decode);
}

pub all_blocks-IsFilled :
    (s : Source) (fs : List Field)
    → all no_dollar s.file_lines ≡ true
    → All IsCleanField fs
    → Filled IsFilled (all_blocks s fs)
unfolding all_blocks
all_blocks-IsFilled s [] hl hf =
    unfold no_dollar in record { h_filled = refl; e_filled = refl; d_filled = refl }
all_blocks-IsFilled s (f ∷ fs) hl hf =
    go (field_blocks-IsFilled s f hl hf.0) (all_blocks-IsFilled s fs hl hf.1)
  where
    go :
        Filled IsFilled (field_blocks s f)
        → Filled IsFilled (all_blocks s fs)
        → Filled IsFilled (field_blocks s f >>= λ b. all_blocks s fs >>= λ bs. next (after b bs))
    go hb hbs = Filled-bind IsFilled (field_blocks s f) _ λ b e.
        Filled-bind IsFilled (all_blocks s fs) _
          λ bs e'. after-IsFilled b bs (Filled-at IsFilled _ hb e) (Filled-at IsFilled _ hbs e')
