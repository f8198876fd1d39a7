-- ===== src/Proto2bin/Refine.antt =====
-- `gen_code` of tools/proto2bin.py writes what the specification says.
use yarf.Common.{
  ◌≡◌, refl, ◌∙◌, Bool, true, false, inl, inr, [], arith, all, Bool-cases, ◌⊎◌, Flow, next,
  returned, failed,
}
use yarf.Common.Flows.{◌>>=◌, >>=-cong}
use yarf.Text.{Text, codes, text_eq}
use yarf.Template.{no_dollar}
use yarf.Template.Render.{is_clean}
use yarf.Template.NoDollar.{upper-no_dollar}
use yarf.Descriptor.{Field}
use yarf.Proto2bin.Ctype.{prototype2ctype}
use yarf.Proto2bin.Clean.{first2upper-no_dollar, prototype2ctype-no_dollar, find_max-no_dollar}
use yarf.Proto2bin.GenCode.{
  Contents, extend, Source, find_max, is_repeated, is_message, is_string, add_repeated,
  gen_repeated, add_string, gen_single, gen_field,
}
use yarf.Proto2bin.Spec.{
  header_of, encode_of, decode_of, field_env, shape_of, blocks, after, max_of, field_blocks,
}
use yarf.Proto2bin.Spec.Blocks.{
  single_header, string_header, vec_header, scalar_encode, struct_encode, text_encode,
  scalar_array_encode, struct_array_encode, scalar_decode, struct_decode, text_decode,
  scalar_array_decode, struct_array_decode,
}

infixl 6 ◌◂◌
-- Contents with blocks behind them.
abbrev pub ◌◂◌ : Contents → Flow Contents → Flow Contents
c ◂ r = r >>= λ b. next (after c b)

-- A field of the descriptor without dollars.
pub record IsCleanField (f : Field) : Type 0 where
  pub name_clean : no_dollar f.name ≡ true
  pub type_clean : no_dollar f.type_name ≡ true

field_env-is_clean :
    (ty n m : Text)
    → no_dollar ty ≡ true
    → no_dollar n ≡ true
    → no_dollar m ≡ true
    → is_clean (field_env ty n m) ≡ true
unfolding is_clean
field_env-is_clean ty n m hty hn hm = ground (arith, upper-no_dollar n, first2upper-no_dollar n)

pub env_clean :
    (f : Field) (m : Text)
    → IsCleanField f
    → no_dollar m ≡ true
    → is_clean (field_env (prototype2ctype f) f.name m) ≡ true
env_clean f m hf hm =
    field_env-is_clean (prototype2ctype f) f.name m (prototype2ctype-no_dollar f hf.type_clean)
      hf.name_clean hm

module _ (f : Field) (ty m : Text) (c : Contents)
    (clean : is_clean (field_env ty f.name m) ≡ true) where
  add_repeated_lem :
      add_repeated f ty m c
      ≡ (c ◂ blocks (field_env ty f.name m) (shape_of true (is_message f.kind) (is_string f.kind)))
  unfolding add_repeated blocks shape_of header_of encode_of decode_of
  add_repeated_lem = elim (Bool-cases (is_message f.kind)) [
    | inl e ↦ rw e (λ i. next (
        extend (vec_header ty f.name m clean i) (struct_array_encode ty f.name m clean i)
          (struct_array_decode ty f.name m clean i) c))
    | inr e ↦ elim (Bool-cases (is_string f.kind)) [
      | inl e' ↦ rw (e, e')
      | inr e' ↦
          rw (e, e')
            (λ i. next (
              extend (vec_header ty f.name m clean i) (scalar_array_encode ty f.name m clean i)
                (scalar_array_decode ty f.name m clean i) c))
    ]
  ]

  single_lem :
      (repeated : Bool)
      → repeated ≡ false
      → (is_string f.kind ≡ false) ⊎ (is_message f.kind ≡ true)
      → (s : Source)
      → gen_single s f ty c ≡ (
          c
          ◂ blocks
              (field_env ty f.name m)
              (shape_of repeated (is_message f.kind) (is_string f.kind)))
  unfolding gen_single blocks shape_of header_of encode_of decode_of
  single_lem repeated r h s = elim (Bool-cases (is_message f.kind)) [
    | inl e ↦
        rw (r, e)
          (λ i. next (
            extend (single_header ty f.name m clean i) (struct_encode ty f.name m clean i)
              (struct_decode ty f.name m clean i) c))
    | inr e ↦ elim h [
      | inl e' ↦
          rw (r, e, e')
            (λ i. next (
              extend (single_header ty f.name m clean i) (scalar_encode ty f.name m clean i)
                (scalar_decode ty f.name m clean i) c))
      | inr e' ↦ cc
    ]
  ]

  add_string_lem :
      next (add_string f.name m c)
      ≡ (c ◂ blocks (field_env ty f.name m) (shape_of false false true))
  unfolding add_string blocks shape_of header_of encode_of decode_of
  add_string_lem = λ i. next (
      extend (string_header ty f.name m clean i) (text_encode ty f.name m clean i)
        (text_decode ty f.name m clean i) c)

by_repeated :
    (s : Source) (f : Field) (c : Contents)
    → all no_dollar s.file_lines ≡ true
    → IsCleanField f
    → is_repeated f.label ≡ true
    → gen_repeated s f (prototype2ctype f) c ≡ (
        max_of s f >>= λ m.
        (c
          ◂ blocks
              (field_env (prototype2ctype f) f.name m)
              (shape_of (is_repeated f.label) (is_message f.kind) (is_string f.kind))))
unfolding gen_repeated max_of
by_repeated s f c hl hf r = rw r (
    >>=-cong (find_max s f.name) _ _ λ m e.
      add_repeated_lem f (prototype2ctype f) m c
        (env_clean f m hf (find_max-no_dollar s f.name hl e)))

pub one_clean : no_dollar (codes "1") ≡ true
unfolding no_dollar
one_clean = refl

by_single :
    (s : Source) (f : Field) (c : Contents)
    → all no_dollar s.file_lines ≡ true
    → IsCleanField f
    → is_repeated f.label ≡ false
    → gen_single s f (prototype2ctype f) c ≡ (
        max_of s f >>= λ m.
        (c
          ◂ blocks
              (field_env (prototype2ctype f) f.name m)
              (shape_of (is_repeated f.label) (is_message f.kind) (is_string f.kind))))
unfolding max_of
by_single s f c hl hf r = elim (Bool-cases (is_message f.kind)) [
  | inl e ↦
      rw (r, e)
        (single_lem f (prototype2ctype f) (codes "1") c (env_clean f _ hf one_clean)
            (is_repeated f.label) r (inr e) s
          ∙ rw (r, e))
  | inr e ↦ elim (Bool-cases (is_string f.kind)) [
    | inl e' ↦
        rw (r, e, e')
          (text_case e e'
            ∙ >>=-cong (find_max s f.name) _ _ λ m q.
              add_string_lem f (prototype2ctype f) m c
                (env_clean f m hf (find_max-no_dollar s f.name hl q)))
    | inr e' ↦
        rw (r, e, e')
          (single_lem f (prototype2ctype f) (codes "1") c (env_clean f _ hf one_clean)
              (is_repeated f.label) r (inl e') s
            ∙ rw (r, e, e'))
  ]
]
  where
    text_case :
        is_message f.kind ≡ false
        → is_string f.kind ≡ true
        → gen_single s f (prototype2ctype f) c
          ≡ (find_max s f.name >>= λ m. next (add_string f.name m c))
    text_case e e' = unfold gen_single in rw (e, e')

bind-◂ :
    (r : Flow Text) (k : Text → Flow Contents) (c : Contents)
    → (r >>= λ m. c ◂ k m) ≡ (c ◂ (r >>= k))
bind-◂ (next m) k c = refl
bind-◂ returned k c = refl
bind-◂ (failed e) k c = refl

-- Every round of the field loop puts the blocks of the field behind what is there, or ends the call
-- as the specification does.
pub gen_field_lem :
    (s : Source) (f : Field) (c : Contents)
    → all no_dollar s.file_lines ≡ true
    → IsCleanField f
    → gen_field s f c ≡ (c ◂ field_blocks s f)
unfolding gen_field field_blocks
gen_field_lem s f c hl hf = elim (Bool-cases (text_eq [] (prototype2ctype f))) [
  | inl e ↦ rw e
  | inr e ↦ elim (Bool-cases (is_repeated f.label)) [
    | inl r ↦ rw (e, r) (by_repeated s f c hl hf r ∙ rw r (bind-◂ (max_of s f) _ c))
    | inr r ↦ rw (e, r) (by_single s f c hl hf r ∙ rw r (bind-◂ (max_of s f) _ c))
  ]
]
