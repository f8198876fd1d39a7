-- ===== src/Proto2obj4pb/Spec/Refine.antt =====
-- The loop over the fields in `gen_code` of tools/proto2obj4pb.py writes the specified blocks.
use mathlib.Core.Path.{subst}
use yarf.Common.{
  ◌≡◌, refl, Bool, true, false, inl, inr, ◌⊎◌, Option, none, some, List, [], ◌∷◌, arith, all, All,
  Bool-cases, Result, ok, raised, Flow, next, flow, unpack, if◌then◌else◌,
}
use yarf.Common.Flows.{◌>>=◌}
use yarf.Text.{last_part, Text, codes, text_eq, split}
use yarf.Template.{no_dollar, parse, render}
use yarf.Descriptor.{Field, Message, FileDescriptor}
use yarf.Proto2bin.Clean.{unicode_field_opt-no_dollar}
use yarf.Proto2bin.FieldOpt.{unicode_field_opt}
use yarf.Proto2bin.GenCode.{is_repeated, is_message, is_string}
use yarf.Proto2bin.Refine.{IsCleanField}
use yarf.Proto2bin.RefineFile.{IsCleanMessage}
use yarf.Proto2bin.Spec.{shape_of}
use yarf.Proto2obj4pb.GenCode.{
  Contents, extend, Source, find_opt, find_message, find_in_protos, first_field, find_key_info,
  key_field, add_repeated, add_string, gen_single,
}
use yarf.Proto2obj4pb.Spec.{
  field_env, header_of, encode_of, decode_of, functions_of, shape_blocks, after, key_of,
}
use yarf.Proto2obj4pb.Spec.Blocks.{
  AreClean, single_header, string_header, vec_header, vec_functions, scalar_encode, struct_encode,
  text_encode, scalar_array_encode, struct_array_encode, scalar_decode, struct_decode, text_decode,
  scalar_array_decode, struct_array_decode,
}

infixl 6 ◌◂◌
-- Contents with blocks behind them.
abbrev pub ◌◂◌ : Contents → Flow Contents → Flow Contents
c ◂ r = r >>= λ b. next (after c b)

-- What the field loop reads, without dollars.
pub record IsCleanSource (s : Source) : Type 0 where
  pub ns_clean : no_dollar s.namespace ≡ true
  pub class_clean : no_dollar s.class_name ≡ true
  pub lines_clean : all no_dollar s.file_lines ≡ true
  pub protos_clean : All (λ (d : FileDescriptor). All IsCleanMessage d.message_type) s.g_all_proto

pub find_opt-no_dollar :
    (s : Source) (name : Text) (p : Text × Bool)
    → IsCleanSource s
    → find_opt s name ≡ next p
    → no_dollar p.0 ≡ true
unfolding find_opt
find_opt-no_dollar s name p h e =
    go (unicode_field_opt s.class_name name s.file_lines s.struct_dict) refl e
  where
    go :
        (r : Result (Option (Text × Bool)))
        → unicode_field_opt s.class_name name s.file_lines s.struct_dict ≡ r
        → (flow r >>= λ o. unpack o) ≡ next p
        → no_dollar p.0 ≡ true
    go (ok (some (w, b))) q e' = ground (
      arith,
      unicode_field_opt-no_dollar s.class_name name s.file_lines s.struct_dict {w = w} {b = b}
          h.lines_clean q,
    )
    go (ok none) q e' = cc
    go (raised x) q e' = cc

module _ (s : Source) (f : Field) (ty m : Text) (c : Contents)
    (h : AreClean s.namespace s.class_name ty f.name m [] []) where
  pub add_repeated_lem : add_repeated s f ty m c ≡ (
      c
      ◂ shape_blocks
          (field_env s.namespace s.class_name ty f.name m [] [])
          (shape_of true (is_message f.kind) (is_string f.kind)))
  unfolding add_repeated shape_blocks shape_of header_of encode_of decode_of functions_of
  add_repeated_lem = elim (Bool-cases (is_message f.kind)) [
    | inl e ↦ rw e (λ i. next (
        extend (vec_header s ty f.name m [] [] h i) (struct_array_encode s ty f.name m [] [] h i)
          (struct_array_decode s ty f.name m [] [] h i) (vec_functions s ty f.name m [] [] h i) c))
    | inr e ↦ elim (Bool-cases (is_string f.kind)) [
      | inl e' ↦ rw (e, e')
      | inr e' ↦
          rw (e, e')
            (λ i. next (
              extend (vec_header s ty f.name m [] [] h i)
                (scalar_array_encode s ty f.name m [] [] h i)
                (scalar_array_decode s ty f.name m [] [] h i)
                (vec_functions s ty f.name m [] [] h i) c))
    ]
  ]

  pub add_string_lem : next (add_string f.name m c) ≡ (
      c
      ◂ shape_blocks
          (field_env s.namespace s.class_name ty f.name m [] [])
          (shape_of false false true))
  unfolding add_string shape_blocks shape_of header_of encode_of decode_of functions_of render parse
  add_string_lem = λ i. next (
      extend (string_header s ty f.name m [] [] h i) (text_encode s ty f.name m [] [] h i)
        (text_decode s ty f.name m [] [] h i) [] c)

  pub single_lem :
      is_repeated f.label ≡ false
      → (is_message f.kind ≡ true) ⊎ ((is_message f.kind ≡ false) × (is_string f.kind ≡ false))
      → gen_single s f ty c ≡ (
          c
          ◂ shape_blocks
              (field_env s.namespace s.class_name ty f.name m [] [])
              (shape_of false (is_message f.kind) (is_string f.kind)))
  unfolding gen_single shape_blocks shape_of header_of encode_of decode_of functions_of render parse
  single_lem r k = elim k [
    | inl e ↦ rw e (λ i. next (
        extend (single_header s ty f.name m [] [] h i) (struct_encode s ty f.name m [] [] h i)
          (struct_decode s ty f.name m [] [] h i) [] c))
    | inr (e, e') ↦
        rw (e, e')
          (λ i. next (
            extend (single_header s ty f.name m [] [] h i) (scalar_encode s ty f.name m [] [] h i)
              (scalar_decode s ty f.name m [] [] h i) [] c))
  ]

find_message-clean :
    (name : Text) (msgs : List Message) (msg : Message)
    → All IsCleanMessage msgs
    → find_message name msgs ≡ some msg
    → IsCleanMessage msg
unfolding find_message
find_message-clean name [] msg h e = cc
find_message-clean name (x ∷ msgs) msg (h, hs) e = elim (Bool-cases (text_eq x.name name)) [
  | inl q ↦ subst IsCleanMessage (found q e) h
  | inr q ↦ find_message-clean name msgs msg hs (missed q e)
]
  where
    found :
        text_eq x.name name ≡ true
        → (if text_eq x.name name then some x else find_message name msgs) ≡ some msg
        → x ≡ msg
    found q e = cc

    missed :
        text_eq x.name name ≡ false
        → (if text_eq x.name name then some x else find_message name msgs) ≡ some msg
        → find_message name msgs ≡ some msg
    missed q e = cc

find_in_protos-clean :
    (name : Text) (protos : List FileDescriptor) (msg : Message)
    → All (λ (d : FileDescriptor). All IsCleanMessage d.message_type) protos
    → find_in_protos name protos ≡ some msg
    → IsCleanMessage msg
unfolding find_in_protos
find_in_protos-clean name [] msg h e = cc
find_in_protos-clean name (d ∷ protos) msg (h, hs) e =
    go (λ q. find_in_protos-clean name protos msg hs q) (find_message name d.message_type)
      (λ m q. find_message-clean name d.message_type m h q) e
  where
    go :
        (find_in_protos name protos ≡ some msg → IsCleanMessage msg)
        → (o : Option Message) → ((m : Message) → o ≡ some m → IsCleanMessage m)
        → elim o [ none ↦ find_in_protos name protos | some m ↦ some m ] ≡ some msg
        → IsCleanMessage msg
    go rest none f e' = rest e'
    go rest (some m) f e' = f msg e'

pub key_of-clean :
    (s : Source) (ty : Text) (key : Field)
    → IsCleanSource s
    → key_of s ty ≡ next key
    → IsCleanField key
unfolding key_of find_key_info
key_of-clean s ty key h e =
    go (find_in_protos (last_part (split (codes "::") ty)) s.g_all_proto)
      (λ m q.
        find_in_protos-clean (last_part (split (codes "::") ty)) s.g_all_proto m h.protos_clean q)
      e
  where
    first :
        (fs : List Field)
        → All IsCleanField fs
        → (flow (first_field fs) >>= λ info. key_field info) ≡ next key
        → IsCleanField key
    first [] a e' = cc
    first (x ∷ fs) (a, b) e' = subst IsCleanField (same x e') a
      where
        same : (x : Field) → next x ≡ next key → x ≡ key
        same x q = cc

    go :
        (o : Option Message)
        → ((m : Message) → o ≡ some m → IsCleanMessage m)
        → (flow (elim o [ none ↦ ok none | some m ↦ first_field m.field ]) >>= λ info.
            key_field info)
          ≡ next key
        → IsCleanField key
    go none f e' = cc
    go (some m) f e' = first m.field (f m refl).fields_clean e'
