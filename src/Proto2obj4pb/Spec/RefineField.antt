-- ===== src/Proto2obj4pb/Spec/RefineField.antt =====
-- A round of the field loop in `gen_code` of tools/proto2obj4pb.py, and the loop.
use mathlib.Core.List.{append_assoc, append-nil}
use yarf.Common.{
  ◌≡◌, refl, ◌∙◌, sym, ap, Bool, true, false, inl, inr, ◌⊎◌, List, [], ◌∷◌, All, Bool-cases, Flow,
  next, returned, failed, flow,
}
use yarf.Common.Flows.{◌>>=◌, >>=-cong}
use yarf.Text.{Text, codes, text_eq}
use yarf.Template.{no_dollar}
use yarf.Descriptor.{Field}
use yarf.Proto2bin.Ctype.{prototype2ctype}
use yarf.Proto2bin.Clean.{prototype2ctype-no_dollar}
use yarf.Proto2bin.GenCode.{is_repeated, is_message, is_string}
use yarf.Proto2bin.Refine.{IsCleanField}
use yarf.Proto2bin.Spec.{shape_of}
use yarf.Proto2obj4pb.GenCode.{
  Contents, extend, Source, find_opt, find_key_info, key_field, key_header, key_functions,
  add_repeated, add_key, gen_repeated, gen_single, gen_field, gen_fields,
}
use yarf.Proto2obj4pb.Spec.{
  field_env, shape_blocks, after, key_blocks, key_of, key_part, array_blocks, field_blocks,
  all_blocks,
}
use yarf.Proto2obj4pb.Spec.Blocks.{AreClean, more_header, more_functions}
use yarf.Proto2obj4pb.Spec.Refine.{
  ◌◂◌, IsCleanSource, find_opt-no_dollar, add_repeated_lem, add_string_lem, single_lem,
  key_of-clean,
}

after_assoc : (c b d : Contents) → after (after c b) d ≡ after c (after b d)
after_assoc c b d = λ i. record {
  h_declare = append_assoc c.h_declare b.h_declare d.h_declare i;
  cc_encode = append_assoc c.cc_encode b.cc_encode d.cc_encode i;
  cc_decode = append_assoc c.cc_decode b.cc_decode d.cc_decode i;
  cc_opt = append_assoc c.cc_opt b.cc_opt d.cc_opt i;
}

bind_assoc :
    {A B C : Type 0} (r : Flow A) (k : A → Flow B) (k' : B → Flow C)
    → ((r >>= k) >>= k') ≡ (r >>= λ a. k a >>= k')
bind_assoc (next a) k k' = refl
bind_assoc returned k k' = refl
bind_assoc (failed e) k k' = refl

bind-◂ :
    {A : Type 0} (r : Flow A) (k : A → Flow Contents) (c : Contents)
    → (r >>= λ m. c ◂ k m) ≡ (c ◂ (r >>= k))
bind-◂ (next m) k c = refl
bind-◂ returned k c = refl
bind-◂ (failed e) k c = refl

nil_clean : no_dollar [] ≡ true
unfolding no_dollar
nil_clean = refl

one_clean : no_dollar (codes "1") ≡ true
unfolding no_dollar
one_clean = refl

module _ (s : Source) (f : Field) (hs : IsCleanSource s) (hf : IsCleanField f) where
  abbrev ty : Text
  ty = prototype2ctype f

  plain : (m : Text) → no_dollar m ≡ true → AreClean s.namespace s.class_name ty f.name m [] []
  plain m hm = record {
    ns_clean = hs.ns_clean;
    class_clean = hs.class_clean;
    type_clean = prototype2ctype-no_dollar f hf.type_clean;
    name_clean = hf.name_clean;
    max_clean = hm;
    key_type_clean = nil_clean;
    key_name_clean = nil_clean;
  }

  keyed :
      (m : Text) (key : Field)
      → no_dollar m ≡ true
      → IsCleanField key
      → AreClean s.namespace s.class_name ty f.name m (prototype2ctype key) key.name
  keyed m key hm hk = record {
    ns_clean = hs.ns_clean;
    class_clean = hs.class_clean;
    type_clean = prototype2ctype-no_dollar f hf.type_clean;
    name_clean = hf.name_clean;
    max_clean = hm;
    key_type_clean = prototype2ctype-no_dollar key hk.type_clean;
    key_name_clean = hk.name_clean;
  }

  -- the functions by key, behind what is there
  key_done :
      (m : Text) (c b : Contents) (r : Flow Field)
      → ((key : Field)
          → r ≡ next key
          → AreClean s.namespace s.class_name ty f.name m (prototype2ctype key) key.name)
      → (r >>= λ key. next (
          extend
            (key_header f.name ty (prototype2ctype key) key.name)
            []
            []
            (key_functions s f.name ty (prototype2ctype key) key.name)
            (after c b)))
        ≡ (c
            ◂ (r >>= λ key. next (
                after b (
                  key_blocks (
                    field_env s.namespace s.class_name ty f.name m
                      (prototype2ctype key)
                      key.name)))))
  unfolding key_blocks
  key_done m c b (next key) h =
      rw
        (
          more_header s ty f.name m (prototype2ctype key) key.name (h key refl),
          more_functions s ty f.name m (prototype2ctype key) key.name (h key refl),
        )
        (ap next (
          after_assoc c b (
            key_blocks
              (field_env s.namespace s.class_name ty f.name m (prototype2ctype key) key.name))))
  key_done m c b returned h = refl
  key_done m c b (failed e) h = refl

  add_key_lem :
      (m : Text) (k : Bool) (c b : Contents)
      → no_dollar m ≡ true
      → add_key s f ty k (after c b) ≡ (c ◂ key_part s f ty m k b)
  unfolding add_key key_part key_of
  add_key_lem m false c b hm = refl
  add_key_lem m true c b hm =
      sym (bind_assoc (flow (find_key_info s.g_all_proto ty)) key_field _)
      ∙ key_done m c b (key_of s ty) (λ key q. keyed m key hm (key_of-clean s ty key hs q))

  repeated_lem :
      (c : Contents)
      → gen_repeated s f ty c ≡ (c ◂ (find_opt s f.name >>= λ opt. array_blocks s f ty opt))
  unfolding gen_repeated array_blocks
  repeated_lem c =
      >>=-cong (find_opt s f.name) _ (λ p. c ◂ array_blocks s f ty p)
        (λ p e. one p (find_opt-no_dollar s f.name p hs e))
      ∙ bind-◂ (find_opt s f.name) (λ p. array_blocks s f ty p) c
    where
      behind :
          (m : Text) (k : Bool)
          → no_dollar m ≡ true
          → (r : Flow Contents)
          → ((c ◂ r) >>= λ c'. add_key s f ty k c') ≡ (c ◂ (r >>= λ b. key_part s f ty m k b))
      behind m k hm (next b) = add_key_lem m k c b hm
      behind m k hm returned = refl
      behind m k hm (failed e) = refl

      one :
          (p : Text × Bool)
          → no_dollar p.0 ≡ true
          → (add_repeated s f ty p.0 c >>= λ c'. add_key s f ty p.1 c')
            ≡ (c ◂ array_blocks s f ty p)
      one (m, k) hm = rw (add_repeated_lem s f ty m c (plain m hm)) (behind m k hm _)

  single_done :
      (c : Contents)
      → is_repeated f.label ≡ false
      → (is_message f.kind ≡ true) ⊎ ((is_message f.kind ≡ false) × (is_string f.kind ≡ false))
      → gen_single s f ty c ≡ (
          c
          ◂ shape_blocks
              (field_env s.namespace s.class_name ty f.name (codes "1") [] [])
              (shape_of false (is_message f.kind) (is_string f.kind)))
  single_done c r k = single_lem s f ty (codes "1") c (plain (codes "1") one_clean) r k

  string_done :
      (c : Contents)
      → is_message f.kind ≡ false
      → is_string f.kind ≡ true
      → gen_single s f ty c ≡ (
          c
          ◂ (find_opt s f.name >>= λ opt.
              shape_blocks
                (field_env s.namespace s.class_name ty f.name opt.0 [] [])
                (shape_of false false true)))
  unfolding gen_single
  string_done c e e' =
      rw (e, e')
        (>>=-cong (find_opt s f.name) _
            (λ p.
              c
              ◂ shape_blocks (field_env s.namespace s.class_name ty f.name p.0 [] [])
                  (shape_of false false true))
            (λ p q. add_string_lem s f ty p.0 c (plain p.0 (find_opt-no_dollar s f.name p hs q)))
          ∙ bind-◂ (find_opt s f.name) _ c)

  -- Every round of the field loop puts the blocks of the field behind what is there, or ends the
  -- call as the specification does.
  gen_field_lem : (c : Contents) → gen_field s f c ≡ (c ◂ field_blocks s f)
  unfolding gen_field field_blocks shape_of
  gen_field_lem c = elim (Bool-cases (text_eq [] ty)) [
    | inl e ↦ rw e
    | inr e ↦ elim (Bool-cases (is_repeated f.label)) [
      | inl r ↦ rw (e, r) (repeated_lem c)
      | inr r ↦ elim (Bool-cases (is_message f.kind)) [
        | inl k ↦ rw (e, r, k) (single_done c r (inl k) ∙ rw k)
        | inr k ↦ elim (Bool-cases (is_string f.kind)) [
          | inl t ↦ rw (e, r, k, t) (string_done c k t)
          | inr t ↦ rw (e, r, k, t) (single_done c r (inr (k, t)) ∙ rw (k, t))
        ]
      ]
    ]
  ]

after_nil :
    (c : Contents)
    → c ≡ after c (record { h_declare = []; cc_encode = []; cc_decode = []; cc_opt = [] })
after_nil c = λ i. record {
  h_declare = sym (append-nil c.h_declare) i;
  cc_encode = sym (append-nil c.cc_encode) i;
  cc_decode = sym (append-nil c.cc_decode) i;
  cc_opt = sym (append-nil c.cc_opt) i;
}

-- On inputs without dollars the loop over the fields of a message puts the specified blocks of all
-- fields, in their order, behind what is there, the functions by key included, or ends as the
-- specification does.
pub gen_fields_lem :
    (s : Source) (fs : List Field) (c : Contents)
    → IsCleanSource s
    → All IsCleanField fs
    → gen_fields s fs c ≡ (c ◂ all_blocks s fs)
unfolding gen_fields all_blocks
gen_fields_lem s [] c hs hf = ap next (after_nil c)
gen_fields_lem s (f ∷ fs) c hs (h, hf) =
    rw (gen_field_lem s f hs h c)
      (go (λ b. gen_fields_lem s fs (after c b) hs hf) (field_blocks s f))
  where
    then_rest :
        (b : Contents) (r : Flow Contents) → (after c b ◂ r) ≡ (c ◂ (r >>= λ bs. next (after b bs)))
    then_rest b (next bs) = ap next (after_assoc c b bs)
    then_rest b returned = refl
    then_rest b (failed e) = refl

    go :
        ((b : Contents) → gen_fields s fs (after c b) ≡ (after c b ◂ all_blocks s fs))
        → (r : Flow Contents)
        → ((c ◂ r) >>= λ c'. gen_fields s fs c')
          ≡ (c ◂ (r >>= λ b. all_blocks s fs >>= λ bs. next (after b bs)))
    go ih (next b) = ih b ∙ then_rest b (all_blocks s fs)
    go ih returned = refl
    go ih (failed e) = refl
