-- ===== src/Proto2conf/Braces.antt =====
-- The braces in the texts that `gen_code` of tools/proto2conf.py returns.
use mathlib.Core.List.{append_assoc}
use yarf.Common.{
  ℕ, zero, suc, ◌+◌, ◌-◌, ◌≡◌, refl, ap, ◌∙◌, arith, Bool, true, ◌&&◌, not, Option, none, some,
  Option-cases, inl, inr, List, [], ◌∷◌, ◌++◌, All, replicate, Result, ◌==◌, if◌then◌else◌,
}
use yarf.Common.Outcomes.{Ensures, Ensures->>=}
use yarf.Text.{Text, codes, replace}
use yarf.Dict.{Dict, lookup}
use yarf.Descriptor.{FieldType, type_message, type_string, Label, label_repeated, Field, Message}
use yarf.Proto2conf.{
  spaces, conf_single_field, conf_string_field, conf_struct_field_begin, conf_struct_field_end,
  type_key, gen_leaf, gen_struct, gen_of_kind, gen_single_code, gen_twice, gen_fields, gen_code,
}

-- Reading one character with `n` braces open; `none` where a brace closes that was not open.
unfoldable pub brace : ℕ → ℕ → Option ℕ
brace c n =
    if c == b'{'
    then some (suc n)
    else if c == b'}'
    then (elim n [ zero ↦ none | suc k ↦ some k ])
    else some n

unfoldable pub braces : Text → ℕ → Option ℕ
unfolding brace
braces [] n = some n
braces (c ∷ s) n = elim (brace c n) [ none ↦ none | some k ↦ braces s k ]

-- No brace is closed that the text has not opened, and none is left open.
abbrev pub IsBalanced : Text → Type 0
IsBalanced s = (n : ℕ) → braces s n ≡ some n

unfoldable pub no_brace : Text → Bool
no_brace [] = true
no_brace (c ∷ s) = not (c == b'{') && (not (c == b'}') && no_brace s)

abbrev then_braces : Text → Option ℕ → Option ℕ
then_braces t none = none
then_braces t (some k) = braces t k

braces-append : (s t : Text) (n : ℕ) → braces (s ++ t) n ≡ then_braces t (braces s n)
unfolding braces
braces-append [] t n = refl
braces-append (c ∷ s) t n = step (brace c n) (λ k. braces-append s t k)
  where
    step :
        (o : Option ℕ)
        → ((k : ℕ) → braces (s ++ t) k ≡ then_braces t (braces s k))
        → elim o [ none ↦ none | some k ↦ braces (s ++ t) k ]
          ≡ then_braces t (elim o [ none ↦ none | some k ↦ braces s k ])
    step none f = refl
    step (some k) f = f k

brace-other : (c n : ℕ) → not (c == b'{') && not (c == b'}') ≡ true → brace c n ≡ some n
unfolding brace
brace-other c n h = ground arith

no_brace-IsBalanced : (s : Text) → no_brace s ≡ true → IsBalanced s
unfolding braces no_brace
no_brace-IsBalanced [] h n = refl
no_brace-IsBalanced (c ∷ s) h n =
    rw (braces, brace-other c n (ground arith)) (no_brace-IsBalanced s (ground arith) n)

replicate-IsBalanced : (k : ℕ) → IsBalanced (replicate k 32)
unfolding braces brace
replicate-IsBalanced zero n = refl
replicate-IsBalanced (suc k) n = replicate-IsBalanced k n

braces-skip : (s t : Text) (n : ℕ) → IsBalanced s → braces (s ++ t) n ≡ braces t n
braces-skip s t n h = braces-append s t n ∙ ap (then_braces t) (h n)

append-IsBalanced : (s t : Text) → IsBalanced s → IsBalanced t → IsBalanced (s ++ t)
append-IsBalanced s t hs ht n = braces-skip s t n hs ∙ ht n

gen_leaf-IsBalanced :
    (kind : FieldType) (name : Text) → no_brace name ≡ true → IsBalanced (gen_leaf kind name)
unfolding gen_leaf conf_single_field conf_string_field braces brace
gen_leaf-IsBalanced type_string name h =
    append-IsBalanced name (codes ": \"\" " ++ (10 ∷ [])) (no_brace-IsBalanced name h) (λ n. refl)
gen_leaf-IsBalanced _ name h =
    append-IsBalanced name (codes ": 0 " ++ (10 ∷ [])) (no_brace-IsBalanced name h) (λ n. refl)

opening :
    (name rest : Text)
    → replace (codes "$$field$$") name conf_struct_field_begin ++ rest
      ≡ name ++ ((codes ": {" ++ (10 ∷ [])) ++ rest)
unfolding replace conf_struct_field_begin
opening name rest = append_assoc name (codes ": {" ++ (10 ∷ [])) rest

-- The lines of a nested message around its text.
block-IsBalanced :
    (indent : ℕ) (name body : Text)
    → no_brace name ≡ true
    → IsBalanced body
    → IsBalanced (
        spaces indent
        ++ (replace (codes "$$field$$") name conf_struct_field_begin
            ++ (body ++ (spaces indent ++ conf_struct_field_end))))
unfolding replace conf_struct_field_begin conf_struct_field_end braces brace
block-IsBalanced indent name body hn hb =
    append-IsBalanced (spaces indent) _ (replicate-IsBalanced (indent - 1)) (λ n.
      ap (λ (x : Text). braces x n)
        (opening name (body ++ (spaces indent ++ conf_struct_field_end)))
      ∙ braces-skip name _ n (no_brace-IsBalanced name hn)
      ∙ braces-skip body (spaces indent ++ conf_struct_field_end) (suc n) hb
      ∙ braces-skip (spaces indent) conf_struct_field_end (suc n)
          (replicate-IsBalanced (indent - 1)))

-- The names of the fields, in every message of the dictionary, hold no brace.
abbrev pub HasPlainNames : Dict Message → Type 0
HasPlainNames g =
    (k : Text) (m : Message)
    → lookup k g ≡ some m
    → All (λ field. no_brace field.name ≡ true) m.field

module _ (g : Dict Message) (sub : Message → ℕ → Result Text)
    (sub-balanced : (k : Text) (m : Message) (i : ℕ)
      → lookup k g ≡ some m
      → Ensures IsBalanced (sub m i)) where
  gen_struct-IsBalanced :
      (name type_name : Text) (indent : ℕ)
      → no_brace name ≡ true
      → Ensures IsBalanced (gen_struct g sub name type_name indent)
  unfolding gen_struct
  gen_struct-IsBalanced name type_name indent h =
      elim (Option-cases (lookup (type_key type_name) g)) [
        | inl q ↦ rw (q, gen_struct) tt
        | inr (m, q) ↦
            rw (q, gen_struct)
              (Ensures->>= IsBalanced IsBalanced (sub m (indent + 2)) _
                (sub-balanced (type_key type_name) m (indent + 2) q)
                (λ body hb. block-IsBalanced indent name body h hb))
      ]

  gen_of_kind-IsBalanced :
      (kind : FieldType) (name type_name : Text) (indent : ℕ)
      → no_brace name ≡ true
      → Ensures IsBalanced (gen_of_kind g sub kind name type_name indent)
  unfolding gen_of_kind
  gen_of_kind-IsBalanced type_message name type_name indent h =
      gen_struct-IsBalanced name type_name indent h
  gen_of_kind-IsBalanced kind name type_name indent h =
      append-IsBalanced (spaces indent) (gen_leaf kind name) (replicate-IsBalanced (indent - 1))
        (gen_leaf-IsBalanced kind name h)

  gen_twice-IsBalanced :
      (l : Label) (field : Field) (indent : ℕ)
      → Ensures IsBalanced (gen_single_code g sub field indent)
      → Ensures IsBalanced (gen_twice g sub l field indent)
  unfolding gen_twice
  gen_twice-IsBalanced label_repeated field indent h =
      Ensures->>= IsBalanced IsBalanced (gen_single_code g sub field indent) _ h (λ a ha.
        Ensures->>= IsBalanced IsBalanced (gen_single_code g sub field indent) _ h
          (λ b hb. append-IsBalanced a b ha hb))
  gen_twice-IsBalanced _ field indent h = h

  gen_fields-IsBalanced :
      (fields : List Field) (indent : ℕ)
      → All (λ field. no_brace field.name ≡ true) fields
      → Ensures IsBalanced (gen_fields g sub fields indent)
  unfolding gen_fields gen_single_code braces
  gen_fields-IsBalanced [] indent h = λ n. refl
  gen_fields-IsBalanced (field ∷ fields) indent (h, hs) =
      Ensures->>= IsBalanced IsBalanced (gen_twice g sub field.label field indent) _
        (gen_twice-IsBalanced field.label field indent
          (gen_of_kind-IsBalanced field.kind field.name field.type_name indent h))
        (λ a ha.
          Ensures->>= IsBalanced IsBalanced (gen_fields g sub fields indent) _
            (gen_fields-IsBalanced fields indent hs) (λ b hb. append-IsBalanced a b ha hb))

pub gen_code-IsBalanced :
    (g : Dict Message)
    → HasPlainNames g
    → (depth : ℕ) (k : Text) (m : Message) (indent : ℕ) → lookup k g ≡ some m
    → Ensures IsBalanced (gen_code g depth m indent)
unfolding gen_code
gen_code-IsBalanced g h zero k m indent e = tt
gen_code-IsBalanced g h (suc depth) k m indent e =
    gen_fields-IsBalanced g (gen_code g depth)
      (λ k' m' i e'. gen_code-IsBalanced g h depth k' m' i e') m.field indent (h k m e)
