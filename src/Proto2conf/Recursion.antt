-- ===== src/Proto2conf/Recursion.antt =====
-- When the recursion of `gen_code` of tools/proto2conf.py through the message types ends.
use mathlib.Core.Path.{subst, sym}
use yarf.Common.{
  ℕ, zero, suc, ◌+◌, ◌<◌, ◌≡◌, refl, arith, some, List, [], ◌∷◌, ◌++◌, All, Result, recursion_error,
}
use yarf.Common.Outcomes.{Returns, Fails, Returns->>=, Fails->>=, Fails->>=_after}
use yarf.Text.{Text}
use yarf.Dict.{Dict, lookup}
use yarf.Descriptor.{FieldType, type_message, Label, label_repeated, Field, Message}
use yarf.Proto2conf.{
  type_key, gen_struct, gen_of_kind, gen_single_code, gen_twice, gen_fields, gen_code,
}

-- A field of a message type names a message of the dictionary for which `P` holds.
abbrev pub Resolves : (Message → Type 0) → Dict Message → Field → Type 0
Resolves P g_all_msg field =
    (m : Message) × (lookup (type_key field.type_name) g_all_msg ≡ some m) × P m

-- Every message type that a message of the dictionary uses is in it, and has a smaller rank.
abbrev pub IsRanked : (Message → ℕ) → Dict Message → Type 0
IsRanked rank g_all_msg =
    (k : Text) (m : Message)
    → lookup k g_all_msg ≡ some m
    → All (λ field. field.kind ≡ type_message → Resolves (λ m'. rank m' < rank m) g_all_msg field)
        m.field

module _ (g : Dict Message) (sub : Message → ℕ → Result Text) where
  gen_struct-Returns :
      (name type_name : Text) (indent : ℕ) (m : Message)
      → lookup (type_key type_name) g ≡ some m
      → Returns (sub m (indent + 2))
      → Returns (gen_struct g sub name type_name indent)
  unfolding gen_struct
  gen_struct-Returns name type_name indent m e h =
      rw (e, gen_struct) (Returns->>= (sub m (indent + 2)) _ h (λ a. (_, refl)))

  gen_of_kind-Returns :
      (kind : FieldType) (name type_name : Text) (indent : ℕ)
      → (kind ≡ type_message → Returns (gen_struct g sub name type_name indent))
      → Returns (gen_of_kind g sub kind name type_name indent)
  unfolding gen_of_kind
  gen_of_kind-Returns type_message name type_name indent h = h refl
  gen_of_kind-Returns _ name type_name indent h = (_, refl)

  gen_twice-Returns :
      (l : Label) (field : Field) (indent : ℕ)
      → Returns (gen_single_code g sub field indent)
      → Returns (gen_twice g sub l field indent)
  unfolding gen_twice
  gen_twice-Returns label_repeated field indent h =
      Returns->>= (gen_single_code g sub field indent) _ h
        (λ a. Returns->>= (gen_single_code g sub field indent) _ h (λ b. (_, refl)))
  gen_twice-Returns _ field indent h = h

  gen_twice-Fails :
      (l : Label) (field : Field) (indent : ℕ)
      → Fails (gen_single_code g sub field indent)
      → Fails (gen_twice g sub l field indent)
  unfolding gen_twice
  gen_twice-Fails label_repeated field indent h = Fails->>= (gen_single_code g sub field indent) _ h
  gen_twice-Fails _ field indent h = h

  gen_fields-Returns :
      (P : Message → Type 0) (fields : List Field) (indent : ℕ)
      → All (λ field. field.kind ≡ type_message → Resolves P g field) fields
      → ((k : Text) (m : Message) → lookup k g ≡ some m → P m → Returns (sub m (indent + 2)))
      → Returns (gen_fields g sub fields indent)
  unfolding gen_fields gen_single_code
  gen_fields-Returns P [] indent h f = (_, refl)
  gen_fields-Returns P (field ∷ fields) indent (h, hs) f =
      Returns->>= (gen_twice g sub field.label field indent) _
        (gen_twice-Returns field.label field indent (
          gen_of_kind-Returns field.kind field.name field.type_name indent (λ q.
            let (m, e, p) = h q in
            gen_struct-Returns field.name field.type_name indent m e
              (f (type_key field.type_name) m e p))))
        (λ a.
          Returns->>= (gen_fields g sub fields indent) _ (gen_fields-Returns P fields indent hs f)
            (λ b. (_, refl)))

  gen_fields-Fails :
      (before : List Field) (field : Field) (after : List Field) (indent : ℕ)
      → Fails (gen_single_code g sub field indent)
      → Fails (gen_fields g sub (before ++ field ∷ after) indent)
  unfolding gen_fields
  gen_fields-Fails [] field after indent h =
      Fails->>= (gen_twice g sub field.label field indent) _
        (gen_twice-Fails field.label field indent h)
  gen_fields-Fails (x ∷ before) field after indent h =
      Fails->>=_after (gen_twice g sub x.label x indent) _ (λ a.
        Fails->>= (gen_fields g sub (before ++ field ∷ after) indent) _
          (gen_fields-Fails before field after indent h))

  gen_struct-Fails :
      (name type_name : Text) (indent : ℕ) (m : Message)
      → lookup (type_key type_name) g ≡ some m
      → Fails (sub m (indent + 2))
      → Fails (gen_struct g sub name type_name indent)
  unfolding gen_struct
  gen_struct-Fails name type_name indent m e h =
      rw (e, gen_struct) (Fails->>= (sub m (indent + 2)) _ h)

  gen_of_kind-message :
      (kind : FieldType) (name type_name : Text) (indent : ℕ)
      → kind ≡ type_message
      → gen_of_kind g sub kind name type_name indent ≡ gen_struct g sub name type_name indent
  unfolding gen_of_kind
  gen_of_kind-message kind name type_name indent q = rw q refl

-- Where every message type that a message of the dictionary uses is in the dictionary too, with ranks
-- that fall from a message to those it uses, the generation of a message of the dictionary returns a
-- text if more calls may stand on one another than the rank of the message.
pub gen_code-Returns :
    (rank : Message → ℕ) (g : Dict Message)
    → IsRanked rank g
    → (depth : ℕ) (k : Text) (m : Message) (indent : ℕ) → lookup k g ≡ some m
    → rank m < depth
    → Returns (gen_code g depth m indent)
unfolding gen_code
gen_code-Returns rank g r zero k m indent e lt = absurd (omega arith)
gen_code-Returns rank g r (suc depth) k m indent e lt =
    gen_fields-Returns g (gen_code g depth) (λ m'. rank m' < rank m) m.field indent (r k m e)
      (λ k' m' e' p. gen_code-Returns rank g r depth k' m' (indent + 2) e' (omega arith))

-- Where every message of a set has, among its fields, one of a message type of that set, the
-- generation of a message of the set raises an exception, however deep the calls may stand.
pub gen_code-Fails :
    (P : Message → Type 0) (g : Dict Message)
    → ((m : Message)
        → P m
        → (before : List Field) × (field : Field) × (after : List Field) × (m.field
            ≡ before ++ field ∷ after)
          × (field.kind ≡ type_message)
          × Resolves P g field)
    → (depth : ℕ) (m : Message) (indent : ℕ) → P m
    → Fails (gen_code g depth m indent)
unfolding gen_code gen_single_code
gen_code-Fails P g h zero m indent p = (recursion_error, refl)
gen_code-Fails P g h (suc depth) m indent p =
    let (before, field, after, q, t, r) = h m p in
    let (m', e, p') = r in
    subst (λ (fs : List Field). Fails (gen_fields g (gen_code g depth) fs indent)) (sym q)
      (gen_fields-Fails g (gen_code g depth) before field after indent (
        rw (gen_of_kind-message g (gen_code g depth) field.kind field.name field.type_name indent t)
          (gen_struct-Fails g (gen_code g depth) field.name field.type_name indent m' e
            (gen_code-Fails P g h depth m' (indent + 2) p'))))
