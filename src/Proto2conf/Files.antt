-- ===== src/Proto2conf/Files.antt =====
-- `handle_proto` of tools/proto2conf.py: the root message, and the file it writes.
use mathlib.Core.Path.{sym}
use yarf.Common.{
  ℕ, ◌<◌, ◌≡◌, refl, ap, ◌∙◌, arith, Bool, true, inl, inr, not, all, Option, none, some, List, [],
  ◌∷◌, ◌++◌, if◌then◌else◌, Bool-cases, Result, ok, raised, attribute_error,
}
use yarf.Common.Outcomes.{Ensures-ok}
use yarf.Text.{Text, codes, text_eq}
use yarf.Dict.{Dict, lookup, insert, lookup-insert}
use yarf.Descriptor.{Message, FileDescriptor}
use yarf.Proto2conf.{gen_code, gen_root, collect, handle_proto}
use yarf.Proto2conf.Recursion.{IsRanked, gen_code-Returns}
use yarf.Proto2conf.Braces.{IsBalanced, HasPlainNames, gen_code-IsBalanced}

abbrev pub messages_of : List Message → Text → Dict Message
messages_of msgs root_conf = (collect msgs root_conf [] none).0

nothing_in : (k : Text) → lookup {V = Message} k [] ≡ none
unfolding lookup
nothing_in k = refl

-- The root is the entry of its name in the dictionary.
collect-root :
    (msgs : List Message) (root_conf : Text) (g : Dict Message) (r : Option Message)
    → lookup root_conf g ≡ r
    → lookup root_conf (collect msgs root_conf g r).0 ≡ (collect msgs root_conf g r).1
unfolding collect
collect-root [] root_conf g r h = h
collect-root (msg ∷ msgs) root_conf g r h =
    collect-root msgs root_conf (insert msg.name msg g)
      (if text_eq msg.name root_conf then some msg else r)
      (lookup-insert msg.name root_conf msg g
        ∙ ap (λ (x : Option Message). if text_eq msg.name root_conf then some msg else x) h)

-- No message has the name.
abbrev pub lacks : Text → List Message → Bool
lacks root_conf msgs = all (λ (m : Message). not (text_eq m.name root_conf)) msgs

collect-lacks :
    (msgs : List Message) (root_conf : Text) (g : Dict Message)
    → lacks root_conf msgs ≡ true
    → (collect msgs root_conf g none).1 ≡ none
unfolding collect
collect-lacks [] root_conf g h = refl
collect-lacks (msg ∷ msgs) root_conf g h = elim (Bool-cases (text_eq msg.name root_conf)) [
  | inl q ↦ ground arith
  | inr q ↦ rw (collect, q) (collect-lacks msgs root_conf (insert msg.name msg g) (ground arith))
]

gen_root-some :
    (depth : ℕ) (p : Dict Message × Option Message) (root : Message)
    → p.1 ≡ some root
    → gen_root depth p ≡ gen_code p.0 depth root 0
unfolding gen_root
gen_root-some depth (g, none) root q = cc
gen_root-some depth (g, some m) root q = cc

gen_root-none :
    (depth : ℕ) (p : Dict Message × Option Message)
    → p.1 ≡ none
    → gen_root depth p ≡ raised attribute_error
unfolding gen_root
gen_root-none depth (g, none) q = refl
gen_root-none depth (g, some m) q = cc

-- The end of the call: the file is opened behind the generation.
write_out : Text → Dict Text → Result Text → Dict Text × Result (Unit {0})
write_out file_pre files (ok output) = (insert (file_pre ++ codes ".pb.txt") output files, ok tt)
write_out file_pre files (raised e) = (files, raised e)

-- For a root that is in the file, where every message type that a field of the file's messages has is
-- a message of the file too, with ranks that fall along these types and enough depth for the rank of
-- the root, and with field names free of braces: one file is written, named after the proto file, the
-- others are as they were, the call ends without an exception, and the text closes every brace that it
-- opens, and no other.
pub handle_proto_lem :
    (depth : ℕ) (rank : Message → ℕ) (desc : FileDescriptor) (file_pre root_conf : Text)
    (files : Dict Text) (root : Message)
    → IsRanked rank (messages_of desc.message_type root_conf)
    → HasPlainNames (messages_of desc.message_type root_conf)
    → lookup root_conf (messages_of desc.message_type root_conf) ≡ some root
    → rank root < depth
    → (text : Text) × (handle_proto depth (ok desc) file_pre root_conf files
        ≡ (insert (file_pre ++ codes ".pb.txt") text files, ok tt))
      × IsBalanced text
unfolding handle_proto write_out
handle_proto_lem depth rank desc file_pre root_conf files root r n e lt =
    let msgs = desc.message_type in
    let g = messages_of msgs root_conf in
    let (text, q) = gen_code-Returns rank g r depth root_conf root 0 e lt in
    (
      text,
      ap (λ x. write_out file_pre files x)
          (gen_root-some depth (collect msgs root_conf [] none) root
              (sym (collect-root msgs root_conf [] none (nothing_in root_conf)) ∙ e)
            ∙ q),
      Ensures-ok IsBalanced (gen_code g depth root 0) text
          (gen_code-IsBalanced g n depth root_conf root 0 e) q,
    )

-- Without a message of the root's name the call raises AttributeError, and all files are as they were.
pub handle_proto-lacks :
    (depth : ℕ) (desc : FileDescriptor) (file_pre root_conf : Text) (files : Dict Text)
    → lacks root_conf desc.message_type ≡ true
    → handle_proto depth (ok desc) file_pre root_conf files ≡ (files, raised attribute_error)
unfolding handle_proto write_out
handle_proto-lacks depth desc file_pre root_conf files h =
    ap (λ x. write_out file_pre files x)
      (gen_root-none depth (collect desc.message_type root_conf [] none)
        (collect-lacks desc.message_type root_conf [] h))
