-- ===== src/Proto2conf/Tests.antt =====
-- Runs of tools/proto2conf.py on small descriptors, and the theorems at them.
use Prim.Native.String.{String}
use mathlib.Core.Path.{subst, sym}
use yarf.Common.{
  ℕ, ap, ◌∙◌, ◌<◌, ◌≡◌, refl, true, some, List, [], ◌∷◌, ◌++◌, arith, All, ok, raised,
  attribute_error, Result, false, io_error,
}
use yarf.Common.Outcomes.{Returns, Fails, Ensures}
use yarf.Text.{Text, codes, text_eq}
use yarf.Dict.{Dict, lookup, insert, lookup-All}
use yarf.Descriptor.{
  type_uint32, type_string, type_message, label_optional, label_repeated, Field, Message,
  FileDescriptor,
}
use yarf.Proto2conf.{
  gen_code, handle_proto, collect, type_key, gen_fields, gen_twice, gen_single_code, gen_of_kind,
  gen_struct, gen_leaf, conf_single_field, conf_string_field, conf_struct_field_begin,
  conf_struct_field_end,
}
use yarf.Proto2conf.Recursion.{Resolves, IsRanked, gen_code-Returns, gen_code-Fails}
use yarf.Proto2conf.Braces.{no_brace, IsBalanced, HasPlainNames, gen_code-IsBalanced}
use yarf.Proto2conf.Driver.{run, run_frame}
use yarf.Proto2conf.Files.{messages_of, lacks, handle_proto_lem, handle_proto-lacks}

abbrev item : Message
item = record {
  name = codes "Item";
  field =
      record { name = codes "id"; label = label_optional; kind = type_uint32; type_name = [] }
      ∷ record { name = codes "title"; label = label_optional; kind = type_string; type_name = [] }
      ∷ [];
}

abbrev bag : Message
bag = record {
  name = codes "Bag";
  field =
      record {
        name = codes "part";
        label = label_repeated;
        kind = type_message;
        type_name = codes ".Proto.Item";
      }
      ∷ [];
}

abbrev demo : FileDescriptor
demo = record { package_name = codes "Proto"; dependency = []; message_type = item ∷ bag ∷ [] }

abbrev demo_messages : Dict Message
demo_messages = (codes "Item", item) ∷ (codes "Bag", bag) ∷ []

messages_of_demo : messages_of (item ∷ bag ∷ []) (codes "Bag") ≡ demo_messages
unfolding collect insert text_eq
messages_of_demo = refl

abbrev line : String → Text
line s = codes s ++ (10 ∷ [])

-- A nested message is opened with no space before it, and what it holds has one space.
gen_code_demo :
    gen_code demo_messages 2 bag 0
    ≡ ok (
        line "part: {"
        ++ line " id: 0 "
        ++ line " title: \"\" "
        ++ line "}"
        ++ line "part: {"
        ++ line " id: 0 "
        ++ line " title: \"\" "
        ++ line "}")
unfolding gen_code gen_fields gen_twice gen_single_code gen_of_kind gen_struct gen_leaf
    conf_single_field conf_string_field conf_struct_field_begin conf_struct_field_end type_key
    text_eq lookup
gen_code_demo = refl

abbrev demo_rank : Message → ℕ
demo_rank m = elim m.field [ [] ↦ 0 | x ∷ xs ↦ elim xs [ [] ↦ 1 | _ ∷ _ ↦ 0 ] ]

demo-IsRanked : IsRanked demo_rank demo_messages
unfolding type_key lookup text_eq
demo-IsRanked k m q =
    lookup-All
      (λ (m : Message).
        All
          (λ field.
            field.kind ≡ type_message
            → Resolves (λ m'. demo_rank m' < demo_rank m) demo_messages field)
          m.field)
      k demo_messages m (((λ e. cc), ((λ e. cc), tt)), (((λ e. (item, refl, omega arith)), tt), tt))
      q

demo-HasPlainNames : HasPlainNames demo_messages
unfolding no_brace
demo-HasPlainNames k m q =
    lookup-All (λ (m : Message). All (λ field. no_brace field.name ≡ true) m.field) k demo_messages
      m ((refl, (refl, tt)), ((refl, tt), tt)) q

bag_found : lookup (codes "Bag") demo_messages ≡ some bag
unfolding lookup text_eq
bag_found = refl

gen_code-Returns_example : Returns (gen_code demo_messages 2 bag 0)
gen_code-Returns_example =
    gen_code-Returns demo_rank demo_messages demo-IsRanked 2 (codes "Bag") bag 0 bag_found
      (omega arith)

gen_code-IsBalanced_example : Ensures IsBalanced (gen_code demo_messages 2 bag 0)
gen_code-IsBalanced_example =
    gen_code-IsBalanced demo_messages demo-HasPlainNames 2 (codes "Bag") bag 0 bag_found

abbrev kept_files : Dict Text
kept_files = (codes "keep.txt", codes "kept") ∷ []

handle_proto_lem_example :
    (text : Text) × (handle_proto 2 (ok demo) (codes "demo") (codes "Bag") kept_files
      ≡ (insert (codes "demo" ++ codes ".pb.txt") text kept_files, ok tt))
    × IsBalanced text
handle_proto_lem_example =
    handle_proto_lem 2 demo_rank demo (codes "demo") (codes "Bag") kept_files bag
      (subst (IsRanked demo_rank) (sym messages_of_demo) demo-IsRanked)
      (subst HasPlainNames (sym messages_of_demo) demo-HasPlainNames)
      (ap (lookup (codes "Bag")) messages_of_demo ∙ bag_found) (omega arith)

demo_lacks : lacks (codes "Root") demo.message_type ≡ true
unfolding text_eq
demo_lacks = refl

handle_proto-lacks_example :
    handle_proto 2 (ok demo) (codes "demo") (codes "Root") kept_files
    ≡ (kept_files, raised attribute_error)
handle_proto-lacks_example =
    handle_proto-lacks 2 demo (codes "demo") (codes "Root") kept_files demo_lacks

abbrev node_next : Field
node_next = record {
  name = codes "next";
  label = label_optional;
  kind = type_message;
  type_name = codes ".Proto.Node";
}

-- A list as proto files write it.
abbrev node : Message
node = record { name = codes "Node"; field = node_next ∷ [] }

abbrev node_messages : Dict Message
node_messages = (codes "Node", node) ∷ []

node_loops :
    (m : Message)
    → m ≡ node
    → (before : List Field) × (field : Field) × (after : List Field) × (m.field
        ≡ before ++ field ∷ after)
      × (field.kind ≡ type_message)
      × Resolves (λ m'. m' ≡ node) node_messages field
unfolding type_key lookup text_eq
node_loops m q = ([], node_next, [], ap (λ (x : Message). x.field) q, refl, (node, refl, refl))

gen_code-Fails_example : Fails (gen_code node_messages 1000 node 0)
gen_code-Fails_example = gen_code-Fails (λ m. m ≡ node) node_messages node_loops 1000 node 0 refl

abbrev no_change : Text → Dict Text → Dict Text
no_change command files = files

abbrev no_descriptor : Text → Result FileDescriptor
no_descriptor bytes = raised io_error

is_other_file : text_eq (codes "demo" ++ codes ".pb.txt") (codes "keep.txt") ≡ false
unfolding text_eq
is_other_file = refl

run_frame_example :
    lookup
      (codes "keep.txt")
      (run (codes "Linux") no_change no_descriptor 10 (codes "demo") (codes "Bag") kept_files).0
    ≡ lookup (codes "keep.txt") kept_files
run_frame_example =
    run_frame (codes "Linux") no_change no_descriptor (codes "keep.txt") (λ command files. refl) 10
      (codes "demo") (codes "Bag") kept_files is_other_file
