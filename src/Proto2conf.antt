-- ===== src/Proto2conf.antt =====
-- tools/proto2conf.py: a text configuration with a default for every field of a root message.
-- Python's limit on the depth of calls is a number here: how many calls of `gen_code` may stand on
-- one another.
mod Recursion
mod Braces
mod Files
pub mod Driver
mod Tests
use mathlib.Core.List.{get_last?}
use yarf.Common.{
  ℕ, zero, suc, ◌+◌, ◌-◌, Bool, true, false, Option, none, some, List, [], ◌∷◌, ◌++◌, if◌then◌else◌,
  replicate, Result, ok, raised, key_error, recursion_error, attribute_error, ◌>>=◌,
}
use yarf.Text.{last_part, Text, codes, unlines, text_eq, replace, split}
use yarf.Dict
use yarf.Dict.{Dict}
use yarf.Descriptor.{
  FieldType, type_message, type_string, Label, label_repeated, Field, Message, FileDescriptor,
}

unfoldable pub conf_single_field : Text
conf_single_field = unlines ("$$field$$: 0 " ∷ [])

unfoldable pub conf_string_field : Text
conf_string_field = unlines ("$$field$$: \"\" " ∷ [])

unfoldable pub conf_struct_field_begin : Text
conf_struct_field_begin = unlines ("$$field$$: {" ∷ [])

unfoldable pub conf_struct_field_end : Text
conf_struct_field_end = unlines ("}" ∷ [])

-- for idx in range(1, indent): ret = ret + " "
abbrev pub spaces : ℕ → Text
spaces indent = replicate (indent - 1) 32

-- field_name_vec[ len(field_name_vec)-1 ]
unfoldable pub type_key : Text → Text
unfolding split
type_key type_name = last_part (split (codes ".") type_name)

-- What the name of a field is put into, by its type.
unfoldable pub gen_leaf : FieldType → Text → Text
unfolding replace conf_string_field conf_single_field
gen_leaf type_string name = replace (codes "$$field$$") name conf_string_field
gen_leaf _ name = replace (codes "$$field$$") name conf_single_field

-- The functions take the call of `gen_code` one level down as `sub`.
module _ (g_all_msg : Dict Message) (sub : Message → ℕ → Result Text) where
  -- A message's type is looked up; the entries of the dictionary are never None.
  unfoldable pub gen_struct : Text → Text → ℕ → Result Text
  unfolding Dict.lookup type_key replace conf_struct_field_begin conf_struct_field_end
  gen_struct name type_name indent = elim (Dict.lookup (type_key type_name) g_all_msg) [
    | none ↦ raised key_error
    | some msg ↦ (do
      body ← sub msg (indent + 2)
      ok (
          spaces indent
          ++ (replace (codes "$$field$$") name conf_struct_field_begin
              ++ (body ++ (spaces indent ++ conf_struct_field_end)))))
  ]

  unfoldable pub gen_of_kind : FieldType → Text → Text → ℕ → Result Text
  unfolding gen_struct gen_leaf
  gen_of_kind type_message name type_name indent = gen_struct name type_name indent
  gen_of_kind kind name type_name indent = ok (spaces indent ++ gen_leaf kind name)

  unfoldable pub gen_single_code : Field → ℕ → Result Text
  unfolding gen_of_kind
  gen_single_code field indent = gen_of_kind field.kind field.name field.type_name indent

  -- A repeated field is written twice.
  unfoldable pub gen_twice : Label → Field → ℕ → Result Text
  unfolding gen_single_code
  gen_twice label_repeated field indent = do
    once ← gen_single_code field indent
    again ← gen_single_code field indent
    ok (once ++ again)
  gen_twice _ field indent = gen_single_code field indent

  unfoldable pub gen_fields : List Field → ℕ → Result Text
  unfolding gen_twice
  gen_fields [] indent = ok []
  gen_fields (field ∷ fields) indent = do
    here ← gen_twice field.label field indent
    rest ← gen_fields fields indent
    ok (here ++ rest)

unfoldable pub gen_code : Dict Message → ℕ → Message → ℕ → Result Text
gen_code g_all_msg zero root_conf indent = raised recursion_error
gen_code g_all_msg (suc depth) root_conf indent =
    gen_fields g_all_msg (gen_code g_all_msg depth) root_conf.field indent

-- The loop over the messages of `handle_proto`: the dictionary, and the last message of that name.
unfoldable pub collect :
    List Message → Text → Dict Message → Option Message → Dict Message × Option Message
unfolding Dict.insert text_eq
collect [] root_conf g_all_msg root_type = (g_all_msg, root_type)
collect (msg ∷ msgs) root_conf g_all_msg root_type =
    collect msgs root_conf (Dict.insert msg.name msg g_all_msg)
      (if text_eq msg.name root_conf then some msg else root_type)

unfoldable pub gen_root : ℕ → Dict Message × Option Message → Result Text
gen_root depth (g_all_msg, none) = raised attribute_error
gen_root depth (g_all_msg, some root) = gen_code g_all_msg depth root 0

-- `handle_proto` on the descriptor that protoc makes of the file, or on the failure to get one. The
-- file is opened only after the generation; the files are as the call leaves them, also behind an
-- exception.
unfoldable pub handle_proto :
    ℕ → Result FileDescriptor → Text → Text → Dict Text → Dict Text × Result (Unit {0})
unfolding collect gen_root Dict.insert
handle_proto depth (raised e) file_pre root_conf files = (files, raised e)
handle_proto depth (ok proto_desc) file_pre root_conf files =
    elim (gen_root depth (collect proto_desc.message_type root_conf [] none)) [
      | ok output ↦ (Dict.insert (file_pre ++ codes ".pb.txt") output files, ok tt)
      | raised e ↦ (files, raised e)
    ]
