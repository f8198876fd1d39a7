-- ===== src/Proto2obj4pb/Templates/Encode.antt =====
-- The templates of the source file in tools/proto2obj4pb.py: its head and `ToProtobuf`.
use yarf.Common.{[], ◌∷◌, ◌++◌}
use yarf.Text.{Text, codes, unlines}

unfoldable pub cc_begin : Text
cc_begin = unlines ("#include \"$$file_pre$$_rawdata.h\"" ∷ [])

unfoldable pub cc_encode_begin : Text
cc_encode_begin =
    unlines (
      "" ∷ "bool $$ns$$::$$class_name$$::ToProtobuf("
      ∷ "    Proto::$$ns$$::$$class_name$$* target) const {" ∷ "    if (nullptr == target) {"
      ∷ "        return false;" ∷ [])
    ++ codes "    }"

unfoldable pub cc_encode_simple_field : Text
cc_encode_simple_field = unlines ("" ∷ "    target->set_$$field$$(this->$$field$$);" ∷ [])

unfoldable pub cc_encode_struct_field : Text
cc_encode_struct_field = unlines (
    "" ∷ "    if ( !this->$$field$$.ToProtobuf(target->mutable_$$field$$()) ) {"
    ∷ "        return false;" ∷ "    }" ∷ [])

unfoldable pub cc_encode_string_field : Text
cc_encode_string_field =
    unlines ("" ∷ "    target->set_$$field$$(this->$$field$$, this->$$field$$_size);" ∷ [])

unfoldable pub cc_encode_simple_vec_field : Text
cc_encode_simple_vec_field = unlines (
    "" ∷ "    for (uint32_t idx = 0; idx < this->$$field$$_size; ++idx) {"
    ∷ "        target->add_$$field$$(this->$$field$$[idx]);" ∷ "    }" ∷ [])

unfoldable pub cc_encode_struct_vec_field : Text
cc_encode_struct_vec_field = unlines (
    "" ∷ "    for (uint32_t idx = 0; idx < this->$$field$$_size; ++idx) {"
    ∷ "        auto new_$$field$$ = target->add_$$field$$();"
    ∷ "        if (nullptr == new_$$field$$) {" ∷ "            return false;" ∷ "        }"
    ∷ "        if (!this->$$field$$[idx].ToProtobuf(new_$$field$$)) {" ∷ "            return false;"
    ∷ "        }" ∷ "    }" ∷ [])

unfoldable pub cc_encode_end : Text
cc_encode_end = unlines ("   " ∷ "    return true;" ∷ "}" ∷ [])
