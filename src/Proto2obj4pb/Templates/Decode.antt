-- ===== src/Proto2obj4pb/Templates/Decode.antt =====
-- The templates of `FromProtobuf` in tools/proto2obj4pb.py.
use yarf.Common.{[], ◌∷◌, ◌++◌}
use yarf.Text.{Text, codes, unlines}

unfoldable pub cc_decode_begin : Text
cc_decode_begin =
    unlines (
      "" ∷ "bool $$ns$$::$$class_name$$::FromProtobuf(const char* buf, size_t len) {"
      ∷ "    Proto::$$ns$$::$$class_name$$ input;" ∷ "    if (!input.ParseFromArray(buf, len)){"
      ∷ "        return false;" ∷ "    }" ∷ "" ∷ "    return FromProtobuf(input);" ∷ "}" ∷ ""
      ∷ "bool $$ns$$::$$class_name$$::FromProtobuf(const Proto::$$ns$$::$$class_name$$& input)"
      ∷ [])
    ++ codes "{"

unfoldable pub cc_decode_struct_vec_field : Text
cc_decode_struct_vec_field = unlines (
    "" ∷ "    auto cur_$$field$$_size = static_cast<uint32_t>(input.$$field$$_size());"
    ∷ "    if ( cur_$$field$$_size  > MAX_$$field_upper$$_SIZE ) {" ∷ "        return false;"
    ∷ "    }" ∷ "    this->$$field$$_size = cur_$$field$$_size;"
    ∷ "    for (uint32_t idx = 0; idx < cur_$$field$$_size; ++idx) {"
    ∷ "        if ( !this->$$field$$[idx].FromProtobuf(input.$$field$$(idx))){"
    ∷ "            return false;" ∷ "        }" ∷ "    }" ∷ [])

unfoldable pub cc_decode_simple_vec_field : Text
cc_decode_simple_vec_field = unlines (
    "" ∷ "    auto cur_$$field$$_size = static_cast<uint32_t>(input.$$field$$_size());"
    ∷ "    if ( cur_$$field$$_size  > MAX_$$field_upper$$_SIZE ) {" ∷ "        return false;"
    ∷ "    }" ∷ "    this->$$field$$_size = cur_$$field$$_size;"
    ∷ "    for (uint32_t idx = 0; idx < cur_$$field$$_size; ++idx) {"
    ∷ "        this->$$field$$[idx] = input.$$field$$(idx);" ∷ "    }" ∷ [])

unfoldable pub cc_decode_simple_field : Text
cc_decode_simple_field = unlines ("" ∷ "    this->$$field$$ = input.$$field$$();" ∷ [])

unfoldable pub cc_decode_string_field : Text
cc_decode_string_field =
    unlines
      ("" ∷ "    this->set_$$field$$(input.$$field$$().c_str(), input.$$field$$().size());" ∷ [])

unfoldable pub cc_decode_struct_field : Text
cc_decode_struct_field = unlines (
    "" ∷ "    if ( !this->$$field$$.FromProtobuf( input.$$field$$() ) ) {" ∷ "        return false;"
    ∷ "    }" ∷ [])

unfoldable pub code_decode_end : Text
code_decode_end = unlines ("" ∷ "    return true;" ∷ "}" ∷ [])
