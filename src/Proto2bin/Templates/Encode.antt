-- ===== src/Proto2bin/Templates/Encode.antt =====
-- The templates of the source file in tools/proto2bin.py: its head and `Encode`.
use yarf.Common.{[], ◌∷◌}
use yarf.Text.{Text, unlines}

unfoldable pub cc_begin : Text
cc_begin = unlines ("#include \"$$file_pre$$_binpack.h\"" ∷ [])

unfoldable pub cc_encode_begin : Text
cc_encode_begin = unlines (
    "" ∷ "bool $$ns$$::$$class_name$$::Encode(char* data, int& len) const {"
    ∷ "  if (nullptr == data) {" ∷ "    return false;" ∷ "  }"
    ∷ "  yarf::net::BinEncoder packer(data, len);" ∷ [])

unfoldable pub cc_encode_simple_field : Text
cc_encode_simple_field = unlines ("" ∷ "  if (!packer.Write($$field$$)) {return false;}" ∷ [])

unfoldable pub cc_encode_struct_field : Text
cc_encode_struct_field = unlines (
    "" ∷ "  while (true) {" ∷ "    int sub_pos = packer.WritePos() + sizeof(uint32_t);"
    ∷ "    int sub_len = len - sub_pos;" ∷ "    if ( !$$field$$.Encode( data + sub_pos, sub_len)) {"
    ∷ "    \treturn false;" ∷ "    }"
    ∷ "    if (! packer.Write(static_cast<uint32_t>(sub_len)) ) {return false;}"
    ∷ "    if (! packer.SkipWritePos(sub_len) ) {return false;}" ∷ "    break;" ∷ "  }" ∷ [])

unfoldable pub cc_encode_string_field : Text
cc_encode_string_field = unlines (
    "" ∷ "  if ( $$field$$_size > MAX_$$field_upper$$_SIZE ) {" ∷ "      return false;" ∷ "  }"
    ∷ "  if (! packer.Write(static_cast<uint32_t>($$field$$_size)) ) {return false;}"
    ∷ "  if (! packer.Write($$field$$, $$field$$_size)) {return false;}" ∷ [])

unfoldable pub cc_encode_simple_vec_field : Text
cc_encode_simple_vec_field = unlines (
    "" ∷ "  if ( $$field$$_size > MAX_$$field_upper$$_SIZE ) {" ∷ "      return false;" ∷ "  }"
    ∷ "  if (! packer.Write($$field$$_size) ) {return false;}"
    ∷ "  for (uint32_t idx = 0; idx < this->$$field$$_size; ++idx) {"
    ∷ "    if (!packer.Write($$field$$[idx])) {return false;}" ∷ "  }" ∷ [])

unfoldable pub cc_encode_struct_vec_field : Text
cc_encode_struct_vec_field = unlines (
    "" ∷ "  if ( $$field$$_size > MAX_$$field_upper$$_SIZE ) {" ∷ "      return false;" ∷ "  }"
    ∷ "  if (! packer.Write($$field$$_size) ) {return false;}"
    ∷ "  for (uint32_t idx = 0; idx < this->$$field$$_size; ++idx) {"
    ∷ "    int sub_pos = packer.WritePos() + sizeof(uint32_t);" ∷ "    int sub_len = len - sub_pos;"
    ∷ "    if ( !$$field$$[idx].Encode( data + sub_pos, sub_len)) {" ∷ "    \treturn false;"
    ∷ "    }" ∷ "    if (! packer.Write(static_cast<uint32_t>(sub_len)) ) {return false;}"
    ∷ "    if (! packer.SkipWritePos(sub_len) ) {return false;}" ∷ "    break;" ∷ "  }" ∷ [])

unfoldable pub cc_encode_end : Text
cc_encode_end = unlines ("   " ∷ "  len = packer.WritePos();" ∷ "  return true;" ∷ "}" ∷ [])
