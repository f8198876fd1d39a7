-- ===== src/Proto2bin/Templates/Decode.antt =====
-- The templates of `Decode` in tools/proto2bin.py.
use yarf.Common.{[], ◌∷◌}
use yarf.Text.{Text, unlines}

unfoldable pub cc_decode_begin : Text
cc_decode_begin = unlines (
    "" ∷ "bool $$ns$$::$$class_name$$::Decode(const char* data, int len) {"
    ∷ "  if (nullptr == data) {" ∷ "    return false;" ∷ "  }"
    ∷ "  yarf::net::BinDecoder packer(data, len);" ∷ [])

unfoldable pub cc_decode_simple_field : Text
cc_decode_simple_field = unlines ("" ∷ "  if (!packer.Read($$field$$)) {return false;}" ∷ [])

unfoldable pub cc_decode_struct_field : Text
cc_decode_struct_field = unlines (
    "" ∷ "  while (true) {" ∷ "    uint32_t sub_len = 0;"
    ∷ "    if (!packer.Read(sub_len)) {return false;}"
    ∷ "  \tif (!$$field$$.Decode(data + packer.ReadPos(), sub_len) ) {return false;}"
    ∷ "    if (!packer.SkipReadPos(sub_len)) {return false;}" ∷ "    break;" ∷ "  }" ∷ [])

unfoldable pub cc_decode_string_field : Text
cc_decode_string_field = unlines (
    "" ∷ "  if (! packer.Read($$field$$_size) ) {return false;}"
    ∷ "  if (! packer.Read(&($$field$$), $$field$$_size)) {return false;}" ∷ [])

unfoldable pub cc_decode_simple_vec_field : Text
cc_decode_simple_vec_field = unlines (
    "" ∷ "  if (!packer.Read($$field$$_size)) {return false;}"
    ∷ "  if ( $$field$$_size  > MAX_$$field_upper$$_SIZE ) {" ∷ "      return false;" ∷ "  }"
    ∷ "  for (uint32_t idx = 0; idx < $$field$$_size; ++idx) {"
    ∷ "    if (!packer.Read($$field$$[idx])) {return false;}" ∷ "  }" ∷ [])

unfoldable pub cc_decode_struct_vec_field : Text
cc_decode_struct_vec_field = unlines (
    "" ∷ "  if (!packer.Read($$field$$_size)) {return false;}"
    ∷ "  if ( $$field$$_size  > MAX_$$field_upper$$_SIZE ) {" ∷ "      return false;" ∷ "  }"
    ∷ "  for (uint32_t idx = 0; idx < $$field$$_size; ++idx) {" ∷ "    uint32_t sub_len = 0;"
    ∷ "    if (!packer.Read(sub_len)) {return false;}"
    ∷ "  \tif (!$$field$$[idx].Decode(data + packer.ReadPos(), sub_len) ) {return false;}"
    ∷ "    if (!packer.SkipReadPos(sub_len)) {return false;}" ∷ "  }" ∷ [])

unfoldable pub code_decode_end : Text
code_decode_end = unlines ("" ∷ "  return true;" ∷ "}" ∷ [])
