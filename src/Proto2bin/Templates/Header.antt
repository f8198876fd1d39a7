-- ===== src/Proto2bin/Templates/Header.antt =====
-- The templates of the header file in tools/proto2bin.py.
use yarf.Common.{[], ◌∷◌, ◌++◌}
use yarf.Text.{Text, codes, unlines}

unfoldable pub h_begin : Text
h_begin =
    unlines
      ("" ∷ "#ifndef $$macro$$" ∷ "#define $$macro$$" ∷ "#include \"yarf/net/bin_packer.h\"" ∷ [])

unfoldable pub h_include : Text
h_include = unlines ("" ∷ "#include \"$$file_pre$$_binpack.h\"" ∷ [])

unfoldable pub h_ns_begin : Text
h_ns_begin = unlines ("" ∷ "namespace $$ns$$" ∷ "{" ∷ [])

unfoldable pub h_class_begin : Text
h_class_begin = unlines ("" ∷ []) ++ codes "struct $$class_name$$ {"

unfoldable pub h_single_field : Text
h_single_field = unlines ("" ∷ "  // field $$field$$" ∷ "  $$field_type$$ $$field$$;" ∷ [])

unfoldable pub h_string_field : Text
h_string_field = unlines (
    "" ∷ "  // field $$field$$" ∷ "  static const uint32_t MAX_$$field_upper$$_SIZE = $$max$$;"
    ∷ "  char $$field$$[MAX_$$field_upper$$_SIZE + 1];" ∷ "  uint32_t $$field$$_size;"
    ∷ "  bool set_$$field$$(const char* input) {" ∷ "    if (nullptr == input ) { return false; }"
    ∷ "    uint32_t unreachable_len = MAX_$$field_upper$$_SIZE + 1;"
    ∷ "    uint32_t cur_len = strnlen(input, unreachable_len);"
    ∷ "    if ( cur_len >= unreachable_len) { return false;}"
    ∷ "    strncpy(this->$$field$$, input, cur_len);" ∷ "    this->$$field$$_size = cur_len;"
    ∷ "    this->$$field$$[cur_len] = '0';" ∷ "    return true;" ∷ "  }"
    ∷ "  bool set_$$field$$(const char* input, uint32_t len) {"
    ∷ "    if (nullptr == input ) { return false; }"
    ∷ "    if ( len >=  MAX_$$field_upper$$_SIZE + 1 ) { return false; }"
    ∷ "    strncpy(this->$$field$$, input, len);" ∷ "    this->$$field$$_size = len;"
    ∷ "    this->$$field$$[len] = '0';" ∷ "    return true;" ∷ "  }" ∷ [])

unfoldable pub h_vec_field : Text
h_vec_field = unlines (
    "" ∷ "  // field $$field$$" ∷ "  static const uint32_t MAX_$$field_upper$$_SIZE = $$max$$;"
    ∷ "  $$field_type$$ $$field$$[MAX_$$field_upper$$_SIZE];" ∷ "  uint32_t $$field$$_size;"
    ∷ "  // field $$field$$ opt func" ∷ "  $$field_type$$* Add$$field_first_up$$() {"
    ∷ "    if ($$field$$_size >= MAX_$$field_upper$$_SIZE) {" ∷ "        return nullptr;" ∷ "    }"
    ∷ "    $$field$$_size++;" ∷ "    return &($$field$$[$$field$$_size-1]);" ∷ "  }"
    ∷ "  bool Add$$field_first_up$$(const $$field_type$$& input) {"
    ∷ "    if ($$field$$_size >= MAX_$$field_upper$$_SIZE) {" ∷ "        return false;" ∷ "    }"
    ∷ "    $$field$$[$$field$$_size] = input;" ∷ "    $$field$$_size++;" ∷ "    return true;"
    ∷ "  }" ∷ [])

unfoldable pub h_class_end : Text
h_class_end = unlines (
    "" ∷ "  // encode & decode" ∷ "  bool Encode(char* data, int& len) const;"
    ∷ "  bool Decode(const char* data, int len);" ∷ "};" ∷ [])

unfoldable pub h_end : Text
h_end = unlines ("" ∷ "" ∷ "} // namespace $$ns$$" ∷ "" ∷ "#endif  // $$macro$$" ∷ [])
