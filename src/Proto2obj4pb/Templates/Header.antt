-- ===== src/Proto2obj4pb/Templates/Header.antt =====
-- The templates of the header file in tools/proto2obj4pb.py.
use yarf.Common.{[], ◌∷◌, ◌++◌}
use yarf.Text.{Text, codes, unlines}

unfoldable pub h_begin : Text
h_begin = unlines (
    "" ∷ "#ifndef $$macro$$" ∷ "#define $$macro$$" ∷ "" ∷ "#include <string>" ∷ "using std::string;"
    ∷ "" ∷ "#include \"$$file_pre$$.pb.h\"" ∷ [])

unfoldable pub h_include : Text
h_include =
    unlines ("" ∷ "#include \"$$file_pre$$.pb.h\"" ∷ "#include \"$$file_pre$$_rawdata.h\"" ∷ [])

unfoldable pub h_ns_begin : Text
h_ns_begin = unlines ("" ∷ "namespace $$ns$$" ∷ "{" ∷ [])

unfoldable pub h_class_begin : Text
h_class_begin = unlines ("" ∷ []) ++ codes "struct $$class_name$$ {"

unfoldable pub h_single_field : Text
h_single_field = unlines ("" ∷ "    // field $$field$$" ∷ "    $$field_type$$ $$field$$;" ∷ [])

unfoldable pub h_string_field : Text
h_string_field = unlines (
    "" ∷ "    // field $$field$$" ∷ "    static const uint32_t MAX_$$field_upper$$_SIZE = $$max$$;"
    ∷ "    char $$field$$[MAX_$$field_upper$$_SIZE + 1];" ∷ "    uint32_t $$field$$_size;" ∷ ""
    ∷ "    bool set_$$field$$(const char* input) {"
    ∷ "        if (nullptr == input ) { return false; }"
    ∷ "        uint32_t unreachable_len = MAX_$$field_upper$$_SIZE + 1;"
    ∷ "        uint32_t cur_len = strnlen(input, unreachable_len);"
    ∷ "        if ( cur_len >= unreachable_len) { return false;}" ∷ ""
    ∷ "        strncpy(this->$$field$$, input, cur_len);"
    ∷ "        this->$$field$$_size = cur_len;" ∷ "        this->$$field$$[cur_len] = '0';"
    ∷ "        return true;" ∷ "    }" ∷ "    bool set_$$field$$(const char* input, uint32_t len) {"
    ∷ "        if (nullptr == input ) { return false; }"
    ∷ "        if ( len >=  MAX_$$field_upper$$_SIZE + 1 ) { return false; }"
    ∷ "        strncpy(this->$$field$$, input, len);" ∷ "        this->$$field$$_size = len;"
    ∷ "        this->$$field$$[len] = '0';" ∷ "        return true;" ∷ "    }" ∷ [])

unfoldable pub h_vec_field : Text
h_vec_field = unlines (
    "" ∷ "    // field $$field$$" ∷ "    static const uint32_t MAX_$$field_upper$$_SIZE = $$max$$;"
    ∷ "    $$field_type$$ $$field$$[MAX_$$field_upper$$_SIZE];" ∷ "    uint32_t $$field$$_size;"
    ∷ "    // field $$field$$ opt func"
    ∷ "    bool Add$$field_first_up$$(const $$field_type$$& input);"
    ∷ "    $$field_type$$* Add$$field_first_up$$();"
    ∷ "    $$field_type$$* Find$$field_first_up$$ByIdx(uint32_t idx);"
    ∷ "    bool Del$$field_first_up$$ByIdx(const uint32_t idx);" ∷ [])

unfoldable pub h_vec_field_more : Text
h_vec_field_more = unlines (
    "    $$field_type$$* Find$$field_first_up$$ByKey($$field_key_type$$ $$field_key_name$$);"
    ∷ "    bool Del$$field_first_up$$ByKey($$field_key_type$$ $$field_key_name$$);" ∷ [])

unfoldable pub h_class_end : Text
h_class_end =
    unlines (
      "" ∷ "    // encode & decode" ∷ "    bool ToProtobuf("
      ∷ "        Proto::$$ns$$::$$class_name$$* target) const;"
      ∷ "    bool FromProtobuf(const char* buf, size_t len);"
      ∷ "    bool FromProtobuf(const Proto::$$ns$$::$$class_name$$& input);" ∷ [])
    ++ codes "};"

unfoldable pub h_end : Text
h_end = unlines ("" ∷ "" ∷ "} // namespace $$ns$$" ∷ "" ∷ "#endif  // $$macro$$" ∷ [])
