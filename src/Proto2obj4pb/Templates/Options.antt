-- ===== src/Proto2obj4pb/Templates/Options.antt =====
-- The templates of the functions on arrays in tools/proto2obj4pb.py.
use yarf.Common.{[], ◌∷◌}
use yarf.Text.{Text, unlines}

unfoldable pub cc_opt_func : Text
cc_opt_func = unlines (
    "" ∷ "$$field_type$$* $$ns$$::$$class_name$$::Add$$field_first_up$$(){"
    ∷ "    if ($$field$$_size >= MAX_$$field_upper$$_SIZE) {" ∷ "        return nullptr;" ∷ "    }"
    ∷ "    $$field$$_size++;" ∷ "    return &($$field$$[$$field$$_size-1]);" ∷ "}" ∷ ""
    ∷ "bool $$ns$$::$$class_name$$::Add$$field_first_up$$(const $$field_type$$& input) {"
    ∷ "    if ($$field$$_size >= MAX_$$field_upper$$_SIZE) {" ∷ "        return false;" ∷ "    }"
    ∷ "    $$field$$[$$field$$_size] = input;" ∷ "    $$field$$_size++;" ∷ "    return true;" ∷ "}"
    ∷ "" ∷ "$$field_type$$* $$ns$$::$$class_name$$::Find$$field_first_up$$ByIdx(uint32_t idx) {"
    ∷ "    if (idx >= $$field$$_size) {" ∷ "        return nullptr;" ∷ "    }"
    ∷ "    return &($$field$$[idx]);" ∷ "}" ∷ "    "
    ∷ "bool $$ns$$::$$class_name$$::Del$$field_first_up$$ByIdx(const uint32_t idx) {"
    ∷ "    if (idx >= $$field$$_size) {" ∷ "        return false;" ∷ "    }"
    ∷ "    if (idx == $$field$$_size - 1) {" ∷ "        $$field$$_size--;" ∷ "        return true;"
    ∷ "    }" ∷ "" ∷ "    char* dest = reinterpret_cast<char*>(&$$field$$[idx]);"
    ∷ "    const char* src = reinterpret_cast<char*>(&$$field$$[idx+1]);"
    ∷ "    const char* end = reinterpret_cast<char*>(&$$field$$[$$field$$_size]);"
    ∷ "    memcpy(dest, src, end - src);" ∷ "    $$field$$_size--;" ∷ "    return true;" ∷ "}" ∷ [])

unfoldable pub cc_additional_opt_func : Text
cc_additional_opt_func = unlines (
    ""
    ∷ "$$field_type$$* $$ns$$::$$class_name$$::Find$$field_first_up$$ByKey($$field_key_type$$ $$field_key_name$$) {"
    ∷ "    for (uint32_t idx = 0; idx < $$field$$_size; ++idx) {"
    ∷ "        if ($$field$$[idx].$$field_key_name$$ == $$field_key_name$$) {"
    ∷ "            return &($$field$$[idx]);" ∷ "        }" ∷ "    }" ∷ "    return nullptr;" ∷ "}"
    ∷ ""
    ∷ "bool $$ns$$::$$class_name$$::Del$$field_first_up$$ByKey($$field_key_type$$ $$field_key_name$$) {"
    ∷ "    for (uint32_t idx = 0; idx < $$field$$_size; ++idx) {"
    ∷ "        if ($$field$$[idx].$$field_key_name$$ == $$field_key_name$$) {"
    ∷ "            return Del$$field_first_up$$ByIdx(idx);" ∷ "        }" ∷ "    }"
    ∷ "    return false;" ∷ "}" ∷ [])
