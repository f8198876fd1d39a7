-- ===== src/Wizard2svr/Templates.antt =====
-- The templates of tools/wizard2svr.py.
use yarf.Common.{[], ◌∷◌}
use yarf.Text.{Text, unlines}

unfoldable pub cmake_main : Text
cmake_main = unlines (
    "" ∷ "########################################################" ∷ "#"
    ∷ "cmake_minimum_required (VERSION 2.8)" ∷ "" ∷ "project($$svr_name$$)" ∷ "" ∷ ""
    ∷ "#--------------------------------------------------------"
    ∷ "set(CMAKE_CXX_FLAGS \"${CMAKE_CXX_FLAGS} -Wall -g -fPIC -std=c++0x\")" ∷ ""
    ∷ "#--------------------------------------------------------"
    ∷ "# child dir can not use CMAKE_CURRENT_SOURCE_DIR"
    ∷ "set(WORK_DIR ${CMAKE_CURRENT_SOURCE_DIR}/)" ∷ ""
    ∷ "set(YARF_INC_DIR ${WORK_DIR}/../yarf/include/)" ∷ "set(YARF_LIB_DIR ${WORK_DIR}/../yarf/lib)"
    ∷ "" ∷ "set(GTEST_INC_DIR ${WORK_DIR}/../3rd/gtest1.8/include)"
    ∷ "set(GTEST_LIB_DIR ${WORK_DIR}/../3rd/gtest1.8/lib)" ∷ ""
    ∷ "set(SELF_INC_DIR ${WORK_DIR}/include/)" ∷ "" ∷ ""
    ∷ "#--------------------------------------------------------"
    ∷ "include_directories(${YARF_INC_DIR} ${GTEST_INC_DIR} ${SELF_INC_DIR})"
    ∷ "link_directories(${YARF_LIB_DIR})" ∷ "" ∷ "set(LIBRARY_OUTPUT_PATH ${WORK_DIR}/lib/)"
    ∷ "set(EXECUTABLE_OUTPUT_PATH ${WORK_DIR}/bin)" ∷ "" ∷ "add_subdirectory(src)" ∷ [])

unfoldable pub cmake_src : Text
cmake_src = unlines (
    "" ∷ "cmake_minimum_required(VERSION 2.8)" ∷ "" ∷ "aux_source_directory(. SRC)" ∷ ""
    ∷ "add_executable(${PROJECT_NAME} ${SRC}) " ∷ "" ∷ "target_link_libraries(${PROJECT_NAME} yarf)"
    ∷ "#R7core comm proto_gen table protobuf flatbuffers pthread mysqlclient dl rt)     " ∷ [])

unfoldable pub main_inc_begin : Text
main_inc_begin = unlines (
    "" ∷ "#ifndef $$MACRO$$" ∷ "#define $$MACRO$$" ∷ "" ∷ "#include \"yarf/log.h\""
    ∷ "#include \"yarf/err.h\"" ∷ [])

unfoldable pub main_inc_end : Text
main_inc_end = unlines ("" ∷ "#endif // $$MACRO$$" ∷ "" ∷ [])

unfoldable pub simple_main_cc : Text
simple_main_cc = unlines (
    "" ∷ "" ∷ "#include \"$$svr_name$$.h\"" ∷ "" ∷ "int main() {" ∷ "  DEBUG_LOG(\"main begin\");"
    ∷ "  return 0;" ∷ "}" ∷ "" ∷ [])
