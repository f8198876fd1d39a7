-- ===== src/Wizard2svr.antt =====
-- tools/wizard2svr.py, which lays out the directory of a new server, and `mkdir_wrapper` of
-- tools/yarf_util.py. The file system is a parameter.
pub mod Templates
pub mod Paths
pub mod Directories
pub mod Filled
pub mod Writes
pub mod Main
pub mod Completes
mod Tests
use yarf.Common.{
  ℕ, ◌≡◌, Option, none, some, List, [], ◌∷◌, ◌++◌, if◌then◌else◌, Result, ok, raised, os_error,
  Flow, next, returned, failed,
}
use yarf.Text.{Text, codes, text_eq, find, replace, upper}
use yarf.Wizard2svr.Templates.{cmake_main, cmake_src, main_inc_begin, main_inc_end, simple_main_cc}

-- What os.mkdir does: it makes the directory, or raises OSError with this text.
pub data Mkdir (S : Type 0) : Type 0 where
  made : S → Mkdir S
  refused : Text → Mkdir S

-- The operating system, over its own kind of state. `open_write` is open(p, 'w'), with `none` for an
-- exception; `write` appends to an open file; `content` is what a reader would find.
pub record FileSystem : Type 1 where
  pub Store : Type 0
  pub mkdir : Text → Store → Mkdir Store
  pub open_write : Text → Store → Option Store
  pub write : Text → Text → Store → Store
  pub content : Text → Store → Option Text

-- What the documentation says of it: opening for writing empties that file and no other, writing
-- appends to that file and to no other, and making a directory leaves all files as they are.
pub record IsFileSystem (fs : FileSystem) : Type 0 where
  pub open_content :
      (p k : Text) (s s' : fs.Store)
      → fs.open_write p s ≡ some s'
      → fs.content k s' ≡ (if text_eq p k then some [] else fs.content k s)
  pub write_content :
      (p k t c : Text) (s : fs.Store)
      → fs.content p s ≡ some c
      → fs.content k (fs.write p t s) ≡ (if text_eq p k then some (c ++ t) else fs.content k s)
  pub mkdir_content :
      (d k : Text) (s s' : fs.Store) → fs.mkdir d s ≡ made s' → fs.content k s' ≡ fs.content k s

-- The text by which `mkdir_wrapper` knows that the directory is there.
abbrev pub file_exists : Text
file_exists = codes "Errno 17] File exis"

module _ (fs : FileSystem) where
  abbrev pub caught : fs.Store → Option ℕ → fs.Store × Flow (Unit {0})
  caught s none = (s, failed os_error)
  caught s (some i) = (s, next tt)

  abbrev pub wrap : fs.Store → Mkdir fs.Store → fs.Store × Flow (Unit {0})
  wrap s (made s') = (s', next tt)
  wrap s (refused err) = caught s (find file_exists err)

  unfoldable pub mkdir_wrapper : Text → fs.Store → fs.Store × Flow (Unit {0})
  mkdir_wrapper dir s = wrap s (fs.mkdir dir s)

  abbrev pub and_then :
      fs.Store × Flow (Unit {0})
      → (fs.Store → fs.Store × Flow (Unit {0}))
      → fs.Store × Flow (Unit {0})
  and_then (s, next u) f = f s
  and_then (s, returned) f = (s, returned)
  and_then (s, failed e) f = (s, failed e)

  -- The calls of `mkdir_wrapper`, one after the other; an exception ends the tool.
  unfoldable pub make_dirs : List Text → fs.Store → fs.Store × Flow (Unit {0})
  make_dirs [] s = (s, next tt)
  make_dirs (dir ∷ dirs) s = and_then (mkdir_wrapper dir s) (λ s'. make_dirs dirs s')

  -- The four calls of `open` under one `try`: an exception is printed, and ends the tool.
  unfoldable pub open_files : List Text → fs.Store → fs.Store × Flow (Unit {0})
  open_files [] s = (s, next tt)
  open_files (path ∷ paths) s = elim (fs.open_write path s) as (λ x. fs.Store × Flow (Unit {0})) [
    | none ↦ (s, returned)
    | some s' ↦ open_files paths s'
  ]

abbrev pub dirs_of : Text → List Text
dirs_of main_dir =
    main_dir
    ∷ (main_dir ++ codes "/build")
    ∷ (main_dir ++ codes "/include")
    ∷ (main_dir ++ codes "/src")
    ∷ (main_dir ++ codes "/bin")
    ∷ (main_dir ++ codes "/conf")
    ∷ (main_dir ++ codes "/3rd")
    ∷ []

abbrev pub inc_path : Text → Text → Text
inc_path main_dir svr_name =
    main_dir ++ (codes "/include" ++ (codes "/" ++ (svr_name ++ codes ".h")))

abbrev pub src_path : Text → Text → Text
src_path main_dir svr_name =
    main_dir ++ (codes "/src" ++ (codes "/" ++ (svr_name ++ codes "_main.cc")))

abbrev pub main_make_path : Text → Text
main_make_path main_dir = main_dir ++ codes "/CMakeLists.txt"

abbrev pub src_make_path : Text → Text
src_make_path main_dir = main_dir ++ (codes "/src" ++ codes "/CMakeLists.txt")

abbrev pub macro_of : Text → Text
macro_of svr_name = upper svr_name ++ (codes "_" ++ (upper svr_name ++ codes "_H_"))

abbrev pub svr_name_mark : Text
svr_name_mark = codes "$$svr_name$$"

-- The five writes.
unfoldable pub write_files : (fs : FileSystem) → Text → Text → fs.Store → fs.Store
write_files fs main_dir svr_name s =
    let inc = inc_path main_dir svr_name in
    let macro = macro_of svr_name in
    let s = fs.write (main_make_path main_dir) (replace svr_name_mark svr_name cmake_main) s in
    let s = fs.write (src_make_path main_dir) (replace svr_name_mark svr_name cmake_src) s in
    let s =
      fs.write (src_path main_dir svr_name) (replace svr_name_mark svr_name simple_main_cc) s in
    let s = fs.write inc (replace (codes "$$MACRO$$") macro main_inc_begin) s in
    fs.write inc (replace (codes "$$MACRO$$") macro main_inc_end) s

-- `main` behind its prompts; `tool_dir` is os.path.split(sys.argv[0])[0]. The answers on the type of
-- the server and of its includes are read and not used.
unfoldable pub main : (fs : FileSystem) → Text → Text → fs.Store → fs.Store × Flow (Unit {0})
main fs tool_dir svr_name s =
    let main_dir = tool_dir ++ (codes "/../../" ++ svr_name) in
    and_then fs (make_dirs fs (dirs_of main_dir) s) (λ s1.
      and_then fs
        (open_files fs
          (inc_path main_dir svr_name
            ∷ src_path main_dir svr_name
            ∷ main_make_path main_dir
            ∷ src_make_path main_dir
            ∷ [])
          s1)
        (λ s2. (write_files fs main_dir svr_name s2, next tt)))
