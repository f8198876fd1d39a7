-- ===== src/Wizard2svr/Directories.antt =====
-- `mkdir_wrapper` of tools/yarf_util.py, and the calls of it that tools/wizard2svr.py makes.
use yarf.Common.{
  ℕ, All, ◌≡◌, refl, ◌∙◌, ap, none, some, List, [], ◌∷◌, ◌++◌, os_error, next, failed,
}
use yarf.Text.{Text, find}
use yarf.Wizard2svr.{
  refused, FileSystem, file_exists, caught, wrap, mkdir_wrapper, and_then, make_dirs,
}

-- The directory cannot be made since it is there.
pub record Exists (fs : FileSystem) (s : fs.Store) (dir : Text) : Type 0 where
  pub err : Text
  pub place : ℕ
  pub refusal : fs.mkdir dir s ≡ refused err
  pub says : find file_exists err ≡ some place

-- The directory cannot be made for another reason.
pub record Fails (fs : FileSystem) (s : fs.Store) (dir : Text) : Type 0 where
  pub err : Text
  pub refusal : fs.mkdir dir s ≡ refused err
  pub says : find file_exists err ≡ none

module _ (fs : FileSystem) (s : fs.Store) where
  -- A call of `mkdir_wrapper` that goes on, and one that fails.
  pub make_dirs_next :
      (dir : Text) (dirs : List Text)
      → mkdir_wrapper fs dir s ≡ (s, next tt)
      → make_dirs fs (dir ∷ dirs) s ≡ make_dirs fs dirs s
  unfolding make_dirs
  make_dirs_next dir dirs e = ap (λ w. and_then fs w (make_dirs fs dirs)) e

  pub mkdir_wrapper-Exists : (dir : Text) → Exists fs s dir → mkdir_wrapper fs dir s ≡ (s, next tt)
  unfolding mkdir_wrapper
  mkdir_wrapper-Exists dir e = ap (wrap fs s) e.refusal ∙ ap (caught fs s) e.says

  pub mkdir_wrapper-Fails :
      (dir : Text) → Fails fs s dir → mkdir_wrapper fs dir s ≡ (s, failed os_error)
  unfolding mkdir_wrapper
  mkdir_wrapper-Fails dir e = ap (wrap fs s) e.refusal ∙ ap (caught fs s) e.says

-- Directories that are there already are passed over.
pub make_dirs-Exists :
    (fs : FileSystem) (s : fs.Store) (dirs rest : List Text)
    → All (Exists fs s) dirs
    → make_dirs fs (dirs ++ rest) s ≡ make_dirs fs rest s
unfolding make_dirs
make_dirs-Exists fs s [] rest h = refl
make_dirs-Exists fs s (dir ∷ dirs) rest (h, hs) =
    make_dirs_next fs s dir (dirs ++ rest) (mkdir_wrapper-Exists fs s dir h)
    ∙ make_dirs-Exists fs s dirs rest hs

-- Over a list of directories whose first ones are there already and whose next one cannot be made
-- for another reason, `make_dirs` stops there with that OSError; it has changed nothing and does
-- not come to the rest.
pub make_dirs-Fails :
    (fs : FileSystem) (s : fs.Store) (dirs : List Text) (dir : Text) (rest : List Text)
    → All (Exists fs s) dirs
    → Fails fs s dir
    → make_dirs fs (dirs ++ (dir ∷ rest)) s ≡ (s, failed os_error)
unfolding make_dirs
make_dirs-Fails fs s dirs dir rest h e =
    make_dirs-Exists fs s dirs (dir ∷ rest) h
    ∙ ap (λ w. and_then fs w (make_dirs fs rest)) (mkdir_wrapper-Fails fs s dir e)
