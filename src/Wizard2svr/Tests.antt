-- ===== src/Wizard2svr/Tests.antt =====
-- tools/wizard2svr.py on a file system that is a dictionary of files and a list of directories.
use yarf.Common.{
  ◌≡◌, refl, sym, ◌∙◌, ap, Bool, true, false, Option, none, some, List, [], ◌∷◌, ◌++◌,
  if◌then◌else◌, os_error, failed, Bool-cases, inl, inr, next,
}
use yarf.Dict.{Dict, lookup, insert, lookup-insert}
use yarf.Text.{Text, is_prefix, codes, text_eq, find}
use yarf.Wizard2svr.{
  Mkdir, made, refused, FileSystem, IsFileSystem, make_dirs, mkdir_wrapper, open_files, inc_path,
  src_path, main_make_path, src_make_path, main, file_exists,
}
use yarf.Wizard2svr.Main.{main_lem, main_dir_of}
use yarf.Wizard2svr.Filled.{inc_text, src_text, main_make_text, src_make_text}
use yarf.Wizard2svr.Completes.{Makes, fresh, there, Opens, opened, main-Makes}
use yarf.Cpplint.IncludeState.Alphabet.{dirname, up_to_slash, strip_slashes}
use yarf.Text.Equality.{text_eq_refl}
use yarf.Wizard2svr.Directories.{make_dirs-Fails}

record Disk : Type 0 where
  files : Dict Text
  dirs : List Text

member : Text → List Text → Bool
member d [] = false
member d (e ∷ es) = if text_eq d e then true else member d es

-- A directory that this system makes for nobody.
abbrev locked : Text
locked = codes "/proc/svr"

abbrev make : Text → Disk → Mkdir Disk
make d s =
    if text_eq d locked
    then refused (codes "[Errno 2] No such file or directory")
    else if member d s.dirs
    then refused (codes "[Errno 17] File exists")
    else made (record s { dirs = d ∷ s.dirs })

put : Text → Text → Disk → Option Text → Disk
put p t s none = s
put p t s (some c) = record s { files = insert p (c ++ t) s.files }

abbrev disk_system : FileSystem
disk_system = record {
  Store = Disk;
  mkdir = make;
  open_write = λ p s. some (record s { files = insert p [] s.files });
  write = λ p t s. put p t s (lookup p s.files);
  content = λ p s. lookup p s.files;
}

some_inj : {a b : Text} → some a ≡ some b → a ≡ b
some_inj e = cc

seen : Text → Option Disk → Option Text
seen k none = none
seen k (some s) = lookup k s.files

-- The content after a try to make a directory.
seen_after : Text → Disk → Mkdir Disk → Option Text
seen_after k s (refused err) = lookup k s.files
seen_after k s (made s') = lookup k s'.files

seen_after-make : (k d : Text) (s : Disk) → seen_after k s (make d s) ≡ lookup k s.files
unfolding lookup seen_after
seen_after-make k d s = both (text_eq d locked) (member d s.dirs)
  where
    both :
        (b c : Bool)
        → seen_after k s (
            if b
            then refused (codes "[Errno 2] No such file or directory")
            else if c
            then refused (codes "[Errno 17] File exists")
            else made (record s { dirs = d ∷ s.dirs }))
          ≡ lookup k s.files
    both true c = refl
    both false true = refl
    both false false = refl

put-lookup :
    (p k t c : Text) (s : Disk) (o : Option Text)
    → o ≡ some c
    → lookup k (put p t s o).files ≡ (if text_eq p k then some (c ++ t) else lookup k s.files)
unfolding put insert
put-lookup p k t c s none e = cc
put-lookup p k t c s (some b) e = rw (some_inj e) (lookup-insert p k (c ++ t) s.files)

disk_system-IsFileSystem : IsFileSystem disk_system
unfolding seen lookup seen_after
disk_system-IsFileSystem = record {
  open_content = λ p k s s' e. sym (ap (seen k) e) ∙ lookup-insert p k [] s.files;
  write_content = λ p k t c s e. put-lookup p k t c s (lookup p s.files) e;
  mkdir_content = λ d k s s' e. sym (ap (seen_after k s) e) ∙ seen_after-make k d s;
}

abbrev empty_disk : Disk
empty_disk = record { files = []; dirs = [] }

abbrev used_disk : Disk
used_disk = record { files = []; dirs = codes "a" ∷ [] }

main_lem_example :
    (disk_system.content
        (inc_path (main_dir_of (codes "t") (codes "echo")) (codes "echo"))
        (main disk_system (codes "t") (codes "echo") empty_disk).0
      ≡ some (inc_text (codes "echo")))
    × (disk_system.content
          (src_path (main_dir_of (codes "t") (codes "echo")) (codes "echo"))
          (main disk_system (codes "t") (codes "echo") empty_disk).0
        ≡ some (src_text (codes "echo")))
    × (disk_system.content
          (main_make_path (main_dir_of (codes "t") (codes "echo")))
          (main disk_system (codes "t") (codes "echo") empty_disk).0
        ≡ some (main_make_text (codes "echo")))
    × (disk_system.content
          (src_make_path (main_dir_of (codes "t") (codes "echo")))
          (main disk_system (codes "t") (codes "echo") empty_disk).0
        ≡ some (src_make_text (codes "echo")))
unfolding main make_dirs mkdir_wrapper find is_prefix open_files text_eq member
main_lem_example =
    main_lem disk_system disk_system-IsFileSystem (codes "t") (codes "echo") empty_disk refl

make_dirs-Fails_example :
    make_dirs disk_system (codes "a" ∷ locked ∷ codes "b" ∷ []) used_disk
    ≡ (used_disk, failed os_error)
unfolding find is_prefix text_eq member
make_dirs-Fails_example =
    make_dirs-Fails disk_system used_disk (codes "a" ∷ []) locked (codes "b" ∷ [])
      (record { err = codes "[Errno 17] File exists"; place = 1; refusal = refl; says = refl }, tt)
      (record { err = codes "[Errno 2] No such file or directory"; refusal = refl; says = refl })

-- A disk on which an entry is made in a directory that is there, and in no other place.
abbrev make_in : Text → Disk → Mkdir Disk
make_in d s =
    if member d s.dirs
    then refused (codes "[Errno 17] File exists")
    else if member (dirname d) s.dirs
    then made (record s { dirs = d ∷ s.dirs })
    else refused (codes "[Errno 2] No such file or directory")

abbrev open_in : Text → Disk → Option Disk
open_in p s =
    if member (dirname p) s.dirs then some (record s { files = insert p [] s.files }) else none

abbrev tree_system : FileSystem
tree_system = record {
  Store = Disk;
  mkdir = make_in;
  open_write = open_in;
  write = λ p t s. put p t s (lookup p s.files);
  content = λ p s. lookup p s.files;
}

abbrev HasDir : Text → Disk → Type 0
HasDir d s = member d s.dirs ≡ true

abbrev AnyDisk : Disk → Type 0
AnyDisk s = Unit

-- The directory above is there, and the one for configurations is there already.
abbrev root_disk : Disk
root_disk = record {
  files = [];
  dirs = codes "t/../.." ∷ codes "t/../../echo" ∷ codes "t/../../echo/conf" ∷ [];
}

make_in-Makes :
    (d : Text) (s : Disk) → member (dirname d) s.dirs ≡ true → Makes tree_system HasDir AnyDisk s d
unfolding find is_prefix member
make_in-Makes d s up = elim (Bool-cases (member d s.dirs)) [
  | inl e ↦
      there
        (record {
          err = codes "[Errno 17] File exists";
          place = 1;
          refusal = rw e refl;
          says = found;
        })
        e
  | inr e ↦
      fresh (record s { dirs = d ∷ s.dirs }) (rw (e, up) refl) (tt, λ k h. kept k h (text_eq k d))
        (rw (text_eq_refl d) refl)
]
  where
    found : find file_exists (codes "[Errno 17] File exists") ≡ some 1
    found = refl

    kept :
        (k : Text)
        → member k s.dirs ≡ true
        → (b : Bool) → (if b then true else member k s.dirs) ≡ true
    kept k h true = refl
    kept k h false = h

open_in-Opens :
    (p : Text) (s : Disk) → member (dirname p) s.dirs ≡ true → Opens tree_system HasDir AnyDisk s p
open_in-Opens p s up = opened (record s { files = insert p [] s.files }) (rw up refl) (tt, λ k h. h)

main-Makes_example : (main tree_system (codes "t") (codes "echo") root_disk).1 ≡ next tt
unfolding text_eq member dirname up_to_slash strip_slashes
main-Makes_example =
    main-Makes tree_system HasDir AnyDisk (codes "t") (codes "echo") root_disk tt refl
      (λ s c h. make_in-Makes _ s h)
      (
        (λ s c h. make_in-Makes _ s h),
        (
          (λ s c h. make_in-Makes _ s h),
          (
            (λ s c h. make_in-Makes _ s h),
            (
              (λ s c h. make_in-Makes _ s h),
              ((λ s c h. make_in-Makes _ s h), ((λ s c h. make_in-Makes _ s h), tt)),
            ),
          ),
        ),
      )
      (λ s c h. open_in-Opens _ s h) (λ s c h. open_in-Opens _ s h) (λ s c h. open_in-Opens _ s h)
      (λ s c h. open_in-Opens _ s h)
