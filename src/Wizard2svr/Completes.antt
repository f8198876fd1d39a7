-- ===== src/Wizard2svr/Completes.antt =====
-- When tools/wizard2svr.py comes to its end, on a file system where a directory is made below one that
-- is there, and a file is opened in one that is there.
use yarf.Common.{
  ◌≡◌, refl, ◌∙◌, ap, All, none, some, List, [], ◌∷◌, ◌++◌, Flow, next, returned, failed,
}
use yarf.Text.{Text, codes}
use yarf.Wizard2svr.{
  made, FileSystem, mkdir_wrapper, wrap, and_then, make_dirs, inc_path, src_path, main_make_path,
  src_make_path, open_files, write_files, main,
}
use yarf.Wizard2svr.Directories.{Exists, mkdir_wrapper-Exists}
use yarf.Wizard2svr.Main.{main_dir_of, four}

-- The directories that the tool makes in the new one.
abbrev pub below : Text → List Text
below d =
    (d ++ codes "/build")
    ∷ (d ++ codes "/include")
    ∷ (d ++ codes "/src")
    ∷ (d ++ codes "/bin")
    ∷ (d ++ codes "/conf")
    ∷ (d ++ codes "/3rd")
    ∷ []

-- `HasDir` says of a path that a directory is there, and `IsClear` of a state that nothing else stands
-- where the tool makes its directories and files.
module _ (fs : FileSystem) (HasDir : Text → fs.Store → Type 0) (IsClear : fs.Store → Type 0) where
  -- What a call that makes an entry keeps.
  abbrev pub Keeps : fs.Store → fs.Store → Type 0
  Keeps s s' = IsClear s' × ((k : Text) → HasDir k s → HasDir k s')

  -- The directory is made, or it was there.
  pub data Makes (s : fs.Store) (dir : Text) : Type 0 where
    fresh : (s' : fs.Store) → fs.mkdir dir s ≡ made s' → Keeps s s' → HasDir dir s' → Makes s dir
    there : Exists fs s dir → HasDir dir s → Makes s dir

  -- The file is opened.
  pub data Opens (s : fs.Store) (path : Text) : Type 0 where
    opened : (s' : fs.Store) → fs.open_write path s ≡ some s' → Keeps s s' → Opens s path

  -- In a directory that is there, the directory is made, or the file opened.
  abbrev pub MakesIn : Text → Text → Type 0
  MakesIn up dir = (s : fs.Store) → IsClear s → HasDir up s → Makes s dir

  abbrev pub OpensIn : Text → Text → Type 0
  OpensIn up path = (s : fs.Store) → IsClear s → HasDir up s → Opens s path

  mkdir_wrapper-Makes :
      (dir : Text) (s : fs.Store)
      → IsClear s
      → Makes s dir
      → (s' : fs.Store) × (mkdir_wrapper fs dir s ≡ (s', next tt)) × Keeps s s' × HasDir dir s'
  unfolding mkdir_wrapper
  mkdir_wrapper-Makes dir s c (fresh s' e keeps has) = (s', ap (wrap fs s) e, keeps, has)
  mkdir_wrapper-Makes dir s c (there e has) =
      (s, mkdir_wrapper-Exists fs s dir e, (c, λ k h. h), has)

  -- Directories in one that is there.
  make_dirs-Makes :
      (up : Text) (dirs : List Text) (s : fs.Store)
      → IsClear s
      → HasDir up s
      → All (MakesIn up) dirs
      → (s' : fs.Store) × (make_dirs fs dirs s ≡ (s', next tt))
        × Keeps s s'
        × All (λ dir. HasDir dir s') dirs
  unfolding make_dirs
  make_dirs-Makes up [] s c has h = (s, refl, (c, λ k h. h), tt)
  make_dirs-Makes up (dir ∷ dirs) s c has (h, hs) =
      let (s1, e1, (c1, keeps1), has1) = mkdir_wrapper-Makes dir s c (h s c has) in
      let (s2, e2, (c2, keeps2), has2) = make_dirs-Makes up dirs s1 c1 (keeps1 up has) hs in
      (
        s2,
        ap (λ r. and_then fs r (λ s'. make_dirs fs dirs s')) e1 ∙ e2,
        (c2, λ k h. keeps2 k (keeps1 k h)),
        (keeps2 dir has1, has2),
      )

  -- A file in a directory that is there, and those behind it.
  open_files_next :
      (up path : Text) (paths : List Text) (s : fs.Store)
      → IsClear s
      → HasDir up s
      → OpensIn up path
      → (s' : fs.Store) × Keeps s s' × (open_files fs (path ∷ paths) s ≡ open_files fs paths s')
  unfolding open_files
  open_files_next up path paths s c has h = go (h s c has)
    where
      go :
          Opens s path
          → (s' : fs.Store) × Keeps s s' × (open_files fs (path ∷ paths) s ≡ open_files fs paths s')
      go (opened s' e keeps) = (
        s',
        keeps,
        ap
            (λ o. elim o as (λ x. fs.Store × Flow (Unit {0})) [
              | none ↦ (s, returned)
              | some s' ↦ open_files fs paths s'
            ])
            e,
      )

  open_files-Opens :
      (d n : Text) (s : fs.Store)
      → IsClear s
      → HasDir d s
      → HasDir (d ++ codes "/include") s
      → HasDir (d ++ codes "/src") s
      → OpensIn (d ++ codes "/include") (inc_path d n)
      → OpensIn (d ++ codes "/src") (src_path d n)
      → OpensIn d (main_make_path d)
      → OpensIn (d ++ codes "/src") (src_make_path d)
      → (open_files fs (four d n) s).1 ≡ next tt
  unfolding open_files
  open_files-Opens d n s c main inc src h1 h2 h3 h4 =
      let (s1, (c1, k1), e1) =
        open_files_next _ (inc_path d n) (src_path d n ∷ main_make_path d ∷ src_make_path d ∷ []) s
          c inc h1 in
      let (s2, (c2, k2), e2) =
        open_files_next _ (src_path d n) (main_make_path d ∷ src_make_path d ∷ []) s1 c1 (k1 _ src)
          h2 in
      let (s3, (c3, k3), e3) =
        open_files_next _ (main_make_path d) (src_make_path d ∷ []) s2 c2 (k2 _ (k1 _ main)) h3 in
      let (s4, k4, e4) = open_files_next _ (src_make_path d) [] s3 c3 (k3 _ (k2 _ (k1 _ src))) h4 in
      ap (λ r. r.1) (e1 ∙ (e2 ∙ (e3 ∙ e4)))

  goes_on :
      (r : fs.Store × Flow (Unit {0})) (f : fs.Store → fs.Store × Flow (Unit {0}))
      → r.1 ≡ next tt
      → ((s : fs.Store) → (f s).1 ≡ next tt)
      → (and_then fs r f).1 ≡ next tt
  goes_on (s, next u) f e h = h s
  goes_on (s, returned) f e h = cc
  goes_on (s, failed err) f e h = cc

  -- For any notion of a directory that is there and of a state in which nothing is in the way: if in
  -- every such state the new directory can be made, or is there already, where the one above it is
  -- there, its six directories where the new one is there, and the four files can be opened where the
  -- directories that they belong to are there, each keeping what is there and the way clear, then
  -- from such a state, in which the directory above is there, `main` comes to its end.
  pub main-Makes :
      (tool_dir n : Text) (s : fs.Store)
      → IsClear s
      → HasDir (tool_dir ++ codes "/../..") s
      → MakesIn (tool_dir ++ codes "/../..") (main_dir_of tool_dir n)
      → All (MakesIn (main_dir_of tool_dir n)) (below (main_dir_of tool_dir n))
      → OpensIn (main_dir_of tool_dir n ++ codes "/include") (inc_path (main_dir_of tool_dir n) n)
      → OpensIn (main_dir_of tool_dir n ++ codes "/src") (src_path (main_dir_of tool_dir n) n)
      → OpensIn (main_dir_of tool_dir n) (main_make_path (main_dir_of tool_dir n))
      → OpensIn (main_dir_of tool_dir n ++ codes "/src") (src_make_path (main_dir_of tool_dir n))
      → (main fs tool_dir n s).1 ≡ next tt
  unfolding main make_dirs
  main-Makes tool_dir n s c up makes subs h1 h2 h3 h4 =
      let d = main_dir_of tool_dir n in
      let (s1, e1, (c1, k1), has) = mkdir_wrapper-Makes d s c (makes s c up) in
      let (s2, e2, (c2, k2), (build, (inc, (src, others)))) =
        make_dirs-Makes d (below d) s1 c1 has subs in
      ap (λ r. (after d r).1) (ap (λ r. and_then fs r (make_dirs fs (below d))) e1 ∙ e2)
      ∙ goes_on (open_files fs (four d n) s2) _
          (open_files-Opens d n s2 c2 (k2 d has) inc src h1 h2 h3 h4) (λ s'. refl)
    where
      after : Text → fs.Store × Flow (Unit {0}) → fs.Store × Flow (Unit {0})
      after d r =
          and_then fs r (λ s1.
            and_then fs (open_files fs (four d n) s1) (λ s2. (write_files fs d n s2, next tt)))
