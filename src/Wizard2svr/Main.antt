-- ===== src/Wizard2svr/Main.antt =====
-- What tools/wizard2svr.py leaves behind.
use yarf.Common.{
  ◌≡◌, refl, ◌∙◌, ap, Bool, true, false, ◌||◌, Option, none, some, List, [], ◌∷◌, ◌++◌,
  if◌then◌else◌, Flow, next, returned, failed,
}
use yarf.Text.{Text, codes, text_eq}
use yarf.Text.Equality.{text_eq_refl}
use yarf.Wizard2svr.{
  FileSystem, IsFileSystem, make_dirs, dirs_of, open_files, and_then, inc_path, src_path,
  main_make_path, src_make_path, write_files, main,
}
use yarf.Wizard2svr.Filled.{inc_text, src_text, main_make_text, src_make_text}
use yarf.Wizard2svr.Writes.{Holds, write_files-Holds}

abbrev pub four : Text → Text → List Text
four d n = inc_path d n ∷ src_path d n ∷ main_make_path d ∷ src_make_path d ∷ []

module _ (fs : FileSystem) (law : IsFileSystem fs) where
  unfoldable among : Text → List Text → Bool
  among k [] = false
  among k (p ∷ ps) = text_eq p k || among k ps

  -- After all files are opened each of them is empty.
  open_files_content :
      (ps : List Text) (k : Text) (s : fs.Store)
      → (open_files fs ps s).1 ≡ next tt
      → fs.content k (open_files fs ps s).0 ≡ (if among k ps then some [] else fs.content k s)
  unfolding open_files among
  open_files_content [] k s h = refl
  open_files_content (p ∷ ps) k s h =
      go (fs.open_write p s) (λ s' q. law.open_content p k s s' q)
        (λ s' q. open_files_content ps k s' q) h
    where
      go :
          (o : Option fs.Store)
          → ((s' : fs.Store)
              → o ≡ some s'
              → fs.content k s' ≡ (if text_eq p k then some [] else fs.content k s))
          → ((s' : fs.Store)
              → (open_files fs ps s').1 ≡ next tt
              → fs.content k (open_files fs ps s').0
                ≡ (if among k ps then some [] else fs.content k s'))
          → (elim o as (λ x. fs.Store × Flow (Unit {0})) [
            | none ↦ (s, returned)
            | some s' ↦ open_files fs ps s'
          ]).1
            ≡ next tt
          → fs.content k
              (elim o as (λ x. fs.Store × Flow (Unit {0})) [
                | none ↦ (s, returned)
                | some s' ↦ open_files fs ps s'
              ]).0
            ≡ (if text_eq p k || among k ps then some [] else fs.content k s)
      go none f ih e = cc
      go (some s') f ih e = ih s' e ∙ join (text_eq p k) (among k ps) (f s' refl)
        where
          join :
              (b c : Bool)
              → fs.content k s' ≡ (if b then some [] else fs.content k s)
              → (if c then some [] else fs.content k s')
                ≡ (if b || c then some [] else fs.content k s)
          join true true q = refl
          join true false q = q
          join false true q = refl
          join false false q = q

  among_here : (k : Text) (ps : List Text) → among k (k ∷ ps) ≡ true
  unfolding among
  among_here k ps = ap (λ x. x || among k ps) (text_eq_refl k)

  among_there : (k p : Text) (ps : List Text) → among k ps ≡ true → among k (p ∷ ps) ≡ true
  unfolding among
  among_there k p ps h = orb (text_eq p k) (among k ps) h
    where
      orb : (b c : Bool) → c ≡ true → b || c ≡ true
      orb true c h = refl
      orb false c h = h

  opened :
      (ps : List Text) (k : Text) (s : fs.Store)
      → (open_files fs ps s).1 ≡ next tt
      → among k ps ≡ true
      → fs.content k (open_files fs ps s).0 ≡ some []
  opened ps k s h m =
      open_files_content ps k s h ∙ ap (λ x. if x then some [] else fs.content k s) m

  opened-Holds :
      (d n : Text) (s : fs.Store)
      → (open_files fs (four d n) s).1 ≡ next tt
      → Holds fs d n [] [] [] [] (open_files fs (four d n) s).0
  opened-Holds d n s h = record {
    inc = opened (four d n) _ s h (among_here _ _);
    src = opened (four d n) _ s h (among_there _ _ _ (among_here _ _));
    main_make = opened (four d n) _ s h (among_there _ _ _ (among_there _ _ _ (among_here _ _)));
    src_make =
        opened (four d n) _ s h
          (among_there _ _ _ (among_there _ _ _ (among_there _ _ _ (among_here _ _))));
  }

  -- A step that goes on, and the rest of the work.
  and_then_next :
      (r : fs.Store × Flow (Unit {0})) (f : fs.Store → fs.Store × Flow (Unit {0}))
      → (and_then fs r f).1 ≡ next tt
      → (r.1 ≡ next tt) × ((f r.0).1 ≡ next tt) × ((and_then fs r f).0 ≡ (f r.0).0)
  and_then_next (s, next u) f h = (refl, h, refl)
  and_then_next (s, returned) f h = cc
  and_then_next (s, failed e) f h = cc

  at_same_store :
      (d n : Text) (s s' : fs.Store)
      → s ≡ s'
      → Holds fs d n (inc_text n) (src_text n) (main_make_text n) (src_make_text n) s'
      → Holds fs d n (inc_text n) (src_text n) (main_make_text n) (src_make_text n) s
  at_same_store d n s s' e h = record {
    inc = ap (fs.content _) e ∙ h.inc;
    src = ap (fs.content _) e ∙ h.src;
    main_make = ap (fs.content _) e ∙ h.main_make;
    src_make = ap (fs.content _) e ∙ h.src_make;
  }

  abbrev write_step : Text → Text → fs.Store → fs.Store × Flow (Unit {0})
  write_step d n s2 = (write_files fs d n s2, next tt)

  abbrev open_and_write : Text → Text → fs.Store → fs.Store × Flow (Unit {0})
  open_and_write d n s1 = and_then fs (open_files fs (four d n) s1) (write_step d n)

  abbrev run_files : Text → Text → fs.Store → fs.Store × Flow (Unit {0})
  run_files d n s = and_then fs (make_dirs fs (dirs_of d) s) (open_and_write d n)

  -- The steps of `main`, when the last is reached.
  main-Holds :
      (d n : Text) (s : fs.Store)
      → (run_files d n s).1 ≡ next tt
      → Holds fs d n
          (inc_text n)
          (src_text n)
          (main_make_text n)
          (src_make_text n)
          (run_files d n s).0
  main-Holds d n s h =
      let (e1, e2, e3) = and_then_next (make_dirs fs (dirs_of d) s) (open_and_write d n) h in
      let s1 = (make_dirs fs (dirs_of d) s).0 in
      let (g1, g2, g3) = and_then_next (open_files fs (four d n) s1) (write_step d n) e2 in
      at_same_store d n _ _ (e3 ∙ g3)
        (write_files-Holds fs law d n (open_files fs (four d n) s1).0 (opened-Holds d n s1 g1))

abbrev pub main_dir_of : Text → Text → Text
main_dir_of tool_dir n = tool_dir ++ (codes "/../../" ++ n)

-- On a file system that opens, writes and makes directories as documented, when `main` comes to its
-- end, the header, the source and the two build files under the directory of the server hold the
-- templates with the name of the server at `svr_name` and the guard made of it at `MACRO`, and
-- nothing else, whatever they held before.
pub main_lem :
    (fs : FileSystem)
    → IsFileSystem fs
    → (tool_dir n : Text) (s : fs.Store) → (main fs tool_dir n s).1 ≡ next tt
    → (fs.content (inc_path (main_dir_of tool_dir n) n) (main fs tool_dir n s).0
        ≡ some (inc_text n))
      × (fs.content (src_path (main_dir_of tool_dir n) n) (main fs tool_dir n s).0
          ≡ some (src_text n))
      × (fs.content (main_make_path (main_dir_of tool_dir n)) (main fs tool_dir n s).0
          ≡ some (main_make_text n))
      × (fs.content (src_make_path (main_dir_of tool_dir n)) (main fs tool_dir n s).0
          ≡ some (src_make_text n))
unfolding main
main_lem fs law tool_dir n s h =
    let all = main-Holds fs law (main_dir_of tool_dir n) n s h in
    (all.inc, all.src, all.main_make, all.src_make)
