-- ===== src/Wizard2svr/Writes.antt =====
-- The writes of tools/wizard2svr.py, and the contents of its four files.
use yarf.Common.{◌≡◌, ◌∙◌, ap, false, some, [], ◌++◌, if◌then◌else◌}
use yarf.Text.{Text, codes, text_eq, replace}
use yarf.Text.Equality.{text_eq_refl}
use yarf.Wizard2svr.Templates.{cmake_main, cmake_src, main_inc_begin, main_inc_end, simple_main_cc}
use yarf.Wizard2svr.{
  FileSystem, IsFileSystem, inc_path, src_path, main_make_path, src_make_path, macro_of,
  svr_name_mark, write_files,
}
use yarf.Wizard2svr.Paths.{
  inc-src, inc-main_make, inc-src_make, src-main_make, main_make-src_make, src-src_make, flip,
}
use yarf.Wizard2svr.Filled.{
  inc_text, src_text, main_make_text, src_make_text, filled_main_make, filled_src_make, filled_src,
  filled_inc_begin, filled_inc_end,
}

module _ (fs : FileSystem) where
  -- The contents of the four files of a server.
  pub record Holds (d n a b c e : Text) (s : fs.Store) : Type 0 where
    pub inc : fs.content (inc_path d n) s ≡ some a
    pub src : fs.content (src_path d n) s ≡ some b
    pub main_make : fs.content (main_make_path d) s ≡ some c
    pub src_make : fs.content (src_make_path d) s ≡ some e

module _ (fs : FileSystem) (law : IsFileSystem fs) where
  -- A write puts its text at the end of its file,
  write_own :
      (p t c : Text) (s : fs.Store)
      → fs.content p s ≡ some c
      → fs.content p (fs.write p t s) ≡ some (c ++ t)
  write_own p t c s h =
      law.write_content p p t c s h
      ∙ ap (λ x. if x then some (c ++ t) else fs.content p s) (text_eq_refl p)

  -- and leaves the others.
  write_other :
      (p k t c : Text) (s : fs.Store)
      → fs.content p s ≡ some c
      → text_eq p k ≡ false
      → fs.content k (fs.write p t s) ≡ fs.content k s
  write_other p k t c s h ne =
      law.write_content p k t c s h ∙ ap (λ x. if x then some (c ++ t) else fs.content k s) ne

  write_inc :
      (d n a b c e t : Text) (s : fs.Store)
      → Holds fs d n a b c e s
      → Holds fs d n (a ++ t) b c e (fs.write (inc_path d n) t s)
  write_inc d n a b c e t s h = record {
    inc = write_own _ t a s h.inc;
    src = write_other _ _ t a s h.inc (inc-src d n) ∙ h.src;
    main_make = write_other _ _ t a s h.inc (inc-main_make d n) ∙ h.main_make;
    src_make = write_other _ _ t a s h.inc (inc-src_make d n) ∙ h.src_make;
  }

  write_src :
      (d n a b c e t : Text) (s : fs.Store)
      → Holds fs d n a b c e s
      → Holds fs d n a (b ++ t) c e (fs.write (src_path d n) t s)
  write_src d n a b c e t s h = record {
    inc = write_other _ _ t b s h.src (flip _ _ (inc-src d n)) ∙ h.inc;
    src = write_own _ t b s h.src;
    main_make = write_other _ _ t b s h.src (src-main_make d n) ∙ h.main_make;
    src_make = write_other _ _ t b s h.src (src-src_make d n) ∙ h.src_make;
  }

  write_main_make :
      (d n a b c e t : Text) (s : fs.Store)
      → Holds fs d n a b c e s
      → Holds fs d n a b (c ++ t) e (fs.write (main_make_path d) t s)
  write_main_make d n a b c e t s h = record {
    inc = write_other _ _ t c s h.main_make (flip _ _ (inc-main_make d n)) ∙ h.inc;
    src = write_other _ _ t c s h.main_make (flip _ _ (src-main_make d n)) ∙ h.src;
    main_make = write_own _ t c s h.main_make;
    src_make = write_other _ _ t c s h.main_make (main_make-src_make d n) ∙ h.src_make;
  }

  write_src_make :
      (d n a b c e t : Text) (s : fs.Store)
      → Holds fs d n a b c e s
      → Holds fs d n a b c (e ++ t) (fs.write (src_make_path d) t s)
  write_src_make d n a b c e t s h = record {
    inc = write_other _ _ t e s h.src_make (flip _ _ (inc-src_make d n)) ∙ h.inc;
    src = write_other _ _ t e s h.src_make (flip _ _ (src-src_make d n)) ∙ h.src;
    main_make = write_other _ _ t e s h.src_make (flip _ _ (main_make-src_make d n)) ∙ h.main_make;
    src_make = write_own _ t e s h.src_make;
  }

  -- The five writes over empty files.
  pub write_files-Holds :
      (d n : Text) (s : fs.Store)
      → Holds fs d n [] [] [] [] s
      → Holds fs d n
          (inc_text n)
          (src_text n)
          (main_make_text n)
          (src_make_text n)
          (write_files fs d n s)
  unfolding write_files
  write_files-Holds d n s h = record {
    inc = all.inc ∙ ap some (cong2 (filled_inc_begin n) (filled_inc_end n));
    src = all.src ∙ ap some (filled_src n);
    main_make = all.main_make ∙ ap some (filled_main_make n);
    src_make = all.src_make ∙ ap some (filled_src_make n);
  }
    where
      cong2 : {a a' b b' : Text} → a ≡ a' → b ≡ b' → a ++ b ≡ a' ++ b'
      cong2 p q = cc

      all :
          Holds fs d n
            (replace (codes "$$MACRO$$") (macro_of n) main_inc_begin
              ++ replace (codes "$$MACRO$$") (macro_of n) main_inc_end)
            (replace svr_name_mark n simple_main_cc)
            (replace svr_name_mark n cmake_main)
            (replace svr_name_mark n cmake_src)
            (write_files fs d n s)
      all = write_inc d n _ _ _ _ _ _ (
          write_inc d n _ _ _ _ _ _ (
            write_src d n _ _ _ _ _ _
              (write_src_make d n _ _ _ _ _ _ (write_main_make d n _ _ _ _ _ _ h))))
