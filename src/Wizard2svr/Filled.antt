-- ===== src/Wizard2svr/Filled.antt =====
-- The texts of the files that tools/wizard2svr.py writes.
use yarf.Common.{◌≡◌, refl, [], ◌∷◌, ◌++◌}
use yarf.Text.{Text, codes, text_eq, replace}
use yarf.Template.{Env, parse, render, value_of}
use yarf.Wizard2svr.Templates.{cmake_main, cmake_src, main_inc_begin, main_inc_end, simple_main_cc}
use yarf.Wizard2svr.{macro_of, svr_name_mark}

-- The values for the places of the templates.
abbrev pub svr_env : Text → Env
svr_env svr_name = (codes "svr_name", svr_name) ∷ (codes "MACRO", macro_of svr_name) ∷ []

-- The texts of the four files: the templates with their places filled.
abbrev pub inc_text : Text → Text
inc_text n = render (svr_env n) (parse main_inc_begin) ++ render (svr_env n) (parse main_inc_end)

abbrev pub src_text : Text → Text
src_text n = render (svr_env n) (parse simple_main_cc)

abbrev pub main_make_text : Text → Text
main_make_text n = render (svr_env n) (parse cmake_main)

abbrev pub src_make_text : Text → Text
src_make_text n = render (svr_env n) (parse cmake_src)

pub filled_main_make : (n : Text) → replace svr_name_mark n cmake_main ≡ main_make_text n
unfolding replace cmake_main parse render value_of text_eq
filled_main_make n = refl

pub filled_src_make : (n : Text) → replace svr_name_mark n cmake_src ≡ src_make_text n
unfolding replace cmake_src parse render value_of text_eq
filled_src_make n = refl

pub filled_src : (n : Text) → replace svr_name_mark n simple_main_cc ≡ src_text n
unfolding replace simple_main_cc parse render value_of text_eq
filled_src n = refl

pub filled_inc_begin :
    (n : Text)
    → replace (codes "$$MACRO$$") (macro_of n) main_inc_begin
      ≡ render (svr_env n) (parse main_inc_begin)
unfolding replace main_inc_begin parse render value_of text_eq
filled_inc_begin n = refl

pub filled_inc_end :
    (n : Text)
    → replace (codes "$$MACRO$$") (macro_of n) main_inc_end
      ≡ render (svr_env n) (parse main_inc_end)
unfolding replace main_inc_end parse render value_of text_eq
filled_inc_end n = refl
