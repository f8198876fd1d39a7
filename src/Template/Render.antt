-- ===== src/Template/Render.antt =====
-- A chain of `replace` calls renders a clear template: the order of the calls does not matter to the
-- places, and what was filled in is not read again.
use mathlib.Core.List.{append_assoc}
use yarf.Common.{
  ◌≡◌, refl, sym, ap, ◌∙◌, Bool, true, false, ◌&&◌, ◌||◌, inl, inr, List, [], ◌∷◌, ◌++◌, arith, all,
  all-append, Bool-cases,
}
use yarf.Text.{Text, text_eq}
use yarf.Text.Split.{join, join-split}
use yarf.Template.{
  Template, done, hole, dollar, dollars, parse, of_pieces, unparse, is_key_char, no_dollar,
  separates, is_clear, is_clear_after, Env, replaces, value_of, render,
}
use yarf.Template.Replace.{prepend, fill, replace-unparse}

-- The calls of a chain: keys as in a template, and values that hold no dollar.
unfoldable pub is_clean : Env → Bool
is_clean [] = true
is_clean ((k, v) ∷ env) = all is_key_char k && no_dollar v && is_clean env

pub no_dollar-append : (s t : Text) → no_dollar (s ++ t) ≡ (no_dollar s && no_dollar t)
unfolding no_dollar
no_dollar-append s t = all-append _ s t

pub join_clean : (s t : Text) → no_dollar s ≡ true → no_dollar t ≡ true → no_dollar (s ++ t) ≡ true
join_clean s t hs ht = ground (arith, no_dollar-append s t)

separates-append : (s t : Text) → separates s ≡ true → separates (s ++ t) ≡ true
unfolding separates
separates-append s t h = ground (arith, all-append is_key_char s t)

prepend-clear_after :
    (p : Text) (t : Template)
    → no_dollar p ≡ true
    → separates p ≡ true
    → is_clear_after t ≡ true
    → is_clear_after (prepend p t) ≡ true
unfolding is_clear_after prepend
prepend-clear_after p (done l) hp hs ht = ground (arith, no_dollar-append p l)
prepend-clear_after p (hole l j t) hp hs ht =
    ground (arith, no_dollar-append p l, separates-append p l hs)

prepend-clear :
    (p : Text) (t : Template)
    → no_dollar p ≡ true
    → is_clear_after t ≡ true
    → is_clear (prepend p t) ≡ true
unfolding is_clear is_clear_after prepend
prepend-clear p (done l) hp ht = ground (arith, no_dollar-append p l)
prepend-clear p (hole l j t) hp ht = ground (arith, no_dollar-append p l)

fill-clear_after :
    (k v : Text) (t : Template)
    → no_dollar v ≡ true
    → is_clear_after t ≡ true
    → is_clear_after (fill k v t) ≡ true
unfolding fill is_clear_after
fill-clear_after k v (done l) hv ht = ht
fill-clear_after k v (hole l j t) hv ht = ground (
  arith,
  fill-clear_after k v t,
  no_dollar-append l v,
  separates-append l v,
  prepend-clear_after (l ++ v) (fill k v t),
)

-- Filling keeps a template clear.
pub fill-clear :
    (k v : Text) (t : Template)
    → no_dollar v ≡ true
    → is_clear t ≡ true
    → is_clear (fill k v t) ≡ true
unfolding fill is_clear
fill-clear k v (done l) hv ht = ht
fill-clear k v (hole l j t) hv ht =
    ground
      (arith, fill-clear_after k v t, no_dollar-append l v, prepend-clear (l ++ v) (fill k v t))

render-prepend :
    (env : Env) (p : Text) (t : Template) → render env (prepend p t) ≡ p ++ render env t
unfolding render prepend
render-prepend env p (done l) = refl
render-prepend env p (hole l j t) = append_assoc p l _

render-fill :
    (k v : Text) (env : Env) (t : Template) → render env (fill k v t) ≡ render ((k, v) ∷ env) t
unfolding render fill value_of
render-fill k v env (done l) = refl
render-fill k v env (hole l j t) = elim (Bool-cases (text_eq j k)) [
  | inl e ↦
      rw (e, fill)
        (render-prepend env (l ++ v) (fill k v t)
          ∙ append_assoc l v _
          ∙ ap (λ (x : Text). l ++ (v ++ x)) (render-fill k v env t))
  | inr e ↦ rw (e, fill) (ap (λ (x : Text). l ++ (value_of env j ++ x)) (render-fill k v env t))
]

render-nil : (t : Template) → render [] t ≡ unparse t
unfolding render unparse value_of
render-nil (done l) = refl
render-nil (hole l j t) = rw (append_assoc, render-nil t) refl

-- On the text of a clear template a chain of `replace` calls does what one simultaneous
-- substitution does, if the values hold no dollar.
pub replaces-unparse :
    (env : Env) (t : Template)
    → is_clean env ≡ true
    → is_clear t ≡ true
    → replaces env (unparse t) ≡ render env t
unfolding replaces is_clean
replaces-unparse [] t he ht = sym (render-nil t)
replaces-unparse ((k, v) ∷ env) t he ht =
    ap (replaces env) (replace-unparse k v t (ground arith) ht)
    ∙ replaces-unparse env (fill k v t) (ground arith) (fill-clear k v t (ground arith) ht)
    ∙ render-fill k v env t

-- The keys of a template all have a binding.
unfoldable pub is_bound : Env → Text → Bool
is_bound [] j = false
is_bound ((k, v) ∷ env) j = text_eq j k || is_bound env j

unfoldable pub binds : Env → Template → Bool
binds env (done l) = true
binds env (hole l k t) = is_bound env k && binds env t

value_of-no_dollar :
    (env : Env) (j : Text)
    → is_clean env ≡ true
    → is_bound env j ≡ true
    → no_dollar (value_of env j) ≡ true
unfolding value_of is_clean is_bound
value_of-no_dollar [] j he hb = cc
value_of-no_dollar ((k, v) ∷ env) j he hb = ground (arith, value_of-no_dollar env j)

render-no_dollar_after :
    (env : Env) (t : Template)
    → is_clean env ≡ true
    → is_clear_after t ≡ true
    → binds env t ≡ true
    → no_dollar (render env t) ≡ true
unfolding render is_clear_after binds
render-no_dollar_after env (done l) he ht hb = ht
render-no_dollar_after env (hole l k t) he ht hb = ground (
  arith,
  render-no_dollar_after env t,
  value_of-no_dollar env k,
  no_dollar-append l (value_of env k ++ render env t),
  no_dollar-append (value_of env k) (render env t),
)

-- If every key is bound, no place is left and no dollar.
pub render-no_dollar :
    (env : Env) (t : Template)
    → is_clean env ≡ true
    → is_clear t ≡ true
    → binds env t ≡ true
    → no_dollar (render env t) ≡ true
unfolding render is_clear binds
render-no_dollar env (done l) he ht hb = ht
render-no_dollar env (hole l k t) he ht hb = ground (
  arith,
  render-no_dollar_after env t,
  value_of-no_dollar env k,
  no_dollar-append l (value_of env k ++ render env t),
  no_dollar-append (value_of env k) (render env t),
)

unparse-of_pieces : (ps : List Text) → unparse (of_pieces ps) ≡ join dollars ps
unfolding unparse of_pieces join
unparse-of_pieces [] = refl
unparse-of_pieces (l ∷ []) = refl
unparse-of_pieces (l ∷ k ∷ []) = refl
unparse-of_pieces (l ∷ k ∷ p ∷ ps) =
    ap (λ (x : Text). l ++ (dollar ∷ dollar ∷ k ++ (dollar ∷ dollar ∷ x)))
      (unparse-of_pieces (p ∷ ps))

-- Reading a text as a template loses nothing.
pub unparse-parse : (s : Text) → unparse (parse s) ≡ s
unfolding parse
unparse-parse s = unparse-of_pieces _ ∙ join-split dollar (dollar ∷ []) s

-- The chain of calls on a template's text is its rendering.
pub replaces_lem :
    (env : Env) (s : Text)
    → is_clean env ≡ true
    → is_clear (parse s) ≡ true
    → replaces env s ≡ render env (parse s)
replaces_lem env s he hs =
    ap (replaces env) (sym (unparse-parse s)) ∙ replaces-unparse env (parse s) he hs
