-- ===== src/Template.antt =====
-- Templates of the generators: a text in which `$$key$$` marks a place to be filled. The tools fill
-- a place by `text.replace("$$key$$", value)`; here a template is read as its literals and keys.
pub mod Replace
pub mod Render
pub mod NoDollar
use yarf.Common.{
  ℕ, Bool, false, not, ◌&&◌, ◌||◌, List, [], ◌∷◌, ◌++◌, leb, ◌==◌, if◌then◌else◌, all,
}
use yarf.Text.{Text, text_eq, replace, split}

pub data Template : Type 0 where
  done : Text → Template
  hole : Text → Text → Template → Template

-- The dollar sign, and the mark `$$key$$`.
abbrev pub dollar : ℕ
dollar = b'$'

abbrev pub dollars : Text
dollars = dollar ∷ dollar ∷ []

abbrev pub mark : Text → Text
mark k = dollar ∷ dollar ∷ k ++ dollars

unfoldable pub unparse : Template → Text
unparse (done l) = l
unparse (hole l k t) = l ++ (dollar ∷ dollar ∷ k ++ (dollar ∷ dollar ∷ unparse t))

of_pieces : List Text → Template
of_pieces [] = done []
of_pieces (l ∷ []) = done l
of_pieces (l ∷ k ∷ []) = done (l ++ (dollar ∷ dollar ∷ k))
of_pieces (l ∷ k ∷ p ∷ ps) = hole l k (of_pieces (p ∷ ps))

-- The literals and the keys of a text, alternately.
unfoldable pub parse : Text → Template
unfolding of_pieces split
parse t = of_pieces (split dollars t)

-- A chain of calls `t.replace(k1, v1).replace(k2, v2)`, the keys given without their dollars.
abbrev pub Env : Type 0
Env = List (Text × Text)

unfoldable pub replaces : Env → Text → Text
replaces [] t = t
replaces ((k, v) ∷ env) t = replaces env (replace (mark k) v t)

-- The specification: every place is filled at once, by the first binding of its key, and an
-- unbound key stays.
unfoldable pub value_of : Env → Text → Text
value_of [] j = mark j
value_of ((k, v) ∷ env) j = if text_eq j k then v else value_of env j

unfoldable pub render : Env → Template → Text
render env (done l) = l
render env (hole l k t) = l ++ (value_of env k ++ render env t)

-- What makes the marks unambiguous: no dollar in a literal, keys of letters, digits and `_`, and
-- between two places something that is in no key.
abbrev pub is_key_char : ℕ → Bool
is_key_char c =
    (leb b'a' c && leb c b'z')
    || (leb b'A' c && leb c b'Z')
    || (leb b'0' c && leb c b'9')
    || c == b'_'

abbrev pub is_no_dollar : ℕ → Bool
is_no_dollar c = not (c == dollar)

unfoldable pub no_dollar : Text → Bool
no_dollar = all is_no_dollar

unfoldable pub is_key : Text → Bool
is_key [] = false
is_key (c ∷ k) = is_key_char c && all is_key_char k

unfoldable pub separates : Text → Bool
separates l = not (all is_key_char l)

unfoldable pub is_clear_after : Template → Bool
is_clear_after (done l) = no_dollar l
is_clear_after (hole l k t) = no_dollar l && separates l && is_key k && is_clear_after t

unfoldable pub is_clear : Template → Bool
is_clear (done l) = no_dollar l
is_clear (hole l k t) = no_dollar l && is_key k && is_clear_after t
