-- ===== src/Text.antt =====
-- Byte strings of Python 2 and the `str` methods that the tools call. A text is a list of bytes.
pub mod Equality
pub mod Split
use Prim.Native.Char.{code}
use Prim.Native.String.{String}
use mathlib.Core.Option
use yarf.Common.{
  ℕ, zero, suc, ◌+◌, ◌-◌, Bool, true, false, ◌&&◌, ◌||◌, Option, none, some, List, [], ◌∷◌, ◌++◌,
  map, all, leb, ltb, ◌==◌, if◌then◌else◌, length, drop,
}

abbrev pub Text : Type 0
Text = List ℕ

-- The bytes of a literal, which is ASCII wherever the tools write one.
abbrev pub codes : String → Text
codes String.[] = []
codes (String.◌∷◌ c s) = code c ∷ codes s

-- A literal of several lines, each closed by a line feed.
abbrev pub unlines : List String → Text
unlines [] = []
unlines (s ∷ l) = codes s ++ (10 ∷ unlines l)

-- s == t
unfoldable pub text_eq : Text → Text → Bool
text_eq [] [] = true
text_eq [] (d ∷ t) = false
text_eq (c ∷ s) [] = false
text_eq (c ∷ s) (d ∷ t) = c == d && text_eq s t

-- The bytes that Python 2 decodes and encodes without an error where unicode meets bytes.
abbrev pub is_ascii : Text → Bool
is_ascii t = all (λ c. ltb c 128) t

-- t.startswith(s)
unfoldable pub is_prefix : Text → Text → Bool
is_prefix [] t = true
is_prefix (c ∷ s) [] = false
is_prefix (c ∷ s) (d ∷ t) = c == d && is_prefix s t

-- t.find(s): the lowest index at which `s` stands, and `none` for -1.
unfoldable pub find : Text → Text → Option ℕ
unfolding is_prefix
find s [] = if is_prefix s [] then some 0 else none
find s (d ∷ t) = if is_prefix s (d ∷ t) then some 0 else Option.map suc (find s t)

-- The scan of t.replace(old, new), from the left and without overlaps; the number counts the bytes
-- of the last match that are still to be skipped. The tools never pass an empty `old`.
unfoldable pub replace_scan : Text → Text → ℕ → Text → Text
unfolding is_prefix
replace_scan old new k [] = []
replace_scan old new (suc k) (d ∷ t) = replace_scan old new k t
replace_scan old new zero (d ∷ t) = elim (is_prefix old (d ∷ t)) [
  | true ↦ new ++ replace_scan old new (length old - 1) t
  | false ↦ d ∷ replace_scan old new zero t
]

unfoldable pub replace : Text → Text → Text → Text
unfolding replace_scan
replace old new t = replace_scan old new 0 t

abbrev pub push : ℕ → List Text → List Text
push c [] = (c ∷ []) ∷ []
push c (p ∷ ps) = (c ∷ p) ∷ ps

-- t.split(sep) for a `sep` that is not empty.
unfoldable pub split_scan : Text → ℕ → Text → List Text
unfolding is_prefix
split_scan sep k [] = [] ∷ []
split_scan sep (suc k) (d ∷ t) = split_scan sep k t
split_scan sep zero (d ∷ t) = elim (is_prefix sep (d ∷ t)) [
  | true ↦ [] ∷ split_scan sep (length sep - 1) t
  | false ↦ push d (split_scan sep zero t)
]

unfoldable pub split : Text → Text → List Text
unfolding split_scan
split sep t = split_scan sep 0 t

-- The white space of str.lstrip: tab, line feed, vertical tab, form feed, return and space.
abbrev pub is_space : ℕ → Bool
is_space c = c == 32 || (leb 9 c && leb c 13)

-- t.lstrip()
unfoldable pub lstrip : Text → Text
lstrip [] = []
lstrip (c ∷ t) = if is_space c then lstrip t else c ∷ t

-- t.rstrip() and t.strip()
unfoldable pub rstrip : Text → Text
rstrip [] = []
rstrip (c ∷ t) = elim (rstrip t) [ [] ↦ if is_space c then [] else c ∷ [] | d ∷ r ↦ c ∷ d ∷ r ]

unfoldable pub strip : Text → Text
unfolding lstrip rstrip
strip t = rstrip (lstrip t)

-- ch.upper() of one byte, in the C locale
unfoldable pub upper_char : ℕ → ℕ
upper_char c = if leb b'a' c && leb c b'z' then c - 32 else c

-- t.upper()
unfoldable pub upper : Text → Text
unfolding upper_char
upper = map upper_char

-- The last part of a split, which has one part at least.
abbrev pub last_part : List Text → Text
last_part [] = []
last_part (p ∷ []) = p
last_part (p ∷ q ∷ ps) = last_part (q ∷ ps)
