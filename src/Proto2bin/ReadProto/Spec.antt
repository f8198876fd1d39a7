-- ===== src/Proto2bin/ReadProto/Spec.antt =====
-- What `read_proto` of tools/proto2bin.py should find in a proto file, with no state: the messages
-- with the lines they begin on, their ranges, and the instructions.
use yarf.Common.{ℕ, ◌+◌, ◌-◌, Bool, true, false, not, ◌&&◌, List, [], ◌∷◌, if◌then◌else◌}
use yarf.Text.{Text, codes, text_eq, lstrip}
use yarf.Dict.{Dict, insert}
use yarf.Proto2bin.ReadProto.{LineKind, bad, opens, classify, stands_first}

-- A line that ends the call: two keywords, or no name behind the keyword.
unfoldable pub has_bad : List Text → Bool
has_bad [] = false
has_bad (l ∷ file) = elim (classify l) [ bad ↦ true | _ ↦ has_bad file ]

-- The messages behind the first `n` lines, with their line numbers.
abbrev pub open_on : LineKind → ℕ → List (Text × ℕ) → List (Text × ℕ)
open_on (opens name) n hs = (name, n) ∷ hs
open_on _ n hs = hs

unfoldable pub headers : ℕ → List Text → List (Text × ℕ)
headers n [] = []
headers n (l ∷ file) = open_on (classify l) (n + 1) (headers (n + 1) file)

-- A message reaches up to the line before the next, and the last one to the end of the file.
unfoldable pub ranges : List (Text × ℕ) → ℕ → List (Text × ℕ × ℕ)
ranges [] total = []
ranges ((name, a) ∷ []) total = (name, a, total) ∷ []
ranges ((name, a) ∷ (next_name, b) ∷ hs) total =
    (name, a, b - 1) ∷ ranges ((next_name, b) ∷ hs) total

-- The ranges as a dictionary, entered in their order.
unfoldable pub enter : List (Text × ℕ × ℕ) → Dict (List ℕ) → Dict (List ℕ)
enter [] d = d
enter ((name, a, e) ∷ rs) d = enter rs (insert name (a ∷ e ∷ []) d)

-- No message has the name of the one before it.
unfoldable pub alternate : Text → List (Text × ℕ) → Bool
alternate last [] = true
alternate last ((name, a) ∷ hs) = not (text_eq last name) && alternate name hs

-- The instructions from //gen_begin up to //gen_end, each line without its indentation.
unfoldable pub instructions_in : List Text → List Text
instructions_in [] = []
instructions_in (l ∷ file) =
    if stands_first (codes "//gen_end") (lstrip l) then [] else lstrip l ∷ instructions_in file

unfoldable pub instructions : List Text → List Text
instructions [] = []
instructions (l ∷ file) =
    if stands_first (codes "//gen_begin") (lstrip l)
    then lstrip l ∷ instructions_in file
    else instructions file
