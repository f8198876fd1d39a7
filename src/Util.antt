-- ===== src/Util.antt =====
-- tools/yarf_util.py. proto2bin.py, proto2obj4pb.py and proto2conf.py repeat its first three functions.
pub mod Camel
mod Tests
use yarf.Common.{ℕ, Bool, true, false, Option, none, some, [], ◌∷◌, ◌++◌, ◌==◌, if◌then◌else◌}
use yarf.Text.{Text, codes, find, upper_char}

-- `1 == text.find(s)`; the callers return 1 or 0
abbrev found_at_one : Option ℕ → ℕ
found_at_one none = 0
found_at_one (some i) = if i == 1 then 1 else 0

-- `a` is what platform.platform() returns.
unfoldable pub islinux : Text → ℕ
islinux a = found_at_one (find (codes "inux") a)

unfoldable pub iswin : Text → ℕ
iswin a = found_at_one (find (codes "indows") a)

-- The loop of `first2upper` over the characters left, with its variables `head` and `ret`.
unfoldable pub first2upper_loop : Bool → Text → Text → Text
first2upper_loop head ret [] = ret
first2upper_loop head ret (ch ∷ str) =
    first2upper_loop (if ch == b'_' then true else false)
      (if ch == b'_' then ret else if head then ret ++ (upper_char ch ∷ []) else ret ++ (ch ∷ []))
      str

unfoldable pub first2upper : Text → Text
unfolding first2upper_loop
first2upper str = first2upper_loop true [] str
